-- ===== src/Did/Batch/Laws.antt =====
-- What a batch of creations leaves in the store.
use ssi_service.Prelude.{
  String, ◌≡◌, ◌⊎◌, refl, false, ap, Option, none, some, inl, inr, List, [], ◌∷◌, Result, ok, err,
  Error, ◌==◌, arith, Run-cases, Option-cases, Result-cases, if◌then◌else◌,
}
use ssi_service.Json.{Codec}
use ssi_service.Encryption.{Encrypter, Decrypter, Inverse}
use ssi_service.Storage.Contract.{
  ServiceStorage, IsLawful, in_transaction, in_transaction-ReadsWrites, execute, transaction_fails,
  transaction-eq-ok,
}
use ssi_service.Presentation.Storage.{SdkValue}
use ssi_service.Keystore.{Keys}
use ssi_service.Did.Ids.{namespace_for_did, namespace_for_did_others}
use ssi_service.Did.Storage.{StoredDid, get_did}
use ssi_service.Did.Handlers.{CreateDidRequest, Generated, create_key_did}
use ssi_service.Did.Handlers.Laws.{new_did, create_key_did_lem}
use ssi_service.Did.Batch.{watch_namespace, watch_key, create_each, batch_create_dids}

-- The DID of this id that a request makes, if it does.
made : {Doc : Type 0} → Result (Generated Doc) → String → Option (StoredDid Doc)
made (err e) id = none
made (ok g) id = if g.id == id then some (new_did g.id g) else none

later : {Doc : Type 0} → Option (StoredDid Doc) → Option (StoredDid Doc) → Option (StoredDid Doc)
later (some d) first = some d
later none first = first

-- The DID of this id that the last of the requests that make one makes.
unfoldable pub latest :
    {Doc : Type 0} → List (CreateDidRequest Doc) → String → Option (StoredDid Doc)
unfolding made later
latest [] id = none
latest (r ∷ rs) id = later (latest rs id) (made r.generated id)

-- The documents that the requests make.
unfoldable pub documents : {Doc : Type 0} → List (CreateDidRequest Doc) → List Doc
documents [] = []
documents (r ∷ rs) =
    let rest = documents rs in elim r.generated [ ok g ↦ g.document ∷ rest | err e ↦ rest ]

unfoldable pub or_before :
    {Doc : Type 0} → Option (StoredDid Doc) → Result (StoredDid Doc) → Result (StoredDid Doc)
or_before (some d) before = ok d
or_before none before = before

module _ {S Bytes Priv Jwk Doc : Type 0} (db : ServiceStorage S Bytes) (codec : Codec Bytes)
    (e : Encrypter Bytes) (d : Decrypter Bytes) (keys : Keys Bytes Priv Jwk)
    (docs : SdkValue Doc) where
  get_did-in_transaction :
      (s : S) (id : String)
      → get_did (in_transaction db) codec docs s id ≡ get_did db codec docs s id
  unfolding get_did in_transaction
  get_did-in_transaction s id = refl

  get_did_read :
      (s s' : S) (id : String)
      → ((ns k : String) → (watch_namespace == ns) ≡ false → db.read s' ns k ≡ db.read s ns k)
      → get_did db codec docs s' id ≡ get_did db codec docs s id
  unfolding get_did
  get_did_read s s' id same = elim (Result-cases (namespace_for_did id)) [
    | inl (x, p) ↦ ground arith
    | inr (ns, p) ↦
        let (_, _, other) = namespace_for_did_others id ns p in ground (arith, same ns id other)
  ]

  -- The batch writes its watch key, then runs the transaction.
  batch-cases :
      (starting : Bytes) (uuid now : String) (rs : List (CreateDidRequest Doc)) (s s' : S)
      (r : Result (List Doc))
      → batch_create_dids db codec e d keys docs starting uuid now rs s ≡ (r, s')
      → ((x : Error) × (r ≡ err x)
          × (db.write watch_namespace (watch_key uuid) starting s ≡ (err x, s')))
        ⊎ ((t : S) × (db.write watch_namespace (watch_key uuid) starting s ≡ (ok tt, t))
            × (execute db (λ committed. create_each db codec e d keys docs now rs) t ≡ (r, s')))
  unfolding batch_create_dids
  batch-cases starting uuid now rs s s' r h =
      elim (Run-cases (db.write watch_namespace (watch_key uuid) starting s)) [
        | inl (x, t, p) ↦ inl (x, ground arith, ground arith)
        | inr (u, t, p) ↦ inr (t, ground arith, ground arith)
      ]

  module _ (lawful : IsLawful db) (inverse : Inverse e d)
      (full : (v c : Bytes) → e.encrypt v ≡ ok c → codec.is_empty c ≡ false) where
    create_each_lem :
        (now : String) (rs : List (CreateDidRequest Doc)) (made_docs : List Doc) (s s' : S)
        → create_each db codec e d keys docs now rs s ≡ (ok made_docs, s')
        → (made_docs ≡ documents rs)
          × ((id : String)
              → get_did db codec docs s' id ≡ or_before (latest rs id) (get_did db codec docs s id))
    unfolding create_each documents latest or_before
    create_each_lem now [] made_docs s s' h = (ground arith, λ id. ground arith)
    create_each_lem now (r ∷ rs) made_docs s s' h =
        elim (Run-cases (create_key_did (in_transaction db) codec e d keys docs now r s)) [
          | inl (x, t, p) ↦ absurd (ground arith)
          | inr (doc, t, p) ↦ elim (Run-cases (create_each db codec e d keys docs now rs t)) [
            | inl (x, t', q) ↦ absurd (ground arith)
            | inr (rest, t', q) ↦
                let (g, generated, answer, (found, _, _, _)) =
                  create_key_did_lem (in_transaction db) codec e d keys docs
                    (in_transaction-ReadsWrites lawful) inverse full now r doc s t p in
                let (rest_is, after) = create_each_lem now rs rest t t' q in
                (
                  ground (arith, generated, answer, rest_is),
                  λ id. elim (Option-cases (latest rs id)) [
                    | inl nothing ↦ ground (
                      arith,
                      nothing,
                      generated,
                      after id,
                      found id,
                      get_did-in_transaction s id,
                      get_did-in_transaction t id,
                    )
                    | inr (last, some_last) ↦ ground (arith, some_last, after id)
                  ],
                )
          ]
        ]

    -- A batch that succeeds answers with the documents that its requests make, in their order, and afterwards
    -- each DID reads as the last request that made it left it, and as before where none did. One that
    -- fails leaves every DID and every key as it was.
    pub batch_create_dids-cases :
        (starting : Bytes) (uuid now : String) (rs : List (CreateDidRequest Doc)) (s s' : S)
        (r : Result (List Doc))
        → batch_create_dids db codec e d keys docs starting uuid now rs s ≡ (r, s')
        → ((made_docs : List Doc) × (r ≡ ok made_docs)
            × (made_docs ≡ documents rs)
            × ((id : String)
                → get_did db codec docs s' id
                  ≡ or_before (latest rs id) (get_did db codec docs s id)))
          ⊎ ((x : Error) × (r ≡ err x)
              × ((ns k : String)
                  → (watch_namespace == ns) ≡ false
                  → db.read s' ns k ≡ db.read s ns k))
    unfolding execute
    batch_create_dids-cases starting uuid now rs s s' r h =
        elim (batch-cases starting uuid now rs s s' r h) [
          | inl (x, p, w) ↦ inr (
            x,
            p,
            λ ns k other.
                ap (λ z. db.read z ns k)
                  (lawful.write_fails watch_namespace (watch_key uuid) starting s s' x w),
          )
          | inr (t, w, run) ↦
              let written = lawful.read-write watch_namespace (watch_key uuid) starting s t w in
              let kept : (ns k : String)
                  → (watch_namespace == ns) ≡ false
                  → db.read t ns k ≡ db.read s ns k =
                λ ns k other. ground (arith, written ns k, other) in
              elim (Result-cases r) [
                | inl (x, p) ↦ inr (
                  x,
                  p,
                  λ ns k other. ground (
                    arith,
                    kept ns k other,
                    transaction_fails db.begin db.commit
                        (λ committed. create_each db codec e d keys docs now rs) t x s'
                        (ground (arith, run, p)),
                  ),
                )
                | inr (made_docs, p) ↦
                    let (t1, t2, b, logic, c) =
                      transaction-eq-ok db.begin db.commit
                        (λ committed. create_each db codec e d keys docs now rs) t made_docs s'
                        (ground (arith, run, p)) in
                    let (docs_are, after) = create_each_lem now rs made_docs t1 t2 logic in
                    let begun = lawful.read-begin t t1 b in
                    let committed = lawful.read-commit t2 s' c in
                    inl (
                      made_docs,
                      p,
                      docs_are,
                      λ id. ground (
                        arith,
                        get_did_read s t id kept,
                        get_did_read t t1 id (λ ns k other. begun ns k),
                        get_did_read t2 s' id (λ ns k other. committed ns k),
                        after id,
                      ),
                    )
              ]
        ]
