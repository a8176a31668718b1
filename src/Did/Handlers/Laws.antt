-- ===== src/Did/Handlers/Laws.antt =====
-- What the creation and the soft deletion of a DID leave in the store.
use ssi_service.Prelude.{
  String, ◌≡◌, ◌≢◌, true, false, inl, inr, ok, ◌==◌, eq_refl, arith, Bool-cases, Result-cases,
  Run-cases, if◌then◌else◌,
}
use ssi_service.Json.{Codec}
use ssi_service.Encryption.{Encrypter, Decrypter, Inverse}
use ssi_service.Storage.Contract.{ServiceStorage, ReadsWrites}
use ssi_service.Presentation.Storage.{SdkValue}
use ssi_service.Keystore.{
  StoredKey, Keys, key_namespace, public_key_namespace, store_key, stored_key, store_key_request,
}
use ssi_service.Keystore.Revocation.{stored_key-written}
use ssi_service.Did.Ids.{namespace_for_did, namespace_for_did_others}
use ssi_service.Did.Storage.{StoredDid, store_did, get_did}
use ssi_service.Did.Storage.Laws.{get_did-store_did}
use ssi_service.Did.Handlers.{
  Generated, CreateDidRequest, as_deleted, store_generated, create_key_did, get_did_of,
  soft_delete_did,
}

-- The DID and the key that a creation stores.
abbrev pub new_did : {Doc : Type 0} → String → Generated Doc → StoredDid Doc
new_did id g = record { id = id; document = g.document; soft_deleted = false }

abbrev pub new_key : {Doc : Type 0} → String → String → String → Generated Doc → String → StoredKey
new_key now key_type id g private_key = record {
  id = g.method_id;
  controller = id;
  key_type = key_type;
  base58_key = private_key;
  revoked = false;
  revoked_at = "";
  created_at = now;
}

module _ {S Bytes Priv Jwk Doc : Type 0} (db : ServiceStorage S Bytes) (codec : Codec Bytes)
    (e : Encrypter Bytes) (d : Decrypter Bytes) (keys : Keys Bytes Priv Jwk)
    (docs : SdkValue Doc) where
  -- The DID and its key, which is controlled by it, are stored; all others are as they were.
  abbrev pub Creates : String → String → String → Generated Doc → S → S → Type 0
  Creates now key_type own g s s' =
      ((id : String)
        → get_did db codec docs s' id
          ≡ (if own == id then ok (new_did own g) else get_did db codec docs s id))
      × (private_key : String) × (g.private_key ≡ ok private_key)
      × ((id : String)
          → stored_key db codec e d keys s' id ≡ (
              if g.method_id == id
              then ok (new_key now key_type own g private_key)
              else stored_key db codec e d keys s id))

  store_key_request-eq-ok :
      (now id key_type controller private_key : String) (s s' : S)
      → store_key_request db codec e d keys now id key_type controller private_key s ≡ (ok tt, s')
      → store_key db codec e d keys
          (record {
            id = id;
            controller = controller;
            key_type = key_type;
            base58_key = private_key;
            revoked = false;
            revoked_at = "";
            created_at = now;
          })
          s
        ≡ (ok tt, s')
  unfolding store_key_request
  store_key_request-eq-ok now id key_type controller private_key s s' h =
      elim (Bool-cases (keys.is_supported key_type)) [
        | inl supported ↦ ground (arith, h, supported)
        | inr unsupported ↦ absurd (ground (arith, h, unsupported))
      ]

  store_generated-eq-ok :
      (now key_type own : String) (g : Generated Doc) (doc : Doc) (s s' : S)
      → store_generated db codec e d keys docs now key_type own g s ≡ (ok doc, s')
      → (t : S) × (private_key : String) × (store_did db codec docs (new_did own g) s ≡ (ok tt, t))
        × (g.private_key ≡ ok private_key)
        × (store_key_request db codec e d keys now g.method_id key_type own private_key t
            ≡ (ok tt, s'))
        × (doc ≡ g.document)
  unfolding store_generated
  store_generated-eq-ok now key_type own g doc s s' h =
      elim (Run-cases (store_did db codec docs (new_did own g) s)) [
        | inl (x, t, p) ↦ absurd (ground arith)
        | inr (u, t, p) ↦ elim (Result-cases g.private_key) [
          | inl (x, q) ↦ absurd (ground arith)
          | inr (private_key, q) ↦
              elim (Run-cases
                (store_key_request db codec e d keys now g.method_id key_type own private_key t)) [
                  | inl (x, t', r) ↦ absurd (ground arith)
                  | inr (u', t', r) ↦ (t, private_key, ground arith, q, ground arith, ground arith)
                ]
        ]
      ]

  module _ (reads : ReadsWrites db) (inverse : Inverse e d)
      (full : (v c : Bytes) → e.encrypt v ≡ ok c → codec.is_empty c ≡ false) where
    get_did_same :
        (s s' : S) (id : String)
        → ((ns k : String)
            → (key_namespace == ns) ≡ false
            → (public_key_namespace == ns) ≡ false
            → db.read s' ns k ≡ db.read s ns k)
        → get_did db codec docs s' id ≡ get_did db codec docs s id
    unfolding get_did
    get_did_same s s' id same = elim (Result-cases (namespace_for_did id)) [
      | inl (x, p) ↦ ground arith
      | inr (ns, p) ↦
          let (k, pk, _) = namespace_for_did_others id ns p in ground (arith, same ns id k pk)
    ]

    stored_key_same :
        (s s' : S) (id : String)
        → db.read s' key_namespace id ≡ db.read s key_namespace id
        → stored_key db codec e d keys s' id ≡ stored_key db codec e d keys s id
    unfolding stored_key
    stored_key_same s s' id same = rw same

    not_a_did : (id : String) → namespace_for_did id ≢ ok key_namespace
    not_a_did id h =
        let (k, _, _) = namespace_for_did_others id key_namespace h in
        ground (arith, eq_refl key_namespace)

    -- A creation that succeeds answers with the new document.
    pub store_generated_lem :
        (now key_type own : String) (g : Generated Doc) (doc : Doc) (s s' : S)
        → store_generated db codec e d keys docs now key_type own g s ≡ (ok doc, s')
        → (doc ≡ g.document) × Creates now key_type own g s s'
    store_generated_lem now key_type own g doc s s' h =
        let (t, private_key, stored, p, requested, answer) =
          store_generated-eq-ok now key_type own g doc s s' h in
        let (found, others) = get_did-store_did db codec docs reads (new_did own g) s t stored in
        let (key_found, kept) =
          stored_key-written db codec e d keys reads inverse full
            (new_key now key_type own g private_key) t s'
            (store_key_request-eq-ok now g.method_id key_type own private_key t s' requested) in
        let creates : Creates now key_type own g s s' = (
          λ id. ground (arith, get_did_same t s' id kept, found id),
          private_key,
          p,
          λ id. ground (
            arith,
            key_found id,
            stored_key_same s t id (others key_namespace id (not_a_did own)),
          ),
        ) in
        (answer, creates)

    -- A creation of the method `key` that succeeds answers with the document that was generated; the
    -- DID is read back with it, not deleted, its key is stored under the id of the first verification
    -- method with the DID for its controller, and every other DID and key is read as before.
    pub create_key_did_lem :
        (now : String) (r : CreateDidRequest Doc) (doc : Doc) (s s' : S)
        → create_key_did db codec e d keys docs now r s ≡ (ok doc, s')
        → (g : Generated Doc) × (r.generated ≡ ok g)
          × (doc ≡ g.document)
          × Creates now r.key_type g.id g s s'
    unfolding create_key_did
    create_key_did_lem now r doc s s' h = elim (Result-cases r.generated) [
      | inl (x, p) ↦ absurd (ground arith)
      | inr (g, p) ↦
          let (answer, creates) =
            store_generated_lem now r.key_type g.id g doc s s' (ground arith) in
          (g, p, answer, creates)
    ]

module _ {S Bytes Doc : Type 0} (db : ServiceStorage S Bytes) (codec : Codec Bytes)
    (docs : SdkValue Doc) where
  -- A DID that is softly deleted keeps its document and is still answered to a request for it; it is
  -- marked as deleted, and every other DID is read as before. It was stored under its own id.
  pub soft_delete_did_lem :
      ReadsWrites db
      → (id : String) (old : StoredDid Doc) (s s' : S) → get_did db codec docs s id ≡ ok old
      → old.id ≡ id
      → soft_delete_did db codec docs id s ≡ (ok tt, s')
      → (get_did db codec docs s' id
          ≡ ok (record { id = old.id; document = old.document; soft_deleted = true }))
        × (get_did_of db codec docs s' id ≡ ok old.document)
        × ((other : String)
            → (id == other) ≡ false
            → get_did db codec docs s' other ≡ get_did db codec docs s other)
  unfolding soft_delete_did get_did_of as_deleted
  soft_delete_did_lem reads id old s s' found own h =
      let (after, _) =
        get_did-store_did db codec docs reads (as_deleted old) s s' (ground (arith, h, found)) in
      (
        ground (arith, after id, eq_refl id),
        ground (arith, after id, eq_refl id),
        λ other differs. ground (arith, after other),
      )
