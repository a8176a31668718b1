-- ===== src/Manifest/Review.antt =====
-- What a review leaves of an application.
use ssi_service.Prelude.{
  ℕ, String, ◌≡◌, Bool, false, Option, some, lookup, insert, lookup-insert, ◌∙◌, Result-cases, ok,
  arith, Run-cases, inl, inr, ◌==◌, eq_iff, eq_refl, Bool-cases, if◌then◌else◌,
}
use ssi_service.Json.{Json, Codec, Document}
use ssi_service.Storage.Contract.{ServiceStorage, IsLawful}
use ssi_service.Storage.Update.{
  unmarshal, new_updater, update_stored, update_with_map, update_value_and_operation,
}
use ssi_service.Storage.Update.Laws.{update_stored-eq-ok, update_value_and_operation-Updated}
use ssi_service.Operation.Ids.{from_id}
use ssi_service.Operation.Stored.{
  StoredOperation, unmarshal_operation, operation_updater, done_values,
}
use ssi_service.Operation.Storage.{application_namespace, credential_cancelled}
use ssi_service.Presentation.Storage.{review_values}
use ssi_service.Storage.Kind.{Kind, value_of, store_value}
use ssi_service.Manifest.{store_review_application}

module _ {S Bytes R : Type 0} (db : ServiceStorage S Bytes) (codec : Codec Bytes)
    (responses : Kind R) (lawful : IsLawful db) where
  status_inserted :
      (n : ℕ) (reason : String) (m : Document)
      → lookup "status" (insert "reason" (Json.str reason) (insert "status" (Json.num n) m))
        ≡ some (Json.num n)
  status_inserted n reason m = ground (
    arith,
    lookup-insert "reason" "status" (Json.str reason) (insert "status" (Json.num n) m),
    lookup-insert "status" "status" (Json.num n) m,
    eq_refl "status",
    eq_iff "reason" "status",
  )

  -- After the update of the application, the value of `status` is the one that was set.
  status_written :
      (approved : Bool) (reason : String) (v : Option Bytes) (b : Bytes)
      → update_with_map codec (review_values approved reason) v ≡ ok b
      → (m : Document) × (unmarshal codec (some b) ≡ ok m)
        × (lookup "status" m ≡ some (Json.num (if approved then 4 else 3)))
  unfolding update_with_map unmarshal
  status_written approved reason v b h = elim (Result-cases (unmarshal codec v)) [
    | inl (e, p) ↦ absurd (ground arith)
    | inr (m, p) ↦
        let new =
          insert "reason" (Json.str reason)
            (insert "status" (Json.num (if approved then 4 else 3)) m) in
        let b_is : b ≡ codec.marshal new = ground arith in
        (
          codec.reread new,
          ground (arith, b_is, codec.unmarshal-marshal new),
          codec.lookup-reread new "status" ∙ status_inserted (if approved then 4 else 3) reason m,
        )
  ]

  -- The three transactions of a review that succeeds.
  review-eq-ok :
      (id : String) (approved : Bool) (reason op_id response_id : String) (response r : R)
      (op : StoredOperation Bytes) (s s' : S)
      → store_review_application db codec responses id approved reason op_id response_id response s
        ≡ (ok (r, op), s')
      → (b : Bytes) × (first : Bytes) × (o : Bytes) × (s1 : S) × (s2 : S) × (update_stored db codec
            application_namespace id
            (review_values approved reason)
            s
          ≡ (ok b, s1))
        × (store_value db codec responses response s1 ≡ (ok tt, s2))
        × (update_value_and_operation db responses.namespace response_id
              (new_updater codec (review_values approved reason))
              (from_id op_id)
              op_id
              (operation_updater codec (done_values codec))
              s2
            ≡ (ok (first, o), s'))
  unfolding store_review_application
  review-eq-ok id approved reason op_id response_id response r op s s' h =
      elim (Run-cases
        (update_stored db codec application_namespace id (review_values approved reason) s)) [
          | inl (e, t, p) ↦ absurd (ground arith)
          | inr (b, s1, p) ↦ elim (Run-cases (store_value db codec responses response s1)) [
            | inl (e, t, q) ↦ absurd (ground arith)
            | inr (u, s2, q) ↦
                elim (Run-cases (
                  update_value_and_operation db responses.namespace response_id
                    (new_updater codec (review_values approved reason)) (from_id op_id) op_id
                    (operation_updater codec (done_values codec)) s2)) [
                      | inl (e, t, w) ↦ absurd (ground arith)
                      | inr ((first, o), t, w) ↦
                          elim (Result-cases (value_of db codec responses (some first))) [
                            | inl (e, z) ↦ absurd (ground arith)
                            | inr (r', z) ↦
                                elim (Result-cases (unmarshal_operation codec (some o))) [
                                  | inl (e, y) ↦ absurd (ground arith)
                                  | inr (op', y) ↦ (
                                    b,
                                    first,
                                    o,
                                    s1,
                                    s2,
                                    ground arith,
                                    ground arith,
                                    ground arith,
                                  )
                                ]
                          ]
                    ]
          ]
        ]

  store_value-read :
      (response : R) (s s' : S)
      → store_value db codec responses response s ≡ (ok tt, s')
      → (ns k : String) → (responses.namespace == ns) ≡ false
      → db.read s' ns k ≡ db.read s ns k
  unfolding store_value
  store_value-read response s s' h ns k other = elim (Bool-cases (responses.id_of response == "")) [
    | inl empty ↦ absurd (ground arith)
    | inr named ↦ ground (
      arith,
      lawful.read-write responses.namespace (responses.id_of response)
          (codec.marshal (responses.to_document response)) s s' (ground arith) ns k,
    )
  ]

  -- A review of an application that succeeds leaves the application with the number 4 for its status
  -- when it is approved, the number that cancelling an operation gives an application, and 3 when
  -- it is denied. Responses and the operation are kept in namespaces other than the applications'.
  pub store_review_application-status :
      (id : String) (approved : Bool) (reason op_id response_id : String) (response r : R)
      (op : StoredOperation Bytes) (s s' : S)
      → (responses.namespace == application_namespace) ≡ false
      → (from_id op_id == application_namespace) ≡ false
      → store_review_application db codec responses id approved reason op_id response_id response s
        ≡ (ok (r, op), s')
      → (b : Bytes) × (m : Document) × (db.read s' application_namespace id ≡ ok (some b))
        × (unmarshal codec (some b) ≡ ok m)
        × (lookup "status" m ≡ some (Json.num (if approved then credential_cancelled else 3)))
  store_review_application-status id approved reason op_id response_id response r op s s' other
        op_other h =
      let (b, first, o, s1, s2, p, q, w) =
        review-eq-ok id approved reason op_id response_id response r op s s' h in
      let (v, read, updated, after) =
        update_stored-eq-ok db codec lawful application_namespace id (review_values approved reason)
          s s1 b p in
      let (m, decoded, status) = status_written approved reason v b updated in
      let last =
        update_value_and_operation-Updated db lawful responses.namespace response_id
          (new_updater codec (review_values approved reason)) (from_id op_id) op_id
          (operation_updater codec (done_values codec)) s2 s' first o w in
      (
        b,
        m,
        ground (
          arith,
          last.after application_namespace id,
          other,
          op_other,
          store_value-read response s1 s2 q application_namespace id other,
          after application_namespace id,
          eq_refl id,
        ),
        decoded,
        status,
      )
