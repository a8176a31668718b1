-- ===== src/Operation/Storage/Cancel.antt =====
-- `CancelOperation` of operation/storage.go.
use text.Mathlib.Text.{starts_with}
use ssi_service.Prelude.{
  [], ◌∷◌, ℕ, String, ◌≡◌, refl, sym, ◌∙◌, ap, true, false, Option, none, some, inl, inr, ◌⊎◌, ok,
  err, Error, then_pure, eq_refl, arith, Bool-cases, Run-cases, Result-cases,
}
use ssi_service.Json.{Json, Codec, Document}
use ssi_service.Storage.Contract.{ServiceStorage, IsLawful}
use ssi_service.Storage.Update.{new_updater, update_value_and_operation}
use ssi_service.Storage.Update.Laws.{update_value_and_operation_fails}
use ssi_service.Operation.Ids.{from_id, status_object_id, submission_parent, credential_parent}
use ssi_service.Operation.Stored.{
  StoredOperation, unmarshal_operation, operation_updater, done_values,
}
use ssi_service.Operation.Stored.Finish.{Finishes, update_value_and_operation-Finishes}
use ssi_service.Operation.Storage.{
  cancel_in, cancel_operation, get_operation, found_operation, cancelled_values,
  submission_namespace, application_namespace, submission_cancelled, credential_cancelled,
}

module _ {S Bytes : Type 0} (db : ServiceStorage S Bytes) (codec : Codec Bytes) where
  -- The namespace and the status of the object that an operation of this id is about.
  abbrev pub CancelTarget : String → String → ℕ → Type 0
  CancelTarget id ns status =
      ((starts_with id submission_parent ≡ true)
        × (ns ≡ submission_namespace)
        × (status ≡ submission_cancelled))
      ⊎ ((starts_with id submission_parent ≡ false)
          × (starts_with id credential_parent ≡ true)
          × (ns ≡ application_namespace)
          × (status ≡ credential_cancelled))

  module _ (lawful : IsLawful db) where
    cancel_in-cases :
        (ns : String) (status : ℕ) (id : String) (s : S)
        → ((e : Error) × (cancel_in db codec ns status id s ≡ (err e, s)))
          ⊎ ((op : StoredOperation Bytes) × (s' : S) × (cancel_in db codec ns status id s
                ≡ (ok op, s'))
              × Finishes db codec ns (status_object_id id) (cancelled_values status) id s s' op)
    unfolding cancel_in
    cancel_in-cases ns status id s =
        elim (Run-cases (
          update_value_and_operation db ns (status_object_id id)
            (new_updater codec (cancelled_values status)) (from_id id) id
            (operation_updater codec (done_values codec)) s)) [
              | inl (e, t, p) ↦ inl (
                e,
                ground (
                  arith,
                  update_value_and_operation_fails db lawful ns (status_object_id id)
                      (new_updater codec (cancelled_values status)) (from_id id) id
                      (operation_updater codec (done_values codec)) s t e p,
                ),
              )
              | inr ((first, b), t, p) ↦
                  let (op, decoded, finishes, _) =
                    update_value_and_operation-Finishes db codec lawful ns (status_object_id id)
                      (cancelled_values status) id s t first b p in
                  inr (op, t, ground (arith, decoded), finishes)
            ]

    -- Cancelling an operation either fails and leaves the store as it was, or the object that the
    -- id stands for, a submission or an application, gets the status `cancelled` and the reason, the
    -- operation, which was not done, is done with the object for its response, and no other place
    -- changes. It fails for an id with neither parent.
    pub cancel_operation-cases :
        (id : String) (s : S)
        → ((e : Error) × (cancel_operation db codec id s ≡ (err e, s)))
          ⊎ ((op : StoredOperation Bytes) × (s' : S) × (ns : String) × (status : ℕ)
              × (cancel_operation db codec id s ≡ (ok op, s'))
              × CancelTarget id ns status
              × Finishes db codec ns
                  (status_object_id id)
                  (("status", Json.num status) ∷ ("reason", Json.str "operation cancelled") ∷ [])
                  id
                  s
                  s'
                  op)
    unfolding cancel_operation
    cancel_operation-cases id s = elim (Bool-cases (starts_with id submission_parent)) [
      | inl sub ↦ elim (cancel_in-cases submission_namespace submission_cancelled id s) [
        | inl (e, h) ↦ inl (e, rw sub h)
        | inr (op, s', h, f) ↦
            inr (
              op,
              s',
              submission_namespace,
              submission_cancelled,
              rw sub h,
              inl (sub, refl, refl),
              f,
            )
      ]
      | inr not_sub ↦ elim (Bool-cases (starts_with id credential_parent)) [
        | inl cred ↦ elim (cancel_in-cases application_namespace credential_cancelled id s) [
          | inl (e, h) ↦ inl (e, rw (not_sub, cred) h)
          | inr (op, s', h, f) ↦ inr (
            op,
            s',
            application_namespace,
            credential_cancelled,
            rw (not_sub, cred) h,
            inr (not_sub, cred, refl, refl),
            f,
          )
        ]
        | inr other ↦ inl (Error.unrecognized_id, rw (not_sub, other))
      ]
    ]

  -- What `GetOperation` returned is what is stored.
  pub get_operation-eq-ok :
      (s : S) (id : String) (op : StoredOperation Bytes)
      → get_operation db codec s id ≡ ok op
      → (b : Bytes) × (db.read s (from_id id) id ≡ ok (some b))
        × (unmarshal_operation codec (some b) ≡ ok op)
  unfolding get_operation
  get_operation-eq-ok s id op h = elim (Result-cases (db.read s (from_id id) id)) [
    | inl (e, p) ↦ absurd (ground arith)
    | inr (v, p) ↦ found v p (ap (λ r. then_pure r (found_operation db codec)) (sym p) ∙ h)
  ]
    where
      found :
          (v : Option Bytes)
          → db.read s (from_id id) id ≡ ok v
          → found_operation db codec v ≡ ok op
          → (b : Bytes) × (db.read s (from_id id) id ≡ ok (some b))
            × (unmarshal_operation codec (some b) ≡ ok op)
      found none p q = absurd (ground arith)
      found (some b) p q = (b, p, ground arith)

  module _ {ns k id : String} {values : Document} {s s' : S} {op : StoredOperation Bytes}
      (f : Finishes db codec ns k values id s s' op) where
    -- The operation that was finished is read back, and is done.
    pub get_operation-Finishes : (get_operation db codec s' id ≡ ok op) × (op.done ≡ true)
    unfolding get_operation
    get_operation-Finishes = (
      ground (
        arith,
        f.after (from_id id) id,
        eq_refl (from_id id),
        eq_refl id,
        f.new_operation,
        f.op_present,
      ),
      ap (λ o. o.done) f.operation,
    )

    -- It was not done before.
    pub Finishes-open :
        (old : StoredOperation Bytes) → get_operation db codec s id ≡ ok old → old.done ≡ false
    Finishes-open old h =
        let (b, read, decoded) = get_operation-eq-ok s id old h in
        ground (arith, read, decoded, f.read_old, f.old_operation, f.was_open)
