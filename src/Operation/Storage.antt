-- ===== src/Operation/Storage.antt =====
-- operation/storage.go: the operations in the store.
pub mod Cancel
use text.Mathlib.Text.{starts_with}
use ssi_service.Prelude.{
  ℕ, String, Bool, true, false, Option, none, some, List, [], ◌∷◌, Assoc, Result, ok, err, Error,
  Action, then_pure, lift, fail, pure, ◌>>=◌, ◌>>◌, ◌==◌, if◌then◌else◌,
}
use ssi_service.Json.{Json, Codec, Document}
use ssi_service.Storage.Contract.{ServiceStorage}
use ssi_service.Storage.Update.{new_updater, update_value_and_operation}
use ssi_service.Operation.Ids.{
  submission_parent, credential_parent, from_id, from_parent, status_object_id,
}
use ssi_service.Operation.Stored.{
  StoredOperation, operation_document, unmarshal_operation, operation_updater, done_values,
}

abbrev pub submission_namespace : String
submission_namespace = "presentation_submission"

abbrev pub application_namespace : String
application_namespace = "application"

-- `submission.StatusCancelled` and `credential.StatusCancelled`
abbrev pub submission_cancelled : ℕ
submission_cancelled = 2

abbrev pub credential_cancelled : ℕ
credential_cancelled = 4

abbrev pub cancelled_values : ℕ → Document
cancelled_values status =
    ("status", Json.num status) ∷ ("reason", Json.str "operation cancelled") ∷ []

module _ {S Bytes : Type 0} (db : ServiceStorage S Bytes) (codec : Codec Bytes) where
  unfoldable pub store_operation : StoredOperation Bytes → Action S (Unit {0})
  store_operation op =
      if op.id == ""
      then fail Error.invalid
      else db.write (from_id op.id) op.id (codec.marshal (operation_document codec op))

  -- What is done with the bytes that were read: an empty slice means that there is nothing.
  unfoldable pub found_operation : Option Bytes → Result (StoredOperation Bytes)
  found_operation none = err Error.not_found
  found_operation (some b) =
      if codec.is_empty b then err Error.not_found else unmarshal_operation codec (some b)

  unfoldable pub get_operation : S → String → Result (StoredOperation Bytes)
  unfolding found_operation
  get_operation s id = then_pure (db.read s (from_id id) id) found_operation

  -- The object and its operation are updated together.
  unfoldable pub cancel_in : String → ℕ → String → Action S (StoredOperation Bytes)
  cancel_in ns status id = do
    both ←
        update_value_and_operation db ns (status_object_id id)
          (new_updater codec (cancelled_values status)) (from_id id) id
          (operation_updater codec (done_values codec))
    lift (unmarshal_operation codec (some both.1))

  unfoldable pub cancel_operation : String → Action S (StoredOperation Bytes)
  unfolding cancel_in
  cancel_operation id =
      if starts_with id submission_parent
      then cancel_in submission_namespace submission_cancelled id
      else if starts_with id credential_parent
      then cancel_in application_namespace credential_cancelled id
      else fail Error.unrecognized_id

  unfoldable pub delete_operation : String → Action S (Unit {0})
  delete_operation id = db.delete (from_id id) id

  -- An entry that cannot be read is a zero operation, as far as the model goes: the source leaves
  -- there what it had read before the error. An error of the filter includes the entry.
  unfoldable pub zero_operation : StoredOperation Bytes
  zero_operation = record { id = ""; done = false; error = ""; response = none }

  entry : Result (StoredOperation Bytes) → StoredOperation Bytes
  unfolding zero_operation
  entry (ok op) = op
  entry (err e) = zero_operation

  includes : Result Bool → Bool
  includes (ok b) = b
  includes (err e) = true

  unfoldable pub keep_included :
      (StoredOperation Bytes → Result Bool) → Assoc Bytes → List (StoredOperation Bytes)
  unfolding entry includes
  keep_included filter [] = []
  keep_included filter ((k, b) ∷ rest) =
      let op = entry (unmarshal_operation codec (some b)) in
      let more = keep_included filter rest in if includes (filter op) then op ∷ more else more

  -- `shouldInclude` is what `NewIncludeFunc` made of the filter, or its error.
  unfoldable pub list_operations :
      S
      → String
      → Result (StoredOperation Bytes → Result Bool)
      → String
      → Option ℕ
      → Result (List (StoredOperation Bytes) × String)
  unfolding keep_included
  list_operations s parent should_include token size =
      then_pure (db.read_page s (from_parent parent) token size)
        λ page. then_pure should_include λ filter. ok (keep_included filter page.0, page.1)
