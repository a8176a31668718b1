-- ===== src/Operation/Stored.antt =====
-- The stored form of an operation (operation/storage/storage.go) and the updater that marks one as
-- done (operation/submission/submission.go).
pub mod Documents
pub mod Finish
use ssi_service.Prelude.{
  String, ◌≡◌, refl, ◌∙◌, ap, Bool, true, false, Option, none, some, List, [], ◌∷◌, ◌++◌, lookup,
  insert, lookup-insert, Result, ok, err, Error, then_pure, ◌==◌, arith, if◌then◌else◌,
}
use ssi_service.Json.{Json, Codec, Document, as_string, as_bool, insert_all}
use ssi_service.Storage.Update.{Updater, new_updater, unmarshal, update_with_map}

pub record StoredOperation (Bytes : Type 0) : Type 0 where
  pub id : String
  pub done : Bool
  pub error : String
  pub response : Option Bytes

module _ {Bytes : Type 0} (codec : Codec Bytes) where
  -- The JSON form that the struct's tags give; the last two fields are left out when empty.
  response_field : Option Bytes → Document
  response_field none = []
  response_field (some b) = if codec.is_empty b then [] else ("response", codec.bytes_json b) ∷ []

  unfoldable pub operation_document : StoredOperation Bytes → Document
  unfolding response_field
  operation_document op =
      ("id", Json.str op.id)
      ∷ ("done", Json.bool op.done)
      ∷ (if op.error == ""
          then response_field op.response
          else ("errorResult", Json.str op.error) ∷ response_field op.response)

  as_bytes : Option Json → Result (Option Bytes)
  as_bytes none = ok none
  as_bytes (some j) = codec.json_bytes j

  unfoldable pub document_operation : Document → Result (StoredOperation Bytes)
  unfolding as_bytes
  document_operation m = then_pure (as_string (lookup "id" m)) λ id.
      then_pure (as_bool (lookup "done" m)) λ done.
        then_pure (as_string (lookup "errorResult" m)) λ error.
          then_pure (as_bytes (lookup "response" m))
            λ response. ok (record { id = id; done = done; error = error; response = response })

  -- `json.Unmarshal` into a `StoredOperation`
  unfoldable pub unmarshal_operation : Option Bytes → Result (StoredOperation Bytes)
  unmarshal_operation v = then_pure (unmarshal codec v) document_operation

  -- `Validate` of `OperationUpdater`
  unfoldable pub validate_operation : Option Bytes → Result (Unit {0})
  unfolding unmarshal_operation
  validate_operation v =
      then_pure (unmarshal_operation v) λ op. if op.done then err Error.already_done else ok tt

  -- `OperationUpdater` after `SetUpdatedResponse`, with the values that its map then holds
  unfoldable pub operation_updater : Document → Bytes → Updater Bytes
  unfolding update_with_map
  operation_updater values response = record {
    validate = validate_operation;
    update = update_with_map codec (insert "response" (codec.bytes_json response) values);
  }

  -- The values that every caller passes.
  abbrev pub done_values : Document
  done_values = ("done", Json.bool true) ∷ []
