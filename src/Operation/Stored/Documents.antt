-- ===== src/Operation/Stored/Documents.antt =====
-- Operations and their JSON documents: what is written is read back.
use ssi_service.Prelude.{String, ◌≡◌, refl, false, Option, none, some, lookup, ok, arith, eq_iff}
use ssi_service.Json.{Codec, Document}
use ssi_service.Storage.Update.{unmarshal}
use ssi_service.Operation.Stored.{
  StoredOperation, operation_document, document_operation, unmarshal_operation, as_bytes,
  response_field,
}

module _ {Bytes : Type 0} (codec : Codec Bytes) where
  pub unmarshal-marshal_lem :
      (m : Document) → unmarshal codec (some (codec.marshal m)) ≡ ok (codec.reread m)
  unfolding unmarshal
  unmarshal-marshal_lem m = rw (codec.unmarshal-marshal m, unmarshal)

  document_operation-lookup :
      (m m' : Document)
      → ((k : String) → lookup k m' ≡ lookup k m)
      → document_operation codec m' ≡ document_operation codec m
  unfolding document_operation
  document_operation-lookup m m' same =
      rw (same "id", same "done", same "errorResult", same "response")

  -- A response is absent or has a byte.
  abbrev pub HasResponse : Option Bytes → Type 0
  HasResponse none = Unit {0}
  HasResponse (some b) = codec.is_empty b ≡ false

  response_field-HasResponse :
      (r : Option Bytes)
      → HasResponse r
      → (as_bytes codec (lookup "response" (response_field codec r)) ≡ ok r)
        × (lookup "errorResult" (response_field codec r) ≡ none)
  unfolding as_bytes response_field lookup
  response_field-HasResponse none h = (refl, refl)
  response_field-HasResponse (some b) h =
      (rw (h, response_field) (codec.json_bytes-bytes_json b), rw (h, response_field))

  pub document_operation-operation_document :
      (op : StoredOperation Bytes)
      → HasResponse op.response
      → document_operation codec (operation_document codec op) ≡ ok op
  unfolding document_operation operation_document lookup
  document_operation-operation_document op h =
      let (response, no_error) = response_field-HasResponse op.response h in
      ground (arith, response, no_error, eq_iff op.error "")

  pub unmarshal_operation-marshal :
      (m : Document)
      → unmarshal_operation codec (some (codec.marshal m)) ≡ document_operation codec m
  unfolding unmarshal_operation
  unmarshal_operation-marshal m =
      rw (unmarshal-marshal_lem m)
        (document_operation-lookup m (codec.reread m) (codec.lookup-reread m))
