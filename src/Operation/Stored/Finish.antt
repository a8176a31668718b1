-- ===== src/Operation/Stored/Finish.antt =====
-- What it means that an operation and its object are updated together, as `CancelOperation`,
-- `UpdateSubmission` and `StoreReviewApplication` do it.
use ssi_service.Prelude.{
  String, ◌≡◌, refl, sym, ◌∙◌, ap, true, false, Option, some, insert, inl, inr, lookup-insert, ok,
  then_pure-eq-ok, arith, Result-cases, if◌then◌else◌,
}
use ssi_service.Json.{Json, Codec, Document, insert_all}
use ssi_service.Storage.Contract.{ServiceStorage, IsLawful, same_place}
use ssi_service.Storage.Update.{new_updater, unmarshal, update_with_map, update_value_and_operation}
use ssi_service.Storage.Update.Laws.{update_value_and_operation-Updated}
use ssi_service.Operation.Ids.{from_id}
use ssi_service.Operation.Stored.{
  StoredOperation, document_operation, unmarshal_operation, validate_operation, operation_updater,
  done_values, as_bytes,
}
use ssi_service.Operation.Stored.Documents.{unmarshal-marshal_lem, unmarshal_operation-marshal}

module _ {Bytes : Type 0} (codec : Codec Bytes) where
  -- An operation that was still open, marked as done with a response.
  abbrev pub finished : StoredOperation Bytes → Bytes → StoredOperation Bytes
  finished op response = record op { done = true; response = some response }

  unmarshal_operation-eq-ok :
      (v : Option Bytes) (op : StoredOperation Bytes)
      → unmarshal_operation codec v ≡ ok op
      → (m : Document) × (unmarshal codec v ≡ ok m) × (document_operation codec m ≡ ok op)
  unfolding unmarshal_operation
  unmarshal_operation-eq-ok v op h =
      then_pure-eq-ok (unmarshal codec v) (document_operation codec) op h

  validate_operation-eq-ok :
      (v : Option Bytes)
      → validate_operation codec v ≡ ok tt
      → (op : StoredOperation Bytes) × (unmarshal_operation codec v ≡ ok op) × (op.done ≡ false)
  unfolding validate_operation
  validate_operation-eq-ok v h = elim (Result-cases (unmarshal_operation codec v)) [
    | inl (e, p) ↦ absurd (ground arith)
    | inr (op, p) ↦ (op, p, ground arith)
  ]

  document_operation-done :
      (m : Document) (op : StoredOperation Bytes) (response : Bytes)
      → document_operation codec m ≡ ok op
      → document_operation codec
          (insert "response" (codec.bytes_json response) (insert "done" (Json.bool true) m))
        ≡ ok (finished op response)
  unfolding document_operation as_bytes
  document_operation-done m op response h =
      simp lookup-insert (ground (arith, codec.json_bytes-bytes_json response))

  operation_updater-eq-ok :
      (v : Option Bytes) (op : StoredOperation Bytes) (response b : Bytes)
      → unmarshal_operation codec v ≡ ok op
      → (operation_updater codec (done_values codec) response).update v ≡ ok b
      → (codec.is_empty b ≡ false)
        × (unmarshal_operation codec (some b) ≡ ok (finished op response))
  unfolding operation_updater update_with_map insert
  operation_updater-eq-ok v op response b p h =
      let (m, read, document) = unmarshal_operation-eq-ok v op p in
      let written : codec.marshal
            (insert "response" (codec.bytes_json response) (insert "done" (Json.bool true) m))
          ≡ b =
        ground (arith, read, h) in
      (
        ap codec.is_empty (sym written) ∙ codec.is_empty-marshal _,
        ap (λ c. unmarshal_operation codec (some c)) (sym written)
            ∙ unmarshal_operation-marshal codec _
            ∙ document_operation-done m op response document,
      )

  new_updater-eq-ok :
      (values : Document) (v : Option Bytes) (b : Bytes)
      → (new_updater codec values).update v ≡ ok b
      → (m : Document) × (unmarshal codec v ≡ ok m)
        × (unmarshal codec (some b) ≡ ok (codec.reread (insert_all values m)))
  unfolding new_updater update_with_map
  new_updater-eq-ok values v b h = elim (Result-cases (unmarshal codec v)) [
    | inl (e, p) ↦ absurd (ground arith)
    | inr (m, p) ↦ (
      m,
      p,
      ap (λ c. unmarshal codec (some c)) (sym (ground arith))
          ∙ unmarshal-marshal_lem codec (insert_all values m),
    )
  ]

module _ {S Bytes : Type 0} (db : ServiceStorage S Bytes) (codec : Codec Bytes) where
  -- From `s` to `s'` the object at `ns`, `k` got the values, and the operation `id`, which was not
  -- done, is done as `op`; no other place changed.
  pub record Finishes (ns k : String) (values : Document) (id : String) (s s' : S)
      (op : StoredOperation Bytes) : Type 0 where
    pub old : StoredOperation Bytes
    pub old_bytes : Option Bytes
    pub op_bytes : Bytes
    pub object_bytes : Option Bytes
    pub object : Document
    pub response : Bytes
    pub read_old : db.read s (from_id id) id ≡ ok old_bytes
    pub old_operation : unmarshal_operation codec old_bytes ≡ ok old
    pub was_open : old.done ≡ false
    pub read_object : db.read s ns k ≡ ok object_bytes
    pub old_object : unmarshal codec object_bytes ≡ ok object
    pub operation : op ≡ finished codec old response
    pub new_operation : unmarshal_operation codec (some op_bytes) ≡ ok op
    pub op_present : codec.is_empty op_bytes ≡ false
    pub new_object : unmarshal codec (some response) ≡ ok (codec.reread (insert_all values object))
    pub after :
        (n j : String)
        → db.read s' n j ≡ (
            if same_place (from_id id) id n j
            then ok (some op_bytes)
            else if same_place ns k n j
            then ok (some response)
            else db.read s n j)

  pub update_value_and_operation-Finishes :
      (lawful : IsLawful db) (ns k : String) (values : Document) (id : String) (s s' : S)
      (first b : Bytes)
      → update_value_and_operation db ns k
          (new_updater codec values)
          (from_id id)
          id
          (operation_updater codec (done_values codec))
          s
        ≡ (ok (first, b), s')
      → (op : StoredOperation Bytes) × (unmarshal_operation codec (some b) ≡ ok op)
        × (f : Finishes ns k values id s s' op) × (f.response ≡ first)
  unfolding operation_updater
  update_value_and_operation-Finishes lawful ns k values id s s' first b h =
      let u =
        update_value_and_operation-Updated db lawful ns k (new_updater codec values) (from_id id) id
          (operation_updater codec (done_values codec)) s s' first b h in
      let (old, old_read, old_open) = validate_operation-eq-ok codec u.op_value u.op_valid in
      let (m, object_read, object_written) =
        new_updater-eq-ok codec values u.value first u.updated in
      let (present, now) =
        operation_updater-eq-ok codec u.op_value old first b old_read u.op_updated in
      (
        finished codec old first,
        now,
        record {
          old = old;
          old_bytes = u.op_value;
          op_bytes = b;
          object_bytes = u.value;
          object = m;
          response = first;
          read_old = u.read_op;
          old_operation = old_read;
          was_open = old_open;
          read_object = u.read_value;
          old_object = object_read;
          operation = refl;
          new_operation = now;
          op_present = present;
          new_object = object_written;
          after = u.after;
        },
        refl,
      )
