-- ===== src/Storage/Update.antt =====
-- The updates of stored documents: `Update` and `UpdateValueAndOperation` of
-- pkg/storage/storage.go, and the updaters of pkg/storage/bolt.go.
pub mod Laws
use ssi_service.Prelude.{
  String, Option, none, some, Result, ok, err, Error, Action, then_pure, lift, pure, ◌>>=◌, ◌>>◌,
}
use ssi_service.Json.{Codec, Document, insert_all}
use ssi_service.Storage.Contract.{ServiceStorage, execute}

-- The interface `Updater`; the stored value may be missing, a nil slice.
pub record Updater (Bytes : Type 0) : Type 0 where
  pub validate : Option Bytes → Result (Unit {0})
  pub update : Option Bytes → Result Bytes

module _ {Bytes : Type 0} (codec : Codec Bytes) where
  -- `json.Unmarshal` into a map or a struct
  unfoldable pub unmarshal : Option Bytes → Result Document
  unmarshal none = err Error.codec
  unmarshal (some b) = elim (codec.unmarshal b) [ none ↦ err Error.codec | some m ↦ ok m ]

  -- `Update` of `UpdaterWithMap`
  unfoldable pub update_with_map : Document → Option Bytes → Result Bytes
  update_with_map values v =
      then_pure (unmarshal v) λ model. ok (codec.marshal (insert_all values model))

  -- `UpdaterWithMap`, whose `Validate` accepts everything
  unfoldable pub new_updater : Document → Updater Bytes
  unfolding update_with_map
  new_updater values = record { validate = λ _. ok tt; update = update_with_map values }

module _ {S Bytes : Type 0} (db : ServiceStorage S Bytes) where
  -- `update`: reads the committed store, and writes to the transaction
  unfoldable pub update_in : String → String → Updater Bytes → S → Action S Bytes
  update_in ns k u s = do
    stored ← lift (db.read s ns k)
    lift (u.validate stored)
    updated ← lift (u.update stored)
    db.tx_write ns k updated
    pure updated

  unfoldable pub update_stored : Codec Bytes → String → String → Document → Action S Bytes
  unfolding update_in
  update_stored codec ns k m = execute db (update_in ns k (new_updater codec m))

  -- The updater of the operation is made of the updated value, which `SetUpdatedResponse` hands it.
  unfoldable pub update_both :
      String
      → String
      → Updater Bytes
      → String
      → String
      → (Bytes → Updater Bytes)
      → S
      → Action S (Bytes × Bytes)
  unfolding update_in
  update_both ns k u op_ns op_k op_updater s = do
    first ← update_in ns k u s
    op ← update_in op_ns op_k (op_updater first) s
    pure (first, op)

  unfoldable pub update_value_and_operation :
      String
      → String
      → Updater Bytes
      → String
      → String
      → (Bytes → Updater Bytes)
      → Action S (Bytes × Bytes)
  update_value_and_operation ns k u op_ns op_k op_updater =
      execute db (update_both ns k u op_ns op_k op_updater)
