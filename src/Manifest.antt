-- ===== src/Manifest.antt =====
-- pkg/service/manifest/storage/storage.go: manifests, applications and responses in the store, and
-- the review of an application.
pub mod Review
pub mod Application
pub mod Fulfillment
pub mod Responses
pub mod Service
pub mod Creation
use ssi_service.Prelude.{
  ℕ, String, ◌≡◌, Bool, true, false, Option, none, some, List, [], ◌∷◌, Assoc, Result, ok, err,
  Error, Action, then_pure, lift, fail, pure, ◌>>=◌, ◌>>◌, ◌==◌, if◌then◌else◌,
}
use ssi_service.Json.{Codec, Document}
use ssi_service.Storage.Contract.{ServiceStorage}
use ssi_service.Storage.Kind.{Kind, store_value, value_of}
use ssi_service.Storage.Update.{unmarshal, new_updater, update_stored, update_value_and_operation}
use ssi_service.Operation.Ids.{from_id}
use ssi_service.Operation.Stored.{
  StoredOperation, unmarshal_operation, operation_updater, done_values,
}
use ssi_service.Operation.Storage.{application_namespace}
use ssi_service.Presentation.Storage.{review_values}

abbrev pub manifest_namespace : String
manifest_namespace = "manifest"

abbrev pub response_namespace : String
response_namespace = "response"

module _ {S Bytes R : Type 0} (db : ServiceStorage S Bytes) (codec : Codec Bytes)
    (responses : Kind R) where
  -- Three transactions: the application, the response, and the response with the operation. The
  -- statuses that are written are those of a submission. The response is stored under the id that
  -- its kind gives, and updated under `response_id`, its own id.
  unfoldable pub store_review_application :
      String → Bool → String → String → String → R → Action S (R × StoredOperation Bytes)
  unfolding value_of
  store_review_application id approved reason op_id response_id response = do
    update_stored db codec application_namespace id (review_values approved reason)
    store_value db codec responses response
    both ←
        update_value_and_operation db responses.namespace response_id
          (new_updater codec (review_values approved reason)) (from_id op_id) op_id
          (operation_updater codec (done_values codec))
    r ← lift (value_of db codec responses (some both.0))
    op ← lift (unmarshal_operation codec (some both.1))
    pure (r, op)
