-- ===== src/Operation/Service.antt =====
-- operation/service.go: what clients of the service see of the stored operations.
use text.Mathlib.Text.{starts_with}
use ssi_service.Prelude.{
  ℕ, String, Bool, Option, none, some, List, [], ◌∷◌, Result, ok, err, Error, Action, then_pure,
  lift, fail, ◌>>=◌, ◌==◌, if◌then◌else◌,
}
use ssi_service.Json.{Codec}
use ssi_service.Storage.Contract.{ServiceStorage}
use ssi_service.Operation.Ids.{submission_parent, credential_parent}
use ssi_service.Operation.Stored.{StoredOperation}
use ssi_service.Operation.Storage.{cancel_operation, get_operation, list_operations}

-- `View` is the service's form of a submission or of a credential response.
pub record Operation (View : Type 0) : Type 0 where
  pub id : String
  pub done : Bool
  pub error : String
  pub response : Option View

module _ {S Bytes View : Type 0} (db : ServiceStorage S Bytes) (codec : Codec Bytes)
    (submission_view response_view : Bytes → Result View) where
  -- Reads the response by the kind of operation that the id names.
  unfoldable pub response_model : String → Bytes → Result View
  response_model id b =
      if starts_with id submission_parent
      then submission_view b
      else if starts_with id credential_parent
      then response_view b
      else err Error.unrecognized_id

  model_of : StoredOperation Bytes → Option View → Operation View
  model_of op view = record { id = op.id; done = op.done; error = op.error; response = view }

  with_response : StoredOperation Bytes → Option Bytes → Result (Operation View)
  unfolding response_model model_of
  with_response op none = ok (model_of op none)
  with_response op (some b) =
      if codec.is_empty b
      then ok (model_of op none)
      else then_pure (response_model op.id b) λ view. ok (model_of op (some view))

  unfoldable pub service_model : StoredOperation Bytes → Result (Operation View)
  unfolding with_response
  service_model op = with_response op op.response

  unfoldable pub get_operation_of : S → String → Result (Operation View)
  get_operation_of s id =
      if id == "" then err Error.invalid else then_pure (get_operation db codec s id) service_model

  -- The cancellation is committed before the answer is made.
  unfoldable pub cancel_operation_of : String → Action S (Operation View)
  cancel_operation_of id =
      if id == ""
      then fail Error.invalid
      else do op ← cancel_operation db codec id; lift (service_model op)

  -- An operation whose model fails leaves a zero `Operation` in its place of the answer.
  model_or_zero : Result (Operation View) → Operation View
  model_or_zero (ok op) = op
  model_or_zero (err e) = record { id = ""; done = Bool.false; error = ""; response = none }

  unfoldable pub models : List (StoredOperation Bytes) → List (Operation View)
  unfolding model_or_zero
  models [] = []
  models (op ∷ ops) = model_or_zero (service_model op) ∷ models ops

  unfoldable pub list_operations_of :
      S
      → String
      → Result (StoredOperation Bytes → Result Bool)
      → String
      → Option ℕ
      → Result (List (Operation View) × String)
  unfolding models
  list_operations_of s parent should_include token size =
      if parent == ""
      then err Error.invalid
      else then_pure (list_operations db codec s parent should_include token size)
          λ ops. ok (models ops.0, ops.1)
