-- ===== src/Presentation/Service.antt =====
-- presentation/service.go: the review of submissions and their creation. What the SSI SDK checks of
-- a submission comes as an argument.
pub mod Review
pub mod Final
use ssi_service.Prelude.{
  ℕ, String, Bool, true, false, Option, none, some, List, [], ◌∷◌, Result, ok, err, Error, Action,
  then_pure, lift, reads, fail, pure, ◌>>=◌, ◌>>◌, ◌==◌, if◌then◌else◌,
}
use ssi_service.Json.{Codec}
use ssi_service.Storage.Contract.{ServiceStorage}
use ssi_service.Operation.Ids.{id_from_submission_id}
use ssi_service.Operation.Stored.{StoredOperation}
use ssi_service.Operation.Storage.{store_operation}
use ssi_service.Presentation.Storage.{
  SdkValue, StoredSubmission, StoredDefinition, status_string, status_pending, store_submission,
  get_submission, get_definition, update_submission, list_submissions, store_definition,
  list_definitions, delete_definition,
}

-- `Submission` of presentation/model/model.go
pub record Submission (Vp : Type 0) : Type 0 where
  pub status : String
  pub reason : String
  pub presentation : Vp

unfoldable pub submission_model : {Vp : Type 0} → StoredSubmission Vp → Submission Vp
submission_model s = record {
  status = status_string s.status;
  reason = s.reason;
  presentation = s.presentation;
}

-- What `CreateSubmission` is given and learns from the SDK. `submission_id` is the id of the
-- presentation submission inside the presentation; a verification is `ok tt` or an error.
pub record CreateSubmissionRequest (Vp Pd : Type 0) : Type 0 where
  pub valid_request : Bool
  pub valid_submission : Result (Unit {0})
  pub verified_token : Result (Unit {0})
  pub id : String
  pub definition_id : String
  pub credentials : List (Result (Unit {0}))
  pub verified_presentation : Pd → Result (Unit {0})
  pub presentation : Vp
  pub submission_id : Option String

module _ {S Bytes Vp Pd : Type 0} (db : ServiceStorage S Bytes) (codec : Codec Bytes)
    (vp : SdkValue Vp) (pd : SdkValue Pd) where
  unfoldable pub review_submission : String → Bool → String → Action S (Submission Vp)
  review_submission id approved reason = if id == "" then fail Error.invalid else do
    both ← update_submission db codec vp id approved reason (id_from_submission_id id)
    pure (submission_model both.0)

  unfoldable pub get_submission_of : S → String → Result (Submission Vp)
  get_submission_of s id =
      then_pure (get_submission db codec vp s id) λ sub. ok (submission_model sub)

  unfoldable pub all_verified : List (Result (Unit {0})) → Result (Unit {0})
  all_verified [] = ok tt
  all_verified (c ∷ cs) = then_pure c λ _. all_verified cs

  -- Only `ErrSubmissionNotFound` lets the creation go on.
  abbrev pub absent : Result (StoredSubmission Vp) → Result (Unit {0})
  absent (ok s) = err Error.duplicate
  absent (err Error.not_found) = ok tt
  absent (err _) = err Error.duplicate

  store_both : StoredSubmission Vp → Option String → Action S String
  store_both stored none = do store_submission db codec vp none stored; fail Error.invalid
  store_both stored (some id) = do
    store_submission db codec vp (some id) stored
    store_operation db codec
        (record { id = id_from_submission_id id; done = false; error = ""; response = none })
    pure (id_from_submission_id id)

  -- The id of the new operation.
  unfoldable pub create_submission : CreateSubmissionRequest Vp Pd → Action S String
  unfolding all_verified store_both
  create_submission request = do
    lift (if request.valid_request then ok tt else err Error.invalid)
    lift request.valid_submission
    lift request.verified_token
    reads (λ s. absent (get_submission db codec vp s request.id))
    definition ← reads (λ s. get_definition db codec pd s request.definition_id)
    lift (all_verified request.credentials)
    lift (request.verified_presentation definition.definition)
    store_both
        (record { status = status_pending; reason = ""; presentation = request.presentation })
        request.submission_id

module _ {S Bytes Vp : Type 0} (db : ServiceStorage S Bytes) (codec : Codec Bytes)
    (vp : SdkValue Vp) (no_presentation : Vp) where
  submission_models : List (StoredSubmission Vp) → List (Submission Vp)
  submission_models [] = []
  submission_models (s ∷ rest) = submission_model s ∷ submission_models rest

  unfoldable pub list_submissions_of :
      S
      → Result (StoredSubmission Vp → Result Bool)
      → String
      → Option ℕ
      → Result (List (Submission Vp) × String)
  unfolding submission_models
  list_submissions_of s should_include token size =
      then_pure (list_submissions db codec vp no_presentation s should_include token size)
        λ page. ok (submission_models page.0, page.1)

module _ {S Bytes Pd : Type 0} (db : ServiceStorage S Bytes) (codec : Codec Bytes)
    (pd : SdkValue Pd) where
  definitions_of : List (StoredDefinition Pd) → List Pd
  definitions_of [] = []
  definitions_of (d ∷ rest) = d.definition ∷ definitions_of rest

  -- The request and the definition are checked by the SDK; `id_of` is the definition's id.
  unfoldable pub create_presentation_definition :
      Result (Unit {0}) → (Pd → Result (Unit {0})) → (Pd → String) → Pd → Action S Pd
  create_presentation_definition valid_request valid_definition id_of definition = do
    lift valid_request
    lift (valid_definition definition)
    store_definition db codec pd (record { id = id_of definition; definition = definition })
    pure definition

  unfoldable pub get_presentation_definition : S → String → Result Pd
  get_presentation_definition s id =
      then_pure (get_definition db codec pd s id) λ stored. ok stored.definition

  unfoldable pub list_presentation_definitions : S → Result (List Pd)
  unfolding definitions_of
  list_presentation_definitions s =
      then_pure (list_definitions db codec pd s) λ stored. ok (definitions_of stored)

  unfoldable pub delete_presentation_definition : String → Action S (Unit {0})
  delete_presentation_definition = delete_definition db codec pd
