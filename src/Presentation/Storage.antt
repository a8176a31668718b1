-- ===== src/Presentation/Storage.antt =====
-- presentation/storage.go and presentation/storage/storage.go: definitions and submissions in the
-- store.
use ssi_service.Prelude.{
  ℕ, String, ◌≡◌, Bool, Option, none, some, List, [], ◌∷◌, Assoc, lookup, Result, ok, err, Error,
  Action, then_pure, lift, fail, pure, ◌>>=◌, ◌==◌, eqb, if◌then◌else◌,
}
use ssi_service.Json.{Json, Codec, Document, as_string, as_byte, as_value}
use ssi_service.Storage.Contract.{ServiceStorage}
use ssi_service.Storage.Update.{unmarshal, new_updater, update_value_and_operation}
use ssi_service.Operation.Ids.{from_id}
use ssi_service.Operation.Stored.{
  StoredOperation, unmarshal_operation, operation_updater, done_values,
}
use ssi_service.Operation.Storage.{submission_namespace}

-- The statuses of operation/submission/submission.go.
abbrev pub status_pending : ℕ
status_pending = 1

abbrev pub status_denied : ℕ
status_denied = 3

abbrev pub status_approved : ℕ
status_approved = 4

-- A value of the SSI SDK as it stands in a document: a verifiable presentation, a presentation
-- definition.
pub record SdkValue (V : Type 0) : Type 0 where
  pub to_json : V → Json
  pub of_json : Json → Result V
  pub of_json-to_json : (v : V) → of_json (to_json v) ≡ ok v

pub record StoredSubmission (Vp : Type 0) : Type 0 where
  pub status : ℕ
  pub reason : String
  pub presentation : Vp

pub record StoredDefinition (Pd : Type 0) : Type 0 where
  pub id : String
  pub definition : Pd

-- `Status.String`
unfoldable pub status_string : ℕ → String
status_string n =
    if eqb n 1
    then "pending"
    else if eqb n 3
    then "denied"
    else if eqb n 4
    then "approved"
    else if eqb n 2
    then "cancelled"
    else "unknown"

abbrev pub review_values : Bool → String → Document
review_values approved reason =
    ("status", Json.num (if approved then status_approved else status_denied))
    ∷ ("reason", Json.str reason)
    ∷ []

module _ {Vp : Type 0} (vp : SdkValue Vp) where
  unfoldable pub submission_document : StoredSubmission Vp → Document
  submission_document s =
      ("status", Json.num s.status)
      ∷ ("reason", Json.str s.reason)
      ∷ ("vp", vp.to_json s.presentation)
      ∷ []

  unfoldable pub document_submission : Document → Result (StoredSubmission Vp)
  document_submission m = then_pure (as_byte (lookup "status" m)) λ status.
      then_pure (as_string (lookup "reason" m)) λ reason. then_pure (as_value (lookup "vp" m)) λ j.
        then_pure (vp.of_json j)
          λ p. ok (record { status = status; reason = reason; presentation = p })

module _ {S Bytes Vp : Type 0} (db : ServiceStorage S Bytes) (codec : Codec Bytes)
    (vp : SdkValue Vp) where
  unfoldable pub unmarshal_submission : Option Bytes → Result (StoredSubmission Vp)
  unmarshal_submission v = then_pure (unmarshal codec v) (document_submission vp)

  -- `id` is the id of the presentation submission in the presentation, if there is one.
  unfoldable pub store_submission : Option String → StoredSubmission Vp → Action S (Unit {0})
  store_submission none s = fail Error.invalid
  store_submission (some id) s =
      if id == ""
      then fail Error.invalid
      else db.write submission_namespace id (codec.marshal (submission_document vp s))

  unfoldable pub found_submission : Option Bytes → Result (StoredSubmission Vp)
  unfolding unmarshal_submission
  found_submission none = err Error.not_found
  found_submission (some b) =
      if codec.is_empty b
      then err Error.not_found
      else elim (unmarshal_submission (some b)) [ ok s ↦ ok s | err e ↦ err Error.codec ]

  -- `ErrSubmissionNotFound` is told apart from an error of the store.
  unfoldable pub get_submission : S → String → Result (StoredSubmission Vp)
  unfolding found_submission
  get_submission s id = elim (db.read s submission_namespace id) [
    | ok v ↦ found_submission v
    | err e ↦ err Error.io
  ]

  unfoldable pub update_submission :
      String → Bool → String → String → Action S (StoredSubmission Vp × StoredOperation Bytes)
  update_submission id approved reason op_id = do
    both ←
        update_value_and_operation db submission_namespace id
          (new_updater codec (review_values approved reason)) (from_id op_id) op_id
          (operation_updater codec (done_values codec))
    s ← lift (unmarshal_submission (some both.0))
    op ← lift (unmarshal_operation codec (some both.1))
    pure (s, op)

module _ {S Bytes Vp : Type 0} (db : ServiceStorage S Bytes) (codec : Codec Bytes)
    (vp : SdkValue Vp) (no_presentation : Vp) where
  -- One that cannot be read is a zero submission, as far as the model goes.
  submission_or_zero : Result (StoredSubmission Vp) → StoredSubmission Vp
  submission_or_zero (ok s) = s
  submission_or_zero (err e) = record { status = 0; reason = ""; presentation = no_presentation }

  -- An error of the filter includes the submission.
  included : Result Bool → Bool
  included (ok b) = b
  included (err e) = Bool.true

  unfoldable pub included_submissions :
      (StoredSubmission Vp → Result Bool) → Assoc Bytes → List (StoredSubmission Vp)
  unfolding submission_or_zero included
  included_submissions filter [] = []
  included_submissions filter ((k, b) ∷ rest) =
      let s = submission_or_zero (unmarshal_submission db codec vp (some b)) in
      let more = included_submissions filter rest in if included (filter s) then s ∷ more else more

  -- `should_include` is what `NewIncludeFunc` made of the filter, or its error.
  unfoldable pub list_submissions :
      S
      → Result (StoredSubmission Vp → Result Bool)
      → String
      → Option ℕ
      → Result (List (StoredSubmission Vp) × String)
  unfolding included_submissions
  list_submissions s should_include token size =
      then_pure (db.read_page s submission_namespace token size)
        λ page. then_pure should_include λ filter. ok (included_submissions filter page.0, page.1)

module _ {S Bytes Pd : Type 0} (db : ServiceStorage S Bytes) (codec : Codec Bytes)
    (pd : SdkValue Pd) where
  abbrev pub definition_namespace : String
  definition_namespace = "presentation_definition"

  unfoldable pub definition_document : StoredDefinition Pd → Document
  definition_document d =
      ("id", Json.str d.id) ∷ ("presentationDefinition", pd.to_json d.definition) ∷ []

  unfoldable pub document_definition : Document → Result (StoredDefinition Pd)
  document_definition m = then_pure (as_string (lookup "id" m)) λ id.
      then_pure (as_value (lookup "presentationDefinition" m))
        λ j. then_pure (pd.of_json j) λ p. ok (record { id = id; definition = p })

  unfoldable pub store_definition : StoredDefinition Pd → Action S (Unit {0})
  store_definition d =
      if d.id == ""
      then fail Error.invalid
      else db.write definition_namespace d.id (codec.marshal (definition_document d))

  found_definition : Option Bytes → Result (StoredDefinition Pd)
  found_definition none = err Error.not_found
  found_definition (some b) =
      if codec.is_empty b
      then err Error.not_found
      else then_pure (unmarshal codec (some b)) document_definition

  unfoldable pub get_definition : S → String → Result (StoredDefinition Pd)
  unfolding found_definition
  get_definition s id = then_pure (db.read s definition_namespace id) found_definition

  unfoldable pub delete_definition : String → Action S (Unit {0})
  delete_definition id = db.delete definition_namespace id

  unfoldable pub unmarshal_definitions : Assoc Bytes → Result (List (StoredDefinition Pd))
  unmarshal_definitions [] = ok []
  unmarshal_definitions ((k, b) ∷ rest) = then_pure (unmarshal codec (some b)) λ m.
      then_pure (document_definition m)
        λ d. then_pure (unmarshal_definitions rest) λ ds. ok (d ∷ ds)

  unfoldable pub list_definitions : S → Result (List (StoredDefinition Pd))
  unfolding unmarshal_definitions
  list_definitions s = then_pure (db.read_all s definition_namespace) unmarshal_definitions
