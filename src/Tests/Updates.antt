-- ===== src/Tests/Updates.antt =====
-- The theorems on updates of a submission and its operation, at a store with two submissions.
use ssi_service.Prelude.{
  String, ◌≡◌, refl, true, some, [], ◌∷◌, Assoc, ◌⊎◌, ℕ, lookup, insert, erase, Result, ok, err,
  Error,
}
use ssi_service.Json.{Json, Document}
use ssi_service.Storage.Contract.{transaction, execute}
use ssi_service.Storage.Bolt.{bolt_db, read, write_func}
use ssi_service.Storage.Update.{
  Updater, new_updater, update_value_and_operation, update_both, update_in, unmarshal,
  update_with_map,
}
use ssi_service.Storage.Update.Laws.{update_value_and_operation-Updated}
use ssi_service.Operation.Ids.{
  from_id, id_from_submission_id, id_from_response_id, status_object_id, cut_last, ids_roundtrip,
}
use ssi_service.Operation.Stored.{
  StoredOperation, operation_updater, done_values, validate_operation, unmarshal_operation,
  document_operation,
}
use ssi_service.Operation.Stored.Finish.{Finishes}
use ssi_service.Operation.Storage.{submission_namespace, cancel_operation}
use ssi_service.Operation.Storage.Cancel.{CancelTarget, cancel_operation-cases}
use ssi_service.Presentation.Storage.{review_values}
use ssi_service.Presentation.Service.{review_submission}
use ssi_service.Presentation.Service.Review.{answer, review_submission-cases}
use ssi_service.Tests.Mem.{mem_bolt}
use ssi_service.Tests.Blob.{Blob, blobs, store, store-IsLawful}
use ssi_service.Tests.Sdk.{texts}
use ssi_service.Tests.Submissions.{submission, two_submissions}

abbrev review_of : String → Updater Blob
review_of reason = new_updater blobs (review_values true reason)

-- A review of submission `b`, or of `a`, whose operation is done.
abbrev reviewed : String → Result (Blob × Blob) × Assoc (Assoc Blob)
reviewed id =
    update_value_and_operation store submission_namespace id (review_of "") "operation_submission"
      (id_from_submission_id id) (operation_updater blobs (done_values blobs)) two_submissions

abbrev operation_b : Document
operation_b =
    ("id", Json.str "presentations/submissions/b")
    ∷ ("done", Json.bool true)
    ∷ ("response", blobs.bytes_json (Blob.document (submission 4)))
    ∷ []

update_b_example :
    store.read (reviewed "b").1 "presentation_submission" "b"
    ≡ ok (some (Blob.document (submission 4)))
unfolding execute update_value_and_operation update_both update_in transaction new_updater
    operation_updater validate_operation unmarshal_operation unmarshal document_operation
    update_with_map bolt_db read write_func mem_bolt lookup insert erase id_from_submission_id
update_b_example =
    (update_value_and_operation-Updated store store-IsLawful submission_namespace "b" (review_of "")
        "operation_submission" (id_from_submission_id "b")
        (operation_updater blobs (done_values blobs)) two_submissions (reviewed "b").1
        (Blob.document (submission 4)) (Blob.document operation_b) refl).after
      "presentation_submission" "b"

cancel_example :
    ((e : Error) × (cancel_operation store blobs "presentations/submissions/b" two_submissions
        ≡ (err e, two_submissions)))
    ⊎ ((op : StoredOperation Blob) × (s' : Assoc (Assoc Blob)) × (ns : String) × (status : ℕ)
        × (cancel_operation store blobs "presentations/submissions/b" two_submissions ≡ (ok op, s'))
        × CancelTarget store blobs "presentations/submissions/b" ns status
        × Finishes store blobs ns
            (status_object_id "presentations/submissions/b")
            (("status", Json.num status) ∷ ("reason", Json.str "operation cancelled") ∷ [])
            "presentations/submissions/b"
            two_submissions
            s'
            op)
cancel_example =
    cancel_operation-cases store blobs store-IsLawful "presentations/submissions/b" two_submissions

review_example :
    ((e : Error) × (review_submission store blobs texts texts "b" true "" two_submissions
        ≡ (err e, two_submissions)))
    ⊎ ((op : StoredOperation Blob) × (f : Finishes store blobs "presentation_submission" "b"
          (("status", Json.num 4) ∷ ("reason", Json.str "") ∷ [])
          (id_from_submission_id "b")
          two_submissions
          (review_submission store blobs texts texts "b" true "" two_submissions).1
          op)
        × ((review_submission store blobs texts texts "b" true "" two_submissions).0
            ≡ answer store blobs texts texts store-IsLawful true "" f.object))
review_example =
    review_submission-cases store blobs texts texts store-IsLawful "b" true "" two_submissions

ids_example :
    (status_object_id (id_from_submission_id "b1") ≡ "b1")
    × (from_id (id_from_submission_id "b1") ≡ "operation_submission")
    × (status_object_id (id_from_response_id "b1") ≡ "b1")
    × (from_id (id_from_response_id "b1") ≡ "operation_credential_response")
unfolding cut_last
ids_example = ids_roundtrip "b1" refl
