-- ===== src/Tests/Submissions.antt =====
-- A store with submissions, and the theorems on their operations at it.
use ssi_service.Prelude.{
  ℕ, String, ◌≡◌, refl, Bool, true, false, none, [], ◌∷◌, Assoc, lookup, erase, ok,
}
use ssi_service.Json.{Json, Document}
use ssi_service.Operation.Ids.{from_id, id_from_submission_id, cut_last, from_parent}
use ssi_service.Operation.Stored.{document_operation, unmarshal_operation}
use ssi_service.Operation.Storage.{submission_namespace, get_operation}
use ssi_service.Tests.Sdk.{texts}
use ssi_service.Presentation.Service.Final.{run, done_is_final, cancels, reviews}
use ssi_service.Storage.Bolt.{bolt_db, read}
use ssi_service.Storage.Update.{unmarshal}
use ssi_service.Tests.Mem.{mem_bolt}
use ssi_service.Tests.Blob.{Blob, blobs, store, store-IsLawful}

abbrev pub submission : ℕ → Document
submission status =
    ("status", Json.num status) ∷ ("reason", Json.str "") ∷ ("vp", Json.str "presentation") ∷ []

abbrev pub operation : String → Bool → Document
operation id done = ("id", Json.str id) ∷ ("done", Json.bool done) ∷ []

-- Submission `a` is decided, and submission `b` is pending.
abbrev pub two_submissions : Assoc (Assoc Blob)
two_submissions =
    (
      "operation_submission",
      ("presentations/submissions/a", Blob.document (operation "presentations/submissions/a" true))
          ∷ (
            "presentations/submissions/b",
            Blob.document (operation "presentations/submissions/b" false),
          )
          ∷ [],
    )
    ∷ (
      "presentation_submission",
      ("a", Blob.document (submission 4)) ∷ ("b", Blob.document (submission 1)) ∷ [],
    )
    ∷ []

a_is_done :
    get_operation store blobs two_submissions (id_from_submission_id "a")
    ≡ ok (record { id = "presentations/submissions/a"; done = true; error = ""; response = none })
unfolding get_operation from_id id_from_submission_id cut_last from_parent bolt_db read mem_bolt
    unmarshal_operation unmarshal document_operation lookup erase
a_is_done = refl

done_is_final_example :
    store.read
      (run store blobs texts texts two_submissions (cancels "a" ∷ reviews "b" true "" ∷ []))
      submission_namespace
      "a"
    ≡ store.read two_submissions submission_namespace "a"
unfolding cut_last
done_is_final_example =
    (done_is_final store blobs texts texts store-IsLawful two_submissions
      (cancels "a" ∷ reviews "b" true "" ∷ []) "a" _ refl (refl, (refl, tt)) a_is_done refl).0
