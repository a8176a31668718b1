-- ===== src/Tests/Applications.antt =====
-- The theorem on the review of applications, at a store with one application.
use ssi_service.Prelude.{
  String, ◌≡◌, refl, true, some, [], ◌∷◌, Assoc, lookup, insert, erase, Result, ok,
}
use ssi_service.Json.{Json, Document, as_string}
use ssi_service.Storage.Contract.{transaction, execute}
use ssi_service.Storage.Bolt.{bolt_db, read, write, write_func}
use ssi_service.Storage.Update.{
  unmarshal, update_with_map, new_updater, update_in, update_stored, update_both,
  update_value_and_operation,
}
use ssi_service.Operation.Ids.{from_id, from_parent, cut_last}
use ssi_service.Operation.Stored.{
  StoredOperation, operation_updater, validate_operation, unmarshal_operation, document_operation,
}
use ssi_service.Storage.Kind.{Kind, store_value, value_of}
use ssi_service.Manifest.{response_namespace, store_review_application}
use ssi_service.Manifest.Review.{store_review_application-status}
use ssi_service.Tests.Mem.{mem_bolt}
use ssi_service.Tests.Blob.{Blob, blobs, store, store-IsLawful}

-- Responses that are their ids.
abbrev responses : Kind String
responses = record {
  namespace = response_namespace;
  id_of = λ r. r;
  to_document = λ r. ("id", Json.str r) ∷ [];
  of_document = λ m. as_string (lookup "id" m);
}

abbrev one_application : Assoc (Assoc Blob)
one_application =
    ("application", ("app", Blob.document (("status", Json.num 1) ∷ [])) ∷ [])
    ∷ (
      "operation_credential_response",
      ("credentials/responses/r", Blob.document (("id", Json.str "credentials/responses/r") ∷ []))
          ∷ [],
    )
    ∷ []

abbrev approved : Result (String × StoredOperation Blob) × Assoc (Assoc Blob)
approved =
    store_review_application store blobs responses "app" true "" "credentials/responses/r" "r" "r"
      one_application

abbrev response : Blob
response =
    Blob.document (("id", Json.str "r") ∷ ("status", Json.num 4) ∷ ("reason", Json.str "") ∷ [])

review_application_example :
    (b : Blob) × (m : Document) × (store.read approved.1 "application" "app" ≡ ok (some b))
    × (unmarshal blobs (some b) ≡ ok m)
    × (lookup "status" m ≡ some (Json.num 4))
unfolding store_review_application store_value value_of update_stored update_value_and_operation
    update_both update_in update_with_map new_updater operation_updater validate_operation
    unmarshal_operation document_operation unmarshal from_id from_parent cut_last bolt_db read write
    write_func transaction execute mem_bolt lookup insert erase
review_application_example =
    store_review_application-status store blobs responses store-IsLawful "app" true ""
      "credentials/responses/r" "r" "r" "r"
      (record { id = "credentials/responses/r"; done = true; error = ""; response = some response })
      one_application approved.1 refl refl refl
