-- ===== src/Tests/Manifests.antt =====
-- The theorem on the creation of manifests, at a request that refers to a stored definition.
use ssi_service.Prelude.{
  String, ◌≡◌, refl, true, false, none, some, [], ◌∷◌, List, Assoc, lookup, Result, ok, err, Error,
  then_pure, Option,
}
use ssi_service.Json.{Json, Items, Document, as_string}
use ssi_service.Storage.Contract.{transaction}
use ssi_service.Storage.Bolt.{bolt_db, read, write}
use ssi_service.Storage.Update.{unmarshal}
use ssi_service.Storage.Kind.{Kind, store_value}
use ssi_service.Storage.Kind.Laws.{IsFaithful}
use ssi_service.Requests.{validate_verification_method_id}
use ssi_service.Presentation.Storage.{
  definition_document, document_definition, definition_namespace, get_definition,
}
use ssi_service.Presentation.Service.{get_presentation_definition}
use ssi_service.Manifest.Fulfillment.{Manifest, OutputDescriptor}
use ssi_service.Manifest.Service.{StoredManifest, StoredApplication, StoredResponse}
use ssi_service.Manifest.Creation.{
  CreateManifestRequest, ManifestBuilder, create_manifest, get_manifest,
}
use ssi_service.Manifest.Creation.Laws.{get_manifest-create_manifest}
use ssi_service.Tests.Mem.{mem_bolt}
use ssi_service.Tests.Blob.{Blob, blobs, store, store-IsLawful}
use ssi_service.Tests.Sdk.{texts}

abbrev output_items : List OutputDescriptor → Items
output_items [] = Items.nil
output_items (o ∷ os) =
    Items.cons (Json.str o.id) (Items.cons (Json.str o.schema) (output_items os))

abbrev items_outputs : Items → Result (List OutputDescriptor)
items_outputs Items.nil = ok []
items_outputs (Items.cons (Json.str id) (Items.cons (Json.str schema) rest)) =
    then_pure (items_outputs rest) λ os. ok (record { id = id; schema = schema } ∷ os)
items_outputs _ = err Error.codec

items_outputs-output_items : (os : List OutputDescriptor) → items_outputs (output_items os) ≡ ok os
items_outputs-output_items [] = refl
items_outputs-output_items (o ∷ os) = rw (items_outputs-output_items os) refl

abbrev as_manifest : Option Json → Result Manifest
as_manifest (some (Json.arr (Items.cons (Json.str issuer) (Items.cons (Json.bool has) outputs)))) =
    then_pure (items_outputs outputs)
      λ os. ok (record { issuer = issuer; outputs = os; has_definition = has })
as_manifest _ = err Error.codec

abbrev manifest_json : Manifest → Json
manifest_json m = Json.arr (
    Items.cons (Json.str m.issuer)
      (Items.cons (Json.bool m.has_definition) (output_items m.outputs)))

abbrev manifest_document : StoredManifest → Document
manifest_document m =
    ("id", Json.str m.id)
    ∷ ("issuer", Json.str m.issuer_did)
    ∷ ("method", Json.str m.method_id)
    ∷ ("manifest", manifest_json m.manifest)
    ∷ []

abbrev document_manifest : Document → Result StoredManifest
document_manifest m = then_pure (as_string (lookup "id" m)) λ id.
    then_pure (as_string (lookup "issuer" m)) λ issuer.
      then_pure (as_string (lookup "method" m)) λ method.
        then_pure (as_manifest (lookup "manifest" m)) λ manifest.
          ok (record { id = id; issuer_did = issuer; method_id = method; manifest = manifest })

abbrev manifests : Kind StoredManifest
manifests = record {
  namespace = "manifest";
  id_of = λ m. m.id;
  to_document = manifest_document;
  of_document = document_manifest;
}

manifests-IsFaithful : IsFaithful manifests
unfolding lookup
manifests-IsFaithful = record {
  of_document-to_document = λ m. rw (items_outputs-output_items m.manifest.outputs) refl;
  of_document-same = λ m m' same. rw (same "id", same "issuer", same "method", same "manifest");
}

-- Applications and responses that are not read.
abbrev applications : Kind (StoredApplication String)
applications = record {
  namespace = "application";
  id_of = λ a. a.id;
  to_document = λ a. [];
  of_document = λ m. err Error.codec;
}

abbrev responses : Kind (StoredResponse String)
responses = record {
  namespace = "response";
  id_of = λ r. r.id;
  to_document = λ r. [];
  of_document = λ m. err Error.codec;
}

-- The builder keeps the issuer and the output descriptors.
abbrev builder : ManifestBuilder Manifest String String
builder = record {
  new = record { issuer = ""; outputs = []; has_definition = false };
  set_name = λ name b. ok b;
  set_description = λ description b. ok b;
  set_issuer = λ id name b.
      ok (record { issuer = id; outputs = b.outputs; has_definition = b.has_definition });
  set_claim_format = λ format b. ok b;
  set_output_descriptors = λ outputs b.
      ok (record { issuer = b.issuer; outputs = outputs; has_definition = b.has_definition });
  set_presentation_definition =
      λ definition b. ok (record { issuer = b.issuer; outputs = b.outputs; has_definition = true });
  build = λ b. ok ("m1", b);
}

abbrev request : CreateManifestRequest String String
request = record {
  name = some "n";
  description = none;
  issuer_did = "did:key:i";
  method_id = "did:key:i#k1";
  issuer_name = none;
  outputs = record { id = "o"; schema = "s" } ∷ [];
  format = "jwt_vc";
  definition = some (record { id = some "d1"; definition = none });
}

abbrev with_definition : Assoc (Assoc Blob)
with_definition =
    (
      definition_namespace store blobs texts,
      (
        "d1",
        Blob.document
            (definition_document store blobs texts (record { id = "d1"; definition = "pd" })),
      )
          ∷ [],
    )
    ∷ []

abbrev creation : Result (String × Manifest) × Assoc (Assoc Blob)
creation = create_manifest store blobs manifests texts builder true request with_definition

abbrev made : Manifest
made = record {
  issuer = "did:key:i";
  outputs = record { id = "o"; schema = "s" } ∷ [];
  has_definition = true;
}

create_manifest_example :
    get_manifest store blobs manifests applications responses creation.1 "m1" ≡ ok made
unfolding create_manifest validate_verification_method_id get_presentation_definition get_definition
    bolt_db read mem_bolt lookup unmarshal document_definition definition_document store_value write
    transaction
create_manifest_example =
    (get_manifest-create_manifest store blobs manifests texts builder applications responses
        manifests-IsFaithful store-IsLawful (λ m. refl) true request ("m1", made) with_definition
        creation.1 refl).2
      "m1"
