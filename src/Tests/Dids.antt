-- ===== src/Tests/Dids.antt =====
-- The theorems on DIDs, at concrete requests.
use ssi_service.Prelude.{
  String, ◌≡◌, ◌⊎◌, refl, false, List, [], ◌∷◌, Assoc, lookup, Result, ok, err, Error, ◌==◌,
}
use ssi_service.Encryption.{xchacha-Inverse}
use ssi_service.Storage.Contract.{transaction, lawful-ReadsWrites}
use ssi_service.Storage.Bolt.{bolt_db, read, write}
use ssi_service.Storage.Update.{unmarshal}
use ssi_service.Did.Ids.{
  is_plain, get_method_for_did, namespace_for_did, namespace_for_method, namespace_for_did-append,
}
use ssi_service.Did.Storage.{StoredDid, did_document, document_did, store_did, get_did}
use ssi_service.Did.Handlers.{
  Generated, DidOptions, CreateDidRequest, create_web_did, get_did_of, soft_delete_did,
}
use ssi_service.Did.Handlers.Laws.{soft_delete_did_lem}
use ssi_service.Did.Batch.{batch_create_dids}
use ssi_service.Did.Batch.Laws.{latest, documents, or_before, batch_create_dids-cases}
use ssi_service.Tests.Mem.{mem_bolt}
use ssi_service.Tests.Blob.{Blob, blobs, store, store-IsLawful}
use ssi_service.Tests.Cipher.{envelope, envelope-full}
use ssi_service.Tests.Keys.{text_keys, encrypter, decrypter}
use ssi_service.Tests.Sdk.{texts}

namespace_example :
    (get_method_for_did "did:key:z6Mk" ≡ ok "key")
    × (namespace_for_did "did:key:z6Mk" ≡ namespace_for_method "key")
unfolding is_plain
namespace_example = namespace_for_did-append "key" "z6Mk" refl

abbrev generated : String → Generated String
generated id = record {
  id = id;
  document = "the document";
  method_id = "k1";
  private_key = ok "abc";
}

abbrev did_request : String → String → CreateDidRequest String
did_request method id = record {
  method = method;
  key_type = "Ed25519";
  options = DidOptions.web_options id;
  generated = ok (generated id);
}

abbrev web_run : Result String × Assoc (Assoc Blob)
web_run =
    create_web_did store blobs encrypter decrypter text_keys texts (λ id. false) "now"
      (did_request "web" "did:web:a.org") []

abbrev old_did : StoredDid String
old_did = record { id = "did:key:z"; document = "the document"; soft_deleted = false }

abbrev with_did : Assoc (Assoc Blob)
with_did = ("did-key", ("did:key:z", Blob.document (did_document texts old_did)) ∷ []) ∷ []

abbrev without_did : Assoc (Assoc Blob)
without_did = (soft_delete_did store blobs texts "did:key:z" with_did).1

soft_delete_example : get_did_of store blobs texts without_did "did:key:z" ≡ ok "the document"
unfolding get_did namespace_for_did get_method_for_did bolt_db read mem_bolt lookup unmarshal
    document_did did_document soft_delete_did store_did write transaction
soft_delete_example =
    (soft_delete_did_lem store blobs texts (lawful-ReadsWrites store-IsLawful) "did:key:z" old_did
      with_did without_did refl refl refl).1

abbrev batch : List (CreateDidRequest String)
batch = did_request "key" "did:key:a" ∷ did_request "key" "did:key:b" ∷ []

abbrev batch_run : Result (List String) × Assoc (Assoc Blob)
batch_run =
    batch_create_dids store blobs encrypter decrypter text_keys texts (Blob.raw "starting") "u"
      "now" batch []

batch_dids_example :
    ((made_docs : List String) × (batch_run.0 ≡ ok made_docs)
      × (made_docs ≡ documents batch)
      × ((id : String)
          → get_did store blobs texts batch_run.1 id
            ≡ or_before (latest batch id) (get_did store blobs texts [] id)))
    ⊎ ((x : Error) × (batch_run.0 ≡ err x)
        × ((ns k : String)
            → ("temporary" == ns) ≡ false
            → store.read batch_run.1 ns k ≡ store.read [] ns k))
batch_dids_example =
    batch_create_dids-cases store blobs encrypter decrypter text_keys texts store-IsLawful
      (xchacha-Inverse envelope (ok "secret")) envelope-full (Blob.raw "starting") "u" "now" batch
      [] batch_run.1 batch_run.0 refl
