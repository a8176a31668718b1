-- ===== src/Tests/Templates.antt =====
-- The theorems on templates, on webhooks and on the key of the service, at concrete stores.
use ssi_service.Prelude.{
  String, ◌≡◌, refl, none, true, [], ◌∷◌, List, Assoc, lookup, insert, erase, Result, ok, arith,
}
use ssi_service.Json.{Json, as_string}
use ssi_service.Encryption.{Inverse, xchacha_encrypter, xchacha_decrypter}
use ssi_service.Storage.Contract.{transaction, execute}
use ssi_service.Storage.Bolt.{bolt_db, read, write, write_func, read_all}
use ssi_service.Storage.Kind.{Kind, store_value, find_value}
use ssi_service.Keystore.ServiceKey.{
  service_key_document, document_service_key, service_internal_namespace, get_service_key,
  ensure_encryption_key_exists,
}
use ssi_service.Keystore.ServiceKey.Laws.{service_key_kept}
use ssi_service.Issuance.Stored.{Template, template_kind, template_namespace}
use ssi_service.Issuance.{create_template, get_template, list_templates, with_id}
use ssi_service.Issuance.Laws.{
  get_template-create_template, list_templates_blank, entries_of, blanks,
}
use ssi_service.Webhook.{WebhookRequest, find_webhook, get_webhook, found_webhook}
use ssi_service.Storage.Update.{unmarshal}
use ssi_service.Webhook.Invariant.{Call, after_all, IsProper, after_all-IsProper}
use ssi_service.Tests.Mem.{mem_bolt}
use ssi_service.Tests.Blob.{Blob, blobs, store, store-IsLawful}
use ssi_service.Tests.Cipher.{envelope}

-- Manifests that are their ids.
abbrev manifests : Kind String
manifests = record {
  namespace = "manifest";
  id_of = λ m. m;
  to_document = λ m. ("id", Json.str m) ∷ [];
  of_document = λ m. as_string (lookup "id" m);
}

abbrev with_manifest : Assoc (Assoc Blob)
with_manifest = ("manifest", ("m", Blob.document (("id", Json.str "m") ∷ [])) ∷ []) ∷ []

abbrev template : Template
template = record {
  id = "";
  manifest = "m";
  issuer = "did:key:i";
  method_id = "k";
  credentials =
      record {
        id = "c";
        schema = "";
        input_descriptor = "d";
        claims = [];
        expiry = record { time = none; duration = none };
        revocable = true;
      }
      ∷ [];
}

abbrev creation : Result Template × Assoc (Assoc Blob)
creation = create_template store blobs manifests "t" true template with_manifest

template_example : get_template store blobs creation.1 "t" ≡ ok (with_id "t" template)
unfolding create_template find_value bolt_db read mem_bolt lookup unmarshal store_value
    template_kind write transaction
template_example =
    (get_template-create_template store blobs manifests store-IsLawful "t" true template
        (with_id "t" template) with_manifest creation.1 refl refl).3
      "t"

abbrev with_template : Assoc (Assoc Blob)
with_template = (template_namespace, entries_of store blobs (with_id "t" template ∷ [])) ∷ []

blank_example :
    list_templates store blobs with_template ≡ ok (blanks store blobs (with_id "t" template ∷ []))
unfolding bolt_db read_all entries_of mem_bolt lookup with_id erase insert
blank_example =
    (list_templates_blank store blobs (with_id "t" template ∷ []) with_template "m" refl refl).1

abbrev decode : String → Result String
decode s = ok s

abbrev started : Result (Unit {0}) × Assoc (Assoc Blob)
started =
    ensure_encryption_key_exists store blobs decode service_internal_namespace "key" "" (ok "first")
      []

abbrev started_again : Result (Unit {0}) × Assoc (Assoc Blob)
started_again =
    ensure_encryption_key_exists store blobs decode service_internal_namespace "key" ""
      (ok "second") started.1

service_key_example :
    (get_service_key store blobs decode service_internal_namespace "key" started_again.1
      ≡ get_service_key store blobs decode service_internal_namespace "key" started.1)
    × Inverse
        (xchacha_encrypter envelope
          (get_service_key store blobs decode service_internal_namespace "key" started.1))
        (xchacha_decrypter envelope
          (get_service_key store blobs decode service_internal_namespace "key" started_again.1))
unfolding ensure_encryption_key_exists execute bolt_db mem_bolt get_service_key read lookup
    write_func insert unmarshal document_service_key service_key_document
service_key_example =
    service_key_kept store blobs decode service_internal_namespace "key" store-IsLawful envelope
      (ok "first") (ok "second") [] started.1 started_again.1 (λ k p. (k, refl)) refl refl

abbrev request : String → WebhookRequest
request url = record { noun = "DID"; verb = "Create"; url = url }

abbrev calls : List Call
calls =
    Call.creates (request "https://a")
    ∷ Call.creates (request "https://b")
    ∷ Call.creates (request "https://a")
    ∷ Call.deletes (request "https://b")
    ∷ []

no_webhook : IsProper store blobs []
unfolding find_webhook get_webhook found_webhook bolt_db read mem_bolt lookup
no_webhook noun verb w h = absurd (ground arith)

calls_example : IsProper store blobs (after_all store blobs calls [])
calls_example = after_all-IsProper store blobs store-IsLawful calls [] no_webhook
