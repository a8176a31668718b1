-- ===== src/Tests/Services.antt =====
-- The theorems on keys, webhooks and pages, at concrete inputs.
use ssi_service.Prelude.{
  ◌≡◌, ◌≢◌, refl, false, some, [], ◌∷◌, Assoc, lookup, insert, erase, ok, arith,
}
use ssi_service.Json.{string_items, items_strings, as_strings}
use ssi_service.Encryption.{xchacha_encrypter, xchacha-Inverse}
use ssi_service.Storage.Contract.{transaction}
use ssi_service.Storage.Bolt.{bolt_db, read, write, write_func}
use ssi_service.Storage.Update.{unmarshal}
use ssi_service.Keystore.{key_document, store_key, stored_key}
use ssi_service.Keystore.Revocation.{stored_key-store_key}
use ssi_service.Webhook.{
  Webhook, WebhookRequest, webhook_document, document_webhook, found_webhook, find_webhook,
  get_webhook, create_webhook, delete_webhook, store_webhook, keep_or_delete, add_url, remove_url,
  one_of, index_of_url, webhook_key,
}
use ssi_service.Webhook.Urls.{remove_url-add_url, delete_webhook-create_webhook}
use ssi_service.Tests.Keys.{text_keys, encrypter, decrypter, key_one}
use ssi_service.Tests.Mem.{mem_bolt}
use ssi_service.Tests.Blob.{Blob, blobs, store, store-IsLawful}
use ssi_service.Tests.Cipher.{envelope, envelope-full}

store_key_example :
    stored_key store blobs encrypter decrypter text_keys
      (store_key store blobs encrypter decrypter text_keys key_one []).1
      "k1"
    ≡ ok key_one
unfolding store_key bolt_db write write_func transaction mem_bolt lookup insert erase
    xchacha_encrypter key_document
store_key_example =
    stored_key-store_key store blobs encrypter decrypter text_keys store-IsLawful
      (xchacha-Inverse envelope (ok "secret")) envelope-full key_one []
      (store_key store blobs encrypter decrypter text_keys key_one []).1 refl "k1"

abbrev one_url : Webhook
one_url = record { noun = "DID"; verb = "Create"; urls = "https://a" ∷ [] }

abbrev with_webhook : Assoc (Assoc Blob)
with_webhook = ("webhook", ("DID:Create", Blob.document (webhook_document one_url)) ∷ []) ∷ []

abbrev request : WebhookRequest
request = record { noun = "DID"; verb = "Create"; url = "https://b" }

abbrev registered : Assoc (Assoc Blob)
registered = (create_webhook store blobs request with_webhook).1

one_url-fresh :
    (old : Webhook)
    → some one_url ≡ some old
    → (one_of "https://b" old.urls ≡ false) × (old.urls ≢ [])
unfolding one_of
one_url-fresh old e =
    let urls : "https://a" ∷ [] ≡ old.urls = ground arith in rw (← urls) (refl, λ p. cc)

remove_url_example : remove_url "b" (add_url "b" ("a" ∷ [])) ≡ ok ("a" ∷ [])
unfolding one_of
remove_url_example = remove_url-add_url "b" ("a" ∷ []) refl

webhook_example :
    find_webhook store blobs (delete_webhook store blobs request registered).1 "DID" "Create"
    ≡ ok (some one_url)
unfolding find_webhook found_webhook get_webhook create_webhook delete_webhook store_webhook
    keep_or_delete add_url remove_url one_of index_of_url webhook_key string_items items_strings
    as_strings webhook_document document_webhook bolt_db read write write_func transaction mem_bolt
    lookup insert erase unmarshal
webhook_example =
    delete_webhook-create_webhook store blobs store-IsLawful request (some one_url)
      (record { noun = "DID"; verb = "Create"; urls = "https://a" ∷ "https://b" ∷ [] }) with_webhook
      registered (delete_webhook store blobs request registered).1 refl one_url-fresh refl refl
