-- ===== src/Tests/Signed.antt =====
-- The theorems on requests and schemas, which a stored key signs.
use ssi_service.Prelude.{
  String, ◌≡◌, ◌≢◌, refl, true, false, none, some, [], ◌∷◌, Assoc, lookup, insert, Result, ok, err,
  Error, eq_iff, arith,
}
use ssi_service.Json.{Document, Json}
use ssi_service.Encryption.{xchacha_encrypter, xchacha_decrypter, xchacha-Inverse}
use ssi_service.Storage.Contract.{transaction}
use ssi_service.Storage.Bolt.{bolt_db, read, write}
use ssi_service.Storage.Update.{unmarshal}
use ssi_service.Storage.Kind.{store_value}
use ssi_service.Keystore.{
  as_revoked, GetKeyResponse, get_key, stored_key, sign, revoke_key, key_document, document_key,
}
use ssi_service.Requests.{
  validate_verification_method_id, Request, Tokens, request_kind, to_service_model,
  create_stored_request,
}
use ssi_service.Requests.Service.{ServiceRequest, get_request, create_request_with}
use ssi_service.Requests.Service.Laws.{get_request-create_request, create_request_with-revoke_key}
use ssi_service.Schema.{
  is_credential_schema_request, request_is_valid, schema_kind, StoredSchema, CreateSchemaRequest,
  Schemas, create_schema,
}
use ssi_service.Schema.Laws.{SignedBy, Describes, create_schema_signed}
use ssi_service.Tests.Mem.{mem_bolt}
use ssi_service.Tests.Blob.{Blob, blobs, store, store-IsLawful}
use ssi_service.Tests.Cipher.{envelope, envelope-full}
use ssi_service.Tests.Keys.{text_keys, encrypter, decrypter, key_one, with_key}

-- Times are texts, and the ids of keys are written in full.
abbrev tokens : Tokens String
tokens = record {
  format = λ t. t;
  parse = λ t. ok t;
  build = λ t. ok t.claim_value;
  qualified = λ issuer method. method;
}

abbrev wanted : Request String
wanted = record {
  id = "";
  audience = "did:key:b" ∷ [];
  expiration = some "tomorrow";
  issuer_did = "did:key:i";
  verification_method_id = "k1";
  callback_url = "https://c";
}

abbrev creation : Result (ServiceRequest String) × Assoc (Assoc Blob)
creation =
    create_request_with store blobs encrypter decrypter text_keys tokens "request" "definition"
      (λ s. ok (Json.str "the definition")) "now" "r1" true wanted "d1" with_key

abbrev answered : ServiceRequest String
answered = record {
  request = record {
    id = "r1";
    audience = "did:key:b" ∷ [];
    expiration = some "tomorrow";
    issuer_did = "did:key:i";
    verification_method_id = "k1";
    callback_url = "https://c";
  };
  reference_id = "d1";
  jwt = "did:key:i";
}

request_example : get_request store blobs tokens "request" creation.1 "r1" ≡ ok answered
unfolding create_request_with create_stored_request sign bolt_db read mem_bolt lookup
    xchacha_decrypter unmarshal document_key key_document store_value request_kind write transaction
    to_service_model
request_example =
    get_request-create_request store blobs encrypter decrypter text_keys tokens store-IsLawful
      "request" "definition" (λ s. ok (Json.str "the definition")) "now" "r1" true wanted "d1"
      with_key creation.1 answered refl "r1"

abbrev revoked : Assoc (Assoc Blob)
revoked = (revoke_key store blobs encrypter decrypter text_keys "later" "k1" with_key).1

revoked_example :
    (x : Error) × (create_request_with store blobs encrypter decrypter text_keys tokens "request"
        "definition"
        (λ s. ok (Json.str "the definition"))
        "now"
        "r1"
        true
        wanted
        "d1"
        revoked
      ≡ (err x, revoked))
unfolding stored_key bolt_db read mem_bolt lookup xchacha_decrypter unmarshal document_key
    key_document revoke_key as_revoked write transaction xchacha_encrypter insert
revoked_example =
    create_request_with-revoke_key store blobs encrypter decrypter text_keys tokens store-IsLawful
      (xchacha-Inverse envelope (ok "secret")) envelope-full "request" "definition"
      (λ s. ok (Json.str "the definition")) "now" "r1" true wanted "d1" "later" key_one with_key
      revoked refl refl refl

names_differ : ◌≢◌ {A = String} "JsonSchema" "JsonSchemaCredential"
names_differ p =
    let same : false ≡ true = (eq_iff "JsonSchema" "JsonSchemaCredential").1 p in ground arith

abbrev schemas : Schemas Blob String
schemas = record {
  json_schema_type = "JsonSchema";
  credential_type = "JsonSchemaCredential";
  name_property = "name";
  description_property = "description";
  id_property = "$id";
  is_valid = λ m. true;
  is_supported_version = λ m. true;
  build = λ uri issuer m now. ok issuer;
  issuer_of = λ c. c;
  qualified = λ issuer method. "k1";
  sign_credential = λ method id k c. ok id;
  schema_of = λ jwt. ok [];
  types_differ = names_differ;
}

abbrev schema_request : CreateSchemaRequest
schema_request = record {
  name = "n";
  description = "";
  schema = [];
  issuer = "did:key:i";
  method_id = "did:key:i#k1";
}

abbrev schema_creation : Result StoredSchema × Assoc (Assoc Blob)
schema_creation =
    create_schema store blobs encrypter decrypter text_keys schemas "now" "s1" "/schemas" true
      schema_request with_key

abbrev schema_stored : StoredSchema
schema_stored = record {
  id = "s1";
  schema_type = "JsonSchemaCredential";
  schema = none;
  credential_schema = some "k1";
}

schema_example :
    (m : Document) × Describes store blobs encrypter decrypter text_keys schemas schema_request "s1"
      m
    × (cred jwt : String) × (key : GetKeyResponse Blob) × (schemas.build "/schemas/s1" "did:key:i" m
          "now"
        ≡ ok cred)
    × (schema_stored.credential_schema ≡ some jwt)
    × SignedBy store blobs encrypter decrypter text_keys schemas with_key "did:key:i" "did:key:i#k1"
        cred jwt key
unfolding is_credential_schema_request create_schema request_is_valid
    validate_verification_method_id get_key bolt_db read mem_bolt lookup xchacha_decrypter unmarshal
    document_key key_document store_value schema_kind write transaction
schema_example =
    create_schema_signed store blobs encrypter decrypter text_keys schemas "now" "s1" "/schemas"
      true schema_request schema_stored with_key schema_creation.1 refl refl
