-- ===== src/Tests/Issued.antt =====
-- The theorem on the creation of credentials, with a stored key.
use ssi_service.Prelude.{
  String, ◌≡◌, refl, true, false, none, some, [], Assoc, Result, ok, err, Error, Option,
}
use ssi_service.Json.{Json, Items, Document}
use ssi_service.Presentation.Storage.{SdkValue}
use ssi_service.Credential.Stored.{Credential, Container, StatusEntry}
use ssi_service.Credential.Status.{Parts}
use ssi_service.Credential.Service.{
  CreateRequest, Builder, Signer, sign_credential_jwt, create_credential,
}
use ssi_service.Tests.Blob.{Blob, blobs, store}
use ssi_service.Tests.Keys.{text_keys, encrypter, decrypter, with_key}

abbrev schema_json : Option String → Json
schema_json none = Json.null
schema_json (some s) = Json.str s

abbrev json_schema : Json → Option String
json_schema (Json.str s) = some s
json_schema _ = none

abbrev status_json : Option StatusEntry → Json
status_json none = Json.null
status_json (some x) = Json.arr (
    Items.cons (Json.str x.purpose)
      (Items.cons (Json.num x.list_index) (Items.cons (Json.str x.list_credential) Items.nil)))

abbrev json_status : Json → Option StatusEntry
json_status
      (Json.arr (
        Items.cons
          (Json.str purpose)
          (Items.cons (Json.num index) (Items.cons (Json.str list) Items.nil)))) =
    some (record { purpose = purpose; list_index = index; list_credential = list })
json_status _ = none

abbrev credential_json : Credential → Json
credential_json c = Json.arr (
    Items.cons (Json.str c.id) (
      Items.cons (Json.str c.issuer) (
        Items.cons (Json.str c.subject) (
          Items.cons (schema_json c.schema) (
            Items.cons (Json.str c.issuance_date) (
              Items.cons (Json.bool c.has_proof) (Items.cons (status_json c.status) Items.nil)))))))

abbrev json_credential : Json → Result Credential
json_credential
      (Json.arr (
        Items.cons (Json.str id) (
          Items.cons (Json.str issuer) (
            Items.cons (Json.str subject) (
              Items.cons schema (
                Items.cons
                  (Json.str date)
                  (Items.cons (Json.bool proof) (Items.cons status Items.nil)))))))) =
    ok (record {
      id = id;
      issuer = issuer;
      subject = subject;
      schema = json_schema schema;
      issuance_date = date;
      has_proof = proof;
      status = json_status status;
    })
json_credential _ = err Error.codec

json_schema-schema_json : (o : Option String) → json_schema (schema_json o) ≡ o
json_schema-schema_json none = refl
json_schema-schema_json (some s) = refl

json_status-status_json : (o : Option StatusEntry) → json_status (status_json o) ≡ o
json_status-status_json none = refl
json_status-status_json (some x) = refl

json_credential-credential_json : (c : Credential) → json_credential (credential_json c) ≡ ok c
json_credential-credential_json c =
    rw (json_schema-schema_json c.schema, json_status-status_json c.status) refl

abbrev credentials : SdkValue Credential
credentials = record {
  to_json = credential_json;
  of_json = json_credential;
  of_json-to_json = json_credential-credential_json;
}

abbrev signer : Signer Blob
signer = record { qualified = λ issuer method. "k1"; sign_credential = λ method id k c. ok c.id }

abbrev made : String → String → Option StatusEntry → Credential
made id subject status = record {
  id = id;
  issuer = "did:key:i";
  subject = subject;
  schema = none;
  issuance_date = "now";
  has_proof = false;
  status = status;
}

-- The builder keeps the id, the subject and the status.
abbrev builder : Builder Credential
builder = record {
  new = made "" "" none;
  set_id = λ id b. ok (made id b.subject b.status);
  set_issuer = λ issuer b. ok b;
  set_subject = λ subject b. ok (made b.id "did:key:s" b.status);
  add_context = λ context b. ok b;
  set_schema = λ id type b. ok b;
  set_expiration_date = λ date b. ok b;
  set_issuance_date = λ date b. ok b;
  set_status = λ entry b. ok (made b.id b.subject (some entry));
  set_evidence = λ evidence b. ok b;
  build = λ b. ok b;
  complies = λ c m. true;
}

abbrev parts : Parts (Assoc (Assoc Blob)) Blob
parts = record {
  db = store;
  codec = blobs;
  vc = credentials;
  parse = λ jwt. ok (made jwt "did:key:s" none);
  generate = λ id purpose issuer cs. ok (made id "list" none);
  sign = sign_credential_jwt store blobs encrypter decrypter text_keys signer;
  wrap = λ e. e;
  shuffle = λ ns. ns;
  status_base = "/status";
  byte_length = λ s. 36;
  cut = λ n s. s;
}

abbrev request : CreateRequest
request = record {
  issuer = "did:key:i";
  method_id = "did:key:i#k1";
  subject = "did:key:s";
  context = "";
  schema_id = "";
  claims = [];
  expiry = "";
  revocable = false;
  suspendable = false;
  evidence = [];
}

abbrev no_schema : Assoc (Assoc Blob) → String → Result (Option Document × String)
no_schema s id = err Error.not_found

abbrev creation : Result Container × Assoc (Assoc Blob)
creation =
    create_credential parts builder no_schema "/credentials" "now" "c1" "l1" true request with_key
