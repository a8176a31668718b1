-- ===== src/Requests.antt =====
-- pkg/service/common: requests that are signed and stored, for presentations and for manifests.
pub mod Service
use text.Mathlib.Text.{starts_with}
use ssi_service.Prelude.{
  ℕ, String, ◌≡◌, refl, Option, none, some, List, [], ◌∷◌, Assoc, lookup, Result, ok, err, Error,
  then_pure, ◌==◌, arith, if◌then◌else◌,
}
use ssi_service.Json.{
  Json, Codec, Document, as_string, string_items, as_strings, items_strings-string_items,
}
use ssi_service.Encryption.{Encrypter, Decrypter}
use ssi_service.Storage.Contract.{ServiceStorage}
use ssi_service.Storage.Kind.{Kind, value_of}
use ssi_service.Storage.Kind.Laws.{IsFaithful}
use ssi_service.Keystore.{Keys, sign}

pub record StoredRequest : Type 0 where
  pub id : String
  pub audience : List String
  pub expiration : String
  pub issuer_did : String
  pub verification_method_id : String
  pub reference_id : String
  pub jwt : String
  pub callback_url : String

pub record Request (Time : Type 0) : Type 0 where
  pub id : String
  pub audience : List String
  pub expiration : Option Time
  pub issuer_did : String
  pub verification_method_id : String
  pub callback_url : String

-- What the JWT is built of; an empty callback is no claim.
pub record Token (Time : Type 0) : Type 0 where
  pub claim_name : String
  pub claim_value : Json
  pub audience : List String
  pub issuer : String
  pub not_before : Time
  pub id : String
  pub expiration : Option Time
  pub callback_url : Option String

-- The time, JWT and DID libraries: RFC 3339, `Build`, and `FullyQualifiedVerificationMethodID`.
pub record Tokens (Time : Type 0) : Type 0 where
  pub format : Time → String
  pub parse : String → Result Time
  pub build : Token Time → Result Json
  pub qualified : String → String → String

unfoldable pub request_document : StoredRequest → Document
request_document r =
    ("id", Json.str r.id)
    ∷ ("audience", Json.arr (string_items r.audience))
    ∷ ("expiration", Json.str r.expiration)
    ∷ ("issuerId", Json.str r.issuer_did)
    ∷ ("verificationMethodId", Json.str r.verification_method_id)
    ∷ ("referenceId", Json.str r.reference_id)
    ∷ ("jwt", Json.str r.jwt)
    ∷ ("callbackUrl", Json.str r.callback_url)
    ∷ []

unfoldable pub document_request : Document → Result StoredRequest
document_request m = then_pure (as_string (lookup "id" m)) λ id.
    then_pure (as_strings (lookup "audience" m)) λ audience.
      then_pure (as_string (lookup "expiration" m)) λ expiration.
        then_pure (as_string (lookup "issuerId" m)) λ issuer.
          then_pure (as_string (lookup "verificationMethodId" m)) λ method.
            then_pure (as_string (lookup "referenceId" m)) λ reference.
              then_pure (as_string (lookup "jwt" m)) λ jwt.
                then_pure (as_string (lookup "callbackUrl" m)) λ callback. ok (record {
                  id = id;
                  audience = audience;
                  expiration = expiration;
                  issuer_did = issuer;
                  verification_method_id = method;
                  reference_id = reference;
                  jwt = jwt;
                  callback_url = callback;
                })

-- The storage of requests keeps this kind of value, in the namespace that it was made with.
unfoldable pub request_kind : String → Kind StoredRequest
unfolding request_document document_request
request_kind namespace = record {
  namespace = namespace;
  id_of = λ r. r.id;
  to_document = request_document;
  of_document = document_request;
}

pub request_kind-IsFaithful : (namespace : String) → IsFaithful (request_kind namespace)
unfolding request_kind request_document document_request as_strings lookup
request_kind-IsFaithful namespace = record {
  of_document-to_document = λ r. ground (arith, items_strings-string_items r.audience);
  of_document-same = λ m m' same. rw (
    same "id",
    same "audience",
    same "expiration",
    same "issuerId",
    same "verificationMethodId",
    same "referenceId",
    same "jwt",
    same "callbackUrl",
  );
}

module _ {S Bytes V : Type 0} (db : ServiceStorage S Bytes) (codec : Codec Bytes)
    (kind : Kind V) where
  -- `ListRequests`: one that cannot be read is an error.
  unfoldable pub all_values : Assoc Bytes → Result (List V)
  all_values [] = ok []
  all_values ((k, b) ∷ rest) =
      then_pure (value_of db codec kind (some b)) λ v. then_pure (all_values rest) λ vs. ok (v ∷ vs)

  unfoldable pub list_all : S → Result (List V)
  unfolding all_values
  list_all s = then_pure (db.read_all s kind.namespace) all_values

module _ {Time : Type 0} (lib : Tokens Time) where
  parse_expiration : String → Result (Option Time)
  parse_expiration t = if t == "" then ok none else then_pure (lib.parse t) (λ time. ok (some time))

  unfoldable pub to_service_model : StoredRequest → Result (Request Time)
  unfolding parse_expiration
  to_service_model r = then_pure (parse_expiration r.expiration) λ expiration. ok (record {
    id = r.id;
    audience = r.audience;
    expiration = expiration;
    issuer_did = r.issuer_did;
    verification_method_id = r.verification_method_id;
    callback_url = r.callback_url;
  })

  expiration_string : Option Time → String
  expiration_string none = ""
  expiration_string (some t) = lib.format t

  unfoldable pub request_token : Time → String → Json → Request Time → String → Token Time
  request_token now name value r uuid = record {
    claim_name = name;
    claim_value = value;
    audience = r.audience;
    issuer = r.issuer_did;
    not_before = now;
    id = uuid;
    expiration = r.expiration;
    callback_url = if r.callback_url == "" then none else some r.callback_url;
  }

  unfoldable pub signed_request : Request Time → String → String → String → StoredRequest
  unfolding expiration_string
  signed_request r uuid reference jwt = record {
    id = uuid;
    audience = r.audience;
    expiration = expiration_string r.expiration;
    issuer_did = r.issuer_did;
    verification_method_id = r.verification_method_id;
    reference_id = reference;
    jwt = jwt;
    callback_url = r.callback_url;
  }

module _ {S Bytes Priv Jwk Time : Type 0} (db : ServiceStorage S Bytes) (codec : Codec Bytes)
    (e : Encrypter Bytes) (d : Decrypter Bytes) (keys : Keys Bytes Priv Jwk)
    (lib : Tokens Time) where
  -- `uuid` is the new id, `reference` that of the definition or manifest.
  unfoldable pub create_stored_request :
      S → Time → String → String → Json → Request Time → String → Result StoredRequest
  unfolding request_token signed_request
  create_stored_request s now uuid name value r reference =
      then_pure (lib.build (request_token lib now name value r uuid)) λ token.
        then_pure
          (sign db codec e d keys s (lib.qualified r.issuer_did r.verification_method_id) token)
          λ jwt. ok (signed_request lib r uuid reference jwt)

-- The issuer of a request must be the start of the id of its verification method.
unfoldable pub validate_verification_method_id : String → String → Result (Unit {0})
validate_verification_method_id id issuer =
    if starts_with id issuer then ok tt else err Error.invalid
