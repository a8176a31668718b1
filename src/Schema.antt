-- ===== src/Schema.antt =====
-- pkg/service/schema: JSON schemas and credential schemas, which are signed.
pub mod Laws
use ssi_service.Prelude.{
  ℕ, String, ◌<>◌, ◌≡◌, ◌≢◌, refl, Bool, ◌&&◌, not, Option, none, some, List, [], ◌∷◌, lookup,
  insert, Result, ok, err, Error, Action, then_pure, lift, reads, pure, ◌>>=◌, ◌>>◌, ◌==◌,
  if◌then◌else◌,
}
use ssi_service.Json.{Json, Codec, Document, as_string, members, of_members}
use ssi_service.Encryption.{Encrypter, Decrypter}
use ssi_service.Storage.Contract.{ServiceStorage}
use ssi_service.Storage.Kind.{Kind, store_value, find_value, delete_value, values_of}
use ssi_service.Keystore.{Keys, GetKeyResponse, get_key}
use ssi_service.Requests.{validate_verification_method_id}

-- `StoredSchema`, and with the same fields the answers of the service. A credential schema is a JWT.
pub record StoredSchema : Type 0 where
  pub id : String
  pub schema_type : String
  pub schema : Option Document
  pub credential_schema : Option String

pub record CreateSchemaRequest : Type 0 where
  pub name : String
  pub description : String
  pub schema : Document
  pub issuer : String
  pub method_id : String

-- The SDK: the names of the types and of the properties, the checks of a schema, the credential that
-- the builder makes of an URI, an issuer, a schema and the time, its issuer, its signature by a key
-- under the two ids, and the schema inside a JWT.
pub record Schemas (Priv Cred : Type 0) : Type 0 where
  pub json_schema_type : String
  pub credential_type : String
  pub name_property : String
  pub description_property : String
  pub id_property : String
  pub is_valid : Document → Bool
  pub is_supported_version : Document → Bool
  pub build : String → String → Document → String → Result Cred
  pub issuer_of : Cred → String
  pub qualified : String → String → String
  pub sign_credential : String → String → Priv → Cred → Result String
  pub schema_of : String → Result Document
  pub types_differ : json_schema_type ≢ credential_type

schema_field : Option Document → Document
schema_field none = []
schema_field (some m) = ("schema", Json.obj (members m)) ∷ []

credential_field : Option String → Document
credential_field none = []
credential_field (some jwt) = ("credentialSchema", Json.str jwt) ∷ []

append : Document → Document → Document
append [] n = n
append (kv ∷ m) n = kv ∷ append m n

unfoldable pub schema_document : StoredSchema → Document
unfolding schema_field credential_field append
schema_document s =
    ("id", Json.str s.id)
    ∷ ("type", Json.str s.schema_type)
    ∷ append (schema_field s.schema) (credential_field s.credential_schema)

as_schema : Option Json → Result (Option Document)
as_schema none = ok none
as_schema (some Json.null) = ok none
as_schema (some (Json.obj m)) = ok (some (of_members m))
as_schema (some _) = err Error.codec

as_jwt : Option Json → Result (Option String)
as_jwt none = ok none
as_jwt (some Json.null) = ok none
as_jwt (some (Json.str s)) = ok (some s)
as_jwt (some _) = err Error.codec

unfoldable pub document_schema : Document → Result StoredSchema
unfolding as_schema as_jwt
document_schema m = then_pure (as_string (lookup "id" m)) λ id.
    then_pure (as_string (lookup "type" m)) λ schema_type.
      then_pure (as_schema (lookup "schema" m)) λ schema.
        then_pure (as_jwt (lookup "credentialSchema" m)) λ jwt.
          ok (record {
            id = id;
            schema_type = schema_type;
            schema = schema;
            credential_schema = jwt;
          })

-- The storage of schemas keeps this kind of value.
unfoldable pub schema_kind : Kind StoredSchema
unfolding schema_document document_schema
schema_kind = record {
  namespace = "schema";
  id_of = λ s. s.id;
  to_document = schema_document;
  of_document = document_schema;
}

unfoldable pub is_credential_schema_request : CreateSchemaRequest → Bool
is_credential_schema_request r = not (r.issuer == "") && not (r.method_id == "")

-- `valid` is what the tags of the struct say of it.
unfoldable pub request_is_valid : Bool → CreateSchemaRequest → Result (Unit {0})
unfolding is_credential_schema_request
request_is_valid valid r =
    if valid
    then if is_credential_schema_request r
      then validate_verification_method_id r.method_id r.issuer
      else ok tt
    else err Error.invalid

module _ {Priv Cred : Type 0} (lib : Schemas Priv Cred) where
  -- The schema with the name and the description of the request.
  unfoldable pub described : CreateSchemaRequest → Document
  described r =
      let named = insert lib.name_property (Json.str r.name) r.schema in
      if r.description == ""
      then named
      else insert lib.description_property (Json.str r.description) named

  unfoldable pub check_schema : Document → Result (Unit {0})
  check_schema m =
      if lib.is_valid m
      then if lib.is_supported_version m then ok tt else err Error.invalid
      else err Error.invalid

module _ {S Bytes Priv Jwk Cred : Type 0} (db : ServiceStorage S Bytes) (codec : Codec Bytes)
    (e : Encrypter Bytes) (d : Decrypter Bytes) (keys : Keys Bytes Priv Jwk)
    (lib : Schemas Priv Cred) where
  unfoldable pub sign_with : Cred → String → String → GetKeyResponse Priv → Result String
  sign_with cred issuer method_id key =
      if key.controller == issuer
      then if key.revoked
        then err Error.revoked
        else lib.sign_credential method_id key.id key.key cred
      else err Error.invalid

  unfoldable pub sign_credential_schema : S → Cred → String → String → Result String
  unfolding sign_with
  sign_credential_schema s cred issuer method_id =
      then_pure (get_key db codec e d keys s (lib.qualified (lib.issuer_of cred) method_id))
        (sign_with cred issuer method_id)

  unfoldable pub create_credential_schema :
      S → String → Document → String → String → String → Result String
  unfolding sign_credential_schema
  create_credential_schema s now m uri issuer method_id =
      then_pure (lib.build uri issuer m now) λ cred. sign_credential_schema s cred issuer method_id

  -- What is stored for a request: `uuid` is the new id, `uri` the path of the service with the id.
  unfoldable pub schema_to_store :
      S → String → String → String → CreateSchemaRequest → Result StoredSchema
  unfolding create_credential_schema described
  schema_to_store s now uuid uri r =
      if is_credential_schema_request r
      then then_pure
          (create_credential_schema s now (insert lib.id_property (Json.str uuid) (described lib r))
            uri r.issuer r.method_id)
          (λ jwt. ok (record {
            id = uuid;
            schema_type = lib.credential_type;
            schema = none;
            credential_schema = some jwt;
          }))
      else ok (record {
        id = uuid;
        schema_type = lib.json_schema_type;
        schema = some (insert lib.id_property (Json.str uri) (described lib r));
        credential_schema = none;
      })

  unfoldable pub create_schema :
      String → String → String → Bool → CreateSchemaRequest → Action S StoredSchema
  unfolding schema_to_store check_schema
  create_schema now uuid service_path valid r = do
    lift (request_is_valid valid r)
    lift (check_schema lib r.schema)
    stored ← reads (λ s. schema_to_store s now uuid (service_path <> "/" <> uuid) r)
    store_value db codec schema_kind stored
    pure stored

module _ {S Bytes : Type 0} (db : ServiceStorage S Bytes) (codec : Codec Bytes) where
  unfoldable pub get_schema : S → String → Result StoredSchema
  get_schema = find_value db codec schema_kind

  -- Those of the page that cannot be read are left out.
  unfoldable pub list_schemas : S → String → Option ℕ → Result (List StoredSchema × String)
  list_schemas s token size =
      then_pure (db.read_page s schema_kind.namespace token size)
        λ page. ok (values_of db codec schema_kind page.0, page.1)

  unfoldable pub delete_schema : String → Action S (Unit {0})
  delete_schema = delete_value db codec schema_kind

resolved : {Priv Cred : Type 0} → Schemas Priv Cred → Option String → Result Document
resolved lib none = err Error.panic
resolved lib (some jwt) = lib.schema_of jwt

-- The schema and its type.
unfoldable pub resolve :
    {S Bytes Priv Cred : Type 0}
    → ServiceStorage S Bytes
    → Codec Bytes
    → Schemas Priv Cred
    → S
    → String
    → Result (Option Document × String)
unfolding get_schema resolved
resolve db codec lib s id = then_pure (get_schema db codec s id) λ stored.
    if stored.schema_type == lib.json_schema_type
    then ok (stored.schema, lib.json_schema_type)
    else if stored.schema_type == lib.credential_type
    then then_pure (resolved lib stored.credential_schema) (λ m. ok (some m, lib.credential_type))
    else err Error.invalid
