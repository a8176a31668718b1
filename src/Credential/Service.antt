-- ===== src/Credential/Service.antt =====
-- credential/service.go and credential/model.go: the creation of credentials, one or many in a
-- transaction.
pub mod Laws
pub mod Requests
use Prim.Native.String.{◌++◌ as ◌<>◌}
use text.Mathlib.Text.{starts_with}
use ssi_service.Prelude.{
  ℕ, String, Bool, true, false, ◌&&◌, ◌||◌, not, Option, none, some, List, [], ◌∷◌, lookup, insert,
  Result, ok, err, Error, Action, then_pure, lift, fail, pure, ◌>>=◌, ◌>>◌, ◌==◌, if◌then◌else◌,
}
use ssi_service.Json.{Json, Document, Codec, of_members}
use ssi_service.Encryption.{Encrypter, Decrypter}
use ssi_service.Storage.Contract.{ServiceStorage, execute}
use ssi_service.Keystore.{Keys, GetKeyResponse, get_key}
use ssi_service.Presentation.Storage.{SdkValue}
use ssi_service.Requests.{validate_verification_method_id}
use ssi_service.Credential.Stored.{Credential, Container, StatusEntry}
use ssi_service.Credential.Storage.{StatusListMetadata, status_list_metadata, store_credential_tx}
use ssi_service.Credential.Status.{
  StatusRequest, Parts, is_status_valid, has_status, purpose_of, create_status_list_entry,
}

pub record CreateRequest : Type 0 where
  pub issuer : String
  pub method_id : String
  pub subject : String
  pub context : String
  pub schema_id : String
  pub claims : Document
  pub expiry : String
  pub revocable : Bool
  pub suspendable : Bool
  pub evidence : List Json

-- The SDK's builder of credentials, whose setters can refuse their argument, and the check of a
-- credential against a schema.
pub record Builder (B : Type 0) : Type 0 where
  pub new : B
  pub set_id : String → B → Result B
  pub set_issuer : String → B → Result B
  pub set_subject : Document → B → Result B
  pub add_context : String → B → Result B
  pub set_schema : String → String → B → Result B
  pub set_expiration_date : String → B → Result B
  pub set_issuance_date : String → B → Result B
  pub set_status : StatusEntry → B → Result B
  pub set_evidence : List Json → B → Result B
  pub build : B → Result Credential
  pub complies : Credential → Document → Bool

-- The SDK's id of a key, and its signature of a credential with the ids and the key.
pub record Signer (Priv : Type 0) : Type 0 where
  pub qualified : String → String → String
  pub sign_credential : String → String → Priv → Credential → Result String

unfoldable pub status_request : CreateRequest → StatusRequest
status_request r = record {
  issuer = r.issuer;
  schema = r.schema_id;
  verification_method = r.method_id;
  revocable = r.revocable;
  suspendable = r.suspendable;
}

-- `IsValid`; `valid` is what the tags of the struct say of it.
unfoldable pub request_is_valid : Bool → CreateRequest → Result (Unit {0})
request_is_valid valid r =
    if valid then validate_verification_method_id r.method_id r.issuer else err Error.invalid

found : Option Json → Bool
found none = false
found (some j) = true

unfoldable pub is_evidence : Json → Bool
unfolding found
is_evidence (Json.obj m) =
    found (lookup "id" (of_members m)) && found (lookup "type" (of_members m))
is_evidence _ = false

unfoldable pub validate_evidence : List Json → Result (Unit {0})
unfolding is_evidence
validate_evidence [] = ok tt
validate_evidence (e ∷ es) =
    let rest = validate_evidence es in if is_evidence e then rest else err Error.invalid

-- The claims may have an id only if it is the subject.
unfoldable pub check_subject : String → Option Json → Result (Unit {0})
check_subject subject none = ok tt
check_subject subject (some (Json.str id)) = if id == subject then ok tt else err Error.invalid
check_subject subject (some _) = err Error.invalid

module _ {S Bytes Priv Jwk : Type 0} (db : ServiceStorage S Bytes) (codec : Codec Bytes)
    (e : Encrypter Bytes) (d : Decrypter Bytes) (keys : Keys Bytes Priv Jwk)
    (signer : Signer Priv) where
  sign_with : String → Credential → GetKeyResponse Priv → Result String
  sign_with method_id c key =
      if key.controller == c.issuer
      then if key.revoked
        then err Error.revoked
        else signer.sign_credential method_id key.id key.key c
      else err Error.invalid

  unfoldable pub sign_credential_jwt : S → String → Credential → Result String
  unfolding sign_with
  sign_credential_jwt s method_id c =
      then_pure (get_key db codec e d keys s (signer.qualified c.issuer method_id))
        (sign_with method_id c)

-- `CopyCredential` of internal/credential/model.go: through JSON and back.
unfoldable pub copy_credential : SdkValue Credential → Credential → Result Credential
copy_credential vc c = vc.of_json (vc.to_json c)

-- `resolve` is `Resolve` of the schema service, `base` the path of this one.
module _ {S Bytes B : Type 0} (parts : Parts S Bytes) (builder : Builder B)
    (resolve : S → String → Result (Option Document × String)) (base : String) where
  unfoldable pub with_subject : CreateRequest → B → Result B
  with_subject r b =
      then_pure (check_subject r.subject (lookup "id" r.claims))
        λ _. builder.set_subject (insert "id" (Json.str r.subject) r.claims) b

  with_context : String → B → Result B
  with_context context b = if context == "" then ok b else builder.add_context context b

  -- The builder, and the schema that the credential is checked against.
  unfoldable pub with_schema : S → String → B → Result (B × Option Document)
  with_schema s id b =
      if id == ""
      then ok (b, none)
      else then_pure (resolve s id)
          (λ got. then_pure (builder.set_schema id got.1 b) (λ b'. ok (b', got.0)))

  with_expiry : String → B → Result B
  with_expiry expiry b = if expiry == "" then ok b else builder.set_expiration_date expiry b

  -- `list_id` is the id of a status list that is new.
  unfoldable pub with_status : String → CreateRequest → StatusListMetadata → S → B → Action S B
  with_status list_id r meta s b =
      if has_status (status_request r)
      then (do
        entry ← create_status_list_entry parts list_id (status_request r) meta s
        lift (builder.set_status entry b))
      else pure b

  with_evidence : List Json → B → Result B
  with_evidence [] b = ok b
  with_evidence (e ∷ es) b =
      then_pure (validate_evidence (e ∷ es)) λ _. builder.set_evidence (e ∷ es) b

  complies_with : Option Document → Credential → Result (Unit {0})
  complies_with none c = ok tt
  complies_with (some m) c = if builder.complies c m then ok tt else err Error.invalid

  unfoldable pub new_container : String → String → Credential → String → Container
  new_container id method_id c jwt = record {
    id = id;
    verification_method = method_id;
    credential = some c;
    jwt = some jwt;
    revoked = false;
    suspended = false;
  }

  at_most_one : Bool → Result (Unit {0})
  at_most_one valid = if valid then ok tt else err Error.invalid

  -- The builder before the status, and the schema.
  unfoldable pub prepared : String → String → CreateRequest → S → Result (B × Option Document)
  unfolding at_most_one with_subject with_context with_schema with_expiry
  prepared now id r s = then_pure (at_most_one (is_status_valid (status_request r))) λ _.
      then_pure (builder.set_id (base <> ("/" <> id)) builder.new) λ b1.
        then_pure (builder.set_issuer r.issuer b1) λ b2. then_pure (with_subject r b2) λ b3.
          then_pure (with_context r.context b3) λ b4. then_pure (with_schema s r.schema_id b4) λ p.
            then_pure (with_expiry r.expiry p.0)
              λ b6. then_pure (builder.set_issuance_date now b6) λ b7. ok (b7, p.1)

  -- The credential, checked, and the JWT of its copy.
  unfoldable pub signed : CreateRequest → S → Option Document → B → Result (Credential × String)
  unfolding with_evidence complies_with copy_credential
  signed r s schema b = then_pure (with_evidence r.evidence b) λ b'.
      then_pure (builder.build b') λ c. then_pure (complies_with schema c) λ _.
        then_pure (copy_credential parts.vc c)
          λ copied. then_pure (parts.sign s r.method_id copied) λ jwt. ok (c, jwt)

  -- `createCredential`, in a transaction, with the committed store `s`: `id` and `list_id` are new.
  unfoldable pub create_credential_tx :
      String → String → String → CreateRequest → StatusListMetadata → S → Action S Container
  unfolding prepared with_status signed new_container
  create_credential_tx now id list_id r meta s = do
    p ← lift (prepared now id r s)
    b ← with_status list_id r meta s p.0
    q ← lift (signed r s p.1 b)
    store_credential_tx parts.db parts.codec parts.vc parts.parse
        (new_container id r.method_id q.0 q.1)
    pure (new_container id r.method_id q.0 q.1)

  -- The keys of the status list, which are watched.
  unfoldable pub metadata_of : CreateRequest → StatusListMetadata
  metadata_of r =
      if has_status (status_request r) && is_status_valid (status_request r)
      then status_list_metadata r.issuer r.schema_id (purpose_of r.suspendable)
      else record { list_key = ""; pool_key = ""; index_key = "" }

  unfoldable pub create_credential :
      String → String → String → Bool → CreateRequest → Action S Container
  unfolding create_credential_tx metadata_of
  create_credential now id list_id valid r = do
    lift (request_is_valid valid r)
    execute parts.db (create_credential_tx now id list_id r (metadata_of r))

  -- Each request with its new ids; all of them read the committed store.
  unfoldable pub create_each :
      String → List (CreateRequest × String × String) → S → Action S (List Container)
  unfolding create_credential_tx metadata_of
  create_each now [] s = pure []
  create_each now ((r, id, list_id) ∷ rs) s = do
    c ← create_credential_tx now id list_id r (metadata_of r) s
    rest ← create_each now rs s
    pure (c ∷ rest)

  unfoldable pub batch_create_credentials :
      String → List (CreateRequest × String × String) → Action S (List Container)
  unfolding create_each
  batch_create_credentials now rs = execute parts.db (create_each now rs)
