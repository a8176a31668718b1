-- ===== src/Credential/Stored.antt =====
-- Credentials as the service holds and stores them: internal/credential/model.go, and the stored
-- form of credential/storage.go.
use ssi_service.Prelude.{
  ℕ, String, Bool, true, false, ◌&&◌, ◌||◌, not, Option, none, some, List, [], ◌∷◌, ◌++◌, lookup,
  Result, ok, err, Error, then_pure, ◌==◌, if◌then◌else◌,
}
use ssi_service.Json.{Json, Document, as_string, as_bool}
use ssi_service.Presentation.Storage.{SdkValue}
use ssi_service.Credential.Keys.{create_prefix_key}

-- The `credentialStatus` of a credential.
pub record StatusEntry : Type 0 where
  pub purpose : String
  pub list_index : ℕ
  pub list_credential : String

-- What the service looks at in a verifiable credential of the SDK.
pub record Credential : Type 0 where
  pub id : String
  pub issuer : String
  pub subject : String
  pub schema : Option String
  pub issuance_date : String
  pub has_proof : Bool
  pub status : Option StatusEntry

pub record Container : Type 0 where
  pub id : String
  pub verification_method : String
  pub credential : Option Credential
  pub jwt : Option String
  pub revoked : Bool
  pub suspended : Bool

abbrev pub is_some {ℓ} : {A : Type ℓ} → Option A → Bool
is_some none = false
is_some (some a) = true

has_id : Option Credential → Bool
has_id none = false
has_id (some c) = not (c.id == "")

proven : Option Credential → Bool
proven none = false
proven (some c) = c.has_proof

unfoldable pub has_data_integrity_credential : Container → Bool
unfolding proven
has_data_integrity_credential c = proven c.credential

unfoldable pub has_jwt_credential : Container → Bool
has_jwt_credential c = is_some c.jwt

-- `Container.IsValid`
unfoldable pub container_is_valid : Container → Bool
unfolding has_id has_data_integrity_credential has_jwt_credential
container_is_valid c =
    has_id c.credential && (has_data_integrity_credential c || has_jwt_credential c)

-- The form in which a credential is handed to the SDK.
pub data Signed : Type 0 where
  data_integrity : Credential → Signed
  token : String → Signed

signed : Option Credential → Option String → List Signed
signed (some c) none = if c.has_proof then data_integrity c ∷ [] else []
signed (some c) (some t) = if c.has_proof then data_integrity c ∷ [] else token t ∷ []
signed none (some t) = token t ∷ []
signed none none = []

unfoldable pub containers_to_interface : List Container → List Signed
unfolding signed
containers_to_interface [] = []
containers_to_interface (c ∷ cs) = signed c.credential c.jwt ++ containers_to_interface cs

pub record StoredCredential : Type 0 where
  pub key : String
  pub local_id : String
  pub credential : Option Credential
  pub jwt : Option String
  pub issuer : String
  pub verification_method : String
  pub subject : String
  pub schema : String
  pub issuance_date : String
  pub revoked : Bool
  pub suspended : Bool

-- `StoredCredential.IsValid`
unfoldable pub stored_is_valid : StoredCredential → Bool
unfolding proven
stored_is_valid sc = not (sc.key == "") && (proven sc.credential || is_some sc.jwt)

status_of : Option Credential → Option StatusEntry
status_of none = none
status_of (some c) = c.status

unfoldable pub has_credential_status : StoredCredential → Bool
unfolding status_of
has_credential_status sc = is_some (status_of sc.credential)

-- `GetStatusPurpose`, which panics where there is no status.
unfoldable pub get_status_purpose : StoredCredential → Result String
unfolding status_of
get_status_purpose sc = elim (status_of sc.credential) [
  | none ↦ err Error.panic
  | some e ↦ ok e.purpose
]

module _ (vc : SdkValue Credential) where
  credential_field : Option Credential → Document
  credential_field none = []
  credential_field (some c) = ("credential", vc.to_json c) ∷ []

  token_field : Option String → Document
  token_field none = []
  token_field (some t) = ("token", Json.str t) ∷ []

  unfoldable pub stored_document : StoredCredential → Document
  unfolding credential_field token_field
  stored_document sc =
      ("key", Json.str sc.key)
      ∷ ("LocalCredentialId", Json.str sc.local_id)
      ∷ ("issuer", Json.str sc.issuer)
      ∷ ("fullyQualifiedVerificationMethodId", Json.str sc.verification_method)
      ∷ ("subject", Json.str sc.subject)
      ∷ ("schema", Json.str sc.schema)
      ∷ ("issuanceDate", Json.str sc.issuance_date)
      ∷ ("revoked", Json.bool sc.revoked)
      ∷ ("suspended", Json.bool sc.suspended)
      ∷ (credential_field sc.credential ++ token_field sc.jwt)

  as_credential : Option Json → Result (Option Credential)
  as_credential none = ok none
  as_credential (some Json.null) = ok none
  as_credential (some j) = then_pure (vc.of_json j) λ c. ok (some c)

  as_token : Option Json → Result (Option String)
  as_token none = ok none
  as_token (some Json.null) = ok none
  as_token (some j) = then_pure (as_string (some j)) λ t. ok (some t)

  unfoldable pub document_stored : Document → Result StoredCredential
  unfolding as_credential as_token
  document_stored m = then_pure (as_string (lookup "key" m)) λ key.
      then_pure (as_string (lookup "LocalCredentialId" m)) λ local_id.
        then_pure (as_credential (lookup "credential" m)) λ credential.
          then_pure (as_token (lookup "token" m)) λ jwt.
            then_pure (as_string (lookup "issuer" m)) λ issuer.
              then_pure (as_string (lookup "fullyQualifiedVerificationMethodId" m))
                λ verification_method. then_pure (as_string (lookup "subject" m)) λ subject.
                  then_pure (as_string (lookup "schema" m)) λ schema.
                    then_pure (as_string (lookup "issuanceDate" m)) λ issuance_date.
                      then_pure (as_bool (lookup "revoked" m)) λ revoked.
                        then_pure (as_bool (lookup "suspended" m)) λ suspended. ok (record {
                          key = key;
                          local_id = local_id;
                          credential = credential;
                          jwt = jwt;
                          issuer = issuer;
                          verification_method = verification_method;
                          subject = subject;
                          schema = schema;
                          issuance_date = issuance_date;
                          revoked = revoked;
                          suspended = suspended;
                        })

or_empty : Option String → String
or_empty none = ""
or_empty (some s) = s

unfoldable pub stored_of : Container → Credential → StoredCredential
unfolding or_empty
stored_of c cred = record {
  key = create_prefix_key c.id cred.issuer cred.subject (or_empty cred.schema);
  local_id = c.id;
  credential = some cred;
  jwt = c.jwt;
  issuer = cred.issuer;
  verification_method = c.verification_method;
  subject = cred.subject;
  schema = or_empty cred.schema;
  issuance_date = cred.issuance_date;
  revoked = c.revoked;
  suspended = c.suspended;
}

-- `parse` is the SDK's reading of a JWT.
module _ (parse : String → Result Credential) where
  secured : Option Credential → Option String → Result Credential
  secured credential (some t) = parse t
  secured (some c) none = ok c
  secured none none = err Error.panic

  unfoldable pub build_stored_credential : Container → Result StoredCredential
  unfolding secured stored_of
  build_stored_credential c = then_pure (secured c.credential c.jwt) λ cred. ok (stored_of c cred)
