-- ===== src/Manifest/Responses.antt =====
-- manifest/response.go: the creation of the credentials of a response, and its signature.
use ssi_service.Prelude.{
  zero, String, Bool, Option, none, some, List, [], ◌∷◌, ◌++◌, Assoc, insert, Result, err, Error,
  Action, then_pure, lift, pure, ◌>>=◌, ◌>>◌, ◌==◌, if◌then◌else◌,
}
use ssi_service.Json.{Json, Codec}
use ssi_service.Encryption.{Encrypter, Decrypter}
use ssi_service.Storage.Contract.{ServiceStorage}
use ssi_service.Keystore.{Keys, GetKeyResponse, get_key}
use ssi_service.Credential.Stored.{Container}
use ssi_service.Credential.Service.{CreateRequest}
use ssi_service.Issuance.Stored.{CredentialTemplate, Template, template_is_valid}
use ssi_service.Manifest.Fulfillment.{
  OutputDescriptor, Manifest, SubmissionDescriptor, CredentialOverride, Paths, request_for,
  descriptors,
}

-- The templates of a response: each under its id, the last one counts.
unfoldable pub template_map :
    List CredentialTemplate → Assoc CredentialTemplate → Assoc CredentialTemplate
template_map [] m = m
template_map (t ∷ ts) m = template_map ts (insert t.id t m)

-- `create` is `CreateCredential` of the credential service, in a transaction of its own, with new ids
-- for the descriptor.
module _ {S : Type 0} (lib : Paths)
    (create : String × String → CreateRequest → Action S Container) where
  unfoldable pub create_all :
      (OutputDescriptor → Result (Option CreateRequest))
      → List (OutputDescriptor × String × String)
      → Action S (List Container)
  create_all request [] = pure []
  create_all request ((od, id, list_id) ∷ ods) = do
    wanted ← lift (request od)
    made ← elim wanted [ none ↦ pure [] | some r ↦ (do c ← create (id, list_id) r; pure (c ∷ [])) ]
    rest ← create_all request ods
    pure (made ++ rest)

-- The SDK's builder of responses: begun with the ids of the manifest, the application and the
-- applicant, and ended with descriptors or, by `deny`, a reason and the descriptors that failed.
pub record Responses (B Resp : Type 0) : Type 0 where
  pub begin : String → String → String → Result B
  pub fulfil : List SubmissionDescriptor → B → Result Resp
  pub deny : String → List String → B → Result Resp

unfoldable pub build_denial_credential_response :
    {B Resp : Type 0}
    → Responses B Resp
    → String
    → String
    → String
    → String
    → List String
    → Result Resp
build_denial_credential_response responses manifest_id applicant application reason failed_ids =
    then_pure (responses.begin manifest_id application applicant) (responses.deny reason failed_ids)

module _ {S B Resp : Type 0} (lib : Paths)
    (create : String × String → CreateRequest → Action S Container) (responses : Responses B Resp)
    (qualified : String → String → String) where
  -- The response and the credentials.
  unfoldable pub fulfillment_credential_response :
      B
      → (OutputDescriptor → Result (Option CreateRequest))
      → List (OutputDescriptor × String × String)
      → Action S (Resp × List Container)
  unfolding create_all
  fulfillment_credential_response b request outputs = do
    creds ← create_all lib create request outputs
    ds ← lift (descriptors lib zero creds)
    response ← lift (responses.fulfil ds b)
    pure (response, creds)

  -- The two ways to build a response: of a template, or with overrides.
  unfoldable pub build_from_template :
      String
      → String
      → String
      → String
      → Manifest
      → Bool
      → Template
      → Json
      → Assoc String
      → List (OutputDescriptor × String × String)
      → Action S (Resp × List Container)
  unfolding fulfillment_credential_response template_map
  build_from_template applicant manifest_id application_id method_id m valid t application
        submission outputs =
      do
        lift (template_is_valid valid t)
        b ← lift (responses.begin manifest_id application_id applicant)
        fulfillment_credential_response b
            (request_for lib m
              (if t.method_id == "" then method_id else qualified t.issuer t.method_id) applicant
              (template_map t.credentials []) application submission [])
            outputs

  unfoldable pub build_with_overrides :
      String
      → String
      → String
      → String
      → Manifest
      → Assoc CredentialOverride
      → List (OutputDescriptor × String × String)
      → Action S (Resp × List Container)
  unfolding fulfillment_credential_response
  build_with_overrides applicant application_id manifest_id method_id m overrides outputs = do
    b ← lift (responses.begin manifest_id application_id applicant)
    fulfillment_credential_response b
        (request_for lib m method_id applicant [] Json.null [] overrides) outputs

-- `sign` is the SDK's, given the controller, the id and the key.
module _ {S Bytes Priv Jwk : Type 0} (db : ServiceStorage S Bytes) (codec : Codec Bytes)
    (e : Encrypter Bytes) (d : Decrypter Bytes) (keys : Keys Bytes Priv Jwk) where
  signed_by : (GetKeyResponse Priv → Result String) → GetKeyResponse Priv → Result String
  signed_by sign k = if k.revoked then err Error.revoked else sign k

  unfoldable pub sign_credential_response :
      S → String → (GetKeyResponse Priv → Result String) → Result String
  unfolding signed_by
  sign_credential_response s id sign = then_pure (get_key db codec e d keys s id) (signed_by sign)
