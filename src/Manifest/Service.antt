-- ===== src/Manifest/Service.antt =====
-- manifest/service.go: applications for credentials, and their review.
pub mod Laws
use ssi_service.Prelude.{
  ℕ, String, Bool, true, false, Option, none, some, List, [], ◌∷◌, Assoc, Result, ok, err, Error,
  Action, then_pure, lift, reads, fail, pure, ◌>>=◌, ◌>>◌, ◌==◌, if◌then◌else◌,
}
use ssi_service.Json.{Json, Codec, Document}
use ssi_service.Encryption.{Encrypter, Decrypter}
use ssi_service.Storage.Contract.{ServiceStorage}
use ssi_service.Storage.Kind.{Kind, store_value, find_value}
use ssi_service.Keystore.{Keys, GetKeyResponse}
use ssi_service.Operation.Ids.{id_from_response_id}
use ssi_service.Operation.Stored.{StoredOperation}
use ssi_service.Operation.Storage.{store_operation}
use ssi_service.Credential.Stored.{Container, Signed, containers_to_interface}
use ssi_service.Credential.Service.{CreateRequest}
use ssi_service.Issuance.Stored.{Template}
use ssi_service.Issuance.{get_templates_by_manifest_id}
use ssi_service.Manifest.Application.{Submitted, Validity}
use ssi_service.Manifest.Fulfillment.{Manifest, CredentialOverride, OutputDescriptor, Paths}
use ssi_service.Manifest.Responses.{
  Responses, build_denial_credential_response, build_from_template, build_with_overrides,
  sign_credential_response,
}
use ssi_service.Manifest.{store_review_application}

pub record StoredManifest : Type 0 where
  pub id : String
  pub issuer_did : String
  pub method_id : String
  pub manifest : Manifest

-- The status is a number of operation/credential/response.go.
pub record StoredApplication (App : Type 0) : Type 0 where
  pub id : String
  pub status : ℕ
  pub reason : String
  pub manifest_id : String
  pub applicant : String
  pub application : App
  pub credentials : List Container
  pub jwt : String

pub record StoredResponse (Resp : Type 0) : Type 0 where
  pub id : String
  pub manifest_id : String
  pub applicant : String
  pub response : Resp
  pub credentials : List Container
  pub jwt : String

-- `SubmitApplicationRequest`: the application with its ids, what is asked of it, the descriptors of its
-- presentation submission, and its JSON.
pub record SubmitRequest (App : Type 0) : Type 0 where
  pub applicant : String
  pub id : String
  pub manifest_id : String
  pub application : App
  pub credentials : List Container
  pub jwt : String
  pub submitted : Submitted Manifest
  pub submission : Assoc String
  pub json : Json

pub record ReviewRequest : Type 0 where
  pub id : String
  pub approved : Bool
  pub reason : String
  pub overrides : Assoc CredentialOverride

unfoldable pub pending_application : {App : Type 0} → SubmitRequest App → StoredApplication App
pending_application r = record {
  id = r.id;
  status = 1;
  reason = "";
  manifest_id = r.manifest_id;
  applicant = r.applicant;
  application = r.application;
  credentials = r.credentials;
  jwt = r.jwt;
}

-- What the service is made of: the stores with the JSON forms of the values, the keys, the SDK, the
-- validation of an application, the creation of a credential by its service, and `ids_for`, the new
-- ids for the credentials of a manifest.
pub record Services (S Bytes Priv Jwk B App Resp : Type 0) : Type 0 where
  pub db : ServiceStorage S Bytes
  pub codec : Codec Bytes
  pub e : Encrypter Bytes
  pub d : Decrypter Bytes
  pub keys : Keys Bytes Priv Jwk
  pub manifests : Kind StoredManifest
  pub applications : Kind (StoredApplication App)
  pub responses : Kind (StoredResponse Resp)
  pub paths : Paths
  pub builder : Responses B Resp
  pub qualified : String → String → String
  pub response_id : Resp → String
  pub validate : Manifest → Submitted Manifest → Validity
  pub denial_reason : Manifest → Submitted Manifest → String
  pub create : String × String → CreateRequest → Action S Container
  pub ids_for : Manifest → List (OutputDescriptor × String × String)
  pub sign : Resp → List Signed → GetKeyResponse Priv → Result String
  pub template_tags : Template → Bool

module _ {S Bytes Priv Jwk B App Resp : Type 0} (svc : Services S Bytes Priv Jwk B App Resp) where
  unfoldable pub signed_response : StoredManifest → Resp → List Container → S → Result String
  signed_response m response creds s =
      sign_credential_response svc.db svc.codec svc.e svc.d svc.keys s
        (svc.qualified m.issuer_did m.method_id) (svc.sign response (containers_to_interface creds))

  unfoldable pub response_to_store :
      String → String → Resp → List Container → String → StoredResponse Resp
  response_to_store manifest_id applicant response creds jwt = record {
    id = svc.response_id response;
    manifest_id = manifest_id;
    applicant = applicant;
    response = response;
    credentials = creds;
    jwt = jwt;
  }

  -- The first template of the manifest is taken.
  unfoldable pub issue_from :
      SubmitRequest App → StoredManifest → Template → Action S (StoredOperation Bytes)
  unfolding signed_response response_to_store
  issue_from r m t = do
    built ←
        build_from_template svc.paths svc.create svc.builder svc.qualified r.applicant r.manifest_id
          r.id m.method_id m.manifest (svc.template_tags t) t r.json r.submission
          (svc.ids_for m.manifest)
    jwt ← reads (signed_response m built.0 built.1)
    both ←
        store_review_application svc.db svc.codec svc.responses r.id true
          "automatic from issuance template" (id_from_response_id r.id) (svc.response_id built.0)
          (response_to_store r.manifest_id r.applicant built.0 built.1 jwt)
    pure both.1

  issue_first :
      SubmitRequest App → StoredManifest → List Template → Action S (Option (StoredOperation Bytes))
  unfolding issue_from
  issue_first r m [] = pure none
  issue_first r m (t ∷ ts) = do op ← issue_from r m t; pure (some op)

  unfoldable pub attempt_automatic_issuance :
      SubmitRequest App → StoredManifest → Action S (Option (StoredOperation Bytes))
  unfolding issue_first
  attempt_automatic_issuance r m = do
    ts ← reads (λ s. get_templates_by_manifest_id svc.db svc.codec s r.manifest_id)
    issue_first r m ts

  new_operation : String → StoredOperation Bytes
  new_operation id = record { id = id; done = false; error = ""; response = none }

  issued_or : StoredOperation Bytes → Option (StoredOperation Bytes) → StoredOperation Bytes
  issued_or op none = op
  issued_or op (some issued) = issued

  denied_operation : String → Resp → StoredOperation Bytes
  denied_operation id denial = record {
    id = id_from_response_id id;
    done = true;
    error = "";
    response = some (
        svc.codec.marshal (
          svc.responses.to_document (record {
            id = "";
            manifest_id = "";
            applicant = "";
            response = denial;
            credentials = [];
            jwt = "";
          })));
  }

  -- A denial is kept in the operation only.
  unfoldable pub deny :
      SubmitRequest App → Manifest → List String → Action S (StoredOperation Bytes)
  unfolding denied_operation
  deny r m ids = do
    denial ← lift (
        build_denial_credential_response svc.builder r.manifest_id r.applicant r.id
          (svc.denial_reason m r.submitted) ids)
    store_operation svc.db svc.codec (denied_operation r.id denial)
    pure (denied_operation r.id denial)

  unfoldable pub accept : SubmitRequest App → StoredManifest → Action S (StoredOperation Bytes)
  unfolding attempt_automatic_issuance new_operation issued_or
  accept r m = do
    store_value svc.db svc.codec svc.applications (pending_application r)
    store_operation svc.db svc.codec (new_operation (id_from_response_id r.id))
    issued ← attempt_automatic_issuance r m
    pure (issued_or (new_operation (id_from_response_id r.id)) issued)

  decided : SubmitRequest App → StoredManifest → Validity → Action S (StoredOperation Bytes)
  unfolding deny accept
  decided r m Validity.valid = accept r m
  decided r m (Validity.denied ids) = deny r m.manifest ids
  decided r m (Validity.failed e) = fail e

  -- `ProcessApplicationSubmission`, up to the service's form of the operation
  unfoldable pub process_application_submission :
      SubmitRequest App → Action S (StoredOperation Bytes)
  unfolding decided
  process_application_submission r = do
    m ← reads (λ s. find_value svc.db svc.codec svc.manifests s r.manifest_id)
    decided r m (svc.validate m.manifest r.submitted)

  answer :
      ReviewRequest
      → StoredApplication App
      → StoredManifest
      → Bool
      → Action S (Resp × List Container)
  answer r a m true =
      build_with_overrides svc.paths svc.create svc.builder svc.qualified a.applicant a.id
        a.manifest_id m.method_id m.manifest r.overrides (svc.ids_for m.manifest)
  answer r a m false = do
    denial ←
        lift
          (build_denial_credential_response svc.builder a.manifest_id a.applicant a.id r.reason [])
    pure (denial, [])

  unfoldable pub review_application : ReviewRequest → Action S (StoredResponse Resp)
  unfolding answer signed_response response_to_store
  review_application r = do
    a ← reads (λ s. find_value svc.db svc.codec svc.applications s r.id)
    m ← reads (λ s. find_value svc.db svc.codec svc.manifests s a.manifest_id)
    built ← answer r a m r.approved
    jwt ← reads (signed_response m built.0 built.1)
    both ←
        store_review_application svc.db svc.codec svc.responses r.id r.approved r.reason
          (id_from_response_id r.id) (svc.response_id built.0)
          (response_to_store a.manifest_id a.applicant built.0 built.1 jwt)
    pure both.0
