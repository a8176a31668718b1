-- ===== src/Requests/Service.antt =====
-- The requests of the services: presentation/service.go and manifest/service.go.
pub mod Laws
use ssi_service.Prelude.{
  ℕ, String, Bool, List, [], ◌∷◌, Result, ok, err, Error, Action, then_pure, lift, reads, fail,
  pure, ◌>>=◌, ◌>>◌, if◌then◌else◌,
}
use ssi_service.Json.{Json, Codec}
use ssi_service.Encryption.{Encrypter, Decrypter}
use ssi_service.Storage.Contract.{ServiceStorage}
use ssi_service.Storage.Kind.{Kind, store_value, find_value, delete_value}
use ssi_service.Keystore.{Keys}
use ssi_service.Presentation.Storage.{SdkValue, get_definition}
use ssi_service.Requests.{
  StoredRequest, Request, Tokens, request_kind, list_all, to_service_model, create_stored_request,
}

-- `Request` of both services: that of presentations has the id of a definition, that of manifests the
-- id of a manifest.
pub record ServiceRequest (Time : Type 0) : Type 0 where
  pub request : Request Time
  pub reference_id : String
  pub jwt : String

abbrev pub presentation_request_namespace : String
presentation_request_namespace = "presentation_request"

abbrev pub manifest_request_namespace : String
manifest_request_namespace = "manifest_request"

unfoldable pub service_model :
    {Time : Type 0} → Tokens Time → StoredRequest → Result (ServiceRequest Time)
service_model lib stored =
    then_pure (to_service_model lib stored)
      λ r. ok (record { request = r; reference_id = stored.reference_id; jwt = stored.jwt })

unfoldable pub service_models :
    {Time : Type 0} → Tokens Time → List StoredRequest → Result (List (ServiceRequest Time))
unfolding service_model
service_models lib [] = ok []
service_models lib (r ∷ rs) =
    then_pure (service_model lib r) λ m. then_pure (service_models lib rs) λ ms. ok (m ∷ ms)

module _ {S Bytes Time : Type 0} (db : ServiceStorage S Bytes) (codec : Codec Bytes)
    (lib : Tokens Time) (namespace : String) where
  unfoldable pub get_request : S → String → Result (ServiceRequest Time)
  unfolding service_model
  get_request s id =
      then_pure (find_value db codec (request_kind namespace) s id) (service_model lib)

  unfoldable pub list_requests : S → Result (List (ServiceRequest Time))
  unfolding service_models
  list_requests s = then_pure (list_all db codec (request_kind namespace) s) (service_models lib)

  unfoldable pub delete_request : String → Action S (Unit {0})
  delete_request id = delete_value db codec (request_kind namespace) id

module _ {S Bytes Priv Jwk Time : Type 0} (db : ServiceStorage S Bytes) (codec : Codec Bytes)
    (e : Encrypter Bytes) (d : Decrypter Bytes) (keys : Keys Bytes Priv Jwk)
    (lib : Tokens Time) where
  -- Both services create a request alike, with the claim that the reference stands for.
  unfoldable pub create_request_with :
      String
      → String
      → (S → Result Json)
      → Time
      → String
      → Bool
      → Request Time
      → String
      → Action S (ServiceRequest Time)
  unfolding service_model
  create_request_with namespace name claim now uuid valid r reference = do
    lift (if valid then ok tt else err Error.invalid)
    value ← reads claim
    stored ←
        reads (λ s. create_stored_request db codec e d keys lib s now uuid name value r reference)
    store_value db codec (request_kind namespace) stored
    lift (service_model lib stored)

  unfoldable pub create_presentation_request :
      {Pd : Type 0}
      → SdkValue Pd
      → Time
      → String
      → Bool
      → Request Time
      → String
      → Action S (ServiceRequest Time)
  unfolding create_request_with
  create_presentation_request pd now uuid valid r definition_id =
      create_request_with presentation_request_namespace "presentation_definition"
        (λ s.
          then_pure (get_definition db codec pd s definition_id)
            λ stored. ok (pd.to_json stored.definition))
        now uuid valid r definition_id

  -- `manifest_json` is the manifest inside what is stored.
  unfoldable pub create_manifest_request :
      {M : Type 0}
      → Kind M
      → (M → Json)
      → Time
      → String
      → Bool
      → Request Time
      → String
      → Action S (ServiceRequest Time)
  unfolding create_request_with
  create_manifest_request manifests manifest_json now uuid valid r manifest_id =
      create_request_with manifest_request_namespace "credential_manifest"
        (λ s.
          then_pure (find_value db codec manifests s manifest_id)
            λ stored. ok (manifest_json stored))
        now uuid valid r manifest_id
