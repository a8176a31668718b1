-- ===== src/Manifest/Creation.antt =====
-- manifest/service.go and manifest/manifest.go: the creation and the verification of manifests, and what
-- the service answers about stored manifests, applications and responses.
pub mod Laws
use ssi_service.Prelude.{
  String, Bool, true, false, Option, none, some, List, [], ◌∷◌, Result, ok, err, Error, Action,
  then_pure, lift, reads, fail, pure, ◌>>=◌, ◌>>◌, if◌then◌else◌,
}
use ssi_service.Json.{Codec}
use ssi_service.Storage.Contract.{ServiceStorage}
use ssi_service.Storage.Kind.{Kind, store_value, find_value, list_values, delete_value}
use ssi_service.Requests.{validate_verification_method_id}
use ssi_service.Presentation.Storage.{SdkValue}
use ssi_service.Presentation.Service.{get_presentation_definition}
use ssi_service.Credential.Stored.{Container, Signed, containers_to_interface}
use ssi_service.Manifest.Fulfillment.{Manifest, OutputDescriptor}
use ssi_service.Manifest.Service.{StoredManifest, StoredApplication, StoredResponse}

-- The id of a stored definition, or a definition.
pub record DefinitionRef (Pd : Type 0) : Type 0 where
  pub id : Option String
  pub definition : Option Pd

pub record CreateManifestRequest (Pd Format : Type 0) : Type 0 where
  pub name : Option String
  pub description : Option String
  pub issuer_did : String
  pub method_id : String
  pub issuer_name : Option String
  pub outputs : List OutputDescriptor
  pub format : Format
  pub definition : Option (DefinitionRef Pd)

-- The SDK's builder of manifests; `build` gives the manifest its id.
pub record ManifestBuilder (B Pd Format : Type 0) : Type 0 where
  pub new : B
  pub set_name : String → B → Result B
  pub set_description : String → B → Result B
  pub set_issuer : String → String → B → Result B
  pub set_claim_format : Format → B → Result B
  pub set_output_descriptors : List OutputDescriptor → B → Result B
  pub set_presentation_definition : Pd → B → Result B
  pub build : B → Result (String × Manifest)

-- `IsValid`; `valid` is what the tags of the struct say of it.
unfoldable pub request_is_valid :
    {Pd Format : Type 0} → Bool → CreateManifestRequest Pd Format → Result (Unit {0})
request_is_valid valid r =
    if valid then validate_verification_method_id r.method_id r.issuer_did else err Error.invalid

-- A setter for a value that may be missing.
unfoldable pub set_some : {A B : Type 0} → (A → B → Result B) → Option A → B → Result B
set_some set none b = ok b
set_some set (some a) b = set a b

unfoldable pub or_empty : Option String → String
or_empty none = ""
or_empty (some s) = s

module _ {S Bytes B Pd Format : Type 0} (db : ServiceStorage S Bytes) (codec : Codec Bytes)
    (manifests : Kind StoredManifest) (pds : SdkValue Pd)
    (builder : ManifestBuilder B Pd Format) where
  -- The definition that a reference stands for; one without id and definition panics.
  unfoldable pub definition_of : S → DefinitionRef Pd → Result Pd
  definition_of s ref = elim ref.id [
    | some id ↦ elim ref.definition [
      | some pd ↦ err Error.invalid
      | none ↦ get_presentation_definition db codec pds s id
    ]
    | none ↦ elim ref.definition [ some pd ↦ ok pd | none ↦ err Error.panic ]
  ]

  unfoldable pub set_definition : S → Option (DefinitionRef Pd) → B → Result B
  unfolding definition_of
  set_definition s none b = ok b
  set_definition s (some ref) b =
      then_pure (definition_of s ref) λ pd. builder.set_presentation_definition pd b

  unfoldable pub composed : S → CreateManifestRequest Pd Format → Result (String × Manifest)
  unfolding set_some or_empty set_definition
  composed s r = then_pure (set_some builder.set_name r.name builder.new) λ b1.
      then_pure (set_some builder.set_description r.description b1) λ b2.
        then_pure (builder.set_issuer r.issuer_did (or_empty r.issuer_name) b2) λ b3.
          then_pure (builder.set_claim_format r.format b3) λ b4.
            then_pure (builder.set_output_descriptors r.outputs b4)
              λ b5. then_pure (set_definition s r.definition b5) builder.build

  unfoldable pub manifest_to_store : String → String × Manifest → StoredManifest
  manifest_to_store method_id made = record {
    id = made.0;
    issuer_did = made.1.issuer;
    method_id = method_id;
    manifest = made.1;
  }

  unfoldable pub create_manifest :
      Bool → CreateManifestRequest Pd Format → Action S (String × Manifest)
  unfolding request_is_valid composed manifest_to_store
  create_manifest valid r = do
    lift (request_is_valid valid r)
    made ← reads (λ s. composed s r)
    store_value db codec manifests (manifest_to_store r.method_id made)
    pure made

-- `kid` is the key id in the header of the JWT, `parse` reads the manifest of its claims, and `verified`
-- says whether the JWT is verified with a key of a DID.
unfoldable pub verify_manifest_jwt :
    Result String → Result Manifest → (String → String → Result (Unit {0})) → Result Manifest
verify_manifest_jwt kid parsed verified =
    then_pure kid λ k. then_pure parsed λ m. then_pure (verified m.issuer k) λ _. ok m

-- Whether the manifest is verified; the reason is left out.
unfoldable pub verify_manifest :
    Result String
    → Result Manifest
    → (String → String → Result (Unit {0}))
    → (Manifest → Result (Unit {0}))
    → Bool
unfolding verify_manifest_jwt
verify_manifest kid parsed verified is_valid =
    elim (then_pure (verify_manifest_jwt kid parsed verified) is_valid) [
      | ok _ ↦ true
      | err e ↦ false
    ]

-- What a list answers of each value.
unfoldable pub each : {A C : Type 0} → (A → C) → List A → List C
each f [] = []
each f (x ∷ xs) = f x ∷ each f xs

module _ {S Bytes App Resp : Type 0} (db : ServiceStorage S Bytes) (codec : Codec Bytes)
    (manifests : Kind StoredManifest) (applications : Kind (StoredApplication App))
    (responses : Kind (StoredResponse Resp)) where
  unfoldable pub get_manifest : S → String → Result Manifest
  get_manifest s id = then_pure (find_value db codec manifests s id) λ m. ok m.manifest

  unfoldable pub list_manifests : S → Result (List Manifest)
  unfolding each
  list_manifests s =
      then_pure (list_values db codec manifests s) λ ms. ok (each (λ m. m.manifest) ms)

  unfoldable pub delete_manifest : String → Action S (Unit {0})
  delete_manifest id = delete_value db codec manifests id

  unfoldable pub get_application : S → String → Result App
  get_application s id = then_pure (find_value db codec applications s id) λ a. ok a.application

  unfoldable pub list_applications : S → Result (List App)
  unfolding each
  list_applications s =
      then_pure (list_values db codec applications s) λ vs. ok (each (λ a. a.application) vs)

  unfoldable pub delete_application : String → Action S (Unit {0})
  delete_application id = delete_value db codec applications id

  unfoldable pub get_response : S → String → Result (Resp × List Signed × String)
  get_response s id =
      then_pure (find_value db codec responses s id)
        λ r. ok (r.response, containers_to_interface r.credentials, r.jwt)

  unfoldable pub list_responses : S → Result (List Resp)
  unfolding each
  list_responses s =
      then_pure (list_values db codec responses s) λ vs. ok (each (λ r. r.response) vs)

  unfoldable pub delete_response : String → Action S (Unit {0})
  delete_response id = delete_value db codec responses id
