-- ===== src/Manifest/Creation/Laws.antt =====
-- What the creation of a manifest leaves.
use ssi_service.Prelude.{
  String, ◌≡◌, ◌⊎◌, Bool, inl, inr, none, some, ok, ◌==◌, eq_iff, arith, Option-cases, Result-cases,
  Run-cases, Bool-cases, if◌then◌else◌,
}
use mathlib.Core.Path.{subst}
use ssi_service.Json.{Codec}
use ssi_service.Storage.Contract.{ServiceStorage, IsLawful}
use ssi_service.Storage.Kind.{Kind, store_value}
use ssi_service.Storage.Kind.Laws.{IsFaithful, find_value-store_value}
use ssi_service.Presentation.Storage.{SdkValue}
use ssi_service.Presentation.Service.{get_presentation_definition}
use ssi_service.Requests.{validate_verification_method_id}
use ssi_service.Manifest.Fulfillment.{Manifest}
use ssi_service.Manifest.Service.{StoredManifest, StoredApplication, StoredResponse}
use ssi_service.Manifest.Creation.{
  DefinitionRef, CreateManifestRequest, ManifestBuilder, request_is_valid, definition_of,
  set_definition, set_some, or_empty, composed, manifest_to_store, create_manifest, get_manifest,
}

module _ {S Bytes B Pd Format : Type 0} (db : ServiceStorage S Bytes) (codec : Codec Bytes)
    (manifests : Kind StoredManifest) (pds : SdkValue Pd)
    (builder : ManifestBuilder B Pd Format) where
  -- A reference stands for the stored definition of its id, or for its own definition, and not for both.
  abbrev pub StandsFor : S → DefinitionRef Pd → Pd → Type 0
  StandsFor s ref pd =
      ((id : String) × (ref.id ≡ some id)
        × (ref.definition ≡ none)
        × (get_presentation_definition db codec pds s id ≡ ok pd))
      ⊎ ((ref.id ≡ none) × (ref.definition ≡ some pd))

  definition_of-eq-ok :
      (s : S) (ref : DefinitionRef Pd) (pd : Pd)
      → definition_of db codec manifests pds builder s ref ≡ ok pd
      → StandsFor s ref pd
  unfolding definition_of
  definition_of-eq-ok s ref pd h = elim (Option-cases ref.id) [
    | inl no_id ↦ elim (Option-cases ref.definition) [
      | inl neither ↦ absurd (ground arith)
      | inr (own, p) ↦ inr (no_id, ground arith)
    ]
    | inr (id, p) ↦ elim (Option-cases ref.definition) [
      | inl no_definition ↦ inl (id, p, no_definition, ground arith)
      | inr (own, q) ↦ absurd (ground arith)
    ]
  ]

  set_definition-eq-ok :
      (s : S) (ref : DefinitionRef Pd) (b b' : B)
      → set_definition db codec manifests pds builder s (some ref) b ≡ ok b'
      → (pd : Pd) × StandsFor s ref pd
  unfolding set_definition
  set_definition-eq-ok s ref b b' h =
      elim (Result-cases (definition_of db codec manifests pds builder s ref)) [
        | inl (x, p) ↦ absurd (ground arith)
        | inr (pd, p) ↦ (pd, definition_of-eq-ok s ref pd p)
      ]

  composed_definition :
      (s : S) (r : CreateManifestRequest Pd Format) (made : String × Manifest)
      → composed db codec manifests pds builder s r ≡ ok made
      → (b b' : B) × (set_definition db codec manifests pds builder s r.definition b ≡ ok b')
  unfolding composed
  composed_definition s r made h =
      elim (Result-cases (set_some builder.set_name r.name builder.new)) [
        | inl (x, p1) ↦ absurd (ground arith)
        | inr (b1, p1) ↦ elim (Result-cases (set_some builder.set_description r.description b1)) [
          | inl (x, p2) ↦ absurd (ground arith)
          | inr (b2, p2) ↦
              elim (Result-cases (builder.set_issuer r.issuer_did (or_empty r.issuer_name) b2)) [
                | inl (x, p3) ↦ absurd (ground arith)
                | inr (b3, p3) ↦ elim (Result-cases (builder.set_claim_format r.format b3)) [
                  | inl (x, p4) ↦ absurd (ground arith)
                  | inr (b4, p4) ↦
                      elim (Result-cases (builder.set_output_descriptors r.outputs b4)) [
                        | inl (x, p5) ↦ absurd (ground arith)
                        | inr (b5, p5) ↦
                            elim (Result-cases
                              (set_definition db codec manifests pds builder s r.definition b5)) [
                                | inl (x, p6) ↦ absurd (ground arith)
                                | inr (b6, p6) ↦ (b5, b6, p6)
                              ]
                      ]
                ]
              ]
        ]
      ]

  create_manifest-eq-ok :
      (valid : Bool) (r : CreateManifestRequest Pd Format) (made : String × Manifest) (s s' : S)
      → create_manifest db codec manifests pds builder valid r s ≡ (ok made, s')
      → (validate_verification_method_id r.method_id r.issuer_did ≡ ok tt)
        × (composed db codec manifests pds builder s r ≡ ok made)
        × (store_value db codec manifests
              (manifest_to_store db codec manifests pds builder r.method_id made)
              s
            ≡ (ok tt, s'))
  unfolding create_manifest request_is_valid
  create_manifest-eq-ok valid r made s s' h = elim (Bool-cases valid) [
    | inr bad ↦ absurd (ground arith)
    | inl good ↦ elim (Result-cases (validate_verification_method_id r.method_id r.issuer_did)) [
      | inl (x, p) ↦ absurd (ground arith)
      | inr (u, p) ↦ elim (Result-cases (composed db codec manifests pds builder s r)) [
        | inl (x, q) ↦ absurd (ground arith)
        | inr (got, q) ↦
            elim (Run-cases (
              store_value db codec manifests
                (manifest_to_store db codec manifests pds builder r.method_id got) s)) [
                  | inl (x, t, w) ↦ absurd (ground arith)
                  | inr (v, t, w) ↦ (ground arith, ground arith, ground arith)
                ]
      ]
    ]
  ]

  -- A manifest that was created is got under its new id as it was answered, and every other one as
  -- before. The id of the verification method starts with the issuer, and a definition that was referred
  -- to was given by its id, and is stored, or as a whole, and not both. A stored manifest can be read
  -- back, under the id that it has.
  pub get_manifest-create_manifest :
      {App Resp : Type 0} (applications : Kind (StoredApplication App))
      (responses : Kind (StoredResponse Resp))
      → IsFaithful manifests
      → IsLawful db
      → ((m : StoredManifest) → manifests.id_of m ≡ m.id)
      → (valid : Bool) (r : CreateManifestRequest Pd Format) (made : String × Manifest) (s s' : S)
      → create_manifest db codec manifests pds builder valid r s ≡ (ok made, s')
      → (validate_verification_method_id r.method_id r.issuer_did ≡ ok tt)
        × ((ref : DefinitionRef Pd) → r.definition ≡ some ref → (pd : Pd) × StandsFor s ref pd)
        × ((id : String)
            → get_manifest db codec manifests applications responses s' id ≡ (
                if made.0 == id
                then ok made.1
                else get_manifest db codec manifests applications responses s id))
  unfolding get_manifest manifest_to_store
  get_manifest-create_manifest applications responses faithful lawful own valid r made s s' h =
      let (allowed, built, w) = create_manifest-eq-ok valid r made s s' h in
      let (b, b', set) = composed_definition s r made built in
      let stored = manifest_to_store db codec manifests pds builder r.method_id made in
      let (found, _) = find_value-store_value db codec manifests faithful lawful stored s s' w in
      (
        allowed,
        λ ref p.
            set_definition-eq-ok s ref b b'
              (subst (λ x. set_definition db codec manifests pds builder s x b ≡ ok b') p set),
        λ id. ground (arith, found id, own stored, eq_iff made.0 id),
      )
