-- ===== src/Issuance.antt =====
-- pkg/service/issuance: templates from which the credentials of an application are issued.
pub mod Stored
pub mod Laws
use ssi_service.Prelude.{
  ℕ, String, Bool, true, ◌&&◌, Option, none, some, List, [], ◌∷◌, Result, ok, err, Error, Action,
  then_pure, lift, reads, fail, pure, ◌>>=◌, ◌>>◌, ◌==◌, if◌then◌else◌,
}
use ssi_service.Json.{Codec}
use ssi_service.Storage.Contract.{ServiceStorage}
use ssi_service.Storage.Kind.{Kind, store_value, find_value, delete_value}
use ssi_service.Schema.{get_schema}
use ssi_service.Requests.{list_all}
use ssi_service.Issuance.Stored.{TimeLike, CredentialTemplate, Template, template_kind, listed_kind}

-- The time and the duration are not both set.
not_both : Option String → Option ℕ → Result (Unit {0})
not_both (some t) (some n) = err Error.invalid
not_both _ _ = ok tt

unfoldable pub check_expiry : TimeLike → Result (Unit {0})
unfolding not_both
check_expiry expiry = not_both expiry.time expiry.duration

unfoldable pub with_id : String → Template → Template
with_id id t = record {
  id = id;
  manifest = t.manifest;
  issuer = t.issuer;
  method_id = t.method_id;
  credentials = t.credentials;
}

unfoldable pub of_manifest : String → List Template → List Template
of_manifest id [] = []
of_manifest id (t ∷ ts) =
    let rest = of_manifest id ts in if t.manifest == id then t ∷ rest else rest

module _ {S Bytes : Type 0} (db : ServiceStorage S Bytes) (codec : Codec Bytes) where
  unfoldable pub get_template : S → String → Result Template
  get_template s id = if id == "" then err Error.invalid else find_value db codec template_kind s id

  unfoldable pub delete_template : String → Action S (Unit {0})
  delete_template id = if id == "" then pure tt else delete_value db codec template_kind id

  unfoldable pub list_templates : S → Result (List Template)
  list_templates = list_all db codec listed_kind

  unfoldable pub get_templates_by_manifest_id : S → String → Result (List Template)
  unfolding of_manifest
  get_templates_by_manifest_id s id =
      if id == ""
      then err Error.invalid
      else then_pure (list_all db codec template_kind s) (λ ts. ok (of_manifest id ts))

  check_schema : S → String → Result (Unit {0})
  check_schema s id =
      if id == "" then ok tt else then_pure (get_schema db codec s id) (λ stored. ok tt)

  unfoldable pub check_credential : S → CredentialTemplate → Result (Unit {0})
  unfolding check_expiry check_schema
  check_credential s c =
      then_pure (check_expiry c.expiry)
        λ _. if c.id == "" then err Error.invalid else check_schema s c.schema

  unfoldable pub check_credentials : S → List CredentialTemplate → Result (Unit {0})
  unfolding check_credential
  check_credentials s [] = ok tt
  check_credentials s (c ∷ cs) = then_pure (check_credential s c) λ _. check_credentials s cs

  -- `manifests` is how the storage of manifests keeps them; `uuid` is the new id.
  unfoldable pub create_template :
      {M : Type 0} → Kind M → String → Bool → Template → Action S Template
  unfolding check_credentials with_id
  create_template manifests uuid valid t = do
    lift (if valid then ok tt else err Error.invalid)
    reads (λ s. check_credentials s t.credentials)
    reads (λ s. find_value db codec manifests s t.manifest)
    store_value db codec template_kind (with_id uuid t)
    pure (with_id uuid t)
