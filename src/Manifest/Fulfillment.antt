-- ===== src/Manifest/Fulfillment.antt =====
-- manifest/response.go: the credentials that an application is answered with.
use text.Mathlib.Text.{starts_with}
use ssi_service.Prelude.{
  ℕ, suc, String, Bool, false, Option, none, some, List, [], ◌∷◌, Assoc, lookup, insert, Result, ok,
  err, Error, then_pure, ◌==◌, if◌then◌else◌,
}
use ssi_service.Json.{Json, Document, insert_all}
use ssi_service.Credential.Stored.{Container, has_data_integrity_credential, has_jwt_credential}
use ssi_service.Credential.Service.{CreateRequest}
use ssi_service.Issuance.Stored.{CredentialTemplate}

pub record OutputDescriptor : Type 0 where
  pub id : String
  pub schema : String

-- What is read of a manifest of the SDK.
pub record Manifest : Type 0 where
  pub issuer : String
  pub outputs : List OutputDescriptor
  pub has_definition : Bool

-- A credential of the response: its id, its format and where it stands.
pub record SubmissionDescriptor : Type 0 where
  pub id : String
  pub format : String
  pub path : String

-- `CredentialOverride`, with its expiry as RFC 3339 text.
pub record CredentialOverride : Type 0 where
  pub claims : Document
  pub expiry : Option String
  pub revocable : Bool

-- The libraries: a JSON path in a document, a credential as JSON, RFC 3339 texts of a time and of the
-- moment a duration from now, and the names of the two formats.
pub record Paths : Type 0 where
  pub lookup_path : Json → String → Result Json
  pub to_credential_json : Json → Result Json
  pub format : String → String
  pub after : ℕ → String
  pub ldp_vc : String
  pub jwt_vc : String
  pub show_path : ℕ → String

module _ (lib : Paths) where
  -- The descriptors of a submission are ids and paths into the application; the first counts.
  unfoldable pub find_claim : Json → String → Assoc String → Result Json
  find_claim application id [] = err Error.not_found
  find_claim application id ((d, path) ∷ ds) =
      let rest = find_claim application id ds in
      if d == id then then_pure (lib.lookup_path application path) lib.to_credential_json else rest

  unfoldable pub get_credential_for_input_descriptor :
      Json → String → Manifest → Assoc String → Result Json
  unfolding find_claim
  get_credential_for_input_descriptor application id m submission =
      if id == ""
      then err Error.invalid
      else if m.has_definition
      then find_claim application id submission
      else err Error.invalid

  -- A claim that starts with "$" is a path into the credential.
  unfoldable pub claim_value : Json → Json → Result Json
  claim_value credential (Json.str s) =
      if starts_with s "$" then lib.lookup_path credential s else ok (Json.str s)
  claim_value credential v = ok v

  unfoldable pub apply_claims : Json → Document → Document → Result Document
  unfolding claim_value
  apply_claims credential [] claims = ok claims
  apply_claims credential ((k, v) ∷ rest) claims =
      then_pure (claim_value credential v) λ w. apply_claims credential rest (insert k w claims)

  -- A duration comes after a time, where both are set.
  unfoldable pub expiry_of : Option String → Option ℕ → String → String
  expiry_of time (some n) old = lib.after n
  expiry_of (some t) none old = lib.format t
  expiry_of none none old = old

  unfoldable pub with_claims : CreateRequest → Document → String → Bool → CreateRequest
  with_claims r claims expiry revocable = record {
    issuer = r.issuer;
    method_id = r.method_id;
    subject = r.subject;
    context = r.context;
    schema_id = r.schema_id;
    claims = claims;
    expiry = expiry;
    revocable = revocable;
    suspendable = r.suspendable;
    evidence = r.evidence;
  }

  unfoldable pub apply_issuance_template :
      CreateRequest → CredentialTemplate → Json → Manifest → Assoc String → Result CreateRequest
  unfolding get_credential_for_input_descriptor apply_claims expiry_of with_claims
  apply_issuance_template r t application m submission =
      then_pure (get_credential_for_input_descriptor application t.input_descriptor m submission)
        λ credential. then_pure (apply_claims credential t.claims r.claims) λ claims.
          ok (with_claims r claims (expiry_of t.expiry.time t.expiry.duration r.expiry) t.revocable)

  or_old : Option String → String → String
  or_old none old = old
  or_old (some t) old = t

  unfoldable pub apply_credential_overrides : CreateRequest → CredentialOverride → CreateRequest
  unfolding with_claims or_old
  apply_credential_overrides r o =
      with_claims r (insert_all o.claims r.claims) (or_old o.expiry r.expiry) o.revocable

  unfoldable pub first_request : Manifest → String → String → OutputDescriptor → CreateRequest
  first_request m method_id applicant od = record {
    issuer = m.issuer;
    method_id = method_id;
    subject = applicant;
    context = "";
    schema_id = od.schema;
    claims = [];
    expiry = "";
    revocable = false;
    suspendable = false;
    evidence = [];
  }

  -- `none` leaves the descriptor out: there are templates, but none for it.
  templated :
      CreateRequest
      → OutputDescriptor
      → Assoc CredentialTemplate
      → Json
      → Manifest
      → Assoc String
      → Result (Option CreateRequest)
  unfolding apply_issuance_template
  templated r od [] application m submission = ok (some r)
  templated r od (t ∷ ts) application m submission = elim (lookup od.id (t ∷ ts)) [
    | none ↦ ok none
    | some template ↦
        then_pure (apply_issuance_template r template application m submission) (λ r'. ok (some r'))
  ]

  overridden : Assoc CredentialOverride → OutputDescriptor → CreateRequest → CreateRequest
  unfolding apply_credential_overrides
  overridden overrides od r = elim (lookup od.id overrides) [
    | none ↦ r
    | some o ↦ apply_credential_overrides r o
  ]

  overridden_if :
      Assoc CredentialOverride → OutputDescriptor → Option CreateRequest → Option CreateRequest
  unfolding overridden
  overridden_if overrides od none = none
  overridden_if overrides od (some r) = some (overridden overrides od r)

  -- The request for a credential of the manifest, if one is made.
  unfoldable pub request_for :
      Manifest
      → String
      → String
      → Assoc CredentialTemplate
      → Json
      → Assoc String
      → Assoc CredentialOverride
      → OutputDescriptor
      → Result (Option CreateRequest)
  unfolding first_request templated overridden_if
  request_for m method_id applicant templates application submission overrides od =
      then_pure
        (templated (first_request m method_id applicant od) od templates application m submission)
        λ r. ok (overridden_if overrides od r)

  format_of : Container → String
  format_of c =
      if has_jwt_credential c
      then lib.jwt_vc
      else if has_data_integrity_credential c
      then lib.ldp_vc
      else ""

  unfoldable pub descriptors : ℕ → List Container → Result (List SubmissionDescriptor)
  unfolding format_of
  descriptors i [] = ok []
  descriptors i (c ∷ cs) =
      then_pure (elim c.credential [ none ↦ err Error.panic | some vc ↦ ok vc ])
        λ vc.
          then_pure (descriptors (suc i) cs)
            λ rest. ok (record { id = vc.id; format = format_of c; path = lib.show_path i } ∷ rest)
