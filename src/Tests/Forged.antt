-- ===== src/Tests/Forged.antt =====
-- An application whose signature is not that of the applicant.
use ssi_service.Prelude.{String, ◌≡◌, refl, [], ok, err, Error, arith}
use ssi_service.Manifest.Application.{
  ManifestCheck, Validity, Submitted, validate_credential_application,
}
use ssi_service.Manifest.Application.Laws.{validate_credential_application-valid}

abbrev forged : Submitted String
forged = record {
  kid = ok "did:key:a#a";
  verified = λ kid. err Error.invalid;
  is_valid = err Error.invalid;
  for_manifest = λ m. ManifestCheck.refused;
  credentials = [];
}

forged_example :
    validate_credential_application
      (λ e. e)
      (λ jwt. err Error.invalid)
      (λ c. err Error.invalid)
      "the manifest"
      forged
    ≡ Validity.valid
forged_example =
    (validate_credential_application-valid (λ e. e) (λ jwt. err Error.invalid)
        (λ c. err Error.invalid) "the manifest" forged (λ e p. ground arith) refl
        (λ e p. ground arith)).2
      ("did:key:a#a", Error.invalid, refl, refl)
