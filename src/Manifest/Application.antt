-- ===== src/Manifest/Application.antt =====
-- manifest/application.go: the checks of a credential application.
pub mod Laws
use ssi_service.Prelude.{
  String, Bool, true, Option, none, some, List, [], ◌∷◌, Result, ok, err, Error, then_pure,
  if◌then◌else◌,
}
use ssi_service.Credential.Stored.{Credential}
use ssi_service.Credential.Service.Requests.{verify_credential}

-- The answer of the SDK about an application and the manifest: it accepts it, finds input descriptors
-- that are not fulfilled, refuses it for another reason, or fails with an error, or with nil.
pub data ManifestCheck : Type 0 where
  accepted : ManifestCheck
  unfulfilled : List String → ManifestCheck
  refused : ManifestCheck
  broken : Option Error → ManifestCheck

-- What the validation answers: nil, a denial with the input descriptors that are not fulfilled, or
-- another error.
pub data Validity : Type 0 where
  valid : Validity
  denied : List String → Validity
  failed : Error → Validity

-- An application with what the libraries say of it: the key id in the header of its JWT, whether the
-- JWT is verified with that key of the applicant, whether the application is valid, and whether it is
-- for a manifest. A credential comes as itself, as a JWT or both.
pub record Submitted (Manifest : Type 0) : Type 0 where
  pub kid : Result String
  pub verified : String → Result (Unit {0})
  pub is_valid : Result (Unit {0})
  pub for_manifest : Manifest → ManifestCheck
  pub credentials : List (Option Credential × Option String)

of_error : Option Error → Validity
of_error none = Validity.valid
of_error (some e) = Validity.failed e

-- `wrap` is the SDK's `LoggingErrorMsgf`, on the error or nil; the two other functions are those of the
-- verifier.
module _ (wrap : Option Error → Option Error) (verify_jwt : String → Result (Unit {0}))
    (verify_data : Credential → Result (Unit {0})) where
  -- The message about a credential that cannot be verified or is not valid has its id, and panics where
  -- there is none.
  refusal : Option Credential → Validity
  refusal none = Validity.failed Error.panic
  refusal (some c) = Validity.failed Error.invalid

  check_credential : Option Credential → Result Bool → Validity → Validity
  unfolding refusal
  check_credential c (ok true) rest = rest
  check_credential c _ rest = refusal c

  unfoldable pub check_credentials : List (Option Credential × Option String) → Validity
  unfolding check_credential
  check_credentials [] = Validity.valid
  check_credentials ((c, jwt) ∷ rest) =
      check_credential c (verify_credential verify_jwt verify_data c jwt) (check_credentials rest)

  unfoldable pub check_manifest :
      ManifestCheck → List (Option Credential × Option String) → Validity
  unfolding check_credentials of_error
  check_manifest ManifestCheck.accepted credentials = check_credentials credentials
  check_manifest (ManifestCheck.unfulfilled ids) credentials = Validity.denied ids
  check_manifest ManifestCheck.refused credentials = Validity.denied []
  check_manifest (ManifestCheck.broken e) credentials = of_error (wrap e)

  -- After the signature: an application that is not verified has the error made of nil.
  unfoldable pub check_signed :
      {Manifest : Type 0} → Manifest → Submitted Manifest → Result (Unit {0}) → Validity
  unfolding check_manifest of_error
  check_signed m a (err e) = of_error (wrap none)
  check_signed m a (ok _) = elim a.is_valid [
    | err e ↦ of_error (wrap (some e))
    | ok _ ↦ check_manifest (a.for_manifest m) a.credentials
  ]

  unfoldable pub validate_credential_application :
      {Manifest : Type 0} → Manifest → Submitted Manifest → Validity
  unfolding check_signed
  validate_credential_application m a = elim a.kid [
    | err e ↦ Validity.failed e
    | ok kid ↦ check_signed m a (a.verified kid)
  ]
