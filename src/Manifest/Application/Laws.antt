-- ===== src/Manifest/Application/Laws.antt =====
-- Which applications pass the validation.
use ssi_service.Prelude.{
  String, ◌≡◌, ◌≢◌, ◌⊎◌, refl, Bool, true, false, Option, none, some, inl, inr, List, [], ◌∷◌,
  Result, ok, err, Error, arith, Result-cases, Option-cases,
}
use ssi_service.Credential.Stored.{Credential}
use ssi_service.Credential.Service.Requests.{verify_credential}
use ssi_service.Manifest.Application.{
  ManifestCheck, Validity, Submitted, of_error, refusal, check_credential, check_credentials,
  check_manifest, check_signed, validate_credential_application,
}

check-cases :
    (c : ManifestCheck)
    → (c ≡ ManifestCheck.accepted)
      ⊎ (((ids : List String) × (c ≡ ManifestCheck.unfulfilled ids))
          ⊎ ((c ≡ ManifestCheck.refused) ⊎ ((e : Option Error) × (c ≡ ManifestCheck.broken e))))
check-cases ManifestCheck.accepted = inl refl
check-cases (ManifestCheck.unfulfilled ids) = inr (inl (ids, refl))
check-cases ManifestCheck.refused = inr (inr (inl refl))
check-cases (ManifestCheck.broken e) = inr (inr (inr (e, refl)))

-- The JWT is not verified with the key that it names.
abbrev pub IsForged : {Manifest : Type 0} → Submitted Manifest → Type 0
IsForged a = (kid : String) × (e : Error) × (a.kid ≡ ok kid) × (a.verified kid ≡ err e)

module _ (wrap : Option Error → Option Error) (verify_jwt : String → Result (Unit {0}))
    (verify_data : Credential → Result (Unit {0})) where
  -- Each credential is verified.
  abbrev pub AreVerified : List (Option Credential × Option String) → Type 0
  AreVerified [] = Unit {0}
  AreVerified ((c, jwt) ∷ rest) =
      (verify_credential verify_jwt verify_data c jwt ≡ ok true) × AreVerified rest

  -- The signature is verified, and the application, its fit to the manifest and its credentials pass.
  abbrev pub Passes : {Manifest : Type 0} → Manifest → Submitted Manifest → Type 0
  Passes m a =
      (kid : String) × (a.kid ≡ ok kid)
      × (a.verified kid ≡ ok tt)
      × (a.is_valid ≡ ok tt)
      × (a.for_manifest m ≡ ManifestCheck.accepted)
      × AreVerified a.credentials

  check_credential-valid :
      (c : Option Credential) (r : Result Bool) (rest : Validity)
      → check_credential wrap verify_jwt verify_data c r rest ≡ Validity.valid
      → (r ≡ ok true) × (rest ≡ Validity.valid)
  unfolding check_credential refusal
  check_credential-valid c (ok true) rest h = (refl, h)
  check_credential-valid none (ok false) rest h = absurd (ground arith)
  check_credential-valid (some c) (ok false) rest h = absurd (ground arith)
  check_credential-valid none (err e) rest h = absurd (ground arith)
  check_credential-valid (some c) (err e) rest h = absurd (ground arith)

  check_credentials-valid :
      (l : List (Option Credential × Option String))
      → check_credentials wrap verify_jwt verify_data l ≡ Validity.valid
      → AreVerified l
  unfolding check_credentials
  check_credentials-valid [] h = tt
  check_credentials-valid ((c, jwt) ∷ rest) h =
      let (this, more) =
        check_credential-valid c (verify_credential verify_jwt verify_data c jwt)
          (check_credentials wrap verify_jwt verify_data rest) h in
      (this, check_credentials-valid rest more)

  check_signed-valid :
      {Manifest : Type 0} (m : Manifest) (a : Submitted Manifest)
      → ((e : Error) → wrap (some e) ≢ none)
      → ((e : Option Error) → a.for_manifest m ≡ ManifestCheck.broken e → e ≢ none)
      → check_signed wrap verify_jwt verify_data m a (ok tt) ≡ Validity.valid
      → (a.is_valid ≡ ok tt)
        × (a.for_manifest m ≡ ManifestCheck.accepted)
        × AreVerified a.credentials
  unfolding check_signed check_manifest of_error
  check_signed-valid m a keeps caused h = elim (Result-cases a.is_valid) [
    | inl (e, p) ↦ elim (Option-cases (wrap (some e))) [
      | inl lost ↦ absurd (keeps e lost)
      | inr (e', q) ↦ absurd (ground arith)
    ]
    | inr (u, p) ↦ elim (check-cases (a.for_manifest m)) [
      | inl accepts ↦ (ground arith, accepts, check_credentials-valid a.credentials (ground arith))
      | inr (inl (ids, q)) ↦ absurd (ground arith)
      | inr (inr (inl q)) ↦ absurd (ground arith)
      | inr (inr (inr (e, q))) ↦ elim (Option-cases e) [
        | inl lost ↦ absurd (caused e q lost)
        | inr (e', z) ↦ elim (Option-cases (wrap (some e'))) [
          | inl gone ↦ absurd (keeps e' gone)
          | inr (e'', y) ↦ absurd (ground arith)
        ]
      ]
    ]
  ]

  AreVerified-valid :
      (l : List (Option Credential × Option String))
      → AreVerified l
      → check_credentials wrap verify_jwt verify_data l ≡ Validity.valid
  unfolding check_credentials check_credential
  AreVerified-valid [] h = refl
  AreVerified-valid ((c, jwt) ∷ rest) h = rw h.0 (AreVerified-valid rest h.1)

  Passes-valid :
      {Manifest : Type 0} (m : Manifest) (a : Submitted Manifest)
      → Passes m a
      → validate_credential_application wrap verify_jwt verify_data m a ≡ Validity.valid
  unfolding validate_credential_application check_signed check_manifest
  Passes-valid m a (kid, p, q, is_valid, accepts, verified) =
      ground (arith, p, q, is_valid, accepts, AreVerified-valid a.credentials verified)

  pub forged_lem :
      {Manifest : Type 0} (m : Manifest) (a : Submitted Manifest) (kid : String) (e : Error)
      → a.kid ≡ ok kid
      → a.verified kid ≡ err e
      → wrap none ≡ none
      → validate_credential_application wrap verify_jwt verify_data m a ≡ Validity.valid
  unfolding validate_credential_application check_signed of_error
  forged_lem m a kid e p q nil = ground arith

  -- An application is valid just where its JWT is verified and it passes every check, or where its JWT is
  -- not verified, whatever the other checks say of it. Wrapping an error gives an error, wrapping nil
  -- gives nil, and the SDK's failure on the manifest has an error.
  pub validate_credential_application-valid :
      {Manifest : Type 0} (m : Manifest) (a : Submitted Manifest)
      → ((e : Error) → wrap (some e) ≢ none)
      → wrap none ≡ none
      → ((e : Option Error) → a.for_manifest m ≡ ManifestCheck.broken e → e ≢ none)
      → (validate_credential_application wrap verify_jwt verify_data m a ≡ Validity.valid
          → Passes m a ⊎ IsForged a)
        × (Passes m a
            → validate_credential_application wrap verify_jwt verify_data m a ≡ Validity.valid)
        × (IsForged a
            → validate_credential_application wrap verify_jwt verify_data m a ≡ Validity.valid)
  unfolding validate_credential_application
  validate_credential_application-valid m a keeps nil caused = (
    λ h. elim (Result-cases a.kid) [
      | inl (e, p) ↦ absurd (ground arith)
      | inr (kid, p) ↦ elim (Result-cases (a.verified kid)) [
        | inl (e, q) ↦ inr (kid, e, p, q)
        | inr (u, q) ↦
            let (is_valid, accepted, verified) =
              check_signed-valid m a keeps caused (ground arith) in
            inl (kid, p, ground arith, is_valid, accepted, verified)
      ]
    ],
    Passes-valid m a,
    λ forged. let (kid, e, p, q) = forged in forged_lem m a kid e p q nil,
  )
