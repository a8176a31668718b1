-- ===== src/Encryption.antt =====
-- internal/encryption/encryption.go; the ciphers of internal/util/crypto.go are in Crypto. A nil slice
-- is `none`.
pub mod Crypto
use ssi_service.Prelude.{
  ◌≡◌, refl, Option, none, some, Result, ok, err, then_pure, Bool, if◌then◌else◌, String,
}
use text.Mathlib.Text.{starts_with}

pub record Encrypter (Bytes : Type 0) : Type 0 where
  pub encrypt : Bytes → Result Bytes

pub record Decrypter (Bytes : Type 0) : Type 0 where
  pub decrypt : Option Bytes → Result (Option Bytes)

-- What was encrypted is decrypted to itself.
pub record Inverse {Bytes : Type 0} (e : Encrypter Bytes) (d : Decrypter Bytes) : Type 0 where
  pub decrypt-encrypt : (v c : Bytes) → e.encrypt v ≡ ok c → d.decrypt (some c) ≡ ok (some v)

-- A missing value, a nil slice, decrypts to a nil slice.
abbrev pub PassesNil : {Bytes : Type 0} → Decrypter Bytes → Type 0
PassesNil d = d.decrypt none ≡ ok none

-- Two functions of a key that undo each other: those of Crypto, and Tink's AEAD.
pub record Aead (Key Bytes : Type 0) : Type 0 where
  pub seal : Key → Bytes → Result Bytes
  pub open_sealed : Key → Option Bytes → Result (Option Bytes)
  pub open-seal : (k : Key) (v c : Bytes) → seal k v ≡ ok c → open_sealed k (some c) ≡ ok (some v)

module _ {Key Bytes : Type 0} (aead : Aead Key Bytes) where
  -- `XChaCha20Poly1305Encrypter` with the answer of its key resolver
  unfoldable pub xchacha_encrypter : Result Key → Encrypter Bytes
  xchacha_encrypter resolver = record { encrypt = λ v. then_pure resolver (λ k. aead.seal k v) }

  xchacha_decrypt : Result Key → Option Bytes → Result (Option Bytes)
  xchacha_decrypt resolver none = ok none
  xchacha_decrypt resolver (some c) = then_pure resolver (λ k. aead.open_sealed k (some c))

  unfoldable pub xchacha_decrypter : Result Key → Decrypter Bytes
  unfolding xchacha_decrypt
  xchacha_decrypter resolver = record { decrypt = xchacha_decrypt resolver }

  -- `wrappedEncrypter` and `wrappedDecrypter`, whose AEAD is given the slice as it comes
  unfoldable pub wrapped_encrypter : Key → Encrypter Bytes
  wrapped_encrypter k = record { encrypt = aead.seal k }

  unfoldable pub wrapped_decrypter : Key → Decrypter Bytes
  wrapped_decrypter k = record { decrypt = aead.open_sealed k }

  -- For each key the XChaCha20-Poly1305 pair decrypts what it encrypted, and passes nil on.
  pub xchacha-Inverse :
      (resolver : Result Key) → Inverse (xchacha_encrypter resolver) (xchacha_decrypter resolver)
  unfolding xchacha_encrypter xchacha_decrypter
  xchacha-Inverse (ok k) = record { decrypt-encrypt = aead.open-seal k }
  xchacha-Inverse (err e) = record { decrypt-encrypt = λ v c h. cc }

  pub xchacha-PassesNil : (resolver : Result Key) → PassesNil (xchacha_decrypter resolver)
  unfolding xchacha_decrypter
  xchacha-PassesNil resolver = refl

  pub wrapped-Inverse : (k : Key) → Inverse (wrapped_encrypter k) (wrapped_decrypter k)
  unfolding wrapped_encrypter wrapped_decrypter
  wrapped-Inverse k = record { decrypt-encrypt = aead.open-seal k }

module _ {Bytes : Type 0} where
  unfoldable pub noop_encrypter : Encrypter Bytes
  noop_encrypter = record { encrypt = ok }

  unfoldable pub noop_decrypter : Decrypter Bytes
  noop_decrypter = record { decrypt = ok }

-- The choice that `NewExternalEncrypter` makes from the configuration.
pub data Kms : Type 0 where
  noop gcp aws unsupported : Kms

unfoldable pub external_kms : Bool → String → Kms
external_kms enabled uri =
    if enabled
    then (if starts_with uri "gcp-kms"
        then Kms.gcp
        else if starts_with uri "aws-kms"
        then Kms.aws
        else Kms.unsupported)
    else Kms.noop
