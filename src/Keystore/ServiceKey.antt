-- ===== src/Keystore/ServiceKey.antt =====
-- The key of the service that encrypts the stored values: keystore/storage.go.
pub mod Laws
use ssi_service.Prelude.{
  String, ◌≡◌, ◌⊎◌, refl, ◌∙◌, ap, ◌≢◌, Bool, false, Option, none, some, inl, inr, [], ◌∷◌, lookup,
  Result, ok, err, Error, Action, then_pure, lift, fail, pure, ◌>>=◌, ◌>>◌, ◌==◌, eq_refl, arith,
  Result-cases, Run-cases, if◌then◌else◌,
}
use ssi_service.Json.{Json, Codec, Document, as_string}
use ssi_service.Encryption.{
  Encrypter, Decrypter, Aead, xchacha_encrypter, xchacha_decrypter, xchacha-Inverse, Inverse,
}
use ssi_service.Storage.Contract.{ServiceStorage, IsLawful, execute, transaction-eq-ok}
use ssi_service.Storage.Update.{unmarshal}
use ssi_service.Credential.Keys.{join}

-- The salt is never set.
unfoldable pub service_key_document : String → Document
service_key_document base58_key =
    ("Base58Key", Json.str base58_key) ∷ ("Base58Salt", Json.str "") ∷ []

unfoldable pub document_service_key : Document → Result String
document_service_key m =
    then_pure (as_string (lookup "Base58Key" m))
      λ key. then_pure (as_string (lookup "Base58Salt" m)) λ salt. ok key

abbrev pub service_internal_namespace : String
service_internal_namespace = "keystore:service-internal"

-- `decode` reads base58.
module _ {S Bytes Key : Type 0} (db : ServiceStorage S Bytes) (codec : Codec Bytes)
    (decode : String → Result Key) (namespace name : String) where
  unfoldable pub store_service_key : String → Action S (Unit {0})
  store_service_key base58_key =
      db.tx_write namespace name (codec.marshal (service_key_document base58_key))

  found_key : Option Bytes → Result Key
  found_key none = err Error.not_found
  found_key (some b) =
      if codec.is_empty b
      then err Error.not_found
      else then_pure (unmarshal codec (some b)) (λ m. then_pure (document_service_key m) decode)

  unfoldable pub get_service_key : S → Result Key
  unfolding found_key
  get_service_key s = then_pure (db.read s namespace name) found_key

  -- Only a key that is not there is generated; `generated` is the random one.
  create_if_absent : Result String → Result Key → Action S (Unit {0})
  unfolding store_service_key
  create_if_absent generated (ok k) = pure tt
  create_if_absent generated (err Error.not_found) = do k ← lift generated; store_service_key k
  create_if_absent generated (err e) = fail e

  unfoldable pub ensure_encryption_key_exists : String → Result String → Action S (Unit {0})
  unfolding create_if_absent
  ensure_encryption_key_exists master_key_uri generated =
      if master_key_uri == ""
      then execute db (λ s. create_if_absent generated (get_service_key s))
      else pure tt

-- `NewServiceEncryption`: none where encryption is off, that of a key management service where there is
-- a URI, else one that reads the key of the service from the store whenever it is used.
unfoldable pub service_encryption :
    {S Bytes Key : Type 0}
    → ServiceStorage S Bytes
    → Codec Bytes
    → (String → Result Key)
    → Aead Key Bytes
    → Result (Encrypter Bytes × Decrypter Bytes)
    → Bool
    → String
    → String
    → Result String
    → Action S (Option (S → Encrypter Bytes × Decrypter Bytes))
unfolding ensure_encryption_key_exists get_service_key
service_encryption db codec decode aead external enabled master_key_uri name generated =
    if enabled
    then if master_key_uri == ""
      then (do
        ensure_encryption_key_exists db codec decode service_internal_namespace name "" generated
        pure (
            some (λ s. (
              xchacha_encrypter aead
                  (get_service_key db codec decode service_internal_namespace name s),
              xchacha_decrypter aead
                  (get_service_key db codec decode service_internal_namespace name s),
            ))))
      else (do pair ← lift external; pure (some (λ s. pair)))
    else pure none
