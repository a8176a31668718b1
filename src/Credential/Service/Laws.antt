-- ===== src/Credential/Service/Laws.antt =====
-- What the creation of a credential leaves, and who signed.
use ssi_service.Prelude.{String, ◌≡◌, false, Option, some, Result, ok}
use ssi_service.Json.{Codec, Document}
use ssi_service.Encryption.{Encrypter, Decrypter}
use ssi_service.Storage.Contract.{ServiceStorage}
use ssi_service.Keystore.{Keys, GetKeyResponse, get_key}
use ssi_service.Credential.Stored.{
  Credential, Container, StoredCredential, stored_document, build_stored_credential,
}
use ssi_service.Credential.Storage.{credential_namespace}
use ssi_service.Credential.Status.{Parts}
use ssi_service.Credential.Service.{Builder, Signer}

module _ {S Bytes Priv Jwk : Type 0} (db : ServiceStorage S Bytes) (codec : Codec Bytes)
    (e : Encrypter Bytes) (d : Decrypter Bytes) (keys : Keys Bytes Priv Jwk)
    (signer : Signer Priv) where
  -- The key is controlled by the credential's issuer and not revoked, and made the JWT.
  abbrev pub SignedBy : S → String → Credential → String → GetKeyResponse Priv → Type 0
  SignedBy s method_id c jwt key =
      (get_key db codec e d keys s (signer.qualified c.issuer method_id) ≡ ok key)
      × (key.controller ≡ c.issuer)
      × (key.revoked ≡ false)
      × (signer.sign_credential method_id key.id key.key c ≡ ok jwt)

module _ {S Bytes B Priv Jwk : Type 0} (parts : Parts S Bytes) (builder : Builder B)
    (resolve : S → String → Result (Option Document × String)) (base : String) (e : Encrypter Bytes)
    (d : Decrypter Bytes) (keys : Keys Bytes Priv Jwk) (signer : Signer Priv) where
  -- What is stored of a credential, with its JWT.
  abbrev pub IsStored : S → Container → Type 0
  IsStored s made =
      (sc : StoredCredential) × (build_stored_credential parts.parse made ≡ ok sc)
      × (parts.db.read s credential_namespace sc.key
          ≡ ok (some (parts.codec.marshal (stored_document parts.vc sc))))
