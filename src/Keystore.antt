-- ===== src/Keystore.antt =====
-- pkg/service/keystore: the keys, stored encrypted, their revocation, and signing.
pub mod Revocation
pub mod ServiceKey
use ssi_service.Prelude.{
  String, ◌≡◌, Bool, true, false, Option, none, some, List, [], ◌∷◌, lookup, Result, ok, err, Error,
  Action, then_pure, lift, fail, pure, ◌>>=◌, ◌>>◌, ◌==◌, if◌then◌else◌,
}
use ssi_service.Json.{Json, Codec, Document, as_string, as_bool}
use ssi_service.Encryption.{Encrypter, Decrypter}
use ssi_service.Storage.Contract.{ServiceStorage}
use ssi_service.Storage.Update.{unmarshal}

pub record StoredKey : Type 0 where
  pub id : String
  pub controller : String
  pub key_type : String
  pub base58_key : String
  pub revoked : Bool
  pub revoked_at : String
  pub created_at : String

pub record KeyDetails (Jwk : Type 0) : Type 0 where
  pub id : String
  pub controller : String
  pub key_type : String
  pub revoked : Bool
  pub revoked_at : String
  pub created_at : String
  pub public_key : Jwk

pub record GetKeyResponse (Priv : Type 0) : Type 0 where
  pub id : String
  pub key_type : String
  pub controller : String
  pub created_at : String
  pub revoked : Bool
  pub revoked_at : String
  pub key : Priv

-- The SDK's keys: `decode` reads base58, and `sign` is given the controller, the id, the key and the
-- data.
pub record Keys (Bytes Priv Jwk : Type 0) : Type 0 where
  pub is_supported : String → Bool
  pub decode : String → Result Bytes
  pub to_private : Bytes → String → Result Priv
  pub to_public_jwk : String → Priv → Result Jwk
  pub jwk_document : Jwk → Document
  pub document_jwk : Document → Result Jwk
  pub sign : String → String → Priv → Json → Result String

abbrev pub key_namespace : String
key_namespace = "keystore"

abbrev pub public_key_namespace : String
public_key_namespace = "keystore:public-keys"

unfoldable pub key_document : StoredKey → Document
key_document k =
    ("id", Json.str k.id)
    ∷ ("controller", Json.str k.controller)
    ∷ ("keyType", Json.str k.key_type)
    ∷ ("key", Json.str k.base58_key)
    ∷ ("revoked", Json.bool k.revoked)
    ∷ ("revokedAt", Json.str k.revoked_at)
    ∷ ("createdAt", Json.str k.created_at)
    ∷ []

unfoldable pub document_key : Document → Result StoredKey
document_key m = then_pure (as_string (lookup "id" m)) λ id.
    then_pure (as_string (lookup "controller" m)) λ controller.
      then_pure (as_string (lookup "keyType" m)) λ key_type.
        then_pure (as_string (lookup "key" m)) λ base58_key.
          then_pure (as_bool (lookup "revoked" m)) λ revoked.
            then_pure (as_string (lookup "revokedAt" m)) λ revoked_at.
              then_pure (as_string (lookup "createdAt" m)) λ created_at. ok (record {
                id = id;
                controller = controller;
                key_type = key_type;
                base58_key = base58_key;
                revoked = revoked;
                revoked_at = revoked_at;
                created_at = created_at;
              })

unfoldable pub as_revoked : String → StoredKey → StoredKey
as_revoked now k = record {
  id = k.id;
  controller = k.controller;
  key_type = k.key_type;
  base58_key = k.base58_key;
  revoked = true;
  revoked_at = now;
  created_at = k.created_at;
}

-- A key store whose writer is the store itself.
module _ {S Bytes Priv Jwk : Type 0} (db : ServiceStorage S Bytes) (codec : Codec Bytes)
    (e : Encrypter Bytes) (d : Decrypter Bytes) (keys : Keys Bytes Priv Jwk) where
  private_of : StoredKey → Result Priv
  private_of k = then_pure (keys.decode k.base58_key) λ b. keys.to_private b k.key_type

  unfoldable pub store_key : StoredKey → Action S (Unit {0})
  unfolding private_of
  store_key k = if k.id == "" then fail Error.invalid else (do
    secret ← lift (private_of k)
    jwk ← lift (keys.to_public_jwk k.id secret)
    db.write public_key_namespace k.id (codec.marshal (keys.jwk_document jwk))
    encrypted ← lift (e.encrypt (codec.marshal (key_document k)))
    db.write key_namespace k.id encrypted)

  decrypted : Option Bytes → Result StoredKey
  decrypted none = err Error.not_found
  decrypted (some b) =
      if codec.is_empty b
      then err Error.not_found
      else then_pure (d.decrypt (some b)) λ v. then_pure (unmarshal codec v) document_key

  unfoldable pub stored_key : S → String → Result StoredKey
  unfolding decrypted
  stored_key s id = then_pure (db.read s key_namespace id) decrypted

  -- `now` is the time on the clock.
  unfoldable pub revoke_key : String → String → Action S (Unit {0})
  unfolding store_key
  revoke_key now id s = elim (stored_key s id) [
    | err x ↦ (err x, s)
    | ok k ↦ store_key (as_revoked now k) s
  ]

  unfoldable pub get_key_details : S → String → Result (KeyDetails Jwk)
  unfolding stored_key
  get_key_details s id = then_pure (stored_key s id) λ k.
      then_pure (db.read s public_key_namespace id) λ b. then_pure (unmarshal codec b) λ m.
        then_pure (keys.document_jwk m) λ jwk. ok (record {
          id = k.id;
          controller = k.controller;
          key_type = k.key_type;
          revoked = k.revoked;
          revoked_at = "";
          created_at = k.created_at;
          public_key = jwk;
        })

  -- `StoreKey` of the service
  unfoldable pub store_key_request :
      String → String → String → String → String → Action S (Unit {0})
  unfolding store_key
  store_key_request now id key_type controller base58_key =
      if keys.is_supported key_type
      then store_key (record {
        id = id;
        controller = controller;
        key_type = key_type;
        base58_key = base58_key;
        revoked = false;
        revoked_at = "";
        created_at = now;
      })
      else fail Error.invalid

  -- `GetKey` of the service
  unfoldable pub get_key : S → String → Result (GetKeyResponse Priv)
  unfolding stored_key private_of
  get_key s id = then_pure (stored_key s id) λ k. then_pure (private_of k) λ secret. ok (record {
    id = k.id;
    key_type = k.key_type;
    controller = k.controller;
    created_at = k.created_at;
    revoked = k.revoked;
    revoked_at = k.revoked_at;
    key = secret;
  })

  unfoldable pub sign : S → String → Json → Result String
  unfolding get_key
  sign s id payload =
      then_pure (get_key s id)
        λ k. if k.revoked then err Error.revoked else keys.sign k.controller k.id k.key payload
