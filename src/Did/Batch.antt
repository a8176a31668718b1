-- ===== src/Did/Batch.antt =====
-- did/batch.go: many DIDs of the method `key` in one transaction.
pub mod Laws
use ssi_service.Prelude.{
  String, ◌<>◌, ◌≡◌, refl, true, false, ap, Option, none, some, inl, inr, List, [], ◌∷◌, length,
  Result, ok, err, Error, Action, then_pure, pure, ◌>>=◌, ◌>>◌, ◌==◌, eq_iff, arith, Run-cases,
  if◌then◌else◌,
}
use ssi_service.Json.{Codec}
use ssi_service.Encryption.{Encrypter, Decrypter}
use ssi_service.Storage.Contract.{
  ServiceStorage, IsLawful, in_transaction, execute, same_place, transaction_fails,
  transaction-eq-ok,
}
use ssi_service.Presentation.Storage.{SdkValue}
use ssi_service.Keystore.{Keys}
use ssi_service.Did.Handlers.{CreateDidRequest, Generated, create_key_did}

abbrev pub watch_namespace : String
watch_namespace = "temporary"

unfoldable pub watch_key : String → String
watch_key uuid = "batch-create-dids-key-" <> uuid

module _ {S Bytes Priv Jwk Doc : Type 0} (db : ServiceStorage S Bytes) (codec : Codec Bytes)
    (e : Encrypter Bytes) (d : Decrypter Bytes) (keys : Keys Bytes Priv Jwk)
    (docs : SdkValue Doc) where
  -- The key handler's `CreateDID` for each request, which writes to the transaction.
  unfoldable pub create_each : String → List (CreateDidRequest Doc) → Action S (List Doc)
  create_each now [] = pure []
  create_each now (r ∷ rs) = do
    doc ← create_key_did (in_transaction db) codec e d keys docs now r
    rest ← create_each now rs
    pure (doc ∷ rest)

  -- `starting` is the text of this name, and `uuid` is new.
  unfoldable pub batch_create_dids :
      Bytes → String → String → List (CreateDidRequest Doc) → Action S (List Doc)
  unfolding create_each watch_key
  batch_create_dids starting uuid now rs = do
    db.write watch_namespace (watch_key uuid) starting
    execute db (λ committed. create_each now rs)
