-- ===== src/Credential/Storage.antt =====
-- credential/storage.go: the credentials in the store.
use ssi_service.Prelude.{
  String, Bool, false, Option, none, some, List, [], ◌∷◌, Assoc, Result, ok, err, Error, Action,
  then_pure, lift, ◌>>=◌, if◌then◌else◌,
}
use ssi_service.Json.{Codec}
use ssi_service.Storage.Contract.{ServiceStorage}
use ssi_service.Storage.Update.{unmarshal}
use ssi_service.Presentation.Storage.{SdkValue}
use ssi_service.Credential.Keys.{
  create_prefix_key, get_status_list_key, matches_credential, matches_status_list,
}
use ssi_service.Credential.Stored.{
  Credential, Container, StoredCredential, container_is_valid, stored_document, document_stored,
  build_stored_credential,
}

abbrev pub credential_namespace : String
credential_namespace = "credential"

abbrev pub status_list_namespace : String
status_list_namespace = "status-list-credential"

abbrev pub index_pool_namespace : String
index_pool_namespace = "status-list-index-pool"

abbrev pub current_index_namespace : String
current_index_namespace = "status-list-current-index"

-- The keys of a status list, by which a transaction watches it.
pub record StatusListMetadata : Type 0 where
  pub list_key : String
  pub pool_key : String
  pub index_key : String

unfoldable pub status_list_metadata : String → String → String → StatusListMetadata
status_list_metadata issuer schema purpose = record {
  list_key = get_status_list_key issuer schema purpose;
  pool_key = get_status_list_key issuer schema purpose;
  index_key = get_status_list_key issuer schema purpose;
}

unfoldable pub zero_stored : StoredCredential
zero_stored = record {
  key = "";
  local_id = "";
  credential = none;
  jwt = none;
  issuer = "";
  verification_method = "";
  subject = "";
  schema = "";
  issuance_date = "";
  revoked = false;
  suspended = false;
}

-- `parse` is the SDK's reading of a JWT.
module _ {S Bytes : Type 0} (db : ServiceStorage S Bytes) (codec : Codec Bytes)
    (vc : SdkValue Credential) (parse : String → Result Credential) where
  -- `getStoreCredentialWriteContext`, less the namespace
  unfoldable pub write_context : Container → Result (String × Bytes)
  write_context c =
      if container_is_valid c
      then then_pure (build_stored_credential parse c)
          (λ sc. ok (sc.key, codec.marshal (stored_document vc sc)))
      else err Error.invalid

  unfoldable pub store_credential_tx : Container → Action S (Unit {0})
  unfolding write_context
  store_credential_tx c = do wc ← lift (write_context c); db.tx_write credential_namespace wc.0 wc.1

  unfoldable pub store_status_list_credential_tx :
      Container → StatusListMetadata → Action S (Unit {0})
  unfolding write_context
  store_status_list_credential_tx c meta = do
    wc ← lift (write_context c)
    db.tx_write status_list_namespace meta.list_key wc.1

  unfoldable pub unmarshal_stored : Option Bytes → Result StoredCredential
  unmarshal_stored v = then_pure (unmarshal codec v) (document_stored vc)

  only_value : Assoc Bytes → Result StoredCredential
  unfolding unmarshal_stored
  only_value [] = err Error.not_found
  only_value ((k, b) ∷ []) =
      if codec.is_empty b
      then err Error.not_found
      else elim (unmarshal_stored (some b)) [ ok sc ↦ ok sc | err e ↦ err Error.codec ]
  only_value (first ∷ second ∷ rest) = err Error.duplicate

  -- That there is none is told apart from an error of the store.
  unfoldable pub get_credential_in : S → String → String → Result StoredCredential
  unfolding only_value
  get_credential_in s ns id = elim (db.read_prefix s ns id) [
    | ok values ↦ only_value values
    | err e ↦ err Error.io
  ]

  unfoldable pub get_credential : S → String → Result StoredCredential
  unfolding get_credential_in
  get_credential s id = get_credential_in s credential_namespace id

  -- The credential is looked for among the credentials, whatever `ns` is.
  unfoldable pub delete_credential_in : String → String → Action S (Unit {0})
  delete_credential_in ns id s = elim (get_credential s id) [
    | err Error.not_found ↦ (ok tt, s)
    | err e ↦ (err e, s)
    | ok sc ↦ db.delete ns (create_prefix_key id sc.issuer sc.subject sc.schema) s
  ]

  unfoldable pub delete_credential : String → Action S (Unit {0})
  unfolding delete_credential_in
  delete_credential id = delete_credential_in credential_namespace id

  unfoldable pub delete_status_list_credential : String → Action S (Unit {0})
  unfolding delete_credential_in
  delete_status_list_credential id = delete_credential_in status_list_namespace id

  -- What could not be unmarshalled is kept; it is a zero credential, as far as the model goes, where
  -- the source keeps what it had read before the error.
  unfoldable pub or_zero : Result StoredCredential → StoredCredential
  unfolding zero_stored
  or_zero (ok sc) = sc
  or_zero (err e) = zero_stored

  -- Keeps the credentials that can be read.
  unfoldable pub read_each : S → String → List String → List StoredCredential
  unfolding or_zero
  read_each s ns [] = []
  read_each s ns (k ∷ ks) =
      let rest = read_each s ns ks in
      elim (db.read s ns k) [ err e ↦ rest | ok v ↦ or_zero (unmarshal_stored v) ∷ rest ]

  -- Stops at the first that cannot be read.
  unfoldable pub read_every : S → String → List String → Result (List StoredCredential)
  unfolding or_zero
  read_every s ns [] = ok []
  read_every s ns (k ∷ ks) =
      then_pure (db.read s ns k)
        λ v. then_pure (read_every s ns ks) λ rest. ok (or_zero (unmarshal_stored v) ∷ rest)

  unfoldable pub matching : (String → Bool) → List String → List String
  matching p [] = []
  matching p (k ∷ ks) = let rest = matching p ks in if p k then k ∷ rest else rest

  unfoldable pub get_credentials_by_issuer_and_schema :
      S → String → String → Result (List StoredCredential)
  unfolding read_each matching
  get_credentials_by_issuer_and_schema s issuer schema =
      then_pure (db.read_all_keys s credential_namespace) λ keys.
        ok (read_each s credential_namespace (matching (matches_credential issuer schema) keys))

  unfoldable pub get_status_list_credentials :
      S → String → String → String → Result (List StoredCredential)
  unfolding read_every matching
  get_status_list_credentials s issuer schema purpose =
      then_pure (db.read_all_keys s status_list_namespace) λ keys.
        read_every s status_list_namespace
          (matching (matches_status_list issuer schema purpose) keys)

  first_of : List StoredCredential → Result (Option StoredCredential)
  first_of [] = ok none
  first_of (sc ∷ []) = ok (some sc)
  first_of (first ∷ second ∷ rest) = err Error.duplicate

  unfoldable pub get_status_list_credential_key_data :
      S → String → String → String → Result (Option StoredCredential)
  unfolding get_status_list_credentials first_of
  get_status_list_credential_key_data s issuer schema purpose =
      then_pure (get_status_list_credentials s issuer schema purpose) first_of
