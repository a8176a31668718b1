-- ===== src/Credential/Status.antt =====
-- The status of a credential: credential/status.go, and `updateCredentialStatus` of
-- credential/service.go.
pub mod Listed
pub mod Entries
use ssi_service.Prelude.{
  ℕ, String, ◌≡◌, Bool, true, false, ◌&&◌, ◌||◌, not, Option, none, some, List, [], ◌∷◌, ◌++◌, drop,
  Result, ok, err, Error, Action, then_pure, lift, fail, pure, ◌>>=◌, ◌>>◌, ◌==◌, ltb, leb, eqb,
  ◌-◌, ◌+◌, get_elem?, if◌then◌else◌,
}
use Prim.Native.String.{◌++◌ as ◌<>◌}
use ssi_service.Json.{Json, Codec}
use ssi_service.Storage.Contract.{ServiceStorage, execute}
use ssi_service.Presentation.Storage.{SdkValue}
use ssi_service.Credential.Stored.{
  Credential, Container, StoredCredential, StatusEntry, stored_is_valid, is_some,
}
use ssi_service.Credential.Storage.{
  StatusListMetadata, index_pool_namespace, current_index_namespace, get_credential,
  get_credentials_by_issuer_and_schema, get_status_list_credential_key_data, store_credential_tx,
  store_status_list_credential_tx,
}
use ssi_service.Credential.Indexes.{
  get_next_status_list_random_index, increment_status_list_index_tx, random_unique_num,
  bit_string_length,
}

pub record UpdateRequest : Type 0 where
  pub id : String
  pub revoked : Bool
  pub suspended : Bool

pub record Status : Type 0 where
  pub revoked : Bool
  pub suspended : Bool

-- What is read of a `CreateCredentialRequest` here.
pub record StatusRequest : Type 0 where
  pub issuer : String
  pub schema : String
  pub verification_method : String
  pub revocable : Bool
  pub suspendable : Bool

unfoldable pub is_status_valid : StatusRequest → Bool
is_status_valid r = if r.revocable && r.suspendable then false else true

unfoldable pub has_status : StatusRequest → Bool
has_status r = r.suspendable || r.revocable

unfoldable pub purpose_of : Bool → String
purpose_of suspended = if suspended then "suspension" else "revocation"

-- Whether a stored credential of the same issuer and schema goes into the new list.
unfoldable pub goes_in : UpdateRequest → StoredCredential → Credential → Bool
goes_in r sc c =
    (r.revoked && is_some c.status && sc.revoked)
    || (r.suspended && is_some c.status && sc.suspended)

-- The other credentials that go into the list; one with none panics.
unfoldable pub others_listed :
    UpdateRequest → Credential → List StoredCredential → Result (List Credential)
unfolding goes_in
others_listed r got [] = ok []
others_listed r got (sc ∷ rest) =
    then_pure (elim sc.credential [ none ↦ err Error.panic | some c ↦ ok c ])
      λ c. then_pure (others_listed r got rest) λ more.
        if c.id == got.id then ok more else if goes_in r sc c then ok (c ∷ more) else ok more

unfoldable pub listed :
    UpdateRequest → Credential → List StoredCredential → Result (List Credential)
unfolding others_listed
listed r got creds =
    then_pure (others_listed r got creds)
      λ others. ok (if r.revoked || r.suspended then others ++ (got ∷ []) else others)

-- `length` is the number of bytes, and `cut` the slice of a string from a place on.
unfoldable pub parse_id_from_uri : (String → ℕ) → (ℕ → String → String) → String → Result String
parse_id_from_uri length cut uri =
    if ltb (length uri) 36 then err Error.invalid else ok (cut (length uri - 36) uri)

eq_bool : Bool → Bool → Bool
eq_bool true b = b
eq_bool false b = not b

-- What the service is given: the store; `parse` reads a JWT, `generate` makes a status list
-- credential of its URI, issuer, purpose and credentials, and `sign` signs one with a key.
pub record Parts (S Bytes : Type 0) : Type 0 where
  pub db : ServiceStorage S Bytes
  pub codec : Codec Bytes
  pub vc : SdkValue Credential
  pub parse : String → Result Credential
  pub generate : String → String → String → List Credential → Result Credential
  pub sign : S → String → Credential → Result String
  pub wrap : Option Error → Option Error
  pub shuffle : List ℕ → List ℕ
  pub status_base : String
  pub byte_length : String → ℕ
  pub cut : ℕ → String → String

first_number : Option ℕ → Result ℕ
first_number none = err Error.panic
first_number (some n) = ok n

the_credential : Option Credential → Result Credential
the_credential none = err Error.panic
the_credential (some c) = ok c

the_status : Option StatusEntry → Result StatusEntry
the_status none = err Error.panic
the_status (some e) = ok e

module _ {S Bytes : Type 0} (parts : Parts S Bytes) where
  -- `CreateStatusListCredentialTx`
  unfoldable pub create_status_list_credential_tx : Container → StatusListMetadata → Action S ℕ
  unfolding first_number
  create_status_list_credential_tx c meta = do
    parts.db.tx_write index_pool_namespace meta.pool_key
        (parts.codec.marshal_ints (random_unique_num parts.shuffle bit_string_length))
    parts.db.tx_write current_index_namespace meta.index_key
        (parts.codec.marshal (("index", Json.num 1) ∷ []))
    n ← lift (first_number (get_elem? (random_unique_num parts.shuffle bit_string_length) 0))
    store_status_list_credential_tx parts.db parts.codec parts.vc parts.parse c meta
    pure n

  -- `createStatusListCredential`, with `list_id` for the new UUID
  unfoldable pub create_status_list_credential :
      String → String → StatusRequest → StatusListMetadata → S → Action S (ℕ × Credential)
  unfolding create_status_list_credential_tx
  create_status_list_credential list_id purpose r meta s = do
    generated ← lift (parts.generate (parts.status_base <> ("/" <> list_id)) r.issuer purpose [])
    jwt ← lift (parts.sign s r.verification_method generated)
    n ←
        create_status_list_credential_tx
          (record {
            id = list_id;
            verification_method = r.verification_method;
            credential = some generated;
            jwt = some jwt;
            revoked = false;
            suspended = false;
          })
          meta
    pure (n, generated)

  -- The number and the list's credential, for a list that is new or exists.
  unfoldable pub entry_in :
      String
      → String
      → StatusRequest
      → StatusListMetadata
      → S
      → Option StoredCredential
      → Action S (ℕ × String)
  unfolding create_status_list_credential the_credential
  entry_in list_id purpose r meta s none = do
    made ← create_status_list_credential list_id purpose r meta s
    pure (made.0, (made.1).id)
  entry_in list_id purpose r meta s (some sc) = do
    n ← lift (get_next_status_list_random_index parts.db parts.codec s meta)
    c ← lift (the_credential sc.credential)
    increment_status_list_index_tx parts.db parts.codec parts.wrap meta s
    pure (n, c.id)

  -- `createStatusListEntryForCredential`
  unfoldable pub create_status_list_entry :
      String → StatusRequest → StatusListMetadata → S → Action S StatusEntry
  unfolding entry_in purpose_of
  create_status_list_entry list_id r meta s = do
    found ← lift (
        get_status_list_credential_key_data parts.db parts.codec parts.vc parts.parse s r.issuer
          r.schema (purpose_of r.suspendable))
    entry ← entry_in list_id (purpose_of r.suspendable) r meta s found
    pure (record {
      purpose = purpose_of r.suspendable;
      list_index = entry.0;
      list_credential = entry.1;
    })

  -- What is stored for the status list that replaces the old one.
  list_container : String → StoredCredential → Credential → String → Container
  list_container list_id got generated jwt = record {
    id = list_id;
    verification_method = got.verification_method;
    credential = some generated;
    jwt = some jwt;
    revoked = false;
    suspended = false;
  }

  unfoldable pub updated_container : StoredCredential → UpdateRequest → Container
  updated_container got r = record {
    id = got.local_id;
    verification_method = got.verification_method;
    credential = got.credential;
    jwt = got.jwt;
    revoked = r.revoked;
    suspended = r.suspended;
  }

  with_schema : Option String → Credential → Credential
  with_schema schema c = record {
    id = c.id;
    issuer = c.issuer;
    subject = c.subject;
    schema = schema;
    issuance_date = c.issuance_date;
    has_proof = c.has_proof;
    status = c.status;
  }

  unfoldable pub update_credential_status :
      StoredCredential → UpdateRequest → StatusListMetadata → S → Action S Container
  unfolding list_container updated_container with_schema the_credential the_status purpose_of
      parse_id_from_uri
  update_credential_status got r meta s = do
    store_credential_tx parts.db parts.codec parts.vc parts.parse (updated_container got r)
    c ← lift (the_credential got.credential)
    entry ← lift (the_status c.status)
    list_id ← lift (parse_id_from_uri parts.byte_length parts.cut entry.list_credential)
    creds ← lift (
        get_credentials_by_issuer_and_schema parts.db parts.codec parts.vc parts.parse s got.issuer
          got.schema)
    statuses ← lift (listed r c creds)
    generated ←
        lift (parts.generate entry.list_credential got.issuer (purpose_of r.suspended) statuses)
    jwt ← lift (parts.sign s got.verification_method (with_schema c.schema generated))
    store_status_list_credential_tx parts.db parts.codec parts.vc parts.parse
        (list_container list_id got (with_schema c.schema generated) jwt) meta
    pure (updated_container got r)

  same_status : StoredCredential → UpdateRequest → Bool
  same_status got r = eq_bool got.revoked r.revoked && eq_bool got.suspended r.suspended

  change_status : UpdateRequest → StatusListMetadata → S → StoredCredential → Action S Status
  unfolding update_credential_status same_status
  change_status r meta s got =
      if not (stored_is_valid got)
      then fail Error.invalid
      else if same_status got r
      then pure (record { revoked = got.revoked; suspended = got.suspended })
      else (do
        c ← update_credential_status got r meta s
        pure (record { revoked = c.revoked; suspended = c.suspended }))

  -- `updateCredentialStatusBusinessLogic`, the logic of a transaction
  unfoldable pub update_status_logic : UpdateRequest → StatusListMetadata → S → Action S Status
  unfolding change_status eq_bool
  update_status_logic r meta s = if r.suspended && r.revoked then fail Error.invalid else (do
    got ← lift (get_credential parts.db parts.codec parts.vc parts.parse s r.id)
    change_status r meta s got)
