-- ===== src/Did/Handlers.antt =====
-- did/handler.go, did/key.go and did/web.go: the handlers of the methods `key` and `web`.
pub mod Laws
use ssi_service.Prelude.{
  ℕ, String, Bool, true, false, Option, List, [], ◌∷◌, Result, ok, err, Error, Action, then_pure,
  lift, reads, fail, pure, ◌>>=◌, ◌>>◌, ◌==◌, not, if◌then◌else◌,
}
use ssi_service.Json.{Codec}
use ssi_service.Encryption.{Encrypter, Decrypter}
use ssi_service.Storage.Contract.{ServiceStorage}
use ssi_service.Presentation.Storage.{SdkValue}
use ssi_service.Keystore.{Keys, store_key_request}
use ssi_service.Did.Ids.{key_method, web_method}
use ssi_service.Did.Storage.{StoredDid, store_did, get_did, did_exists, list_dids, list_dids_page}

-- What the SDK makes for a new DID: the DID, which `web` does not read since it was asked for one, its document, the id of its first verification method, and the
-- private key in base58, which is encoded after the DID is stored.
pub record Generated (Doc : Type 0) : Type 0 where
  pub id : String
  pub document : Doc
  pub method_id : String
  pub private_key : Result String

-- The options of a request: `CreateWebDIDOptions`, those of another method, or nil.
pub data DidOptions : Type 0 where
  no_options : DidOptions
  web_options : String → DidOptions
  other_options : DidOptions

-- The options as `CreateWebDIDOptions`.
abbrev pub web_id : DidOptions → Result String
web_id (DidOptions.web_options id) = ok id
web_id _ = err Error.invalid

-- `generated` is what the SDK makes for the request.
pub record CreateDidRequest (Doc : Type 0) : Type 0 where
  pub method : String
  pub key_type : String
  pub options : DidOptions
  pub generated : Result (Generated Doc)

unfoldable pub live : {Doc : Type 0} → List (StoredDid Doc) → List Doc
live [] = []
live (d ∷ ds) = let rest = live ds in if not d.soft_deleted then d.document ∷ rest else rest

unfoldable pub deleted : {Doc : Type 0} → List (StoredDid Doc) → List Doc
deleted [] = []
deleted (d ∷ ds) = let rest = deleted ds in if d.soft_deleted then d.document ∷ rest else rest

unfoldable pub as_deleted : {Doc : Type 0} → StoredDid Doc → StoredDid Doc
as_deleted d = record { id = d.id; document = d.document; soft_deleted = true }

module _ {S Bytes Priv Jwk Doc : Type 0} (db : ServiceStorage S Bytes) (codec : Codec Bytes)
    (e : Encrypter Bytes) (d : Decrypter Bytes) (keys : Keys Bytes Priv Jwk)
    (docs : SdkValue Doc) where
  -- The end of both creations: the DID under an id, then its key.
  unfoldable pub store_generated : String → String → String → Generated Doc → Action S Doc
  store_generated now key_type id g = do
    store_did db codec docs (record { id = id; document = g.document; soft_deleted = false })
    private_key ← lift g.private_key
    store_key_request db codec e d keys now g.method_id key_type id private_key
    pure g.document

  -- `CreateDID` of `keyHandler`
  unfoldable pub create_key_did : String → CreateDidRequest Doc → Action S Doc
  unfolding store_generated
  create_key_did now r = do g ← lift r.generated; store_generated now r.key_type g.id g

  -- The DID is stored under the id that was asked for. `resolves` is `Validate` of the SDK, which asks the web for the DID.
  unfoldable pub create_web_did_with :
      (String → Bool) → String → CreateDidRequest Doc → String → Action S Doc
  unfolding store_generated
  create_web_did_with resolves now r id =
      if id == "" then fail Error.invalid else if resolves id then fail Error.duplicate else do
        exists ← reads (λ s. did_exists db codec docs s id)
        lift (if exists then err Error.duplicate else ok tt)
        g ← lift r.generated
        store_generated now r.key_type id g

  -- `CreateDID` of `webHandler`
  unfoldable pub create_web_did : (String → Bool) → String → CreateDidRequest Doc → Action S Doc
  unfolding create_web_did_with
  create_web_did resolves now r = do
    lift (if keys.is_supported r.key_type then ok tt else err Error.invalid)
    id ← lift (web_id r.options)
    create_web_did_with resolves now r id

module _ {S Bytes Doc : Type 0} (db : ServiceStorage S Bytes) (codec : Codec Bytes)
    (docs : SdkValue Doc) where
  -- The other methods are the same in both handlers.
  unfoldable pub get_did_of : S → String → Result Doc
  get_did_of s id = then_pure (get_did db codec docs s id) λ d. ok d.document

  unfoldable pub list_dids_of : S → String → String → Option ℕ → Result (List Doc × String)
  unfolding live
  list_dids_of s method token size =
      then_pure (list_dids_page db codec docs s method token size) λ page. ok (live page.0, page.1)

  unfoldable pub list_deleted_dids : S → String → Result (List Doc)
  unfolding deleted
  list_deleted_dids s method = then_pure (list_dids db codec docs s method) λ ds. ok (deleted ds)

  unfoldable pub soft_delete_did : String → Action S (Unit {0})
  unfolding as_deleted
  soft_delete_did id = do
    d ← reads (λ s. get_did db codec docs s id)
    store_did db codec docs (as_deleted d)

-- `MethodHandler`
pub record MethodHandler (S Doc : Type 0) : Type 0 where
  pub method : String
  pub create_did : CreateDidRequest Doc → Action S Doc
  pub get_did : S → String → Result Doc
  pub list_dids : S → String → Option ℕ → Result (List Doc × String)
  pub list_deleted_dids : S → Result (List Doc)
  pub soft_delete_did : String → Action S (Unit {0})

module _ {S Bytes Priv Jwk Doc : Type 0} (db : ServiceStorage S Bytes) (codec : Codec Bytes)
    (e : Encrypter Bytes) (d : Decrypter Bytes) (keys : Keys Bytes Priv Jwk)
    (docs : SdkValue Doc) where
  unfoldable pub key_handler : String → MethodHandler S Doc
  key_handler now = record {
    method = key_method;
    create_did = create_key_did db codec e d keys docs now;
    get_did = get_did_of db codec docs;
    list_dids = λ s. list_dids_of db codec docs s key_method;
    list_deleted_dids = λ s. list_deleted_dids db codec docs s key_method;
    soft_delete_did = soft_delete_did db codec docs;
  }

  unfoldable pub web_handler : (String → Bool) → String → MethodHandler S Doc
  web_handler resolves now = record {
    method = web_method;
    create_did = create_web_did db codec e d keys docs resolves now;
    get_did = get_did_of db codec docs;
    list_dids = λ s. list_dids_of db codec docs s web_method;
    list_deleted_dids = λ s. list_deleted_dids db codec docs s web_method;
    soft_delete_did = soft_delete_did db codec docs;
  }
