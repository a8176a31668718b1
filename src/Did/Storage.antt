-- ===== src/Did/Storage.antt =====
-- did/storage.go: the DIDs in the store.
pub mod Laws
use ssi_service.Prelude.{
  ℕ, String, Bool, Option, none, some, List, [], ◌∷◌, Assoc, lookup, Result, ok, err, Error, Action,
  then_pure, lift, ◌>>=◌, if◌then◌else◌,
}
use ssi_service.Json.{Json, Codec, Document, as_string, as_bool, as_value}
use ssi_service.Storage.Contract.{ServiceStorage}
use ssi_service.Storage.Update.{unmarshal}
use ssi_service.Presentation.Storage.{SdkValue}
use ssi_service.Did.Ids.{namespace_for_did, namespace_for_method}

-- `DefaultStoredDID`
pub record StoredDid (Doc : Type 0) : Type 0 where
  pub id : String
  pub document : Doc
  pub soft_deleted : Bool

module _ {Doc : Type 0} (docs : SdkValue Doc) where
  unfoldable pub did_document : StoredDid Doc → Document
  did_document d =
      ("id", Json.str d.id)
      ∷ ("did", docs.to_json d.document)
      ∷ ("softDeleted", Json.bool d.soft_deleted)
      ∷ []

  unfoldable pub document_did : Document → Result (StoredDid Doc)
  document_did m = then_pure (as_string (lookup "id" m)) λ id.
      then_pure (as_value (lookup "did" m)) λ j. then_pure (docs.of_json j) λ doc.
        then_pure (as_bool (lookup "softDeleted" m))
          λ deleted. ok (record { id = id; document = doc; soft_deleted = deleted })

-- The `write` of `db` is that of the handle `tx` of the storage: the store's own, or a transaction's.
module _ {S Bytes Doc : Type 0} (db : ServiceStorage S Bytes) (codec : Codec Bytes)
    (docs : SdkValue Doc) where
  unfoldable pub store_did : StoredDid Doc → Action S (Unit {0})
  store_did d = do
    ns ← lift (namespace_for_did d.id)
    db.write ns d.id (codec.marshal (did_document docs d))

  unfoldable pub unmarshal_did : Option Bytes → Result (StoredDid Doc)
  unmarshal_did v = then_pure (unmarshal codec v) (document_did docs)

  found_did : Option Bytes → Result (StoredDid Doc)
  unfolding unmarshal_did
  found_did none = err Error.not_found
  found_did (some b) = if codec.is_empty b then err Error.not_found else unmarshal_did (some b)

  unfoldable pub get_did : S → String → Result (StoredDid Doc)
  unfolding found_did
  get_did s id = then_pure (namespace_for_did id) λ ns. then_pure (db.read s ns id) found_did

  unfoldable pub did_exists : S → String → Result Bool
  did_exists s id = then_pure (namespace_for_did id) λ ns. db.exists s ns id

  -- Those that cannot be read are left out.
  unfoldable pub stored_dids : Assoc Bytes → List (StoredDid Doc)
  unfolding unmarshal_did
  stored_dids [] = []
  stored_dids ((k, b) ∷ rest) =
      let more = stored_dids rest in
      elim (unmarshal_did (some b)) [ ok d ↦ d ∷ more | err e ↦ more ]

  unfoldable pub list_dids : S → String → Result (List (StoredDid Doc))
  unfolding stored_dids
  list_dids s method =
      then_pure (namespace_for_method method)
        λ ns. then_pure (db.read_all s ns) λ all. ok (stored_dids all)

  unfoldable pub list_dids_page :
      S → String → String → Option ℕ → Result (List (StoredDid Doc) × String)
  unfolding stored_dids
  list_dids_page s method token size =
      then_pure (namespace_for_method method)
        λ ns. then_pure (db.read_page s ns token size) λ page. ok (stored_dids page.0, page.1)

  unfoldable pub delete_did : String → Action S (Unit {0})
  delete_did id = do ns ← lift (namespace_for_did id); db.delete ns id
