-- ===== src/Storage/Kind.antt =====
-- The methods that the services' storages share: they keep one kind of value in a namespace, each
-- under its id. Those of pkg/service/manifest/storage/storage.go stand for them here.
pub mod Laws
use ssi_service.Prelude.{
  String, ◌≡◌, Bool, Option, none, some, List, [], ◌∷◌, Assoc, Result, ok, err, Error, Action,
  then_pure, fail, ◌==◌, if◌then◌else◌,
}
use ssi_service.Json.{Codec, Document}
use ssi_service.Storage.Contract.{ServiceStorage}
use ssi_service.Storage.Update.{unmarshal}

-- A kind of value: where it is kept, its id, and its JSON form.
pub record Kind (V : Type 0) : Type 0 where
  pub namespace : String
  pub id_of : V → String
  pub to_document : V → Document
  pub of_document : Document → Result V

module _ {S Bytes V : Type 0} (db : ServiceStorage S Bytes) (codec : Codec Bytes)
    (kind : Kind V) where
  unfoldable pub store_value : V → Action S (Unit {0})
  store_value v =
      if kind.id_of v == ""
      then fail Error.invalid
      else db.write kind.namespace (kind.id_of v) (codec.marshal (kind.to_document v))

  unfoldable pub value_of : Option Bytes → Result V
  value_of v = then_pure (unmarshal codec v) kind.of_document

  found_value : Option Bytes → Result V
  unfolding value_of
  found_value none = err Error.not_found
  found_value (some b) = if codec.is_empty b then err Error.not_found else value_of (some b)

  unfoldable pub find_value : S → String → Result V
  unfolding found_value
  find_value s id = then_pure (db.read s kind.namespace id) found_value

  -- Those that cannot be read are left out.
  unfoldable pub values_of : Assoc Bytes → List V
  unfolding value_of
  values_of [] = []
  values_of ((k, b) ∷ rest) =
      let more = values_of rest in elim (value_of (some b)) [ ok v ↦ v ∷ more | err e ↦ more ]

  unfoldable pub list_values : S → Result (List V)
  unfolding values_of
  list_values s = then_pure (db.read_all s kind.namespace) λ all. ok (values_of all)

  unfoldable pub delete_value : String → Action S (Unit {0})
  delete_value id = db.delete kind.namespace id
