-- ===== src/Storage/Kind/Laws.antt =====
-- What storing and deleting a value of a kind does to what is found.
use ssi_service.Prelude.{
  String, ◌≡◌, false, some, inl, inr, lookup, ok, err, Error, ◌==◌, eq_iff, eq_refl, arith,
  Bool-cases, if◌then◌else◌,
}
use ssi_service.Json.{Codec, Document}
use ssi_service.Storage.Contract.{ServiceStorage, IsLawful}
use ssi_service.Storage.Update.{unmarshal}
use ssi_service.Storage.Kind.{Kind, store_value, value_of, found_value, find_value, delete_value}

-- The JSON form gives the value back, and only the fields' values count.
pub record IsFaithful {V : Type 0} (kind : Kind V) : Type 0 where
  pub of_document-to_document : (v : V) → kind.of_document (kind.to_document v) ≡ ok v
  pub of_document-same :
      (m m' : Document)
      → ((k : String) → lookup k m' ≡ lookup k m)
      → kind.of_document m' ≡ kind.of_document m

module _ {S Bytes V : Type 0} (db : ServiceStorage S Bytes) (codec : Codec Bytes) (kind : Kind V)
    (faithful : IsFaithful kind) where
  pub value_of-marshal :
      (v : V) → value_of db codec kind (some (codec.marshal (kind.to_document v))) ≡ ok v
  unfolding value_of unmarshal
  value_of-marshal v = ground (
    arith,
    codec.unmarshal-marshal (kind.to_document v),
    faithful.of_document-same (kind.to_document v) (codec.reread (kind.to_document v))
        (codec.lookup-reread (kind.to_document v)),
    faithful.of_document-to_document v,
  )

  found_value-marshal :
      (v : V) → found_value db codec kind (some (codec.marshal (kind.to_document v))) ≡ ok v
  unfolding found_value
  found_value-marshal v =
      ground (arith, codec.is_empty-marshal (kind.to_document v), value_of-marshal v)

  -- A value that was stored is found under its id, and every other id finds what it did. Storing
  -- changes no place of another namespace.
  pub find_value-store_value :
      IsLawful db
      → (v : V) (s s' : S) → store_value db codec kind v s ≡ (ok tt, s')
      → ((id : String)
          → find_value db codec kind s' id
            ≡ (if kind.id_of v == id then ok v else find_value db codec kind s id))
        × ((ns k : String) → (kind.namespace == ns) ≡ false → db.read s' ns k ≡ db.read s ns k)
  unfolding store_value find_value
  find_value-store_value lawful v s s' h = elim (Bool-cases (kind.id_of v == "")) [
    | inl empty ↦ absurd (ground arith)
    | inr named ↦
        let read =
          lawful.read-write kind.namespace (kind.id_of v) (codec.marshal (kind.to_document v)) s s'
            (ground arith) in
        (
          λ id. ground (
            arith,
            read kind.namespace id,
            eq_refl kind.namespace,
            found_value-marshal v,
            eq_iff (kind.id_of v) id,
          ),
          λ ns k other. ground (arith, read ns k),
        )
  ]

  -- A value that was deleted is not found, and every other id finds what it did.
  pub find_value-delete_value :
      IsLawful db
      → (id : String) (s s' : S) → delete_value db codec kind id s ≡ (ok tt, s')
      → (other : String)
      → find_value db codec kind s' other
        ≡ (if id == other then err Error.not_found else find_value db codec kind s other)
  unfolding delete_value find_value found_value
  find_value-delete_value lawful id s s' h other = ground (
    arith,
    lawful.read-delete kind.namespace id s s' h kind.namespace other,
    eq_refl kind.namespace,
    eq_iff id other,
  )
