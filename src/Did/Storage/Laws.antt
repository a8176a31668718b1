-- ===== src/Did/Storage/Laws.antt =====
-- What storing a DID does to what is read.
use ssi_service.Prelude.{
  String, ◌≡◌, ◌≢◌, some, inl, inr, lookup, ok, ◌==◌, eq_iff, eq_refl, arith, Result-cases,
  if◌then◌else◌,
}
use ssi_service.Json.{Codec, Document}
use ssi_service.Storage.Contract.{ServiceStorage, ReadsWrites}
use ssi_service.Storage.Update.{unmarshal}
use ssi_service.Presentation.Storage.{SdkValue}
use ssi_service.Did.Ids.{namespace_for_did}
use ssi_service.Did.Storage.{
  StoredDid, did_document, document_did, store_did, unmarshal_did, found_did, get_did,
}

module _ {S Bytes Doc : Type 0} (db : ServiceStorage S Bytes) (codec : Codec Bytes)
    (docs : SdkValue Doc) where
  document_did-same :
      (m m' : Document)
      → ((k : String) → lookup k m' ≡ lookup k m)
      → document_did docs m' ≡ document_did docs m
  unfolding document_did
  document_did-same m m' same = rw (same "id", same "did", same "softDeleted")

  document_did-did_document : (d : StoredDid Doc) → document_did docs (did_document docs d) ≡ ok d
  unfolding document_did did_document lookup
  document_did-did_document d = ground (arith, docs.of_json-to_json d.document)

  found_did-marshal :
      (d : StoredDid Doc)
      → found_did db codec docs (some (codec.marshal (did_document docs d))) ≡ ok d
  unfolding found_did unmarshal_did unmarshal
  found_did-marshal d = ground (
    arith,
    codec.is_empty-marshal (did_document docs d),
    codec.unmarshal-marshal (did_document docs d),
    document_did-same (did_document docs d) (codec.reread (did_document docs d))
        (codec.lookup-reread (did_document docs d)),
    document_did-did_document d,
  )

  -- The namespace of a DID that was stored, and the write.
  pub store_did-eq-ok :
      (d : StoredDid Doc) (s s' : S)
      → store_did db codec docs d s ≡ (ok tt, s')
      → (ns : String) × (namespace_for_did d.id ≡ ok ns)
        × (db.write ns d.id (codec.marshal (did_document docs d)) s ≡ (ok tt, s'))
  unfolding store_did
  store_did-eq-ok d s s' h = elim (Result-cases (namespace_for_did d.id)) [
    | inl (e, p) ↦ absurd (ground arith)
    | inr (ns, p) ↦ (ns, p, ground arith)
  ]

  -- A DID that was stored is read back under its id, with its document and its mark, and every other
  -- DID is read as before. No place of another namespace changes.
  pub get_did-store_did :
      ReadsWrites db
      → (d : StoredDid Doc) (s s' : S) → store_did db codec docs d s ≡ (ok tt, s')
      → ((id : String)
          → get_did db codec docs s' id ≡ (if d.id == id then ok d else get_did db codec docs s id))
        × ((ns k : String) → namespace_for_did d.id ≢ ok ns → db.read s' ns k ≡ db.read s ns k)
  unfolding get_did
  get_did-store_did lawful d s s' h =
      let (ns, p, w) = store_did-eq-ok d s s' h in
      let read = lawful.read-write ns d.id (codec.marshal (did_document docs d)) s s' w in
      (
        λ id. elim (Result-cases (namespace_for_did id)) [
          | inl (e, q) ↦ ground (arith, p, q, eq_iff d.id id)
          | inr (ns', q) ↦
              ground (arith, p, q, read ns' id, eq_iff d.id id, eq_refl ns, found_did-marshal d)
        ],
        λ ns' k other. ground (arith, read ns' k, eq_iff ns ns', p, other),
      )
