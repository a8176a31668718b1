-- ===== src/Keystore/ServiceKey/Laws.antt =====
-- The key of the service is made once and kept.
use ssi_service.Prelude.{
  String, ◌≡◌, ◌⊎◌, refl, ◌∙◌, ap, ◌≢◌, some, inl, inr, lookup, Result, ok, err, Error, eq_refl,
  arith, Result-cases,
}
use ssi_service.Json.{Codec}
use ssi_service.Encryption.{Aead, xchacha_encrypter, xchacha_decrypter, xchacha-Inverse, Inverse}
use ssi_service.Storage.Contract.{ServiceStorage, IsLawful, execute, transaction-eq-ok}
use ssi_service.Storage.Update.{unmarshal}
use ssi_service.Keystore.ServiceKey.{
  service_key_document, document_service_key, store_service_key, found_key, get_service_key,
  create_if_absent, ensure_encryption_key_exists,
}

module _ {S Bytes Key : Type 0} (db : ServiceStorage S Bytes) (codec : Codec Bytes)
    (decode : String → Result Key) (namespace name : String) where
  found_key-marshal :
      (k : String)
      → found_key db codec decode namespace name (some (codec.marshal (service_key_document k)))
        ≡ decode k
  unfolding found_key unmarshal document_service_key service_key_document lookup
  found_key-marshal k = ground (
    arith,
    codec.is_empty-marshal (service_key_document k),
    codec.unmarshal-marshal (service_key_document k),
    codec.lookup-reread (service_key_document k) "Base58Key",
    codec.lookup-reread (service_key_document k) "Base58Salt",
  )

  get_service_key_same :
      (s s' : S)
      → db.read s' namespace name ≡ db.read s namespace name
      → get_service_key db codec decode namespace name s'
        ≡ get_service_key db codec decode namespace name s
  unfolding get_service_key
  get_service_key_same s s' same = rw same

  get_service_key-store_service_key :
      IsLawful db
      → (k : String) (s s' : S) → store_service_key db codec decode namespace name k s ≡ (ok tt, s')
      → get_service_key db codec decode namespace name s' ≡ decode k
  unfolding get_service_key store_service_key
  get_service_key-store_service_key lawful k s s' h = ground (
    arith,
    lawful.read-tx_write namespace name (codec.marshal (service_key_document k)) s s' h namespace
        name,
    eq_refl namespace,
    eq_refl name,
    found_key-marshal k,
  )

  create_if_absent-eq-ok :
      (generated : Result String) (r : Result Key) (t t' : S)
      → create_if_absent db codec decode namespace name generated r t ≡ (ok tt, t')
      → (((k : Key) × (r ≡ ok k)) × (t' ≡ t))
        ⊎ ((r ≡ err Error.not_found)
            × (k : String) × (generated ≡ ok k)
            × (store_service_key db codec decode namespace name k t ≡ (ok tt, t')))
  unfolding create_if_absent
  create_if_absent-eq-ok generated (ok k) t t' h = inl ((k, refl), ground arith)
  create_if_absent-eq-ok generated (err Error.not_found) t t' h = elim (Result-cases generated) [
    | inl (x, p) ↦ absurd (ground arith)
    | inr (k, p) ↦ inr (refl, k, p, ground arith)
  ]
  create_if_absent-eq-ok generated (err _) t t' h = absurd (ground arith)

  -- Ensuring that there is a key keeps one that can be read, and makes the generated one where there is
  -- none.
  ensured :
      IsLawful db
      → (generated : Result String) (s s' : S)
      → ensure_encryption_key_exists db codec decode namespace name "" generated s ≡ (ok tt, s')
      → (((k : Key) × (get_service_key db codec decode namespace name s ≡ ok k))
          × (get_service_key db codec decode namespace name s'
              ≡ get_service_key db codec decode namespace name s))
        ⊎ ((k : String) × (generated ≡ ok k)
            × (get_service_key db codec decode namespace name s ≡ err Error.not_found)
            × (get_service_key db codec decode namespace name s' ≡ decode k))
  unfolding ensure_encryption_key_exists execute create_if_absent
  ensured lawful generated s s' h =
      let logic = λ (s : S).
        create_if_absent db codec decode namespace name generated
          (get_service_key db codec decode namespace name s) in
      let (t, t', begun, ran, committed) =
        transaction-eq-ok db.begin db.commit logic s tt s' (ground arith) in
      let same = get_service_key_same t' s' (lawful.read-commit t' s' committed namespace name) in
      elim (create_if_absent-eq-ok generated (get_service_key db codec decode namespace name s) t t'
        ran) [
          | inl (found, unchanged) ↦ inl (
            found,
            (same
                ∙ ap (get_service_key db codec decode namespace name) unchanged
                ∙ get_service_key_same s t (lawful.read-begin s t begun namespace name)),
          )
          | inr (absent, k, made, stored) ↦
              inr (k, made, absent, same ∙ get_service_key-store_service_key lawful k t t' stored)
        ]

  readable :
      IsLawful db
      → (first : Result String) (s s1 : S)
      → ((k : String) → first ≡ ok k → (key : Key) × (decode k ≡ ok key))
      → ensure_encryption_key_exists db codec decode namespace name "" first s ≡ (ok tt, s1)
      → get_service_key db codec decode namespace name s1 ≢ err Error.not_found
  readable lawful first s s1 decodes h gone = elim (ensured lawful first s s1 h) [
    | inl ((k, found), same) ↦ ground (arith, same, found, gone)
    | inr (k, made, _, after) ↦ let (key, p) = decodes k made in ground (arith, after, p, gone)
  ]

  -- Whatever key a second start of the service would generate, it keeps the key that a first one left, if
  -- that one can be read, so that it decrypts what was encrypted after the first start. A generated
  -- key can be decoded.
  pub service_key_kept :
      IsLawful db
      → (aead : Aead Key Bytes) (first second : Result String) (s s1 s2 : S)
      → ((k : String) → first ≡ ok k → (key : Key) × (decode k ≡ ok key))
      → ensure_encryption_key_exists db codec decode namespace name "" first s ≡ (ok tt, s1)
      → ensure_encryption_key_exists db codec decode namespace name "" second s1 ≡ (ok tt, s2)
      → (get_service_key db codec decode namespace name s2
          ≡ get_service_key db codec decode namespace name s1)
        × Inverse
            (xchacha_encrypter aead (get_service_key db codec decode namespace name s1))
            (xchacha_decrypter aead (get_service_key db codec decode namespace name s2))
  service_key_kept lawful aead first second s s1 s2 decodes h1 h2 =
      let kept : get_service_key db codec decode namespace name s2
          ≡ get_service_key db codec decode namespace name s1 =
        elim (ensured lawful second s1 s2 h2) [
          | inl (_, same) ↦ same
          | inr (k, _, gone, _) ↦ absurd (readable lawful first s s1 decodes h1 gone)
        ] in
      (kept, rw kept (xchacha-Inverse aead (get_service_key db codec decode namespace name s1)))
