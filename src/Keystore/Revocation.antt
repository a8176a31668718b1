-- ===== src/Keystore/Revocation.antt =====
-- What storing and revoking a key does to what is read and signed.
use ssi_service.Prelude.{
  String, ◌≡◌, refl, true, false, some, inl, inr, lookup, ok, err, Error, ◌==◌, eq_refl, eq_iff,
  then_pure, arith, Bool-cases, Run-cases, Result-cases, if◌then◌else◌,
}
use ssi_service.Json.{Json, Document, Codec}
use ssi_service.Encryption.{Encrypter, Decrypter, Inverse}
use ssi_service.Storage.Contract.{ServiceStorage, IsLawful, ReadsWrites, lawful-ReadsWrites}
use ssi_service.Storage.Update.{unmarshal}
use ssi_service.Keystore.{
  StoredKey, Keys, key_namespace, public_key_namespace, key_document, document_key, as_revoked,
  private_of, store_key, decrypted, stored_key, revoke_key, get_key, sign,
}

module _ {S Bytes Priv Jwk : Type 0} (db : ServiceStorage S Bytes) (codec : Codec Bytes)
    (e : Encrypter Bytes) (d : Decrypter Bytes) (keys : Keys Bytes Priv Jwk) where
  key_document-same :
      (m m' : Document)
      → ((k : String) → lookup k m' ≡ lookup k m)
      → document_key m' ≡ document_key m
  unfolding document_key
  key_document-same m m' same = rw (
    same "id",
    same "controller",
    same "keyType",
    same "key",
    same "revoked",
    same "revokedAt",
    same "createdAt",
  )

  document_key-key_document : (k : StoredKey) → document_key (key_document k) ≡ ok k
  unfolding document_key key_document lookup
  document_key-key_document k = refl

  unmarshal-key_document :
      (k : StoredKey)
      → then_pure (unmarshal codec (some (codec.marshal (key_document k)))) document_key ≡ ok k
  unfolding unmarshal
  unmarshal-key_document k = ground (
    arith,
    codec.unmarshal-marshal (key_document k),
    key_document-same (key_document k) (codec.reread (key_document k))
        (codec.lookup-reread (key_document k)),
    document_key-key_document k,
  )

  -- What a successful `store_key` has computed and written.
  store_key-eq-ok :
      (k : StoredKey) (s s' : S)
      → store_key db codec e d keys k s ≡ (ok tt, s')
      → (secret : Priv) × (jwk : Jwk) × (c : Bytes) × (t : S) × (private_of db codec e d keys k
          ≡ ok secret)
        × (db.write public_key_namespace k.id (codec.marshal (keys.jwk_document jwk)) s
            ≡ (ok tt, t))
        × (e.encrypt (codec.marshal (key_document k)) ≡ ok c)
        × (db.write key_namespace k.id c t ≡ (ok tt, s'))
  unfolding store_key
  store_key-eq-ok k s s' h = elim (Bool-cases (k.id == "")) [
    | inl no_id ↦ absurd (ground arith)
    | inr has_id ↦ elim (Result-cases (private_of db codec e d keys k)) [
      | inl (x, p) ↦ absurd (ground arith)
      | inr (secret, p) ↦ elim (Result-cases (keys.to_public_jwk k.id secret)) [
        | inl (x, q) ↦ absurd (ground arith)
        | inr (jwk, q) ↦
            elim (Run-cases
              (db.write public_key_namespace k.id (codec.marshal (keys.jwk_document jwk)) s)) [
                | inl (x, t, w) ↦ absurd (ground arith)
                | inr (u, t, w) ↦ elim (Result-cases (e.encrypt (codec.marshal (key_document k)))) [
                  | inl (x, z) ↦ absurd (ground arith)
                  | inr (c, z) ↦ (secret, jwk, c, t, p, w, z, ground arith)
                ]
              ]
      ]
    ]
  ]

  sign_revoked :
      (s : S) (id : String) (k : StoredKey) (secret : Priv) (payload : Json)
      → stored_key db codec e d keys s id ≡ ok k
      → private_of db codec e d keys k ≡ ok secret
      → k.revoked ≡ true
      → sign db codec e d keys s id payload ≡ err Error.revoked
  unfolding sign get_key
  sign_revoked s id k secret payload found p gone = ground (arith, found, p, gone)

  module _ (reads : ReadsWrites db) (inverse : Inverse e d)
      (full : (v c : Bytes) → e.encrypt v ≡ ok c → codec.is_empty c ≡ false) where
    decrypted_lem :
        (k : StoredKey) (c : Bytes)
        → e.encrypt (codec.marshal (key_document k)) ≡ ok c
        → decrypted db codec e d keys (some c) ≡ ok k
    unfolding decrypted
    decrypted_lem k c z = ground (
      arith,
      full (codec.marshal (key_document k)) c z,
      inverse.decrypt-encrypt (codec.marshal (key_document k)) c z,
      unmarshal-key_document k,
    )

    -- The same through any handle. No place of another namespace changes.
    pub stored_key-written :
        (k : StoredKey) (s s' : S)
        → store_key db codec e d keys k s ≡ (ok tt, s')
        → ((id : String)
            → stored_key db codec e d keys s' id
              ≡ (if k.id == id then ok k else stored_key db codec e d keys s id))
          × ((ns id : String)
              → (key_namespace == ns) ≡ false
              → (public_key_namespace == ns) ≡ false
              → db.read s' ns id ≡ db.read s ns id)
    unfolding stored_key
    stored_key-written k s s' h =
        let (secret, jwk, c, t, p, w, z, v) = store_key-eq-ok k s s' h in
        let second = reads.read-write key_namespace k.id c t s' v in
        let first =
          reads.read-write public_key_namespace k.id (codec.marshal (keys.jwk_document jwk)) s t
            w in
        (
          λ id. ground (
            arith,
            second key_namespace id,
            first key_namespace id,
            decrypted_lem k c z,
            eq_iff k.id id,
          ),
          λ ns id other public. ground (arith, second ns id, first ns id),
        )

  module _ (lawful : IsLawful db) (inverse : Inverse e d)
      (full : (v c : Bytes) → e.encrypt v ≡ ok c → codec.is_empty c ≡ false) where
    -- A key that was stored is read back, with every field, and no other key changes. An encrypted
    -- value is not empty.
    pub stored_key-store_key :
        (k : StoredKey) (s s' : S)
        → store_key db codec e d keys k s ≡ (ok tt, s')
        → (id : String)
        → stored_key db codec e d keys s' id
          ≡ (if k.id == id then ok k else stored_key db codec e d keys s id)
    stored_key-store_key k s s' h =
        (stored_key-written (lawful-ReadsWrites lawful) inverse full k s s' h).0

    pub revoke_key_lem :
        (now id : String) (k : StoredKey) (s s' : S)
        → stored_key db codec e d keys s id ≡ ok k
        → k.id ≡ id
        → revoke_key db codec e d keys now id s ≡ (ok tt, s')
        → (stored_key db codec e d keys s' id ≡ ok (as_revoked now k))
          × ((payload : Json) → sign db codec e d keys s' id payload ≡ err Error.revoked)
          × ((other : String)
              → (id == other) ≡ false
              → stored_key db codec e d keys s' other ≡ stored_key db codec e d keys s other)
    unfolding revoke_key as_revoked
    revoke_key_lem now id k s s' found same h =
        let stored : store_key db codec e d keys (as_revoked now k) s ≡ (ok tt, s') =
          ground (arith, found) in
        let after = stored_key-store_key (as_revoked now k) s s' stored in
        let (secret, jwk, c, t, p, _, _, _) = store_key-eq-ok (as_revoked now k) s s' stored in
        let read : stored_key db codec e d keys s' id ≡ ok (as_revoked now k) =
          ground (arith, after id, same, eq_refl id) in
        (
          read,
          λ payload. sign_revoked s' id (as_revoked now k) secret payload read p refl,
          λ other differs. ground (arith, after other, same, differs),
        )
