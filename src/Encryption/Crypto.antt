-- ===== src/Encryption/Crypto.antt =====
-- internal/util/crypto.go: XChaCha20-Poly1305 with a random nonce in front of the ciphertext.
use ssi_service.Prelude.{
  ℕ, ◌≡◌, refl, ap, true, false, List, [], ◌∷◌, ◌++◌, length, take, drop, length-append, inl, inr,
  ltb, Option, none, some, Result, ok, err, Error, then_pure, arith, Result-cases, if◌then◌else◌,
}
use ssi_service.Encryption.{Aead, xchacha_encrypter, xchacha_decrypter, xchacha-Inverse}

-- golang.org/x/crypto/chacha20poly1305, with slices of bytes as lists, and crypto/rand, which fills a
-- slice of the length that it is given. `Open` undoes `Seal` under the same key and nonce. It gives nil
-- for an empty plaintext, which is the empty list here; those who read it ask for its length.
pub record Chacha (Key : Type 0) : Type 0 where
  pub new_x : Key → Result (Unit {0})
  pub nonce_size : ℕ
  pub random : ℕ → Result (List ℕ)
  pub seal : Key → List ℕ → List ℕ → List ℕ
  pub open_sealed : Key → List ℕ → List ℕ → Result (List ℕ)
  pub length-random : (n : ℕ) (nonce : List ℕ) → random n ≡ ok nonce → length nonce ≡ n
  pub open-seal :
      (k : Key) (nonce v : List ℕ)
      → length nonce ≡ nonce_size
      → open_sealed k nonce (seal k nonce v) ≡ ok v

take-append : (xs ys : List ℕ) → take (length xs) (xs ++ ys) ≡ xs
take-append [] ys = refl
take-append (x ∷ xs) ys = ap (◌∷◌ x) (take-append xs ys)

drop-append : (xs ys : List ℕ) → drop (length xs) (xs ++ ys) ≡ ys
drop-append [] ys = refl
drop-append (x ∷ xs) ys = drop-append xs ys

module _ {Key : Type 0} (cipher : Chacha Key) where
  unfoldable pub xchacha20_poly1305_encrypt : Key → List ℕ → Result (List ℕ)
  xchacha20_poly1305_encrypt key v = then_pure (cipher.new_x key) λ _.
      then_pure (cipher.random cipher.nonce_size) λ nonce. ok (nonce ++ cipher.seal key nonce v)

  -- What is shorter than a nonce is refused.
  unfoldable pub xchacha20_poly1305_decrypt : Key → List ℕ → Result (List ℕ)
  xchacha20_poly1305_decrypt key c = then_pure (cipher.new_x key) λ _.
      if ltb (length c) cipher.nonce_size
      then err Error.crypto
      else cipher.open_sealed key (take cipher.nonce_size c) (drop cipher.nonce_size c)

  xchacha20_poly1305_lem :
      (key : Key) (v c : List ℕ)
      → xchacha20_poly1305_encrypt key v ≡ ok c
      → xchacha20_poly1305_decrypt key c ≡ ok v
  unfolding xchacha20_poly1305_encrypt xchacha20_poly1305_decrypt
  xchacha20_poly1305_lem key v c h = elim (Result-cases (cipher.new_x key)) [
    | inl (e, p) ↦ absurd (ground arith)
    | inr (u, p) ↦ elim (Result-cases (cipher.random cipher.nonce_size)) [
      | inl (e, q) ↦ absurd (ground arith)
      | inr (nonce, q) ↦
          let size = cipher.length-random cipher.nonce_size nonce q in
          let sealed = cipher.seal key nonce v in
          let c_is : nonce ++ sealed ≡ c = ground arith in
          let front : take cipher.nonce_size c ≡ nonce =
            rw (← c_is, ← size) (take-append nonce sealed) in
          let back : drop cipher.nonce_size c ≡ sealed =
            rw (← c_is, ← size) (drop-append nonce sealed) in
          let long : ltb (length c) cipher.nonce_size ≡ false =
            rw (← c_is) (ground (arith, length-append nonce sealed, size)) in
          ground (arith, p, front, back, long, cipher.open-seal key nonce v size)
    ]
  ]

  pub sealed_or_nil : Key → Option (List ℕ) → Result (Option (List ℕ))
  sealed_or_nil key none = then_pure (xchacha20_poly1305_decrypt key []) λ v. ok (some v)
  sealed_or_nil key (some c) = then_pure (xchacha20_poly1305_decrypt key c) λ v. ok (some v)

  pub sealed_or_nil_lem :
      (k : Key) (v c : List ℕ)
      → xchacha20_poly1305_encrypt k v ≡ ok c
      → sealed_or_nil k (some c) ≡ ok (some v)
  unfolding sealed_or_nil
  sealed_or_nil_lem k v c h = ground (arith, xchacha20_poly1305_lem k v c h)

  -- The two functions, as they are given to the encrypter and the decrypter.
  unfoldable pub xchacha_aead : Aead Key (List ℕ)
  unfolding sealed_or_nil
  xchacha_aead = record {
    seal = xchacha20_poly1305_encrypt;
    open_sealed = sealed_or_nil;
    open-seal = sealed_or_nil_lem;
  }

  -- What the XChaCha20-Poly1305 encrypter made of a value, a nonce and the ciphertext behind it, its
  -- decrypter splits and gives back, for each answer of the key resolver; and the decrypter refuses
  -- what is shorter than a nonce.
  pub xchacha_decrypt-encrypt :
      (resolver : Result Key)
      → ((v c : List ℕ)
          → (xchacha_encrypter xchacha_aead resolver).encrypt v ≡ ok c
          → (xchacha_decrypter xchacha_aead resolver).decrypt (some c) ≡ ok (some v))
        × ((c : List ℕ)
            → ltb (length c) cipher.nonce_size ≡ true
            → (e : Error) × ((xchacha_decrypter xchacha_aead resolver).decrypt (some c) ≡ err e))
  unfolding xchacha_decrypter xchacha_aead xchacha20_poly1305_decrypt
  xchacha_decrypt-encrypt resolver = (
    (xchacha-Inverse xchacha_aead resolver).decrypt-encrypt,
    λ c short. elim (Result-cases resolver) [
      | inl (e, p) ↦ (e, ground arith)
      | inr (key, p) ↦ elim (Result-cases (cipher.new_x key)) [
        | inl (e, q) ↦ (e, ground arith)
        | inr (u, q) ↦ (Error.crypto, ground arith)
      ]
    ],
  )
