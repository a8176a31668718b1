-- ===== src/Storage/Encrypt/Laws.antt =====
-- The encrypting store keeps the contract of the store that it wraps.
use ssi_service.Prelude.{
  String, ◌≡◌, ap, ◌∙◌, Bool, true, false, Option, none, some, inl, inr, Result, ok, err, Error,
  then_pure, arith, Result-cases, if◌then◌else◌,
}
use ssi_service.Encryption.{Encrypter, Decrypter, Inverse, PassesNil}
use ssi_service.Storage.Contract.{ServiceStorage, IsLawful, same_place}
use ssi_service.Storage.Encrypt.{write, read, tx_write, encrypted_wrapper}

module _ {S Bytes : Type 0} (s : ServiceStorage S Bytes) (e : Encrypter Bytes) (d : Decrypter Bytes)
    (empty : Bytes) where
  module _ (lawful : IsLawful s) (inverse : Inverse e d) (nil : PassesNil d) where
    -- What the wrapped store reads, decrypted, where it holds an encrypted value or reads as before.
    decrypt_place :
        (b : Bool) (v c : Bytes) (old now : Result (Option Bytes))
        → e.encrypt v ≡ ok c
        → now ≡ (if b then ok (some c) else old)
        → then_pure now d.decrypt ≡ (if b then ok (some v) else then_pure old d.decrypt)
    decrypt_place true v c old now p h =
        ap (λ r. then_pure r d.decrypt) h ∙ inverse.decrypt-encrypt v c p
    decrypt_place false v c old now p h = ap (λ r. then_pure r d.decrypt) h

    encrypted_write :
        (ns k : String) (v : Bytes) (t t' : S)
        → write s e d empty ns k v t ≡ (ok tt, t')
        → (ns' k' : String)
        → read s e d empty t' ns' k'
          ≡ (if same_place ns k ns' k' then ok (some v) else read s e d empty t ns' k')
    unfolding write read
    encrypted_write ns k v t t' h ns' k' = elim (Result-cases (e.encrypt v)) [
      | inl (x, p) ↦ absurd (ground arith)
      | inr (c, p) ↦
          decrypt_place (same_place ns k ns' k') v c (s.read t ns' k') (s.read t' ns' k') p
            (lawful.read-write ns k c t t' (ground arith) ns' k')
    ]

    encrypted_tx_write :
        (ns k : String) (v : Bytes) (t t' : S)
        → tx_write s e d empty ns k v t ≡ (ok tt, t')
        → (ns' k' : String)
        → read s e d empty t' ns' k'
          ≡ (if same_place ns k ns' k' then ok (some v) else read s e d empty t ns' k')
    unfolding tx_write read
    encrypted_tx_write ns k v t t' h ns' k' = elim (Result-cases (e.encrypt v)) [
      | inl (x, p) ↦ absurd (ground arith)
      | inr (c, p) ↦
          decrypt_place (same_place ns k ns' k') v c (s.read t ns' k') (s.read t' ns' k') p
            (lawful.read-tx_write ns k c t t' (ground arith) ns' k')
    ]

    encrypted_write_fails :
        (ns k : String) (v : Bytes) (t t' : S) (x : Error)
        → write s e d empty ns k v t ≡ (err x, t')
        → t' ≡ t
    unfolding write
    encrypted_write_fails ns k v t t' x h = elim (Result-cases (e.encrypt v)) [
      | inl (y, p) ↦ ground arith
      | inr (c, p) ↦ lawful.write_fails ns k c t t' x (ground arith)
    ]

    encrypted_delete :
        (ns k : String) (t t' : S)
        → s.delete ns k t ≡ (ok tt, t')
        → (ns' k' : String)
        → read s e d empty t' ns' k'
          ≡ (if same_place ns k ns' k' then ok none else read s e d empty t ns' k')
    unfolding read
    encrypted_delete ns k t t' h ns' k' =
        decrypt_missing (same_place ns k ns' k') _ _ (lawful.read-delete ns k t t' h ns' k')
      where
        decrypt_missing :
            (b : Bool) (now old : Result (Option Bytes))
            → now ≡ (if b then ok none else old)
            → then_pure now d.decrypt ≡ (if b then ok none else then_pure old d.decrypt)
        decrypt_missing true now old h = ap (λ r. then_pure r d.decrypt) h ∙ nil
        decrypt_missing false now old h = ap (λ r. then_pure r d.decrypt) h

    -- Around a store that keeps the contract of `ServiceStorage`, and with a pair of ciphers that
    -- are inverse and pass a nil slice on, `EncryptedWrapper` keeps that contract too: its clients
    -- see plain values.
    pub encrypted_wrapper-IsLawful : IsLawful (encrypted_wrapper s e d empty)
    unfolding encrypted_wrapper read
    encrypted_wrapper-IsLawful = record {
      read-write = encrypted_write;
      write_fails = encrypted_write_fails;
      read-delete = encrypted_delete;
      delete_fails = lawful.delete_fails;
      read-begin = λ t t' b ns k. ap (λ r. then_pure r d.decrypt) (lawful.read-begin t t' b ns k);
      read-tx_write = encrypted_tx_write;
      read-commit = λ t t' c ns k. ap (λ r. then_pure r d.decrypt) (lawful.read-commit t t' c ns k);
    }
