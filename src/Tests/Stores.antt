-- ===== src/Tests/Stores.antt =====
-- The theorems on the stores, at the bbolt in memory.
use ssi_service.Prelude.{
  ℕ, zero, suc, String, ap, List, ◌++◌, length, Result, err, Error, ◌≡◌, refl, some, [], ◌∷◌, Assoc,
  lookup, insert, erase, ok, arith,
}
use ssi_service.Encryption.{
  xchacha-Inverse, xchacha-PassesNil, xchacha_encrypter, xchacha_decrypter,
}
use ssi_service.Encryption.Crypto.{
  Chacha, xchacha_aead, xchacha20_poly1305_encrypt, xchacha_decrypt-encrypt,
}
use ssi_service.Storage.Contract.{transaction}
use ssi_service.Storage.Bolt.{bolt_db, entries, write, read}
use ssi_service.Storage.Bolt.Laws.{bolt_db-IsLawful}
use ssi_service.Storage.Bolt.Pages.{walk, walk-entries}
use ssi_service.Storage.Encrypt.{encrypted_wrapper}
use ssi_service.Storage.Encrypt.Laws.{encrypted_wrapper-IsLawful}
use ssi_service.Storage.Encrypt as Encrypt
use ssi_service.Tests.Cipher.{envelope, sealed}
use ssi_service.Tests.Mem.{mem_bolt, mem_bolt-IsSound}
use ssi_service.Tests.Blob.{Blob, store, store-IsLawful}

-- A file with one namespace of three entries.
abbrev three : Assoc (Assoc Blob)
three = ("keys", ("a", Blob.raw "1") ∷ ("b", Blob.raw "2") ∷ ("c", Blob.raw "3") ∷ []) ∷ []

abbrev three_written : Assoc (Assoc Blob)
three_written =
    ("keys", ("a", Blob.raw "1") ∷ ("b", Blob.raw "new") ∷ ("c", Blob.raw "3") ∷ []) ∷ []

bolt_write_example : read mem_bolt three_written "keys" "b" ≡ ok (some (Blob.raw "new"))
unfolding bolt_db write mem_bolt insert lookup read transaction
bolt_write_example =
    (bolt_db-IsLawful mem_bolt mem_bolt-IsSound).read-write "keys" "b" (Blob.raw "new") three
      three_written refl "keys" "b"

walk-entries_example :
    walk mem_bolt three "keys" 2 4 "" ≡ ok (entries (mem_bolt.bucket three "keys"))
unfolding mem_bolt lookup erase
walk-entries_example = walk-entries mem_bolt mem_bolt-IsSound three "keys" 1 3 (omega arith)

-- The encrypted value of the key `b` is what the wrapped store holds.
abbrev three_sealed : Assoc (Assoc Blob)
three_sealed =
    (
      "keys",
      ("a", Blob.raw "1") ∷ ("b", sealed "secret" (Blob.raw "new")) ∷ ("c", Blob.raw "3") ∷ [],
    )
    ∷ []

encrypted_write_example :
    Encrypt.read store
      (xchacha_encrypter envelope (ok "secret"))
      (xchacha_decrypter envelope (ok "secret"))
      (Blob.raw "")
      three_sealed
      "keys"
      "b"
    ≡ ok (some (Blob.raw "new"))
unfolding encrypted_wrapper Encrypt.write Encrypt.read xchacha_encrypter bolt_db write mem_bolt
    insert lookup transaction
encrypted_write_example =
    (encrypted_wrapper-IsLawful store (xchacha_encrypter envelope (ok "secret"))
        (xchacha_decrypter envelope (ok "secret")) (Blob.raw "") store-IsLawful
        (xchacha-Inverse envelope (ok "secret"))
        (xchacha-PassesNil envelope (ok "secret"))).read-write
      "keys" "b" (Blob.raw "new") three three_sealed refl "keys" "b"

-- A cipher that puts a byte in front, and refuses what starts with 0.
abbrev opened : List ℕ → Result (List ℕ)
opened (suc n ∷ v) = ok v
opened _ = err Error.crypto

abbrev zeros : ℕ → List ℕ
zeros zero = []
zeros (suc n) = 0 ∷ zeros n

length-zeros : (n : ℕ) → length (zeros n) ≡ n
length-zeros zero = refl
length-zeros (suc n) = ap suc (length-zeros n)

nonce_filled : (n : ℕ) (nonce : List ℕ) → Result.ok (zeros n) ≡ ok nonce → length nonce ≡ n
nonce_filled n nonce h = let same : zeros n ≡ nonce = ground arith in rw (← same) (length-zeros n)

abbrev cipher : Chacha String
cipher = record {
  new_x = λ k. ok tt;
  nonce_size = 24;
  random = λ n. ok (zeros n);
  seal = λ k nonce v. 7 ∷ v;
  open_sealed = λ k nonce c. opened c;
  length-random = nonce_filled;
  open-seal = λ k nonce v h. refl;
}

xchacha_example :
    (xchacha_decrypter (xchacha_aead cipher) (ok "secret")).decrypt
      (some (zeros 24 ++ (7 ∷ 1 ∷ 2 ∷ [])))
    ≡ ok (some (1 ∷ 2 ∷ []))
unfolding xchacha_encrypter xchacha_aead xchacha20_poly1305_encrypt
xchacha_example =
    (xchacha_decrypt-encrypt cipher (ok "secret")).0 (1 ∷ 2 ∷ []) (zeros 24 ++ (7 ∷ 1 ∷ 2 ∷ []))
      refl
