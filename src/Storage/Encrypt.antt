-- ===== src/Storage/Encrypt.antt =====
-- pkg/storage/encrypt.go: a store that encrypts the values on their way into another one. Names
-- and keys stay in clear.
pub mod Laws
use ssi_service.Prelude.{
  String, Option, none, some, List, [], ◌∷◌, Assoc, insert, Result, ok, err, Error, Action,
  then_pure, lift, fail, pure, ◌>>=◌, ℕ,
}
use ssi_service.Encryption.{Encrypter, Decrypter}
use ssi_service.Storage.Contract.{ServiceStorage}

module _ {S Bytes : Type 0} (s : ServiceStorage S Bytes) (e : Encrypter Bytes) (d : Decrypter Bytes)
    (empty : Bytes) where
  unfoldable pub write : String → String → Bytes → Action S (Unit {0})
  write ns k v = do c ← lift (e.encrypt v); s.write ns k c

  unfoldable pub encrypt_all : List Bytes → Result (List Bytes)
  encrypt_all [] = ok []
  encrypt_all (v ∷ vs) = then_pure (e.encrypt v) λ c. then_pure (encrypt_all vs) λ cs. ok (c ∷ cs)

  unfoldable pub write_many : List String → List String → List Bytes → Action S (Unit {0})
  write_many ns ks vs = do cs ← lift (encrypt_all vs); s.write_many ns ks cs

  unfoldable pub read : S → String → String → Result (Option Bytes)
  read db ns k = then_pure (s.read db ns k) d.decrypt

  -- A nil slice in a map reads as the empty one.
  slice : Option Bytes → Bytes
  slice none = empty
  slice (some v) = v

  -- The loop of `decryptMap`, from a map that is filled.
  unfoldable pub decrypt_into : Assoc Bytes → Assoc Bytes → Result (Assoc Bytes)
  unfolding slice
  decrypt_into [] result = ok result
  decrypt_into ((k, c) ∷ rest) result =
      then_pure (d.decrypt (some c)) λ v. decrypt_into rest (insert k (slice v) result)

  unfoldable pub decrypt_map : Assoc Bytes → Result (Assoc Bytes)
  unfolding decrypt_into
  decrypt_map m = decrypt_into m []

  unfoldable pub read_all : S → String → Result (Assoc Bytes)
  unfolding decrypt_map
  read_all db ns = then_pure (s.read_all db ns) decrypt_map

  unfoldable pub read_page : S → String → String → Option ℕ → Result (Assoc Bytes × String)
  unfolding decrypt_map
  read_page db ns token size =
      then_pure (s.read_page db ns token size) λ p. then_pure (decrypt_map p.0) λ m. ok (m, p.1)

  unfoldable pub read_prefix : S → String → String → Result (Assoc Bytes)
  unfolding decrypt_map
  read_prefix db ns prefix = then_pure (s.read_prefix db ns prefix) decrypt_map

  -- `encryptedTx`
  unfoldable pub tx_write : String → String → Bytes → Action S (Unit {0})
  tx_write ns k v = do c ← lift (e.encrypt v); s.tx_write ns k c

  -- The `ServiceStorage` that `EncryptedWrapper` is.
  unfoldable pub encrypted_wrapper : ServiceStorage S Bytes
  encrypted_wrapper = record {
    read = read;
    exists = s.exists;
    read_all = read_all;
    read_page = read_page;
    read_prefix = read_prefix;
    read_all_keys = s.read_all_keys;
    write = write;
    write_many = write_many;
    delete = s.delete;
    delete_namespace = s.delete_namespace;
    begin = s.begin;
    tx_write = tx_write;
    commit = s.commit;
  }
