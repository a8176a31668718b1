-- ===== src/Credential/Indexes.antt =====
-- The indexes that a status list gives out (credential/storage.go).
pub mod Allocation
use ssi_service.Prelude.{
  ℕ, zero, suc, ◌+◌, String, ◌≡◌, Bool, true, false, Option, none, some, List, [], ◌∷◌, ◌++◌,
  lookup, Result, ok, err, Error, Action, then_pure, lift, pure, ◌>>=◌, ◌>>◌, leb, get_elem?,
  if◌then◌else◌,
}
use ssi_service.Json.{Json, Codec}
use ssi_service.Storage.Contract.{ServiceStorage, execute}
use ssi_service.Storage.Update.{unmarshal}
use ssi_service.Credential.Storage.{
  StatusListMetadata, index_pool_namespace, current_index_namespace,
}

abbrev pub bit_string_length : ℕ
bit_string_length = 131072

-- An `int` field; a missing one is zero.
abbrev pub as_int : Option Json → Result ℕ
as_int none = ok 0
as_int (some Json.null) = ok 0
as_int (some (Json.num n)) = ok n
as_int (some _) = err Error.codec

number_at : Option ℕ → Result ℕ
number_at none = err Error.panic
number_at (some n) = ok n

returned : Option Error → Result (Unit {0})
returned none = ok tt
returned (some e) = err e

module _ {Bytes : Type 0} (codec : Codec Bytes) where
  unfoldable pub pool_of : Option Bytes → Result (List ℕ)
  pool_of none = err Error.not_found
  pool_of (some b) =
      if codec.is_empty b
      then err Error.not_found
      else elim (codec.unmarshal_ints b) [ none ↦ err Error.codec | some nums ↦ ok nums ]

  unfoldable pub index_of : Option Bytes → Result ℕ
  index_of v = then_pure (unmarshal codec v) λ m. as_int (lookup "index" m)

module _ {S Bytes : Type 0} (db : ServiceStorage S Bytes) (codec : Codec Bytes) where
  unfoldable pub get_next_status_list_random_index : S → StatusListMetadata → Result ℕ
  unfolding pool_of index_of number_at
  get_next_status_list_random_index s meta =
      then_pure (db.read s index_pool_namespace meta.pool_key) λ pool.
        then_pure (pool_of codec pool) λ nums.
          then_pure (db.read s current_index_namespace meta.index_key)
            λ current. then_pure (index_of codec current) λ i. number_at (get_elem? nums i)

-- `wrap` is the SDK's `LoggingErrorMsg`, on the error or `nil`.
module _ {S Bytes : Type 0} (db : ServiceStorage S Bytes) (codec : Codec Bytes)
    (wrap : Option Error → Option Error) where
  -- Past the end, the error is made of one that is nil.
  unfoldable pub write_next : StatusListMetadata → ℕ → Action S (Unit {0})
  unfolding returned
  write_next meta i =
      if leb bit_string_length (i + 1)
      then lift (returned (wrap none))
      else db.tx_write current_index_namespace meta.index_key
          (codec.marshal (("index", Json.num (i + 1)) ∷ []))

  -- The index is read in the committed store `s`.
  unfoldable pub increment_status_list_index_tx : StatusListMetadata → S → Action S (Unit {0})
  unfolding index_of write_next
  increment_status_list_index_tx meta s = do
    current ← lift (db.read s current_index_namespace meta.index_key)
    i ← lift (index_of codec current)
    write_next meta i

  -- The steps of `createStatusListEntryForCredential` where the list exists.
  unfoldable pub next_index : StatusListMetadata → S → Action S ℕ
  unfolding get_next_status_list_random_index increment_status_list_index_tx
  next_index meta s = do
    n ← lift (get_next_status_list_random_index db codec s meta)
    increment_status_list_index_tx meta s
    pure n

  -- Entries that are made one after the other, each in a transaction of its own.
  unfoldable pub next_indexes : StatusListMetadata → ℕ → Action S (List ℕ)
  unfolding next_index
  next_indexes meta zero = pure []
  next_indexes meta (suc n) = do
    i ← execute db (next_index meta)
    rest ← next_indexes meta n
    pure (i ∷ rest)

-- `randomUniqueNum`: `shuffle` is `rand.Shuffle`.
unfoldable pub up_to : ℕ → List ℕ
up_to zero = []
up_to (suc n) = up_to n ++ ((n + 1) ∷ [])

unfoldable pub random_unique_num : (List ℕ → List ℕ) → ℕ → List ℕ
unfolding up_to
random_unique_num shuffle count = shuffle (up_to count)
