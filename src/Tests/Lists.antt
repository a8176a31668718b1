-- ===== src/Tests/Lists.antt =====
-- The theorems on status lists, at concrete credentials and pools.
use mathlib.Core.List.{Memᴰ}
use ssi_service.Prelude.{
  ℕ, zero, suc, ◌+◌, ◌<◌, String, ◌≡◌, ◌≢◌, eq_iff, inl, refl, Bool, true, false, Option, none,
  some, List, [], ◌∷◌, Assoc, lookup, insert, erase, Result, ok, err, Error, get_elem?, length,
  arith,
}
use ssi_service.Json.{Json}
use ssi_service.Storage.Contract.{transaction, execute}
use ssi_service.Storage.Bolt.{bolt_db, read, write_func}
use ssi_service.Storage.Update.{unmarshal}
use ssi_service.Credential.Stored.{Credential, StoredCredential, StatusEntry}
use ssi_service.Credential.Storage.{StatusListMetadata}
use ssi_service.Credential.Indexes.{
  next_index, next_indexes, index_of, get_next_status_list_random_index,
  increment_status_list_index_tx, write_next, pool_of,
}
use ssi_service.Credential.Indexes.Allocation.{
  Holds, next_indexes_lem, next_index_repeats, batch_repeats,
}
use ssi_service.Credential.Status.{UpdateRequest, goes_in, listed, others_listed}
use ssi_service.Credential.Status.Listed.{listed-IsMarked, listed_lifted}
use ssi_service.Tests.Mem.{mem_bolt}
use ssi_service.Tests.Blob.{Blob, blobs, store, store-IsLawful}

abbrev keys_of_list : StatusListMetadata
keys_of_list = record { list_key = "list"; pool_key = "list"; index_key = "list" }

abbrev same_error : Option Error → Option Error
same_error e = e

abbrev list_at : List ℕ → ℕ → Assoc (Assoc Blob)
list_at nums i =
    ("status-list-index-pool", ("list", Blob.ints nums) ∷ [])
    ∷ ("status-list-current-index", ("list", Blob.document (("index", Json.num i) ∷ [])) ∷ [])
    ∷ []

list_at-Holds :
    (nums : List ℕ) (i : ℕ) → Holds store blobs same_error keys_of_list nums i (list_at nums i)
unfolding bolt_db read mem_bolt lookup index_of unmarshal erase
list_at-Holds nums i = record {
  pool = Blob.ints nums;
  current = Blob.document (("index", Json.num i) ∷ []);
  read_pool = refl;
  read_current = refl;
  pool_full = refl;
  pool_numbers = refl;
  current_index = refl;
}

abbrev pool : List ℕ
pool = 5 ∷ 3 ∷ 9 ∷ []

abbrev given_two : List ℕ
given_two = 3 ∷ 9 ∷ []

next_indexes_example :
    (length given_two ≡ 2)
    × ((j : ℕ) → j < 2 → get_elem? given_two j ≡ get_elem? pool (1 + j))
    × Holds store blobs same_error keys_of_list pool 3
        (next_indexes store blobs same_error keys_of_list 2 (list_at pool 1)).1
unfolding next_indexes next_index get_next_status_list_random_index increment_status_list_index_tx
    write_next pool_of index_of execute transaction bolt_db read write_func mem_bolt lookup insert
    erase unmarshal
next_indexes_example =
    next_indexes_lem store blobs same_error keys_of_list store-IsLawful pool 2 1 given_two
      (list_at pool 1) (next_indexes store blobs same_error keys_of_list 2 (list_at pool 1)).1
      (list_at-Holds pool 1) (omega arith) refl

abbrev number : Result ℕ × Assoc (Assoc Blob) → ℕ
number (ok n, s) = n
number (err e, s) = 0

-- The first entry of a batch, and the second, after the first has written the index.
abbrev first : Result ℕ × Assoc (Assoc Blob)
first = next_index store blobs same_error keys_of_list (list_at pool 1) (list_at pool 1)

abbrev second : Result ℕ × Assoc (Assoc Blob)
second = next_index store blobs same_error keys_of_list (list_at pool 1) (list_at pool 2)

batch_example : number first ≡ number second
unfolding next_index get_next_status_list_random_index increment_status_list_index_tx write_next
    pool_of index_of bolt_db read write_func mem_bolt lookup insert erase unmarshal
batch_example =
    batch_repeats store blobs same_error keys_of_list pool 1 (number first) (number second)
      (list_at pool 1) (list_at pool 1) (list_at pool 2) (list_at pool 2) (list_at-Holds pool 1)
      refl refl

sevens : ℕ → List ℕ
sevens zero = []
sevens (suc n) = 7 ∷ sevens n

get_elem-sevens : (n i : ℕ) → i < n → get_elem? (sevens n) i ≡ some 7
unfolding sevens
get_elem-sevens zero i l = absurd (omega arith)
get_elem-sevens (suc n) zero l = refl
get_elem-sevens (suc n) (suc i) l = get_elem-sevens n i (omega arith)

repeats_example :
    next_index store blobs same_error keys_of_list
      (list_at (sevens 131072) 131071)
      (list_at (sevens 131072) 131071)
    ≡ (ok 7, list_at (sevens 131072) 131071)
repeats_example =
    next_index_repeats store blobs same_error keys_of_list (sevens 131072) 131071 7
      (list_at (sevens 131072) 131071) (list_at (sevens 131072) 131071)
      (list_at-Holds (sevens 131072) 131071) (omega arith)
      (get_elem-sevens 131072 131071 (omega arith)) refl

abbrev entry : StatusEntry
entry = record { purpose = "revocation"; list_index = 1; list_credential = "list" }

abbrev credential : String → Credential
credential id = record {
  id = id;
  issuer = "did:key:i";
  subject = "did:key:s";
  schema = none;
  issuance_date = "";
  has_proof = true;
  status = some entry;
}

abbrev stored : String → Bool → StoredCredential
stored id revoked = record {
  key = id;
  local_id = id;
  credential = some (credential id);
  jwt = none;
  issuer = "did:key:i";
  verification_method = "";
  subject = "did:key:s";
  schema = "";
  issuance_date = "";
  revoked = revoked;
  suspended = false;
}

b_differs : ◌≢◌ {A = String} "b" "a"
b_differs p = let same : false ≡ true = (eq_iff "b" "a").1 p in ground arith

-- Revoking the first of three credentials, of which the second is revoked.
marked_example : Memᴰ (credential "b") (credential "b" ∷ credential "a" ∷ [])
unfolding listed others_listed goes_in
marked_example =
    (listed-IsMarked (record { id = "a"; revoked = true; suspended = false }) (credential "a")
        (stored "a" false ∷ stored "b" true ∷ stored "c" false ∷ [])
        (credential "b" ∷ credential "a" ∷ []) refl refl).1
      (stored "b" true) (credential "b") (Memᴰ.tail (Memᴰ.head refl))
      (refl, b_differs, (entry, refl), inl (refl, refl))

-- Lifting the revocation of the first, when the second stays revoked.
abbrev lifting : UpdateRequest
lifting = record { id = "a"; revoked = false; suspended = false }

abbrev found : List StoredCredential
found = stored "a" true ∷ stored "b" true ∷ []

abbrev list_of : Result (List Credential) → List Credential
list_of (ok l) = l
list_of (err e) = []

lifted_example : list_of (listed lifting (credential "a") found) ≡ []
unfolding listed others_listed goes_in
lifted_example =
    listed_lifted lifting (credential "a") found (list_of (listed lifting (credential "a") found))
      refl refl refl
