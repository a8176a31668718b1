-- ===== src/Tests/Redis.antt =====
-- The theorems on Redis, at a server that is an association list and scans one key at a time.
use mathlib.Core.List.{Memᴰ}
use mathlib.Core.List.Memᴰ
use text.Mathlib.Text.{starts_with}
use ssi_service.Prelude.{
  ℕ, zero, suc, String, ◌≡◌, refl, true, Bool-cases, none, some, List, [], ◌∷◌, Assoc, lookup,
  insert, erase, inl, inr, Result, ok, err, Error, ◌==◌, eq_iff, arith, if◌then◌else◌, eqb, ◌<>◌,
}
use ssi_service.Storage.Redis.{Redis, get_redis_key, without_namespace, fits, read_all_keys}
use ssi_service.Storage.Redis.Scan.{Scans}
use ssi_service.Storage.Redis.Laws.{stored_keys, read_all_keys-Scans, read_all_keys_leaks}
use ssi_service.Storage.Redis.Transaction.{Outcome, Others, Transactions, touched, execute}

abbrev batch : Assoc String → ℕ → List String × ℕ
batch [] c = ([], 0)
batch ((k, v) ∷ []) c = (k ∷ [], 0)
batch ((k, v) ∷ kv ∷ rest) zero = (k ∷ [], 1)
batch ((k, v) ∷ kv ∷ rest) (suc c) =
    let (keys, following) = batch (kv ∷ rest) c in
    (keys, if eqb following 0 then 0 else suc following)

abbrev set_all : Assoc String → Assoc String → Assoc String
set_all [] r = r
set_all ((k, v) ∷ kvs) r = set_all kvs (insert k v r)

abbrev server : Redis (Assoc String) String
server = record {
  get = λ r k. ok (lookup k r);
  set = λ k v r. (ok tt, insert k v r);
  mset = λ kvs r. (ok tt, set_all kvs r);
  mget = λ r ks. ok ks;
  exists = λ r k. ok 1;
  scan = λ r c pattern n. ok (batch r c);
  get_del = λ k r. (ok (lookup k r), erase k r);
  del = λ ks r. (ok tt, r);
  parse_uint = λ s. err Error.invalid;
  format_uint = λ n. "1";
}

abbrev two_keys : Assoc String
two_keys = ("did-key:a", "x") ∷ ("did-key:b", "y") ∷ []

only_keys :
    (k w : String)
    → server.get two_keys k ≡ ok (some w)
    → starts_with k "did-key" ≡ true
    → Memᴰ k (stored_keys "did-key" ("a" ∷ "b" ∷ []))
unfolding lookup stored_keys
only_keys k w h starts = elim (Bool-cases ("did-key:a" == k)) [
  | inl same ↦ Memᴰ.head (ground (arith, eq_iff "did-key:a" k, same))
  | inr other ↦ elim (Bool-cases ("did-key:b" == k)) [
    | inl same ↦ Memᴰ.tail (Memᴰ.head (ground (arith, eq_iff "did-key:b" k, same)))
    | inr another ↦ absurd (ground arith)
  ]
]

scans_example : read_all_keys server 5 two_keys "did-key" ≡ ok ("a" ∷ "b" ∷ [])
unfolding stored_keys
scans_example =
    (read_all_keys-Scans server two_keys "did-key" ("a" ∷ "b" ∷ []) 2 5
      (Scans.next 0 0 ("did-key:a" ∷ []) ("did-key:b" ∷ []) 1 refl
        (Scans.last 1 ("did-key:b" ∷ []) refl))
      only_keys (omega arith)).0

abbrev one_key : Assoc String
one_key = ("manifest_request:1", "x") ∷ []

only_key :
    (k w : String)
    → server.get one_key k ≡ ok (some w)
    → starts_with k "manifest" ≡ true
    → Memᴰ k ("manifest_request:1" ∷ [])
unfolding lookup
only_key k w h starts = elim (Bool-cases ("manifest_request:1" == k)) [
  | inl same ↦ Memᴰ.head (ground (arith, eq_iff "manifest_request:1" k, same))
  | inr other ↦ absurd (ground arith)
]

only_long : (k : String) → Memᴰ k ("manifest_request:1" ∷ []) → fits "manifest" k ≡ true
unfolding fits
only_long k m = elim (Memᴰ.cases_cons m) [
  | inl same ↦ rw same refl
  | inr later ↦ absurd (Memᴰ.not-nil later)
]

leaks_example :
    (keys : List String) × (read_all_keys server 1 one_key "manifest" ≡ ok keys)
    × Memᴰ (without_namespace "manifest" (get_redis_key ("manifest" <> "_request") "1")) keys
unfolding get_redis_key lookup
leaks_example =
    read_all_keys_leaks server one_key "manifest" "_request" "1" "x" ("manifest_request:1" ∷ []) 1 1
      (Scans.last 0 ("manifest_request:1" ∷ []) refl) only_key only_long (omega arith) refl

exec_with : List String → List String → Assoc String → Assoc String → Outcome × Assoc String
exec_with watched others ws r =
    if touched watched others then (Outcome.lost, r) else (Outcome.committed, set_all ws r)

abbrev optimistic_server : Transactions (Assoc String) String
optimistic_server = record { exec = exec_with }

-- The logic writes the number that it read.
abbrev logic : Assoc String → Result (String × (String × String) × Assoc String)
logic r = elim (lookup "list:a" r) [
  | none ↦ err Error.not_found
  | some v ↦ ok (v, ("copy:a", v), [])
]

abbrev interfering : Others (Assoc String)
interfering = record { before = λ r. r; after = insert "list:a" "2"; keys = "list:a" ∷ [] }

abbrev quiet : Others (Assoc String)
quiet = record { before = λ r. r; after = λ r. r; keys = [] }

abbrev lists : Assoc String
lists = ("list:a", "1") ∷ []

abbrev run : Result String × Assoc String
run = execute optimistic_server logic (("list", "a") ∷ []) (interfering ∷ quiet ∷ []) lists
