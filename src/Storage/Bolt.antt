-- ===== src/Storage/Bolt.antt =====
-- pkg/storage/bolt.go over the bbolt library.
pub mod Laws
pub mod Pages
use ssi_service.Prelude.{
  ℕ, String, ◌≡◌, Bool, true, false, ◌&&◌, not, Option, none, some, List, [], ◌∷◌, ◌++◌, Assoc,
  lookup, insert, length, Result, ok, err, Error, Action, ◌>>◌, pure, fail, ◌==◌, eqb, ltb,
  if◌then◌else◌,
}
use ssi_service.Storage.Contract.{ServiceStorage, transaction}
use text.Mathlib.Text.{starts_with}

-- go.etcd.io/bbolt and encoding/base64. `D` is the content of the file, also seen through a
-- transaction. A bucket is given by its entries in the order of a cursor.
pub record Bbolt (D Bytes : Type 0) : Type 0 where
  pub bucket : D → String → Option (Assoc Bytes)
  pub create_bucket : String → Action D (Unit {0})
  pub put : String → String → Bytes → Action D (Unit {0})
  pub remove : String → String → Action D (Unit {0})
  pub delete_bucket : String → Action D (Unit {0})
  pub seek : String → Assoc Bytes → Assoc Bytes
  pub begin : Action D (Unit {0})
  pub commit : Action D (Unit {0})
  pub encode : String → String
  pub decode : String → Option String

abbrev pub entries {ℓ} : {V : Type ℓ} → Option (Assoc V) → Assoc V
entries none = []
entries (some b) = b

-- The keys are distinct, and none is empty.
abbrev pub HasKeys : {V : Type 0} → Assoc V → Type 0
HasKeys [] = Unit {0}
HasKeys ((k, v) ∷ rest) = ((k == "") ≡ false) × (lookup k rest ≡ none) × HasKeys rest

-- What the package relies on.
pub record IsSound {D Bytes : Type 0} (lib : Bbolt D Bytes) : Type 0 where
  pub bucket-create_bucket :
      (ns : String) (d d' : D)
      → lib.create_bucket ns d ≡ (ok tt, d')
      → (ns' : String)
      → lib.bucket d' ns'
        ≡ (if ns == ns' then some (entries (lib.bucket d ns)) else lib.bucket d ns')
  pub bucket-put :
      (ns k : String) (v : Bytes) (d d' : D)
      → lib.put ns k v d ≡ (ok tt, d')
      → (k' : String)
      → lookup k' (entries (lib.bucket d' ns))
        ≡ (if k == k' then some v else lookup k' (entries (lib.bucket d ns)))
  pub bucket-put_ne :
      (ns k : String) (v : Bytes) (d d' : D)
      → lib.put ns k v d ≡ (ok tt, d')
      → (ns' : String) → (ns == ns') ≡ false
      → lib.bucket d' ns' ≡ lib.bucket d ns'
  pub bucket-remove :
      (ns k : String) (d d' : D)
      → lib.remove ns k d ≡ (ok tt, d')
      → (k' : String)
      → lookup k' (entries (lib.bucket d' ns))
        ≡ (if k == k' then none else lookup k' (entries (lib.bucket d ns)))
  pub bucket-remove_ne :
      (ns k : String) (d d' : D)
      → lib.remove ns k d ≡ (ok tt, d')
      → (ns' : String) → (ns == ns') ≡ false
      → lib.bucket d' ns' ≡ lib.bucket d ns'
  pub bucket-begin : (d t : D) → lib.begin d ≡ (ok tt, t) → lib.bucket t ≡ lib.bucket d
  pub bucket-commit : (t d : D) → lib.commit t ≡ (ok tt, d) → lib.bucket d ≡ lib.bucket t
  pub bucket-HasKeys : (d : D) (ns : String) → HasKeys (entries (lib.bucket d ns))
  pub seek-append :
      (d : D) (ns : String) (xs ys : Assoc Bytes) (k : String) (v : Bytes)
      → entries (lib.bucket d ns) ≡ xs ++ (k, v) ∷ ys
      → lib.seek k (entries (lib.bucket d ns)) ≡ (k, v) ∷ ys
  pub decode-encode : (k : String) → lib.decode (lib.encode k) ≡ some k
  pub encode_nil : lib.encode "" ≡ ""
  pub encode_cons : (k : String) → (k == "") ≡ false → (lib.encode k == "") ≡ false

-- `result[string(k)] = v` along a cursor
abbrev pub collect {ℓ} : {V : Type ℓ} → Assoc V → Assoc V → Assoc V
collect [] result = result
collect ((k, v) ∷ rest) result = collect rest (insert k v result)

abbrev pub keys {ℓ} : {V : Type ℓ} → Assoc V → List String
keys [] = []
keys ((k, v) ∷ rest) = k ∷ keys rest

-- The loop of `ReadPrefix`.
unfoldable pub prefix_loop {ℓ} : {V : Type ℓ} → String → Assoc V → Assoc V → Assoc V
prefix_loop prefix [] result = result
prefix_loop prefix ((k, v) ∷ rest) result =
    let next = prefix_loop prefix rest (insert k v result) in
    if starts_with k prefix then next else result

-- The key under the cursor, "" at the end.
abbrev pub cursor_key {ℓ} : {V : Type ℓ} → Assoc V → String
cursor_key [] = ""
cursor_key ((k, v) ∷ rest) = k

abbrev pub wants_more : Option ℕ → ℕ → Bool
wants_more none n = true
wants_more (some size) n = ltb n size

-- The loop of `ReadPage` from the cursor's position: the results, and the key to go on from.
unfoldable pub page_loop {ℓ} :
    {V : Type ℓ} → Option ℕ → Assoc V → Assoc V → String → Assoc V × String
page_loop size [] result next = (result, next)
page_loop size ((k, v) ∷ rest) result next =
    let more = page_loop size rest (insert k v result) (cursor_key rest) in
    if wants_more size (length result) then more else (result, next)

module _ {D Bytes : Type 0} (lib : Bbolt D Bytes) where
  unfoldable pub read : D → String → String → Result (Option Bytes)
  read d ns k = elim (lib.bucket d ns) [ none ↦ ok none | some b ↦ ok (lookup k b) ]

  unfoldable pub exists : D → String → String → Result Bool
  exists d ns k = elim (lib.bucket d ns) [
    | none ↦ ok false
    | some b ↦ elim (lookup k b) [ none ↦ ok false | some v ↦ ok true ]
  ]

  unfoldable pub read_all : D → String → Result (Assoc Bytes)
  read_all d ns = ok (collect (entries (lib.bucket d ns)) [])

  unfoldable pub read_all_keys : D → String → Result (List String)
  read_all_keys d ns = ok (keys (entries (lib.bucket d ns)))

  unfoldable pub read_prefix : D → String → String → Result (Assoc Bytes)
  unfolding prefix_loop
  read_prefix d ns prefix = elim (lib.bucket d ns) [
    | none ↦ ok []
    | some b ↦ ok (prefix_loop prefix (lib.seek prefix b) [])
  ]

  -- `cursor.Seek` or `cursor.First`
  unfoldable pub position : String → Assoc Bytes → Result (Assoc Bytes)
  position token b =
      if token == ""
      then ok b
      else elim (lib.decode token) [ none ↦ err Error.codec | some k ↦ ok (lib.seek k b) ]

  page_at : Option ℕ → Result (Assoc Bytes) → Result (Assoc Bytes × String)
  unfolding page_loop
  page_at size (ok cursor) =
      let (result, next) = page_loop size cursor [] "" in ok (result, lib.encode next)
  page_at size (err e) = err e

  unfoldable pub read_page : D → String → String → Option ℕ → Result (Assoc Bytes × String)
  unfolding position page_at
  read_page d ns token size = elim (lib.bucket d ns) [
    | none ↦ ok ([], lib.encode "")
    | some b ↦ page_at size (position token b)
  ]

  -- `writeFunc`
  unfoldable pub write_func : String → String → Bytes → Action D (Unit {0})
  write_func ns k v = do lib.create_bucket ns; lib.put ns k v

  -- `db.Update`
  abbrev update : Action D (Unit {0}) → Action D (Unit {0})
  update f = transaction lib.begin lib.commit (λ _. f)

  unfoldable pub write : String → String → Bytes → Action D (Unit {0})
  unfolding write_func
  write ns k v = update (write_func ns k v)

  -- The loop of `WriteMany`; an index out of range panics.
  unfoldable pub write_each : List String → List String → List Bytes → Action D (Unit {0})
  write_each [] ks vs = pure tt
  write_each (n ∷ ns) (k ∷ ks) (v ∷ vs) = do lib.create_bucket n; lib.put n k v; write_each ns ks vs
  write_each (n ∷ ns) _ _ = do lib.create_bucket n; fail Error.panic

  unfoldable pub write_many : List String → List String → List Bytes → Action D (Unit {0})
  unfolding write_each
  write_many ns ks vs =
      if not (eqb (length ns) (length ks)) && not (eqb (length ns) (length vs))
      then fail Error.invalid
      else update (write_each ns ks vs)

  remove_from : String → String → Option (Assoc Bytes) → Action D (Unit {0})
  remove_from ns k none = fail Error.not_found
  remove_from ns k (some b) = lib.remove ns k

  unfoldable pub delete : String → String → Action D (Unit {0})
  unfolding remove_from
  delete ns k = update (λ d. remove_from ns k (lib.bucket d ns) d)

  unfoldable pub delete_namespace : String → Action D (Unit {0})
  delete_namespace ns = update (lib.delete_bucket ns)

  -- The `ServiceStorage` that `BoltDB` is.
  unfoldable pub bolt_db : ServiceStorage D Bytes
  bolt_db = record {
    read = read;
    exists = exists;
    read_all = read_all;
    read_page = read_page;
    read_prefix = read_prefix;
    read_all_keys = read_all_keys;
    write = write;
    write_many = write_many;
    delete = delete;
    delete_namespace = delete_namespace;
    begin = lib.begin;
    tx_write = write_func;
    commit = lib.commit;
  }

-- The options of `Init`: pairs of an id and, if it is a string, its value.
unfoldable pub process_bolt_options : String → Assoc (Option String) → Result String
process_bolt_options path [] = ok path
process_bolt_options path ((id, value) ∷ []) =
    if id == "boltdb-filepath-option"
    then elim value [
      | none ↦ err Error.invalid
      | some p ↦ if p == "" then err Error.invalid else ok p
    ]
    else err Error.invalid
process_bolt_options path _ = err Error.invalid
