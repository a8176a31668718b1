-- ===== src/Storage/Contract.antt =====
-- pkg/storage/storage.go: the interface `ServiceStorage` and what its clients rely on.
use ssi_service.Prelude.{
  ℕ, String, ◌≡◌, Bool, ◌&&◌, Option, none, some, List, Assoc, Result, ok, err, Error, Action, ◌==◌,
  arith, Run-cases, inl, inr, if◌then◌else◌,
}

-- Whether two places of the store are the same.
abbrev pub same_place : String → String → String → String → Bool
same_place ns k ns' k' = ns == ns' && k == k'

-- `S` is what the store holds, also seen through a transaction that is not committed. A `nil` slice
-- is `none`. In a page, the size `none` is -1. `tx_write` is `Write` of `Tx`.
pub record ServiceStorage (S Bytes : Type 0) : Type 0 where
  pub read : S → String → String → Result (Option Bytes)
  pub exists : S → String → String → Result Bool
  pub read_all : S → String → Result (Assoc Bytes)
  pub read_page : S → String → String → Option ℕ → Result (Assoc Bytes × String)
  pub read_prefix : S → String → String → Result (Assoc Bytes)
  pub read_all_keys : S → String → Result (List String)
  pub write : String → String → Bytes → Action S (Unit {0})
  pub write_many : List String → List String → List Bytes → Action S (Unit {0})
  pub delete : String → String → Action S (Unit {0})
  pub delete_namespace : String → Action S (Unit {0})
  pub begin : Action S (Unit {0})
  pub tx_write : String → String → Bytes → Action S (Unit {0})
  pub commit : Action S (Unit {0})

-- What a storage has that reads from the store and writes to a transaction `tx` of it.
unfoldable pub in_transaction : {S Bytes : Type 0} → ServiceStorage S Bytes → ServiceStorage S Bytes
in_transaction db = record {
  read = db.read;
  exists = db.exists;
  read_all = db.read_all;
  read_page = db.read_page;
  read_prefix = db.read_prefix;
  read_all_keys = db.read_all_keys;
  write = db.tx_write;
  write_many = db.write_many;
  delete = db.delete;
  delete_namespace = db.delete_namespace;
  begin = db.begin;
  tx_write = db.tx_write;
  commit = db.commit;
}

-- What the clients rely on: a value that was written is read back, and nothing else changes.
pub record IsLawful {S Bytes : Type 0} (db : ServiceStorage S Bytes) : Type 0 where
  pub read-write :
      (ns k : String) (v : Bytes) (s s' : S)
      → db.write ns k v s ≡ (ok tt, s')
      → (ns' k' : String)
      → db.read s' ns' k' ≡ (if same_place ns k ns' k' then ok (some v) else db.read s ns' k')
  pub write_fails :
      (ns k : String) (v : Bytes) (s s' : S) (e : Error) → db.write ns k v s ≡ (err e, s') → s' ≡ s
  pub read-delete :
      (ns k : String) (s s' : S)
      → db.delete ns k s ≡ (ok tt, s')
      → (ns' k' : String)
      → db.read s' ns' k' ≡ (if same_place ns k ns' k' then ok none else db.read s ns' k')
  pub delete_fails :
      (ns k : String) (s s' : S) (e : Error) → db.delete ns k s ≡ (err e, s') → s' ≡ s
  pub read-begin :
      (s t : S) → db.begin s ≡ (ok tt, t) → (ns k : String) → db.read t ns k ≡ db.read s ns k
  pub read-tx_write :
      (ns k : String) (v : Bytes) (t t' : S)
      → db.tx_write ns k v t ≡ (ok tt, t')
      → (ns' k' : String)
      → db.read t' ns' k' ≡ (if same_place ns k ns' k' then ok (some v) else db.read t ns' k')
  pub read-commit :
      (t s : S) → db.commit t ≡ (ok tt, s) → (ns k : String) → db.read s ns k ≡ db.read t ns k

-- The first of these laws, for a handle that writes to a transaction.
pub record ReadsWrites {S Bytes : Type 0} (db : ServiceStorage S Bytes) : Type 0 where
  pub read-write :
      (ns k : String) (v : Bytes) (s s' : S)
      → db.write ns k v s ≡ (ok tt, s')
      → (ns' k' : String)
      → db.read s' ns' k' ≡ (if same_place ns k ns' k' then ok (some v) else db.read s ns' k')

pub lawful-ReadsWrites :
    {S Bytes : Type 0} {db : ServiceStorage S Bytes} → IsLawful db → ReadsWrites db
lawful-ReadsWrites lawful = record { read-write = lawful.read-write }

pub in_transaction-ReadsWrites :
    {S Bytes : Type 0} {db : ServiceStorage S Bytes} → IsLawful db → ReadsWrites (in_transaction db)
unfolding in_transaction
in_transaction-ReadsWrites lawful = record { read-write = lawful.read-tx_write }

module _ {S A : Type 0} where
  settle : S → A → Result (Unit {0}) × S → Result A × S
  settle s a (ok _, t) = (ok a, t)
  settle s a (err e, t) = (err e, s)

  finish : (S → Result (Unit {0}) × S) → S → Result A × S → Result A × S
  unfolding settle
  finish commit s (ok a, t) = settle s a (commit t)
  finish commit s (err e, t) = (err e, s)

  start : (S → Result (Unit {0}) × S) → Action S A → S → Result (Unit {0}) × S → Result A × S
  unfolding finish
  start commit logic s (ok _, t) = finish commit s (logic t)
  start commit logic s (err e, t) = (err e, s)

-- A transaction: the logic is given the committed store, which it reads, and runs on the pending
-- one, to which it writes. An error rolls back.
unfoldable pub transaction :
    {S A : Type 0} (begin commit : S → Result (Unit {0}) × S) → (S → Action S A) → Action S A
unfolding start
transaction begin commit logic s = start commit (logic s) s (begin s)

-- `Execute`
unfoldable pub execute :
    {S Bytes A : Type 0} → ServiceStorage S Bytes → (S → Action S A) → Action S A
unfolding transaction
execute db = transaction db.begin db.commit

module _ {S A : Type 0} (begin commit : S → Result (Unit {0}) × S) (logic : S → Action S A)
    (s : S) where
  -- A transaction that succeeds has begun, run its logic, and committed what that left.
  pub transaction-eq-ok :
      (a : A) (s' : S)
      → transaction begin commit logic s ≡ (ok a, s')
      → (t : S) × (t' : S) × (begin s ≡ (ok tt, t))
        × (logic s t ≡ (ok a, t'))
        × (commit t' ≡ (ok tt, s'))
  unfolding transaction
  transaction-eq-ok a s' h = elim (Run-cases (begin s)) [
    | inl (e, t, p) ↦ absurd (ground arith)
    | inr (u, t, p) ↦ elim (Run-cases (logic s t)) [
      | inl (e, t', q) ↦ absurd (ground arith)
      | inr (b, t', q) ↦ elim (Run-cases (commit t')) [
        | inl (e, t'', r) ↦ absurd (ground arith)
        | inr (v, t'', r) ↦ (t, t', ground arith, ground arith, ground arith)
      ]
    ]
  ]

  -- One that fails leaves the store as it was.
  pub transaction_fails :
      (e : Error) (s' : S) → transaction begin commit logic s ≡ (err e, s') → s' ≡ s
  unfolding transaction
  transaction_fails e s' h = elim (Run-cases (begin s)) [
    | inl (e1, t, p) ↦ ground arith
    | inr (u, t, p) ↦ elim (Run-cases (logic s t)) [
      | inl (e2, t', q) ↦ ground arith
      | inr (b, t', q) ↦ ground arith
    ]
  ]
