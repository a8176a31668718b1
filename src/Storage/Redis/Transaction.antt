-- ===== src/Storage/Redis/Transaction.antt =====
-- `Execute` of pkg/storage/redis.go: optimistic locking on the watched keys, tried again.
pub mod Ends
use mathlib.Core.List.{Memᴰ}
use mathlib.Core.List.Memᴰ
use ssi_service.Prelude.{
  ℕ, zero, suc, String, ◌≡◌, ◌≢◌, ◌⊎◌, refl, ap, true, false, List, [], ◌∷◌, ◌++◌, Assoc, Bool,
  Result, ok, err, Error, Action, inl, inr, ◌==◌, arith, Bool-cases, Result-cases, if◌then◌else◌,
}
use ssi_service.Storage.Redis.{get_redis_key}

-- What becomes of the commands of a transaction at its end.
pub data Outcome : Type 0 where
  committed : Outcome
  lost : Outcome
  failed : Error → Outcome

-- What other clients do during a try, before and after the business logic has read the store: the keys
-- that they write, and the new contents.
pub record Others (R : Type 0) : Type 0 where
  pub before : R → R
  pub after : R → R
  pub keys : List String

-- The transactions of go-redis: `exec` is given the watched keys, those that others wrote since they
-- were watched, and the queued writes.
pub record Transactions (R Bytes : Type 0) : Type 0 where
  pub exec : List String → List String → Assoc Bytes → R → Outcome × R

-- Whether two lists have a key in common.
unfoldable pub has : String → List String → Bool
has k [] = false
has k (l ∷ ls) = let rest = has k ls in if l == k then true else rest

unfoldable pub touched : List String → List String → Bool
unfolding has
touched [] others = false
touched (k ∷ ks) others = let rest = touched ks others in if has k others then true else rest

-- What is relied on of a transaction with a write, since one without is not sent: a transaction whose watched keys were written by others is lost and does nothing,
-- any other one is not lost, and one that commits has made its writes.
pub record IsOptimistic {R Bytes : Type 0} (lib : Transactions R Bytes)
    (written : Assoc Bytes → R → R) : Type 0 where
  pub exec_touched :
      (watched others : List String) (w : String × Bytes) (ws : Assoc Bytes) (r : R)
      → touched watched others ≡ true
      → lib.exec watched others (w ∷ ws) r ≡ (Outcome.lost, r)
  pub exec_free :
      (watched others : List String) (w : String × Bytes) (ws : Assoc Bytes) (r : R)
      → touched watched others ≡ false
      → (lib.exec watched others (w ∷ ws) r).0 ≢ Outcome.lost
  pub exec_committed :
      (watched others : List String) (w : String × Bytes) (ws : Assoc Bytes) (r r' : R)
      → lib.exec watched others (w ∷ ws) r ≡ (Outcome.committed, r')
      → r' ≡ written (w ∷ ws) r

unfoldable pub watch_keys : Assoc String → List String
watch_keys [] = []
watch_keys ((ns, k) ∷ rest) = get_redis_key ns k ∷ watch_keys rest

-- The answer of a try, or that it is to be made again.
pub data Try (A : Type 0) : Type 0 where
  done : Result A → Try A
  again : Try A

module _ {R Bytes A : Type 0} (lib : Transactions R Bytes)
    (logic : R → Result (A × (String × Bytes) × Assoc Bytes)) where
  ended : A → Outcome × R → Try A × R
  ended a (Outcome.committed, r) = (Try.done (ok a), r)
  ended a (Outcome.lost, r) = (Try.again, r)
  ended a (Outcome.failed e, r) = (Try.done (err e), r)

  try_of : List String → Others R → R → Result (A × (String × Bytes) × Assoc Bytes) → Try A × R
  unfolding ended
  try_of watched others r (err e) = (Try.done (err e), others.after r)
  try_of watched others r (ok (a, w, ws)) =
      ended a (lib.exec watched others.keys (w ∷ ws) (others.after r))

  -- `Watch` of the function `txf`: the logic reads the store and queues one write or more. All it reads is
  -- of one state, which what it watches is in a try that commits.
  unfoldable pub attempt : List String → Others R → R → Try A × R
  unfolding try_of
  attempt watched others r = try_of watched others (others.before r) (logic (others.before r))

  -- `Retry`: the tries that fit into `MaxElapsedTime`, each with what others do meanwhile; `again` when
  -- the time is over.
  unfoldable pub tries : List String → List (Others R) → R → Try A × R
  unfolding attempt
  tries watched [] r = (Try.again, r)
  tries watched (o ∷ os) r =
      let (t, r') = attempt watched o r in
      elim t [ Try.done a ↦ (Try.done a, r') | Try.again ↦ tries watched os r' ]

  answer : Try A → Result A
  answer (Try.done a) = a
  answer Try.again = err Error.conflict

  unfoldable pub execute : Assoc String → List (Others R) → R → Result A × R
  unfolding tries answer
  execute watched os r = let (t, r') = tries (watch_keys watched) os r in (answer t, r')
