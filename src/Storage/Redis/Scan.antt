-- ===== src/Storage/Redis/Scan.antt =====
-- The loop of `readAllKeys`: it ends when the server's iteration does.
use ssi_service.Prelude.{
  ℕ, zero, suc, ◌≤◌, String, ◌<>◌, ◌≡◌, refl, ap, none, List, [], ◌∷◌, ◌++◌, ok, arith,
}
use ssi_service.Storage.Redis.{Redis, scan_count, scan_loop, all_keys}

-- An iteration of the server from a cursor on: the keys of its batches, in order, up to the cursor 0,
-- and the number of batches.
pub data Scans {R Bytes : Type 0} (lib : Redis R Bytes) (r : R) (pattern : String)
    : ℕ → List String → ℕ → Type 0 where
  last :
      (cursor : ℕ) (keys : List String)
      → lib.scan r cursor pattern (scan_count none) ≡ ok (keys, 0)
      → Scans lib r pattern cursor keys 1
  next :
      (cursor following : ℕ) (keys rest : List String) (batches : ℕ)
      → lib.scan r cursor pattern (scan_count none) ≡ ok (keys, suc following)
      → Scans lib r pattern (suc following) rest batches
      → Scans lib r pattern cursor (keys ++ rest) (suc batches)

module _ {R Bytes : Type 0} (lib : Redis R Bytes) (r : R) where
  append_assoc : (xs ys zs : List String) → (xs ++ ys) ++ zs ≡ xs ++ (ys ++ zs)
  append_assoc [] ys zs = refl
  append_assoc (x ∷ xs) ys zs = ap (◌∷◌ x) (append_assoc xs ys zs)

  scan_loop-Scans :
      (pattern : String) (cursor : ℕ) (all : List String) (batches fuel : ℕ) (found : List String)
      (before : ℕ)
      → Scans lib r pattern cursor all batches
      → batches ≤ fuel
      → scan_loop lib r pattern none fuel cursor found before ≡ ok (found ++ all, 0)
  unfolding scan_loop
  scan_loop-Scans pattern cursor all batches zero found before (last _ _ p) enough =
      absurd (omega arith)
  scan_loop-Scans pattern cursor all batches (suc fuel) found before (last _ _ p) enough =
      ground (arith, p)
  scan_loop-Scans pattern cursor all batches zero found before (next _ _ _ _ n p rest) enough =
      absurd (omega arith)
  scan_loop-Scans pattern cursor all batches (suc fuel) found before
        (next _ following keys more n p rest) enough =
      ground (
        arith,
        p,
        scan_loop-Scans pattern (suc following) more n fuel (found ++ keys) (suc following) rest
            (omega arith),
        append_assoc found keys more,
      )

  -- Where the server's iteration ends, enough fuel for its batches finds all of its keys, in order.
  pub all_keys-Scans :
      (namespace : String) (all : List String) (batches fuel : ℕ)
      → Scans lib r (namespace <> "*") 0 all batches
      → batches ≤ fuel
      → all_keys lib fuel r namespace none 0 ≡ ok (all, "")
  unfolding all_keys
  all_keys-Scans namespace all batches fuel scans enough =
      ground (arith, scan_loop-Scans (namespace <> "*") 0 all batches fuel [] 0 scans enough)
