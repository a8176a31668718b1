-- ===== src/Prelude/Lists.antt =====
-- Lists measured by native numbers, and Go's maps as association lists.
use Prim.Native.Nat.{ℕ, zero, suc, ◌+◌, ◌≤◌}
use Prim.Native.String.{String}
use mathlib.Core.Path.{◌≡◌, refl, ap}
use mathlib.Core.Option.{Option, none, some}
use mathlib.Core.List.{List, [], ◌∷◌, ◌++◌}
use native.Mathlib.Omega.{arith}
use ssi_service.Prelude.Tests.{◌==◌, eq_iff, if◌then◌else◌}

module _ {ℓ} {A : Type ℓ} where
  abbrev pub length : List A → ℕ
  length [] = 0
  length (x ∷ xs) = suc (length xs)

  abbrev pub get_elem? : List A → ℕ → Option A
  get_elem? [] i = none
  get_elem? (x ∷ xs) zero = some x
  get_elem? (x ∷ xs) (suc i) = get_elem? xs i

  pub length-append : (xs ys : List A) → length (xs ++ ys) ≡ length xs + length ys
  length-append [] ys = omega arith
  length-append (x ∷ xs) ys = omega (arith, length-append xs ys)

  abbrev pub take : ℕ → List A → List A
  take zero xs = []
  take (suc n) [] = []
  take (suc n) (x ∷ xs) = x ∷ take n xs

  abbrev pub drop : ℕ → List A → List A
  drop zero xs = xs
  drop (suc n) [] = []
  drop (suc n) (x ∷ xs) = drop n xs

-- A Go map with string keys; the order of the entries has no meaning.
abbrev pub Assoc {ℓ} : (Value : Type ℓ) → Type ℓ
Assoc Value = List (String × Value)

module _ {ℓ} {V : Type ℓ} where
  -- The first entry of a key counts.
  unfoldable pub lookup : (key : String) (entries : Assoc V) → Option V
  lookup key [] = none
  lookup key ((here, value) ∷ others) = if here == key then some value else lookup key others

  unfoldable pub insert : (key : String) (value : V) (entries : Assoc V) → Assoc V
  insert key value [] = (key, value) ∷ []
  insert key value ((here, old) ∷ others) =
      if here == key then (key, value) ∷ others else (here, old) ∷ insert key value others

  unfoldable pub erase : String → Assoc V → Assoc V
  erase k [] = []
  erase k ((j, w) ∷ m) = let rest = erase k m in if j == k then rest else (j, w) ∷ rest

  pub lookup-insert :
      (key other : String) (value : V) (entries : Assoc V)
      → lookup other (insert key value entries)
        ≡ (if key == other then some value else lookup other entries)
  unfolding insert lookup
  lookup-insert key other value [] = refl
  lookup-insert key other value ((here, old) ∷ rest) = ground (
    lookup-insert key other value rest,
    eq_iff here other,
    eq_iff here key,
    eq_iff key other,
    arith,
  )

  pub lookup-erase :
      (k j : String) (m : Assoc V) → lookup j (erase k m) ≡ (if k == j then none else lookup j m)
  unfolding lookup erase
  lookup-erase k j [] = ground arith
  lookup-erase k j ((i, w) ∷ m) =
      ground (arith, eq_iff k j, eq_iff i k, eq_iff i j, lookup-erase k j m)

  pub lookup-append :
      (k : String) (xs ys : Assoc V)
      → lookup k (xs ++ ys) ≡ elim (lookup k xs) [ none ↦ lookup k ys | some v ↦ some v ]
  unfolding lookup
  lookup-append k [] ys = refl
  lookup-append k ((j, v) ∷ xs) ys = ground (arith, lookup-append k xs ys)

  pub insert_new :
      (k : String) (v : V) (m : Assoc V) → lookup k m ≡ none → insert k v m ≡ m ++ (k, v) ∷ []
  unfolding lookup insert
  insert_new k v [] h = refl
  insert_new k v ((j, w) ∷ m) h = ground (arith, insert_new k v m)

module _ {ℓ} {A : Type ℓ} where
  pub length-drop-le : (n : ℕ) (xs : List A) → length (drop n xs) ≤ length xs
  length-drop-le zero xs = omega arith
  length-drop-le (suc n) [] = omega arith
  length-drop-le (suc n) (x ∷ xs) = omega (arith, length-drop-le n xs)

  pub drop-length : (xs : List A) → drop (length xs) xs ≡ []
  drop-length [] = refl
  drop-length (x ∷ xs) = drop-length xs

  pub length-zero : (xs : List A) → length xs ≤ 0 → xs ≡ []
  length-zero [] h = refl
  length-zero (x ∷ xs) h = absurd (omega arith)

  pub take-append-drop : (n : ℕ) (xs : List A) → take n xs ++ drop n xs ≡ xs
  take-append-drop zero xs = refl
  take-append-drop (suc n) [] = refl
  take-append-drop (suc n) (x ∷ xs) = ap (◌∷◌ x) (take-append-drop n xs)
