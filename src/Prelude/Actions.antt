-- ===== src/Prelude/Actions.antt =====
-- Fallible code: results with the errors that callers tell apart, and methods that also change a
-- state. What was written before an error stays written, so an error comes with a state too.
use mathlib.Core.Path.{◌≡◌, refl}
use mathlib.Core.Logic.{◌⊎◌, inl, inr}
use native.Mathlib.Omega.{arith}

-- Wrapping an error in a message is not modelled: it keeps the cause, and callers look at the cause.
pub data Error : Type 0 where
  io codec crypto invalid not_found duplicate already_done unrecognized_id revoked panic conflict
        unfinished :
      Error

pub data Result {ℓ} (A : Type ℓ) : Type ℓ where
  ok : A → Result A
  err : Error → Result A

pub Result-cases {ℓ} :
    {A : Type ℓ} (r : Result A) → ((e : Error) × (r ≡ err e)) ⊎ ((a : A) × (r ≡ ok a))
Result-cases (ok a) = inr (a, refl)
Result-cases (err e) = inl (e, refl)

-- A pure step of a method.
abbrev pub then_pure {ℓ κ} : {A : Type ℓ} {B : Type κ} → Result A → (A → Result B) → Result B
then_pure (ok a) f = f a
then_pure (err e) f = err e

abbrev pub Action {ℓ} : Type ℓ → Type ℓ → Type ℓ
Action S A = S → Result A × S

module _ {ℓ} {S A : Type ℓ} where
  abbrev pub pure : A → Action S A
  pure a s = (ok a, s)

  abbrev pub fail : Error → Action S A
  fail e s = (err e, s)

  abbrev pub lift : Result A → Action S A
  lift r s = (r, s)

  -- Reads the state, and leaves it as it is.
  abbrev pub reads : (S → Result A) → Action S A
  reads f s = (f s, s)

module _ {ℓ} {S A B : Type ℓ} where
  abbrev pub continue : Result A × S → (A → Action S B) → Result B × S
  continue (ok a, s) f = f a s
  continue (err e, s) f = (err e, s)

  infixl 5 ◌>>=◌ ◌>>◌
  abbrev pub ◌>>=◌ : Action S A → (A → Action S B) → Action S B
  ◌>>=◌ m f s = continue (m s) f

  abbrev pub ◌>>◌ : Action S A → Action S B → Action S B
  m >> k = m >>= λ _. k

module _ {ℓ} {S A : Type ℓ} where
  -- To split on a run.
  pub Run-cases :
      (r : Result A × S)
      → ((e : Error) × (s : S) × (r ≡ (err e, s))) ⊎ ((a : A) × (s : S) × (r ≡ (ok a, s)))
  Run-cases (ok a, s) = inr (a, s, refl)
  Run-cases (err e, s) = inl (e, s, refl)

-- What a success of a sequence says of its parts.
pub then_pure-eq-ok {ℓ κ} :
    {A : Type ℓ} {B : Type κ} (r : Result A) (f : A → Result B) (b : B)
    → then_pure r f ≡ ok b
    → (a : A) × (r ≡ ok a) × (f a ≡ ok b)
then_pure-eq-ok (ok a) f b h = (a, refl, h)
then_pure-eq-ok (err e) f b h = cc

pub bind-eq-ok {ℓ} :
    {S A B : Type ℓ} (m : Action S A) (f : A → Action S B) (s s' : S) (b : B)
    → (m >>= f) s ≡ (ok b, s')
    → (a : A) × (t : S) × (m s ≡ (ok a, t)) × (f a t ≡ (ok b, s'))
bind-eq-ok m f s s' b h = elim (Run-cases (m s)) [
  | inl (e, t, p) ↦ absurd (ground (arith, h))
  | inr (a, t, p) ↦ (a, t, p, ground arith)
]

pub lift-eq-ok {ℓ} :
    {S A B : Type ℓ} (r : Result A) (f : A → Action S B) (s s' : S) (b : B)
    → (lift r >>= f) s ≡ (ok b, s')
    → (a : A) × (r ≡ ok a) × (f a s ≡ (ok b, s'))
lift-eq-ok (ok a) f s s' b h = (a, refl, h)
lift-eq-ok (err e) f s s' b h = cc
