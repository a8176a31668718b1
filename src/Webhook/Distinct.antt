-- ===== src/Webhook/Distinct.antt =====
-- Lists of URLs without a repetition, which adding and removing a URL keep.
use ssi_service.Prelude.{
  ℕ, zero, suc, String, ◌≡◌, ◌≢◌, refl, false, inl, inr, List, [], ◌∷◌, ◌++◌, take, drop, ok, ◌==◌,
  eq_iff, arith, Option-cases, Bool-cases,
}
use ssi_service.Webhook.{one_of, index_of_url, add_url, remove_url}

-- No URL stands twice.
abbrev pub IsDistinct : List String → Type 0
IsDistinct [] = Unit {0}
IsDistinct (u ∷ us) = (one_of u us ≡ false) × IsDistinct us

one_of-append :
    (u v : String) (us : List String)
    → one_of u us ≡ false
    → (v == u) ≡ false
    → one_of u (us ++ (v ∷ [])) ≡ false
unfolding one_of
one_of-append u v [] h ne = ground arith
one_of-append u v (w ∷ us) h ne = ground (arith, one_of-append u v us)

IsDistinct-append :
    (u : String) (us : List String)
    → IsDistinct us
    → one_of u us ≡ false
    → IsDistinct (us ++ (u ∷ []))
unfolding one_of
IsDistinct-append u [] h new = (refl, tt)
IsDistinct-append u (w ∷ us) (fresh, h) new = (
  one_of-append w u us fresh (ground (arith, eq_iff w u, eq_iff u w)),
  IsDistinct-append u us h (ground arith),
)

pub add_url-IsDistinct : (u : String) (us : List String) → IsDistinct us → IsDistinct (add_url u us)
unfolding add_url
add_url-IsDistinct u us h = elim (Bool-cases (one_of u us)) [
  | inl there ↦ rw there h
  | inr new ↦ rw new (IsDistinct-append u us h new)
]

pub add_url_nonempty : (u : String) (us : List String) → us ≢ [] → add_url u us ≢ []
unfolding add_url
add_url_nonempty u [] ne = absurd (ne refl)
add_url_nonempty u (w ∷ us) ne = λ e. elim (Bool-cases (one_of u (w ∷ us))) [
  | inl there ↦ absurd (ground arith)
  | inr new ↦ absurd (ground arith)
]

-- The URLs without that of a place.
without : ℕ → List String → List String
without i us = take i us ++ drop (suc i) us

one_of-without :
    (u : String) (i : ℕ) (us : List String) → one_of u us ≡ false → one_of u (without i us) ≡ false
unfolding one_of without
one_of-without u zero [] h = refl
one_of-without u zero (w ∷ us) h = ground arith
one_of-without u (suc i) [] h = refl
one_of-without u (suc i) (w ∷ us) h = ground (arith, one_of-without u i us)

without-IsDistinct : (i : ℕ) (us : List String) → IsDistinct us → IsDistinct (without i us)
unfolding without
without-IsDistinct zero [] h = tt
without-IsDistinct zero (w ∷ us) (fresh, h) = h
without-IsDistinct (suc i) [] h = tt
without-IsDistinct (suc i) (w ∷ us) (fresh, h) =
    (one_of-without w i us fresh, without-IsDistinct i us h)

pub remove_url-IsDistinct :
    (u : String) (us rest : List String)
    → IsDistinct us
    → remove_url u us ≡ ok rest
    → IsDistinct rest
unfolding remove_url without
remove_url-IsDistinct u us rest h e = elim (Option-cases (index_of_url u us)) [
  | inl none_there ↦ absurd (ground arith)
  | inr (i, p) ↦
      let rest_is : without i us ≡ rest = ground arith in rw (← rest_is) (without-IsDistinct i us h)
]
