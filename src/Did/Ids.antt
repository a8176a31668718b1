-- ===== src/Did/Ids.antt =====
-- The method and the namespace of a DID: internal/util/util.go and did/storage.go.
use Prim.Native.Char.{Char, code}
use Prim.Native.String.{String, ◌++◌}
use text.Mathlib.TextLemmas.{nil-append, cons-append}
use ssi_service.Prelude.{
  ◌≡◌, refl, ap, ◌∙◌, Bool, true, false, List, [], ◌∷◌, Result, ok, err, Error, then_pure, ◌==◌,
  eqb, arith, Bool-cases, Result-cases, inl, inr, if◌then◌else◌,
}
use ssi_service.Credential.Keys.{make_namespace}

is_colon : Char → Bool
is_colon c = eqb (code c) b':'

-- A character in front of the first part.
prepend : Char → List String → List String
prepend c [] = String.◌∷◌ c "" ∷ []
prepend c (s ∷ rest) = String.◌∷◌ c s ∷ rest

-- `strings.Split(did, ":")`
unfoldable pub split : String → List String
unfolding is_colon prepend
split String.[] = "" ∷ []
split (String.◌∷◌ c s) = let parts = split s in if is_colon c then "" ∷ parts else prepend c parts

method_of : List String → Result String
method_of (start ∷ method ∷ id ∷ rest) = if start == "did" then ok method else err Error.invalid
method_of _ = err Error.invalid

unfoldable pub get_method_for_did : String → Result String
unfolding method_of split
get_method_for_did did = method_of (split did)

abbrev pub key_method : String
key_method = "key"

abbrev pub web_method : String
web_method = "web"

abbrev pub ion_method : String
ion_method = "ion"

unfoldable pub namespace_for_method : String → Result String
unfolding make_namespace
namespace_for_method method =
    if method == key_method
    then ok (make_namespace ("did" ∷ key_method ∷ []))
    else if method == web_method
    then ok (make_namespace ("did" ∷ web_method ∷ []))
    else if method == ion_method
    then ok (make_namespace ("did" ∷ ion_method ∷ []))
    else err Error.invalid

unfoldable pub namespace_for_did : String → Result String
unfolding namespace_for_method
namespace_for_did id = then_pure (get_method_for_did id) namespace_for_method

-- Whether a text has no ":".
unfoldable pub is_plain : String → Bool
unfolding is_colon
is_plain String.[] = true
is_plain (String.◌∷◌ c s) = if is_colon c then false else is_plain s

split-colon : (b : String) → split (":" ++ b) ≡ "" ∷ split b
unfolding split is_colon
split-colon b = ap split (cons-append ":" "" b ∙ ap (String.◌∷◌ ":") (nil-append b))

split-append : (a b : String) → is_plain a ≡ true → split (a ++ (":" ++ b)) ≡ a ∷ split b
unfolding split is_plain prepend
split-append String.[] b h = rw nil-append (split-colon b)
split-append (String.◌∷◌ c a) b h = elim (Bool-cases (is_colon c)) [
  | inl colon ↦ absurd (ground (arith, h))
  | inr other ↦
      rw (cons-append c a (":" ++ b)) (rw (other, split-append a b (ground (arith, h))) refl)
]

split-cons : (s : String) → (first : String) × (rest : List String) × (split s ≡ first ∷ rest)
unfolding split prepend
split-cons String.[] = ("", [], refl)
split-cons (String.◌∷◌ c s) =
    let (first, rest, p) = split-cons s in
    elim (Bool-cases (is_colon c)) [
      | inl colon ↦ ("", split s, ground (arith, colon))
      | inr other ↦ (String.◌∷◌ c first, rest, ground (arith, other, p))
    ]

-- The DIDs of a method, whose name has no colon, are kept in the method's namespace, whatever follows
-- the name.
pub namespace_for_did-append :
    (method id : String)
    → is_plain method ≡ true
    → (get_method_for_did ("did" ++ (":" ++ (method ++ (":" ++ id)))) ≡ ok method)
      × (namespace_for_did ("did" ++ (":" ++ (method ++ (":" ++ id))))
          ≡ namespace_for_method method)
unfolding get_method_for_did namespace_for_did method_of is_plain
namespace_for_did-append method id plain =
    let (first, rest, p) = split-cons id in
    let parts : split ("did" ++ (":" ++ (method ++ (":" ++ id)))) ≡ "did" ∷ method ∷ first ∷ rest =
      split-append "did" (method ++ (":" ++ id)) refl
      ∙ ap (◌∷◌ "did") (split-append method id plain ∙ ap (◌∷◌ method) p) in
    let got : get_method_for_did ("did" ++ (":" ++ (method ++ (":" ++ id)))) ≡ ok method =
      ap method_of parts in
    (got, rw got refl)

-- The keys are not kept among the DIDs, and neither is what the batches write.
pub namespace_for_did_others :
    (id ns : String)
    → namespace_for_did id ≡ ok ns
    → (("keystore" == ns) ≡ false)
      × (("keystore:public-keys" == ns) ≡ false)
      × (("temporary" == ns) ≡ false)
unfolding namespace_for_did namespace_for_method make_namespace
namespace_for_did_others id ns h = elim (Result-cases (get_method_for_did id)) [
  | inl (e, p) ↦ absurd (ground arith)
  | inr (method, p) ↦ elim (Bool-cases (method == "key")) [
    | inl is_key ↦ let e : "did-key" ≡ ns = ground arith in rw (← e) (refl, refl, refl)
    | inr not_key ↦ elim (Bool-cases (method == "web")) [
      | inl is_web ↦ let e : "did-web" ≡ ns = ground arith in rw (← e) (refl, refl, refl)
      | inr not_web ↦ elim (Bool-cases (method == "ion")) [
        | inl is_ion ↦ let e : "did-ion" ≡ ns = ground arith in rw (← e) (refl, refl, refl)
        | inr not_ion ↦ absurd (ground arith)
      ]
    ]
  ]
]
