-- ===== src/Storage/Redis/Laws.antt =====
-- The keys of a namespace in Redis, with what is in front of them on the server.
use mathlib.Core.List.{Memᴰ}
use mathlib.Core.List.Memᴰ
use Prim.Native.String.{len, slice, ◌++◌ as ◌<>◌}
use text.Mathlib.Text.{starts_with}
use text.Mathlib.TextLemmas.{append_assoc}
use text.Mathlib.TextPositions.{len-append, slice-append_right, starts_with-append}
use mathlib.Core.Path.{subst}
use ssi_service.Prelude.{
  refl, ℕ, ◌≤◌, ◌+◌, String, ◌≡◌, sym, ◌∙◌, ap, true, some, List, [], ◌∷◌, ok, inl, inr, arith,
}
use ssi_service.Credential.Keys.{join}
use ssi_service.Storage.Redis.{
  Redis, get_redis_key, without_namespace, fits, cut_all, read_all_keys,
}
use ssi_service.Storage.Redis.Scan.{Scans, all_keys-Scans}

-- What is cut off a key is its namespace and the colon.
pub without_namespace-get_redis_key :
    (namespace key : String) → without_namespace namespace (get_redis_key namespace key) ≡ key
unfolding without_namespace get_redis_key join
without_namespace-get_redis_key namespace key =
    let front : len (namespace <> ":") ≡ len namespace + 1 = len-append namespace ":" in
    let whole : len (namespace <> (":" <> key)) ≡ len (namespace <> ":") + len key =
      ap len (sym (append_assoc namespace ":" key)) ∙ len-append (namespace <> ":") key in
    let cut : slice ((namespace <> ":") <> key) (len (namespace <> ":"))
          (len (namespace <> ":") + len key)
        ≡ key =
      slice-append_right (namespace <> ":") key in
    ap (λ s. slice s (len namespace + 1) (len (namespace <> (":" <> key))))
      (sym (append_assoc namespace ":" key))
    ∙ ap (λ n. slice ((namespace <> ":") <> key) n (len (namespace <> (":" <> key)))) (sym front)
    ∙ ap (λ n. slice ((namespace <> ":") <> key) (len (namespace <> ":")) n) whole
    ∙ cut

-- The keys of the server for these keys of a namespace.
unfoldable pub stored_keys : String → List String → List String
stored_keys namespace [] = []
stored_keys namespace (k ∷ ks) = (namespace <> (":" <> k)) ∷ stored_keys namespace ks

fits-get_redis_key : (namespace key : String) → fits namespace (get_redis_key namespace key) ≡ true
unfolding fits get_redis_key join
fits-get_redis_key namespace key =
    let whole : len (namespace <> (":" <> key)) ≡ len namespace + len (":" <> key) =
      len-append namespace (":" <> key) in
    let after : len (":" <> key) ≡ 1 + len key = len-append ":" key in ground (arith, whole, after)

cut_all-stored_keys :
    (namespace : String) (ks : List String) → cut_all namespace (stored_keys namespace ks) ≡ ok ks
unfolding cut_all stored_keys get_redis_key join
cut_all-stored_keys namespace [] = refl
cut_all-stored_keys namespace (k ∷ ks) = ground (
  arith,
  cut_all-stored_keys namespace ks,
  without_namespace-get_redis_key namespace k,
  fits-get_redis_key namespace k,
)

Mem-stored_keys :
    (namespace key : String) (ks : List String)
    → Memᴰ (namespace <> (":" <> key)) (stored_keys namespace ks)
    → Memᴰ key ks
unfolding stored_keys get_redis_key join
Mem-stored_keys namespace key [] m = absurd (Memᴰ.not-nil m)
Mem-stored_keys namespace key (k ∷ ks) m = elim (Memᴰ.cases_cons m) [
  | inl same ↦ Memᴰ.head (
      sym (without_namespace-get_redis_key namespace key)
      ∙ ap (without_namespace namespace) same
      ∙ without_namespace-get_redis_key namespace k)
  | inr later ↦ Memᴰ.tail (Mem-stored_keys namespace key ks later)
]

module _ {R Bytes : Type 0} (lib : Redis R Bytes) (r : R) where
  -- Where the server's iteration over the pattern of a namespace ends and finds every key that starts
  -- with the namespace, and each key it finds is the namespace, a colon and a key, enough fuel for
  -- its batches answers these keys, in the order of the iteration; every key of the namespace that
  -- has a value is among them.
  pub read_all_keys-Scans :
      (namespace : String) (ks : List String) (batches fuel : ℕ)
      → Scans lib r (namespace <> "*") 0 (stored_keys namespace ks) batches
      → ((k : String) (w : Bytes)
          → lib.get r k ≡ ok (some w)
          → starts_with k namespace ≡ true
          → Memᴰ k (stored_keys namespace ks))
      → batches ≤ fuel
      → (read_all_keys lib fuel r namespace ≡ ok ks)
        × ((key : String) (w : Bytes)
            → lib.get r (namespace <> (":" <> key)) ≡ ok (some w)
            → Memᴰ key ks)
  unfolding read_all_keys
  read_all_keys-Scans namespace ks batches fuel scans complete enough = (
    ground (
      arith,
      all_keys-Scans lib r namespace (stored_keys namespace ks) batches fuel scans enough,
      cut_all-stored_keys namespace ks,
    ),
    λ key w there.
        Mem-stored_keys namespace key ks (
          complete (namespace <> (":" <> key)) w there (starts_with-append namespace (":" <> key))),
  )

  cut_all-ok :
      (namespace : String) (all : List String)
      → ((k : String) → Memᴰ k all → fits namespace k ≡ true)
      → (keys : List String) × (cut_all namespace all ≡ ok keys)
  unfolding cut_all
  cut_all-ok namespace [] long = ([], refl)
  cut_all-ok namespace (k ∷ all) long =
      let (rest, p) = cut_all-ok namespace all (λ x there. long x (Memᴰ.tail there)) in
      (without_namespace namespace k ∷ rest, ground (arith, p, long k (Memᴰ.head refl)))

  cut_all-Mem :
      (namespace key : String) (all : List String)
      → ((k : String) → Memᴰ k all → fits namespace k ≡ true)
      → Memᴰ key all
      → (keys : List String) × (cut_all namespace all ≡ ok keys)
        × Memᴰ (without_namespace namespace key) keys
  unfolding cut_all
  cut_all-Mem namespace key [] long m = absurd (Memᴰ.not-nil m)
  cut_all-Mem namespace key (k ∷ all) long m =
      let (rest, p) = cut_all-ok namespace all (λ x there. long x (Memᴰ.tail there)) in
      (
        without_namespace namespace k ∷ rest,
        ground (arith, p, long k (Memᴰ.head refl)),
        elim (Memᴰ.cases_cons m) [
          | inl is_k ↦ Memᴰ.head (ap (without_namespace namespace) is_k)
          | inr later ↦
              let (rest', q, found) =
                cut_all-Mem namespace key all (λ x there. long x (Memᴰ.tail there)) later in
              let same : rest' ≡ rest = ground arith in Memᴰ.tail (rw (← same) found)
        ],
      )

  -- Where the server's iteration over the pattern of a namespace finds every key that starts with
  -- the namespace, and none that is too short, reading the keys of the namespace also answers with
  -- those of each namespace whose name starts with its name, with a part of that name in front.
  pub read_all_keys_leaks :
      (namespace more key : String) (v : Bytes) (all : List String) (batches fuel : ℕ)
      → Scans lib r (namespace <> "*") 0 all batches
      → ((k : String) (w : Bytes)
          → lib.get r k ≡ ok (some w)
          → starts_with k namespace ≡ true
          → Memᴰ k all)
      → ((k : String) → Memᴰ k all → fits namespace k ≡ true)
      → batches ≤ fuel
      → lib.get r (get_redis_key (namespace <> more) key) ≡ ok (some v)
      → (keys : List String) × (read_all_keys lib fuel r namespace ≡ ok keys)
        × Memᴰ (without_namespace namespace (get_redis_key (namespace <> more) key)) keys
  unfolding get_redis_key join read_all_keys
  read_all_keys_leaks namespace more key v all batches fuel scans complete long enough there =
      let starts : starts_with ((namespace <> more) <> (":" <> key)) namespace ≡ true =
        subst (λ s. starts_with s namespace ≡ true) (sym (append_assoc namespace more (":" <> key)))
          (starts_with-append namespace (more <> (":" <> key))) in
      let (keys, cut, m) =
        cut_all-Mem namespace ((namespace <> more) <> (":" <> key)) all long
          (complete _ v there starts) in
      (keys, ground (arith, all_keys-Scans lib r namespace all batches fuel scans enough, cut), m)
