-- ===== src/Tests/Mem.antt =====
-- A bbolt in memory. Buckets are association lists, read with one entry for each key.
use mathlib.Core.Path.{subst}
use ssi_service.Prelude.{
  String, ◌≡◌, refl, ap, ◌∙◌, false, Option, none, some, inl, inr, [], ◌∷◌, ◌++◌, Assoc, lookup,
  insert, erase, lookup-insert, lookup-erase, lookup-append, ok, err, Error, Action, ◌==◌, eq_iff,
  eq_refl, arith, Option-cases, if◌then◌else◌,
}
use ssi_service.Storage.Bolt.{Bbolt, IsSound, HasKeys, entries}

module _ {V : Type 0} where
  tidy : Assoc V → Assoc V
  tidy [] = []
  tidy ((k, v) ∷ m) = let rest = tidy m in if k == "" then rest else (k, v) ∷ erase k rest

  lookup-tidy :
      (k : String) (m : Assoc V) → lookup k (tidy m) ≡ (if k == "" then none else lookup k m)
  unfolding tidy lookup
  lookup-tidy k [] = ground arith
  lookup-tidy k ((j, v) ∷ m) =
      ground
        (arith, lookup-tidy k m, lookup-erase j k (tidy m), eq_iff j k, eq_iff k "", eq_iff j "")

  HasKeys-erase : (k : String) (m : Assoc V) → HasKeys m → HasKeys (erase k m)
  unfolding erase
  HasKeys-erase k [] h = tt
  HasKeys-erase k ((j, v) ∷ m) h = ground (arith, HasKeys-erase k m h.2, lookup-erase k j m)

  HasKeys-tidy : (m : Assoc V) → HasKeys (tidy m)
  unfolding tidy
  HasKeys-tidy [] = tt
  HasKeys-tidy ((k, v) ∷ m) = ground (
    arith,
    HasKeys-tidy m,
    HasKeys-erase k (tidy m) (HasKeys-tidy m),
    lookup-erase k k (tidy m),
    eq_refl k,
  )

  -- The cursor from the entry of a key on.
  seek : String → Assoc V → Assoc V
  seek k [] = []
  seek k ((j, v) ∷ m) = if j == k then (j, v) ∷ m else seek k m

  seek-append :
      (xs ys : Assoc V) (k : String) (v : V)
      → HasKeys (xs ++ (k, v) ∷ ys)
      → seek k (xs ++ (k, v) ∷ ys) ≡ (k, v) ∷ ys
  unfolding seek lookup
  seek-append [] ys k v h = ground (arith, eq_refl k)
  seek-append ((j, w) ∷ xs) ys k v h =
      ground
        (arith, seek-append xs ys k v h.2, lookup-append j xs ((k, v) ∷ ys), eq_iff j k, eq_iff k j)

module _ {V : Type 0} where
  bucket : Assoc (Assoc V) → String → Option (Assoc V)
  unfolding tidy
  bucket d ns = elim (lookup ns d) [ none ↦ none | some b ↦ some (tidy b) ]

  create_bucket : String → Action (Assoc (Assoc V)) (Unit {0})
  create_bucket ns d = elim (lookup ns d) [ none ↦ (ok tt, insert ns [] d) | some b ↦ (ok tt, d) ]

  -- bbolt refuses an empty key.
  put : String → String → V → Action (Assoc (Assoc V)) (Unit {0})
  put ns k v d =
      if k == ""
      then (err Error.invalid, d)
      else (ok tt, insert ns (insert k v (entries (lookup ns d))) d)

  remove : String → String → Action (Assoc (Assoc V)) (Unit {0})
  remove ns k d = (ok tt, insert ns (erase k (entries (lookup ns d))) d)

  unfoldable pub mem_bolt : Bbolt (Assoc (Assoc V)) V
  unfolding bucket create_bucket put remove seek
  mem_bolt = record {
    bucket = bucket;
    create_bucket = create_bucket;
    put = put;
    remove = remove;
    delete_bucket = λ ns d. (ok tt, erase ns d);
    seek = seek;
    begin = λ d. (ok tt, d);
    commit = λ d. (ok tt, d);
    encode = λ k. k;
    decode = some;
  }

  lookup-bucket :
      (d : Assoc (Assoc V)) (ns k : String)
      → lookup k (entries (bucket d ns))
        ≡ (if k == "" then none else lookup k (entries (lookup ns d)))
  unfolding bucket lookup
  lookup-bucket d ns k = elim (Option-cases (lookup ns d)) [
    | inl missing ↦ ground (arith, missing)
    | inr (b, found) ↦ ground (arith, found, lookup-tidy k b)
  ]

  bucket-create_bucket :
      (ns : String) (d d' : Assoc (Assoc V))
      → create_bucket ns d ≡ (ok tt, d')
      → (ns' : String)
      → bucket d' ns' ≡ (if ns == ns' then some (entries (bucket d ns)) else bucket d ns')
  unfolding bucket create_bucket tidy
  bucket-create_bucket ns d d' h ns' = elim (Option-cases (lookup ns d)) [
    | inl missing ↦ ground (arith, missing, lookup-insert ns ns' [] d, eq_iff ns ns')
    | inr (b, found) ↦ ground (arith, found, eq_iff ns ns')
  ]

  bucket-put :
      (ns k : String) (v : V) (d d' : Assoc (Assoc V))
      → put ns k v d ≡ (ok tt, d')
      → (k' : String)
      → lookup k' (entries (bucket d' ns))
        ≡ (if k == k' then some v else lookup k' (entries (bucket d ns)))
  unfolding put
  bucket-put ns k v d d' h k' = ground (
    arith,
    lookup-bucket d' ns k',
    lookup-bucket d ns k',
    eq_refl ns,
    lookup-insert ns ns (insert k v (entries (lookup ns d))) d,
    lookup-insert k k' v (entries (lookup ns d)),
    eq_iff k k',
    eq_iff k "",
    eq_iff k' "",
  )

  bucket-remove :
      (ns k : String) (d d' : Assoc (Assoc V))
      → remove ns k d ≡ (ok tt, d')
      → (k' : String)
      → lookup k' (entries (bucket d' ns))
        ≡ (if k == k' then none else lookup k' (entries (bucket d ns)))
  unfolding remove
  bucket-remove ns k d d' h k' = ground (
    arith,
    lookup-bucket d' ns k',
    lookup-bucket d ns k',
    eq_refl ns,
    lookup-insert ns ns (erase k (entries (lookup ns d))) d,
    lookup-erase k k' (entries (lookup ns d)),
  )

  bucket-insert :
      (ns ns' : String) (b : Assoc V) (d : Assoc (Assoc V))
      → (ns == ns') ≡ false
      → bucket (insert ns b d) ns' ≡ bucket d ns'
  unfolding bucket
  bucket-insert ns ns' b d other = ground (arith, lookup-insert ns ns' b d)

  entries-HasKeys : (d : Assoc (Assoc V)) (ns : String) → HasKeys (entries (bucket d ns))
  unfolding bucket
  entries-HasKeys d ns = elim (Option-cases (lookup ns d)) [
    | inl missing ↦ rw (missing, bucket) tt
    | inr (b, found) ↦ rw (found, bucket) (HasKeys-tidy b)
  ]

  -- The bbolt in memory does what the Bolt store relies on.
  pub mem_bolt-IsSound : IsSound mem_bolt
  unfolding mem_bolt put remove
  mem_bolt-IsSound = record {
    bucket-create_bucket = bucket-create_bucket;
    bucket-put = bucket-put;
    bucket-put_ne = λ ns k v d d' h ns' other.
        ground (arith, bucket-insert ns ns' (insert k v (entries (lookup ns d))) d other);
    bucket-remove = bucket-remove;
    bucket-remove_ne = λ ns k d d' h ns' other.
        ground (arith, bucket-insert ns ns' (erase k (entries (lookup ns d))) d other);
    bucket-begin = λ d t h. ap bucket (ground arith);
    bucket-commit = λ d t h. ap bucket (ground arith);
    bucket-HasKeys = entries-HasKeys;
    seek-append = λ d ns xs ys k v e.
        ap (seek k) e ∙ seek-append xs ys k v (subst HasKeys e (entries-HasKeys d ns));
    decode-encode = λ k. refl;
    encode_nil = refl;
    encode_cons = λ k h. h;
  }
