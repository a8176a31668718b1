-- ===== src/Storage/Bolt/Pages.antt =====
-- `ReadPage` of the Bolt store: what one page holds, and what following the page tokens visits.
use mathlib.Core.List.{append-nil, append_assoc}
use mathlib.Core.Path.{subst}
use ssi_service.Prelude.{
  ℕ, zero, suc, ◌+◌, ◌≤◌, String, ◌≡◌, ◌≢◌, refl, sym, ap, ◌∙◌, Option, none, some, inl, inr, ◌⊎◌,
  length-drop-le, length-zero, drop-length, [], ◌∷◌, ◌++◌, Assoc, lookup, length, take, drop,
  length-append, lookup-append, insert_new, take-append-drop, Result, ok, err, Error, then_pure,
  ◌==◌, eq_iff, arith, Option-cases, if◌then◌else◌,
}
use ssi_service.Storage.Bolt.{
  Bbolt, IsSound, HasKeys, entries, cursor_key, page_loop, page_at, position, read_page,
}

-- No key of `ys` is in `r`.
abbrev Fresh : {V : Type 0} → Assoc V → Assoc V → Type 0
Fresh r [] = Unit {0}
Fresh r ((k, v) ∷ ys) = (lookup k r ≡ none) × Fresh r ys

Fresh-extend :
    {V : Type 0} (r : Assoc V) (k : String) (v : V) (ys : Assoc V)
    → lookup k ys ≡ none
    → Fresh r ys
    → Fresh (r ++ (k, v) ∷ []) ys
unfolding lookup
Fresh-extend r k v [] h f = tt
Fresh-extend r k v ((j, w) ∷ ys) h f = (
  ground (arith, lookup-append j r ((k, v) ∷ []), eq_iff j k, eq_iff k j),
  Fresh-extend r k v ys (ground arith) f.1,
)

Fresh-nil : {V : Type 0} (ys : Assoc V) → Fresh [] ys
unfolding lookup
Fresh-nil [] = tt
Fresh-nil ((k, v) ∷ ys) = (refl, Fresh-nil ys)

-- The key to go on from, after `m` more entries.
abbrev after : {V : Type 0} → ℕ → Assoc V → String → String
after zero ys next = next
after (suc m) [] next = next
after (suc m) (y ∷ ys) next = cursor_key (drop m ys)

after-cursor :
    {V : Type 0} (m : ℕ) (ys : Assoc V) → after m ys (cursor_key ys) ≡ cursor_key (drop m ys)
after-cursor zero ys = refl
after-cursor (suc m) [] = refl
after-cursor (suc m) (y ∷ ys) = refl

page_loop-take :
    {V : Type 0} (m n : ℕ) (ys r : Assoc V) (next : String)
    → n ≡ length r + m
    → HasKeys ys
    → Fresh r ys
    → page_loop (some n) ys r next ≡ (r ++ take m ys, after m ys next)
unfolding page_loop
page_loop-take zero n [] r next e h f = ground (arith, append-nil r)
page_loop-take (suc m) n [] r next e h f = ground (arith, append-nil r)
page_loop-take zero n ((k, v) ∷ ys) r next e h f = ground (arith, append-nil r)
page_loop-take (suc m) n ((k, v) ∷ ys) r next e h f =
    let r' = r ++ (k, v) ∷ [] in
    ground (
      arith,
      insert_new k v r f.0,
      page_loop-take m n ys r' (cursor_key ys) (omega (arith, length-append r ((k, v) ∷ []))) h.2
          (Fresh-extend r k v ys h.1 f.1),
      append_assoc r ((k, v) ∷ []) (take m ys),
      after-cursor m ys,
    )

page_loop_all :
    {V : Type 0} (ys r : Assoc V) (next : String)
    → HasKeys ys
    → Fresh r ys
    → page_loop none ys r next ≡ (r ++ ys, after (length ys) ys next)
unfolding page_loop
page_loop_all [] r next h f = ground (arith, append-nil r)
page_loop_all ((k, v) ∷ ys) r next h f =
    let r' = r ++ (k, v) ∷ [] in
    ground (
      arith,
      insert_new k v r f.0,
      page_loop_all ys r' (cursor_key ys) h.2 (Fresh-extend r k v ys h.1 f.1),
      append_assoc r ((k, v) ∷ []) ys,
      after-cursor (length ys) ys,
    )

HasKeys-suffix : {V : Type 0} (xs ys : Assoc V) → HasKeys (xs ++ ys) → HasKeys ys
HasKeys-suffix [] ys h = h
HasKeys-suffix ((k, v) ∷ xs) ys h = HasKeys-suffix xs ys h.2

-- A client that asks for pages of `n` entries, from the token that it is given to the last page.
pub walk : {D Bytes : Type 0} → Bbolt D Bytes → D → String → ℕ → ℕ → String → Result (Assoc Bytes)
walk lib d ns n zero token = err Error.panic
walk lib d ns n (suc fuel) token = then_pure (read_page lib d ns token (some n)) λ p.
    let rest = walk lib d ns n fuel p.1 in
    if p.1 == "" then ok p.0 else then_pure rest (λ more. ok (p.0 ++ more))

-- A token is the encoded key of the entry to go on from, and "" for the first page.
abbrev IsToken : {D Bytes : Type 0} → Bbolt D Bytes → String → Assoc Bytes → Assoc Bytes → Type 0
IsToken lib token xs ys =
    ((xs ≡ []) × (token ≡ "")) ⊎ ((ys ≢ []) × (token ≡ lib.encode (cursor_key ys)))

module _ {D Bytes : Type 0} (lib : Bbolt D Bytes) (sound : IsSound lib) (d : D) (ns : String) where
  position-IsToken :
      (token : String) (xs ys : Assoc Bytes)
      → entries (lib.bucket d ns) ≡ xs ++ ys
      → IsToken lib token xs ys
      → position lib token (entries (lib.bucket d ns)) ≡ ok ys
  unfolding position
  position-IsToken token xs ys e (inl (none_read, t)) =
      rw t (ap ok (e ∙ ap (λ zs. zs ++ ys) none_read))
  position-IsToken token xs [] e (inr (more, t)) = absurd (more refl)
  position-IsToken token xs ((k, v) ∷ ys) e (inr (more, t)) =
      let h : HasKeys ((k, v) ∷ ys) =
        HasKeys-suffix xs ((k, v) ∷ ys) (subst HasKeys e (sound.bucket-HasKeys d ns)) in
      rw (t, sound.encode_cons k h.0, sound.decode-encode k)
        (ap ok (sound.seek-append d ns xs ys k v e))

  read_page-cursor :
      (size : Option ℕ) (token : String) (xs ys : Assoc Bytes)
      → entries (lib.bucket d ns) ≡ xs ++ ys
      → IsToken lib token xs ys
      → read_page lib d ns token size ≡ page_at lib size (ok ys)
  unfolding read_page
  read_page-cursor size token xs ys e t = elim (Option-cases (lib.bucket d ns)) [
    | inl missing ↦ rw (missing, read_page) (absent xs ys (ap entries (sym missing) ∙ e))
    | inr (b, found) ↦
        rw (found, read_page)
          (ap (page_at lib size) (
            ap (λ o. position lib token (entries o)) (sym found)
            ∙ position-IsToken token xs ys e t))
  ]
    where
      absent :
          (xs ys : Assoc Bytes) → [] ≡ xs ++ ys → ok ([], lib.encode "") ≡ page_at lib size (ok ys)
      absent [] [] e = refl
      absent [] (y ∷ ys) e = cc
      absent (x ∷ xs) ys e = cc

  -- The page of `suc n` entries at a token: the next entries, and the token of the rest.
  read_page-take :
      (n : ℕ) (token : String) (xs ys : Assoc Bytes)
      → entries (lib.bucket d ns) ≡ xs ++ ys
      → IsToken lib token xs ys
      → read_page lib d ns token (some (suc n))
        ≡ ok (take (suc n) ys, lib.encode (cursor_key (drop (suc n) ys)))
  unfolding page_at
  read_page-take n token xs ys e t =
      read_page-cursor (some (suc n)) token xs ys e t
      ∙ ground (
        arith,
        page_loop-take (suc n) (suc n) ys [] "" (omega arith)
            (HasKeys-suffix xs ys (subst HasKeys e (sound.bucket-HasKeys d ns))) (Fresh-nil ys),
        after_all ys,
      )
    where
      after_all : (ys : Assoc Bytes) → after (suc n) ys "" ≡ cursor_key (drop (suc n) ys)
      after_all [] = refl
      after_all (y ∷ ys) = refl

  -- What the walk does after a page, given that it does right on less fuel.
  walk_more :
      (n fuel : ℕ) (xs page rest : Assoc Bytes)
      → entries (lib.bucket d ns) ≡ xs ++ (page ++ rest)
      → (rest ≢ [] → walk lib d ns (suc n) fuel (lib.encode (cursor_key rest)) ≡ ok rest)
      → (let more = walk lib d ns (suc n) fuel (lib.encode (cursor_key rest)) in
          if lib.encode (cursor_key rest) == ""
          then ok page
          else then_pure more (λ r. ok (page ++ r)))
        ≡ ok (page ++ rest)
  walk_more n fuel xs page [] e ih = rw sound.encode_nil (ap ok (sym (append-nil page)))
  walk_more n fuel xs page ((k, v) ∷ rest) e ih =
      let e' : entries (lib.bucket d ns) ≡ (xs ++ page) ++ (k, v) ∷ rest =
        e ∙ sym (append_assoc xs page ((k, v) ∷ rest)) in
      let h : HasKeys ((k, v) ∷ rest) =
        HasKeys-suffix (xs ++ page) ((k, v) ∷ rest)
          (subst HasKeys e' (sound.bucket-HasKeys d ns)) in
      rw (sound.encode_cons k h.0, ih (λ p. cc)) refl

  length-drop-suc : (n f : ℕ) (ys : Assoc Bytes) → length ys ≤ suc f → length (drop (suc n) ys) ≤ f
  length-drop-suc n f [] l = omega arith
  length-drop-suc n f (y ∷ ys) l = omega (arith, length-drop-le n ys)

  split_at :
      (n : ℕ) (xs ys : Assoc Bytes)
      → entries (lib.bucket d ns) ≡ xs ++ ys
      → entries (lib.bucket d ns) ≡ xs ++ (take (suc n) ys ++ drop (suc n) ys)
  split_at n xs ys e = e ∙ ap (λ zs. xs ++ zs) (sym (take-append-drop (suc n) ys))

  walk-rest :
      (n fuel : ℕ) (token : String) (xs ys : Assoc Bytes)
      → length ys ≤ fuel
      → entries (lib.bucket d ns) ≡ xs ++ ys
      → IsToken lib token xs ys
      → walk lib d ns (suc n) (suc fuel) token ≡ ok ys
  unfolding walk
  walk-rest n zero token xs ys l e t = rw (read_page-take n token xs ys e t) (
      walk_more n zero xs (take (suc n) ys) (drop (suc n) ys) (split_at n xs ys e)
        (λ ne. absurd (ne (ap (drop (suc n)) (length-zero ys l))))
      ∙ ap ok (take-append-drop (suc n) ys))
  walk-rest n (suc fuel) token xs ys l e t = rw (read_page-take n token xs ys e t) (
      walk_more n (suc fuel) xs (take (suc n) ys) (drop (suc n) ys) (split_at n xs ys e) (λ ne.
        walk-rest n fuel (lib.encode (cursor_key (drop (suc n) ys))) (xs ++ take (suc n) ys)
          (drop (suc n) ys) (length-drop-suc n fuel ys l)
          (split_at n xs ys e ∙ sym (append_assoc xs (take (suc n) ys) (drop (suc n) ys)))
          (inr (ne, refl)))
      ∙ ap ok (take-append-drop (suc n) ys))

  -- Starting with no token and following the token of each page of `suc n` entries, a client reads
  -- every entry of the namespace once, in the order of the keys, and is told where to stop: one
  -- request more than there are entries is enough.
  pub walk-entries :
      (n fuel : ℕ)
      → length (entries (lib.bucket d ns)) ≤ fuel
      → walk lib d ns (suc n) (suc fuel) "" ≡ ok (entries (lib.bucket d ns))
  walk-entries n fuel l =
      walk-rest n fuel "" [] (entries (lib.bucket d ns)) l refl (inl (refl, refl))

  read_page_all :
      (token : String) (xs ys : Assoc Bytes)
      → entries (lib.bucket d ns) ≡ xs ++ ys
      → IsToken lib token xs ys
      → read_page lib d ns token none ≡ ok (ys, "")
  unfolding page_at
  read_page_all token xs ys e t =
      read_page-cursor none token xs ys e t
      ∙ ground (
        arith,
        page_loop_all ys [] "" (HasKeys-suffix xs ys (subst HasKeys e (sound.bucket-HasKeys d ns)))
            (Fresh-nil ys),
        last_key ys,
        sound.encode_nil,
      )
    where
      last_key : (zs : Assoc Bytes) → after (length zs) zs "" ≡ ""
      last_key [] = refl
      last_key (z ∷ zs) = ap cursor_key (drop-length zs)
