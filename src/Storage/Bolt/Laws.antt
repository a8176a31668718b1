-- ===== src/Storage/Bolt/Laws.antt =====
-- The Bolt store keeps what `ServiceStorage` promises its clients.
use ssi_service.Prelude.{
  String, ◌≡◌, none, some, inl, inr, lookup, ok, ◌==◌, arith, Bool-cases, Option-cases, Run-cases,
  if◌then◌else◌, eq_iff, eq_refl,
}
use mathlib.Core.Path.{subst}
use ssi_service.Storage.Contract.{IsLawful, same_place, transaction-eq-ok, transaction_fails}
use ssi_service.Storage.Bolt.{
  Bbolt, IsSound, entries, read, write, write_func, delete, remove_from, bolt_db,
}

module _ {D Bytes : Type 0} (lib : Bbolt D Bytes) (sound : IsSound lib) where
  read-eq-lookup :
      (d : D) (ns k : String) → read lib d ns k ≡ ok (lookup k (entries (lib.bucket d ns)))
  unfolding read lookup
  read-eq-lookup d ns k = ground arith

  read-put :
      (ns k : String) (v : Bytes) (d d' : D)
      → lib.put ns k v d ≡ (ok tt, d')
      → (ns' k' : String)
      → read lib d' ns' k' ≡ (if same_place ns k ns' k' then ok (some v) else read lib d ns' k')
  read-put ns k v d d' p ns' k' =
      rw (read-eq-lookup d' ns' k', read-eq-lookup d ns' k')
        (elim (Bool-cases (ns == ns')) [
          | inl same ↦
              subst
                (λ n. ok (lookup k' (entries (lib.bucket d' n))) ≡ (
                  if same_place ns k n k'
                  then ok (some v)
                  else ok (lookup k' (entries (lib.bucket d n)))))
                ((eq_iff ns ns').0 same)
                (ground (arith, sound.bucket-put ns k v d d' p k', eq_refl ns))
          | inr other ↦ ground (arith, sound.bucket-put_ne ns k v d d' p ns' other)
        ])

  read-create_bucket :
      (ns : String) (d d' : D)
      → lib.create_bucket ns d ≡ (ok tt, d')
      → (ns' k' : String) → read lib d' ns' k' ≡ read lib d ns' k'
  read-create_bucket ns d d' p ns' k' =
      rw (read-eq-lookup d' ns' k', read-eq-lookup d ns' k')
        (ground (arith, sound.bucket-create_bucket ns d d' p ns', eq_iff ns ns'))

  read-write_func :
      (ns k : String) (v : Bytes) (d d' : D)
      → write_func lib ns k v d ≡ (ok tt, d')
      → (ns' k' : String)
      → read lib d' ns' k' ≡ (if same_place ns k ns' k' then ok (some v) else read lib d ns' k')
  unfolding write_func
  read-write_func ns k v d d' h ns' k' = elim (Run-cases (lib.create_bucket ns d)) [
    | inl (e, c, p) ↦ absurd (ground arith)
    | inr (u, c, p) ↦
        rw (← read-create_bucket ns d c p ns' k') (read-put ns k v c d' (ground arith) ns' k')
  ]

  read-remove :
      (ns k : String) (d d' : D)
      → remove_from lib ns k (lib.bucket d ns) d ≡ (ok tt, d')
      → (ns' k' : String)
      → read lib d' ns' k' ≡ (if same_place ns k ns' k' then ok none else read lib d ns' k')
  unfolding remove_from
  read-remove ns k d d' h ns' k' = elim (Option-cases (lib.bucket d ns)) [
    | inl missing ↦ absurd (ground arith)
    | inr (b, found) ↦
        let p : lib.remove ns k d ≡ (ok tt, d') = ground arith in
        rw (read-eq-lookup d' ns' k', read-eq-lookup d ns' k')
          (elim (Bool-cases (ns == ns')) [
            | inl same ↦
                subst
                  (λ n. ok (lookup k' (entries (lib.bucket d' n))) ≡ (
                    if same_place ns k n k'
                    then ok none
                    else ok (lookup k' (entries (lib.bucket d n)))))
                  ((eq_iff ns ns').0 same)
                  (ground (arith, sound.bucket-remove ns k d d' p k', eq_refl ns))
            | inr other ↦ ground (arith, sound.bucket-remove_ne ns k d d' p ns' other)
          ])
  ]

  read-same_bucket :
      (d d' : D)
      → lib.bucket d' ≡ lib.bucket d
      → (ns k : String) → read lib d' ns k ≡ read lib d ns k
  unfolding read
  read-same_bucket d d' e ns k = rw (e, read)

  bolt_write :
      (ns k : String) (v : Bytes) (s s' : D)
      → write lib ns k v s ≡ (ok tt, s')
      → (ns' k' : String)
      → read lib s' ns' k' ≡ (if same_place ns k ns' k' then ok (some v) else read lib s ns' k')
  unfolding write
  bolt_write ns k v s s' h ns' k' =
      let (t, t', b, w, c) =
        transaction-eq-ok lib.begin lib.commit (λ _. write_func lib ns k v) s tt s' h in
      rw (read-same_bucket t' s' (sound.bucket-commit t' s' c) ns' k') (
        rw (← read-same_bucket s t (sound.bucket-begin s t b) ns' k')
          (read-write_func ns k v t t' w ns' k'))

  bolt_delete :
      (ns k : String) (s s' : D)
      → delete lib ns k s ≡ (ok tt, s')
      → (ns' k' : String)
      → read lib s' ns' k' ≡ (if same_place ns k ns' k' then ok none else read lib s ns' k')
  unfolding delete
  bolt_delete ns k s s' h ns' k' =
      let (t, t', b, w, c) =
        transaction-eq-ok lib.begin lib.commit (λ _ d. remove_from lib ns k (lib.bucket d ns) d) s
          tt s' h in
      rw (read-same_bucket t' s' (sound.bucket-commit t' s' c) ns' k') (
        rw (← read-same_bucket s t (sound.bucket-begin s t b) ns' k')
          (read-remove ns k t t' w ns' k'))

  -- `BoltDB` over a sound bbolt keeps the contract of `ServiceStorage`: a value that `Write`, or
  -- `Write` of a committed transaction, stored is what `Read` of its place returns, a deleted place
  -- reads as missing, every other place reads as before, and a `Write` or `Delete` that fails
  -- leaves the database as it was.
  pub bolt_db-IsLawful : IsLawful (bolt_db lib)
  unfolding bolt_db write delete
  bolt_db-IsLawful = record {
    read-write = bolt_write;
    write_fails = λ ns k v s s' e h. transaction_fails lib.begin lib.commit _ s e s' h;
    read-delete = bolt_delete;
    delete_fails = λ ns k s s' e h. transaction_fails lib.begin lib.commit _ s e s' h;
    read-begin = λ s t b. read-same_bucket s t (sound.bucket-begin s t b);
    read-tx_write = read-write_func;
    read-commit = λ t s c. read-same_bucket t s (sound.bucket-commit t s c);
  }
