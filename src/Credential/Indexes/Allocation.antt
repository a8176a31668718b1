-- ===== src/Credential/Indexes/Allocation.antt =====
-- Which indexes a status list gives out.
use ssi_service.Prelude.{
  ℕ, zero, suc, ◌+◌, ◌≤◌, ◌<◌, ◌≡◌, ap, false, Option, none, some, List, [], ◌∷◌, ok, Error, lookup,
  get_elem?, length, arith, Run-cases, Result-cases, inl, inr, eq_refl, sym, ◌∙◌,
}
use ssi_service.Json.{Json, Codec}
use ssi_service.Storage.Contract.{ServiceStorage, IsLawful, execute, transaction-eq-ok}
use ssi_service.Storage.Update.{unmarshal}
use ssi_service.Credential.Storage.{
  StatusListMetadata, index_pool_namespace, current_index_namespace,
}
use ssi_service.Credential.Indexes.{
  index_of, number_at, returned, pool_of, write_next, get_next_status_list_random_index,
  increment_status_list_index_tx, next_index, next_indexes,
}

module _ {S Bytes : Type 0} (db : ServiceStorage S Bytes) (codec : Codec Bytes)
    (wrap : Option Error → Option Error) (meta : StatusListMetadata) where
  -- The store holds the pool `nums`, and `i` for the place in it.
  pub record Holds (nums : List ℕ) (i : ℕ) (s : S) : Type 0 where
    pub pool : Bytes
    pub current : Bytes
    pub read_pool : db.read s index_pool_namespace meta.pool_key ≡ ok (some pool)
    pub read_current : db.read s current_index_namespace meta.index_key ≡ ok (some current)
    pub pool_full : codec.is_empty pool ≡ false
    pub pool_numbers : codec.unmarshal_ints pool ≡ some nums
    pub current_index : index_of codec (some current) ≡ ok i

  index_of-marshal :
      (i : ℕ) → index_of codec (some (codec.marshal (("index", Json.num i) ∷ []))) ≡ ok i
  unfolding index_of unmarshal lookup
  index_of-marshal i = ground (
    arith,
    codec.unmarshal-marshal (("index", Json.num i) ∷ []),
    codec.lookup-reread (("index", Json.num i) ∷ []) "index",
    eq_refl "index",
  )

  module _ {nums : List ℕ} {i : ℕ} {s : S} (holds : Holds nums i s) where
    get_next-Holds :
        get_next_status_list_random_index db codec s meta ≡ number_at (get_elem? nums i)
    unfolding get_next_status_list_random_index pool_of
    get_next-Holds = ground (
      arith, holds.read_pool, holds.read_current, holds.pool_full, holds.pool_numbers,
      holds.current_index,
    )

    increment-Holds :
        (t : S)
        → increment_status_list_index_tx db codec wrap meta s t ≡ write_next db codec wrap meta i t
    unfolding increment_status_list_index_tx
    increment-Holds t = ground (arith, holds.read_current, holds.current_index)

    write_next_lem :
        (t : S)
        → i + 1 ≤ 131071
        → write_next db codec wrap meta i t
          ≡ db.tx_write current_index_namespace meta.index_key
              (codec.marshal (("index", Json.num (i + 1)) ∷ []))
              t
    unfolding write_next
    write_next_lem t room = ground arith

    number_at-eq-ok : (o : Option ℕ) (n : ℕ) → number_at o ≡ ok n → o ≡ some n
    unfolding number_at
    number_at-eq-ok none n h = absurd (ground arith)
    number_at-eq-ok (some m) n h = ground arith

    next_index-eq-ok :
        (t t' : S) (n : ℕ)
        → next_index db codec wrap meta s t ≡ (ok n, t')
        → (get_elem? nums i ≡ some n) × (write_next db codec wrap meta i t ≡ (ok tt, t'))
    unfolding next_index
    next_index-eq-ok t t' n h =
        elim (Result-cases (get_next_status_list_random_index db codec s meta)) [
          | inl (e, p) ↦ absurd (ground arith)
          | inr (m, p) ↦ elim (Run-cases (increment_status_list_index_tx db codec wrap meta s t)) [
            | inl (e, t1, q) ↦ absurd (ground arith)
            | inr (u, t1, q) ↦ (
              number_at-eq-ok (get_elem? nums i) n (ground (arith, get_next-Holds)),
              ground (arith, increment-Holds t),
            )
          ]
        ]

  module _ (lawful : IsLawful db) {nums : List ℕ} {i : ℕ} {s : S} (holds : Holds nums i s) where
    Holds-write :
        (t t' s' : S)
        → db.begin s ≡ (ok tt, t)
        → db.tx_write current_index_namespace meta.index_key
            (codec.marshal (("index", Json.num (i + 1)) ∷ []))
            t
          ≡ (ok tt, t')
        → db.commit t' ≡ (ok tt, s')
        → Holds nums (i + 1) s'
    Holds-write t t' s' b w c = record {
      pool = holds.pool;
      current = codec.marshal (("index", Json.num (i + 1)) ∷ []);
      read_pool = ground (
        arith,
        lawful.read-commit t' s' c index_pool_namespace meta.pool_key,
        lawful.read-tx_write current_index_namespace meta.index_key
            (codec.marshal (("index", Json.num (i + 1)) ∷ [])) t t' w index_pool_namespace
            meta.pool_key,
        lawful.read-begin s t b index_pool_namespace meta.pool_key,
        holds.read_pool,
      );
      read_current = ground (
        arith,
        lawful.read-commit t' s' c current_index_namespace meta.index_key,
        lawful.read-tx_write current_index_namespace meta.index_key
            (codec.marshal (("index", Json.num (i + 1)) ∷ [])) t t' w current_index_namespace
            meta.index_key,
        eq_refl meta.index_key,
      );
      pool_full = holds.pool_full;
      pool_numbers = holds.pool_numbers;
      current_index = index_of-marshal (i + 1);
    }

  -- One entry: the number at the current place is given out, and the place moves on.
  next_index-Holds :
      IsLawful db
      → (nums : List ℕ) (i n : ℕ) (s s' : S) → Holds nums i s
      → i + 1 ≤ 131071
      → execute db (next_index db codec wrap meta) s ≡ (ok n, s')
      → (get_elem? nums i ≡ some n) × Holds nums (i + 1) s'
  unfolding execute
  next_index-Holds lawful nums i n s s' holds room h =
      let (t, t', b, logic, c) =
        transaction-eq-ok db.begin db.commit (next_index db codec wrap meta) s n s' h in
      let (given, written) = next_index-eq-ok holds t t' n logic in
      (given, Holds-write lawful holds t t' s' b (sym (write_next_lem holds t room) ∙ written) c)

  Holds-move :
      {nums : List ℕ} (i j : ℕ) (s s' : S) → Holds nums i s → i ≡ j → s ≡ s' → Holds nums j s'
  Holds-move i j s s' holds p q = record {
    pool = holds.pool;
    current = holds.current;
    read_pool = ground (arith, holds.read_pool);
    read_current = ground (arith, holds.read_current);
    pool_full = holds.pool_full;
    pool_numbers = holds.pool_numbers;
    current_index = ground (arith, holds.current_index);
  }

  get_elem-step :
      (nums rest : List ℕ) (n i count : ℕ)
      → get_elem? nums i ≡ some n
      → ((j : ℕ) → j < count → get_elem? rest j ≡ get_elem? nums (i + 1 + j))
      → (j : ℕ) → j < suc count
      → get_elem? (n ∷ rest) j ≡ get_elem? nums (i + j)
  get_elem-step nums rest n i count first others zero l =
      sym first ∙ ap (get_elem? nums) (omega arith)
  get_elem-step nums rest n i count first others (suc j) l =
      others j (omega arith) ∙ ap (get_elem? nums) (omega arith)

  -- Entries made one after the other, while there is room, are given the numbers of the pool in
  -- their order, from the current place on, none left out and none given twice, and the place has
  -- moved on by as many.
  pub next_indexes_lem :
      IsLawful db
      → (nums : List ℕ) (count i : ℕ) (given : List ℕ) (s s' : S) → Holds nums i s
      → i + count ≤ 131071
      → next_indexes db codec wrap meta count s ≡ (ok given, s')
      → (length given ≡ count)
        × ((j : ℕ) → j < count → get_elem? given j ≡ get_elem? nums (i + j))
        × Holds nums (i + count) s'
  unfolding next_indexes
  next_indexes_lem lawful nums zero i given s s' holds room h = (
    ground arith,
    λ j l. absurd (omega arith),
    Holds-move i (i + 0) s s' holds (omega arith) (ground arith),
  )
  next_indexes_lem lawful nums (suc count) i given s s' holds room h =
      elim (Run-cases (execute db (next_index db codec wrap meta) s)) [
        | inl (e, t, p) ↦ absurd (ground arith)
        | inr (n, t, p) ↦ elim (Run-cases (next_indexes db codec wrap meta count t)) [
          | inl (e, t1, q) ↦ absurd (ground arith)
          | inr (rest, t1, q) ↦
              let given_is : given ≡ n ∷ rest = ground arith in
              let (first, holds') = next_index-Holds lawful nums i n s t holds (omega arith) p in
              let (long, others, after) =
                next_indexes_lem lawful nums count (i + 1) rest t t1 holds' (omega arith) q in
              (
                ground (arith, long),
                λ j l.
                    ap (λ g. get_elem? g j) given_is
                    ∙ get_elem-step nums rest n i count first others j l,
                Holds-move (i + 1 + count) (i + suc count) t1 s' after (omega arith) (ground arith),
              )
        ]
      ]

  -- Where the place is the last one, or past it, an entry is made without an error, and the place
  -- stays: the next entry is given the same number. `LoggingErrorMsg` makes no error of nil.
  pub next_index_repeats :
      (nums : List ℕ) (i n : ℕ) (s t : S)
      → Holds nums i s
      → 131071 ≤ i
      → get_elem? nums i ≡ some n
      → wrap none ≡ none
      → next_index db codec wrap meta s t ≡ (ok n, t)
  unfolding next_index write_next returned number_at
  next_index_repeats nums i n s t holds past given silent =
      ground (arith, get_next-Holds holds, increment-Holds holds t)

  -- Two entries made in one transaction, as a batch makes them, are given the same number: both read
  -- the committed store.
  pub batch_repeats :
      (nums : List ℕ) (i a b : ℕ) (s t t' t'' : S)
      → Holds nums i s
      → next_index db codec wrap meta s t ≡ (ok a, t')
      → next_index db codec wrap meta s t' ≡ (ok b, t'')
      → a ≡ b
  batch_repeats nums i a b s t t' t'' holds first second =
      ground
        (arith, (next_index-eq-ok holds t t' a first).0, (next_index-eq-ok holds t' t'' b second).0)
