-- ===== src/Credential/Status/Listed.antt =====
-- The credentials that a new status list marks.
use mathlib.Core.List.{Memᴰ}
use mathlib.Core.List.Memᴰ
use ssi_service.Prelude.{
  ◌≡◌, ◌≢◌, eq_iff, ◌&&◌, refl, sym, true, false, ◌||◌, some, inl, inr, ◌⊎◌, List, [], ◌∷◌, ◌++◌,
  ok, ◌==◌, arith, Bool-cases, Result-cases, Option-cases, if◌then◌else◌, then_pure-eq-ok,
}
use ssi_service.Credential.Stored.{Credential, StoredCredential, StatusEntry}
use ssi_service.Credential.Status.{UpdateRequest, goes_in, others_listed, listed}

module _ (r : UpdateRequest) (got : Credential) where
  -- A stored credential that the code puts into the list besides `got`.
  abbrev pub Goes : StoredCredential → Credential → Type 0
  Goes sc c = (sc.credential ≡ some c) × ((c.id == got.id) ≡ false) × (goes_in r sc c ≡ true)

  others_listed-step :
      (sc : StoredCredential) (creds : List StoredCredential) (l : List Credential)
      → others_listed r got (sc ∷ creds) ≡ ok l
      → (c : Credential) × (more : List Credential) × (sc.credential ≡ some c)
        × (others_listed r got creds ≡ ok more)
        × (((l ≡ c ∷ more) × ((c.id == got.id) ≡ false) × (goes_in r sc c ≡ true))
            ⊎ ((l ≡ more) × (((c.id == got.id) ≡ true) ⊎ (goes_in r sc c ≡ false))))
  unfolding others_listed
  others_listed-step sc creds l h = elim (Option-cases sc.credential) [
    | inl p ↦ absurd (ground arith)
    | inr (c, p) ↦ elim (Result-cases (others_listed r got creds)) [
      | inl (e, q) ↦ absurd (ground arith)
      | inr (more, q) ↦ elim (Bool-cases (c.id == got.id)) [
        | inl same ↦ (c, more, p, q, inr (ground arith, inl same))
        | inr other ↦ elim (Bool-cases (goes_in r sc c)) [
          | inl goes ↦ (c, more, p, q, inl (ground arith, other, goes))
          | inr stays ↦ (c, more, p, q, inr (ground arith, inr stays))
        ]
      ]
    ]
  ]

  others_complete :
      (creds : List StoredCredential) (l : List Credential)
      → others_listed r got creds ≡ ok l
      → (sc : StoredCredential) (c : Credential) → Memᴰ sc creds
      → Goes sc c
      → Memᴰ c l
  others_complete [] l h sc c m marked = absurd (Memᴰ.not-nil m)
  others_complete (x ∷ creds) l h sc c m (has, other, goes) =
      let (y, more, y_of, rest, split) = others_listed-step x creds l h in
      elim (Memᴰ.cases_cons m) [
        | inl is_x ↦
            let c_is : c ≡ y = ground (arith, has, y_of) in
            elim split [
              | inl (l_is, _, _) ↦ rw l_is (Memᴰ.head c_is)
              | inr (l_is, inl same) ↦ absurd (ground arith)
              | inr (l_is, inr stays) ↦ absurd (ground arith)
            ]
        | inr later ↦
            let found = others_complete creds more rest sc c later (has, other, goes) in
            elim split [
              | inl (l_is, _, _) ↦ rw l_is (Memᴰ.tail found)
              | inr (l_is, _) ↦ rw l_is found
            ]
      ]

  others_sound :
      (creds : List StoredCredential) (l : List Credential)
      → others_listed r got creds ≡ ok l
      → (c : Credential) → Memᴰ c l
      → (sc : StoredCredential) × Memᴰ sc creds × Goes sc c
  unfolding others_listed
  others_sound [] l h c m =
      let none_left : l ≡ [] = ground arith in absurd (Memᴰ.not-nil (rw none_left at m))
  others_sound (x ∷ creds) l h c m =
      let (y, more, y_of, rest, split) = others_listed-step x creds l h in
      elim split [
        | inl (l_is, other, goes) ↦ elim (Memᴰ.cases_cons (rw l_is at m)) [
          | inl c_is ↦ (x, Memᴰ.head refl, (ground arith, ground arith, ground arith))
          | inr later ↦
              let (sc, found, marked) = others_sound creds more rest c later in
              (sc, Memᴰ.tail found, marked)
        ]
        | inr (l_is, _) ↦
            let (sc, found, marked) = others_sound creds more rest c (rw l_is at m) in
            (sc, Memᴰ.tail found, marked)
      ]

  -- A stored credential that the request marks besides `got`: it has another id and a status entry, and is
  -- revoked where the request revokes, or suspended where it suspends.
  abbrev pub IsMarked : StoredCredential → Credential → Type 0
  IsMarked sc c =
      (sc.credential ≡ some c)
      × (c.id ≢ got.id)
      × ((entry : StatusEntry) × (c.status ≡ some entry))
      × (((r.revoked ≡ true) × (sc.revoked ≡ true))
          ⊎ ((r.suspended ≡ true) × (sc.suspended ≡ true)))

  Goes-IsMarked : (sc : StoredCredential) (c : Credential) → Goes sc c → IsMarked sc c
  unfolding goes_in
  Goes-IsMarked sc c (has, other, goes) =
      let differs : c.id ≢ got.id = λ e. ground (arith, eq_iff c.id got.id) in
      elim (Option-cases c.status) [
        | inl no_entry ↦ absurd (ground arith)
        | inr (entry, p) ↦ elim (Bool-cases r.revoked) [
          | inl revokes ↦ elim (Bool-cases sc.revoked) [
            | inl is_revoked ↦ (has, differs, (entry, p), inl (revokes, is_revoked))
            | inr live ↦ (has, differs, (entry, p), inr (ground arith, ground arith))
          ]
          | inr keeps ↦ (has, differs, (entry, p), inr (ground arith, ground arith))
        ]
      ]

  IsMarked-Goes : (sc : StoredCredential) (c : Credential) → IsMarked sc c → Goes sc c
  unfolding goes_in
  IsMarked-Goes sc c (has, differs, (entry, p), flag) = (
    has,
    ground (arith, differs, eq_iff c.id got.id),
    elim flag [
      | inl (revokes, is_revoked) ↦ ground arith
      | inr (suspends, is_suspended) ↦ elim (Bool-cases (r.revoked && sc.revoked)) [
        | inl both ↦ ground arith
        | inr not_both ↦ ground arith
      ]
    ],
  )

  -- A request that revokes or suspends makes a list of exactly `got` and those of the stored credentials
  -- it is given that have another id, a status entry, and the flag: revoked where the request
  -- revokes, or suspended where it suspends.
  pub listed-IsMarked :
      (creds : List StoredCredential) (l : List Credential)
      → (r.revoked || r.suspended) ≡ true
      → listed r got creds ≡ ok l
      → Memᴰ got l
        × ((sc : StoredCredential) (c : Credential) → Memᴰ sc creds → IsMarked sc c → Memᴰ c l)
        × ((c : Credential)
            → Memᴰ c l
            → (c ≡ got) ⊎ ((sc : StoredCredential) × Memᴰ sc creds × IsMarked sc c))
  unfolding listed
  listed-IsMarked creds l set h =
      let (others, found, end) =
        then_pure-eq-ok (others_listed r got creds)
          (λ o. ok (if r.revoked || r.suspended then o ++ (got ∷ []) else o)) l h in
      let l_is : l ≡ others ++ (got ∷ []) = ground arith in
      (
        rw l_is (Memᴰ.append_right others (Memᴰ.head refl)),
        λ sc c m marked. rw l_is (
            Memᴰ.append_left (got ∷ [])
              (others_complete creds others found sc c m (IsMarked-Goes sc c marked))),
        λ c m. elim (Memᴰ.append_cases others (rw l_is at m)) [
          | inl other ↦
              let (sc, there, goes) = others_sound creds others found c other in
              inr (sc, there, Goes-IsMarked sc c goes)
          | inr last ↦ inl (Memᴰ.eq_of_singleton last)
        ],
      )

  -- A request that sets neither flag, which lifts a revocation or a suspension, makes an empty list,
  -- whatever other credentials the list marked.
  pub listed_lifted :
      (creds : List StoredCredential) (l : List Credential)
      → r.revoked ≡ false
      → r.suspended ≡ false
      → listed r got creds ≡ ok l
      → l ≡ []
  unfolding listed goes_in
  listed_lifted creds [] not_revoked not_suspended h = refl
  listed_lifted creds (c ∷ l) not_revoked not_suspended h =
      let (others, found, end) =
        then_pure-eq-ok (others_listed r got creds)
          (λ o. ok (if r.revoked || r.suspended then o ++ (got ∷ []) else o)) (c ∷ l) h in
      let l_is : c ∷ l ≡ others = ground arith in
      let (sc, m, (a, b, goes)) =
        others_sound creds others found c (rw (sym l_is) (Memᴰ.head refl)) in
      absurd (ground arith)
