-- ===== src/Issuance/Laws.antt =====
-- What the creation of a template checks and leaves, and what the lists of templates answer.
use mathlib.Core.List.{Memᴰ}
use mathlib.Core.List.Memᴰ
use ssi_service.Prelude.{
  sym, ap, ◌∙◌, String, ◌≡◌, ◌≢◌, ◌⊎◌, refl, false, inl, inr, Bool, none, some, List, [], ◌∷◌,
  Assoc, ok, ◌==◌, eq_iff, arith, Bool-cases, Option-cases, Result-cases, Run-cases, if◌then◌else◌,
}
use ssi_service.Json.{Codec}
use ssi_service.Storage.Contract.{ServiceStorage, IsLawful}
use ssi_service.Storage.Kind.{Kind, store_value, find_value, value_of}
use ssi_service.Storage.Kind.Laws.{find_value-store_value, value_of-marshal}
use ssi_service.Storage.Update.{unmarshal}
use ssi_service.Schema.{StoredSchema, get_schema}
use ssi_service.Requests.{list_all, all_values}
use ssi_service.Issuance.Stored.{
  TimeLike, CredentialTemplate, Template, zero_template, template_namespace, template_kind,
  listed_kind,
}
use ssi_service.Issuance.Stored.Laws.{template_kind-IsFaithful, listed_kind_blank}
use ssi_service.Issuance.{
  with_id, of_manifest, not_both, get_template, list_templates, get_templates_by_manifest_id,
  check_expiry, check_schema, check_credential, check_credentials, create_template,
}

module _ {S Bytes : Type 0} (db : ServiceStorage S Bytes) (codec : Codec Bytes) where
  -- A credential can be issued from its template: it has an id, at most one expiry, and its schema, if
  -- it has one, is stored.
  abbrev pub IsIssuable : S → CredentialTemplate → Type 0
  IsIssuable s c =
      ((c.expiry.time ≡ none) ⊎ (c.expiry.duration ≡ none))
      × (c.id ≢ "")
      × ((c.schema ≡ "") ⊎ ((stored : StoredSchema) × (get_schema db codec s c.schema ≡ ok stored)))

  abbrev pub AreIssuable : S → List CredentialTemplate → Type 0
  AreIssuable s [] = Unit {0}
  AreIssuable s (c ∷ cs) = IsIssuable s c × AreIssuable s cs

  check_expiry-eq-ok :
      (expiry : TimeLike)
      → check_expiry expiry ≡ ok tt
      → (expiry.time ≡ none) ⊎ (expiry.duration ≡ none)
  unfolding check_expiry not_both
  check_expiry-eq-ok expiry h = elim (Option-cases expiry.time) [
    | inl no_time ↦ inl no_time
    | inr (t, p) ↦ elim (Option-cases expiry.duration) [
      | inl no_duration ↦ inr no_duration
      | inr (n, q) ↦ absurd (ground arith)
    ]
  ]

  check_schema-eq-ok :
      (s : S) (id : String)
      → check_schema db codec s id ≡ ok tt
      → (id ≡ "") ⊎ ((stored : StoredSchema) × (get_schema db codec s id ≡ ok stored))
  unfolding check_schema
  check_schema-eq-ok s id h = elim (Bool-cases (id == "")) [
    | inl empty ↦ inl ((eq_iff id "").0 empty)
    | inr named ↦ elim (Result-cases (get_schema db codec s id)) [
      | inl (x, p) ↦ absurd (ground arith)
      | inr (stored, p) ↦ inr (stored, p)
    ]
  ]

  check_credential-eq-ok :
      (s : S) (c : CredentialTemplate) → check_credential db codec s c ≡ ok tt → IsIssuable s c
  unfolding check_credential
  check_credential-eq-ok s c h = elim (Result-cases (check_expiry c.expiry)) [
    | inl (x, p) ↦ absurd (ground arith)
    | inr (u, p) ↦ elim (Bool-cases (c.id == "")) [
      | inl empty ↦ absurd (ground arith)
      | inr named ↦ (
        check_expiry-eq-ok c.expiry (ground arith),
        λ e. ground (arith, eq_iff c.id ""),
        check_schema-eq-ok s c.schema (ground arith),
      )
    ]
  ]

  check_credentials-eq-ok :
      (s : S) (cs : List CredentialTemplate)
      → check_credentials db codec s cs ≡ ok tt
      → AreIssuable s cs
  unfolding check_credentials
  check_credentials-eq-ok s [] h = tt
  check_credentials-eq-ok s (c ∷ cs) h = elim (Result-cases (check_credential db codec s c)) [
    | inl (x, p) ↦ absurd (ground arith)
    | inr (u, p) ↦
        (check_credential-eq-ok s c (ground arith), check_credentials-eq-ok s cs (ground arith))
  ]

  create_template-eq-ok :
      {M : Type 0} (manifests : Kind M) (uuid : String) (valid : Bool) (t made : Template)
      (s s' : S)
      → create_template db codec manifests uuid valid t s ≡ (ok made, s')
      → (check_credentials db codec s t.credentials ≡ ok tt)
        × (m : M) × (find_value db codec manifests s t.manifest ≡ ok m)
        × (made ≡ with_id uuid t)
        × (store_value db codec template_kind (with_id uuid t) s ≡ (ok tt, s'))
  unfolding create_template
  create_template-eq-ok manifests uuid valid t made s s' h = elim (Bool-cases valid) [
    | inr bad ↦ absurd (ground arith)
    | inl good ↦ elim (Result-cases (check_credentials db codec s t.credentials)) [
      | inl (x, p) ↦ absurd (ground arith)
      | inr (u, p) ↦ elim (Result-cases (find_value db codec manifests s t.manifest)) [
        | inl (x, q) ↦ absurd (ground arith)
        | inr (m, q) ↦ elim (Run-cases (store_value db codec template_kind (with_id uuid t) s)) [
          | inl (x, t', w) ↦ absurd (ground arith)
          | inr (v, t', w) ↦ (ground arith, m, q, ground arith, ground arith)
        ]
      ]
    ]
  ]

  -- A template that was created had a stored manifest and credentials that can be issued; it is got
  -- under its new id as it was answered, the template of the request with that id, and every other
  -- one as before.
  pub get_template-create_template :
      {M : Type 0} (manifests : Kind M)
      → IsLawful db
      → (uuid : String) (valid : Bool) (t made : Template) (s s' : S) → (uuid == "") ≡ false
      → create_template db codec manifests uuid valid t s ≡ (ok made, s')
      → (made ≡ with_id uuid t)
        × AreIssuable s t.credentials
        × ((m : M) × (find_value db codec manifests s t.manifest ≡ ok m))
        × ((id : String)
            → get_template db codec s' id
              ≡ (if uuid == id then ok made else get_template db codec s id))
  unfolding get_template with_id template_kind
  get_template-create_template manifests lawful uuid valid t made s s' fresh h =
      let (checked, m, found, made_is, w) =
        create_template-eq-ok manifests uuid valid t made s s' h in
      let (after, _) =
        find_value-store_value db codec template_kind template_kind-IsFaithful lawful
          (with_id uuid t) s s' w in
      (
        made_is,
        check_credentials-eq-ok s t.credentials checked,
        (m, found),
        λ id. ground (arith, after id, made_is, eq_iff uuid id, eq_iff id ""),
      )

  -- The entries of the store that hold these templates, as they are stored.
  unfoldable pub entries_of : List Template → Assoc Bytes
  entries_of [] = []
  entries_of (t ∷ ts) = (t.id, codec.marshal (template_kind.to_document t)) ∷ entries_of ts

  unfoldable pub blanks : List Template → List Template
  blanks [] = []
  blanks (t ∷ ts) = zero_template ∷ blanks ts

  blank_value :
      (t : Template)
      → value_of db codec listed_kind (some (codec.marshal (template_kind.to_document t)))
        ≡ ok zero_template
  unfolding value_of unmarshal
  blank_value t = ground (
    arith,
    codec.unmarshal-marshal (template_kind.to_document t),
    listed_kind_blank t (codec.reread (template_kind.to_document t))
        (codec.lookup-reread (template_kind.to_document t)),
  )

  all_values_blank :
      (ts : List Template) → all_values db codec listed_kind (entries_of ts) ≡ ok (blanks ts)
  unfolding all_values entries_of blanks
  all_values_blank [] = refl
  all_values_blank (t ∷ ts) = ground (arith, blank_value t, all_values_blank ts)

  all_values-entries_of :
      (ts : List Template) → all_values db codec template_kind (entries_of ts) ≡ ok ts
  unfolding all_values entries_of
  all_values-entries_of [] = refl
  all_values-entries_of (t ∷ ts) = ground (
    arith,
    value_of-marshal db codec template_kind template_kind-IsFaithful t,
    all_values-entries_of ts,
  )

  of_manifest_sound :
      (id : String) (ts : List Template) (t : Template)
      → Memᴰ t (of_manifest id ts)
      → Memᴰ t ts × (t.manifest ≡ id)
  unfolding of_manifest
  of_manifest_sound id [] t m = absurd (Memᴰ.not-nil m)
  of_manifest_sound id (x ∷ ts) t m = elim (Bool-cases (x.manifest == id)) [
    | inl same ↦
        let with_x : of_manifest id (x ∷ ts) ≡ x ∷ of_manifest id ts = ground arith in
        elim (Memᴰ.cases_cons (rw with_x at m)) [
          | inl is_x ↦ (
            Memᴰ.head is_x,
            ap (λ (y : Template). y.manifest) is_x ∙ (eq_iff x.manifest id).0 same,
          )
          | inr later ↦
              let (there, is_id) = of_manifest_sound id ts t later in (Memᴰ.tail there, is_id)
        ]
    | inr other ↦
        let without_x : of_manifest id (x ∷ ts) ≡ of_manifest id ts = ground arith in
        let (there, is_id) = of_manifest_sound id ts t (rw without_x at m) in
        (Memᴰ.tail there, is_id)
  ]

  of_manifest_complete :
      (id : String) (ts : List Template) (t : Template)
      → Memᴰ t ts
      → t.manifest ≡ id
      → Memᴰ t (of_manifest id ts)
  unfolding of_manifest
  of_manifest_complete id [] t m is_id = absurd (Memᴰ.not-nil m)
  of_manifest_complete id (x ∷ ts) t m is_id = elim (Bool-cases (x.manifest == id)) [
    | inl same ↦ elim (Memᴰ.cases_cons m) [
      | inl is_x ↦ rw same (Memᴰ.head is_x)
      | inr later ↦ rw same (Memᴰ.tail (of_manifest_complete id ts t later is_id))
    ]
    | inr other ↦ elim (Memᴰ.cases_cons m) [
      | inl is_x ↦
          let x_is : x.manifest ≡ id = ap (λ (y : Template). y.manifest) (sym is_x) ∙ is_id in
          absurd (ground (arith, eq_iff x.manifest id))
      | inr later ↦ rw other (of_manifest_complete id ts t later is_id)
    ]
  ]

  -- When the store holds these templates, the search by a manifest answers with exactly those of the
  -- manifest, but the list of all templates answers with as many blank ones.
  pub list_templates_blank :
      (ts : List Template) (s : S) (id : String)
      → db.read_all s template_namespace ≡ ok (entries_of ts)
      → (id == "") ≡ false
      → (get_templates_by_manifest_id db codec s id ≡ ok (of_manifest id ts))
        × (list_templates db codec s ≡ ok (blanks ts))
        × ((t : Template) → Memᴰ t (of_manifest id ts) → Memᴰ t ts × (t.manifest ≡ id))
        × ((t : Template) → Memᴰ t ts → t.manifest ≡ id → Memᴰ t (of_manifest id ts))
  unfolding list_templates get_templates_by_manifest_id list_all listed_kind template_kind
  list_templates_blank ts s id stored named = (
    ground (arith, all_values-entries_of ts),
    ground (arith, all_values_blank ts),
    of_manifest_sound id ts,
    of_manifest_complete id ts,
  )
