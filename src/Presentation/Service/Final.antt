-- ===== src/Presentation/Service/Final.antt =====
-- A submission's fate is sealed once: what reviews and cancellations can still do after its
-- operation is done.
use text.Mathlib.TextLemmas.{append_cancel_left}
use text.Mathlib.TextPositions.{starts_with-append}
use Prim.Native.String
use mathlib.Core.Path.{subst₃}
use mathlib.Core.Bool.{false≢true}
use ssi_service.Prelude.{
  ℕ, String, ◌≡◌, ◌≢◌, refl, sym, ◌∙◌, ap, Bool, true, false, none, List, [], ◌∷◌, inl, inr, ◌⊎◌,
  ok, err, Error, ◌==◌, eq_false, then_pure, arith,
}
use ssi_service.Json.{Codec, Document}
use ssi_service.Storage.Contract.{ServiceStorage, IsLawful}
use ssi_service.Operation.Ids.{
  from_id, id_from_submission_id, status_object_id, cut_last, ids_roundtrip, submission_parent,
}
use ssi_service.Operation.Stored.{StoredOperation}
use ssi_service.Operation.Stored.Finish.{Finishes}
use ssi_service.Operation.Storage.{
  submission_namespace, get_operation, found_operation, cancel_operation, cancelled_values,
}
use ssi_service.Operation.Storage.Cancel.{cancel_operation-cases, CancelTarget, Finishes-open}
use ssi_service.Presentation.Storage.{SdkValue, review_values}
use ssi_service.Presentation.Service.{review_submission}
use ssi_service.Presentation.Service.Review.{review_submission-cases}

-- The calls that end an operation on a submission.
pub data Call : Type 0 where
  cancels : String → Call
  reviews : String → Bool → String → Call

abbrev pub target : Call → String
target (cancels id) = id
target (reviews id approved reason) = id

-- Ids of submissions have no "/".
abbrev pub IsPlain : String → Type 0
IsPlain id = cut_last id ≡ none

abbrev pub ArePlain : List Call → Type 0
ArePlain [] = Unit {0}
ArePlain (c ∷ cs) = IsPlain (target c) × ArePlain cs

id_from_submission_id-injective :
    (a b : String) → id_from_submission_id a ≡ id_from_submission_id b → a ≡ b
unfolding id_from_submission_id
id_from_submission_id-injective a b h =
    append_cancel_left "/" a b (append_cancel_left submission_parent _ _ h)

module _ {S Bytes Vp Pd : Type 0} (db : ServiceStorage S Bytes) (codec : Codec Bytes)
    (vp : SdkValue Vp) (pd : SdkValue Pd) where
  pub step : S → Call → S
  step s (cancels id) = (cancel_operation db codec (id_from_submission_id id) s).1
  step s (reviews id approved reason) = (review_submission db codec vp pd id approved reason s).1

  pub run : S → List Call → S
  run s [] = s
  run s (c ∷ cs) = run (step s c) cs

  module _ (lawful : IsLawful db) where
    cancel_step :
        (s : S) (id : String)
        → IsPlain id
        → ((e : Error) × (cancel_operation db codec (id_from_submission_id id) s ≡ (err e, s)))
          ⊎ ((op : StoredOperation Bytes) × (s' : S) × (ns : String) × (status : ℕ)
              × (cancel_operation db codec (id_from_submission_id id) s ≡ (ok op, s'))
              × CancelTarget db codec (id_from_submission_id id) ns status
              × Finishes db codec ns
                  (status_object_id (id_from_submission_id id))
                  (cancelled_values status)
                  (id_from_submission_id id)
                  s
                  s'
                  op)
        → (step s (cancels id) ≡ s)
          ⊎ ((values : Document) × (op : StoredOperation Bytes) × Finishes db codec
                submission_namespace id values
                (id_from_submission_id id)
                s
                (step s (cancels id))
                op)
    unfolding step id_from_submission_id
    cancel_step s id plain (inl (e, h)) = inl (ap (λ r. r.1) h)
    cancel_step s id plain (inr (op, s', ns, status, h, inl (sub, same_ns, same_status), f)) = inr (
      cancelled_values status,
      op,
      subst₃
          (λ n k t.
            Finishes db codec n k (cancelled_values status) (id_from_submission_id id) s t op)
          same_ns (ids_roundtrip id plain).0 (sym (ap (λ r. r.1) h)) f,
    )
    cancel_step s id plain
          (inr (op, s', ns, status, h, inr (not_sub, cred, other_ns, other_status), f)) =
        absurd
          (false≢true (sym not_sub ∙ starts_with-append submission_parent (String.◌++◌ "/" id)))

    -- Each call changes nothing, or finishes the operation of its submission.
    step-cases :
        (s : S) (c : Call)
        → IsPlain (target c)
        → (step s c ≡ s)
          ⊎ ((values : Document) × (op : StoredOperation Bytes) × Finishes db codec
                submission_namespace
                (target c)
                values
                (id_from_submission_id (target c))
                s
                (step s c)
                op)
    unfolding step
    step-cases s (reviews id approved reason) plain =
        elim (review_submission-cases db codec vp pd lawful id approved reason s) [
          | inl (e, h) ↦ inl (ap (λ r. r.1) h)
          | inr (op, f, _) ↦ inr (review_values approved reason, op, f)
        ]
    step-cases s (cancels id) plain =
        cancel_step s id plain (cancel_operation-cases db codec lawful (id_from_submission_id id) s)

    -- The operation of another submission, and the submission, are not touched.
    other_untouched :
        (s s' : S) (id j : String) (values : Document) (op : StoredOperation Bytes)
        → IsPlain id
        → IsPlain j
        → j ≢ id
        → Finishes db codec submission_namespace j values (id_from_submission_id j) s s' op
        → (db.read s' submission_namespace id ≡ db.read s submission_namespace id)
          × (get_operation db codec s' (id_from_submission_id id)
              ≡ get_operation db codec s (id_from_submission_id id))
    unfolding get_operation
    other_untouched s s' id j values op plain plain_j ne f =
        let place : from_id (id_from_submission_id id) ≡ "operation_submission" =
          (ids_roundtrip id plain).1 in
        let place_j = (ids_roundtrip j plain_j).1 in
        let op_place : (from_id (id_from_submission_id j) == submission_namespace) ≡ false =
          ap (λ n. n == submission_namespace) place_j in
        let object_place : (submission_namespace == from_id (id_from_submission_id id)) ≡ false =
          ap (λ n. submission_namespace == n) place in
        let other : (j == id) ≡ false = eq_false j id ne in
        let other_op : (id_from_submission_id j == id_from_submission_id id) ≡ false =
          eq_false _ _ (λ e. ne (id_from_submission_id-injective j id e)) in
        (
          ground (arith, f.after submission_namespace id, op_place, other),
          ap (λ r. then_pure r (found_operation db codec))
              (ground (
                arith,
                f.after (from_id (id_from_submission_id id)) (id_from_submission_id id),
                object_place,
                other_op,
              )),
        )

    -- What one call leaves of a submission whose operation is done.
    sealed_step :
        (s : S) (c : Call) (id : String) (op : StoredOperation Bytes)
        → IsPlain id
        → IsPlain (target c)
        → get_operation db codec s (id_from_submission_id id) ≡ ok op
        → op.done ≡ true
        → (db.read (step s c) submission_namespace id ≡ db.read s submission_namespace id)
          × (get_operation db codec (step s c) (id_from_submission_id id) ≡ ok op)
    sealed_step s c id op plain plain_c stored done = elim (step-cases s c plain_c) [
      | inl same ↦ (
        ap (λ t. db.read t submission_namespace id) same,
        ap (λ t. get_operation db codec t (id_from_submission_id id)) same ∙ stored,
      )
      | inr (values, op', f) ↦
          let ne : target c ≢ id = λ e. false≢true (
            sym (
              Finishes-open db codec f op
                (ap (λ j. get_operation db codec s (id_from_submission_id j)) e ∙ stored))
            ∙ done) in
          let (object, operation) =
            other_untouched s (step s c) id (target c) values op' plain plain_c ne f in
          (object, operation ∙ stored)
    ]

    -- Once the operation of a submission is done, no sequence of reviews and cancellations, of this
    -- submission or of others, changes the stored submission or the operation. No id of the submissions
    -- has a slash.
    pub done_is_final :
        (s : S) (calls : List Call) (id : String) (op : StoredOperation Bytes)
        → IsPlain id
        → ArePlain calls
        → get_operation db codec s (id_from_submission_id id) ≡ ok op
        → op.done ≡ true
        → (db.read (run s calls) submission_namespace id ≡ db.read s submission_namespace id)
          × (get_operation db codec (run s calls) (id_from_submission_id id) ≡ ok op)
    unfolding run
    done_is_final s [] id op plain plains stored done = (refl, stored)
    done_is_final s (c ∷ cs) id op plain plains stored done =
        let (object, operation) = sealed_step s c id op plain plains.0 stored done in
        let (rest, last) = done_is_final (step s c) cs id op plain plains.1 operation done in
        (rest ∙ object, last)
