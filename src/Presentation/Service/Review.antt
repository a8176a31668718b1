-- ===== src/Presentation/Service/Review.antt =====
-- The outcomes of a review.
use ssi_service.Prelude.{
  ℕ, String, ◌≡◌, refl, sym, ap, ◌∙◌, if◌then◌else◌, Result, true, false, leb, Bool, [], ◌∷◌,
  lookup, insert, lookup-insert, some, ok, then_pure, Result-cases, inl, inr, ◌⊎◌, err, Error, ◌==◌,
  arith, Bool-cases, Run-cases,
}
use mathlib.Core.Path.{subst}
use ssi_service.Json.{Json, Document, Codec, as_value, insert_all}
use ssi_service.Storage.Contract.{ServiceStorage, IsLawful}
use ssi_service.Storage.Update.{unmarshal, new_updater, update_value_and_operation}
use ssi_service.Storage.Update.Laws.{update_value_and_operation_fails}
use ssi_service.Operation.Ids.{from_id, id_from_submission_id}
use ssi_service.Operation.Stored.{
  StoredOperation, operation_updater, done_values, unmarshal_operation,
}
use ssi_service.Operation.Storage.{submission_namespace}
use ssi_service.Operation.Stored.Finish.{Finishes, update_value_and_operation-Finishes}
use ssi_service.Presentation.Storage.{
  SdkValue, review_values, update_submission, document_submission, unmarshal_submission,
  status_string,
}
use ssi_service.Presentation.Service.{Submission, submission_model, review_submission}

module _ {S Bytes Vp Pd : Type 0} (db : ServiceStorage S Bytes) (codec : Codec Bytes)
    (vp : SdkValue Vp) (pd : SdkValue Pd) (lawful : IsLawful db) where
  -- A submission that was reviewed reads with the new status and reason, if its presentation can be read.
  document_submission-reviewed :
      (n : ℕ) (reason : String) (m : Document)
      → leb n 255 ≡ true
      → document_submission vp
          (codec.reread (insert "reason" (Json.str reason) (insert "status" (Json.num n) m)))
        ≡ then_pure
            (then_pure (as_value (lookup "vp" m)) vp.of_json)
            (λ p. ok (record { status = n; reason = reason; presentation = p }))
  unfolding document_submission
  document_submission-reviewed n reason m small =
      let new = insert "reason" (Json.str reason) (insert "status" (Json.num n) m) in
      rw
        (
          codec.lookup-reread new "status",
          codec.lookup-reread new "reason",
          codec.lookup-reread new "vp",
        )
        (simp lookup-insert (elim (Result-cases (then_pure (as_value (lookup "vp" m)) vp.of_json)) [
          | inl (e, p) ↦ ground (arith, small, p)
          | inr (v, p) ↦ ground (arith, small, p)
        ]))

  -- What a review answers of the submission that was stored.
  abbrev pub answer : Bool → String → Document → Result (Submission Vp)
  answer approved reason m = then_pure (then_pure (as_value (lookup "vp" m)) vp.of_json) λ p.
      ok (record {
        status = if approved then "approved" else "denied";
        reason = reason;
        presentation = p;
      })

  review-eq :
      (id : String) (approved : Bool) (reason : String) (s t : S) (first b : Bytes)
      (op : StoredOperation Bytes)
      → (approved ≡ true) ⊎ (approved ≡ false)
      → (id == "") ≡ false
      → update_value_and_operation db submission_namespace id
          (new_updater codec (review_values approved reason))
          (from_id (id_from_submission_id id))
          (id_from_submission_id id)
          (operation_updater codec (done_values codec))
          s
        ≡ (ok (first, b), t)
      → unmarshal_operation codec (some b) ≡ ok op
      → (m : Document)
      → unmarshal codec (some first)
        ≡ ok (codec.reread (insert_all (review_values approved reason) m))
      → review_submission db codec vp pd id approved reason s ≡ (answer approved reason m, t)
  unfolding review_submission update_submission unmarshal_submission submission_model status_string
  review-eq id approved reason s t first b op which named p decoded m read = elim which [
    | inl accepts ↦
        let reviewed = document_submission-reviewed 4 reason m refl in
        elim (Result-cases (then_pure (as_value (lookup "vp" m)) vp.of_json)) [
          | inl (e, q) ↦ ground (arith, reviewed)
          | inr (v, q) ↦ ground (arith, reviewed)
        ]
    | inr refuses ↦
        let reviewed = document_submission-reviewed 3 reason m refl in
        elim (Result-cases (then_pure (as_value (lookup "vp" m)) vp.of_json)) [
          | inl (e, q) ↦ ground (arith, reviewed)
          | inr (v, q) ↦ ground (arith, reviewed)
        ]
  ]

  -- A review either leaves the store as it was, with an error, or gives the submission the status 4
  -- when it is approved and 3 when it is denied, and the reason, and marks its operation, which was
  -- not done, as done with the submission for its response; no other place changes. It then answers
  -- with the name of the status, the reason and the presentation, or with an error where the
  -- stored presentation cannot be read.
  pub review_submission-cases :
      (id : String) (approved : Bool) (reason : String) (s : S)
      → ((e : Error) × (review_submission db codec vp pd id approved reason s ≡ (err e, s)))
        ⊎ ((op : StoredOperation Bytes) × (f : Finishes db codec "presentation_submission" id
              (("status", Json.num (if approved then 4 else 3)) ∷ ("reason", Json.str reason) ∷ [])
              (id_from_submission_id id)
              s
              (review_submission db codec vp pd id approved reason s).1
              op)
            × ((review_submission db codec vp pd id approved reason s).0
                ≡ answer approved reason f.object))
  unfolding review_submission update_submission
  review_submission-cases id approved reason s = elim (Bool-cases (id == "")) [
    | inl empty ↦ inl (Error.invalid, rw empty)
    | inr named ↦
        elim (Run-cases (
          update_value_and_operation db submission_namespace id
            (new_updater codec (review_values approved reason)) (from_id (id_from_submission_id id))
            (id_from_submission_id id) (operation_updater codec (done_values codec)) s)) [
              | inl (e, t, p) ↦
                  let same =
                    update_value_and_operation_fails db lawful submission_namespace id
                      (new_updater codec (review_values approved reason))
                      (from_id (id_from_submission_id id)) (id_from_submission_id id)
                      (operation_updater codec (done_values codec)) s t e p in
                  inl (e, rw named (ground (arith, same, p)))
              | inr ((first, b), t, p) ↦
                  let (op, decoded, f, response_is) =
                    update_value_and_operation-Finishes db codec lawful submission_namespace id
                      (review_values approved reason) (id_from_submission_id id) s t first b p in
                  let (g, answered) =
                    subst
                      (λ x.
                        (g : Finishes db codec submission_namespace id
                          (review_values approved reason) (id_from_submission_id id) s x.1 op)
                        × (x.0 ≡ answer approved reason g.object))
                      (sym (
                        review-eq id approved reason s t first b op (Bool-cases approved) named p
                          decoded f.object
                          (ap (λ c. unmarshal codec (some c)) (sym response_is) ∙ f.new_object)))
                      (f, refl) in
                  inr (op, g, answered)
            ]
  ]
