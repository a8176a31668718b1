-- ===== src/Manifest/Service/Laws.antt =====
-- What becomes of an application that is not valid.
use ssi_service.Prelude.{
  String, ◌≡◌, refl, sym, ap, ◌∙◌, true, inl, inr, Option, none, some, List, Result, ok, err, Error,
  ◌==◌, arith, Result-cases, Run-cases, Bool-cases, if◌then◌else◌,
}
use ssi_service.Storage.Contract.{IsLawful, same_place}
use ssi_service.Storage.Kind.{find_value}
use ssi_service.Credential.Stored.{Credential}
use ssi_service.Operation.Ids.{from_id, id_from_response_id}
use ssi_service.Operation.Stored.{StoredOperation, operation_document}
use ssi_service.Operation.Storage.{store_operation}
use ssi_service.Manifest.Application.{Validity, validate_credential_application}
use ssi_service.Manifest.Application.Laws.{IsForged, forged_lem}
use ssi_service.Manifest.Responses.{build_denial_credential_response}
use ssi_service.Manifest.Service.{
  StoredManifest, SubmitRequest, Services, denied_operation, deny, accept, decided,
  process_application_submission,
}

module _ {S Bytes Priv Jwk B App Resp : Type 0} (svc : Services S Bytes Priv Jwk B App Resp) where
  decided_by :
      (r : SubmitRequest App) (m : StoredManifest) (s : S) (v : Validity)
      → find_value svc.db svc.codec svc.manifests s r.manifest_id ≡ ok m
      → svc.validate m.manifest r.submitted ≡ v
      → process_application_submission svc r s ≡ decided svc r m v s
  unfolding process_application_submission
  decided_by r m s v found p = rw found (rw p refl)

  store_operation-eq-ok :
      (op : StoredOperation Bytes) (s s' : S)
      → store_operation svc.db svc.codec op s ≡ (ok tt, s')
      → svc.db.write (from_id op.id) op.id (svc.codec.marshal (operation_document svc.codec op)) s
        ≡ (ok tt, s')
  unfolding store_operation
  store_operation-eq-ok op s s' h = elim (Bool-cases (op.id == "")) [
    | inl empty ↦ absurd (ground arith)
    | inr named ↦ ground arith
  ]

  deny-eq-ok :
      (r : SubmitRequest App) (m : StoredManifest) (ids : List String) (op : StoredOperation Bytes)
      (s s' : S)
      → deny svc r m.manifest ids s ≡ (ok op, s')
      → (denial : Resp) × (op ≡ denied_operation svc r.id denial)
        × (build_denial_credential_response svc.builder r.manifest_id r.applicant r.id
              (svc.denial_reason m.manifest r.submitted)
              ids
            ≡ ok denial)
        × (store_operation svc.db svc.codec op s ≡ (ok tt, s'))
  unfolding deny
  deny-eq-ok r m ids op s s' h =
      elim (Result-cases (
        build_denial_credential_response svc.builder r.manifest_id r.applicant r.id
          (svc.denial_reason m.manifest r.submitted) ids)) [
            | inl (x, p) ↦ absurd (ground arith)
            | inr (denial, p) ↦
                elim (Run-cases
                  (store_operation svc.db svc.codec (denied_operation svc r.id denial) s)) [
                    | inl (x, t, q) ↦ absurd (ground arith)
                    | inr (u, t, q) ↦
                        let op_is : denied_operation svc r.id denial ≡ op = ground arith in
                        (denial, sym op_is, p, rw (← op_is) (ground arith))
                  ]
          ]

  denied_parts :
      (r : SubmitRequest App) (denial : Resp) (op : StoredOperation Bytes)
      → op ≡ denied_operation svc r.id denial
      → (op.done ≡ true) × (op.id ≡ id_from_response_id r.id)
  unfolding denied_operation
  denied_parts r denial op e =
      (ap (λ (x : StoredOperation Bytes). x.done) e, ap (λ (x : StoredOperation Bytes). x.id) e)

  -- An application whose manifest is stored and that the validation denies is answered with an operation
  -- that is done, and only this operation is stored. One that fails the validation is an error, and
  -- nothing is stored.
  pub process_application_submission-invalid :
      IsLawful svc.db
      → (r : SubmitRequest App) (m : StoredManifest) (s : S)
      → find_value svc.db svc.codec svc.manifests s r.manifest_id ≡ ok m
      → ((ids : List String) (op : StoredOperation Bytes) (s' : S)
          → svc.validate m.manifest r.submitted ≡ Validity.denied ids
          → process_application_submission svc r s ≡ (ok op, s')
          → (op.done ≡ true)
            × (op.id ≡ id_from_response_id r.id)
            × ((ns k : String)
                → svc.db.read s' ns k ≡ (
                    if same_place (from_id op.id) op.id ns k
                    then ok (some (svc.codec.marshal (operation_document svc.codec op)))
                    else svc.db.read s ns k)))
        × ((e : Error)
            → svc.validate m.manifest r.submitted ≡ Validity.failed e
            → process_application_submission svc r s ≡ (err e, s))
  unfolding decided
  process_application_submission-invalid lawful r m s found = (
    λ ids op s' v h.
        let (denial, op_is, _, stores) =
          deny-eq-ok r m ids op s s' (sym (decided_by r m s (Validity.denied ids) found v) ∙ h) in
        let parts : (op.done ≡ true) × (op.id ≡ id_from_response_id r.id) =
          denied_parts r denial op op_is in
        (
          parts.0,
          parts.1,
          lawful.read-write (from_id op.id) op.id
              (svc.codec.marshal (operation_document svc.codec op)) s s'
              (store_operation-eq-ok op s s' stores),
        ),
    λ e v. decided_by r m s (Validity.failed e) found v,
  )

  -- An application whose JWT is not verified is processed as one that is valid. Wrapping nil gives nil.
  pub process_application_submission_forged :
      (wrap : Option Error → Option Error) (verify_jwt : String → Result (Unit {0}))
      (verify_data : Credential → Result (Unit {0})) (r : SubmitRequest App) (m : StoredManifest)
      (s : S)
      → find_value svc.db svc.codec svc.manifests s r.manifest_id ≡ ok m
      → svc.validate m.manifest r.submitted
        ≡ validate_credential_application wrap verify_jwt verify_data m.manifest r.submitted
      → IsForged r.submitted
      → wrap none ≡ none
      → process_application_submission svc r s ≡ accept svc r m s
  unfolding decided
  process_application_submission_forged wrap verify_jwt verify_data r m s found validates
        (kid, e, p, q) nil =
      decided_by r m s Validity.valid found
        (validates ∙ forged_lem wrap verify_jwt verify_data m.manifest r.submitted kid e p q nil)
