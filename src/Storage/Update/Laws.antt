-- ===== src/Storage/Update/Laws.antt =====
-- What an update of a stored document, alone or with its operation, does to the store.
use ssi_service.Prelude.{
  String, ◌≡◌, ap, ◌∙◌, Option, some, inl, inr, ok, err, Error, arith, Run-cases, Result-cases,
  if◌then◌else◌,
}
use ssi_service.Json.{Codec, Document}
use ssi_service.Storage.Contract.{
  ServiceStorage, IsLawful, same_place, execute, transaction-eq-ok, transaction_fails,
}
use ssi_service.Storage.Update.{
  update_stored, new_updater, update_with_map, Updater, update_in, update_both,
  update_value_and_operation,
}

module _ {S Bytes : Type 0} (db : ServiceStorage S Bytes) where
  update_in-eq-ok :
      (ns k : String) (u : Updater Bytes) (s t t' : S) (b : Bytes)
      → update_in db ns k u s t ≡ (ok b, t')
      → (v : Option Bytes) × (db.read s ns k ≡ ok v)
        × (u.validate v ≡ ok tt)
        × (u.update v ≡ ok b)
        × (db.tx_write ns k b t ≡ (ok tt, t'))
  unfolding update_in
  update_in-eq-ok ns k u s t t' b h = elim (Result-cases (db.read s ns k)) [
    | inl (e, p) ↦ absurd (ground arith)
    | inr (v, p) ↦ elim (Result-cases (u.validate v)) [
      | inl (e, q) ↦ absurd (ground arith)
      | inr (w, q) ↦ elim (Result-cases (u.update v)) [
        | inl (e, r) ↦ absurd (ground arith)
        | inr (b', r) ↦ elim (Run-cases (db.tx_write ns k b' t)) [
          | inl (e, t'', z) ↦ absurd (ground arith)
          | inr (x, t'', z) ↦ (v, p, q, ground arith, ground arith)
        ]
      ]
    ]
  ]

  -- What a successful update of a value and its operation has read, checked and written.
  pub record Updated (ns k : String) (u : Updater Bytes) (op_ns op_k : String)
      (ou : Bytes → Updater Bytes) (s s' : S) (first op : Bytes) : Type 0 where
    pub value : Option Bytes
    pub op_value : Option Bytes
    pub read_value : db.read s ns k ≡ ok value
    pub read_op : db.read s op_ns op_k ≡ ok op_value
    pub valid : u.validate value ≡ ok tt
    pub op_valid : (ou first).validate op_value ≡ ok tt
    pub updated : u.update value ≡ ok first
    pub op_updated : (ou first).update op_value ≡ ok op
    pub after :
        (n j : String)
        → db.read s' n j ≡ (
            if same_place op_ns op_k n j
            then ok (some op)
            else if same_place ns k n j
            then ok (some first)
            else db.read s n j)

  module _ (lawful : IsLawful db) (ns k : String) (u : Updater Bytes) (op_ns op_k : String)
      (ou : Bytes → Updater Bytes) (s s' : S) where
    both_written :
        (t t' : S) (first op : Bytes)
        → db.begin s ≡ (ok tt, t)
        → update_in db ns k u s t ≡ (ok first, t')
        → (t'' : S) → update_in db op_ns op_k (ou first) s t' ≡ (ok op, t'')
        → db.commit t'' ≡ (ok tt, s')
        → Updated ns k u op_ns op_k ou s s' first op
    both_written t t' first op b p t'' q c =
        let (v, read_v, valid_v, update_v, write_v) = update_in-eq-ok ns k u s t t' first p in
        let (w, read_w, valid_w, update_w, write_w) =
          update_in-eq-ok op_ns op_k (ou first) s t' t'' op q in
        record {
          value = v;
          op_value = w;
          read_value = read_v;
          read_op = read_w;
          valid = valid_v;
          op_valid = valid_w;
          updated = update_v;
          op_updated = update_w;
          after = λ n j.
              lawful.read-commit t'' s' c n j
              ∙ (lawful.read-tx_write op_ns op_k op t' t'' write_w n j
                  ∙ ap (λ r. if same_place op_ns op_k n j then ok (some op) else r)
                      (lawful.read-tx_write ns k first t t' write_v n j
                        ∙ ap (λ r. if same_place ns k n j then ok (some first) else r)
                            (lawful.read-begin s t b n j)));
        }

    both_split :
        (t t' : S) (first op : Bytes)
        → update_both db ns k u op_ns op_k ou s t ≡ (ok (first, op), t')
        → (t1 : S) × (update_in db ns k u s t ≡ (ok first, t1))
          × (update_in db op_ns op_k (ou first) s t1 ≡ (ok op, t'))
    unfolding update_both
    both_split t t' first op h = elim (Run-cases (update_in db ns k u s t)) [
      | inl (e, t1, p) ↦ absurd (ground arith)
      | inr (f, t1, p) ↦ elim (Run-cases (update_in db op_ns op_k (ou f) s t1)) [
        | inl (e, t2, q) ↦ absurd (ground arith)
        | inr (o, t2, q) ↦ (t1, ground arith, ground arith)
      ]
    ]

    -- An update of a value and its operation that succeeds has validated and updated both, the
    -- operation with the updated value for its response, and has written both and nothing else.
    pub update_value_and_operation-Updated :
        (first op : Bytes)
        → update_value_and_operation db ns k u op_ns op_k ou s ≡ (ok (first, op), s')
        → Updated ns k u op_ns op_k ou s s' first op
    unfolding update_value_and_operation execute
    update_value_and_operation-Updated first op h =
        let (t, t'', b, logic, c) =
          transaction-eq-ok db.begin db.commit (update_both db ns k u op_ns op_k ou) s (first, op)
            s' h in
        let (t', p, q) = both_split t t'' first op logic in both_written t t' first op b p t'' q c

    -- One that fails leaves the store as it was.
    pub update_value_and_operation_fails :
        (e : Error) → update_value_and_operation db ns k u op_ns op_k ou s ≡ (err e, s') → s' ≡ s
    unfolding update_value_and_operation execute
    update_value_and_operation_fails e h =
        transaction_fails db.begin db.commit (update_both db ns k u op_ns op_k ou) s e s' h

  -- An update of one value that succeeds has written the updated value, and nothing else.
  pub update_stored-eq-ok :
      (codec : Codec Bytes)
      → IsLawful db
      → (ns k : String) (values : Document) (s s' : S) (b : Bytes)
      → update_stored db codec ns k values s ≡ (ok b, s')
      → (v : Option Bytes) × (db.read s ns k ≡ ok v)
        × (update_with_map codec values v ≡ ok b)
        × ((n j : String)
            → db.read s' n j ≡ (if same_place ns k n j then ok (some b) else db.read s n j))
  unfolding update_stored execute new_updater
  update_stored-eq-ok codec lawful ns k values s s' b h =
      let (t, t', begun, logic, c) =
        transaction-eq-ok db.begin db.commit (update_in db ns k (new_updater codec values)) s b s'
          h in
      let (v, read, valid, updated, written) =
        update_in-eq-ok ns k (new_updater codec values) s t t' b logic in
      (
        v,
        read,
        updated,
        λ n j.
            lawful.read-commit t' s' c n j
            ∙ (lawful.read-tx_write ns k b t t' written n j
                ∙ ap (λ r. if same_place ns k n j then ok (some b) else r)
                    (lawful.read-begin s t begun n j)),
      )
