-- ===== src/Storage/Redis/Transaction/Ends.antt =====
-- An execution ends when others leave the watched keys alone, and commits only then.
use ssi_service.Prelude.{String, ◌≡◌, false, List, ◌∷◌, Assoc, Result, ok}
use ssi_service.Storage.Redis.Transaction.{Others, Transactions, IsOptimistic, touched}

module _ {R Bytes A : Type 0} (lib : Transactions R Bytes)
    (logic : R → Result (A × (String × Bytes) × Assoc Bytes)) where
  module _ (written : Assoc Bytes → R → R) (optimistic : IsOptimistic lib written) where
    -- What the logic read, the writes it queued, and that they were made on top of what others left.
    abbrev pub Commits : List String → Others R → R → A → R → Type 0
    Commits watched o r a r' =
        (w : String × Bytes) × (ws : Assoc Bytes) × (touched watched o.keys ≡ false)
        × (logic (o.before r) ≡ ok (a, w, ws))
        × (r' ≡ written (w ∷ ws) (o.after (o.before r)))
