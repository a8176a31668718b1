-- ===== src/Credential/Status/Entries.antt =====
-- The entry of a credential whose status list exists.
use ssi_service.Prelude.{ℕ, String, ◌≡◌, some, inl, inr, ok, arith, Run-cases, Result-cases}
use ssi_service.Credential.Stored.{Credential, StoredCredential}
use ssi_service.Credential.Storage.{StatusListMetadata}
use ssi_service.Credential.Indexes.{
  get_next_status_list_random_index, increment_status_list_index_tx, next_index,
}
use ssi_service.Credential.Status.{Parts, StatusRequest, entry_in, the_credential}

-- An entry in a list that exists takes its next index, and names the list by its credential's id.
entry_in-next_index :
    {S Bytes : Type 0} (parts : Parts S Bytes) (list_id purpose : String) (r : StatusRequest)
    (meta : StatusListMetadata) (sc : StoredCredential) (c : Credential) (n : ℕ) (s t t' : S)
    → sc.credential ≡ some c
    → next_index parts.db parts.codec parts.wrap meta s t ≡ (ok n, t')
    → entry_in parts list_id purpose r meta s (some sc) t ≡ (ok (n, c.id), t')
unfolding entry_in next_index the_credential
entry_in-next_index parts list_id purpose r meta sc c n s t t' has h =
    elim (Result-cases (get_next_status_list_random_index parts.db parts.codec s meta)) [
      | inl (e, p) ↦ absurd (ground arith)
      | inr (m, p) ↦
          elim (Run-cases
            (increment_status_list_index_tx parts.db parts.codec parts.wrap meta s t)) [
              | inl (e, t1, q) ↦ absurd (ground arith)
              | inr (u, t1, q) ↦ ground arith
            ]
    ]
