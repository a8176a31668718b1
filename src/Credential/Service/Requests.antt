-- ===== src/Credential/Service/Requests.antt =====
-- credential/service.go: reading, listing, deleting and verifying credentials, and the updates of
-- their status.
use ssi_service.Prelude.{
  ℕ, String, Bool, true, false, Option, none, some, List, [], ◌∷◌, Assoc, Result, ok, err, Error,
  Action, then_pure, reads, pure, ◌>>=◌, ◌==◌, if◌then◌else◌,
}
use ssi_service.Storage.Contract.{execute}
use ssi_service.Credential.Stored.{
  Credential, Container, StoredCredential, stored_is_valid, has_credential_status,
  get_status_purpose,
}
use ssi_service.Credential.Keys.{get_status_list_key}
use ssi_service.Credential.Storage.{
  StatusListMetadata, credential_namespace, status_list_namespace, unmarshal_stored, or_zero,
  get_credential, get_credential_in, delete_credential, get_status_list_credential_key_data,
}
use ssi_service.Credential.Status.{Parts, Status, UpdateRequest, update_status_logic}

-- The answer about a stored credential; the verification method is left out.
unfoldable pub container_of : StoredCredential → Container
container_of sc = record {
  id = sc.local_id;
  verification_method = "";
  credential = sc.credential;
  jwt = sc.jwt;
  revoked = sc.revoked;
  suspended = sc.suspended;
}

unfoldable pub list_container_of : StoredCredential → Container
list_container_of sc = record {
  id = sc.local_id;
  verification_method = "";
  credential = sc.credential;
  jwt = sc.jwt;
  revoked = false;
  suspended = false;
}

unfoldable pub containers_of : List StoredCredential → List Container
unfolding container_of
containers_of [] = []
containers_of (sc ∷ rest) = container_of sc ∷ containers_of rest

valid_one : StoredCredential → Result StoredCredential
valid_one sc = if stored_is_valid sc then ok sc else err Error.invalid

module _ {S Bytes : Type 0} (parts : Parts S Bytes) where
  unfoldable pub get_credential_of : S → String → Result Container
  unfolding container_of valid_one
  get_credential_of s id =
      then_pure (get_credential parts.db parts.codec parts.vc parts.parse s id)
        λ sc. then_pure (valid_one sc) λ v. ok (container_of v)

  unfoldable pub get_credential_status : S → String → Result Status
  unfolding valid_one
  get_credential_status s id =
      then_pure (get_credential parts.db parts.codec parts.vc parts.parse s id) λ sc.
        then_pure (valid_one sc) λ v. ok (record { revoked = v.revoked; suspended = v.suspended })

  unfoldable pub get_credential_status_list : S → String → Result Container
  unfolding list_container_of valid_one
  get_credential_status_list s id =
      then_pure
        (get_credential_in parts.db parts.codec parts.vc parts.parse s status_list_namespace id)
        λ sc. then_pure (valid_one sc) λ v. ok (list_container_of v)

  includes : Result Bool → Bool
  includes (ok b) = b
  includes (err e) = true

  -- One that cannot be read is a zero credential, as far as the model goes; an error of the filter
  -- includes the credential.
  unfoldable pub included : (StoredCredential → Result Bool) → Assoc Bytes → List StoredCredential
  unfolding includes or_zero
  included filter [] = []
  included filter ((k, b) ∷ rest) =
      let sc =
        or_zero parts.db parts.codec parts.vc parts.parse
          (unmarshal_stored parts.db parts.codec parts.vc parts.parse (some b)) in
      let more = included filter rest in if includes (filter sc) then sc ∷ more else more

  -- `ListCredentials` of the storage and of the service; `should_include` is what `NewIncludeFunc` made
  -- of the filter, or its error.
  unfoldable pub list_credentials :
      S
      → Result (StoredCredential → Result Bool)
      → String
      → Option ℕ
      → Result (List Container × String)
  unfolding included containers_of
  list_credentials s should_include token size =
      then_pure (parts.db.read_page s credential_namespace token size) λ page.
        then_pure should_include λ filter. ok (containers_of (included filter page.0), page.1)

  -- `wrap` is `errors.Wrap`, on the error or nil.
  key_or_nil :
      (Option Error → Option Error)
      → StoredCredential
      → String
      → Option StoredCredential
      → Result String
  key_or_nil wrap sc purpose (some list) = ok (get_status_list_key sc.issuer sc.schema purpose)
  key_or_nil wrap sc purpose none = elim (wrap none) [ none ↦ err Error.panic | some e ↦ err e ]

  -- The key to watch. Where there is no status list, an error is made of one that is nil; if that is
  -- nil too, the callers follow a pointer that is nil.
  unfoldable pub status_list_credential_watch_key :
      (Option Error → Option Error) → S → String → Result String
  unfolding key_or_nil
  status_list_credential_watch_key wrap s id =
      then_pure (get_credential parts.db parts.codec parts.vc parts.parse s id) λ sc.
        then_pure (if has_credential_status sc then get_status_purpose sc else err Error.invalid)
          λ purpose.
            if purpose == ""
            then err Error.invalid
            else then_pure
                (get_status_list_credential_key_data parts.db parts.codec parts.vc parts.parse s
                  sc.issuer sc.schema purpose)
                (key_or_nil wrap sc purpose)

  -- The other keys of the metadata are not set.
  abbrev pub list_only : String → StatusListMetadata
  list_only key = record { list_key = key; pool_key = ""; index_key = "" }

  unfoldable pub update_status : (Option Error → Option Error) → UpdateRequest → Action S Status
  unfolding status_list_credential_watch_key
  update_status wrap r = do
    key ← reads (λ s. status_list_credential_watch_key wrap s r.id)
    execute parts.db (update_status_logic parts r (list_only key))

  unfoldable pub watched :
      (Option Error → Option Error)
      → S
      → List UpdateRequest
      → Result (List (UpdateRequest × StatusListMetadata))
  unfolding status_list_credential_watch_key
  watched wrap s [] = ok []
  watched wrap s (r ∷ rs) =
      then_pure (status_list_credential_watch_key wrap s r.id)
        λ key. then_pure (watched wrap s rs) λ rest. ok ((r, list_only key) ∷ rest)

  -- Each status with the id of its request.
  unfoldable pub update_each :
      List (UpdateRequest × StatusListMetadata) → S → Action S (List (String × Status))
  update_each [] s = pure []
  update_each ((r, meta) ∷ rs) s = do
    status ← update_status_logic parts r meta s
    rest ← update_each rs s
    pure ((r.id, status) ∷ rest)

  unfoldable pub batch_update_status :
      (Option Error → Option Error) → List UpdateRequest → Action S (List (String × Status))
  unfolding watched update_each
  batch_update_status wrap rs = do
    all ← reads (λ s. watched wrap s rs)
    execute parts.db (update_each all)

  unfoldable pub delete_credential_of : String → Action S (Unit {0})
  delete_credential_of id = delete_credential parts.db parts.codec parts.vc parts.parse id

-- A request has a credential, a JWT or both.
unfoldable pub verify_request_is_valid : Option Credential → Option String → Result (Unit {0})
verify_request_is_valid none none = err Error.invalid
verify_request_is_valid (some c) (some jwt) = if c.has_proof then err Error.invalid else ok tt
verify_request_is_valid _ _ = ok tt

unfoldable pub is_ok : Result (Unit {0}) → Bool
is_ok (ok _) = true
is_ok (err e) = false

-- `VerifyCredential`: whether it is verified. The two functions are those of the verifier.
unfoldable pub verify_credential :
    (String → Result (Unit {0}))
    → (Credential → Result (Unit {0}))
    → Option Credential
    → Option String
    → Result Bool
unfolding verify_request_is_valid is_ok
verify_credential verify_jwt verify_data credential (some jwt) =
    then_pure (verify_request_is_valid credential (some jwt)) λ _. ok (is_ok (verify_jwt jwt))
verify_credential verify_jwt verify_data (some c) none =
    then_pure (verify_request_is_valid (some c) none) λ _. ok (is_ok (verify_data c))
verify_credential verify_jwt verify_data none none =
    then_pure (verify_request_is_valid none none) λ _. err Error.panic
