-- ===== src/Requests/Service/Laws.antt =====
-- What the creation of a request leaves, and when it is refused.
use ssi_service.Prelude.{
  String, ◌≡◌, sym, ap, false, inl, inr, Bool, Result, ok, err, Error, ◌==◌, eq_iff, arith,
  Bool-cases, Result-cases, Run-cases, if◌then◌else◌,
}
use ssi_service.Json.{Json, Codec}
use ssi_service.Encryption.{Encrypter, Decrypter, Inverse}
use ssi_service.Storage.Contract.{ServiceStorage, IsLawful}
use ssi_service.Storage.Kind.{store_value}
use ssi_service.Storage.Kind.Laws.{find_value-store_value}
use ssi_service.Keystore.{StoredKey, Keys, stored_key, revoke_key, sign}
use ssi_service.Keystore.Revocation.{revoke_key_lem}
use ssi_service.Requests.{
  StoredRequest, Request, Tokens, request_kind, request_kind-IsFaithful, request_token,
  signed_request, create_stored_request,
}
use ssi_service.Requests.Service.{ServiceRequest, service_model, get_request, create_request_with}

module _ {S Bytes Priv Jwk Time : Type 0} (db : ServiceStorage S Bytes) (codec : Codec Bytes)
    (e : Encrypter Bytes) (d : Decrypter Bytes) (keys : Keys Bytes Priv Jwk)
    (lib : Tokens Time) where
  create_request_with-eq-ok :
      (namespace name : String) (claim : S → Result Json) (now : Time) (uuid : String)
      (valid : Bool) (r : Request Time) (reference : String) (s s' : S) (p : ServiceRequest Time)
      → create_request_with db codec e d keys lib namespace name claim now uuid valid r reference s
        ≡ (ok p, s')
      → (value : Json) × (claim s ≡ ok value)
        × (stored : StoredRequest) × (create_stored_request db codec e d keys lib s now uuid name
              value r reference
            ≡ ok stored)
        × (store_value db codec (request_kind namespace) stored s ≡ (ok tt, s'))
        × (service_model lib stored ≡ ok p)
  unfolding create_request_with
  create_request_with-eq-ok namespace name claim now uuid valid r reference s s' p h =
      elim (Bool-cases valid) [
        | inr bad ↦ absurd (ground arith)
        | inl good ↦ elim (Result-cases (claim s)) [
          | inl (x, q) ↦ absurd (ground arith)
          | inr (value, q) ↦
              elim (Result-cases
                (create_stored_request db codec e d keys lib s now uuid name value r reference)) [
                  | inl (x, c) ↦ absurd (ground arith)
                  | inr (stored, c) ↦
                      elim (Run-cases (store_value db codec (request_kind namespace) stored s)) [
                        | inl (x, t, w) ↦ absurd (ground arith)
                        | inr (u, t, w) ↦ (value, q, stored, c, ground arith, ground arith)
                      ]
                ]
        ]
      ]

  stored_id :
      (s : S) (now : Time) (uuid name : String) (value : Json) (r : Request Time)
      (reference : String) (stored : StoredRequest)
      → create_stored_request db codec e d keys lib s now uuid name value r reference ≡ ok stored
      → stored.id ≡ uuid
  unfolding create_stored_request signed_request
  stored_id s now uuid name value r reference stored h =
      elim (Result-cases (lib.build (request_token lib now name value r uuid))) [
        | inl (x, p) ↦ absurd (ground arith)
        | inr (token, p) ↦
            elim (Result-cases (
              sign db codec e d keys s (lib.qualified r.issuer_did r.verification_method_id)
                token)) [
                  | inl (x, q) ↦ absurd (ground arith)
                  | inr (jwt, q) ↦
                      let same : signed_request lib r uuid reference jwt ≡ stored = ground arith in
                      ap (λ (x : StoredRequest). x.id) (sym same)
                ]
      ]

  -- A request that was created is found under its new id as it was answered, and every other request
  -- of the service is found as before.
  pub get_request-create_request :
      IsLawful db
      → (namespace name : String) (claim : S → Result Json) (now : Time) (uuid : String)
        (valid : Bool) (r : Request Time) (reference : String) (s s' : S) (p : ServiceRequest Time)
      → create_request_with db codec e d keys lib namespace name claim now uuid valid r reference s
        ≡ (ok p, s')
      → (id : String)
      → get_request db codec lib namespace s' id
        ≡ (if uuid == id then ok p else get_request db codec lib namespace s id)
  unfolding get_request request_kind
  get_request-create_request lawful namespace name claim now uuid valid r reference s s' p h id =
      let (value, _, stored, c, w, m) =
        create_request_with-eq-ok namespace name claim now uuid valid r reference s s' p h in
      let (found, _) =
        find_value-store_value db codec (request_kind namespace) (request_kind-IsFaithful namespace)
          lawful stored s s' w in
      ground
        (arith, found id, stored_id s now uuid name value r reference stored c, m, eq_iff uuid id)

  create_refused :
      (namespace name : String) (claim : S → Result Json) (now : Time) (uuid : String)
      (valid : Bool) (r : Request Time) (reference : String) (s : S)
      → ((payload : Json)
          → sign db codec e d keys s (lib.qualified r.issuer_did r.verification_method_id) payload
            ≡ err Error.revoked)
      → (x : Error) × (create_request_with db codec e d keys lib namespace name claim now uuid valid
            r reference s
          ≡ (err x, s))
  unfolding create_request_with create_stored_request
  create_refused namespace name claim now uuid valid r reference s gone = elim (Bool-cases valid) [
    | inr bad ↦ (Error.invalid, ground arith)
    | inl good ↦ elim (Result-cases (claim s)) [
      | inl (x, q) ↦ (x, ground arith)
      | inr (value, q) ↦ elim (Result-cases (lib.build (request_token lib now name value r uuid))) [
        | inl (x, p) ↦ (x, ground arith)
        | inr (token, p) ↦ (Error.revoked, ground (arith, gone token))
      ]
    ]
  ]

  -- Once the key of its verification method was revoked, a request is refused, whatever its claim,
  -- and nothing is stored. The key was stored under its own id.
  pub create_request_with-revoke_key :
      IsLawful db
      → Inverse e d
      → ((v c : Bytes) → e.encrypt v ≡ ok c → codec.is_empty c ≡ false)
      → (namespace name : String) (claim : S → Result Json) (now : Time) (uuid : String)
        (valid : Bool) (r : Request Time) (reference : String) (at : String) (k : StoredKey)
        (s s' : S)
      → stored_key db codec e d keys s (lib.qualified r.issuer_did r.verification_method_id) ≡ ok k
      → k.id ≡ lib.qualified r.issuer_did r.verification_method_id
      → revoke_key db codec e d keys at (lib.qualified r.issuer_did r.verification_method_id) s
        ≡ (ok tt, s')
      → (x : Error) × (create_request_with db codec e d keys lib namespace name claim now uuid valid
            r reference s'
          ≡ (err x, s'))
  create_request_with-revoke_key lawful inverse full namespace name claim now uuid valid r reference
        at k s s' found own revoked =
      let (_, gone, _) =
        revoke_key_lem db codec e d keys lawful inverse full at
          (lib.qualified r.issuer_did r.verification_method_id) k s s' found own revoked in
      create_refused namespace name claim now uuid valid r reference s' gone
