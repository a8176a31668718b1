-- ===== src/Schema/Laws.antt =====
-- What is stored of a schema, and when a credential schema is signed.
use ssi_service.Prelude.{
  not, ◌&&◌, lookup-insert, String, ◌<>◌, ◌≡◌, sym, ap, true, false, inl, inr, Bool, none, some,
  lookup, insert, ok, ◌==◌, eq_iff, eq_refl, arith, Bool-cases, Option-cases, Result-cases,
  Run-cases, if◌then◌else◌,
}
use ssi_service.Json.{Json, Document, Codec, of_members-members}
use ssi_service.Encryption.{Encrypter, Decrypter}
use ssi_service.Storage.Contract.{ServiceStorage, IsLawful}
use ssi_service.Storage.Kind.{store_value}
use ssi_service.Storage.Kind.Laws.{IsFaithful, find_value-store_value}
use ssi_service.Keystore.{Keys, GetKeyResponse, get_key}
use ssi_service.Schema.{
  StoredSchema, CreateSchemaRequest, Schemas, schema_document, document_schema, schema_kind,
  described, check_schema, request_is_valid, is_credential_schema_request, sign_with,
  sign_credential_schema, create_credential_schema, schema_to_store, create_schema, get_schema,
  resolve,
}

document_schema-schema_document : (s : StoredSchema) → document_schema (schema_document s) ≡ ok s
unfolding document_schema schema_document lookup
document_schema-schema_document s = elim (Option-cases s.schema) [
  | inl no_schema ↦ elim (Option-cases s.credential_schema) [
    | inl no_jwt ↦ ground (arith, no_schema, no_jwt)
    | inr (jwt, p) ↦ ground (arith, no_schema, p)
  ]
  | inr (m, q) ↦ elim (Option-cases s.credential_schema) [
    | inl no_jwt ↦ ground (arith, q, no_jwt, of_members-members m)
    | inr (jwt, p) ↦ ground (arith, q, p, of_members-members m)
  ]
]

pub schema_kind-IsFaithful : IsFaithful schema_kind
unfolding schema_kind document_schema
schema_kind-IsFaithful = record {
  of_document-to_document = document_schema-schema_document;
  of_document-same =
      λ m m' same. rw (same "id", same "type", same "schema", same "credentialSchema");
}

module _ {S Bytes Priv Jwk Cred : Type 0} (db : ServiceStorage S Bytes) (codec : Codec Bytes)
    (e : Encrypter Bytes) (d : Decrypter Bytes) (keys : Keys Bytes Priv Jwk)
    (lib : Schemas Priv Cred) where
  create_schema-eq-ok :
      (now uuid path : String) (valid : Bool) (r : CreateSchemaRequest) (stored : StoredSchema)
      (s s' : S)
      → create_schema db codec e d keys lib now uuid path valid r s ≡ (ok stored, s')
      → (request_is_valid valid r ≡ ok tt)
        × (check_schema lib r.schema ≡ ok tt)
        × (schema_to_store db codec e d keys lib s now uuid (path <> "/" <> uuid) r ≡ ok stored)
        × (store_value db codec schema_kind stored s ≡ (ok tt, s'))
  unfolding create_schema
  create_schema-eq-ok now uuid path valid r stored s s' h =
      elim (Result-cases (request_is_valid valid r)) [
        | inl (x, p) ↦ absurd (ground arith)
        | inr (u, p) ↦ elim (Result-cases (check_schema lib r.schema)) [
          | inl (x, q) ↦ absurd (ground arith)
          | inr (v, q) ↦
              elim (Result-cases
                (schema_to_store db codec e d keys lib s now uuid (path <> "/" <> uuid) r)) [
                  | inl (x, c) ↦ absurd (ground arith)
                  | inr (made, c) ↦ elim (Run-cases (store_value db codec schema_kind made s)) [
                    | inl (x, t, w) ↦ absurd (ground arith)
                    | inr (z, t, w) ↦ (p, q, ground arith, ground arith)
                  ]
                ]
        ]
      ]

  -- The key that a signature was made with: that of the credential's issuer, controlled by the issuer
  -- of the request, and not revoked.
  abbrev pub SignedBy : S → String → String → Cred → String → GetKeyResponse Priv → Type 0
  SignedBy s issuer method_id cred jwt key =
      (get_key db codec e d keys s (lib.qualified (lib.issuer_of cred) method_id) ≡ ok key)
      × (key.controller ≡ issuer)
      × (key.revoked ≡ false)
      × (lib.sign_credential method_id key.id key.key cred ≡ ok jwt)

  sign_credential_schema-eq-ok :
      (s : S) (cred : Cred) (issuer method_id jwt : String)
      → sign_credential_schema db codec e d keys lib s cred issuer method_id ≡ ok jwt
      → (key : GetKeyResponse Priv) × SignedBy s issuer method_id cred jwt key
  unfolding sign_credential_schema sign_with
  sign_credential_schema-eq-ok s cred issuer method_id jwt h =
      elim (Result-cases
        (get_key db codec e d keys s (lib.qualified (lib.issuer_of cred) method_id))) [
          | inl (x, p) ↦ absurd (ground arith)
          | inr (key, p) ↦ elim (Bool-cases (key.controller == issuer)) [
            | inr other ↦ absurd (ground arith)
            | inl same ↦ elim (Bool-cases key.revoked) [
              | inl gone ↦ absurd (ground arith)
              | inr live ↦ (key, (p, (eq_iff key.controller issuer).0 same, live, ground arith))
            ]
          ]
        ]

  -- The schema of the request with its name, its description, if there is one, and a new id.
  abbrev pub Describes : CreateSchemaRequest → String → Document → Type 0
  Describes r uuid m =
      (k : String)
      → lookup k m ≡ (
          if lib.id_property == k
          then some (Json.str uuid)
          else if not (r.description == "") && (lib.description_property == k)
          then some (Json.str r.description)
          else if lib.name_property == k
          then some (Json.str r.name)
          else lookup k r.schema)

  described-Describes :
      (r : CreateSchemaRequest) (uuid : String)
      → Describes r uuid (insert lib.id_property (Json.str uuid) (described lib r))
  unfolding described
  described-Describes r uuid k =
      let named = insert lib.name_property (Json.str r.name) r.schema in
      elim (Bool-cases (r.description == "")) [
        | inl none_given ↦ ground (
          arith,
          none_given,
          lookup-insert lib.id_property k (Json.str uuid) (described lib r),
          lookup-insert lib.name_property k (Json.str r.name) r.schema,
        )
        | inr given ↦ ground (
          arith,
          given,
          lookup-insert lib.id_property k (Json.str uuid) (described lib r),
          lookup-insert lib.description_property k (Json.str r.description) named,
          lookup-insert lib.name_property k (Json.str r.name) r.schema,
        )
      ]

  -- A credential schema that was created is the credential that was built of the issuer and a schema:
  -- that of the request with its name, its description, if there is one, and the new id. It was signed
  -- with a key that the issuer controls and that is not revoked.
  pub create_schema_signed :
      (now uuid path : String) (valid : Bool) (r : CreateSchemaRequest) (stored : StoredSchema)
      (s s' : S)
      → is_credential_schema_request r ≡ true
      → create_schema db codec e d keys lib now uuid path valid r s ≡ (ok stored, s')
      → (m : Document) × Describes r uuid m
        × (cred : Cred) × (jwt : String) × (key : GetKeyResponse Priv) × (lib.build
              (path <> "/" <> uuid)
              r.issuer
              m
              now
            ≡ ok cred)
        × (stored.credential_schema ≡ some jwt)
        × SignedBy s r.issuer r.method_id cred jwt key
  unfolding schema_to_store create_credential_schema
  create_schema_signed now uuid path valid r stored s s' wants h =
      let (_, _, made, _) = create_schema-eq-ok now uuid path valid r stored s s' h in
      let m = insert lib.id_property (Json.str uuid) (described lib r) in
      elim (Result-cases (lib.build (path <> "/" <> uuid) r.issuer m now)) [
        | inl (x, p) ↦ absurd (ground arith)
        | inr (cred, p) ↦
            elim (Result-cases
              (sign_credential_schema db codec e d keys lib s cred r.issuer r.method_id)) [
                | inl (x, q) ↦ absurd (ground arith)
                | inr (jwt, q) ↦
                    let (key, signed) =
                      sign_credential_schema-eq-ok s cred r.issuer r.method_id jwt q in
                    let same : record {
                      id = uuid;
                      schema_type = lib.credential_type;
                      schema = none;
                      credential_schema = some jwt;
                    }
                        ≡ stored =
                      ground arith in
                    (
                      m,
                      described-Describes r uuid,
                      cred,
                      jwt,
                      key,
                      p,
                      ap (λ (x : StoredSchema). x.credential_schema) (sym same),
                      signed,
                    )
              ]
      ]

  schema_to_store_id :
      (s : S) (now uuid uri : String) (r : CreateSchemaRequest) (stored : StoredSchema)
      → schema_to_store db codec e d keys lib s now uuid uri r ≡ ok stored
      → stored.id ≡ uuid
  unfolding schema_to_store
  schema_to_store_id s now uuid uri r stored h =
      elim (Bool-cases (is_credential_schema_request r)) [
        | inr plain ↦
            let same : record {
              id = uuid;
              schema_type = lib.json_schema_type;
              schema = some (insert lib.id_property (Json.str uri) (described lib r));
              credential_schema = none;
            }
                ≡ stored =
              ground arith in
            ap (λ (x : StoredSchema). x.id) (sym same)
        | inl wants ↦
            elim (Result-cases (
              create_credential_schema db codec e d keys lib s now
                (insert lib.id_property (Json.str uuid) (described lib r)) uri r.issuer
                r.method_id)) [
                  | inl (x, p) ↦ absurd (ground arith)
                  | inr (jwt, p) ↦
                      let same : record {
                        id = uuid;
                        schema_type = lib.credential_type;
                        schema = none;
                        credential_schema = some jwt;
                      }
                          ≡ stored =
                        ground arith in
                      ap (λ (x : StoredSchema). x.id) (sym same)
                ]
      ]

  -- A schema that was created is got under its new id as it was answered, and every other one as
  -- before. If it is no credential schema, it resolves to the schema of the request with the name, the
  -- description and the URI.
  pub get_schema-create_schema :
      IsLawful db
      → (now uuid path : String) (valid : Bool) (r : CreateSchemaRequest) (stored : StoredSchema)
        (s s' : S)
      → create_schema db codec e d keys lib now uuid path valid r s ≡ (ok stored, s')
      → ((id : String)
          → get_schema db codec s' id
            ≡ (if uuid == id then ok stored else get_schema db codec s id))
        × (is_credential_schema_request r ≡ false
            → resolve db codec lib s' uuid
              ≡ ok (
                some (insert lib.id_property (Json.str (path <> "/" <> uuid)) (described lib r)),
                lib.json_schema_type,
              ))
  unfolding schema_to_store get_schema resolve schema_kind
  get_schema-create_schema lawful now uuid path valid r stored s s' h =
      let (_, _, made, w) = create_schema-eq-ok now uuid path valid r stored s s' h in
      let (found, _) =
        find_value-store_value db codec schema_kind schema_kind-IsFaithful lawful stored s s' w in
      let id_is = schema_to_store_id s now uuid (path <> "/" <> uuid) r stored made in
      (
        λ id. ground (arith, found id, id_is, eq_iff uuid id),
        λ plain.
            ground
              (arith, found uuid, id_is, made, plain, eq_refl uuid, eq_refl lib.json_schema_type),
      )
