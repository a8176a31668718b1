-- ===== src/Issuance/Stored.antt =====
-- issuance/model.go and issuance/storage.go: templates and their stored form.
pub mod Laws
use ssi_service.Prelude.{
  ℕ, String, Bool, true, false, ◌&&◌, not, Option, none, some, List, [], ◌∷◌, lookup, Result, ok,
  err, Error, then_pure, ◌==◌, if◌then◌else◌,
}
use ssi_service.Json.{Json, Items, Document, as_string, as_bool, as_object, members}
use ssi_service.Storage.Kind.{Kind}
use ssi_service.Requests.{validate_verification_method_id}

-- `TimeLike`: a time is its RFC 3339 text, a duration is in nanoseconds.
pub record TimeLike : Type 0 where
  pub time : Option String
  pub duration : Option ℕ

pub record CredentialTemplate : Type 0 where
  pub id : String
  pub schema : String
  pub input_descriptor : String
  pub claims : Document
  pub expiry : TimeLike
  pub revocable : Bool

pub record Template : Type 0 where
  pub id : String
  pub manifest : String
  pub issuer : String
  pub method_id : String
  pub credentials : List CredentialTemplate

unfoldable pub zero_template : Template
zero_template = record { id = ""; manifest = ""; issuer = ""; method_id = ""; credentials = [] }

-- `IsValid`; `valid` is what the tags of the struct say of it.
unfoldable pub template_is_valid : Bool → Template → Result (Unit {0})
template_is_valid valid t =
    if valid
    then if not (t.method_id == "") && not (t.issuer == "")
      then validate_verification_method_id t.method_id t.issuer
      else ok tt
    else err Error.invalid

time_fields : Option String → Option ℕ → Document
time_fields none none = []
time_fields none (some n) = ("duration", Json.num n) ∷ []
time_fields (some t) none = ("time", Json.str t) ∷ []
time_fields (some t) (some n) = ("time", Json.str t) ∷ ("duration", Json.num n) ∷ []

optional_text : Option Json → Result (Option String)
optional_text none = ok none
optional_text (some Json.null) = ok none
optional_text (some (Json.str s)) = ok (some s)
optional_text (some _) = err Error.codec

optional_number : Option Json → Result (Option ℕ)
optional_number none = ok none
optional_number (some Json.null) = ok none
optional_number (some (Json.num n)) = ok (some n)
optional_number (some _) = err Error.codec

expiry_of : Document → Result TimeLike
expiry_of m = then_pure (optional_text (lookup "time" m)) λ t.
    then_pure (optional_number (lookup "duration" m)) λ n. ok (record { time = t; duration = n })

-- No claims are no field.
credential_members : CredentialTemplate → Document → Document
credential_members c rest =
    ("id", Json.str c.id)
    ∷ ("schema", Json.str c.schema)
    ∷ ("credentialInputDescriptor", Json.str c.input_descriptor)
    ∷ ("expiry", Json.obj (members (time_fields c.expiry.time c.expiry.duration)))
    ∷ ("revocable", Json.bool c.revocable)
    ∷ rest

claims_field : Document → Document
claims_field [] = []
claims_field (kv ∷ m) = ("data", Json.obj (members (kv ∷ m))) ∷ []

unfoldable pub credential_document : CredentialTemplate → Document
unfolding time_fields credential_members claims_field
credential_document c = credential_members c (claims_field c.claims)

unfoldable pub document_credential : Document → Result CredentialTemplate
unfolding expiry_of optional_text optional_number
document_credential m = then_pure (as_string (lookup "id" m)) λ id.
    then_pure (as_string (lookup "schema" m)) λ schema.
      then_pure (as_string (lookup "credentialInputDescriptor" m)) λ input.
        then_pure (as_object (lookup "data" m)) λ claims.
          then_pure (as_object (lookup "expiry" m)) λ time. then_pure (expiry_of time) λ expiry.
            then_pure (as_bool (lookup "revocable" m)) λ revocable. ok (record {
              id = id;
              schema = schema;
              input_descriptor = input;
              claims = claims;
              expiry = expiry;
              revocable = revocable;
            })

unfoldable pub credential_items : List CredentialTemplate → Items
unfolding credential_document
credential_items [] = Items.nil
credential_items (c ∷ cs) =
    Items.cons (Json.obj (members (credential_document c))) (credential_items cs)

unfoldable pub items_credentials : Items → Result (List CredentialTemplate)
unfolding document_credential
items_credentials Items.nil = ok []
items_credentials (Items.cons j rest) =
    then_pure (as_object (some j)) λ m.
      then_pure (document_credential m) λ c. then_pure (items_credentials rest) λ cs. ok (c ∷ cs)

unfoldable pub as_credentials : Option Json → Result (List CredentialTemplate)
unfolding items_credentials
as_credentials none = ok []
as_credentials (some Json.null) = ok []
as_credentials (some (Json.arr l)) = items_credentials l
as_credentials (some _) = err Error.codec

unfoldable pub template_document : Template → Document
unfolding credential_items
template_document t =
    ("id", Json.str t.id)
    ∷ ("credentialManifest", Json.str t.manifest)
    ∷ ("issuer", Json.str t.issuer)
    ∷ ("verificationMethodId", Json.str t.method_id)
    ∷ ("credentials", Json.arr (credential_items t.credentials))
    ∷ []

unfoldable pub document_template : Document → Result Template
unfolding as_credentials
document_template m = then_pure (as_string (lookup "id" m)) λ id.
    then_pure (as_string (lookup "credentialManifest" m)) λ manifest.
      then_pure (as_string (lookup "issuer" m)) λ issuer.
        then_pure (as_string (lookup "verificationMethodId" m)) λ method_id.
          then_pure (as_credentials (lookup "credentials" m)) λ credentials. ok (record {
            id = id;
            manifest = manifest;
            issuer = issuer;
            method_id = method_id;
            credentials = credentials;
          })

abbrev pub template_namespace : String
template_namespace = "issuance_template"

-- `StoredIssuanceTemplate`, which has the template inside.
unfoldable pub template_kind : Kind Template
unfolding template_document document_template
template_kind = record {
  namespace = template_namespace;
  id_of = λ t. t.id;
  to_document = λ t. ("issuanceTemplate", Json.obj (members (template_document t))) ∷ [];
  of_document = λ m. then_pure (as_object (lookup "issuanceTemplate" m)) document_template;
}

-- What `ListIssuanceTemplates` reads the stored bytes as: a template that is not inside.
unfoldable pub listed_kind : Kind Template
unfolding template_document document_template
listed_kind = record {
  namespace = template_namespace;
  id_of = λ t. t.id;
  to_document = template_document;
  of_document = document_template;
}
