-- ===== src/Issuance/Stored/Laws.antt =====
-- Templates are read back as they were stored, except in their list.
use ssi_service.Prelude.{
  ℕ, String, ◌≡◌, refl, ◌∙◌, Option, none, some, List, [], ◌∷◌, lookup, Result, ok, then_pure,
}
use ssi_service.Json.{Json, Document, as_object, members, of_members, of_members-members}
use ssi_service.Storage.Kind.Laws.{IsFaithful}
use ssi_service.Issuance.Stored.{
  CredentialTemplate, Template, zero_template, time_fields, optional_text, optional_number,
  expiry_of, credential_members, claims_field, credential_document, document_credential,
  credential_items, items_credentials, as_credentials, template_document, document_template,
  template_kind, listed_kind,
}

expiry_of-time_fields :
    (t : Option String) (n : Option ℕ)
    → expiry_of (of_members (members (time_fields t n))) ≡ ok (record { time = t; duration = n })
unfolding expiry_of time_fields optional_text optional_number lookup
expiry_of-time_fields none none = refl
expiry_of-time_fields none (some n) = refl
expiry_of-time_fields (some t) none = refl
expiry_of-time_fields (some t) (some n) = refl

as_object-claims_field :
    (claims : Document) → as_object (lookup "data" (claims_field claims)) ≡ ok claims
unfolding claims_field lookup
as_object-claims_field [] = refl
as_object-claims_field (kv ∷ m) = rw (of_members-members m)

document_credential-members :
    (c : CredentialTemplate) (rest claims : Document)
    → as_object (lookup "data" rest) ≡ ok claims
    → document_credential (credential_members c rest)
      ≡ ok (record {
        id = c.id;
        schema = c.schema;
        input_descriptor = c.input_descriptor;
        claims = claims;
        expiry = c.expiry;
        revocable = c.revocable;
      })
unfolding document_credential credential_members lookup
document_credential-members c rest claims h =
    rw h (rw (expiry_of-time_fields c.expiry.time c.expiry.duration))

document_credential-credential_document :
    (c : CredentialTemplate) → document_credential (credential_document c) ≡ ok c
unfolding credential_document
document_credential-credential_document c =
    document_credential-members c (claims_field c.claims) c.claims (as_object-claims_field c.claims)

items_credentials-credential_items :
    (cs : List CredentialTemplate) → items_credentials (credential_items cs) ≡ ok cs
unfolding items_credentials credential_items
items_credentials-credential_items [] = refl
items_credentials-credential_items (c ∷ cs) = rw (of_members-members (credential_document c)) (
    rw (document_credential-credential_document c)
      (rw (items_credentials-credential_items cs) refl))

document_template-template_document :
    (t : Template) → document_template (template_document t) ≡ ok t
unfolding document_template template_document as_credentials lookup
document_template-template_document t = rw (items_credentials-credential_items t.credentials)

document_template-same :
    (m m' : Document)
    → ((k : String) → lookup k m' ≡ lookup k m)
    → document_template m' ≡ document_template m
unfolding document_template
document_template-same m m' same = rw (
  same "id",
  same "credentialManifest",
  same "issuer",
  same "verificationMethodId",
  same "credentials",
)

stored_read :
    (m : Document) (f : Document → Result Template)
    → then_pure
        (as_object (lookup "issuanceTemplate" (("issuanceTemplate", Json.obj (members m)) ∷ [])))
        f
      ≡ f m
unfolding lookup
stored_read m f = rw (of_members-members m)

pub template_kind-IsFaithful : IsFaithful template_kind
unfolding template_kind lookup
template_kind-IsFaithful = record {
  of_document-to_document = λ t.
      stored_read (template_document t) document_template ∙ document_template-template_document t;
  of_document-same = λ m m' same. rw (same "issuanceTemplate");
}

-- What is stored for a template, read as a template that is not inside, is a blank one.
pub listed_kind_blank :
    (t : Template) (m : Document)
    → ((k : String) → lookup k m ≡ lookup k (template_kind.to_document t))
    → listed_kind.of_document m ≡ ok zero_template
unfolding listed_kind template_kind zero_template document_template as_credentials lookup
listed_kind_blank t m same =
    rw
      (
        same "id",
        same "credentialManifest",
        same "issuer",
        same "verificationMethodId",
        same "credentials",
      )
      refl
