-- ===== src/Webhook.antt =====
-- pkg/service/webhook: the URLs that are called for an event, a noun and a verb.
pub mod Urls
pub mod Distinct
pub mod Invariant
use ssi_service.Prelude.{
  ℕ, zero, suc, String, ◌≡◌, Bool, true, false, ◌&&◌, Option, none, some, List, [], ◌∷◌, ◌++◌,
  Assoc, lookup, take, drop, Result, ok, err, Error, Action, then_pure, lift, fail, pure, ◌>>=◌,
  ◌>>◌, ◌==◌, if◌then◌else◌,
}
use ssi_service.Json.{Json, Codec, Document, as_string, string_items, as_strings}
use ssi_service.Storage.Contract.{ServiceStorage}
use ssi_service.Storage.Update.{unmarshal}
use ssi_service.Credential.Keys.{join}

pub record Webhook : Type 0 where
  pub noun : String
  pub verb : String
  pub urls : List String

pub record WebhookRequest : Type 0 where
  pub noun : String
  pub verb : String
  pub url : String

-- `Noun.IsValid` and `Verb.isValid`
unfoldable pub one_of : String → List String → Bool
one_of s [] = false
one_of s (t ∷ ts) = let rest = one_of s ts in if t == s then true else rest

unfoldable pub noun_is_valid : String → Bool
unfolding one_of
noun_is_valid n = one_of n (
    "Credential" ∷ "DID" ∷ "Manifest" ∷ "SchemaID" ∷ "Presentation" ∷ "Application" ∷ "Submission"
    ∷ [])

unfoldable pub verb_is_valid : String → Bool
unfolding one_of
verb_is_valid v = one_of v ("Create" ∷ "Delete" ∷ [])

-- `valid_url` is `isValidURL`, which asks the URL library.
unfoldable pub request_is_valid : (String → Bool) → WebhookRequest → Bool
unfolding noun_is_valid verb_is_valid
request_is_valid valid_url r = noun_is_valid r.noun && verb_is_valid r.verb && valid_url r.url

unfoldable pub supported_nouns : List String
supported_nouns = "Credential" ∷ "DID" ∷ "Manifest" ∷ "SchemaID" ∷ "Presentation" ∷ []

unfoldable pub supported_verbs : List String
supported_verbs = "Create" ∷ "Delete" ∷ []

unfoldable pub webhook_document : Webhook → Document
unfolding string_items
webhook_document w =
    ("noun", Json.str w.noun)
    ∷ ("verb", Json.str w.verb)
    ∷ ("urls", Json.arr (string_items w.urls))
    ∷ []

unfoldable pub document_webhook : Document → Result Webhook
unfolding as_strings
document_webhook m = then_pure (as_string (lookup "noun" m)) λ noun.
    then_pure (as_string (lookup "verb" m)) λ verb.
      then_pure (as_strings (lookup "urls" m))
        λ urls. ok (record { noun = noun; verb = verb; urls = urls })

-- The place of a URL in the list, if it is there.
unfoldable pub index_of_url : String → List String → Option ℕ
index_of_url u [] = none
index_of_url u (v ∷ vs) =
    let rest = index_of_url u vs in
    if u == v then some zero else elim rest [ none ↦ none | some i ↦ some (suc i) ]

unfoldable pub add_url : String → List String → List String
unfolding one_of
add_url u us = if one_of u us then us else us ++ (u ∷ [])

-- Where the URL is not there, the index is -1, and the slice panics.
unfoldable pub remove_url : String → List String → Result (List String)
unfolding index_of_url
remove_url u us = elim (index_of_url u us) [
  | none ↦ err Error.panic
  | some i ↦ ok (take i us ++ drop (suc i) us)
]

abbrev pub webhook_namespace : String
webhook_namespace = "webhook"

unfoldable pub webhook_key : String → String → String
unfolding join
webhook_key noun verb = join (noun ∷ verb ∷ [])

module _ {S Bytes : Type 0} (db : ServiceStorage S Bytes) (codec : Codec Bytes) where
  unfoldable pub found_webhook : Option Bytes → Result (Option Webhook)
  found_webhook none = ok none
  found_webhook (some b) =
      if codec.is_empty b
      then ok none
      else then_pure (unmarshal codec (some b))
          (λ m. then_pure (document_webhook m) λ w. ok (some w))

  unfoldable pub find_webhook : S → String → String → Result (Option Webhook)
  unfolding found_webhook
  find_webhook s noun verb =
      then_pure (db.read s webhook_namespace (webhook_key noun verb)) found_webhook

  with_url : WebhookRequest → Option Webhook → Webhook
  with_url r none = record { noun = r.noun; verb = r.verb; urls = r.url ∷ [] }
  with_url r (some w) = record { noun = w.noun; verb = w.verb; urls = add_url r.url w.urls }

  unfoldable pub store_webhook : String → String → Webhook → Action S (Unit {0})
  store_webhook noun verb w =
      db.write webhook_namespace (webhook_key noun verb) (codec.marshal (webhook_document w))

  unfoldable pub create_webhook : WebhookRequest → Action S Webhook
  unfolding find_webhook with_url store_webhook
  create_webhook r s =
      (do
        found ← lift (find_webhook s r.noun r.verb)
        store_webhook r.noun r.verb (with_url r found)
        pure (with_url r found))
        s

  unfoldable pub get_webhook : S → String → String → Result Webhook
  unfolding find_webhook
  get_webhook s noun verb =
      then_pure (find_webhook s noun verb)
        λ found. elim found [ none ↦ err Error.not_found | some w ↦ ok w ]

  unfoldable pub readable : Assoc Bytes → List Webhook
  readable [] = []
  readable ((k, b) ∷ rest) =
      let more = readable rest in
      elim (then_pure (unmarshal codec (some b)) document_webhook) [
        | ok w ↦ w ∷ more
        | err e ↦ more
      ]

  unfoldable pub list_webhooks : S → Result (List Webhook)
  unfolding readable
  list_webhooks s = then_pure (db.read_all s webhook_namespace) λ all. ok (readable all)

  -- A webhook with no URL left is deleted.
  unfoldable pub keep_or_delete : WebhookRequest → Webhook → List String → Action S (Unit {0})
  unfolding store_webhook
  keep_or_delete r w [] = db.delete webhook_namespace (webhook_key r.noun r.verb)
  keep_or_delete r w (u ∷ us) =
      store_webhook r.noun r.verb (record { noun = w.noun; verb = w.verb; urls = u ∷ us })

  unfoldable pub delete_webhook : WebhookRequest → Action S (Unit {0})
  unfolding get_webhook keep_or_delete
  delete_webhook r s =
      (do
        w ← lift (get_webhook s r.noun r.verb)
        urls ← lift (remove_url r.url w.urls)
        keep_or_delete r w urls)
        s
