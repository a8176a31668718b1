-- ===== src/Webhook/Urls.antt =====
-- Registering a URL and taking it back.
use ssi_service.Prelude.{
  ℕ, zero, suc, String, ◌≡◌, ◌≢◌, refl, sym, ◌∙◌, ap, false, Option, none, some, inl, inr, List, [],
  ◌∷◌, ◌++◌, lookup, take, drop, Result, ok, eq_iff, eq_refl, arith, Run-cases,
}
use ssi_service.Json.{Codec, Document, as_strings, items_strings-string_items}
use ssi_service.Storage.Contract.{ServiceStorage, IsLawful}
use ssi_service.Storage.Update.{unmarshal}
use ssi_service.Webhook.{
  Webhook, WebhookRequest, one_of, webhook_document, document_webhook, index_of_url, add_url,
  remove_url, webhook_namespace, webhook_key, store_webhook, found_webhook, find_webhook, with_url,
  create_webhook, get_webhook, keep_or_delete, delete_webhook,
}

document_webhook-webhook_document : (w : Webhook) → document_webhook (webhook_document w) ≡ ok w
unfolding document_webhook webhook_document as_strings lookup
document_webhook-webhook_document w = ground (arith, items_strings-string_items w.urls)

index_of_url-append :
    (u : String) (us : List String)
    → one_of u us ≡ false
    → (i : ℕ) × (index_of_url u (us ++ (u ∷ [])) ≡ some i)
      × (take i (us ++ (u ∷ [])) ++ drop (suc i) (us ++ (u ∷ [])) ≡ us)
unfolding index_of_url one_of
index_of_url-append u [] new = (zero, ground (arith, eq_refl u), refl)
index_of_url-append u (v ∷ us) new =
    let (i, found, same) = index_of_url-append u us (ground arith) in
    (suc i, ground (arith, found, eq_iff u v, eq_iff v u), ap (◌∷◌ v) same)

-- Taking back a URL that was added last gives the URLs as they were.
pub remove_url-add_url :
    (u : String) (us : List String) → one_of u us ≡ false → remove_url u (add_url u us) ≡ ok us
unfolding remove_url add_url
remove_url-add_url u us new =
    let (i, found, same) = index_of_url-append u us new in ground (arith, new, found, same)

-- What is registered when these URLs are left of a webhook.
kept : Webhook → List String → Result (Option Webhook)
kept w [] = ok none
kept w (u ∷ us) = ok (some (record { noun = w.noun; verb = w.verb; urls = u ∷ us }))

module _ {S Bytes : Type 0} (db : ServiceStorage S Bytes) (codec : Codec Bytes) where
  document_webhook-same :
      (m m' : Document)
      → ((k : String) → lookup k m' ≡ lookup k m)
      → document_webhook m' ≡ document_webhook m
  unfolding document_webhook
  document_webhook-same m m' same = rw (same "noun", same "verb", same "urls")

  pub found_webhook-marshal :
      (w : Webhook)
      → found_webhook db codec (some (codec.marshal (webhook_document w))) ≡ ok (some w)
  unfolding found_webhook unmarshal
  found_webhook-marshal w = ground (
    arith,
    codec.is_empty-marshal (webhook_document w),
    codec.unmarshal-marshal (webhook_document w),
    document_webhook-same (webhook_document w) (codec.reread (webhook_document w))
        (codec.lookup-reread (webhook_document w)),
    document_webhook-webhook_document w,
  )

  module _ (lawful : IsLawful db) where
    find_webhook-store_webhook :
        (noun verb : String) (w : Webhook) (s s' : S)
        → store_webhook db codec noun verb w s ≡ (ok tt, s')
        → find_webhook db codec s' noun verb ≡ ok (some w)
    unfolding store_webhook find_webhook
    find_webhook-store_webhook noun verb w s s' h = ground (
      arith,
      lawful.read-write webhook_namespace (webhook_key noun verb)
          (codec.marshal (webhook_document w)) s s' h webhook_namespace (webhook_key noun verb),
      eq_refl (webhook_key noun verb),
      found_webhook-marshal w,
    )

    find_webhook-delete :
        (noun verb : String) (s s' : S)
        → db.delete webhook_namespace (webhook_key noun verb) s ≡ (ok tt, s')
        → find_webhook db codec s' noun verb ≡ ok none
    unfolding find_webhook found_webhook
    find_webhook-delete noun verb s s' h = ground (
      arith,
      lawful.read-delete webhook_namespace (webhook_key noun verb) s s' h webhook_namespace
          (webhook_key noun verb),
      eq_refl (webhook_key noun verb),
    )

    create_webhook-eq-ok :
        (r : WebhookRequest) (w : Webhook) (found : Option Webhook) (s s' : S)
        → find_webhook db codec s r.noun r.verb ≡ ok found
        → create_webhook db codec r s ≡ (ok w, s')
        → (w ≡ with_url db codec r found) × (store_webhook db codec r.noun r.verb w s ≡ (ok tt, s'))
    unfolding create_webhook
    create_webhook-eq-ok r w found s s' p h =
        elim (Run-cases (store_webhook db codec r.noun r.verb (with_url db codec r found) s)) [
          | inl (e, t, q) ↦ absurd (ground arith)
          | inr (u, t, q) ↦ (ground arith, ground arith)
        ]

    -- What a deletion leaves, from what is registered and what is left of its URLs.
    delete_webhook-find :
        (r : WebhookRequest) (w : Webhook) (urls : List String) (s s' : S)
        → find_webhook db codec s r.noun r.verb ≡ ok (some w)
        → remove_url r.url w.urls ≡ ok urls
        → delete_webhook db codec r s ≡ (ok tt, s')
        → keep_or_delete db codec r w urls s ≡ (ok tt, s')
    unfolding delete_webhook get_webhook
    delete_webhook-find r w urls s s' p q h = ground (arith, p, q)

    keep_or_delete-find :
        (r : WebhookRequest) (w : Webhook) (urls : List String) (s s' : S)
        → keep_or_delete db codec r w urls s ≡ (ok tt, s')
        → find_webhook db codec s' r.noun r.verb ≡ kept w urls
    unfolding keep_or_delete kept
    keep_or_delete-find r w [] s s' h = find_webhook-delete r.noun r.verb s s' h
    keep_or_delete-find r w (u ∷ us) s s' h =
        find_webhook-store_webhook r.noun r.verb
          (record { noun = w.noun; verb = w.verb; urls = u ∷ us }) s s' h

    taken_back :
        (r : WebhookRequest) (found : Option Webhook) (w : Webhook) (urls : List String)
        (s s1 s2 : S)
        → find_webhook db codec s r.noun r.verb ≡ ok found
        → remove_url r.url (with_url db codec r found).urls ≡ ok urls
        → create_webhook db codec r s ≡ (ok w, s1)
        → delete_webhook db codec r s1 ≡ (ok tt, s2)
        → find_webhook db codec s2 r.noun r.verb ≡ kept (with_url db codec r found) urls
    taken_back r found w urls s s1 s2 p q created deleted =
        let (w_is, stored) = create_webhook-eq-ok r w found s s1 p created in
        let ends = keep_or_delete-find r w urls s1 s2 (
          delete_webhook-find r w urls s1 s2
            (find_webhook-store_webhook r.noun r.verb w s s1 stored) (ground (arith, q)) deleted) in
        ends ∙ ap (λ v. kept v urls) w_is

    kept-with_url :
        (r : WebhookRequest) (old : Webhook) (urls : List String)
        → old.urls ≡ urls
        → urls ≢ []
        → kept (with_url db codec r (some old)) urls ≡ ok (some old)
    unfolding kept with_url
    kept-with_url r old [] e ne = absurd (ne refl)
    kept-with_url r old (u ∷ us) e ne =
        ap (λ l. ok (some (record { noun = old.noun; verb = old.verb; urls = l }))) (sym e)

    -- Where a URL was not registered for an event, registering it and deleting it gives back what was
    -- registered: nothing, or the webhook with its URLs in their order.
    pub delete_webhook-create_webhook :
        (r : WebhookRequest) (found : Option Webhook) (w : Webhook) (s s1 s2 : S)
        → find_webhook db codec s r.noun r.verb ≡ ok found
        → ((old : Webhook) → found ≡ some old → (one_of r.url old.urls ≡ false) × (old.urls ≢ []))
        → create_webhook db codec r s ≡ (ok w, s1)
        → delete_webhook db codec r s1 ≡ (ok tt, s2)
        → find_webhook db codec s2 r.noun r.verb ≡ ok found
    unfolding with_url kept one_of add_url
    delete_webhook-create_webhook r none w s s1 s2 p fresh created deleted =
        taken_back r none w [] s s1 s2 p (remove_url-add_url r.url [] refl) created deleted
    delete_webhook-create_webhook r (some old) w s s1 s2 p fresh created deleted =
        taken_back r (some old) w old.urls s s1 s2 p
          (remove_url-add_url r.url old.urls (fresh old refl).0) created deleted
        ∙ kept-with_url r old old.urls refl (fresh old refl).1
