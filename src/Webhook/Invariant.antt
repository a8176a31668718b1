-- ===== src/Webhook/Invariant.antt =====
-- What holds of the registered webhooks after any calls.
use ssi_service.Prelude.{
  String, ◌≡◌, ◌≢◌, refl, ap, ◌∙◌, Option, none, some, inl, inr, ◌⊎◌, List, [], ◌∷◌, ok, err, Error,
  ◌==◌, arith, Run-cases, Result-cases, Option-cases, Bool-cases,
}
use ssi_service.Json.{Codec}
use ssi_service.Storage.Contract.{ServiceStorage, IsLawful}
use ssi_service.Webhook.{
  Webhook, WebhookRequest, one_of, webhook_document, remove_url, webhook_namespace, webhook_key,
  store_webhook, found_webhook, find_webhook, with_url, create_webhook, get_webhook, keep_or_delete,
  delete_webhook,
}
use ssi_service.Webhook.Urls.{found_webhook-marshal}
use ssi_service.Webhook.Distinct.{
  IsDistinct, add_url-IsDistinct, add_url_nonempty, remove_url-IsDistinct,
}

-- A call of the service.
pub data Call : Type 0 where
  creates : WebhookRequest → Call
  deletes : WebhookRequest → Call

module _ {S Bytes : Type 0} (db : ServiceStorage S Bytes) (codec : Codec Bytes) where
  -- The store after a call, whether it succeeds or fails.
  unfoldable pub after : Call → S → S
  after (creates r) s = (create_webhook db codec r s).1
  after (deletes r) s = (delete_webhook db codec r s).1

  unfoldable pub after_all : List Call → S → S
  unfolding after
  after_all [] s = s
  after_all (c ∷ cs) s = after_all cs (after c s)

  -- Every registered webhook has URLs, and none twice.
  abbrev pub IsProper : S → Type 0
  IsProper s =
      (noun verb : String) (w : Webhook)
      → find_webhook db codec s noun verb ≡ ok (some w)
      → IsDistinct w.urls × (w.urls ≢ [])

  module _ (lawful : IsLawful db) where
    store_webhook-IsProper :
        (noun verb : String) (w : Webhook) (s s' : S)
        → IsProper s
        → IsDistinct w.urls
        → w.urls ≢ []
        → store_webhook db codec noun verb w s ≡ (ok tt, s')
        → IsProper s'
    unfolding store_webhook find_webhook
    store_webhook-IsProper noun verb w s s' proper distinct some_left h n v x found =
        let read =
          lawful.read-write webhook_namespace (webhook_key noun verb)
            (codec.marshal (webhook_document w)) s s' h webhook_namespace (webhook_key n v) in
        elim (Bool-cases (webhook_key noun verb == webhook_key n v)) [
          | inl same ↦
              let x_is : w ≡ x = ground (arith, read, same, found_webhook-marshal db codec w) in
              rw (← x_is) (distinct, some_left)
          | inr other ↦ proper n v x (ground (arith, read, other, found))
        ]

    store_webhook_fails-IsProper :
        (noun verb : String) (w : Webhook) (s s' : S) (e : Error)
        → IsProper s
        → store_webhook db codec noun verb w s ≡ (err e, s')
        → IsProper s'
    unfolding store_webhook
    store_webhook_fails-IsProper noun verb w s s' e proper h =
        let same =
          lawful.write_fails webhook_namespace (webhook_key noun verb)
            (codec.marshal (webhook_document w)) s s' e h in
        rw same proper

    store_webhook_any :
        (noun verb : String) (w : Webhook) (s : S)
        → IsProper s
        → IsDistinct w.urls
        → w.urls ≢ []
        → IsProper (store_webhook db codec noun verb w s).1
    store_webhook_any noun verb w s proper distinct some_left =
        elim (Run-cases (store_webhook db codec noun verb w s)) [
          | inl (e, t, p) ↦ rw p (store_webhook_fails-IsProper noun verb w s t e proper p)
          | inr (u, t, p) ↦
              rw p (store_webhook-IsProper noun verb w s t proper distinct some_left p)
        ]

    with_url-proper :
        (r : WebhookRequest) (found : Option Webhook)
        → ((w : Webhook) → found ≡ some w → IsDistinct w.urls × (w.urls ≢ []))
        → IsDistinct (with_url db codec r found).urls × ((with_url db codec r found).urls ≢ [])
    unfolding with_url one_of
    with_url-proper r none h = ((refl, tt), λ e. cc)
    with_url-proper r (some w) h =
        let (distinct, some_left) = h w refl in
        (add_url-IsDistinct r.url w.urls distinct, add_url_nonempty r.url w.urls some_left)

    create_webhook_state :
        (r : WebhookRequest) (found : Option Webhook) (s : S)
        → find_webhook db codec s r.noun r.verb ≡ ok found
        → (create_webhook db codec r s).1
          ≡ (store_webhook db codec r.noun r.verb (with_url db codec r found) s).1
    unfolding create_webhook
    create_webhook_state r found s p =
        elim (Run-cases (store_webhook db codec r.noun r.verb (with_url db codec r found) s)) [
          | inl (e, t, q) ↦ ground arith
          | inr (u, t, q) ↦ ground arith
        ]

    create_webhook_error :
        (r : WebhookRequest) (s : S) (e : Error)
        → find_webhook db codec s r.noun r.verb ≡ err e
        → (create_webhook db codec r s).1 ≡ s
    unfolding create_webhook
    create_webhook_error r s e p = ground arith

    delete-IsProper :
        (noun verb : String) (s : S)
        → IsProper s
        → IsProper (db.delete webhook_namespace (webhook_key noun verb) s).1
    unfolding find_webhook found_webhook
    delete-IsProper noun verb s proper =
        elim (Run-cases (db.delete webhook_namespace (webhook_key noun verb) s)) [
          | inl (e, t, p) ↦
              let same = lawful.delete_fails webhook_namespace (webhook_key noun verb) s t e p in
              rw p (rw same proper)
          | inr (u, t, p) ↦ rw p (λ n v x found.
              let read =
                lawful.read-delete webhook_namespace (webhook_key noun verb) s t p webhook_namespace
                  (webhook_key n v) in
              elim (Bool-cases (webhook_key noun verb == webhook_key n v)) [
                | inl same ↦ absurd (ground (arith, read, same, found))
                | inr other ↦ proper n v x (ground (arith, read, other, found))
              ])
        ]

    keep_or_delete-IsProper :
        (r : WebhookRequest) (w : Webhook) (urls : List String) (s : S)
        → IsProper s
        → IsDistinct urls
        → IsProper (keep_or_delete db codec r w urls s).1
    unfolding keep_or_delete
    keep_or_delete-IsProper r w [] s proper distinct = delete-IsProper r.noun r.verb s proper
    keep_or_delete-IsProper r w (u ∷ us) s proper distinct =
        store_webhook_any r.noun r.verb (record { noun = w.noun; verb = w.verb; urls = u ∷ us }) s
          proper distinct (λ e. cc)

    delete_webhook_state :
        (r : WebhookRequest) (s : S)
        → ((delete_webhook db codec r s).1 ≡ s)
          ⊎ ((w : Webhook) × (urls : List String) × (find_webhook db codec s r.noun r.verb
                ≡ ok (some w))
              × (remove_url r.url w.urls ≡ ok urls)
              × ((delete_webhook db codec r s).1 ≡ (keep_or_delete db codec r w urls s).1))
    unfolding delete_webhook get_webhook
    delete_webhook_state r s = elim (Result-cases (find_webhook db codec s r.noun r.verb)) [
      | inl (e, p) ↦ inl (ground arith)
      | inr (found, p) ↦ elim (Option-cases found) [
        | inl missing ↦ inl (ground arith)
        | inr (w, q) ↦ elim (Result-cases (remove_url r.url w.urls)) [
          | inl (e, z) ↦ inl (ground arith)
          | inr (urls, z) ↦ inr (w, urls, ground arith, z, ground arith)
        ]
      ]
    ]

    after-IsProper : (c : Call) (s : S) → IsProper s → IsProper (after c s)
    unfolding after
    after-IsProper (creates r) s proper =
        elim (Result-cases (find_webhook db codec s r.noun r.verb)) [
          | inl (e, p) ↦ rw (create_webhook_error r s e p) proper
          | inr (found, p) ↦
              let (distinct, some_left) =
                with_url-proper r found (λ w q. proper r.noun r.verb w (p ∙ ap ok q)) in
              rw (create_webhook_state r found s p) (
                store_webhook_any r.noun r.verb (with_url db codec r found) s proper distinct
                  some_left)
        ]
    after-IsProper (deletes r) s proper = elim (delete_webhook_state r s) [
      | inl same ↦ rw same proper
      | inr (w, urls, p, q, state) ↦
          let (distinct, _) = proper r.noun r.verb w p in
          rw state (
            keep_or_delete-IsProper r w urls s proper
              (remove_url-IsDistinct r.url w.urls urls distinct q))
    ]

    -- From a store where every registered webhook has URLs, and none twice, any calls that register and
    -- delete URLs, whether they succeed or fail, lead to such a store.
    pub after_all-IsProper : (cs : List Call) (s : S) → IsProper s → IsProper (after_all cs s)
    unfolding after_all
    after_all-IsProper [] s proper = proper
    after_all-IsProper (c ∷ cs) s proper =
        after_all-IsProper cs (after c s) (after-IsProper c s proper)
