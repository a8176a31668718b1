-- ===== src/Did/Service.antt =====
-- did/service.go, did/handler.go and did/resolution/resolver.go: the choice of a handler by the method, and the
-- resolution of DIDs.
use ssi_service.Prelude.{
  ℕ, String, Bool, Option, none, some, List, [], ◌∷◌, Assoc, lookup, insert, Result, ok, err, Error,
  Action, then_pure, lift, ◌>>=◌, ◌==◌, if◌then◌else◌,
}
use ssi_service.Did.Ids.{key_method, web_method, ion_method, get_method_for_did}
use ssi_service.Did.Handlers.{MethodHandler, CreateDidRequest}

-- `instantiateHandlerForMethod` for each method of the configuration; the handlers as the service
-- makes them, each of which may fail.
module _ {S Doc : Type 0} (key web ion : Result (MethodHandler S Doc)) where
  unfoldable pub handler_for : String → Result (MethodHandler S Doc)
  handler_for method =
      if method == key_method
      then key
      else if method == web_method
      then web
      else if method == ion_method
      then ion
      else err Error.invalid

  unfoldable pub instantiate :
      List String → Assoc (MethodHandler S Doc) → Result (Assoc (MethodHandler S Doc))
  unfolding handler_for
  instantiate [] handlers = ok handlers
  instantiate (m ∷ ms) handlers =
      then_pure (handler_for m) λ h. instantiate ms (insert m h handlers)

module _ {S Doc : Type 0} (handlers : Assoc (MethodHandler S Doc)) where
  unfoldable pub get_handler : String → Result (MethodHandler S Doc)
  get_handler method = elim (lookup method handlers) [ none ↦ err Error.invalid | some h ↦ ok h ]

  unfoldable pub create_did_by_method : CreateDidRequest Doc → Action S Doc
  unfolding get_handler
  create_did_by_method r = do h ← lift (get_handler r.method); h.create_did r

  unfoldable pub get_did_by_method : S → String → String → Result Doc
  unfolding get_handler
  get_did_by_method s method id = then_pure (get_handler method) λ h. h.get_did s id

  unfoldable pub list_dids_by_method :
      S → String → Bool → String → Option ℕ → Result (List Doc × String)
  unfolding get_handler
  list_dids_by_method s method deleted token size = then_pure (get_handler method) λ h.
      if deleted
      then then_pure (h.list_deleted_dids s) (λ ds. ok (ds, ""))
      else h.list_dids s token size

  unfoldable pub soft_delete_did_by_method : String → String → Action S (Unit {0})
  unfolding get_handler
  soft_delete_did_by_method method id = do h ← lift (get_handler method); h.soft_delete_did id

-- `Resolve` of `handlerResolver`
unfoldable pub handler_resolve : {S Doc : Type 0} → MethodHandler S Doc → S → String → Result Doc
handler_resolve h s did =
    then_pure (get_method_for_did did)
      λ method. if method == h.method then h.get_did s did else err Error.invalid

or_else : {Doc : Type 0} → Result Doc → Result Doc → Result Doc
or_else (ok doc) next = ok doc
or_else (err e) next = next

resolve_by : {Doc : Type 0} → Option (String → Result Doc) → String → Result Doc
resolve_by none did = err Error.not_found
resolve_by (some r) did = r did

-- `Resolve` of did/resolution/resolver.go, with the SDK's resolver over the handlers, that of the local
-- methods and the universal one, where there are any.
unfoldable pub resolve :
    {Doc : Type 0} (handlers local universal : Option (String → Result Doc)) → String → Result Doc
unfolding or_else resolve_by
resolve handlers local universal did = then_pure (get_method_for_did did) λ _.
    or_else (resolve_by handlers did) (or_else (resolve_by local did) (resolve_by universal did))

-- `ResolveDID`
unfoldable pub resolve_did : {Doc : Type 0} → (String → Result Doc) → String → Result Doc
resolve_did resolver did = if did == "" then err Error.invalid else resolver did
