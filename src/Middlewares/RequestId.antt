-- ===== src/Middlewares/RequestId.antt =====
-- `RequestIdMiddleware` (backend/middlewares/request_id.py).
use llm_inference_gpu_server.Common.{
  ⊤, String, ◌≡◌, refl, Option, none, some, if◌then◌else◌, str_eq,
}
use llm_inference_gpu_server.Common.Dict.{get}
use llm_inference_gpu_server.Errors.{ok, Action, pure, ◌>>=◌, try_finally}
use llm_inference_gpu_server.Errors.Runs.{bind-ok, try_finally-ok}
use llm_inference_gpu_server.Errors.Ends.{Ends, Ends-pure, Ends-bind, Ends-try_finally}
use llm_inference_gpu_server.Observability.Metrics.{Responses, HeaderLaws}

-- `request.state.request_id`, and the context variable of backend/core/request_context.py.
pub record Scope : Type 0 where
  pub request_id : Option String
  pub request_id_context : Option String

-- `request.headers.get(REQUEST_ID_HEADER) or generate_request_id()`, with the identifier that would
-- be generated.
unfoldable pub request_id_or : Option String → String → String
request_id_or none generated = generated
request_id_or (some id) generated = if str_eq id "" then generated else id

module _ {R S : Type 0} (responses : Responses R) where
  -- `request_id_context.reset(token)`
  unfoldable pub reset : Option String → Action (S × Scope) ⊤
  reset before (s, scope) = (ok tt, (s, record scope { request_id_context = before }))

  abbrev pub entered : String → S × Scope → S × Scope
  entered request_id (s, scope) =
      (s, record { request_id = some request_id; request_id_context = some request_id })

  -- `dispatch`, with the header of the request.
  unfoldable pub dispatch : Option String → String → Action (S × Scope) R → Action (S × Scope) R
  dispatch header generated call_next w =
      let request_id = request_id_or header generated in
      (try_finally call_next (reset w.1.request_id_context) >>= λ response.
      pure (responses.set_header response "x-request-id" request_id))
        (entered request_id w)

  pub dispatch-answered :
      (header : Option String) (generated : String) (call_next : Action (S × Scope) R)
      (w : S × Scope) (response : R) (t : S) (scope : Scope)
      → call_next (entered (request_id_or header generated) w) ≡ (ok response, (t, scope))
      → dispatch header generated call_next w ≡ (
        ok (responses.set_header response "x-request-id" (request_id_or header generated)),
        (t, record scope { request_id_context = w.1.request_id_context }),
      )
  unfolding dispatch reset pure
  dispatch-answered header generated call_next (s, before) response t scope h =
      bind-ok _ _ _ _ response
        (try_finally-ok call_next (reset before.request_id_context) _ _ _ _ h refl)

  -- A response carries the identifier of its request: the one of the request's header, unless it is
  -- missing or empty, and a generated one otherwise. The request itself is handled with that
  -- identifier in its state and in the context, and the context is what it was, whether the request is
  -- answered or raises.
  pub dispatch-Tagged :
      HeaderLaws responses
      → (header : Option String) (generated : String) (call_next : Action (S × Scope) R)
        (P : R → S → Type 0) (w : S × Scope)
      → let request_id = request_id_or header generated in
        Ends (λ r u. P r u.0) (λ _ _. ⊤) (call_next (entered request_id w))
        → Ends
            (λ response u.
              (get (responses.headers response) "x-request-id" ≡ some request_id)
              × (u.1.request_id_context ≡ w.1.request_id_context)
              × ((r : R) × (response ≡ responses.set_header r "x-request-id" request_id) × P r u.0))
            (λ _ u. u.1.request_id_context ≡ w.1.request_id_context)
            (dispatch header generated call_next w)
  unfolding dispatch reset
  dispatch-Tagged laws header generated call_next P w h =
      let request_id = request_id_or header generated in
      Ends-bind _ _ (entered request_id w)
        (Ends-try_finally call_next (reset w.1.request_id_context) (entered request_id w) h
          (λ r u p. reset_Ends u r p) (λ e u p. reset_raise u))
        (λ r u (p, c).
          Ends-pure _ _ _ u (laws.self_law r "x-request-id" request_id, c, (r, refl, p)))
        (λ _ u c. c)
    where
      reset_Ends :
          (u : S × Scope) (r : R)
          → P r u.0
          → Ends
              (λ _ v. P r v.0 × (v.1.request_id_context ≡ w.1.request_id_context))
              (λ _ v. v.1.request_id_context ≡ w.1.request_id_context)
              (reset w.1.request_id_context u)
      reset_Ends (s, scope) r p = record { holds = (p, refl) }

      reset_raise :
          (u : S × Scope)
          → Ends
              (λ _ v. v.1.request_id_context ≡ w.1.request_id_context)
              (λ _ v. v.1.request_id_context ≡ w.1.request_id_context)
              (reset w.1.request_id_context u)
      reset_raise (s, scope) = record { holds = refl }
