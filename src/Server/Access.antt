-- ===== src/Server/Access.antt =====
-- Who reaches a handler, and what leaves the application (src/companion/auth.py and server.py).
use hactl_companion.Base.{
  ◌≡◌, ◌≢◌, ◌⊎◌, inl, inr, refl, Bool, true, false, List, [], ◌++◌, arith, Text, eq_text,
  eq_text_iff, mem_text, starts_with-append, starts_with_split, drop-length-append, drop, length,
  Bool-cases,
}
use hactl_companion.Base.{codes}
use hactl_companion.Http.{HttpError, uncaught, unknown_include, Result, ok, err, status}
use hactl_companion.Auth.{
  Request, Environment, get_or, is_trusted_ingress, bearer, is_ascii, compare_digest,
  bearer_token_valid,
}
use hactl_companion.Server.{
  Response, Handler, auth_exempt_paths, admit, unconfigured, invalid_token, auth_middleware,
  refuse_include, unsupported_include_middleware, is_http_exception, wrap,
  error_envelope_middleware, access_log_middleware, app, AccessLine,
}

-- A header that proves knowledge of the token.
abbrev pub IsToken : Text → Text → Type 0
IsToken header token = (token ≢ []) × (header ≡ bearer ++ token) × (is_ascii token ≡ true)

bearer_token_valid-accepts :
    (header token : Text) → IsToken header token → bearer_token_valid header token ≡ ok true
unfolding bearer_token_valid compare_digest
bearer_token_valid-accepts header token h =
    rw (h.1, drop-length-append bearer token)
      (ground (
        arith,
        h.2,
        h.0,
        starts_with-append bearer token,
        eq_text_iff token [],
        eq_text_iff token token,
      ))

bearer_token_valid-IsToken :
    (header token : Text) → bearer_token_valid header token ≡ ok true → IsToken header token
unfolding bearer_token_valid compare_digest
bearer_token_valid-IsToken header token h =
    let rest = drop (length bearer) header in
    ground (arith, h, starts_with_split header bearer, eq_text_iff token [], eq_text_iff rest token)

-- The request needs no token, comes from the ingress proxy, or carries the configured token.
pub data IsAuthorised (env : Environment) (request : Request) : Type 0 where
  exempt : mem_text request.path auth_exempt_paths ≡ true → IsAuthorised env request
  trusted : is_trusted_ingress env request ≡ true → IsAuthorised env request
  holds_token :
      IsToken (get_or request.authorization []) (get_or env.supervisor_token [])
      → IsAuthorised env request

-- The three outcomes of the check.
verdict :
    (header token : Text)
    → ((bearer_token_valid header token ≡ ok true) ⊎ (bearer_token_valid header token ≡ ok false))
      ⊎ ((t : Text) × (bearer_token_valid header token ≡ err (uncaught t)))
verdict header token = outcome (bearer_token_valid header token) refl
  where
    outcome :
        (r : Result Bool)
        → bearer_token_valid header token ≡ r
        → ((bearer_token_valid header token ≡ ok true)
            ⊎ (bearer_token_valid header token ≡ ok false))
          ⊎ ((t : Text) × (bearer_token_valid header token ≡ err (uncaught t)))
    outcome (ok true) e = inl (inl e)
    outcome (ok false) e = inl (inr e)
    outcome (err x) e =
        inr (unfold bearer_token_valid compare_digest in (codes "TypeError", ground (arith, e)))

wrap-state :
    {S : Type 0} (reason : HttpError → Text) (r : Result Response × S) → (wrap reason r).1 ≡ r.1
unfolding wrap
wrap-state reason (ok response, s) = refl
wrap-state reason (err e, s) = ground arith

refuse_include-state : {S : Type 0} (r : Result Response × S) → (refuse_include r).1 ≡ r.1
unfolding refuse_include
refuse_include-state (ok response, s) = refl
refuse_include-state (err (unknown_include t), s) = refl
refuse_include-state (err _, s) = refl

wrap-errors :
    {S : Type 0} (reason : HttpError → Text) (r : Result Response × S) (e : HttpError)
    → (wrap reason (refuse_include r)).0 ≡ err e
    → (t : Text) × (e ≡ uncaught t)
unfolding wrap refuse_include is_http_exception
wrap-errors reason (ok response, s) e h = absurd (ground (arith))
wrap-errors reason (err (uncaught t), s) e h = (t, ground (arith))
wrap-errors reason (err (unknown_include t), s) e h = absurd (ground (arith))
wrap-errors reason (err _, s) e h = absurd (ground (arith))

module _ {S : Type 0} (env : Environment) (handler : Handler S) (request : Request) (s : S) where
  -- An authorised request reaches the handler, and the middleware adds nothing to its answer.
  pub auth_middleware-admits :
      IsAuthorised env request → auth_middleware env handler request s ≡ handler request s
  unfolding auth_middleware admit
  auth_middleware-admits (exempt h) = rw h
  auth_middleware-admits (trusted h) = ground (arith, h)
  auth_middleware-admits (holds_token h) =
      let v =
        bearer_token_valid-accepts (get_or request.authorization [])
          (get_or env.supervisor_token []) h in
      ground (arith, v, h.0, eq_text_iff (get_or env.supervisor_token []) [])

  -- A request that is not authorised never reaches the handler: the state is as it was, and the
  -- answer is one of 401, 503 and 500.
  pub auth_middleware-refuses :
      ¬ IsAuthorised env request
      → (e : HttpError) × (auth_middleware env handler request s ≡ (err e, s))
        × ((status e ≡ 401) ⊎ ((status e ≡ 503) ⊎ (status e ≡ 500)))
  unfolding auth_middleware admit status
  auth_middleware-refuses n =
      let header = get_or request.authorization [] in
      let expected = get_or env.supervisor_token [] in
      elim (Bool-cases (mem_text request.path auth_exempt_paths)) [
        | inl e ↦ absurd (n (exempt e))
        | inr a ↦ elim (Bool-cases (is_trusted_ingress env request)) [
          | inl e ↦ absurd (n (trusted e))
          | inr b ↦ elim (Bool-cases (eq_text expected [])) [
            | inl c ↦ (unconfigured, rw (a, b, c), inr (inl refl))
            | inr c ↦ elim (verdict header expected) [
              | inl (inl v) ↦
                  absurd (n (holds_token (bearer_token_valid-IsToken header expected v)))
              | inl (inr v) ↦ (invalid_token, rw (a, b, c, v), inl refl)
              | inr (t, v) ↦ (uncaught t, rw (a, b, c, v), inr (inr refl))
            ]
          ]
        ]
      ]

  -- Behind the whole chain of middlewares, too, a request that is not authorised leaves the state of
  -- the program as it was.
  pub app-refuses :
      (reason : HttpError → Text) (log : List AccessLine)
      → ¬ IsAuthorised env request
      → (app env reason handler request (log, s)).1.1 ≡ s
  unfolding app access_log_middleware error_envelope_middleware unsupported_include_middleware
  app-refuses reason log n =
      let (e, answer, _) = auth_middleware-refuses n in
      rw answer
        (rw (wrap-state reason (refuse_include (err e, s)), refuse_include-state (err e, s)))

  -- Every exception that leaves the application is one that no middleware knows; any HTTP exception
  -- of a handler, and the refusal of an unknown include tag, leaves as a response.
  pub app-errors :
      (reason : HttpError → Text) (log : List AccessLine) (e : HttpError)
      → (app env reason handler request (log, s)).0 ≡ err e
      → (t : Text) × (e ≡ uncaught t)
  unfolding app access_log_middleware error_envelope_middleware unsupported_include_middleware
  app-errors reason log e h = wrap-errors reason (auth_middleware env handler request s) e h
