-- ===== src/Server.antt =====
-- src/companion/server.py: the middlewares and the order in which `create_app` composes them. A handler
-- takes the request and the state of the rest of the program, and returns that state beside its
-- response or exception. aiohttp's own path normalisation runs before them and is not modelled;
-- `reason` is aiohttp's text for an exception that has none.
pub mod Access
mod Tests
use hactl_companion.Base.{
  ℕ, zero, suc, Bool, true, false, Option, none, some, List, [], ◌∷◌, ◌++◌, not, Text, codes,
  eq_text, mem_text, ltb, ◌==◌, if◌then◌else◌,
}
use hactl_companion.Http.{
  HttpError, bad_request, unauthorized, unavailable, uncaught, unknown_include, forbidden,
  not_found, conflict, server_error, bad_gateway, gateway_timeout, status, Result, ok, err,
}
use hactl_companion.Auth.{Request, Environment, get_or, is_trusted_ingress, bearer_token_valid}

-- A JSON answer of a handler, or the error envelope with its code and message.
pub data Body : Type 0 where
  payload : Text → Body
  envelope : ℕ → Text → Body

pub record Response : Type 0 where
  pub code : ℕ
  pub body : Body

abbrev pub Handler : Type 0 → Type 0
Handler S = Request → S → Result Response × S

abbrev pub auth_exempt_paths : List Text
auth_exempt_paths = codes "/v1/health" ∷ codes "/v1/status" ∷ []

-- `exc.text` of an exception: aiohttp's answers carry the text they were raised with.
pub error_text : HttpError → Text
error_text (bad_request t) = t
error_text (unauthorized t) = t
error_text (forbidden t) = t
error_text (not_found t) = t
error_text (conflict t) = t
error_text (server_error t) = t
error_text (bad_gateway t) = t
error_text (unavailable t) = t
error_text (gateway_timeout t) = t
error_text (uncaught t) = t
error_text (unknown_include t) = t

-- Whether the exception is a `web.HTTPException`.
pub is_http_exception : HttpError → Bool
is_http_exception (uncaught t) = false
is_http_exception (unknown_include t) = false
is_http_exception _ = true

abbrev pub unconfigured : HttpError
unconfigured =
    unavailable (codes "Server authentication is not configured (SUPERVISOR_TOKEN unset)")

abbrev pub invalid_token : HttpError
invalid_token = unauthorized (codes "Invalid or missing authentication token")

-- The end of `auth_middleware`, once the token has been compared.
admit : {S : Type 0} → Handler S → Result Bool → Handler S
admit handler (ok true) request s = handler request s
admit handler (ok false) request s = (err invalid_token, s)
admit handler (err e) request s = (err e, s)

pub auth_middleware : {S : Type 0} → Environment → Handler S → Handler S
auth_middleware env handler request s =
    let expected_token = get_or env.supervisor_token [] in
    if mem_text request.path auth_exempt_paths
    then handler request s
    else if is_trusted_ingress env request
    then handler request s
    else if eq_text expected_token []
    then (err unconfigured, s)
    else admit handler (bearer_token_valid (get_or request.authorization []) expected_token) request
        s

refuse_include : {S : Type 0} → Result Response × S → Result Response × S
refuse_include (err (unknown_include t), s) = (err (bad_request t), s)
refuse_include (r, s) = (r, s)

pub unsupported_include_middleware : {S : Type 0} → Handler S → Handler S
unsupported_include_middleware handler request s = refuse_include (handler request s)

-- `exc.text or exc.reason or ""`.
message_of : (HttpError → Text) → HttpError → Text
message_of reason e = if eq_text (error_text e) [] then reason e else error_text e

-- No exception here has a status below 400 or a JSON body.
wrap : {S : Type 0} → (HttpError → Text) → Result Response × S → Result Response × S
wrap reason (ok response, s) = (ok response, s)
wrap reason (err e, s) =
    if is_http_exception e
    then (ok (record { code = status e; body = envelope (status e) (message_of reason e) }), s)
    else (err e, s)

pub error_envelope_middleware : {S : Type 0} → (HttpError → Text) → Handler S → Handler S
error_envelope_middleware reason handler request s = wrap reason (handler request s)

pub data AuthMode : Type 0 where
  without ingress_mode bearer_mode : AuthMode

-- A line of the access log; the duration is left out.
pub record AccessLine : Type 0 where
  pub warning : Bool
  pub path : Text
  pub code : ℕ
  pub auth : AuthMode

pub auth_mode : Environment → Request → AuthMode
auth_mode env request =
    if mem_text request.path auth_exempt_paths
    then without
    else if is_trusted_ingress env request
    then ingress_mode
    else bearer_mode

-- The status that is logged: 500 for an exception that is no `HTTPException`.
pub logged_status : Result Response → ℕ
logged_status (ok response) = response.code
logged_status (err e) = if is_http_exception e then status e else 500

-- The log is kept beside the state.
pub access_log_middleware :
    {S : Type 0}
    → Environment
    → Handler S
    → Request
    → List AccessLine × S
    → Result Response × (List AccessLine × S)
access_log_middleware env handler request (log, s) =
    let (r, s') = handler request s in
    let code = logged_status r in
    let line : AccessLine = record {
      warning = code == 401;
      path = request.path;
      code = code;
      auth = auth_mode env request;
    } in
    (r, (log ++ line ∷ [], s'))

-- The application of `create_app` around the handler that the router picks.
pub app :
    {S : Type 0}
    → Environment
    → (HttpError → Text)
    → Handler S
    → Request
    → List AccessLine × S
    → Result Response × (List AccessLine × S)
app env reason handler = access_log_middleware env (
    error_envelope_middleware reason (unsupported_include_middleware (auth_middleware env handler)))
