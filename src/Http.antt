-- ===== src/Http.antt =====
-- The `web.HTTPException`s that the handlers raise (aiohttp), with their `text`, and results that may
-- be such an exception. Used by every module of src/companion that answers requests.
use hactl_companion.Base.{ℕ, Text}

pub data HttpError : Type 0 where
  bad_request unauthorized forbidden not_found conflict : Text → HttpError
  server_error bad_gateway unavailable gateway_timeout : Text → HttpError
  -- Any other exception that a handler lets through: aiohttp answers 500.
  uncaught : Text → HttpError
  -- `UnknownIncludeTagError` (src/companion/yaml_resolver.py), which one middleware turns into a 400.
  unknown_include : Text → HttpError

-- `exc.status`.
unfoldable pub status : HttpError → ℕ
status (bad_request _) = 400
status (unauthorized _) = 401
status (forbidden _) = 403
status (not_found _) = 404
status (conflict _) = 409
status (server_error _) = 500
status (bad_gateway _) = 502
status (unavailable _) = 503
status (gateway_timeout _) = 504
status (uncaught _) = 500
status (unknown_include _) = 500

-- What a handler returns, or the exception that it raises.
pub data Result {ℓ} (A : Type ℓ) : Type ℓ where
  err : HttpError → Result A
  ok : A → Result A

-- The next statement runs only if this one raises nothing.
infixl 5 ◌>>=◌
abbrev pub ◌>>=◌ {ℓ κ} : {A : Type ℓ} {B : Type κ} → Result A → (A → Result B) → Result B
statement >>= next = elim statement [ err e ↦ err e | ok value ↦ next value ]
