-- ===== src/Server/Tests.antt =====
-- Runs of src/companion/auth.py and server.py, and the theorems at concrete requests.
use hactl_companion.Base.{
  ℕ, ◌≡◌, ◌⊎◌, refl, true, Option, none, some, arith, Text, codes, eq_text, mem_text, starts_with,
  split, split_step, strip,
}
use hactl_companion.Base.{suc}
use hactl_companion.Http.{HttpError, ok, err, uncaught, status}
use hactl_companion.Auth.{
  Request, Environment, trusted_ingress_ips, is_trusted_ingress, compare_digest, bearer_token_valid,
}
use hactl_companion.Server.{payload, Handler, admit, auth_middleware}
use hactl_companion.Server.Access.{
  IsAuthorised, holds_token, trusted, exempt, auth_middleware-refuses,
}

abbrev env : Environment
env = record { ingress_proxy_ips = none; supervisor_token = some (codes "s3") }

abbrev asks : Option Text → Option Text → Text → Request
asks ingress auth remote = record {
  path = codes "/v1/logs";
  ingress_path = ingress;
  authorization = auth;
  remote = some remote;
}

-- The handler counts its calls.
abbrev count : Handler ℕ
count request n = (ok (record { code = 200; body = payload (codes "{}") }), suc n)

abbrev stranger : Request
stranger = asks (some (codes "/")) (some (codes "Bearer s4")) (codes "172.30.32.3")

abbrev client : Request
client = asks none (some (codes "Bearer s3")) (codes "10.0.0.1")

ingress_trusted : is_trusted_ingress env (asks (some (codes "/")) none (codes "172.30.32.2")) ≡ true
unfolding is_trusted_ingress trusted_ingress_ips split split_step strip eq_text mem_text
ingress_trusted = refl

stranger_refused : ¬ IsAuthorised env stranger
unfolding is_trusted_ingress trusted_ingress_ips split split_step strip eq_text mem_text
stranger_refused (exempt h) = cc
stranger_refused (trusted h) = cc
stranger_refused (holds_token h) = ground (arith, h.1)

client-IsAuthorised : IsAuthorised env client
client-IsAuthorised = holds_token ((λ e. cc), refl, refl)

auth_middleware-refuses_example :
    (e : HttpError) × (auth_middleware env count stranger 0 ≡ (err e, 0))
    × ((status e ≡ 401) ⊎ ((status e ≡ 503) ⊎ (status e ≡ 500)))
auth_middleware-refuses_example = auth_middleware-refuses env count stranger 0 stranger_refused

-- A handler that fails.
abbrev crashing : Handler ℕ
crashing request n = (err (uncaught (codes "KeyError")), n)

-- A token that is not ASCII is refused with a 500, not with a 401.
abbrev foreign : Request
foreign = asks none (some (codes "Bearer é")) (codes "10.0.0.1")

foreign_token : (auth_middleware env count foreign 0).0 ≡ err (uncaught (codes "TypeError"))
unfolding auth_middleware is_trusted_ingress trusted_ingress_ips split split_step strip eq_text
    mem_text bearer_token_valid compare_digest starts_with admit
foreign_token = refl
