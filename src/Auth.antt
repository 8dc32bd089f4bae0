-- ===== src/Auth.antt =====
-- src/companion/auth.py: who is trusted without a token, and the check of a token.
use hactl_companion.Base.{
  Bool, false, Option, none, some, List, [], ◌∷◌, not, ◌||◌, Text, codes, eq_text, mem_text,
  starts_with, split, strip, all, drop, length, ltb, if◌then◌else◌,
}
use hactl_companion.Http.{uncaught, Result, ok, err}

-- What the code reads of a request: its path, the `X-Ingress-Path` and `Authorization` headers, and
-- the peer's address.
pub record Request : Type 0 where
  pub path : Text
  pub ingress_path : Option Text
  pub authorization : Option Text
  pub remote : Option Text

-- The environment variables `INGRESS_PROXY_IPS` and `SUPERVISOR_TOKEN`.
pub record Environment : Type 0 where
  pub ingress_proxy_ips : Option Text
  pub supervisor_token : Option Text

abbrev pub default_ingress_proxy_ips : Text
default_ingress_proxy_ips = codes "172.30.32.2"

-- `d.get(key, default)`.
abbrev pub get_or : Option Text → Text → Text
get_or none default = default
get_or (some t) default = t

nonempty_stripped : List Text → List Text
unfolding strip
nonempty_stripped [] = []
nonempty_stripped (ip ∷ ips) =
    let rest = nonempty_stripped ips in
    let stripped = strip ip in if eq_text stripped [] then rest else stripped ∷ rest

unfoldable pub trusted_ingress_ips : Environment → List Text
unfolding nonempty_stripped split eq_text
trusted_ingress_ips env =
    nonempty_stripped (split 44 (get_or env.ingress_proxy_ips default_ingress_proxy_ips))

-- `request.remote in ips`.
remote_in : Option Text → List Text → Bool
unfolding mem_text
remote_in none ips = false
remote_in (some ip) ips = mem_text ip ips

unfoldable pub is_trusted_ingress : Environment → Request → Bool
unfolding remote_in
is_trusted_ingress env request = elim request.ingress_path [
  | none ↦ false
  | some _ ↦ remote_in request.remote (trusted_ingress_ips env)
]

abbrev pub bearer : Text
bearer = codes "Bearer "

abbrev pub is_ascii : Text → Bool
is_ascii t = all (λ c. ltb c 128) t

-- `hmac.compare_digest` of two texts: it raises a TypeError unless both are ASCII.
unfoldable pub compare_digest : Text → Text → Result Bool
compare_digest a b =
    if not (is_ascii a) || not (is_ascii b)
    then err (uncaught (codes "TypeError"))
    else ok (eq_text a b)

unfoldable pub bearer_token_valid : Text → Text → Result Bool
bearer_token_valid auth_header expected_token =
    if eq_text expected_token [] || not (starts_with auth_header bearer)
    then ok false
    else compare_digest (drop (length bearer) auth_header) expected_token
