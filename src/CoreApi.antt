-- ===== src/CoreApi.antt =====
-- src/companion/core_api.py: the calls of Home Assistant's own API. What a request gives is a parameter:
-- an exception with its text, or a status with the body. Excerpts are cut as in the source.
pub mod Polling
mod Tests
use hactl_companion.Base.{
  ℕ, zero, suc, leb, Bool, true, false, not, ◌&&◌, Option, none, some, List, [], ◌∷◌, ◌++◌, Text,
  codes, eq_text, take, show_nat, if◌then◌else◌,
}

-- `ServiceResult`.
pub record ServiceResult : Type 0 where
  pub is_ok : Bool
  pub error : Option Text

-- The answer to a request: the class and the text of an exception, or a status and a body.
pub data Answered (A : Type 0) : Type 0 where
  client_error : Text → Text → Answered A
  responded : ℕ → Text → A → Answered A

unfoldable pub excerpt : Text → Text
excerpt text = take 200 text

unfoldable pub service_result : Answered Unit → ServiceResult
unfolding excerpt show_nat
service_result (client_error class text) = record {
  is_ok = false;
  error = some (class ++ (codes ": " ++ excerpt text));
}
service_result (responded status body _) =
    if leb 400 status
    then record {
      is_ok = false;
      error = some (codes "HTTP " ++ (show_nat status ++ (codes ": " ++ excerpt body)));
    }
    else record { is_ok = true; error = none }

-- `call_service`, for the text of SUPERVISOR_TOKEN; a call that is not made has no answer.
unfoldable pub call_service : Text → Answered Unit → ServiceResult
unfolding service_result
call_service [] answer = record { is_ok = false; error = some (codes "SUPERVISOR_TOKEN not set") }
call_service (c ∷ token) answer = service_result answer

-- The fields of a response: whether it reloaded, and the error where it did not.
unfoldable pub or_no_reason : Option Text → Text
or_no_reason none = codes "reload failed, no reason recorded"
or_no_reason (some []) = codes "reload failed, no reason recorded"
or_no_reason (some (c ∷ t)) = c ∷ t

unfoldable pub reload_fields : ServiceResult → Bool × Option Text
unfolding or_no_reason
reload_fields r = if r.is_ok then (true, none) else (false, some (or_no_reason r.error))

-- A state: its text, and whether its attributes say `restored`.
abbrev pub EntityState : Type 0
EntityState = Option Text × Bool

unfoldable pub answered_state : Answered EntityState → Option EntityState
answered_state (client_error class text) = none
answered_state (responded status body state) = if leb 400 status then none else some state

-- `get_state`.
unfoldable pub get_state : Text → Answered EntityState → Option EntityState
unfolding answered_state
get_state [] answer = none
get_state (c ∷ token) answer = answered_state answer

unfoldable pub is_unavailable : Option Text → Bool
is_unavailable none = false
is_unavailable (some state) = eq_text state (codes "unavailable")

unfoldable pub is_live_state : Option EntityState → Bool
unfolding is_unavailable
is_live_state none = false
is_live_state (some (state, restored)) = not (is_unavailable state && restored)

-- `poll_for_entity`: `attempts` rounds, of which the first does not wait. `answers` gives what the
-- request of each round is responded; the sleeps only let time pass between them. The number of requests
-- made comes with the result.
unfoldable pub poll_from : Text → (ℕ → Answered EntityState) → ℕ → ℕ → Bool × ℕ
unfolding is_live_state get_state
poll_from token answers round zero = (false, 0)
poll_from token answers round (suc attempts) =
    let rest = poll_from token answers (suc round) attempts in
    if is_live_state (get_state token (answers round)) then (true, 1) else (rest.0, suc rest.1)

unfoldable pub poll_for_entity : Text → (ℕ → Answered EntityState) → ℕ → Bool
unfolding poll_from
poll_for_entity token answers attempts = (poll_from token answers 0 attempts).0

-- The body of an answer to `check_config`: what `resp.json()` raises where it is not JSON, a document
-- that is no object, and an object, whose `result` and `errors` enter as texts. A content type that is
-- not JSON's is a `client_error`.
pub data CheckBody : Type 0 where
  not_json : Text → CheckBody
  not_an_object : CheckBody
  fields : Option Text → Option Text → CheckBody

-- `check_config`: the verdict with its errors, `CoreAPIUnavailableError` with its text, or another
-- exception, which it does not catch.
pub data ConfigCheck : Type 0 where
  core_unavailable : Text → ConfigCheck
  verdict : Bool → Text → ConfigCheck
  raised : Text → ConfigCheck

unfoldable pub errors_text : Option Text → Text
errors_text none = codes "unknown error"
errors_text (some errors) = errors

unfoldable pub check_result : CheckBody → ConfigCheck
unfolding errors_text
check_result (not_json message) = raised message
check_result not_an_object = raised (codes "AttributeError")
check_result (fields none errors) = verdict false (errors_text errors)
check_result (fields (some result) errors) =
    if eq_text result (codes "valid") then verdict true [] else verdict false (errors_text errors)

unfoldable pub checked_answer : Answered CheckBody → ConfigCheck
unfolding check_result show_nat
checked_answer (client_error class text) = core_unavailable text
checked_answer (responded status body result) =
    if leb 400 status
    then core_unavailable (codes "HTTP " ++ (show_nat status ++ (codes ": " ++ take 200 body)))
    else check_result result

unfoldable pub check_config : Text → Answered CheckBody → ConfigCheck
unfolding checked_answer
check_config [] answer = core_unavailable (codes "SUPERVISOR_TOKEN not set")
check_config (c ∷ token) answer = checked_answer answer
