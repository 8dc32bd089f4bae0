-- ===== src/Logs.antt =====
-- GET /v1/logs (src/companion/routes/logs.py). Times are whole seconds; a time before the beginning of
-- the count is as early as 0. Digits and letters
-- are ASCII.
pub mod Limits
use hactl_companion.Base.{
  ℕ, zero, suc, ◌+◌, ◌-◌, ◌*◌, ◌^◌, ◌==◌, leb, Bool, true, false, not, ◌&&◌, Option, none, some,
  List, [], ◌∷◌, Text, codes, strip, lstrip, lower, if◌then◌else◌,
}
use hactl_companion.Http.{HttpError, bad_request, uncaught, Result, ok, err, ◌>>=◌}
use hactl_companion.Monitor.{digits}
use hactl_companion.LogBuffer.{LogEntry, snapshot}

-- `_SINCE_UNITS`, for a letter in lower case.
unfoldable pub since_unit : Text → Option ℕ
since_unit (c ∷ []) =
    if c == 115
    then some 1
    else if c == 109
    then some 60
    else if c == 104
    then some 3600
    else if c == 100
    then some 86400
    else none
since_unit _ = none

-- The rest of `_SINCE_RE` after `n`: more digits, white space, and one of the letters.
unfoldable pub since_from : Bool → ℕ → Text → Option ℕ
unfolding since_unit
since_from read n [] = none
since_from read n (c ∷ s) =
    let more = since_from true (n * 10 + (c - 48)) s in
    let unit : Option ℕ = elim (since_unit (lower (lstrip (c ∷ s)))) [
      | none ↦ none
      | some u ↦ some (n * u)
    ] in
    if leb 48 c && leb c 57 then more else if read then unit else none

-- The least integer that no float holds, not even rounded; a number of seconds so large raises an
-- exception as it is subtracted from the time, where `int` has not refused its digits before.
abbrev pub least_overflow : ℕ
least_overflow = 2 ^ 1024 - 2 ^ 970

unfoldable pub since_of : ℕ → Option ℕ → Result (Option ℕ)
since_of now none = err (bad_request (codes "Invalid 'since': use forms like 30m, 24h, 7d"))
since_of now (some age) =
    if leb least_overflow age then err (uncaught (codes "OverflowError")) else ok (some (now - age))

unfoldable pub parse_since : ℕ → Option Text → Result (Option ℕ)
unfolding since_of since_from
parse_since now none = ok none
parse_since now (some []) = ok none
parse_since now (some (c ∷ s)) = since_of now (since_from false 0 (strip (c ∷ s)))

-- `int(value)`: whether it is negative, and its absolute value.
unfoldable pub signed : Text → Option (Bool × ℕ)
signed [] = none
signed (c ∷ s) =
    let minus : Option (Bool × ℕ) = elim (digits false 0 s) [
      | none ↦ none
      | some n ↦ some (true, n)
    ] in
    let plus : Option (Bool × ℕ) = elim (digits false 0 s) [
      | none ↦ none
      | some n ↦ some (false, n)
    ] in
    let plain : Option (Bool × ℕ) = elim (digits false 0 (c ∷ s)) [
      | none ↦ none
      | some n ↦ some (false, n)
    ] in
    if c == 45 then minus else if c == 43 then plus else plain

unfoldable pub limit_of : Option (Bool × ℕ) → Result (Option ℕ)
limit_of none = err (bad_request (codes "Invalid 'limit': must be an integer"))
limit_of (some (true, zero)) = ok (some 0)
limit_of (some (true, suc n)) = err (bad_request (codes "Invalid 'limit': must be >= 0"))
limit_of (some (false, n)) = ok (some n)

unfoldable pub parse_limit : Option Text → Result (Option ℕ)
unfolding limit_of signed
parse_limit none = ok none
parse_limit (some value) = limit_of (signed (strip value))

-- The parameters of a request.
pub record LogsQuery : Type 0 where
  pub component : Option Text
  pub level : Option Text
  pub since : Option Text
  pub limit : Option Text

-- The entries of the handler's buffer, `none` where no handler is installed.
unfoldable pub entries_of :
    (Text → Option ℕ) → Option (List LogEntry) → LogsQuery → Option ℕ → Option ℕ → List LogEntry
entries_of level_of none q since limit = []
entries_of level_of (some buf) q since limit = snapshot level_of buf q.component q.level since limit

unfoldable pub get_logs :
    (Text → Option ℕ) → ℕ → Option (List LogEntry) → LogsQuery → Result (List LogEntry)
unfolding entries_of parse_since parse_limit
get_logs level_of now handler q = parse_since now q.since >>= λ since.
    parse_limit q.limit >>= λ limit. ok (entries_of level_of handler q since limit)
