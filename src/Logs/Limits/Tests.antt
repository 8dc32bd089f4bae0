-- ===== src/Logs/Limits/Tests.antt =====
-- A request for the last entry of half an hour (src/companion/routes/logs.py).
use hactl_companion.Base.{
  ℕ, ◌≤◌, ◌≡◌, refl, none, some, List, [], ◌∷◌, codes, length, strip, lstrip, rstrip, lower,
  is_space, is_blank,
}
use hactl_companion.Http.{ok}
use hactl_companion.Monitor.{digits}
use hactl_companion.LogBuffer.{LogEntry, filter_entries}
use hactl_companion.LogBuffer.Laws.{last_entries, wanted}
use hactl_companion.Logs.{
  parse_since, since_of, since_from, since_unit, parse_limit, limit_of, signed, LogsQuery, get_logs,
}
use hactl_companion.Logs.Limits.{get_logs-limit}

abbrev entry : ℕ → LogEntry
entry t = record { ts = t; level = codes "INFO"; name = codes "companion"; message = [] }

abbrev query : LogsQuery
query = record {
  component = none;
  level = none;
  since = some (codes "30m");
  limit = some (codes " 1 ");
}

half_an_hour : parse_since 5000 query.since ≡ ok (some 3200)
unfolding parse_since since_of since_from since_unit strip lstrip rstrip lower is_space is_blank
half_an_hour = refl

one : parse_limit query.limit ≡ ok (some 1)
unfolding parse_limit limit_of signed digits strip lstrip rstrip is_space is_blank
one = refl

get_logs-limit_example :
    (entries : List LogEntry) × (get_logs (λ t. none) 5000 (some (entry 1 ∷ entry 4000 ∷ [])) query
      ≡ ok entries)
    × (entries
        ≡ last_entries 1
            (filter_entries (wanted (λ t. none) none none (some 3200)) (entry 1 ∷ entry 4000 ∷ [])))
    × (length entries ≤ 1)
get_logs-limit_example =
    get_logs-limit (λ t. none) 5000 (entry 1 ∷ entry 4000 ∷ []) query (some 3200) 0 half_an_hour one
