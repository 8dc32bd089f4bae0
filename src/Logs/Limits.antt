-- ===== src/Logs/Limits.antt =====
-- The entries that GET /v1/logs answers (src/companion/routes/logs.py).
mod Tests
use hactl_companion.Base.{ℕ, suc, ◌≤◌, ◌≡◌, ◌∙◌, refl, ap, Option, none, some, List, Text, length}
use hactl_companion.Http.{Result, ok, err, ◌>>=◌}
use hactl_companion.LogBuffer.{LogEntry, filter_entries, snapshot}
use hactl_companion.LogBuffer.Laws.{last_entries, wanted, snapshot-limit}
use hactl_companion.Logs.{parse_since, parse_limit, LogsQuery, entries_of, get_logs}

-- A request with valid times and a positive limit is answered with the newest entries that meet all its
-- filters, oldest first, and with no more of them than the limit.
pub get_logs-limit :
    (level_of : Text → Option ℕ) (now : ℕ) (buf : List LogEntry) (q : LogsQuery) (since : Option ℕ)
    (n : ℕ)
    → parse_since now q.since ≡ ok since
    → parse_limit q.limit ≡ ok (some (suc n))
    → (entries : List LogEntry) × (get_logs level_of now (some buf) q ≡ ok entries)
      × (entries
          ≡ last_entries (suc n) (filter_entries (wanted level_of q.component q.level since) buf))
      × (length entries ≤ suc n)
unfolding get_logs entries_of
get_logs-limit level_of now buf q since n e h =
    let (newest, bounded) = snapshot-limit level_of buf q.component q.level since n in
    (
      snapshot level_of buf q.component q.level since (some (suc n)),
      rw (get_logs, e, h) refl,
      newest,
      bounded,
    )
