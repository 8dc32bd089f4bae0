-- ===== src/LogBuffer/Tests.antt =====
-- Runs of src/companion/logbuffer.py, and the theorems at concrete records.
use hactl_companion.Base.{
  ℕ, ◌≡◌, refl, Option, some, List, [], ◌∷◌, Text, codes, eq_text, starts_with, lower,
}
use hactl_companion.LogBuffer.{
  LogEntry, LogRecord, entry_of, emit_all, component_prefixes, in_component, filter_entries,
  by_component, by_since, by_limit, level_value, at_least, by_level, snapshot,
}
use hactl_companion.LogBuffer.Laws.{emit_all-last_entries}

abbrev record_at : ℕ → Text → LogRecord
record_at t message = record {
  created = t;
  levelname = codes "INFO";
  name = codes "companion.wg_monitor";
  formatted = some message;
  raw_message = [];
}

abbrev entry_at : ℕ → Text → LogEntry
entry_at t m = record {
  ts = t;
  level = codes "INFO";
  name = codes "companion.wg_monitor";
  message = m;
}

abbrev three : List LogRecord
three = record_at 1 (codes "a") ∷ record_at 2 (codes "b") ∷ record_at 3 (codes "c") ∷ []

abbrev entries : List LogEntry
entries = entry_at 1 (codes "a") ∷ entry_at 2 (codes "b") ∷ entry_at 3 (codes "c") ∷ []

abbrev level_of : Text → Option ℕ
level_of t = some 20

emit_all-last_entries_example :
    emit_all 2 three [] ≡ entry_at 2 (codes "b") ∷ entry_at 3 (codes "c") ∷ []
unfolding entry_of
emit_all-last_entries_example = emit_all-last_entries 2 three

runs :
    snapshot level_of entries (some (codes "Wireguard")) (some (codes "info")) (some 2) (some 1)
    ≡ entry_at 3 (codes "c") ∷ []
unfolding snapshot by_component in_component component_prefixes filter_entries by_level at_least
    level_value by_since by_limit eq_text starts_with lower
runs = refl
