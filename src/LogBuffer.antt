-- ===== src/LogBuffer.antt =====
-- src/companion/logbuffer.py: the last log records in a bounded buffer, and the query over them. Times
-- are counted in a fixed fraction of a second. `logging.getLevelName` of an upper-cased name is the
-- parameter `level_of`; `none` is its answer that is no number.
pub mod Laws
mod Tests
use hactl_companion.Base.{
  ℕ, zero, suc, ◌-◌, Bool, true, false, Option, none, some, List, [], ◌∷◌, ◌++◌, Text, codes,
  eq_text, starts_with, contains_text, lower, any, length, drop, leb, if◌then◌else◌,
}

pub record LogEntry : Type 0 where
  pub ts : ℕ
  pub level : Text
  pub name : Text
  pub message : Text

-- A `logging.LogRecord`: `formatted` is what `getMessage` returns, or `none` where it raises, and
-- `raw_message` is the text that is kept then.
pub record LogRecord : Type 0 where
  pub created : ℕ
  pub levelname : Text
  pub name : Text
  pub formatted : Option Text
  pub raw_message : Text

abbrev pub default_capacity : ℕ
default_capacity = 500

-- `deque(maxlen=capacity)`: an append at the right drops from the left.
pub append_bounded : ℕ → LogEntry → List LogEntry → List LogEntry
append_bounded capacity e buf = let longer = buf ++ e ∷ [] in drop (length longer - capacity) longer

pub entry_of : LogRecord → LogEntry
entry_of r = record {
  ts = r.created;
  level = r.levelname;
  name = r.name;
  message = elim r.formatted [ none ↦ r.raw_message | some m ↦ m ];
}

pub emit : ℕ → LogRecord → List LogEntry → List LogEntry
emit capacity r buf = append_bounded capacity (entry_of r) buf

-- The buffer after some records, oldest first.
pub emit_all : ℕ → List LogRecord → List LogEntry → List LogEntry
emit_all capacity [] buf = buf
emit_all capacity (r ∷ rs) buf = emit_all capacity rs (emit capacity r buf)

-- `_COMPONENT_ALIASES.get(component.lower())`.
component_prefixes : Text → List Text
unfolding eq_text
component_prefixes c =
    if eq_text c (codes "wireguard")
    then codes "companion.wg" ∷ codes "companion.routes.wireguard" ∷ []
    else if eq_text c (codes "wg")
    then codes "companion.wg" ∷ codes "companion.routes.wireguard" ∷ []
    else if eq_text c (codes "access")
    then codes "companion.access" ∷ []
    else []

pub in_component : Text → LogEntry → Bool
unfolding component_prefixes lower starts_with contains_text
in_component component e = elim (component_prefixes (lower component)) [
  | [] ↦ contains_text (lower component) (lower e.name)
  | p ∷ ps ↦ any (starts_with e.name) (p ∷ ps)
]

pub filter_entries : (LogEntry → Bool) → List LogEntry → List LogEntry
filter_entries p [] = []
filter_entries p (e ∷ es) = let rest = filter_entries p es in if p e then e ∷ rest else rest

by_component : Option Text → List LogEntry → List LogEntry
by_component none es = es
by_component (some []) es = es
by_component (some (c ∷ cs)) es = filter_entries (in_component (c ∷ cs)) es

by_since : Option ℕ → List LogEntry → List LogEntry
by_since none es = es
by_since (some since) es = filter_entries (λ e. leb since e.ts) es

-- `entries[-limit:]`: `-0` is `0`, so a limit of 0 keeps everything.
by_limit : Option ℕ → List LogEntry → List LogEntry
by_limit none es = es
by_limit (some zero) es = es
by_limit (some (suc n)) es = drop (length es - suc n) es

module _ (level_of : Text → Option ℕ) where
  pub level_value : Text → ℕ
  level_value name = elim (level_of name) [ none ↦ 0 | some n ↦ n ]

  at_least : Option ℕ → List LogEntry → List LogEntry
  at_least none es = es
  at_least (some threshold) es = filter_entries (λ e. leb threshold (level_value e.level)) es

  by_level : Option Text → List LogEntry → List LogEntry
  by_level none es = es
  by_level (some []) es = es
  by_level (some (c ∷ cs)) es = at_least (level_of (c ∷ cs)) es

  pub snapshot : List LogEntry → Option Text → Option Text → Option ℕ → Option ℕ → List LogEntry
  snapshot buf component level since limit =
      by_limit limit (by_since since (by_level level (by_component component buf)))

-- `install` keeps the handler that is there; a handler is its capacity and its buffer.
install : ℕ → Option (ℕ × List LogEntry) → Option (ℕ × List LogEntry)
install capacity none = some (capacity, [])
install capacity (some handler) = some handler
