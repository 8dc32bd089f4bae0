-- ===== src/RefScan/Walk.antt =====
-- The breadth-first walk over the include graph that `iter_config_trees` and `replace_yaml_literal` of
-- src/companion/refscan.py share, over what a visit of one file gives.
pub mod Terminates
pub mod Tracking
pub mod Complete
pub mod Found
use hactl_companion.Base.{
  ℕ, zero, suc, ◌+◌, ◌*◌, max, length, Bool, true, false, not, ◌||◌, Option, none, some, List, [],
  ◌∷◌, ◌++◌, ◌&&◌, Text, codes, eq_text, any, if◌then◌else◌,
}
use hactl_companion.Http.{HttpError}
use hactl_companion.PathGuard.{FilePath}
use hactl_companion.Files.{eq_path}
use hactl_companion.Yaml.{Value}

-- Why a file was not read: the `SKIP_*` values.
pub data SkipReason : Type 0 where
  missing unreadable unparseable circular : SkipReason

abbrev pub reason_text : SkipReason → Text
reason_text missing = codes "missing"
reason_text unreadable = codes "unreadable"
reason_text unparseable = codes "unparseable"
reason_text circular = codes "circular"

-- A `SkippedFile`: its location, and the reason.
abbrev pub SkippedFile : Type 0
SkippedFile = Text × Text

unfoldable pub eq_skipped : SkippedFile → SkippedFile → Bool
unfolding eq_text
eq_skipped (a, r) (b, s) = eq_text a b && eq_text r s

unfoldable pub mem_skipped : SkippedFile → List SkippedFile → Bool
unfolding eq_skipped
mem_skipped s log = any (eq_skipped s) log

abbrev pub seen_in : FilePath → List FilePath → Bool
seen_in p seen = any (eq_path p) seen

-- What becomes of a file that is there: not worth parsing, not read, an exception that ends the walk,
-- or its tree with the names that it includes and the includes that cannot be followed.
pub data Visit : Type 0 where
  passed_over : Visit
  unread : SkipReason → Visit
  crashed : HttpError → Visit
  read_tree : Value → List Text → List SkippedFile → Visit

-- The deque, the set `seen`, the records of the log, and what was yielded, oldest first.
pub record WalkState : Type 0 where
  pub queue : List Text
  pub seen : List FilePath
  pub skipped : List SkippedFile
  pub found : List (FilePath × Value)

pub data WalkEnd : Type 0 where
  done : WalkState → WalkEnd
  raised : HttpError → WalkEnd
  out_of_fuel : WalkEnd

-- A relative name resolved, whether there is such a file, its location in reports, and its visit.
pub record ConfigGraph : Type 0 where
  pub resolve : Text → FilePath
  pub is_file : FilePath → Bool
  pub location : FilePath → Text
  pub visit : FilePath → Visit

module _ (g : ConfigGraph) where
  -- A file that is there and was not seen before.
  unfoldable pub visited : FilePath → List Text → WalkState → Visit → WalkEnd
  visited p rest s passed_over = done (record s { queue = rest; seen = p ∷ s.seen })
  visited p rest s (unread reason) = done (record s {
    queue = rest;
    seen = p ∷ s.seen;
    skipped = s.skipped ++ (g.location p, reason_text reason) ∷ [];
  })
  visited p rest s (crashed e) = raised e
  visited p rest s (read_tree tree names lost) = done (record {
    queue = rest ++ names;
    seen = p ∷ s.seen;
    skipped = s.skipped ++ lost;
    found = s.found ++ (p, tree) ∷ [];
  })

  -- One round of the loop, for the name that leaves the queue.
  unfoldable pub walk_round : Text → List Text → WalkState → WalkEnd
  unfolding visited
  walk_round rel rest s =
      let p = g.resolve rel in
      if seen_in p s.seen
      then done (record s { queue = rest })
      else if not (g.is_file p)
      then done (record s {
        queue = rest;
        skipped = s.skipped ++ (g.location p, reason_text missing) ∷ [];
      })
      else visited p rest s (g.visit p)

  unfoldable pub next_state : (WalkState → WalkEnd) → WalkEnd → WalkEnd
  next_state rest (done s) = rest s
  next_state rest (raised e) = raised e
  next_state rest out_of_fuel = out_of_fuel

  unfoldable pub walk_loop : ℕ → List Text → WalkState → WalkEnd
  unfolding walk_round next_state
  walk_loop fuel [] s = done s
  walk_loop zero (rel ∷ rest) s = out_of_fuel
  walk_loop (suc fuel) (rel ∷ rest) s =
      next_state (λ s'. walk_loop fuel s'.queue s') (walk_round rel rest s)

  abbrev pub start_at : Text → WalkState
  start_at entry = record { queue = entry ∷ []; seen = []; skipped = []; found = [] }

  unfoldable pub walk : ℕ → Text → WalkEnd
  unfolding walk_loop
  walk fuel entry = walk_loop fuel (entry ∷ []) (start_at entry)

unfoldable pub included_by : Visit → ℕ
included_by (read_tree tree names lost) = length names
included_by v = 0

-- The most includes that one of the files has.
unfoldable pub most_included : ConfigGraph → List FilePath → ℕ
unfolding included_by
most_included g [] = 0
most_included g (p ∷ files) = max (included_by (g.visit p)) (most_included g files)

-- The walk with its number of rounds, for all the files that there are.
unfoldable pub walk_config : ConfigGraph → List FilePath → Text → WalkEnd
unfolding walk most_included
walk_config g files entry = walk g (1 + length files * most_included g files) entry
