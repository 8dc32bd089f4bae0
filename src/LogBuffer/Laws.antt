-- ===== src/LogBuffer/Laws.antt =====
-- What the log buffer keeps and what a query returns (src/companion/logbuffer.py).
use mathlib.Core.List.{append-nil, append_assoc}
use hactl_companion.Base.{
  ℕ, zero, suc, ◌-◌, ◌≤◌, ◌≡◌, ◌∙◌, refl, sym, ap, Bool, true, Option, none, some, List, [], ◌∷◌,
  ◌++◌, ◌&&◌, arith, Text, length, drop, map, leb, length-append, length-drop, drop-drop,
}
use hactl_companion.Base.{drop_all}
use hactl_companion.LogBuffer.{
  LogEntry, LogRecord, append_bounded, entry_of, emit, emit_all, in_component, filter_entries,
  by_component, by_since, by_limit, level_value, at_least, by_level, snapshot,
}

drop-append_le {ℓ} :
    {A : Type ℓ} (n : ℕ) (xs ys : List A) → n ≤ length xs → drop n (xs ++ ys) ≡ drop n xs ++ ys
drop-append_le zero xs ys h = refl
drop-append_le (suc n) [] ys h = absurd (omega arith)
drop-append_le (suc n) (x ∷ xs) ys h = drop-append_le n xs ys (omega arith)

-- The last `n` entries.
abbrev pub last_entries : ℕ → List LogEntry → List LogEntry
last_entries n es = drop (length es - n) es

append_bounded-last :
    (capacity : ℕ) (e : LogEntry) (es : List LogEntry)
    → append_bounded capacity e (last_entries capacity es) ≡ last_entries capacity (es ++ e ∷ [])
unfolding append_bounded
append_bounded-last capacity e es =
    let k = length es - capacity in
    let m = length (drop k es ++ e ∷ []) - capacity in
    ap (λ l. drop m l) (sym (drop-append_le k es (e ∷ []) (omega arith)))
    ∙ drop-drop m k (length (es ++ e ∷ []) - capacity) (es ++ e ∷ []) (
        omega
          (arith, length-append (drop k es) (e ∷ []), length-drop k es, length-append es (e ∷ [])))

emit_all-last :
    (capacity : ℕ) (rs : List LogRecord) (es : List LogEntry)
    → emit_all capacity rs (last_entries capacity es)
      ≡ last_entries capacity (es ++ map entry_of rs)
unfolding emit_all emit
emit_all-last capacity [] es = rw append-nil
emit_all-last capacity (r ∷ rs) es =
    ap (λ b. emit_all capacity rs b) (append_bounded-last capacity (entry_of r) es)
    ∙ (emit_all-last capacity rs (es ++ entry_of r ∷ []) ∙ rw append_assoc)

-- After any records the buffer holds the entries of the newest of them, as many as its capacity, in
-- the order in which they came.
pub emit_all-last_entries :
    (capacity : ℕ) (rs : List LogRecord)
    → emit_all capacity rs [] ≡ last_entries capacity (map entry_of rs)
emit_all-last_entries capacity rs =
    ap (λ b. emit_all capacity rs b) (sym (drop_all (0 - capacity) [] (omega arith)))
    ∙ emit_all-last capacity rs []

-- One test for each filter that is given.
abbrev pub wants_component : Option Text → LogEntry → Bool
wants_component none e = true
wants_component (some []) e = true
wants_component (some (c ∷ cs)) e = in_component (c ∷ cs) e

abbrev pub wants_since : Option ℕ → LogEntry → Bool
wants_since none e = true
wants_since (some since) e = leb since e.ts

filter-filter :
    (p q : LogEntry → Bool) (es : List LogEntry)
    → filter_entries p (filter_entries q es) ≡ filter_entries (λ e. q e && p e) es
unfolding filter_entries
filter-filter p q [] = refl
filter-filter p q (e ∷ es) = ground (arith, filter-filter p q es)

filter_true : (es : List LogEntry) → filter_entries (λ e. true) es ≡ es
unfolding filter_entries
filter_true [] = refl
filter_true (e ∷ es) = ap (λ l. e ∷ l) (filter_true es)

by_component-filter :
    (c : Option Text) (es : List LogEntry)
    → by_component c es ≡ filter_entries (wants_component c) es
unfolding by_component
by_component-filter none es = sym (filter_true es)
by_component-filter (some []) es = sym (filter_true es)
by_component-filter (some (c ∷ cs)) es = refl

by_since-filter :
    (c : Option ℕ) (es : List LogEntry) → by_since c es ≡ filter_entries (wants_since c) es
unfolding by_since
by_since-filter none es = sym (filter_true es)
by_since-filter (some since) es = refl

module _ (level_of : Text → Option ℕ) where
  abbrev pub wants_at_least : Option ℕ → LogEntry → Bool
  wants_at_least none e = true
  wants_at_least (some threshold) e = leb threshold (level_value level_of e.level)

  abbrev pub wants_level : Option Text → LogEntry → Bool
  wants_level none e = true
  wants_level (some []) e = true
  wants_level (some (c ∷ cs)) e = wants_at_least (level_of (c ∷ cs)) e

  at_least-filter :
      (c : Option ℕ) (es : List LogEntry)
      → at_least level_of c es ≡ filter_entries (wants_at_least c) es
  unfolding at_least
  at_least-filter none es = sym (filter_true es)
  at_least-filter (some threshold) es = refl

  by_level-filter :
      (c : Option Text) (es : List LogEntry)
      → by_level level_of c es ≡ filter_entries (wants_level c) es
  unfolding by_level
  by_level-filter none es = sym (filter_true es)
  by_level-filter (some []) es = sym (filter_true es)
  by_level-filter (some (c ∷ cs)) es = at_least-filter (level_of (c ∷ cs)) es

  -- What a query asks of an entry: the component, the minimum level if its name is one, and the cutoff.
  abbrev pub wanted : Option Text → Option Text → Option ℕ → LogEntry → Bool
  wanted component level since e =
      (wants_component component e && wants_level level e) && wants_since since e

  -- A query without a limit returns exactly the entries that meet all of its filters, oldest first.
  pub snapshot-filter :
      (buf : List LogEntry) (component level : Option Text) (since : Option ℕ)
      → snapshot level_of buf component level since none
        ≡ filter_entries (wanted component level since) buf
  unfolding snapshot by_limit
  snapshot-filter buf component level since =
      by_since-filter since _
      ∙ rw (by_component-filter component buf, by_level-filter level)
          (rw (filter-filter (wants_level level) (wants_component component) buf)
            (filter-filter _ _ buf))

  -- A positive limit returns the newest of the entries that meet the filters, at most as many as the
  -- limit, still oldest first.
  pub snapshot-limit :
      (buf : List LogEntry) (component level : Option Text) (since : Option ℕ) (n : ℕ)
      → (snapshot level_of buf component level since (some (suc n))
          ≡ last_entries (suc n) (filter_entries (wanted component level since) buf))
        × (length (snapshot level_of buf component level since (some (suc n))) ≤ suc n)
  unfolding snapshot by_limit
  snapshot-limit buf component level since n =
      let found = filter_entries (wanted component level since) buf in
      let newest : snapshot level_of buf component level since (some (suc n))
          ≡ last_entries (suc n) found =
        ap (λ es. last_entries (suc n) es) (snapshot-filter buf component level since) in
      (newest, rw newest (omega (arith, length-drop (length found - suc n) found)))

  -- A limit of 0 is no limit: the query returns all the entries that it returns without one.
  pub snapshot-limit_zero :
      (buf : List LogEntry) (component level : Option Text) (since : Option ℕ)
      → snapshot level_of buf component level since (some 0)
        ≡ snapshot level_of buf component level since none
  unfolding snapshot by_limit
  snapshot-limit_zero buf component level since = refl
