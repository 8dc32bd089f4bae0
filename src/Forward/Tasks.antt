-- ===== src/Forward/Tasks.antt =====
-- The list of the tasks of a forward (src/companion/ha_forward.py): how many are open, and who closes
-- which writer.
use hactl_companion.Base.{
  ℕ, zero, suc, ◌+◌, ◌≡◌, ◌∙◌, refl, sym, ap, ◌==◌, Bool, true, false, not, ◌&&◌, ◌||◌, some, List,
  [], ◌∷◌, ◌++◌, arith, any, Bool-cases, inl, inr,
}
use hactl_companion.Forward.{
  Handler, connecting, piping, closing, Session, discard, writers_of, handler_at, remove_handler,
  set_handler,
}

abbrev pub mem_writer : ℕ → List ℕ → Bool
mem_writer w writers = any (λ v. v == w) writers

-- Whether a task will close the writer.
abbrev pub is_owned : List Handler → ℕ → Bool
is_owned handlers w = any (λ h. mem_writer w (writers_of h)) handlers

-- The tasks that are not in their `finally` block.
unfoldable pub count_open : List Handler → ℕ
count_open [] = 0
count_open (connecting client ∷ hs) = suc (count_open hs)
count_open (piping client upstream ∷ hs) = suc (count_open hs)
count_open (closing writers ∷ hs) = count_open hs

-- A writer that is held is one that a task will close, or one that was cut off.
abbrev pub is_accounted : Session → ℕ → Bool
is_accounted s w = is_owned s.handlers w || mem_writer w s.cut_off

pub mem-discard :
    (w v : ℕ) (writers : List ℕ)
    → mem_writer w (discard v writers) ≡ (mem_writer w writers && not (v == w))
unfolding discard
mem-discard w v [] = refl
mem-discard w v (u ∷ writers) = ground (arith, mem-discard w v writers)

pub count_open-append :
    (hs : List Handler) (client : ℕ)
    → count_open (hs ++ connecting client ∷ []) ≡ suc (count_open hs)
unfolding count_open
count_open-append [] client = refl
count_open-append (connecting c ∷ hs) client = ap suc (count_open-append hs client)
count_open-append (piping c u ∷ hs) client = ap suc (count_open-append hs client)
count_open-append (closing ws ∷ hs) client = count_open-append hs client

pub count_open-remove_handler :
    (i : ℕ) (hs : List Handler) (writers : List ℕ)
    → handler_at i hs ≡ some (closing writers)
    → count_open (remove_handler i hs) ≡ count_open hs
unfolding handler_at remove_handler count_open
count_open-remove_handler i [] ws e = absurd (cc e)
count_open-remove_handler zero (connecting c ∷ hs) ws e = absurd (cc e)
count_open-remove_handler zero (piping c u ∷ hs) ws e = absurd (cc e)
count_open-remove_handler zero (closing vs ∷ hs) ws e = refl
count_open-remove_handler (suc i) (connecting c ∷ hs) ws e =
    ap suc (count_open-remove_handler i hs ws e)
count_open-remove_handler (suc i) (piping c u ∷ hs) ws e =
    ap suc (count_open-remove_handler i hs ws e)
count_open-remove_handler (suc i) (closing vs ∷ hs) ws e = count_open-remove_handler i hs ws e

pub count_open-first :
    (g : Handler) (gs : List Handler) → count_open (g ∷ gs) ≡ count_open (g ∷ []) + count_open gs
unfolding count_open
count_open-first (connecting c) gs = omega arith
count_open-first (piping c u) gs = omega arith
count_open-first (closing ws) gs = omega arith

-- A task that takes the place of another keeps the number, but for the one or the other that is open.
pub count_open-set_handler :
    (i : ℕ) (old new : Handler) (hs : List Handler)
    → handler_at i hs ≡ some old
    → count_open (set_handler i new hs) + count_open (old ∷ [])
      ≡ count_open hs + count_open (new ∷ [])
unfolding handler_at set_handler
count_open-set_handler i old new [] e = absurd (cc e)
count_open-set_handler zero old new (h ∷ hs) e =
    let same : h ≡ old = cc e in
    rw (sym same) (omega (arith, count_open-first h hs, count_open-first new hs))
count_open-set_handler (suc i) old new (h ∷ hs) e = omega (
  arith,
  count_open-first h hs,
  count_open-first h (set_handler i new hs),
  count_open-set_handler i old new hs e,
)

pub is_owned-remove_handler :
    (i w : ℕ) (hs : List Handler) (h : Handler)
    → handler_at i hs ≡ some h
    → mem_writer w (writers_of h) ≡ false
    → is_owned hs w ≡ true
    → is_owned (remove_handler i hs) w ≡ true
unfolding handler_at remove_handler
is_owned-remove_handler i w [] h e n o = absurd (cc e)
is_owned-remove_handler zero w (g ∷ hs) h e n o =
    let same : g ≡ h = cc e in ground (arith, o, n, ap (λ x. mem_writer w (writers_of x)) same)
is_owned-remove_handler (suc i) w (g ∷ hs) h e n o =
    elim (Bool-cases (mem_writer w (writers_of g))) [
      | inl here ↦ ground (arith, here)
      | inr there ↦
          ground (arith, there, is_owned-remove_handler i w hs h e n (ground (arith, o, there)))
    ]

-- A writer keeps its owner, if the new task has it where the old one had it.
pub is_owned-set_handler :
    (i w : ℕ) (old new : Handler) (hs : List Handler)
    → handler_at i hs ≡ some old
    → (mem_writer w (writers_of old) ≡ true → mem_writer w (writers_of new) ≡ true)
    → is_owned hs w ≡ true
    → is_owned (set_handler i new hs) w ≡ true
unfolding handler_at set_handler
is_owned-set_handler i w old new [] e keeps o = absurd (cc e)
is_owned-set_handler zero w old new (g ∷ hs) e keeps o =
    let same : g ≡ old = cc e in
    elim (Bool-cases (mem_writer w (writers_of g))) [
      | inl here ↦ ground (arith, keeps (ap (λ x. mem_writer w (writers_of x)) (sym same) ∙ here))
      | inr there ↦ ground (arith, o, there)
    ]
is_owned-set_handler (suc i) w old new (g ∷ hs) e keeps o =
    elim (Bool-cases (mem_writer w (writers_of g))) [
      | inl here ↦ ground (arith, here)
      | inr there ↦
          ground
            (arith, there, is_owned-set_handler i w old new hs e keeps (ground (arith, o, there)))
    ]

pub is_owned-at :
    (i w : ℕ) (new old : Handler) (hs : List Handler)
    → handler_at i hs ≡ some old
    → mem_writer w (writers_of new) ≡ true
    → is_owned (set_handler i new hs) w ≡ true
unfolding handler_at set_handler
is_owned-at i w new old [] e m = absurd (cc e)
is_owned-at zero w new old (g ∷ hs) e m = ground (arith, m)
is_owned-at (suc i) w new old (g ∷ hs) e m = ground (arith, is_owned-at i w new old hs e m)

pub closing_member :
    (v : ℕ) (ws : List ℕ) → mem_writer v (writers_of (closing ws)) ≡ mem_writer v ws
unfolding writers_of
closing_member v ws = refl

-- A task that closes its first writer keeps the others.
pub rest_kept :
    (v w : ℕ) (ws : List ℕ) (old : Handler)
    → writers_of old ≡ w ∷ ws
    → (w == v) ≡ false
    → mem_writer v (writers_of old) ≡ true
    → mem_writer v (writers_of (closing ws)) ≡ true
rest_kept v w ws old own other mine =
    closing_member v ws ∙ ground (arith, other, mine, ap (λ l. mem_writer v l) own)
