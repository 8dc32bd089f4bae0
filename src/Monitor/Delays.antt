-- ===== src/Monitor/Delays.antt =====
-- The waits between two attempts of `_reconnect_loop` of src/companion/wg_monitor.py.
use hactl_companion.Base.{
  ℕ, zero, suc, ◌≤◌, ◌≡◌, refl, Bool, true, List, [], ◌∷◌, ◌&&◌, arith, all, leb, length,
}
use hactl_companion.Monitor.{chain_repeat, backoff, delay}

abbrev rising : List ℕ → ℕ → Bool
rising [] last = true
rising (d ∷ []) last = leb d last
rising (d ∷ e ∷ ds) last = leb d e && rising (e ∷ ds) last

chain_repeat-rising :
    (ds : List ℕ) (last i : ℕ)
    → rising ds last ≡ true
    → chain_repeat ds last i ≤ chain_repeat ds last (suc i)
unfolding chain_repeat
chain_repeat-rising [] last i h = omega arith
chain_repeat-rising (d ∷ []) last zero h = ground (arith, h)
chain_repeat-rising (d ∷ e ∷ ds) last zero h = ground (arith, h)
chain_repeat-rising (d ∷ []) last (suc i) h = omega arith
chain_repeat-rising (d ∷ e ∷ ds) last (suc i) h =
    chain_repeat-rising (e ∷ ds) last i (ground (arith, h))

chain_repeat_bounds :
    (ds : List ℕ) (last i : ℕ) → all (λ d. leb d last) ds ≡ true → chain_repeat ds last i ≤ last
unfolding chain_repeat
chain_repeat_bounds [] last i h = omega arith
chain_repeat_bounds (d ∷ ds) last zero h = ground (arith, h)
chain_repeat_bounds (d ∷ ds) last (suc i) h = chain_repeat_bounds ds last i (ground (arith, h))

chain_repeat_beyond : (ds : List ℕ) (last i : ℕ) → length ds ≤ i → chain_repeat ds last i ≡ last
unfolding chain_repeat
chain_repeat_beyond [] last i h = refl
chain_repeat_beyond (d ∷ ds) last zero h = absurd (omega arith)
chain_repeat_beyond (d ∷ ds) last (suc i) h = chain_repeat_beyond ds last i (omega arith)

-- No wait is shorter than the one before it, none is longer than an hour, and from the tenth on each
-- is an hour, however many attempts there are.
pub delay-rising : (i : ℕ) → (delay i ≤ delay (suc i)) × (delay i ≤ 3600) × (9 ≤ i → delay i ≡ 3600)
delay-rising i = (
  chain_repeat-rising backoff 3600 i refl,
  chain_repeat_bounds backoff 3600 i refl,
  λ h. chain_repeat_beyond backoff 3600 i (omega arith),
)
