-- ===== src/CoreApi/Polling.antt =====
-- The results of src/companion/core_api.py.
use hactl_companion.Base.{
  ℕ, zero, suc, ◌+◌, ◌≤◌, ◌<◌, ◌≡◌, ◌↔◌, subst, true, arith, Text, Bool-cases, inl, inr,
}
use hactl_companion.CoreApi.{
  Answered, EntityState, get_state, is_live_state, poll_from, poll_for_entity,
}

live_at :
    (token : Text) (answers : ℕ → Answered EntityState) (m n : ℕ)
    → m ≡ n
    → is_live_state (get_state token (answers m)) ≡ true
    → is_live_state (get_state token (answers n)) ≡ true
live_at token answers m n e h = subst (λ k. is_live_state (get_state token (answers k)) ≡ true) e h

poll_from-true :
    (token : Text) (answers : ℕ → Answered EntityState) (round attempts : ℕ)
    → (poll_from token answers round attempts).0 ≡ true
    → (i : ℕ) × (i < attempts) × (is_live_state (get_state token (answers (round + i))) ≡ true)
unfolding poll_from
poll_from-true token answers round zero h = absurd (cc h)
poll_from-true token answers round (suc attempts) h =
    elim (Bool-cases (is_live_state (get_state token (answers round)))) [
      | inl e ↦ (0, omega arith, live_at token answers round (round + 0) (omega arith) e)
      | inr e ↦
          let (i, bound, live) =
            poll_from-true token answers (suc round) attempts (ground (arith, h, e)) in
          (
            suc i,
            omega (arith, bound),
            live_at token answers (suc round + i) (round + suc i) (omega arith) live,
          )
    ]

poll_from-live :
    (token : Text) (answers : ℕ → Answered EntityState) (round attempts i : ℕ)
    → i < attempts
    → is_live_state (get_state token (answers (round + i))) ≡ true
    → (poll_from token answers round attempts).0 ≡ true
unfolding poll_from
poll_from-live token answers round zero i bound live = absurd (omega arith)
poll_from-live token answers round (suc attempts) zero bound live =
    ground (arith, live_at token answers (round + 0) round (omega arith) live)
poll_from-live token answers round (suc attempts) (suc i) bound live = ground (
  arith,
  poll_from-live token answers (suc round) attempts i (omega (arith, bound))
      (live_at token answers (round + suc i) (suc round + i) (omega arith) live),
)

poll_from-bounded :
    (token : Text) (answers : ℕ → Answered EntityState) (round attempts : ℕ)
    → (poll_from token answers round attempts).1 ≤ attempts
unfolding poll_from
poll_from-bounded token answers round zero = omega arith
poll_from-bounded token answers round (suc attempts) =
    ground (arith, poll_from-bounded token answers (suc round) attempts)

-- The polling says that the entity is there exactly if one of its requests is responded with a live
-- state, at whatever round that is, and it makes at most the given number of requests.
pub poll_for_entity-live :
    (token : Text) (answers : ℕ → Answered EntityState) (attempts : ℕ)
    → ((poll_for_entity token answers attempts ≡ true)
        ↔ ((i : ℕ) × (i < attempts) × (is_live_state (get_state token (answers i)) ≡ true)))
      × ((poll_from token answers 0 attempts).1 ≤ attempts)
unfolding poll_for_entity
poll_for_entity-live token answers attempts = (
  (
    λ h.
        let (i, bound, live) = poll_from-true token answers 0 attempts h in
        (i, bound, live_at token answers (0 + i) i (omega arith) live),
    λ (i, bound, live).
        poll_from-live token answers 0 attempts i bound
          (live_at token answers i (0 + i) (omega arith) live),
  ),
  poll_from-bounded token answers 0 attempts,
)
