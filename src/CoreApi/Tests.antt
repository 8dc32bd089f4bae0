-- ===== src/CoreApi/Tests.antt =====
-- An entity that appears at the third request (src/companion/core_api.py).
use hactl_companion.Base.{ℕ, zero, suc, ◌≤◌, ◌<◌, ◌≡◌, ◌↔◌, true, false, some, codes}
use hactl_companion.CoreApi.{
  Answered, client_error, responded, EntityState, get_state, is_live_state, poll_from,
  poll_for_entity,
}
use hactl_companion.CoreApi.Polling.{poll_for_entity-live}

-- A timeout, a state that was only restored, and the live state.
abbrev answers : ℕ → Answered EntityState
answers zero = client_error (codes "TimeoutError") (codes "")
answers (suc zero) = responded 200 (codes "") (some (codes "unavailable"), true)
answers (suc (suc i)) = responded 200 (codes "") (some (codes "on"), false)

poll_for_entity-live_example :
    ((poll_for_entity (codes "t") answers 5 ≡ true)
      ↔ ((i : ℕ) × (i < 5) × (is_live_state (get_state (codes "t") (answers i)) ≡ true)))
    × ((poll_from (codes "t") answers 0 5).1 ≤ 5)
poll_for_entity-live_example = poll_for_entity-live (codes "t") answers 5
