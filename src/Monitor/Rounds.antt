-- ===== src/Monitor/Rounds.antt =====
-- What the loops of src/companion/wg_monitor.py guarantee of a round: when it ends, and what it leaves
-- in the state.
use hactl_companion.Base.{
  ℕ, zero, suc, ◌≡◌, ◌∙◌, refl, subst, Bool, true, false, Option, none, some, List, [], ◌∷◌, arith,
  Text, Bool-cases, inl, inr,
}
use hactl_companion.Http.{Result, ok, err}
use hactl_companion.Monitor.{
  PeerEndpoint, MonitorState, Completed, Machine, Progress, waiting, reconnected, failed, Monitored,
  touch, is_peer_alive, pushed, resolved_to, and_ok, tick, wait_and_look, attempt_once,
  next_attempt, then_tick, reconnect_loop, recovered, checked, monitor_round, health_interval,
  delay,
}

-- Not in backoff, with nothing left of an earlier one.
pub record IsCalm (s : MonitorState) : Type 0 where
  pub not_in_backoff : s.in_backoff ≡ false
  pub no_attempt : s.attempt ≡ 0
  pub no_retry : s.next_retry_ts ≡ none
  pub no_error : s.last_error ≡ none

abbrev pub attempt_of : Option MonitorState → Option ℕ
attempt_of none = none
attempt_of (some s) = some s.attempt

module _ {W : Type 0} (sys : Machine W) (tunnel : Text) (peers : List PeerEndpoint) where
  abbrev SeenAlive : Monitored W → Type 0
  SeenAlive left = (w : W) × (is_peer_alive sys tunnel peers w ≡ (ok true, left.1))

  wait_and_look-alive :
      (i : ℕ) (r : Result Bool × Monitored W) (m : Monitored W)
      → wait_and_look sys tunnel peers i r ≡ (ok true, m)
      → (w : W) × (is_peer_alive sys tunnel peers w ≡ (ok true, m.1))
  unfolding wait_and_look
  wait_and_look-alive i (err e, (s, w)) m h = absurd (ground (arith, h))
  wait_and_look-alive i (ok b, (s, w)) m h = (sys.sleep (delay i) w, ground (arith, h))

  next_attempt-alive :
      (rest : Monitored W → Progress × Monitored W) (r : Result Bool × Monitored W)
      (left : Monitored W)
      → ((m : Monitored W) → rest m ≡ (reconnected, left) → SeenAlive left)
      → ((m : Monitored W) → r ≡ (ok true, m) → SeenAlive m)
      → next_attempt sys tunnel rest r ≡ (reconnected, left)
      → SeenAlive left
  unfolding next_attempt
  next_attempt-alive rest (err e, m) left later now h = absurd (ground (arith, h))
  next_attempt-alive rest (ok false, m) left later now h = later m h
  next_attempt-alive rest (ok true, m) left later now h =
      let e : m ≡ left = ground (arith, h) in subst SeenAlive e (now m refl)

  -- The loop of attempts ends with a reconnection only behind a look that found every peer alive,
  -- whatever attempt it begins with and for any fuel.
  pub reconnect_loop-alive :
      (fuel i : ℕ) (m left : Monitored W)
      → reconnect_loop sys tunnel fuel peers i m ≡ (reconnected, left)
      → (w : W) × (is_peer_alive sys tunnel peers w ≡ (ok true, left.1))
  unfolding reconnect_loop attempt_once
  reconnect_loop-alive zero i m left h = absurd (ground (arith, h))
  reconnect_loop-alive (suc fuel) i m left h =
      next_attempt-alive _ _ left (λ m'. reconnect_loop-alive fuel (suc i) m' left)
        (λ m'. wait_and_look-alive i _ m') h

  pushed-attempt :
      (peer : PeerEndpoint) (ip : Text) (s : Option MonitorState) (r : Result Completed × W)
      → attempt_of (pushed sys tunnel peer ip s r).1.0 ≡ attempt_of s
  unfolding pushed touch
  pushed-attempt peer ip s (err e, w) = refl
  pushed-attempt peer ip none (ok done, w) = ground arith
  pushed-attempt peer ip (some s) (ok done, w) = elim (Bool-cases done.succeeded) [
    | inl e ↦ rw e refl
    | inr e ↦ rw e refl
  ]

  resolved_to-attempt :
      (peer : PeerEndpoint) (s : Option MonitorState) (r : Option Text × W)
      → attempt_of (resolved_to sys tunnel peer s r).1.0 ≡ attempt_of s
  unfolding resolved_to touch
  resolved_to-attempt peer none (none, w) = refl
  resolved_to-attempt peer (some s) (none, w) = refl
  resolved_to-attempt peer s (some ip, w) = pushed-attempt peer ip s _

  and_ok-state : (b : Bool) (r : Result Bool × Monitored W) → (and_ok sys tunnel b r).1 ≡ r.1
  unfolding and_ok
  and_ok-state b (err e, m) = refl
  and_ok-state b (ok c, m) = refl

  then_tick-attempt :
      (rest : Monitored W → Result Bool × Monitored W) (r : Result Bool × Monitored W)
      → ((m : Monitored W) → attempt_of (rest m).1.0 ≡ attempt_of m.0)
      → attempt_of (then_tick sys tunnel rest r).1.0 ≡ attempt_of r.1.0
  unfolding then_tick
  then_tick-attempt rest (err e, m) ih = refl
  then_tick-attempt rest (ok b, m) ih = rw and_ok-state (ih m)

  pub tick-attempt :
      (targets : List PeerEndpoint) (m : Monitored W)
      → attempt_of (tick sys tunnel targets m).1.0 ≡ attempt_of m.0
  unfolding tick
  tick-attempt [] m = refl
  tick-attempt (peer ∷ targets) (s, w) =
      let found = sys.lookup peer.hostname w in
      then_tick-attempt (tick sys tunnel targets) (resolved_to sys tunnel peer s found)
        (tick-attempt targets)
      ∙ resolved_to-attempt peer s found

  pub wait_and_look-attempt :
      (i : ℕ) (r : Result Bool × Monitored W)
      → attempt_of (wait_and_look sys tunnel peers i r).1.0 ≡ attempt_of r.1.0
  unfolding wait_and_look touch
  wait_and_look-attempt i (err e, m) = refl
  wait_and_look-attempt i (ok b, (none, w)) = refl
  wait_and_look-attempt i (ok b, (some s, w)) = refl

  abbrev pub AllCalm : Option MonitorState → Type 0
  AllCalm none = Unit
  AllCalm (some s) = IsCalm s

  recovered-AllCalm :
      (r : Progress × Monitored W)
      → (recovered sys tunnel r).0 ≡ reconnected
      → AllCalm (recovered sys tunnel r).1.0
  unfolding recovered touch
  recovered-AllCalm (waiting, m) h = absurd (ground (arith, h))
  recovered-AllCalm (failed e, m) h = absurd (ground (arith, h))
  recovered-AllCalm (reconnected, (none, w)) h = tt
  recovered-AllCalm (reconnected, (some s, w)) h = record {
    not_in_backoff = refl;
    no_attempt = refl;
    no_retry = refl;
    no_error = refl;
  }

  checked-AllCalm :
      (fuel : ℕ) (s : Option MonitorState) (r : Result Bool × W)
      → AllCalm s
      → (checked sys tunnel fuel peers s r).0 ≡ reconnected
      → AllCalm (checked sys tunnel fuel peers s r).1.0
  unfolding checked
  checked-AllCalm fuel s (err e, w) calm h = calm
  checked-AllCalm fuel s (ok true, w) calm h = calm
  checked-AllCalm fuel s (ok false, w) calm h = recovered-AllCalm _ h

  touched-AllCalm :
      (now : ℕ) (s : Option MonitorState)
      → AllCalm s
      → AllCalm (touch (λ t. record t { last_check_ts = some now }) s)
  unfolding touch
  touched-AllCalm now none calm = tt
  touched-AllCalm now (some s) calm = record {
    not_in_backoff = calm.not_in_backoff;
    no_attempt = calm.no_attempt;
    no_retry = calm.no_retry;
    no_error = calm.no_error;
  }

  -- Every round that ends with a live peer leaves a monitor that is not in backoff and shows no
  -- attempt, no next retry and no error, if the monitor was so before, as a new one is; whether the
  -- peer was alive at once or had to be won back.
  pub monitor_round-AllCalm :
      (fuel : ℕ) (s : Option MonitorState) (w : W)
      → AllCalm s
      → (monitor_round sys tunnel fuel peers (s, w)).0 ≡ reconnected
      → AllCalm (monitor_round sys tunnel fuel peers (s, w)).1.0
  unfolding monitor_round
  monitor_round-AllCalm fuel s w calm h =
      checked-AllCalm fuel _ _ (touched-AllCalm (sys.time (sys.sleep health_interval w)) s calm) h
