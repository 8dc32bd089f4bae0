-- ===== src/Monitor/Attempts.antt =====
-- The attempts of `_reconnect_loop` in src/companion/wg_monitor.py: each waits and looks before the next
-- one begins, and only a live peer or an exception ends them.
use hactl_companion.Base.{
  ℕ, zero, suc, ◌+◌, ◌<◌, ◌≡◌, ◌∙◌, refl, sym, ap, subst, Bool, true, false, Option, List, Text,
  arith,
}
use hactl_companion.Http.{Result, ok, err}
use hactl_companion.Monitor.{
  PeerEndpoint, MonitorState, Machine, Progress, waiting, reconnected, failed, Monitored, touch,
  is_peer_alive, tick, wait_and_look, attempt_once, next_attempt, reconnect_loop, delay,
}
use hactl_companion.Monitor.Rounds.{attempt_of, tick-attempt, wait_and_look-attempt}

module _ {W : Type 0} (sys : Machine W) (tunnel : Text) (peers : List PeerEndpoint) where
  abbrev numbered : ℕ → Option MonitorState → Option MonitorState
  numbered i = touch (λ t. record t { attempt = suc i })

  -- Attempt `i`, with its answer: the peers were gone through, and behind the delay that belongs to `i`
  -- the peers were looked at; the state shows the number of the attempt.
  pub record Attempt (i : ℕ) (answer : Bool) (m next : Monitored W) : Type 0 where
    pub pushed_all : Bool
    pub between : Monitored W
    pub ticked : tick sys tunnel peers (numbered i m.0, m.1) ≡ (ok pushed_all, between)
    pub looked :
        is_peer_alive sys tunnel peers (sys.sleep (delay i) between.1) ≡ (ok answer, next.1)
    pub shown : attempt_of next.0 ≡ attempt_of (numbered i m.0)

  -- So many attempts from `i` on, each of which found a peer quiet.
  pub data Quiet : ℕ → ℕ → Monitored W → Monitored W → Type 0 where
    none_yet : (i : ℕ) (m : Monitored W) → Quiet i 0 m m
    quiet :
        (i n : ℕ) (m next left : Monitored W)
        → Attempt i false m next
        → Quiet (suc i) n next left
        → Quiet i (suc n) m left

  -- How the loop ends with so much fuel: it is still waiting behind as many quiet attempts; or one of
  -- the attempts found every peer alive, or raised an exception, behind quiet ones only.
  abbrev pub Ended : ℕ → ℕ → Monitored W → Progress × Monitored W → Type 0
  Ended fuel i m (waiting, left) = Quiet i fuel m left
  Ended fuel i m (reconnected, left) =
      (n : ℕ) × (n < fuel)
      × (last : Monitored W) × Quiet i n m last
      × Attempt (i + n) true last left
  Ended fuel i m (failed e, left) =
      (n : ℕ) × (n < fuel)
      × (last : Monitored W) × Quiet i n m last
      × (attempt_once sys tunnel peers (i + n) last ≡ (err e, left))

  wait_and_look-Attempt :
      (i : ℕ) (m : Monitored W) (r : Result Bool × Monitored W) (answer : Bool) (next : Monitored W)
      → tick sys tunnel peers (numbered i m.0, m.1) ≡ r
      → wait_and_look sys tunnel peers i r ≡ (ok answer, next)
      → Attempt i answer m next
  wait_and_look-Attempt i m (err e, between) answer next t h =
      absurd (unfold wait_and_look in ground (arith, h))
  wait_and_look-Attempt i m (ok b, between) answer next t h = record {
    pushed_all = b;
    between = between;
    ticked = t;
    looked = unfold wait_and_look in ground (arith, h);
    shown =
        ap (λ r. attempt_of r.1.0) (sym h)
        ∙ (wait_and_look-attempt sys tunnel peers i (ok b, between)
            ∙ (ap (λ r. attempt_of r.1.0) (sym t)
                ∙ tick-attempt sys tunnel peers peers (numbered i m.0, m.1)));
  }

  attempt_once-Attempt :
      (i : ℕ) (m : Monitored W) (answer : Bool) (next : Monitored W)
      → attempt_once sys tunnel peers i m ≡ (ok answer, next)
      → Attempt i answer m next
  unfolding attempt_once
  attempt_once-Attempt i m answer next h = wait_and_look-Attempt i m _ answer next refl h

  one_more :
      (fuel i : ℕ) (m next : Monitored W) (r : Progress × Monitored W)
      → Attempt i false m next
      → Ended fuel (suc i) next r
      → Ended (suc fuel) i m r
  one_more fuel i m next (waiting, left) now later = quiet i fuel m next left now later
  one_more fuel i m next (reconnected, left) now (n, below, last, before, seen) = (
    suc n,
    omega (arith, below),
    last,
    quiet i n m next last now before,
    subst (λ k. Attempt k true last left) (omega arith) seen,
  )
  one_more fuel i m next (failed e, left) now (n, below, last, before, raised) = (
    suc n,
    omega (arith, below),
    last,
    quiet i n m next last now before,
    subst (λ k. attempt_once sys tunnel peers k last ≡ (err e, left)) (omega arith) raised,
  )

  next_attempt-Ended :
      (fuel i : ℕ) (m : Monitored W) (r : Result Bool × Monitored W)
      (rest : Monitored W → Progress × Monitored W)
      → attempt_once sys tunnel peers i m ≡ r
      → ((next : Monitored W) → Ended fuel (suc i) next (rest next))
      → Ended (suc fuel) i m (next_attempt sys tunnel rest r)
  unfolding next_attempt
  next_attempt-Ended fuel i m (err e, next) rest h later = (
    0,
    omega arith,
    m,
    none_yet i m,
    subst (λ k. attempt_once sys tunnel peers k m ≡ (err e, next)) (omega arith) h,
  )
  next_attempt-Ended fuel i m (ok true, next) rest h later = (
    0,
    omega arith,
    m,
    none_yet i m,
    subst (λ k. Attempt k true m next) (omega arith) (attempt_once-Attempt i m true next h),
  )
  next_attempt-Ended fuel i m (ok false, next) rest h later =
      one_more fuel i m next (rest next) (attempt_once-Attempt i m false next h) (later next)

  -- The loop does not give up, for any number of attempts that it is given: it has made all of them and
  -- waits on, or the last one made found every peer alive, or an exception ended it. Each attempt goes
  -- through the peers, waits the delay that belongs to its number and then looks at them, each before
  -- the last one found a peer quiet, and the state of the monitor shows the attempt's number.
  pub reconnect_loop-Ended :
      (fuel i : ℕ) (m : Monitored W) → Ended fuel i m (reconnect_loop sys tunnel fuel peers i m)
  unfolding reconnect_loop
  reconnect_loop-Ended zero i m = none_yet i m
  reconnect_loop-Ended (suc fuel) i m =
      next_attempt-Ended fuel i m _ _ refl (λ next. reconnect_loop-Ended fuel (suc i) next)
