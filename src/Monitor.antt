-- ===== src/Monitor.antt =====
-- src/companion/wg_monitor.py: the task that watches a tunnel's handshakes, resolves the endpoints of
-- quiet peers again and pushes them to WireGuard, and the registry of these tasks. What lies outside
-- (`wg` commands, name lookups, the clock) is the record `Machine`, over any type of worlds.
pub mod Delays
pub mod Rounds
pub mod Liveness
pub mod Attempts
pub mod Registry
mod Tests
use hactl_companion.Base.{
  ℕ, zero, suc, ◌+◌, ◌-◌, ◌*◌, Bool, true, false, not, Option, none, some, List, [], ◌∷◌, ◌++◌,
  ◌&&◌, Text, codes, eq_text, starts_with, strip, split, newline, get_elem?, drop, all, map, leb,
  ◌==◌, show_nat, if◌then◌else◌,
}
use hactl_companion.Http.{HttpError, Result, ok, err}
use hactl_companion.Surgical.Span.{is_break, extend_line}

-- `_PeerEndpoint` of src/companion/wg.py.
pub record PeerEndpoint : Type 0 where
  pub pubkey : Text
  pub hostname : Text
  pub port : ℕ

pub record MonitorState : Type 0 where
  pub tunnel : Text
  pub hostnames : List Text
  pub last_check_ts : Option ℕ
  pub last_reresolve_ts : Option ℕ
  pub resolved : List (Text × Text)
  pub in_backoff : Bool
  pub attempt : ℕ
  pub next_retry_ts : Option ℕ
  pub last_error : Option Text

-- The result of a command that ran: whether the return code is 0, and its output.
pub record Completed : Type 0 where
  pub succeeded : Bool
  pub stdout : Text
  pub stderr : Text

-- `run` is `wg._run_wg_cmd`, which raises where the command is missing or times out; `lookup` is
-- `wg._dns_lookup_ip`; `time` is the clock in seconds.
pub record Machine (W : Type 0) : Type 0 where
  pub run : List Text → W → Result Completed × W
  pub lookup : Text → W → Option Text × W
  pub time : W → ℕ
  pub sleep : ℕ → W → W

abbrev pub health_interval : ℕ
health_interval = 30

abbrev pub stale_handshake : ℕ
stale_handshake = 180

abbrev pub backoff : List ℕ
backoff = 5 ∷ 10 ∷ 30 ∷ 60 ∷ 120 ∷ 300 ∷ 600 ∷ 1800 ∷ 3600 ∷ []

-- `itertools.chain(delays, itertools.repeat(last))` at an index.
pub chain_repeat : List ℕ → ℕ → ℕ → ℕ
chain_repeat [] last i = last
chain_repeat (d ∷ ds) last zero = d
chain_repeat (d ∷ ds) last (suc i) = chain_repeat ds last i

abbrev pub delay : ℕ → ℕ
delay i = chain_repeat backoff 3600 i

-- `stdout.splitlines()`.
pub splitlines : Text → List Text
unfolding is_break extend_line starts_with
splitlines [] = []
splitlines (c ∷ s) =
    let rest = splitlines s in
    if is_break c
    then (if (c == 13) && starts_with s (newline ∷ []) then rest else [] ∷ rest)
    else extend_line c rest

-- Decimal digits, with single underscores between them.
unfoldable pub digits : Bool → ℕ → Text → Option ℕ
digits read n [] = if read then some n else none
digits read n (c ∷ s) =
    let more = digits true (n * 10 + (c - 48)) s in
    let between = digits false n s in
    if leb 48 c && leb c 57 then more else if (c == 95) && read then between else none

-- A sign in front of the digits.
pub drop_plus : Text → Text
drop_plus [] = []
drop_plus (c ∷ s) = if c == 43 then s else c ∷ s

-- `int(t)`, or 0 where it raises a ValueError; a negative number is as old as 0 and counts as 0.
pub int_or_zero : Text → ℕ
unfolding digits drop_plus strip
int_or_zero t = elim (digits false 0 (drop_plus (strip t))) [ none ↦ 0 | some n ↦ n ]

-- A row of the dump, put into the handshakes: the newest entry of a key stands first.
pub add_handshake : List Text → List (Text × ℕ) → List (Text × ℕ)
unfolding int_or_zero
add_handshake (k ∷ a ∷ b ∷ c ∷ t ∷ more) known = (k, int_or_zero t) ∷ known
add_handshake _ known = known

pub read_handshakes : List Text → List (Text × ℕ) → List (Text × ℕ)
unfolding add_handshake split
read_handshakes [] known = known
read_handshakes (line ∷ lines) known = read_handshakes lines (add_handshake (split 9 line) known)

-- `handshakes.get(pubkey, 0)`.
pub latest_handshake : Text → List (Text × ℕ) → ℕ
unfolding eq_text
latest_handshake k [] = 0
latest_handshake k ((j, t) ∷ known) =
    let rest = latest_handshake k known in if eq_text j k then t else rest

abbrev pub is_fresh : ℕ → List (Text × ℕ) → PeerEndpoint → Bool
is_fresh now known peer = leb now (latest_handshake peer.pubkey known + stale_handshake)

-- What the dump says of the peers; its first line is the interface.
pub alive_in : ℕ → List PeerEndpoint → Completed → Bool
unfolding splitlines read_handshakes latest_handshake
alive_in now peers dump =
    if dump.succeeded
    then all (is_fresh now (read_handshakes (drop 1 (splitlines dump.stdout)) [])) peers
    else false

-- `if state:` and an assignment to it.
pub touch : (MonitorState → MonitorState) → Option MonitorState → Option MonitorState
touch f none = none
touch f (some s) = some (f s)

-- `state.resolved[hostname] = ip`.
pub put_resolved : Text → Text → List (Text × Text) → List (Text × Text)
unfolding eq_text
put_resolved host ip [] = (host, ip) ∷ []
put_resolved host ip ((h, i) ∷ known) =
    let rest = put_resolved host ip known in
    if eq_text h host then (host, ip) ∷ known else (h, i) ∷ rest

-- How a round ends: the fuel is used up while the peer is quiet, the peer is back, or an exception.
pub data Progress : Type 0 where
  waiting reconnected : Progress
  failed : HttpError → Progress

abbrev pub Monitored : Type 0 → Type 0
Monitored W = Option MonitorState × W

module _ {W : Type 0} (sys : Machine W) (tunnel : Text) where
  alive_after : List PeerEndpoint → Result Completed × W → Result Bool × W
  alive_after peers (err e, w) = (err e, w)
  alive_after peers (ok dump, w) = (ok (alive_in (sys.time w) peers dump), w)

  pub is_peer_alive : List PeerEndpoint → W → Result Bool × W
  unfolding alive_after
  is_peer_alive peers w =
      alive_after peers (sys.run (codes "wg" ∷ codes "show" ∷ tunnel ∷ codes "dump" ∷ []) w)

  -- Once the new endpoint was pushed.
  pub pushed :
      PeerEndpoint → Text → Option MonitorState → Result Completed × W → Result Bool × Monitored W
  unfolding touch put_resolved strip
  pushed peer ip s (err e, w) = (err e, (s, w))
  pushed peer ip s (ok done, w) =
      if done.succeeded
      then (
        ok true,
        (
          touch
              (λ t. record t {
                resolved = put_resolved peer.hostname ip t.resolved;
                last_reresolve_ts = some (sys.time w);
              })
              s,
          w,
        ),
      )
      else (
        ok false,
        (
          touch
              (λ t. record t {
                last_error = some (
                    codes "endpoint update failed for "
                    ++ (peer.hostname ++ (codes ": " ++ strip done.stderr)));
              })
              s,
          w,
        ),
      )

  -- Once the hostname was looked up.
  pub resolved_to : PeerEndpoint → Option MonitorState → Option Text × W → Result Bool × Monitored W
  unfolding pushed touch show_nat
  resolved_to peer s (none, w) = (
    ok false,
    (
      touch (λ t. record t { last_error = some (codes "re-resolve failed for " ++ peer.hostname) })
          s,
      w,
    ),
  )
  resolved_to peer s (some ip, w) = pushed peer ip s (
      sys.run
        (codes "wg"
          ∷ codes "set"
          ∷ tunnel
          ∷ codes "peer"
          ∷ peer.pubkey
          ∷ codes "endpoint"
          ∷ (ip ++ (codes ":" ++ show_nat peer.port))
          ∷ [])
        w)

  pub and_ok : Bool → Result Bool × Monitored W → Result Bool × Monitored W
  and_ok b (err e, m) = (err e, m)
  and_ok b (ok c, m) = (ok (b && c), m)

  -- The peers behind one of the loop.
  pub then_tick :
      (Monitored W → Result Bool × Monitored W)
      → Result Bool × Monitored W
      → Result Bool × Monitored W
  unfolding and_ok
  then_tick rest (err e, m) = (err e, m)
  then_tick rest (ok b, m) = and_ok b (rest m)

  pub tick : List PeerEndpoint → Monitored W → Result Bool × Monitored W
  unfolding resolved_to then_tick
  tick [] m = (ok true, m)
  tick (peer ∷ peers) (s, w) =
      then_tick (λ m. tick peers m) (resolved_to peer s (sys.lookup peer.hostname w))

  -- The rest of an attempt: wait, and look again.
  pub wait_and_look : List PeerEndpoint → ℕ → Result Bool × Monitored W → Result Bool × Monitored W
  unfolding touch is_peer_alive
  wait_and_look peers i (err e, m) = (err e, m)
  wait_and_look peers i (ok b, (s, w)) =
      let s' = touch (λ t. record t { next_retry_ts = some (sys.time w + delay i) }) s in
      let (alive, w') = is_peer_alive peers (sys.sleep (delay i) w) in (alive, (s', w'))

  pub attempt_once : List PeerEndpoint → ℕ → Monitored W → Result Bool × Monitored W
  unfolding touch tick wait_and_look
  attempt_once peers i (s, w) =
      wait_and_look peers i (tick peers (touch (λ t. record t { attempt = suc i }) s, w))

  -- Behind an attempt: on an exception and on a live peer the loop is left.
  pub next_attempt :
      (Monitored W → Progress × Monitored W) → Result Bool × Monitored W → Progress × Monitored W
  next_attempt rest (err e, m) = (failed e, m)
  next_attempt rest (ok true, m) = (reconnected, m)
  next_attempt rest (ok false, m) = rest m

  -- `_reconnect_loop` from attempt `i` on, for as many attempts as there is fuel.
  pub reconnect_loop : ℕ → List PeerEndpoint → ℕ → Monitored W → Progress × Monitored W
  unfolding attempt_once next_attempt
  reconnect_loop zero peers i m = (waiting, m)
  reconnect_loop (suc fuel) peers i m =
      next_attempt (λ m'. reconnect_loop fuel peers (suc i) m') (attempt_once peers i m)

  pub recovered : Progress × Monitored W → Progress × Monitored W
  unfolding touch
  recovered (reconnected, (s, w)) = (
    reconnected,
    (
      touch
          (λ t. record t {
            in_backoff = false;
            attempt = 0;
            next_retry_ts = none;
            last_error = none;
          })
          s,
      w,
    ),
  )
  recovered (p, m) = (p, m)

  pub checked :
      ℕ → List PeerEndpoint → Option MonitorState → Result Bool × W → Progress × Monitored W
  unfolding recovered reconnect_loop touch
  checked fuel peers s (err e, w) = (failed e, (s, w))
  checked fuel peers s (ok true, w) = (reconnected, (s, w))
  checked fuel peers s (ok false, w) =
      recovered (reconnect_loop fuel peers 0 (touch (λ t. record t { in_backoff = true }) s, w))

  -- One round of `_monitor_loop`, which ends with a live peer, or not at all, or with an exception.
  pub monitor_round : ℕ → List PeerEndpoint → Monitored W → Progress × Monitored W
  unfolding touch is_peer_alive checked
  monitor_round fuel peers (s, w) =
      let w' = sys.sleep health_interval w in
      checked fuel peers (touch (λ t. record t { last_check_ts = some (sys.time w') }) s)
        (is_peer_alive peers w')

  pub next_round :
      (Monitored W → Progress × Monitored W) → Progress × Monitored W → Progress × Monitored W
  next_round rest (waiting, m) = (waiting, m)
  next_round rest (failed e, m) = (failed e, m)
  next_round rest (reconnected, m) = rest m

  -- `_monitor_loop`, for so many rounds: an exception ends it.
  pub monitor_loop : ℕ → ℕ → List PeerEndpoint → Monitored W → Progress × Monitored W
  unfolding monitor_round next_round
  monitor_loop zero fuel peers m = (waiting, m)
  monitor_loop (suc n) fuel peers m =
      next_round (λ m'. monitor_loop n fuel peers m') (monitor_round fuel peers m)

-- A number of seconds with its sign.
pub data Difference : Type 0 where
  positive negative : ℕ → Difference

-- What `status` answers of a running monitor at a time; ages are those of whole seconds.
pub record StatusReport : Type 0 where
  pub hostnames : List Text
  pub healthy : Bool
  pub resolved : List (Text × Text)
  pub last_check_secs_ago : Option Difference
  pub last_reresolve_secs_ago : Option Difference
  pub attempt : ℕ
  pub next_retry_secs : Option Difference
  pub last_error : Option Text

pub difference : ℕ → ℕ → Difference
difference a b = if leb b a then positive (a - b) else negative (b - a)

since : ℕ → Option ℕ → Option Difference
since now none = none
since now (some ts) = some (difference now ts)

until : ℕ → Option ℕ → Option Difference
until now none = none
until now (some ts) = some (difference ts now)

-- `none` is `{"running": False}`.
pub monitor_status : ℕ → Option MonitorState → Option StatusReport
monitor_status now none = none
monitor_status now (some s) = some record {
  hostnames = s.hostnames;
  healthy = not s.in_backoff;
  resolved = s.resolved;
  last_check_secs_ago = since now s.last_check_ts;
  last_reresolve_secs_ago = since now s.last_reresolve_ts;
  attempt = s.attempt;
  next_retry_secs = until now s.next_retry_ts;
  last_error = s.last_error;
}
