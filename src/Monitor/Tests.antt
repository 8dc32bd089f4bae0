-- ===== src/Monitor/Tests.antt =====
-- Runs of src/companion/wg_monitor.py over a small world, and the theorems at concrete monitors. The
-- world is a clock: a tunnel comes back at second 100, and `wg` times out from second 1000 on.
use hactl_companion.Base.{
  ℕ, ◌+◌, ◌≡◌, refl, subst, true, false, none, some, List, [], ◌∷◌, ◌++◌, Text, codes, eq_text,
  starts_with, strip, lstrip, is_space, split, split_step, leb, show_nat, if◌then◌else◌,
}
use hactl_companion.Http.{gateway_timeout, ok, err}
use hactl_companion.Surgical.Span.{is_break, extend_line}
use hactl_companion.Monitor.{
  PeerEndpoint, MonitorState, Completed, Machine, Progress, reconnected, Monitored, chain_repeat,
  splitlines, digits, drop_plus, int_or_zero, add_handshake, read_handshakes, latest_handshake,
  alive_in, touch, put_resolved, is_peer_alive, pushed, resolved_to, then_tick, and_ok, tick,
  wait_and_look, attempt_once, next_attempt, next_round, reconnect_loop, recovered, checked,
  monitor_round, monitor_loop,
}
use hactl_companion.Monitor.Rounds.{IsCalm, AllCalm, monitor_round-AllCalm}
use hactl_companion.Monitor.Attempts.{Ended, reconnect_loop-Ended}
use hactl_companion.Monitor.Registry.{
  IsAccounted, start, stop, run_calls, no_monitors, run_calls-IsAccounted,
}

abbrev dump : Text → Completed
dump stamp = record {
  succeeded = true;
  stdout =
      codes "priv\tpub\t51820\toff\nKEY\t(none)\t1.2.3.4:1\t10.0.0.0/8\t"
      ++ (stamp ++ codes "\t0\t0\toff\n");
  stderr = [];
}

-- The seconds begin at 1000000.
clock : Machine ℕ
clock = record {
  run = λ command w.
      if leb 1000 w
      then (err (gateway_timeout (codes "Command timed out after 30s")), w)
      else if leb 100 w
      then (ok (dump (codes "1000050")), w)
      else (ok (dump (codes "0")), w);
  lookup = λ host w. (some (codes "1.2.3.4"), w);
  time = λ w. 1000000 + w;
  sleep = λ n w. n + w;
}

abbrev tunnel : Text
tunnel = codes "wg0"

abbrev peer : PeerEndpoint
peer = record { pubkey = codes "KEY"; hostname = codes "home.example"; port = 51820 }

abbrev peers : List PeerEndpoint
peers = peer ∷ []

abbrev fresh_state : MonitorState
fresh_state = record {
  tunnel = tunnel;
  hostnames = codes "home.example" ∷ [];
  last_check_ts = none;
  last_reresolve_ts = none;
  resolved = [];
  in_backoff = false;
  attempt = 0;
  next_retry_ts = none;
  last_error = none;
}

-- Asleep for 30 s, quiet, attempts at 30, 35, 45 and 75, and alive at 135.
round_ends :
    ((monitor_round clock tunnel 5 peers (some fresh_state, 0)).0 ≡ reconnected)
    × ((monitor_round clock tunnel 5 peers (some fresh_state, 0)).1.1 ≡ 135)
unfolding clock monitor_loop next_round monitor_round checked recovered reconnect_loop next_attempt
    attempt_once wait_and_look tick then_tick and_ok resolved_to pushed is_peer_alive touch
    put_resolved alive_in latest_handshake read_handshakes add_handshake int_or_zero drop_plus
    digits splitlines chain_repeat show_nat eq_text starts_with strip lstrip is_space split
    split_step is_break extend_line
round_ends = (refl, refl)

abbrev tried : ℕ → Progress × Monitored ℕ
tried fuel = reconnect_loop clock tunnel fuel peers 0 (some fresh_state, 30)

tried_all : tried 5 ≡ (reconnected, (tried 5).1)
unfolding clock monitor_loop next_round monitor_round checked recovered reconnect_loop next_attempt
    attempt_once wait_and_look tick then_tick and_ok resolved_to pushed is_peer_alive touch
    put_resolved alive_in latest_handshake read_handshakes add_handshake int_or_zero drop_plus
    digits splitlines chain_repeat show_nat eq_text starts_with strip lstrip is_space split
    split_step is_break extend_line
tried_all = refl

is_alive : alive_in 1000100 peers (dump (codes "1000050")) ≡ true
unfolding clock monitor_loop next_round monitor_round checked recovered reconnect_loop next_attempt
    attempt_once wait_and_look tick then_tick and_ok resolved_to pushed is_peer_alive touch
    put_resolved alive_in latest_handshake read_handshakes add_handshake int_or_zero drop_plus
    digits splitlines chain_repeat show_nat eq_text starts_with strip lstrip is_space split
    split_step is_break extend_line
is_alive = refl

reconnect_loop-Ended_example :
    Ended clock tunnel peers 5 0 (some fresh_state, 30) (reconnected, (tried 5).1)
reconnect_loop-Ended_example =
    subst (Ended clock tunnel peers 5 0 (some fresh_state, 30)) tried_all
      (reconnect_loop-Ended clock tunnel peers 5 0 (some fresh_state, 30))

fresh_state-IsCalm : IsCalm fresh_state
fresh_state-IsCalm = record {
  not_in_backoff = refl;
  no_attempt = refl;
  no_retry = refl;
  no_error = refl;
}

monitor_round-AllCalm_example :
    AllCalm clock tunnel peers (monitor_round clock tunnel 5 peers (some fresh_state, 0)).1.0
monitor_round-AllCalm_example =
    monitor_round-AllCalm clock tunnel peers 5 (some fresh_state) 0 fresh_state-IsCalm round_ends.0

run_calls-IsAccounted_example :
    IsAccounted (run_calls (start tunnel peers ∷ start tunnel peers ∷ stop tunnel ∷ []) no_monitors)
run_calls-IsAccounted_example =
    run_calls-IsAccounted (start tunnel peers ∷ start tunnel peers ∷ stop tunnel ∷ [])
