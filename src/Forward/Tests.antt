-- ===== src/Forward/Tests.antt =====
-- Runs of the forward of src/companion/ha_forward.py, and the theorems at them.
use hactl_companion.Base.{
  ◌≤◌, ◌≡◌, refl, true, ◌||◌, ◌⊎◌, Option, some, List, [], ◌∷◌, Text, codes, any, all, eq_text,
  if◌then◌else◌,
}
use hactl_companion.Forward.{
  new_session, default_target, Event, accepted, connected, ended, cancelled, Session, writers_of,
  step, run_events, connect_task, refuse_task, end_task, close_task, cancel_task, finally,
  close_next, discard, handler_at, remove_handler, set_handler, start, ForwardStatus, status,
  tunnel_addresses,
}
use hactl_companion.Forward.Tasks.{is_accounted, count_open}
use hactl_companion.Forward.Connections.{is_cancelled, run_events-accounts}
use hactl_companion.Forward.Listening.{is_free, has_error, status-start}

-- Two clients; the first is connected and ends, and is cancelled while its first writer closes.
abbrev events : List Event
events = accepted 1 ∷ accepted 2 ∷ connected 0 7 ∷ ended 0 ∷ cancelled 0 ∷ []

abbrev session : Session
session = run_events events (new_session default_target)

second_waits : session.forward.writers ≡ 7 ∷ 2 ∷ []
unfolding run_events step connect_task refuse_task end_task close_task cancel_task finally
    close_next discard handler_at remove_handler set_handler writers_of
second_waits = refl

run_events-accounts_example :
    (session.forward.connections_active ≡ count_open session.handlers)
    × (session.forward.connections_active ≤ session.forward.connections_total)
    × (all (is_accounted session) session.forward.writers ≡ true)
    × ((session.cut_off ≡ []) ⊎ (any is_cancelled events ≡ true))
run_events-accounts_example = run_events-accounts default_target events

abbrev conf : Text
conf = codes "[Interface]\nAddress = 10.0.0.2/32\n"

-- Every text is its own address, and nothing can be listened on.
abbrev ip_of : Text → Option Text
ip_of t = some t

abbrev busy : Text → Option Text
busy t = some (codes "in use")

status-start_example :
    ((report : ForwardStatus) × (status
          (codes "wg0")
          (start ip_of busy default_target (codes "wg0") conf [])
        ≡ some report)
      × (report.running ≡ any (is_free busy) (tunnel_addresses ip_of conf))
      × ((report.running || has_error report.error) ≡ true))
    × (status (codes "wg1") (start ip_of busy default_target (codes "wg0") conf []) ≡ (
        if eq_text (codes "wg0") (codes "wg1")
        then status (codes "wg0") (start ip_of busy default_target (codes "wg0") conf [])
        else status (codes "wg1") []))
status-start_example = status-start ip_of busy default_target (codes "wg0") conf (codes "wg1") []
