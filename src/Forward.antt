-- ===== src/Forward.antt =====
-- src/companion/ha_forward.py: the TCP forward from the tunnel to Home Assistant. A forward is its
-- listeners and counters; its connections are tasks that interleave, one event at a time. What
-- `ipaddress` reads, what `start_server` answers and what the Supervisor says are parameters; stream
-- writers are numbers. `start_server` and `resolve_target` raise nothing but the exceptions that the
-- source catches by name. The log lines and the bytes that `_pipe` copies are not modelled.
pub mod Tasks
pub mod Connections
pub mod Listening
mod Tests
use hactl_companion.Base.{
  ℕ, zero, suc, ◌+◌, ◌-◌, ◌==◌, leb, ltb, Bool, true, false, not, ◌&&◌, ◌||◌, Option, none, some,
  List, [], ◌∷◌, ◌++◌, Text, codes, eq_text, any, length, starts_with, strip, lower, split,
  show_nat, find, take, drop, if◌then◌else◌,
}
use hactl_companion.Monitor.{splitlines}

pub record HaTarget : Type 0 where
  pub host : Text
  pub port : ℕ
  pub ssl : Option Bool

abbrev pub ha_host : Text
ha_host = codes "homeassistant"

abbrev pub default_port : ℕ
default_port = 8123

abbrev pub default_target : HaTarget
default_target = record { host = ha_host; port = default_port; ssl = none }

-- What `/core/info` answers: an error, or a status with the port and `ssl`, where these are an integer
-- that is not negative, and a truth value.
pub data CoreInfo : Type 0 where
  no_answer : CoreInfo
  core_info : ℕ → Option ℕ → Option Bool → CoreInfo

unfoldable pub target_of_port : Option ℕ → Option Bool → HaTarget
target_of_port none ssl = default_target
target_of_port (some port) ssl =
    if ltb 0 port && ltb port 65536
    then record { host = ha_host; port = port; ssl = ssl }
    else default_target

unfoldable pub target_of_info : CoreInfo → HaTarget
unfolding target_of_port
target_of_info no_answer = default_target
target_of_info (core_info status port ssl) =
    let told = target_of_port port ssl in if status == 200 then told else default_target

-- `resolve_target`; the first argument tells whether SUPERVISOR_TOKEN is set.
unfoldable pub resolve_target : Bool → CoreInfo → HaTarget
unfolding target_of_info
resolve_target false info = default_target
resolve_target true info = target_of_info info

-- `line.partition("=")`, where there is a `=`.
unfoldable pub partition_at : Text → Option ℕ → Option (Text × Text)
partition_at line none = none
partition_at line (some i) = some (take i line, drop (suc i) line)

unfoldable pub partition : Text → Option (Text × Text)
unfolding partition_at
partition line = partition_at line (find line 61 0 (length line))

module _ (ip_of : Text → Option Text) where
  -- The items of one `Address`; what is no interface address is passed over.
  unfoldable pub add_items : List Text → List Text
  add_items [] = []
  add_items (item ∷ items) =
      let rest = add_items items in elim (ip_of (strip item)) [ none ↦ rest | some ip ↦ ip ∷ rest ]

  unfoldable pub address_line : Option (Text × Text) → List Text
  unfolding add_items
  address_line none = []
  address_line (some (key, value)) =
      let items = add_items (split 44 value) in
      if eq_text (strip key) (codes "Address") then items else []

  unfoldable pub addresses_from : Bool → List Text → List Text
  unfolding address_line partition
  addresses_from in_interface [] = []
  addresses_from in_interface (raw ∷ lines) =
      let line = strip raw in
      let section = addresses_from (eq_text (lower line) (codes "[interface]")) lines in
      let rest = addresses_from in_interface lines in
      if starts_with line (codes "[")
      then section
      else if in_interface
      then address_line (partition line) ++ rest
      else rest

  unfoldable pub tunnel_addresses : Text → List Text
  unfolding addresses_from
  tunnel_addresses conf_text = addresses_from false (splitlines conf_text)

-- `_hostport`.
unfoldable pub hostport : Text → ℕ → Text
unfolding show_nat
hostport host port =
    if any (λ c. c == 58) host
    then codes "[" ++ (host ++ (codes "]:" ++ show_nat port))
    else host ++ (codes ":" ++ show_nat port)

pub record Forward : Type 0 where
  pub target : HaTarget
  pub listening : List Text
  pub writers : List ℕ
  pub connections_total : ℕ
  pub connections_active : ℕ
  pub last_error : Option Text

abbrev pub new_forward : HaTarget → Forward
new_forward to = record {
  target = to;
  listening = [];
  writers = [];
  connections_total = 0;
  connections_active = 0;
  last_error = none;
}

-- One address: `start_server` gives the reason of an `OSError`, or `none` where the server is there.
unfoldable pub listen_one : (Text → Option Text) → Text → Forward → Forward
unfolding hostport
listen_one start_server addr fwd =
    let at = hostport addr fwd.target.port in
    elim (start_server addr) [
      | none ↦ record fwd { listening = fwd.listening ++ at ∷ [] }
      | some reason ↦ record fwd {
        last_error = some (codes "listen " ++ (at ++ (codes ": " ++ reason)));
      }
    ]

unfoldable pub listen_all : (Text → Option Text) → List Text → Forward → Forward
unfolding listen_one
listen_all start_server [] fwd = fwd
listen_all start_server (addr ∷ addrs) fwd =
    listen_all start_server addrs (listen_one start_server addr fwd)

-- A forward with no address has nothing to listen on.
unfoldable pub note_no_address : List Text → Forward → Forward
note_no_address [] fwd = record fwd { last_error = some (codes "no Address in [Interface]") }
note_no_address (addr ∷ addrs) fwd = fwd

unfoldable pub started : (Text → Option Text) → List Text → HaTarget → Forward
unfolding listen_all note_no_address
started start_server addrs to =
    listen_all start_server addrs (note_no_address addrs (new_forward to))

-- `_forwards`.
abbrev pub Forwards : Type 0
Forwards = List (Text × Forward)

unfoldable pub get_forward : Text → Forwards → Option Forward
get_forward tunnel [] = none
get_forward tunnel ((t, fwd) ∷ rest) =
    let later = get_forward tunnel rest in if eq_text t tunnel then some fwd else later

-- `stop`: the forward leaves the registry.
unfoldable pub stop : Text → Forwards → Forwards
stop tunnel [] = []
stop tunnel ((t, fwd) ∷ rest) =
    let later = stop tunnel rest in if eq_text t tunnel then later else (t, fwd) ∷ later

-- `start`.
unfoldable pub start :
    (Text → Option Text) → (Text → Option Text) → HaTarget → Text → Text → Forwards → Forwards
unfolding stop started tunnel_addresses
start ip_of start_server to tunnel conf_text forwards =
    (tunnel, started start_server (tunnel_addresses ip_of conf_text) to) ∷ stop tunnel forwards

pub record ForwardStatus : Type 0 where
  pub running : Bool
  pub at : List Text
  pub forwarded_to : Text
  pub total : ℕ
  pub active : ℕ
  pub error : Option Text

unfoldable pub is_empty : List Text → Bool
is_empty [] = true
is_empty (a ∷ rest) = false

-- `status`; `none` is the answer that nothing runs.
unfoldable pub status_of : Option Forward → Option ForwardStatus
unfolding hostport is_empty
status_of none = none
status_of (some fwd) = some (record {
  running = not (is_empty fwd.listening);
  at = fwd.listening;
  forwarded_to = hostport fwd.target.host fwd.target.port;
  total = fwd.connections_total;
  active = fwd.connections_active;
  error = fwd.last_error;
})

unfoldable pub status : Text → Forwards → Option ForwardStatus
unfolding status_of get_forward
status tunnel forwards = status_of (get_forward tunnel forwards)

-- A task in `_handle`: it waits for the connection to Home Assistant, it copies both ways, or its
-- `finally` block waits until a writer is closed, with the writers that are to be closed behind it.
pub data Handler : Type 0 where
  connecting : ℕ → Handler
  piping : ℕ → ℕ → Handler
  closing : List ℕ → Handler

-- The forward with the tasks that are in `_handle`, oldest first, and the writers that no task will
-- close any more, since their task was cancelled in its `finally` block.
pub record Session : Type 0 where
  pub forward : Forward
  pub handlers : List Handler
  pub cut_off : List ℕ

abbrev pub new_session : HaTarget → Session
new_session to = record { forward = new_forward to; handlers = []; cut_off = [] }

-- What happens next: a client with its writer; at the task of a number, a connection with its writer,
-- a refusal with its reason, the end of its `try` block, by whatever exception, the end of a wait in
-- its `finally` block, by whatever `Exception`, or a `CancelledError` in that wait.
pub data Event : Type 0 where
  accepted : ℕ → Event
  connected : ℕ → ℕ → Event
  refused : ℕ → Text → Event
  ended closed cancelled : ℕ → Event

unfoldable pub discard : ℕ → List ℕ → List ℕ
discard w [] = []
discard w (v ∷ writers) = let rest = discard w writers in if v == w then rest else v ∷ rest

-- The writers that a task has still to close.
unfoldable pub writers_of : Handler → List ℕ
writers_of (connecting client) = client ∷ []
writers_of (piping client upstream) = client ∷ upstream ∷ []
writers_of (closing writers) = writers

unfoldable pub handler_at : ℕ → List Handler → Option Handler
handler_at i [] = none
handler_at zero (h ∷ hs) = some h
handler_at (suc i) (h ∷ hs) = handler_at i hs

unfoldable pub remove_handler : ℕ → List Handler → List Handler
remove_handler i [] = []
remove_handler zero (h ∷ hs) = hs
remove_handler (suc i) (h ∷ hs) = h ∷ remove_handler i hs

unfoldable pub set_handler : ℕ → Handler → List Handler → List Handler
set_handler i new [] = []
set_handler zero new (h ∷ hs) = new ∷ hs
set_handler (suc i) new (h ∷ hs) = h ∷ set_handler i new hs

-- The loop of the `finally` block, up to its next wait; without a writer the task is over.
unfoldable pub close_next : ℕ → List ℕ → Session → Session
unfolding discard remove_handler set_handler
close_next i [] s = record s { handlers = remove_handler i s.handlers }
close_next i (w ∷ writers) s = record s {
  forward = record (s.forward) { writers = discard w s.forward.writers };
  handlers = set_handler i (closing writers) s.handlers;
}

-- The `finally` block, up to its first wait.
unfoldable pub finally : ℕ → List ℕ → Session → Session
unfolding close_next
finally i writers s = close_next i writers (record s {
  forward = record (s.forward) { connections_active = s.forward.connections_active - 1 };
})

-- The `try` block is left.
unfoldable pub end_task : ℕ → Option Handler → Session → Session
unfolding finally writers_of
end_task i (some (connecting client)) s = finally i (writers_of (connecting client)) s
end_task i (some (piping client upstream)) s = finally i (writers_of (piping client upstream)) s
end_task i _ s = s

-- The connection to Home Assistant is there.
unfoldable pub connect_task : ℕ → ℕ → Option Handler → Session → Session
unfolding set_handler
connect_task i upstream (some (connecting client)) s = record s {
  forward = record (s.forward) { writers = upstream ∷ s.forward.writers };
  handlers = set_handler i (piping client upstream) s.handlers;
}
connect_task i upstream _ s = s

-- A refusal leaves the `try` block of a task that waits for the connection.
unfoldable pub refuse_task : ℕ → Text → Option Handler → Session → Session
unfolding finally writers_of hostport
refuse_task i reason (some (connecting client)) s =
    let to = s.forward.target in
    let error = codes "connect " ++ (hostport to.host to.port ++ (codes ": " ++ reason)) in
    finally i (writers_of (connecting client))
      (record s { forward = record (s.forward) { last_error = some error } })
refuse_task i reason _ s = s

-- A wait in the `finally` block is over.
unfoldable pub close_task : ℕ → Option Handler → Session → Session
unfolding close_next
close_task i (some (closing writers)) s = close_next i writers s
close_task i _ s = s

-- A `CancelledError` is no `Exception`, and ends the `finally` block.
unfoldable pub cancel_task : ℕ → Option Handler → Session → Session
unfolding remove_handler
cancel_task i (some (closing writers)) s = record s {
  handlers = remove_handler i s.handlers;
  cut_off = writers ++ s.cut_off;
}
cancel_task i _ s = s

unfoldable pub step : Event → Session → Session
unfolding connect_task refuse_task end_task close_task cancel_task handler_at
step (accepted client) s = record s {
  forward = record (s.forward) {
    connections_total = s.forward.connections_total + 1;
    connections_active = s.forward.connections_active + 1;
    writers = client ∷ s.forward.writers;
  };
  handlers = s.handlers ++ connecting client ∷ [];
}
step (connected i upstream) s = connect_task i upstream (handler_at i s.handlers) s
step (refused i reason) s = refuse_task i reason (handler_at i s.handlers) s
step (ended i) s = end_task i (handler_at i s.handlers) s
step (closed i) s = close_task i (handler_at i s.handlers) s
step (cancelled i) s = cancel_task i (handler_at i s.handlers) s

-- Any interleaving of the tasks.
unfoldable pub run_events : List Event → Session → Session
unfolding step
run_events [] s = s
run_events (e ∷ events) s = run_events events (step e s)
