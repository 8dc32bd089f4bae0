-- ===== src/Forward/Listening.antt =====
-- The listeners of a forward and their report (src/companion/ha_forward.py).
use hactl_companion.Base.{
  ◌≡◌, ◌∙◌, refl, sym, ap, Bool, true, false, not, ◌&&◌, ◌||◌, Option, none, some, List, [], ◌∷◌,
  ◌++◌, arith, Text, eq_text, eq_text_iff, eq_text_refl, any, Bool-cases, inl, inr, if◌then◌else◌,
}
use hactl_companion.Forward.{
  HaTarget, Forward, new_forward, listen_one, listen_all, note_no_address, started, Forwards,
  get_forward, stop, start, ForwardStatus, is_empty, status_of, status, tunnel_addresses, hostport,
}

-- Whether the address can be listened on.
abbrev pub is_free : (Text → Option Text) → Text → Bool
is_free start_server addr = elim (start_server addr) [ none ↦ true | some _ ↦ false ]

-- Something listens, or there is an error.
abbrev explained : Forward → Bool
explained fwd = not (is_empty fwd.listening) || elim fwd.last_error [ none ↦ false | some _ ↦ true ]

append-not_empty : (at : Text) (listening : List Text) → is_empty (listening ++ at ∷ []) ≡ false
unfolding is_empty
append-not_empty at [] = refl
append-not_empty at (a ∷ listening) = refl

listen_one-listening :
    (start_server : Text → Option Text) (addr : Text) (fwd : Forward)
    → is_empty (listen_one start_server addr fwd).listening
      ≡ (is_empty fwd.listening && not (is_free start_server addr))
unfolding listen_one
listen_one-listening start_server addr fwd =
    ground (arith, append-not_empty (hostport addr fwd.target.port) fwd.listening)

listen_one-explained :
    (start_server : Text → Option Text) (addr : Text) (fwd : Forward)
    → explained (listen_one start_server addr fwd) ≡ true
unfolding listen_one
listen_one-explained start_server addr fwd =
    ground (arith, append-not_empty (hostport addr fwd.target.port) fwd.listening)

listen_all-listening :
    (start_server : Text → Option Text) (addrs : List Text) (fwd : Forward)
    → is_empty (listen_all start_server addrs fwd).listening
      ≡ (is_empty fwd.listening && not (any (is_free start_server) addrs))
unfolding listen_all
listen_all-listening start_server [] fwd = ground arith
listen_all-listening start_server (addr ∷ addrs) fwd = ground (
  arith,
  listen_all-listening start_server addrs (listen_one start_server addr fwd),
  listen_one-listening start_server addr fwd,
)

listen_all-explained :
    (start_server : Text → Option Text) (addrs : List Text) (fwd : Forward)
    → explained fwd ≡ true
    → explained (listen_all start_server addrs fwd) ≡ true
unfolding listen_all
listen_all-explained start_server [] fwd h = h
listen_all-explained start_server (addr ∷ addrs) fwd h =
    listen_all-explained start_server addrs (listen_one start_server addr fwd)
      (listen_one-explained start_server addr fwd)

started-explained :
    (start_server : Text → Option Text) (addrs : List Text) (to : HaTarget)
    → explained (started start_server addrs to) ≡ true
unfolding started note_no_address
started-explained start_server [] to = unfold listen_all is_empty in refl
started-explained start_server (addr ∷ addrs) to =
    unfold listen_all in
    listen_all-explained start_server addrs (listen_one start_server addr (new_forward to))
      (listen_one-explained start_server addr (new_forward to))

started-listening :
    (start_server : Text → Option Text) (addrs : List Text) (to : HaTarget)
    → not (is_empty (started start_server addrs to).listening) ≡ any (is_free start_server) addrs
unfolding started note_no_address is_empty
started-listening start_server [] to = unfold listen_all in refl
started-listening start_server (addr ∷ addrs) to =
    ground (arith, listen_all-listening start_server (addr ∷ addrs) (new_forward to))

get_forward-stop :
    (t tunnel : Text) (forwards : Forwards)
    → get_forward t (stop tunnel forwards)
      ≡ (if eq_text tunnel t then none else get_forward t forwards)
unfolding get_forward stop
get_forward-stop t tunnel [] = ground arith
get_forward-stop t tunnel ((u, fwd) ∷ forwards) = ground (
  arith,
  get_forward-stop t tunnel forwards,
  eq_text_iff u tunnel,
  eq_text_iff u t,
  eq_text_iff tunnel t,
)

-- Whether a report has an error.
abbrev pub has_error : Option Text → Bool
has_error none = false
has_error (some e) = true

get_forward-start :
    (ip_of start_server : Text → Option Text) (to : HaTarget) (tunnel conf_text t : Text)
    (forwards : Forwards)
    → get_forward t (start ip_of start_server to tunnel conf_text forwards) ≡ (
        if eq_text tunnel t
        then some (started start_server (tunnel_addresses ip_of conf_text) to)
        else get_forward t forwards)
unfolding start get_forward
get_forward-start ip_of start_server to tunnel conf_text t forwards =
    ground (arith, get_forward-stop t tunnel forwards)

get_forward-start_same :
    (ip_of start_server : Text → Option Text) (to : HaTarget) (tunnel conf_text : Text)
    (forwards : Forwards)
    → get_forward tunnel (start ip_of start_server to tunnel conf_text forwards)
      ≡ some (started start_server (tunnel_addresses ip_of conf_text) to)
get_forward-start_same ip_of start_server to tunnel conf_text forwards =
    get_forward-start ip_of start_server to tunnel conf_text tunnel forwards
    ∙ ground (arith, eq_text_refl tunnel)

get_forward-start_other :
    (ip_of start_server : Text → Option Text) (to : HaTarget) (tunnel conf_text t : Text)
    (forwards : Forwards)
    → eq_text tunnel t ≡ false
    → get_forward t (start ip_of start_server to tunnel conf_text forwards) ≡ get_forward t forwards
get_forward-start_other ip_of start_server to tunnel conf_text t forwards e =
    get_forward-start ip_of start_server to tunnel conf_text t forwards ∙ ground (arith, e)

status_of-report :
    (fwd : Forward)
    → explained fwd ≡ true
    → (report : ForwardStatus) × (status_of (some fwd) ≡ some report)
      × (report.running ≡ not (is_empty fwd.listening))
      × ((report.running || has_error report.error) ≡ true)
unfolding status_of
status_of-report fwd h = (_, refl, refl, ground (arith, h))

-- After `start`, the tunnel's report says that the forward runs exactly if one of the addresses of the
-- configuration can be listened on, and where it does not run it says why; the reports of the other
-- tunnels are as they were, whatever ran before.
pub status-start :
    (ip_of start_server : Text → Option Text) (to : HaTarget) (tunnel conf_text other : Text)
    (forwards : Forwards)
    → ((report : ForwardStatus) × (status tunnel
            (start ip_of start_server to tunnel conf_text forwards)
          ≡ some report)
        × (report.running ≡ any (is_free start_server) (tunnel_addresses ip_of conf_text))
        × ((report.running || has_error report.error) ≡ true))
      × (status other (start ip_of start_server to tunnel conf_text forwards) ≡ (
          if eq_text tunnel other
          then status tunnel (start ip_of start_server to tunnel conf_text forwards)
          else status other forwards))
unfolding status
status-start ip_of start_server to tunnel conf_text other forwards =
    let fwd = started start_server (tunnel_addresses ip_of conf_text) to in
    let (report, made, runs, says) =
      status_of-report fwd (started-explained start_server (tunnel_addresses ip_of conf_text) to) in
    (
      (
        report,
        ap status_of (get_forward-start_same ip_of start_server to tunnel conf_text forwards)
            ∙ made,
        runs ∙ started-listening start_server (tunnel_addresses ip_of conf_text) to,
        says,
      ),
      elim (Bool-cases (eq_text tunnel other)) [
        | inl e ↦ rw e (
            ap
              (λ t.
                status_of (get_forward t (start ip_of start_server to tunnel conf_text forwards)))
              (sym ((eq_text_iff tunnel other).0 e)))
        | inr e ↦ rw e (
            ap status_of
              (get_forward-start_other ip_of start_server to tunnel conf_text other forwards e))
      ],
    )
