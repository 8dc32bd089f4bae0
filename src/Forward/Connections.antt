-- ===== src/Forward/Connections.antt =====
-- The connections of a forward (src/companion/ha_forward.py), whatever the order in which its tasks run.
use hactl_companion.Base.{
  ℕ, ◌≤◌, ◌≡◌, ◌∙◌, refl, sym, ◌==◌, ==_iff, Bool, true, false, not, ◌&&◌, ◌||◌, Option, none, some,
  List, [], ◌∷◌, arith, Text, any, all, Bool-cases, inl, inr, ◌⊎◌,
}
use hactl_companion.Backups.Retention.{any-append}
use hactl_companion.Forward.{
  HaTarget, Handler, connecting, piping, closing, Session, new_session, Event, accepted, connected,
  refused, ended, closed, cancelled, discard, writers_of, close_next, finally, handler_at,
  set_handler, end_task, connect_task, refuse_task, close_task, cancel_task, step, run_events,
}
use hactl_companion.Forward.Tasks.{
  mem_writer, is_owned, count_open, is_accounted, mem-discard, count_open-append,
  count_open-remove_handler, count_open-set_handler, is_owned-remove_handler, is_owned-set_handler,
  is_owned-at, rest_kept,
}

record IsSound (s : Session) : Type 0 where
  counted : s.forward.connections_active ≡ count_open s.handlers
  bounded : s.forward.connections_active ≤ s.forward.connections_total
  owned : (w : ℕ) → mem_writer w s.forward.writers ≡ true → is_accounted s w ≡ true

-- Once one writer of a task is closed, with the others left to the task.
accounted_after :
    (i w : ℕ) (ws : List ℕ) (old : Handler) (s : Session)
    → handler_at i s.handlers ≡ some old
    → writers_of old ≡ w ∷ ws
    → IsSound s
    → (v : ℕ) → mem_writer v (discard w s.forward.writers) ≡ true
    → (is_owned (set_handler i (closing ws) s.handlers) v || mem_writer v s.cut_off) ≡ true
accounted_after i w ws old s e own inv v m =
    let both : (mem_writer v s.forward.writers && not (w == v)) ≡ true =
      sym (mem-discard v w s.forward.writers) ∙ m in
    elim (Bool-cases (is_owned s.handlers v)) [
      | inr other ↦ ground (arith, other, inv.owned v (ground (arith, both)))
      | inl o ↦
          let kept =
            is_owned-set_handler i v old (closing ws) s.handlers e
              (rest_kept v w ws old own (ground (arith, both))) o in
          ground (arith, kept)
    ]

finally-IsSound :
    (i w : ℕ) (ws : List ℕ) (old : Handler) (s : Session)
    → handler_at i s.handlers ≡ some old
    → count_open (old ∷ []) ≡ 1
    → writers_of old ≡ w ∷ ws
    → IsSound s
    → IsSound (finally i (w ∷ ws) s)
unfolding finally close_next count_open
finally-IsSound i w ws old s e is_open own inv = record {
  counted =
      omega (arith, inv.counted, is_open, count_open-set_handler i old (closing ws) s.handlers e);
  bounded = omega (arith, inv.bounded);
  owned = accounted_after i w ws old s e own inv;
}

end_task-IsSound :
    (i : ℕ) (o : Option Handler) (s : Session)
    → handler_at i s.handlers ≡ o
    → IsSound s
    → IsSound (end_task i o s)
unfolding end_task writers_of count_open
end_task-IsSound i none s e inv = inv
end_task-IsSound i (some (connecting client)) s e inv =
    finally-IsSound i client [] (connecting client) s e refl refl inv
end_task-IsSound i (some (piping client upstream)) s e inv =
    finally-IsSound i client (upstream ∷ []) (piping client upstream) s e refl refl inv
end_task-IsSound i (some (closing ws)) s e inv = inv

refuse_task-IsSound :
    (i : ℕ) (reason : Text) (o : Option Handler) (s : Session)
    → handler_at i s.handlers ≡ o
    → IsSound s
    → IsSound (refuse_task i reason o s)
unfolding refuse_task writers_of count_open
refuse_task-IsSound i reason none s e inv = inv
refuse_task-IsSound i reason (some (piping client other)) s e inv = inv
refuse_task-IsSound i reason (some (closing ws)) s e inv = inv
refuse_task-IsSound i reason (some (connecting client)) s e inv =
    finally-IsSound i client [] (connecting client) _ e refl refl
      (record { counted = inv.counted; bounded = inv.bounded; owned = inv.owned })

client_kept :
    (w client upstream : ℕ)
    → mem_writer w (writers_of (connecting client)) ≡ true
    → mem_writer w (writers_of (piping client upstream)) ≡ true
unfolding writers_of
client_kept w client upstream h = ground (arith, h)

connect_task-IsSound :
    (i upstream : ℕ) (o : Option Handler) (s : Session)
    → handler_at i s.handlers ≡ o
    → IsSound s
    → IsSound (connect_task i upstream o s)
unfolding connect_task count_open
connect_task-IsSound i upstream none s e inv = inv
connect_task-IsSound i upstream (some (piping client other)) s e inv = inv
connect_task-IsSound i upstream (some (closing ws)) s e inv = inv
connect_task-IsSound i upstream (some (connecting client)) s e inv = record {
  counted = omega (
    arith,
    inv.counted,
    count_open-set_handler i (connecting client) (piping client upstream) s.handlers e,
  );
  bounded = inv.bounded;
  owned = λ w m. elim (Bool-cases (upstream == w)) [
    | inl e' ↦
        let mine =
          is_owned-at i w (piping client upstream) (connecting client) s.handlers e
            (unfold writers_of in ground (arith, e')) in
        ground (arith, mine)
    | inr other ↦ elim (Bool-cases (is_owned s.handlers w)) [
      | inr not_owned ↦ ground (arith, not_owned, inv.owned w (ground (arith, m, other)))
      | inl o ↦
          let kept =
            is_owned-set_handler i w (connecting client) (piping client upstream) s.handlers e
              (client_kept w client upstream) o in
          ground (arith, kept)
    ]
  ];
}

close_task-IsSound :
    (i : ℕ) (o : Option Handler) (s : Session)
    → handler_at i s.handlers ≡ o
    → IsSound s
    → IsSound (close_task i o s)
unfolding close_task close_next count_open
close_task-IsSound i none s e inv = inv
close_task-IsSound i (some (connecting client)) s e inv = inv
close_task-IsSound i (some (piping client upstream)) s e inv = inv
close_task-IsSound i (some (closing (w ∷ ws))) s e inv = record {
  counted =
      omega
        (arith, inv.counted, count_open-set_handler i (closing (w ∷ ws)) (closing ws) s.handlers e);
  bounded = inv.bounded;
  owned = accounted_after i w ws (closing (w ∷ ws)) s e (unfold writers_of in refl) inv;
}
close_task-IsSound i (some (closing [])) s e inv = record {
  counted = inv.counted ∙ sym (count_open-remove_handler i s.handlers [] e);
  bounded = inv.bounded;
  owned = λ w m. elim (Bool-cases (is_owned s.handlers w)) [
    | inr other ↦ ground (arith, other, inv.owned w m)
    | inl o ↦
        let kept =
          is_owned-remove_handler i w s.handlers (closing []) e (unfold writers_of in refl) o in
        ground (arith, kept)
  ];
}

cancel_task-IsSound :
    (i : ℕ) (o : Option Handler) (s : Session)
    → handler_at i s.handlers ≡ o
    → IsSound s
    → IsSound (cancel_task i o s)
unfolding cancel_task
cancel_task-IsSound i none s e inv = inv
cancel_task-IsSound i (some (connecting client)) s e inv = inv
cancel_task-IsSound i (some (piping client upstream)) s e inv = inv
cancel_task-IsSound i (some (closing ws)) s e inv = record {
  counted = inv.counted ∙ sym (count_open-remove_handler i s.handlers ws e);
  bounded = inv.bounded;
  owned = λ w m. elim (Bool-cases (mem_writer w ws)) [
    | inl cut ↦ ground (arith, cut, any-append (λ v. v == w) ws s.cut_off)
    | inr uncut ↦ elim (Bool-cases (is_owned s.handlers w)) [
      | inr other ↦ ground (arith, other, inv.owned w m, any-append (λ v. v == w) ws s.cut_off)
      | inl o ↦
          let kept =
            is_owned-remove_handler i w s.handlers (closing ws) e (unfold writers_of in uncut) o in
          ground (arith, kept)
    ]
  ];
}

step-IsSound : (e : Event) (s : Session) → IsSound s → IsSound (step e s)
unfolding step
step-IsSound (accepted client) s inv = record {
  counted = omega (arith, inv.counted, count_open-append s.handlers client);
  bounded = omega (arith, inv.bounded);
  owned = λ w m.
      unfold writers_of in
      ground (
        arith,
        any-append (λ h. mem_writer w (writers_of h)) s.handlers (connecting client ∷ []),
        m,
        inv.owned w,
      );
}
step-IsSound (connected i upstream) s inv =
    connect_task-IsSound i upstream (handler_at i s.handlers) s refl inv
step-IsSound (refused i reason) s inv =
    refuse_task-IsSound i reason (handler_at i s.handlers) s refl inv
step-IsSound (ended i) s inv = end_task-IsSound i (handler_at i s.handlers) s refl inv
step-IsSound (closed i) s inv = close_task-IsSound i (handler_at i s.handlers) s refl inv
step-IsSound (cancelled i) s inv = cancel_task-IsSound i (handler_at i s.handlers) s refl inv

run_events-IsSound : (events : List Event) (s : Session) → IsSound s → IsSound (run_events events s)
unfolding run_events
run_events-IsSound [] s inv = inv
run_events-IsSound (e ∷ events) s inv = run_events-IsSound events (step e s) (step-IsSound e s inv)

pub is_cancelled : Event → Bool
is_cancelled (accepted client) = false
is_cancelled (connected i upstream) = false
is_cancelled (refused i reason) = false
is_cancelled (ended i) = false
is_cancelled (closed i) = false
is_cancelled (cancelled i) = true

close_next-cut_off : (i : ℕ) (ws : List ℕ) (s : Session) → (close_next i ws s).cut_off ≡ s.cut_off
unfolding close_next
close_next-cut_off i [] s = refl
close_next-cut_off i (w ∷ ws) s = refl

connect_task-cut_off :
    (i upstream : ℕ) (o : Option Handler) (s : Session)
    → (connect_task i upstream o s).cut_off ≡ s.cut_off
unfolding connect_task
connect_task-cut_off i upstream none s = refl
connect_task-cut_off i upstream (some (connecting c)) s = refl
connect_task-cut_off i upstream (some (piping c u)) s = refl
connect_task-cut_off i upstream (some (closing ws)) s = refl

refuse_task-cut_off :
    (i : ℕ) (reason : Text) (o : Option Handler) (s : Session)
    → (refuse_task i reason o s).cut_off ≡ s.cut_off
unfolding refuse_task finally close_next writers_of
refuse_task-cut_off i reason none s = refl
refuse_task-cut_off i reason (some (connecting c)) s = refl
refuse_task-cut_off i reason (some (piping c u)) s = refl
refuse_task-cut_off i reason (some (closing ws)) s = refl

end_task-cut_off : (i : ℕ) (o : Option Handler) (s : Session) → (end_task i o s).cut_off ≡ s.cut_off
unfolding end_task finally close_next writers_of
end_task-cut_off i none s = refl
end_task-cut_off i (some (connecting c)) s = refl
end_task-cut_off i (some (piping c u)) s = refl
end_task-cut_off i (some (closing ws)) s = refl

close_task-cut_off :
    (i : ℕ) (o : Option Handler) (s : Session) → (close_task i o s).cut_off ≡ s.cut_off
unfolding close_task
close_task-cut_off i none s = refl
close_task-cut_off i (some (connecting c)) s = refl
close_task-cut_off i (some (piping c u)) s = refl
close_task-cut_off i (some (closing ws)) s = close_next-cut_off i ws s

-- Only a cancellation cuts writers off.
step-cut_off : (e : Event) (s : Session) → is_cancelled e ≡ false → (step e s).cut_off ≡ s.cut_off
unfolding step is_cancelled
step-cut_off (accepted client) s h = refl
step-cut_off (connected i upstream) s h =
    connect_task-cut_off i upstream (handler_at i s.handlers) s
step-cut_off (refused i reason) s h = refuse_task-cut_off i reason (handler_at i s.handlers) s
step-cut_off (ended i) s h = end_task-cut_off i (handler_at i s.handlers) s
step-cut_off (closed i) s h = close_task-cut_off i (handler_at i s.handlers) s
step-cut_off (cancelled i) s h = absurd (cc h)

run_events-cut_off :
    (events : List Event) (s : Session)
    → any is_cancelled events ≡ false
    → (run_events events s).cut_off ≡ s.cut_off
unfolding run_events
run_events-cut_off [] s h = refl
run_events-cut_off (e ∷ events) s h =
    run_events-cut_off events (step e s) (ground (arith, h)) ∙ step-cut_off e s (ground (arith, h))

all-owned :
    (owner : ℕ → Bool) (writers : List ℕ)
    → ((w : ℕ) → mem_writer w writers ≡ true → owner w ≡ true)
    → all owner writers ≡ true
all-owned owner [] each = refl
all-owned owner (w ∷ writers) each = ground (
  arith,
  each w (ground (arith, (==_iff w w).1 refl)),
  all-owned owner writers (λ v m. each v (ground (arith, m))),
)

-- However the connections of a new forward interleave, and wherever their `finally` blocks wait, the
-- number of active connections is that of the tasks that are not in their `finally` block, it never
-- exceeds the total, and every writer that is still held is one that a task will close or one that was
-- cut off, when its task was cancelled as it waited for another writer to close; without such a
-- cancellation none is cut off.
pub run_events-accounts :
    (to : HaTarget) (events : List Event)
    → (let s = run_events events (new_session to) in
        (s.forward.connections_active ≡ count_open s.handlers)
        × (s.forward.connections_active ≤ s.forward.connections_total)
        × (all (is_accounted s) s.forward.writers ≡ true)
        × ((s.cut_off ≡ []) ⊎ (any is_cancelled events ≡ true)))
run_events-accounts to events =
    let s : Session = run_events events (new_session to) in
    let inv : IsSound s = run_events-IsSound events (new_session to) (record {
      counted = unfold count_open in refl;
      bounded = omega arith;
      owned = λ w m. absurd (cc m);
    }) in
    (
      inv.counted,
      inv.bounded,
      all-owned (is_accounted s) s.forward.writers inv.owned,
      elim (Bool-cases (any is_cancelled events)) [
        | inl some_cut ↦ inr some_cut
        | inr none_cut ↦ inl (run_events-cut_off events (new_session to) none_cut)
      ],
    )
