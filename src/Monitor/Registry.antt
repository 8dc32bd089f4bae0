-- ===== src/Monitor/Registry.antt =====
-- The registry of src/companion/wg_monitor.py: `start_monitor` and `stop_monitor`. A task is a number
-- that no earlier task has; the peers are those that `_parse_hostname_peers` of src/companion/wg.py
-- finds in the configuration.
use hactl_companion.Base.{
  ℕ, suc, ◌<◌, ◌≡◌, refl, sym, Bool, true, false, Option, none, some, List, [], ◌∷◌, arith, Text,
  eq_text, eq_text_iff, eq_text_refl, ◌⊎◌, inl, inr, Bool-cases, ◌==◌, any, if◌then◌else◌,
  Option-cases, subst, ◌∙◌,
}
use hactl_companion.Monitor.{PeerEndpoint}

-- `_monitors`, with the task of each tunnel, the tasks that were cancelled, and the number of the next.
pub record Monitors : Type 0 where
  pub running : List (Text × ℕ)
  pub cancelled : List ℕ
  pub next_task : ℕ

-- `_monitors.get(tunnel)`, and the registry without the tunnel, as `pop` leaves it.
pub task_of : Text → List (Text × ℕ) → Option ℕ
task_of tunnel [] = none
task_of tunnel ((t, n) ∷ rest) =
    let later = task_of tunnel rest in if eq_text t tunnel then some n else later

pub without : Text → List (Text × ℕ) → List (Text × ℕ)
without tunnel [] = []
without tunnel ((t, n) ∷ rest) =
    let later = without tunnel rest in if eq_text t tunnel then later else (t, n) ∷ later

cancel : Option ℕ → Monitors → Monitors
cancel none m = m
cancel (some n) m = record m { cancelled = n ∷ m.cancelled }

pub stop_monitor : Text → Monitors → Monitors
unfolding task_of without cancel
stop_monitor tunnel m =
    cancel (task_of tunnel m.running) (record m { running = without tunnel m.running })

pub start_monitor : Text → List PeerEndpoint → Monitors → Monitors
unfolding stop_monitor
start_monitor tunnel [] m = m
start_monitor tunnel (p ∷ peers) m =
    let stopped = stop_monitor tunnel m in
    record stopped {
      running = (tunnel, stopped.next_task) ∷ stopped.running;
      next_task = suc stopped.next_task;
    }

abbrev pub is_cancelled : ℕ → Monitors → Bool
is_cancelled n m = any (λ k. k == n) m.cancelled

-- Every task ever made is either the one of its tunnel in the registry, or cancelled.
abbrev pub IsAccounted : Monitors → Type 0
IsAccounted m =
    (n : ℕ)
    → n < m.next_task
    → (is_cancelled n m ≡ true) ⊎ ((tunnel : Text) × (task_of tunnel m.running ≡ some n))

task_of-without :
    (tunnel t : Text) (rest : List (Text × ℕ))
    → task_of t (without tunnel rest) ≡ (if eq_text tunnel t then none else task_of t rest)
unfolding task_of without
task_of-without tunnel t [] = ground arith
task_of-without tunnel t ((u, n) ∷ rest) = ground (
  arith,
  task_of-without tunnel t rest,
  eq_text_iff u tunnel,
  eq_text_iff u t,
  eq_text_iff tunnel t,
)

stopped-eq :
    (tunnel : Text) (m : Monitors)
    → ((stop_monitor tunnel m).next_task ≡ m.next_task)
      × ((stop_monitor tunnel m).running ≡ without tunnel m.running)
unfolding stop_monitor cancel
stopped-eq tunnel m = elim (Option-cases (task_of tunnel m.running)) [
  | inl e ↦ rw e (refl, refl)
  | inr (k, e) ↦ rw e (refl, refl)
]

stopped-keeps :
    (tunnel : Text) (m : Monitors) (n : ℕ)
    → is_cancelled n m ≡ true
    → is_cancelled n (stop_monitor tunnel m) ≡ true
unfolding stop_monitor cancel
stopped-keeps tunnel m n h = elim (Option-cases (task_of tunnel m.running)) [
  | inl e ↦ rw e h
  | inr (k, e) ↦ rw e (ground (arith, h))
]

stopped-cancels :
    (tunnel : Text) (m : Monitors) (n : ℕ)
    → task_of tunnel m.running ≡ some n
    → is_cancelled n (stop_monitor tunnel m) ≡ true
unfolding stop_monitor cancel
stopped-cancels tunnel m n h = rw h (ground arith)

stop_monitor-IsAccounted :
    (tunnel : Text) (m : Monitors) → IsAccounted m → IsAccounted (stop_monitor tunnel m)
stop_monitor-IsAccounted tunnel m acc n lt =
    let (same, rest) = stopped-eq tunnel m in
    elim (acc n (rw same at lt)) [
      | inl c ↦ inl (stopped-keeps tunnel m n c)
      | inr (t, e) ↦ elim (Bool-cases (eq_text tunnel t)) [
        | inl here ↦ inl (
            stopped-cancels tunnel m n
              (subst (λ u. task_of u m.running ≡ some n) (sym ((eq_text_iff tunnel t).0 here)) e))
        | inr other ↦ inr (t, rw (rest, task_of-without, other) e)
      ]
    ]

-- A task that is there once a tunnel's monitor was stopped and a new one made.
apart :
    (tunnel t : Text) (m : Monitors) (n : ℕ)
    → task_of t (stop_monitor tunnel m).running ≡ some n
    → eq_text tunnel t ≡ false
apart tunnel t m n f =
    let g : (if eq_text tunnel t then none else task_of t m.running) ≡ some n =
      sym (task_of-without tunnel t m.running)
      ∙ subst (λ l. task_of t l ≡ some n) (stopped-eq tunnel m).1 f in
    ground (arith, g)

restarted :
    (tunnel : Text) (m : Monitors) (n : ℕ)
    → IsAccounted (stop_monitor tunnel m)
    → n < suc (stop_monitor tunnel m).next_task
    → (is_cancelled n (stop_monitor tunnel m) ≡ true)
      ⊎ ((t : Text) × (task_of t
              ((tunnel, (stop_monitor tunnel m).next_task) ∷ (stop_monitor tunnel m).running)
            ≡ some n))
unfolding task_of
restarted tunnel m n acc lt = elim (Bool-cases (n == (stop_monitor tunnel m).next_task)) [
  | inl e ↦ inr (tunnel, rw (eq_text_refl tunnel) (ground (arith, e)))
  | inr e ↦ elim (acc n (ground (arith, e, lt))) [
    | inl c ↦ inl c
    | inr (t, f) ↦ inr (t, rw (apart tunnel t m n f) f)
  ]
]

start_monitor-IsAccounted :
    (tunnel : Text) (peers : List PeerEndpoint) (m : Monitors)
    → IsAccounted m
    → IsAccounted (start_monitor tunnel peers m)
unfolding start_monitor
start_monitor-IsAccounted tunnel [] m acc = acc
start_monitor-IsAccounted tunnel (p ∷ peers) m acc =
    λ n lt. restarted tunnel m n (stop_monitor-IsAccounted tunnel m acc) lt

-- The calls of the module, one after the other.
pub data Call : Type 0 where
  start : Text → List PeerEndpoint → Call
  stop : Text → Call

pub run_calls : List Call → Monitors → Monitors
unfolding start_monitor stop_monitor
run_calls [] m = m
run_calls (start tunnel peers ∷ calls) m = run_calls calls (start_monitor tunnel peers m)
run_calls (stop tunnel ∷ calls) m = run_calls calls (stop_monitor tunnel m)

abbrev pub no_monitors : Monitors
no_monitors = record { running = []; cancelled = []; next_task = 0 }

run_calls-kept :
    (calls : List Call) (m : Monitors) → IsAccounted m → IsAccounted (run_calls calls m)
unfolding run_calls
run_calls-kept [] m acc = acc
run_calls-kept (start tunnel peers ∷ calls) m acc =
    run_calls-kept calls (start_monitor tunnel peers m)
      (start_monitor-IsAccounted tunnel peers m acc)
run_calls-kept (stop tunnel ∷ calls) m acc =
    run_calls-kept calls (stop_monitor tunnel m) (stop_monitor-IsAccounted tunnel m acc)

-- No monitor task is lost: after any starts and stops, each task that was ever made is the one that
-- the registry holds for some tunnel, where a stop will find it, or it was cancelled.
pub run_calls-IsAccounted : (calls : List Call) → IsAccounted (run_calls calls no_monitors)
run_calls-IsAccounted calls =
    run_calls-kept calls no_monitors (λ n lt. absurd (let f : n < 0 = lt in omega arith))
