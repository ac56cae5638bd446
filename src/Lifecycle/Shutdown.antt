-- ===== src/Lifecycle/Shutdown.antt =====
-- rapp/lifecycle.py: the order of a shutdown, and the exit code of `_run_once`.
use preceptual_ai_5g_dynamic.Prelude.{
  Bool, Bool-cases, List, [], false, inl, inr, map, refl, subst, true, ℕ, ◌++◌, ◌∷◌, ◌≡◌, ◌⊎◌,
}
use preceptual_ai_5g_dynamic.Prelude.Outcome.{Exn, Outcome, ok, raised}
use preceptual_ai_5g_dynamic.Lifecycle.{
  Deletion, Effect, Lifecycle, Registration, awaits, bad_answer, boot, cancels, close_adapters,
  closes_a1, closes_r1, deregister, deregistering, deregisters, drain, is_acceptable, json_answer,
  mark_degraded, no_answer, pending_tasks, register, RAppState, close_clients, after_deregister,
  any_status, http_error, other_exception, run_once, shutdown, signals_drain, stopped, try_boot,
  waits,
}

abbrev pub In : {A : Type 0} → A → List A → Type 0
In x [] = ⊥
In x (y ∷ ys) = (x ≡ y) ⊎ In x ys

-- whether an effect is on an adapter
abbrev pub on_adapter : Effect → Bool
on_adapter signals_drain = false
on_adapter (waits ts) = false
on_adapter (cancels t) = false
on_adapter (awaits t) = false
on_adapter deregisters = true
on_adapter closes_r1 = true
on_adapter closes_a1 = true

abbrev pub All : Bool → List Effect → Type 0
All b [] = Unit
All b (e ∷ es) = (on_adapter e ≡ b) × All b es

-- The effects fall in two parts: in the first no adapter is touched, and every task is waited for until
-- it ends or is awaited after the wait; in the second only adapters are.
abbrev pub Drained : List ℕ → (in_time : ℕ → Bool) → List Effect → Type 0
Drained tasks in_time effects =
    (before : List Effect) × (after : List Effect) × (effects ≡ before ++ after)
    × All false before
    × All true after
    × ((t : ℕ) → In t tasks → (In (waits tasks) before × (in_time t ≡ true)) ⊎ In (awaits t) before)

In-append-right : {A : Type 0} (x : A) (xs ys : List A) → In x ys → In x (xs ++ ys)
In-append-right x [] ys h = h
In-append-right x (y ∷ xs) ys h = inr (In-append-right x xs ys h)

In-awaits : (t : ℕ) (ts : List ℕ) → In t ts → In (awaits t) (map awaits ts)
In-awaits t (u ∷ ts) (inl e) = inl (rw e refl)
In-awaits t (u ∷ ts) (inr h) = inr (In-awaits t ts h)
In-awaits t [] h = absurd h

pending-In :
    (in_time : ℕ → Bool) (t : ℕ) (ts : List ℕ)
    → In t ts
    → in_time t ≡ false
    → In t (pending_tasks in_time ts)
unfolding pending_tasks
pending-In in_time t [] h late = absurd h
pending-In in_time t (u ∷ ts) (inl e) late =
    let l : in_time u ≡ false = rw (← e) late in rw (pending_tasks, l) (inl e)
pending-In in_time t (u ∷ ts) (inr h) late = elim (Bool-cases (in_time u)) [
  | inl soon ↦ rw (pending_tasks, soon) (pending-In in_time t ts h late)
  | inr slow ↦ rw (pending_tasks, slow) (inr (pending-In in_time t ts h late))
]

All-awaits : (ts : List ℕ) → All false (map awaits ts)
All-awaits [] = tt
All-awaits (t ∷ ts) = (refl, All-awaits ts)

All-cancels : (ts : List ℕ) (es : List Effect) → All false es → All false (map cancels ts ++ es)
All-cancels [] es h = h
All-cancels (t ∷ ts) es h = (refl, All-cancels ts es h)

All-drain : (in_time : ℕ → Bool) (ts : List ℕ) → All false (drain in_time ts)
unfolding drain
All-drain in_time [] = (refl, tt)
All-drain in_time (t ∷ ts) = (
  refl,
  (
    refl,
    All-cancels (pending_tasks in_time (t ∷ ts)) _ (All-awaits (pending_tasks in_time (t ∷ ts))),
  ),
)

drain-In :
    (in_time : ℕ → Bool) (ts : List ℕ) (t : ℕ)
    → In t ts
    → (In (waits ts) (drain in_time ts) × (in_time t ≡ true)) ⊎ In (awaits t) (drain in_time ts)
unfolding drain
drain-In in_time [] t h = absurd h
drain-In in_time (u ∷ ts) t h = elim (Bool-cases (in_time t)) [
  | inl soon ↦ inl (inr (inl refl), soon)
  | inr slow ↦
      let pending = pending_tasks in_time (u ∷ ts) in
      inr (
        inr (
          inr (
            In-append-right (awaits t) (map cancels pending) (map awaits pending)
              (In-awaits t pending (pending-In in_time t (u ∷ ts) h slow)))))
]

-- It ends stopped, or with an exception and the state that was there.
abbrev pub EndsFrom : RAppState → Outcome (Unit {0}) × Lifecycle × List Effect → Type 0
EndsFrom s x =
    ((x.0 ≡ ok tt) × (x.1.state ≡ stopped)) ⊎ ((e : Exn) × (x.0 ≡ raised e) × (x.1.state ≡ s))

close_clients-ends :
    (r1_closed a1_closed : Outcome (Unit {0})) (l : Lifecycle)
    → All true (close_clients r1_closed a1_closed l).2
      × EndsFrom l.state (close_clients r1_closed a1_closed l)
unfolding close_clients
close_clients-ends (raised e) a1_closed l = ((refl, tt), inr (e, refl, refl))
close_clients-ends (ok _) (raised e) l = ((refl, (refl, tt)), inr (e, refl, refl))
close_clients-ends (ok _) (ok _) l = ((refl, (refl, tt)), inl (refl, refl))

after_deregister-ends :
    (d : Outcome (Unit {0}) × Lifecycle) (r1_closed a1_closed : Outcome (Unit {0}))
    → All true (after_deregister d r1_closed a1_closed).2
      × EndsFrom d.1.state (after_deregister d r1_closed a1_closed)
unfolding after_deregister
after_deregister-ends (raised e, l) r1_closed a1_closed = ((refl, tt), inr (e, refl, refl))
after_deregister-ends (ok _, l) r1_closed a1_closed =
    let (touches, ends) = close_clients-ends r1_closed a1_closed l in ((refl, touches), ends)

deregister-state : (deletion : Deletion) (l : Lifecycle) → (deregister deletion l).1.state ≡ l.state
unfolding deregister
deregister-state deletion l = elim (Bool-cases l.registered) [
  | inl there ↦ rw (deregister, there) (deleted deletion)
  | inr gone ↦ rw (deregister, gone) refl
]
  where
    deleted :
        (x : Deletion)
        → (elim x as (λ y. Outcome (Unit {0}) × Lifecycle) [
          | any_status ↦ (ok tt, record l { registered = false })
          | http_error ↦ (ok tt, l)
          | other_exception e ↦ (raised e, l)
        ]).1.state
          ≡ l.state
    deleted any_status = refl
    deleted http_error = refl
    deleted (other_exception e) = refl

-- Whatever the network answers and whichever planner tasks end in time: before `shutdown` touches an
-- adapter, every planner task is waited for and either ends in time or is awaited afterwards. Then it
-- ends in STOPPED, or an exception of an adapter comes out and the state stays DEREGISTERING.
pub shutdown-Drained :
    (in_time : ℕ → Bool) (deletion : Deletion) (r1_closed a1_closed : Outcome (Unit {0}))
    (l : Lifecycle)
    → Drained l.planner_tasks in_time (shutdown in_time deletion r1_closed a1_closed l).2
      × EndsFrom deregistering (shutdown in_time deletion r1_closed a1_closed l)
unfolding shutdown close_adapters
shutdown-Drained in_time deletion r1_closed a1_closed l =
    let drained = record l { state = deregistering; drain_signal = true; planner_tasks = [] } in
    let x = close_adapters deletion r1_closed a1_closed drained in
    let (touches, ends) = after_deregister-ends (deregister deletion drained) r1_closed a1_closed in
    (
      (
        drain in_time l.planner_tasks,
        x.2,
        refl,
        All-drain in_time l.planner_tasks,
        touches,
        drain-In in_time l.planner_tasks,
      ),
      subst (λ (s : RAppState). EndsFrom s x) (deregister-state deletion drained) ends,
    )

boot-acceptable :
    (registration : Registration) (types : Outcome (List ℕ)) (l : Lifecycle)
    → is_acceptable (try_boot registration types l).state ≡ true
unfolding try_boot boot register mark_degraded is_acceptable
boot-acceptable (no_answer e) types l = refl
boot-acceptable bad_answer types l = refl
boot-acceptable json_answer (raised e) l = refl
boot-acceptable json_answer (ok accepted) l = refl

-- `_run_once` always ends: with 0, stopped, or with an exception of the shutdown. Whether the boot
-- fails or not, it never ends with 1.
pub run_once-zero :
    (registration : Registration) (types : Outcome (List ℕ)) (in_time : ℕ → Bool)
    (deletion : Deletion) (r1_closed a1_closed : Outcome (Unit {0})) (l : Lifecycle)
    → (((run_once registration types in_time deletion r1_closed a1_closed l).0 ≡ ok 0)
        × ((run_once registration types in_time deletion r1_closed a1_closed l).1.state ≡ stopped))
      ⊎ ((e : Exn) × ((run_once registration types in_time deletion r1_closed a1_closed l).0
            ≡ raised e)
          × ((run_once registration types in_time deletion r1_closed a1_closed l).1.state
              ≡ deregistering))
unfolding run_once
run_once-zero registration types in_time deletion r1_closed a1_closed l =
    let m = try_boot registration types l in
    elim (shutdown-Drained in_time deletion r1_closed a1_closed m).1 [
      | inl (done, at_end) ↦ inl (
        rw (run_once, done, boot-acceptable registration types l) refl,
        rw (run_once, done) at_end,
      )
      | inr (e, fails, at_end) ↦ inr (e, rw (run_once, fails) refl, rw (run_once, fails) at_end)
    ]
