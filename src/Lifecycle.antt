-- ===== src/Lifecycle.antt =====
-- rapp/lifecycle.py: `HorizonRAppLifecycle`, with the registration of rapp/r1_adapter.py. What the
-- network answers, and which planner tasks end within the drain's deadline, are arguments. The
-- degradation snapshot, the metrics and the health server are left out.
pub mod Shutdown
pub mod Restart
use preceptual_ai_5g_dynamic.Prelude.{
  Bool, List, Option, String, [], false, if◌then◌else◌, none, some, true, ℕ, ◌++◌, ◌==◌, ◌∷◌, map,
  suc, not,
}
use preceptual_ai_5g_dynamic.Prelude.Outcome.{Exn, Outcome, ok, raised, value_error}

pub data RAppState : Type 0 where
  init registering running degraded deregistering stopped : RAppState

-- `policies_emitted` is the counter of the A1 adapter, `registered` the flag of the R1 adapter
pub record Lifecycle : Type 0 where
  pub state : RAppState
  pub registered : Bool
  pub policies_emitted : ℕ
  pub a1_emitted_count : ℕ
  pub last_decision_id : Option String
  pub evidence_chain_head : Option String
  pub planner_tasks : List ℕ
  pub drain_signal : Bool

-- the keys of a checkpoint that a restart reads
pub record Checkpoint : Type 0 where
  pub rapp_state : Option RAppState
  pub emitted_count : Option ℕ
  pub decision_id : Option String
  pub chain_head : Option String

unfoldable pub or_zero : Option ℕ → ℕ
or_zero none = 0
or_zero (some n) = n

-- `_restore_from_disk`, from what `load_state` gives
unfoldable pub restore_from_disk : Option Checkpoint → Lifecycle → Lifecycle
unfolding or_zero
restore_from_disk none l = l
restore_from_disk (some prior) l = record l {
  a1_emitted_count = or_zero prior.emitted_count;
  last_decision_id = prior.decision_id;
  evidence_chain_head = prior.chain_head;
}

-- `__init__`
unfoldable pub new_lifecycle : Option Checkpoint → Lifecycle
unfolding restore_from_disk
new_lifecycle prior = restore_from_disk prior (record {
  state = init;
  registered = false;
  policies_emitted = 0;
  a1_emitted_count = 0;
  last_decision_id = none;
  evidence_chain_head = none;
  planner_tasks = [];
  drain_signal = false;
})

-- `_state_snapshot`
unfoldable pub state_snapshot : Lifecycle → Checkpoint
state_snapshot l = record {
  rapp_state = some l.state;
  emitted_count = some (if l.a1_emitted_count == 0 then l.policies_emitted else l.a1_emitted_count);
  decision_id = l.last_decision_id;
  chain_head = l.evidence_chain_head;
}

-- `set.discard`
unfoldable pub discard : ℕ → List ℕ → List ℕ
discard t [] = []
discard t (u ∷ us) = let rest = discard t us in if u == t then us else u ∷ rest

-- `track_planner_task`, and the callback when the task is done
unfoldable pub track_planner_task : ℕ → Lifecycle → Lifecycle
unfolding discard
track_planner_task t l = record l { planner_tasks = t ∷ discard t l.planner_tasks }

unfoldable pub task_done : ℕ → Lifecycle → Lifecycle
unfolding discard
task_done t l = record l { planner_tasks = discard t l.planner_tasks }

-- how `R1Adapter.register` ends: the answer is JSON or not, or the call raised
pub data Registration : Type 0 where
  json_answer bad_answer : Registration
  no_answer : Exn → Registration

unfoldable pub register : Registration → Lifecycle → Outcome (Unit {0}) × Lifecycle
register json_answer l = (ok tt, record l { registered = true })
register bad_answer l = (raised value_error, record l { registered = true })
register (no_answer e) l = (raised e, l)

-- `boot`, with how the registration and `register_policy_types` end
unfoldable pub boot : Registration → Outcome (List ℕ) → Lifecycle → Outcome (List ℕ) × Lifecycle
unfolding register
boot registration types l =
    let (answer, m) = register registration (record l { state = registering }) in
    elim answer [
      | raised e ↦ (raised e, record m { state = degraded })
      | ok _ ↦ elim types [
        | raised e ↦ (raised e, record m { state = degraded })
        | ok accepted ↦ (ok accepted, record m { state = running })
      ]
    ]

unfoldable pub mark_degraded : Lifecycle → Lifecycle
mark_degraded l = record l { state = degraded }

-- what `shutdown` does, in order
pub data Effect : Type 0 where
  signals_drain deregisters closes_r1 closes_a1 : Effect
  waits : List ℕ → Effect
  cancels awaits : ℕ → Effect

-- how the DELETE of `R1Adapter.deregister` ends
pub data Deletion : Type 0 where
  any_status http_error : Deletion
  other_exception : Exn → Deletion

unfoldable pub deregister : Deletion → Lifecycle → Outcome (Unit {0}) × Lifecycle
deregister deletion l =
    if l.registered
    then elim deletion [
      | any_status ↦ (ok tt, record l { registered = false })
      | http_error ↦ (ok tt, l)
      | other_exception e ↦ (raised e, l)
    ]
    else (ok tt, l)

-- the tasks that are pending when the wait ends
unfoldable pub pending_tasks : (in_time : ℕ → Bool) → List ℕ → List ℕ
pending_tasks in_time [] = []
pending_tasks in_time (t ∷ ts) =
    let rest = pending_tasks in_time ts in if in_time t then rest else t ∷ rest

-- steps 1 to 3 of `shutdown`
unfoldable pub drain : (in_time : ℕ → Bool) → List ℕ → List Effect
unfolding pending_tasks
drain in_time [] = signals_drain ∷ []
drain in_time (t ∷ ts) =
    let pending = pending_tasks in_time (t ∷ ts) in
    signals_drain ∷ waits (t ∷ ts) ∷ map cancels pending ++ map awaits pending

-- the two clients are closed, one after the other
unfoldable pub close_clients :
    (r1_closed a1_closed : Outcome (Unit {0}))
    → Lifecycle
    → Outcome (Unit {0}) × Lifecycle × List Effect
close_clients (raised e) a1_closed l = (raised e, l, closes_r1 ∷ [])
close_clients (ok _) (raised e) l = (raised e, l, closes_r1 ∷ closes_a1 ∷ [])
close_clients (ok _) (ok _) l = (ok tt, record l { state = stopped }, closes_r1 ∷ closes_a1 ∷ [])

unfoldable pub after_deregister :
    Outcome (Unit {0}) × Lifecycle
    → (r1_closed a1_closed : Outcome (Unit {0})) → Outcome (Unit {0}) × Lifecycle × List Effect
unfolding close_clients
after_deregister (raised e, l) r1_closed a1_closed = (raised e, l, deregisters ∷ [])
after_deregister (ok _, l) r1_closed a1_closed =
    let (result, m, effects) = close_clients r1_closed a1_closed l in
    (result, m, deregisters ∷ effects)

-- step 4: the first call that raises ends it
unfoldable pub close_adapters :
    Deletion
    → (r1_closed a1_closed : Outcome (Unit {0})) → Lifecycle
    → Outcome (Unit {0}) × Lifecycle × List Effect
unfolding deregister after_deregister
close_adapters deletion r1_closed a1_closed l =
    after_deregister (deregister deletion l) r1_closed a1_closed

-- `shutdown`: after the drain every task is done
unfoldable pub shutdown :
    (in_time : ℕ → Bool)
    → Deletion
    → (r1_closed a1_closed : Outcome (Unit {0})) → Lifecycle
    → Outcome (Unit {0}) × Lifecycle × List Effect
unfolding drain close_adapters
shutdown in_time deletion r1_closed a1_closed l =
    let drained = record l { state = deregistering; drain_signal = true; planner_tasks = [] } in
    let (result, m, effects) = close_adapters deletion r1_closed a1_closed drained in
    (result, m, drain in_time l.planner_tasks ++ effects)

unfoldable pub is_acceptable : RAppState → Bool
is_acceptable running = true
is_acceptable degraded = true
is_acceptable init = false
is_acceptable registering = false
is_acceptable deregistering = false
is_acceptable stopped = false

-- the lifecycle after the `try` of `_run_once`
unfoldable pub try_boot : Registration → Outcome (List ℕ) → Lifecycle → Lifecycle
unfolding boot mark_degraded
try_boot registration types l =
    let (booted, m) = boot registration types l in
    elim booted [ ok _ ↦ m | raised e ↦ mark_degraded m ]

-- `_run_once`
unfoldable pub run_once :
    Registration
    → Outcome (List ℕ)
    → (in_time : ℕ → Bool) → Deletion
    → (r1_closed a1_closed : Outcome (Unit {0})) → Lifecycle
    → Outcome ℕ × Lifecycle × List Effect
unfolding try_boot shutdown is_acceptable
run_once registration types in_time deletion r1_closed a1_closed l =
    let m = try_boot registration types l in
    let (result, n, effects) = shutdown in_time deletion r1_closed a1_closed m in
    elim result [
      | raised e ↦ (raised e, n, effects)
      | ok _ ↦ (ok (if is_acceptable m.state then 0 else 1), n, effects)
    ]
