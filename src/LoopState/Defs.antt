-- ===== src/LoopState/Defs.antt =====
-- runtime/loop_state.py: the states, the edges and the machine.
use preceptual_ai_5g_dynamic.Prelude.{
  Bool, List, Option, String, [], false, if◌then◌else◌, none, some, str_eq, ℕ, ◌&&◌, ◌++◌, ◌==◌,
  ◌||◌, ◌∷◌,
}
use preceptual_ai_5g_dynamic.Prelude.Outcome.{Outcome, ok, raised, runtime_error}

pub data LoopState : Type 0 where
  idle retrain validate promote monitor rollback : LoopState

unfoldable pub state_tag : LoopState → ℕ
state_tag idle = 0
state_tag retrain = 1
state_tag validate = 2
state_tag promote = 3
state_tag monitor = 4
state_tag rollback = 5

unfoldable pub state_eq : LoopState → LoopState → Bool
unfolding state_tag
state_eq a b = state_tag a == state_tag b

abbrev pub allowed_edges : List (LoopState × LoopState)
allowed_edges =
    (idle, retrain)
    ∷ (retrain, validate)
    ∷ (validate, promote)
    ∷ (validate, idle)
    ∷ (promote, monitor)
    ∷ (monitor, rollback)
    ∷ (monitor, retrain)
    ∷ (rollback, idle)
    ∷ []

-- `(a, b) in edges`
unfoldable pub edge_in : LoopState → LoopState → List (LoopState × LoopState) → Bool
unfolding state_eq
edge_in a b [] = false
edge_in a b ((c, d) ∷ es) = (state_eq a c && state_eq b d) || edge_in a b es

pub record StateTransition : Type 0 where
  pub from_state : LoopState
  pub to_state : LoopState
  pub timestamp : ℕ
  pub reason : String
  pub actor : String
  pub model_sha : Option String

pub record Machine : Type 0 where
  pub state : LoopState
  pub entries : List StateTransition
  pub actor : String

abbrev pub SinkFn {ℓ} : Type ℓ → Type ℓ
SinkFn W = StateTransition → W → Outcome (Unit {0}) × W

unfoldable pub new_machine : LoopState → String → Machine
new_machine initial actor = record { state = initial; entries = []; actor = actor }

unfoldable pub current_state : Machine → LoopState
current_state m = m.state

unfoldable pub history : Machine → List StateTransition
history m = m.entries

-- `actor or self._actor`: an empty text counts as missing
unfoldable pub or_actor : Option String → String → String
or_actor none own = own
or_actor (some a) own = if str_eq a "" then own else a

module _ {ℓ} {W : Type ℓ} where
  -- `if self._sink is not None: self._sink(t)`
  unfoldable pub emit_to : Option (SinkFn W) → StateTransition → W → Outcome (Unit {0}) × W
  emit_to none t w = (ok tt, w)
  emit_to (some sink) t w = sink t w

  -- what follows the sink call in `transition`
  unfoldable pub record_transition :
      Machine → StateTransition → Outcome (Unit {0}) × W → Outcome StateTransition × Machine × W
  record_transition m t (ok _, w) =
      (ok t, record m { entries = m.entries ++ t ∷ []; state = t.to_state }, w)
  record_transition m t (raised e, w) = (raised e, m, w)

  unfoldable pub transition :
      Option (SinkFn W)
      → (new_state : LoopState) (reason : String) (actor model_sha : Option String) (now : ℕ)
      → Machine
      → W
      → Outcome StateTransition × Machine × W
  unfolding record_transition
  transition sink new_state reason actor model_sha now m w =
      if edge_in m.state new_state allowed_edges
      then (let t : StateTransition = record {
        from_state = m.state;
        to_state = new_state;
        timestamp = now;
        reason = reason;
        actor = or_actor actor m.actor;
        model_sha = model_sha;
      } in
          record_transition m t (emit_to sink t w))
      else (raised runtime_error, m, w)

-- the loop of `replay`, from a state on
unfoldable pub replay_from : LoopState → List StateTransition → Outcome LoopState
replay_from s [] = ok s
replay_from s (t ∷ ts) =
    let rest = replay_from t.to_state ts in
    if edge_in s t.to_state allowed_edges then rest else raised runtime_error

unfoldable pub replay : Machine → Outcome LoopState
unfolding replay_from
replay m = replay_from idle m.entries

-- one call of `transition`, as a caller writes it
pub record Request : Type 0 where
  pub new_state : LoopState
  pub reason : String
  pub actor : Option String
  pub model_sha : Option String
  pub now : ℕ

module _ {ℓ} {W : Type ℓ} where
  -- calls in turn by a caller that goes on after an exception
  unfoldable pub run : Option (SinkFn W) → List Request → Machine → W → Machine × W
  run sink [] m w = (m, w)
  run sink (r ∷ rs) m w =
      let (_, m', w') = transition sink r.new_state r.reason r.actor r.model_sha r.now m w in
      run sink rs m' w'
