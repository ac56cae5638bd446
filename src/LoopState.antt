-- ===== src/LoopState.antt =====
-- runtime/loop_state.py: the TS 28.567 LoopState machine. A sink is a call that reads and writes
-- a state `W` of its own and may raise. Clock readings are arguments. The lock makes each method
-- one step, and only `LoopState` values reach `transition`, so its `TypeError` has no case here.
mod Defs
pub mod Transition
pub mod History
pub use Defs.{
  LoopState, idle, retrain, validate, promote, monitor, rollback, StateTransition, Machine, Request,
}
unfoldable pub use Defs.{
  state_tag, state_eq, edge_in, allowed_edges, SinkFn, new_machine, current_state, history,
  transition, record_transition, emit_to, or_actor, replay, replay_from, run,
}
