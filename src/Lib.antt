-- ===== src/Lib.antt =====
-- Verification of the decision core of PreceptualAI 5G Dynamic (the Python package src/horizon_ric).
--
-- The program is an rApp for a 5G network that proposes radio actions with learned models and keeps
-- them safe. A proposed action goes through the Decision Safety Shield, which projects it onto a
-- feasible one and certifies the result; the emit guards read the certificate before anything leaves
-- for the near-real-time controller; every decision is appended to a hash-chained evidence store;
-- the runtime has a lifecycle machine for its models and degraded modes for failing dependencies, and
-- failures are raised as X.733 alarms on a bus. The pipeline puts these together: from a telemetry event
-- to a decision, its emission over A1 and the poll of its enforcement. Models are kept in a vault and
-- swapped between readers, the rApp boots, checkpoints itself and shuts down, and its REST interface
-- admits requests by signed tokens.
--
-- Which file models which part:
--   LoopState (Defs, Transition, History): src/horizon_ric/runtime/loop_state.py, the class
--     LoopStateMachine. `transition`, `replay` and `history` are the methods of those names.
--   Shield: src/horizon_ric/shield/. Dispose is shield.py (`check`, `is_feasible`, `dispose`, split at
--     its loop: `project_pass` is one pass, `passes` the loop, `certify` what follows); Certificate is
--     certificate.py; Action, Numeric, Spectrum, Phy (the neural receiver), Constellation, Chain and Ntn
--     are invariants.py with default_terrestrial_shield and default_ntn_shield. Soundness, Complete,
--     Total, Mild, Contained, Feasible, Physics, Terrestrial and Orbital hold proofs.
--   Guards: src/horizon_ric/policy/emit_guards.py; Guards/Registry:
--     src/horizon_ric/policy/guard_registry.py. Chain and Plugins hold proofs.
--   LawfulIntercept (Defs): src/horizon_ric/policy/li_constraint.py. The Shield uses it through the
--     adapter in Shield/Chain.
--   Alarms: src/horizon_ric/observability/x733_alarms.py; Alarms/Registry holds proofs.
--   Degradation: src/horizon_ric/runtime/graceful_degradation.py, with the alarms that it emits on the
--     bus of Alarms. Modes has its calls as data; Modes and Buffers hold proofs.
--   Evidence: src/horizon_ric/evidence/store.py, the class EvidenceStore and its JSONL backend. Chains,
--     Append, Tamper and Tenants hold proofs. `verify` emits on the bus of Alarms.
--   Liveness: src/horizon_ric/runtime/liveness.py, the class LivenessRegistry; Verdict holds proofs.
--   Breaker: src/horizon_ric/runtime/circuit_breaker.py, its listener and its test of exceptions, on the
--     bus of Alarms; Breaker/Call is AsyncCircuitBreaker.call around pybreaker, which is a parameter.
--     Alerts and Trips hold proofs.
--   A1: src/horizon_ric/rapp/a1_adapter.py. Urls has the URL builders and the request bodies of all
--     dialects, Schema the create schemas, Emit `emit_policy`, which goes through the breaker of
--     Breaker/Call, Calls all other calls. Json says what a document valid under a schema is;
--     Meaning holds proofs.
--   Pipeline: src/horizon_ric/rapp/pipeline.py, the class DecisionPipeline, on top of Shield, Guards,
--     Counterfactual, A1 and Evidence. Planner, Decide, Records, Poll, State and Process follow
--     `process_event`: `decide` is what comes before anything is emitted, `act` what comes after. Gate,
--     Branches, Accepted, Audited, Files, Nominal, Conforms, Polls and Scores hold proofs.
--   Counterfactual: src/horizon_ric/policy/counterfactual.py; Ranked holds proofs.
--   Promotion: src/horizon_ric/runtime/atomic_promotion.py, the class AtomicPromoter; a swap is two
--     steps with the drain between them. Handles says what readers hold; Release, Swap, Accounting and
--     Rollback hold proofs over any interleaving of readers and swaps.
--   Vault: src/horizon_ric/runtime/artefact_vault.py; Intact holds proofs.
--   StateRecovery: src/horizon_ric/runtime/state_recovery.py, `save_state` as its file operations one by
--     one and `load_state`; Crash holds proofs.
--   Lifecycle: src/horizon_ric/rapp/lifecycle.py, the class HorizonRAppLifecycle, with the registration
--     of src/horizon_ric/rapp/r1_adapter.py. Shutdown and Restart hold proofs.
--   Security: src/horizon_ric/security/. Jwt is jwt.py, Request and Middleware are middleware.py,
--     Tenant is tenant.py, whose scopes set the active tenant that Evidence reads. Reference is a manager that drops no key; Rotation, Window, Access and Expiry hold proofs.
--   Prelude: shared helpers. Outcome is a call that returns or raises; Dict a dictionary with text
--     keys; Flt Python's float comparisons. Tests: the model at concrete inputs.
--
-- State and calls. An object is a record, a method a function from the record to the record; a method
-- that may raise returns an Outcome. A callback (sink, subscriber) reads and writes a state of its own,
-- which is a type parameter, and may raise. The locks of the source make each method one step.
--
-- Numbers. A float is an integral number of units, or nan or an infinity; its arithmetic is exact, so
-- rounding is not modelled. Shield/Action fixes the units. The logarithms that grade a neural receiver
-- and spread a satellite's power are parameters, and so are SHA-256, hexadecimal and JSON in Evidence,
-- where the theorems name what they rely on; a record that is read back is taken to be the one that was
-- written. Clock readings and fresh ids are arguments. What the network and the clients of httpx,
-- pybreaker, python-jose and Casbin answer is an argument too, or a function that acts on a state of
-- its own.
--
-- Bounds. The loop of `dispose` runs `max_passes` times, a number that the theorems quantify over; the
-- source's default is 8. The enforcement poll runs as often as its configuration says, at least once. A
-- risk is a number of units of 10^-9. All other loops are structural.
--
-- Not modelled: messages and other free text, logging, printing to JSON and YANG, lines of an evidence
-- file that json or pydantic reject, the SQLite and PostgreSQL backends, timers and servers, the
-- invariant of a protected slice, which neither default Shield has, and the parts of the package that
-- are not named above: their core is numeric code over array libraries, or network input and
-- output, or a service around the parts named here.
pub mod Prelude
pub mod LoopState
pub mod Shield
pub mod Guards
pub mod LawfulIntercept
pub mod Alarms
pub mod Degradation
pub mod Evidence
pub mod Liveness
pub mod Breaker
pub mod A1
pub mod Counterfactual
pub mod Pipeline
pub mod Promotion
pub mod Vault
pub mod Security
pub mod StateRecovery
pub mod Lifecycle
pub mod Tests
