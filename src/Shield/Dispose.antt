-- ===== src/Shield/Dispose.antt =====
-- shield/shield.py: the feasibility oracle, the projection loop and the certificate.
use text.Mathlib.Text.{starts_with}
use preceptual_ai_5g_dynamic.Prelude.{
  Bool, List, Option, String, [], false, if◌then◌else◌, none, nonempty, not, some, str_eq, suc,
  true, zero, ℕ, ◌&&◌, ◌++◌, ◌||◌, ◌∷◌,
}
use preceptual_ai_5g_dynamic.Prelude.Outcome.{
  Exn, Outcome, ok, overflow_error, raised, type_error, value_error, zero_division_error, ◌>>=◌,
}
use preceptual_ai_5g_dynamic.Shield.Certificate.{
  ConstraintViolation, InvariantCheck, ShieldDisposition, hard, unit_error,
}
use preceptual_ai_5g_dynamic.Shield.Action.{Action, Context, block_emit}

-- The `Invariant` protocol: either call may raise.
pub record Invariant : Type 0 where
  pub id : String
  pub evaluate : Action → Context → Outcome InvariantCheck
  pub project : Action → Context → Outcome (Action × List ConstraintViolation)

-- `except (TypeError, ValueError, OverflowError, ZeroDivisionError)`
unfoldable pub caught : Exn → Bool
caught type_error = true
caught value_error = true
caught overflow_error = true
caught zero_division_error = true
caught _ = false

-- the check that is recorded for a payload that `evaluate` cannot read
abbrev pub rejected_check : String → InvariantCheck
rejected_check id = record {
  invariant_id = id;
  satisfied = false;
  margin = none;
  margin_unit = unit_error;
}

-- the `try` of `check`
unfoldable pub or_rejected : String → Outcome InvariantCheck → Outcome InvariantCheck
unfolding caught
or_rejected id (ok c) = ok c
or_rejected id (raised e) = if caught e then ok (rejected_check id) else raised e

unfoldable pub check : List Invariant → Action → Context → Outcome (List InvariantCheck)
check [] action context = ok []
check (inv ∷ invs) action context = do
  c ← or_rejected inv.id (inv.evaluate action context)
  cs ← check invs action context
  ok (c ∷ cs)

-- `[c for c in checks if not c.satisfied]`
unfoldable pub unsatisfied : List InvariantCheck → List InvariantCheck
unsatisfied [] = []
unsatisfied (c ∷ cs) = let rest = unsatisfied cs in if c.satisfied then rest else c ∷ rest

unfoldable pub violations : List Invariant → Action → Context → Outcome (List InvariantCheck)
unfolding unsatisfied
violations invs action context = do cs ← check invs action context; ok (unsatisfied cs)

-- the `try` of `is_feasible`, before the rest of the loop
unfoldable pub feasible_step : Outcome InvariantCheck → Outcome Bool → Outcome Bool
unfolding caught
feasible_step (ok c) rest = if c.satisfied then rest else ok false
feasible_step (raised e) rest = if caught e then ok false else raised e

-- stops at the first invariant that is violated or cannot be evaluated
unfoldable pub is_feasible : List Invariant → Action → Context → Outcome Bool
is_feasible [] action context = ok true
is_feasible (inv ∷ invs) action context =
    feasible_step (inv.evaluate action context) (is_feasible invs action context)

-- `c.invariant_id` of each check
unfoldable pub ids_of : List InvariantCheck → List String
ids_of [] = []
ids_of (c ∷ cs) = c.invariant_id ∷ ids_of cs

-- the `try` around `inv.project`
unfoldable pub project_or_block :
    String
    → Action
    → Outcome (Action × List ConstraintViolation)
    → Outcome (Action × List ConstraintViolation)
project_or_block id safe (ok r) = ok r
project_or_block id safe (raised e) =
    if caught e
    then ok (block_emit safe, record { constraint_id = id; severity = hard; margin_db = none } ∷ [])
    else raised e

-- one pass over the invariants; it ends at the first action that is blocked
unfoldable pub project_pass :
    List Invariant
    → Context
    → Action
    → List ConstraintViolation
    → Outcome (Action × List ConstraintViolation)
project_pass [] context safe corrections = ok (safe, corrections)
project_pass (inv ∷ invs) context safe corrections = do
  r ← project_or_block inv.id safe (inv.project safe context)
  elim r.0.emit_blocked [
    | true ↦ ok (r.0, corrections ++ r.1)
    | false ↦ project_pass invs context r.0 (corrections ++ r.1)
  ]

-- what the loop of `dispose` has reached
pub record Progress : Type 0 where
  pub safe : Action
  pub corrections : List ConstraintViolation
  pub projected : Bool

unfoldable pub passes : ℕ → List Invariant → Context → Progress → Outcome Progress
passes zero invs context p = ok p
passes (suc left) invs context p = do
  checks ← check invs p.safe context
  elim (nonempty (unsatisfied checks)) [
    | false ↦ ok p
    | true ↦ (do
      r ← project_pass invs context p.safe p.corrections
      let p' : Progress = record { safe = r.0; corrections = r.1; projected = true }
      elim r.0.emit_blocked [ true ↦ ok p' | false ↦ passes left invs context p' ])
  ]

unfoldable pub block_name : Option String → String
block_name none = "unknown"
block_name (some b) = b

-- `safe.get("block") != block and str(safe.get("block", "")).startswith("classical")`
unfoldable pub changed_to_classical : String → Option String → Bool
changed_to_classical block none = false
changed_to_classical block (some b) = not (str_eq b block) && starts_with b "classical"

unfoldable pub is_some : Option String → Bool
is_some none = false
is_some (some _) = true

-- the arguments of `dispose` that only the certificate reads
pub record Labels : Type 0 where
  pub decision_id : String
  pub rng_seed : Option ℕ
  pub loop_tier : String

-- what follows the loop
unfoldable pub certify : Labels → Action → Progress → List InvariantCheck → ShieldDisposition Action
unfolding block_name changed_to_classical is_some ids_of unsatisfied
certify labels action p final_checks =
    let violated_ids = ids_of (unsatisfied final_checks) in
    let emit_blocked = p.safe.emit_blocked || nonempty violated_ids in
    let safe = if emit_blocked && not p.safe.emit_blocked then block_emit p.safe else p.safe in
    record {
      safe_action = safe;
      certificate = record {
        decision_id = labels.decision_id;
        loop_tier = labels.loop_tier;
        block = block_name action.block;
        action_proposed = action;
        action_safe = safe;
        invariants = final_checks;
        corrections = p.corrections;
        violated_ids = violated_ids;
        projected = p.projected;
        fallback_used =
            is_some safe.shield_fallback_to
            || changed_to_classical (block_name action.block) safe.block;
        fallback_to = safe.shield_fallback_to;
        safe = not emit_blocked;
        emit_blocked = emit_blocked;
        rng_seed = labels.rng_seed;
      };
    }

abbrev pub default_max_passes : ℕ
default_max_passes = 8

unfoldable pub dispose :
    ℕ → List Invariant → Labels → Action → Context → Outcome (ShieldDisposition Action)
dispose max_passes invs labels action context = do
  p ← passes max_passes invs context (record { safe = action; corrections = []; projected = false })
  final_checks ← check invs p.safe context
  ok (certify labels action p final_checks)
