-- ===== src/Guards.antt =====
-- policy/emit_guards.py: the pre-emit guards, the last gate before the A1 wire. A guard's message is
-- not modelled; its detail is, as data.
pub mod Chain
pub mod Registry
pub mod Plugins
use preceptual_ai_5g_dynamic.Prelude.{
  Bool, List, Option, String, [], false, has, if◌then◌else◌, length, none, not, some, true, ℕ, ◌==◌,
  ◌||◌, ◌∷◌,
}
use preceptual_ai_5g_dynamic.Prelude.Sorted.{sorted}
use preceptual_ai_5g_dynamic.Prelude.Int.{sub_ℕ, ℤ}
use preceptual_ai_5g_dynamic.Prelude.Flt.{Flt, le_flt}
use preceptual_ai_5g_dynamic.Shield.Certificate.{ConstraintViolation, SafetyCertificate}

pub data Detail : Type 0 where
  no_detail : Detail
  violated : List String → Detail
  budget : (elapsed_ms budget_ms : Flt) → Detail
  hidden_corrections : (n_corrections : ℕ) → List String → Detail
  hardware_floor : Option Flt → Detail

pub record GuardFailure : Type 0 where
  pub guard_id : String
  pub detail : Detail

-- `EmitTrace`, times in nanoseconds
pub record EmitTrace : Type 0 where
  pub decision_started_ns : ℕ
  pub decision_completed_ns : Option ℕ
  pub corrections : List ConstraintViolation

-- `__post_init__`: missing corrections become an empty list
unfoldable pub new_trace : ℕ → Option ℕ → Option (List ConstraintViolation) → EmitTrace
new_trace started completed corrections = record {
  decision_started_ns = started;
  decision_completed_ns = completed;
  corrections = elim corrections [ none ↦ [] | some cs ↦ cs ];
}

-- `decision_completed_ns or time.monotonic_ns()`: a completion time of 0 counts as missing
unfoldable pub end_ns : Option ℕ → ℕ → ℕ
end_ns none now = now
end_ns (some t) now = if t == 0 then now else t

-- `elapsed_ms`, in nanoseconds
unfoldable pub elapsed_ns : EmitTrace → ℕ → ℤ
unfolding end_ns
elapsed_ns t now = sub_ℕ (end_ns t.decision_completed_ns now) t.decision_started_ns

module _ {ℓ} {A : Type ℓ} where
  unfoldable pub guard_shield_certificate_safe : Option (SafetyCertificate A) → Option GuardFailure
  guard_shield_certificate_safe none =
      some (record { guard_id = "missing_safety_certificate"; detail = no_detail })
  guard_shield_certificate_safe (some c) =
      if c.emit_blocked || not c.safe
      then some (record { guard_id = "shield_blocked"; detail = violated c.violated_ids })
      else none

  -- `certificate.corrections if certificate is not None else None`
  unfoldable pub certificate_corrections :
      Option (SafetyCertificate A) → Option (List ConstraintViolation)
  certificate_corrections none = none
  certificate_corrections (some c) = some c.corrections

unfoldable pub guard_predicted_outcome_pretrained : Bool → Option GuardFailure
guard_predicted_outcome_pretrained head_is_pretrained =
    if head_is_pretrained
    then none
    else some (record { guard_id = "head_not_pretrained"; detail = no_detail })

unfoldable pub guard_decision_within_a1_budget : Flt → Flt → Option GuardFailure
guard_decision_within_a1_budget elapsed_ms policy_period_ms =
    if le_flt elapsed_ms policy_period_ms
    then none
    else some
        (record { guard_id = "decision_over_budget"; detail = budget elapsed_ms policy_period_ms })

-- `{c.constraint_id for c in corrections}`
unfoldable pub constraint_ids : List ConstraintViolation → List String
constraint_ids [] = []
constraint_ids (c ∷ cs) =
    let rest = constraint_ids cs in
    if has c.constraint_id rest then rest else c.constraint_id ∷ rest

-- `not xs` for a list that may be `None`
unfoldable pub missing {κ} : {B : Type κ} → Option (List B) → Bool
missing none = true
missing (some []) = true
missing (some (_ ∷ _)) = false

-- the corrections themselves, when there are any
unfoldable pub corrections_of : Option (List ConstraintViolation) → List ConstraintViolation
corrections_of none = []
corrections_of (some cs) = cs

-- an entry of the audit field is what a parameter `B` says it is
unfoldable pub guard_corrections_recorded {κ} :
    {B : Type κ} → Option (List ConstraintViolation) → Option (List B) → Option GuardFailure
unfolding missing corrections_of constraint_ids
guard_corrections_recorded corrections audit_corrections_field =
    if missing corrections
    then none
    else if missing audit_corrections_field
    then some (record {
      guard_id = "corrections_not_audited";
      detail =
          hidden_corrections (length (corrections_of corrections))
            (sorted (constraint_ids (corrections_of corrections)));
    })
    else none

-- the loop of `run_guard_chain`: keep what is not `None`
unfoldable pub keep_failures : List (Option GuardFailure) → List GuardFailure
keep_failures [] = []
keep_failures (none ∷ rest) = keep_failures rest
keep_failures (some f ∷ rest) = f ∷ keep_failures rest

module _ {ℓ κ} {A : Type ℓ} {B : Type κ} where
  unfoldable pub run_guard_chain :
      (certificate : Option (SafetyCertificate A)) (head_is_pretrained : Bool) (elapsed_ms : Flt)
      (audit_corrections_field : Option (List B)) (policy_period_ms : Flt)
      → List GuardFailure
  unfolding certificate_corrections keep_failures
  run_guard_chain certificate head elapsed audit period = keep_failures (
      guard_shield_certificate_safe certificate
      ∷ guard_predicted_outcome_pretrained head
      ∷ guard_decision_within_a1_budget elapsed period
      ∷ guard_corrections_recorded (certificate_corrections certificate) audit
      ∷ [])
