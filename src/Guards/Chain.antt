-- ===== src/Guards/Chain.antt =====
-- policy/emit_guards.py: when the chain lets a decision through.
use preceptual_ai_5g_dynamic.Prelude.{
  Bool, List, Option, [], arith, false, none, refl, some, true, ◌↔◌, ◌≡◌, ◌≢◌, ◌⊎◌,
}
use preceptual_ai_5g_dynamic.Prelude.Flt.{Flt, le_flt, nan}
use preceptual_ai_5g_dynamic.Shield.Certificate.{SafetyCertificate}
use preceptual_ai_5g_dynamic.Guards.{
  guard_corrections_recorded, guard_decision_within_a1_budget, guard_predicted_outcome_pretrained,
  guard_shield_certificate_safe, missing, run_guard_chain,
}

-- What the chain asks of a decision: a certificate that is safe and not blocked, a pretrained head,
-- a duration within the period, and an audit entry when the Shield made a correction.
pub record MayEmit {ℓ κ} {A : Type ℓ} {B : Type κ} (c : SafetyCertificate A) (head : Bool)
    (elapsed period : Flt) (audit : Option (List B)) : Type 0 where
  pub certified : c.safe ≡ true
  pub not_blocked : c.emit_blocked ≡ false
  pub pretrained : head ≡ true
  pub in_time : le_flt elapsed period ≡ true
  pub audited : (c.corrections ≡ []) ⊎ (missing audit ≡ false)

module _ {ℓ κ} {A : Type ℓ} {B : Type κ} where
  pub run_guard_chain-MayEmit :
      (c : SafetyCertificate A) (head : Bool) (elapsed period : Flt) (audit : Option (List B))
      → run_guard_chain (some c) head elapsed audit period ≡ []
      → MayEmit c head elapsed period audit
  unfolding run_guard_chain guard_shield_certificate_safe guard_predicted_outcome_pretrained
      guard_decision_within_a1_budget guard_corrections_recorded
  run_guard_chain-MayEmit c head elapsed period audit h = ground arith

  MayEmit-run_guard_chain :
      (c : SafetyCertificate A) (head : Bool) (elapsed period : Flt) (audit : Option (List B))
      → MayEmit c head elapsed period audit
      → run_guard_chain (some c) head elapsed audit period ≡ []
  unfolding run_guard_chain guard_shield_certificate_safe guard_predicted_outcome_pretrained
      guard_decision_within_a1_budget guard_corrections_recorded
  MayEmit-run_guard_chain c head elapsed period audit h = ground arith

  pub run_guard_chain_iff :
      (certificate : Option (SafetyCertificate A)) (head : Bool) (elapsed period : Flt)
      (audit : Option (List B))
      → (run_guard_chain certificate head elapsed audit period ≡ [])
        ↔ ((c : SafetyCertificate A) × (certificate ≡ some c) × MayEmit c head elapsed period audit)
  run_guard_chain_iff none head elapsed period audit =
      (λ h. absurd (unfold run_guard_chain guard_shield_certificate_safe in cc), λ (c, e, _). cc)
  run_guard_chain_iff (some d) head elapsed period audit = (
    λ h. (d, refl, run_guard_chain-MayEmit d head elapsed period audit h),
    λ (c, e, h). rw e (MayEmit-run_guard_chain c head elapsed period audit h),
  )

  -- A decision whose duration is not a number is refused, whatever else holds.
  pub nan_elapsed_refused :
      (certificate : Option (SafetyCertificate A)) (head : Bool) (period : Flt)
      (audit : Option (List B))
      → run_guard_chain certificate head nan audit period ≢ []
  unfolding le_flt
  nan_elapsed_refused certificate head period audit h =
      let (c, e, m) = (run_guard_chain_iff certificate head nan period audit).0 h in cc m.in_time
