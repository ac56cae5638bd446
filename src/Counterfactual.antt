-- ===== src/Counterfactual.antt =====
-- policy/counterfactual.py: `build_rejected_alternatives`, and the parts of evidence/schema.py that it
-- fills. Numbers are finite and counted in steps of 10^-10. `A` is what an action is. Texts for a
-- human reader are left out.
pub mod Ranked
use preceptual_ai_5g_dynamic.Prelude.{
  List, Option, String, [], if◌then◌else◌, none, some, suc, ℕ, ◌∷◌,
}
use preceptual_ai_5g_dynamic.Prelude.Int.{ltb_ℤ, pos, ℤ}

-- `_HORIZON`
pub data Horizon : Type 0 where
  in_30s in_60s in_300s : Horizon

pub record PredictedOutcome : Type 0 where
  pub sla_risk_30s : ℤ
  pub sla_risk_1min : ℤ
  pub sla_risk_5min : ℤ

pub record AlternativeCandidate {ℓ} (A : Type ℓ) : Type ℓ where
  pub action : A
  pub reward_sum : ℤ
  pub constraint_violation_sum : ℤ
  pub outcome : PredictedOutcome
  pub primary_metric : String
  pub primary_value : Option ℤ
  pub threshold : ℤ
  pub horizon : Horizon

-- the causes that the builder gives
pub data Cause : Type 0 where
  constraint_violation_hard sla_breach_predicted energy_cost policy_oscillation : Cause

pub record RejectionReasonMachine : Type 0 where
  pub primary_cause : Cause
  pub reason_metric : String
  pub predicted_value : ℤ
  pub reason_threshold : ℤ
  pub reason_horizon : Horizon

pub record RejectedAlternative {ℓ} (A : Type ℓ) : Type ℓ where
  pub rank : ℕ
  pub rejected_action : A
  pub predicted_outcome : PredictedOutcome
  pub reason : RejectionReasonMachine
  pub random_seed : ℕ

-- the 0.20 of `cand.sla_risk_30s > 0.20`
abbrev pub breach_threshold : ℤ
breach_threshold = pos 2000000000

-- the default of `soft_constraint_threshold`
abbrev pub default_soft_threshold : ℤ
default_soft_threshold = pos 10000

module _ {ℓ} {A : Type ℓ} where
  -- `sorted(..., key=reward_sum, reverse=True)`: equal rewards keep their order
  unfoldable pub insert_ranked :
      AlternativeCandidate A → List (AlternativeCandidate A) → List (AlternativeCandidate A)
  insert_ranked c [] = c ∷ []
  insert_ranked c (d ∷ ds) =
      let rest = insert_ranked c ds in
      if ltb_ℤ c.reward_sum d.reward_sum then d ∷ rest else c ∷ d ∷ ds

  unfoldable pub ranked : List (AlternativeCandidate A) → List (AlternativeCandidate A)
  unfolding insert_ranked
  ranked [] = []
  ranked (c ∷ cs) = insert_ranked c (ranked cs)

  unfoldable pub cause_of : (chosen_score soft_threshold : ℤ) → AlternativeCandidate A → Cause
  cause_of chosen_score soft_threshold c =
      if ltb_ℤ soft_threshold c.constraint_violation_sum
      then constraint_violation_hard
      else if ltb_ℤ breach_threshold c.outcome.sla_risk_30s
      then sla_breach_predicted
      else if ltb_ℤ c.reward_sum chosen_score
      then energy_cost
      else policy_oscillation

  unfoldable pub primary_value_of : Cause → AlternativeCandidate A → ℤ
  primary_value_of cause c = elim c.primary_value [
    | some v ↦ v
    | none ↦ elim cause [
      | constraint_violation_hard ↦ c.constraint_violation_sum
      | sla_breach_predicted ↦ c.outcome.sla_risk_30s
      | energy_cost ↦ c.outcome.sla_risk_30s
      | policy_oscillation ↦ c.outcome.sla_risk_30s
    ]
  ]

  unfoldable pub reject :
      (chosen_score soft_threshold : ℤ) (seed rank : ℕ)
      → AlternativeCandidate A
      → RejectedAlternative A
  unfolding cause_of primary_value_of
  reject chosen_score soft_threshold seed rank c =
      let cause = cause_of chosen_score soft_threshold c in
      record {
        rank = rank;
        rejected_action = c.action;
        predicted_outcome = c.outcome;
        reason = record {
          primary_cause = cause;
          reason_metric = c.primary_metric;
          predicted_value = primary_value_of cause c;
          reason_threshold = c.threshold;
          reason_horizon = c.horizon;
        };
        random_seed = seed;
      }

  -- `enumerate(sorted_cands, start=rank)`
  unfoldable pub reject_all :
      (chosen_score soft_threshold : ℤ) (seed rank : ℕ)
      → List (AlternativeCandidate A)
      → List (RejectedAlternative A)
  unfolding reject
  reject_all chosen_score soft_threshold seed rank [] = []
  reject_all chosen_score soft_threshold seed rank (c ∷ cs) =
      reject chosen_score soft_threshold seed rank c
      ∷ reject_all chosen_score soft_threshold seed (suc rank) cs

  unfoldable pub build_rejected_alternatives :
      List (AlternativeCandidate A)
      → (chosen_score soft_threshold : ℤ) (seed : ℕ) → List (RejectedAlternative A)
  unfolding ranked reject_all
  build_rejected_alternatives candidates chosen_score soft_threshold seed =
      reject_all chosen_score soft_threshold seed 1 (ranked candidates)
