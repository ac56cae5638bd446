-- ===== src/Pipeline/Scores.antt =====
-- rapp/pipeline.py: the risk bands of `_choose` against the scores of the candidates.
use preceptual_ai_5g_dynamic.Prelude.{Bool-cases, arith, inl, inr, ltb, ℕ, ◌<◌, ◌↔◌, ◌≤◌, ◌⊎◌}
use preceptual_ai_5g_dynamic.Prelude.Int.{◌≤ℤ◌}
use preceptual_ai_5g_dynamic.Pipeline.Planner.{choose, one_risk}
use preceptual_ai_5g_dynamic.Pipeline.Decide.{score}

-- no candidate has a higher score than the chosen one
abbrev pub IsBest : ℕ → Type 0
IsBest risk =
    (score risk "horizon.qos.priority" ≤ℤ score risk (choose risk))
    × (score risk "horizon.traffic.steering" ≤ℤ score risk (choose risk))
    × (score risk "horizon.admission.control" ≤ℤ score risk (choose risk))

-- For a risk between 0 and 1, the chosen policy type is one of highest score exactly when the risk
-- is not in the interval from 0.6 up to but not including 0.625; in it, the third type is chosen
-- and traffic steering, which is recorded as a rejected alternative, scores higher.
pub choose-IsBest :
    (risk : ℕ) → risk ≤ one_risk → IsBest risk ↔ ((risk < 600000000) ⊎ (625000000 ≤ risk))
unfolding score choose
choose-IsBest risk h = elim (Bool-cases (ltb risk 300000000)) [
  | inl low ↦ rw low (λ b. ground arith, λ e. ground arith)
  | inr high ↦ rw high (elim (Bool-cases (ltb risk 600000000)) [
    | inl mid ↦ rw mid (λ b. ground arith, λ e. ground arith)
    | inr top ↦ rw top (λ b. ground arith, λ e. ground arith)
  ])
]
