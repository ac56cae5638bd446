-- ===== src/Counterfactual/Ranked.antt =====
-- policy/counterfactual.py: the order and the ranks of the rejected alternatives.
use mathlib.Core.List.{Perm}
use mathlib.Core.List.Perm
use preceptual_ai_5g_dynamic.Prelude.{List, [], suc, ℕ, ◌∷◌, ◌≡◌}
use preceptual_ai_5g_dynamic.Prelude.Int.{ℤ, ◌≤ℤ◌}
use preceptual_ai_5g_dynamic.Counterfactual.{AlternativeCandidate, RejectedAlternative, cause_of}

module _ {A : Type 0} where
  -- the first of the rewards is at most `m`
  abbrev pub StartsBelow : ℤ → List (AlternativeCandidate A) → Type 0
  StartsBelow m [] = Unit
  StartsBelow m (c ∷ cs) = c.reward_sum ≤ℤ m

  -- no reward is above the one before it
  abbrev pub Descending : List (AlternativeCandidate A) → Type 0
  Descending [] = Unit
  Descending (c ∷ cs) = StartsBelow c.reward_sum cs × Descending cs

  -- The entry of rank `rank + i` is the i-th candidate's.
  abbrev pub Explains :
      (chosen_score soft_threshold : ℤ) (seed rank : ℕ)
      → List (AlternativeCandidate A)
      → List (RejectedAlternative A)
      → Type 0
  Explains s t seed rank [] [] = Unit
  Explains s t seed rank (c ∷ cs) (r ∷ rs) =
      (r.rank ≡ rank)
      × (r.rejected_action ≡ c.action)
      × (r.random_seed ≡ seed)
      × (r.reason.primary_cause ≡ cause_of s t c)
      × Explains s t seed (suc rank) cs rs
  Explains s t seed rank _ _ = ⊥
