-- ===== src/Shield/Chain.antt =====
-- shield/shield.py: `default_terrestrial_shield`, and shield/invariants.py: the adapter
-- `LawfulInterceptInvariant` in front of it.
use preceptual_ai_5g_dynamic.Prelude.{
  List, Option, String, [], none, nonempty, not, some, ◌++◌, ◌∷◌,
}
use preceptual_ai_5g_dynamic.Prelude.Flt.{Flt}
use preceptual_ai_5g_dynamic.Prelude.Outcome.{Outcome, ok}
use preceptual_ai_5g_dynamic.LawfulIntercept.{LiAction, LiConstraint, check_feasibility, project}
use preceptual_ai_5g_dynamic.Shield.Certificate.{ConstraintViolation, InvariantCheck, unit_bool}
use preceptual_ai_5g_dynamic.Shield.Action.{Action, Context}
use preceptual_ai_5g_dynamic.Shield.Constellation.{Constellation, constellation_legality}
use preceptual_ai_5g_dynamic.Shield.Dispose.{Invariant}
use preceptual_ai_5g_dynamic.Shield.Numeric.{numeric_sanity}
use preceptual_ai_5g_dynamic.Shield.Spectrum.{SpectralMask, max_eirp_invariant, spectral_mask}
use preceptual_ai_5g_dynamic.Shield.Phy.{NeuralRx, neural_rx_envelope}

abbrev pub intercept_id : String
intercept_id = "lawful_intercept"

-- the keys of an action that the constraint reads, and the rest
unfoldable pub to_li : Action → LiAction Action
to_li a = record {
  affected_ue_ids = a.affected_ue_ids;
  affected_slice_ids = a.affected_slice_ids;
  target_jurisdiction = a.target_jurisdiction;
  others = a;
}

unfoldable pub from_li : LiAction Action → Action
from_li l = record (l.others) {
  affected_ue_ids = l.affected_ue_ids;
  affected_slice_ids = l.affected_slice_ids;
  target_jurisdiction = l.target_jurisdiction;
}

unfoldable pub evaluate_intercept : LiConstraint → Action → Context → Outcome InvariantCheck
unfolding to_li
evaluate_intercept c a context = ok (record {
  invariant_id = intercept_id;
  satisfied = not (nonempty (check_feasibility c (to_li a)));
  margin = none;
  margin_unit = unit_bool;
})

unfoldable pub project_intercept :
    LiConstraint → Action → Context → Outcome (Action × List ConstraintViolation)
unfolding to_li from_li
project_intercept c a context =
    let (l, corrections) = project c (to_li a) in ok (from_li l, corrections)

unfoldable pub lawful_intercept : LiConstraint → Invariant
lawful_intercept c = record {
  id = intercept_id;
  evaluate = evaluate_intercept c;
  project = project_intercept c;
}

-- `if li_constraint is not None: chain.append(...)`
unfoldable pub intercept_chain : Option LiConstraint → List Invariant
intercept_chain none = []
intercept_chain (some c) = lawful_intercept c ∷ []

unfoldable pub terrestrial_chain :
    Option LiConstraint → SpectralMask → Flt → NeuralRx → Constellation → List Invariant
unfolding intercept_chain
terrestrial_chain li mask max_eirp rx constellation =
    numeric_sanity
    ∷ (intercept_chain li
        ++ (spectral_mask mask
            ∷ max_eirp_invariant max_eirp
            ∷ neural_rx_envelope rx
            ∷ constellation_legality constellation
            ∷ []))
