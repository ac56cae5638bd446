-- ===== src/Shield/Ntn.antt =====
-- shield/invariants.py: `PfdCeilingInvariant`, and shield/shield.py: `default_ntn_shield`. The
-- logarithms are a parameter: what a distance and a bandwidth take off the power, in dB.
use preceptual_ai_5g_dynamic.Prelude.{List, Option, String, [], false, none, some, true, ◌++◌, ◌∷◌}
use preceptual_ai_5g_dynamic.Prelude.Flt.{
  Flt, add_flt, le_flt, lit, lt_flt, max_flt, neg_flt, sub_flt,
}
use preceptual_ai_5g_dynamic.Prelude.Outcome.{Outcome, ok, ◌>>=◌}
use preceptual_ai_5g_dynamic.LawfulIntercept.{LiConstraint}
use preceptual_ai_5g_dynamic.Shield.Certificate.{
  ConstraintViolation, InvariantCheck, hard, unit_db, unit_na,
}
use preceptual_ai_5g_dynamic.Shield.Action.{Action, Context, float_or, number}
use preceptual_ai_5g_dynamic.Shield.Chain.{intercept_chain}
use preceptual_ai_5g_dynamic.Shield.Dispose.{Invariant}
use preceptual_ai_5g_dynamic.Shield.Numeric.{numeric_sanity}
use preceptual_ai_5g_dynamic.Shield.Spectrum.{SpectralMask, max_eirp_invariant, spectral_mask}
use preceptual_ai_5g_dynamic.Shield.Phy.{NeuralRx, neural_rx_envelope}

-- In the units of an action: 30 dB, the default distance and its least value, the default bandwidth,
-- and `spread_dB + bw_dB` of a distance and a bandwidth.
pub record Satellite : Type 0 where
  pub thirty_db : Flt
  pub default_slant_range : Flt
  pub least_slant_range : Flt
  pub default_bandwidth : Flt
  pub path_loss : Flt → Flt → Flt

abbrev pub pfd_id : String
pfd_id = "pfd_ceiling_ntn"

-- `compute_pfd`
unfoldable pub compute_pfd : Satellite → Action → Outcome Flt
compute_pfd s a = do
  tx ← float_or a.tx_power_dbm (lit 0)
  gain ← float_or a.sat_antenna_gain_dbi (lit 0)
  slant ← float_or a.slant_range_m s.default_slant_range
  bw ← float_or a.bandwidth_hz s.default_bandwidth
  ok (
      sub_flt (sub_flt (add_flt tx gain) s.thirty_db)
        (s.path_loss (max_flt slant s.least_slant_range) bw))

-- the check of a power flux density
unfoldable pub check_pfd : Flt → Flt → InvariantCheck
check_pfd max_pfd pfd = record {
  invariant_id = pfd_id;
  satisfied = le_flt (lit 0) (sub_flt max_pfd pfd);
  margin = some (sub_flt max_pfd pfd);
  margin_unit = unit_db;
}

unfoldable pub evaluate_pfd : Satellite → Flt → Action → Context → Outcome InvariantCheck
unfolding compute_pfd check_pfd
evaluate_pfd s max_pfd a context = elim a.ntn [
  | false ↦
      ok (record { invariant_id = pfd_id; satisfied = true; margin = none; margin_unit = unit_na })
  | true ↦ compute_pfd s a >>= λ pfd. ok (check_pfd max_pfd pfd)
]

-- the power is cut by the overage
unfoldable pub lowered : Action → (overage : Flt) → Outcome (Action × List ConstraintViolation)
lowered a overage = elim (lt_flt (lit 0) overage) [
  | false ↦ ok (a, [])
  | true ↦ (do
    tx ← float_or a.tx_power_dbm (lit 0)
    ok (
      record a { tx_power_dbm = some (number (sub_flt tx overage)) },
      record { constraint_id = pfd_id; severity = hard; margin_db = some (neg_flt overage) } ∷ [],
    ))
]

unfoldable pub project_pfd :
    Satellite → Flt → Action → Context → Outcome (Action × List ConstraintViolation)
unfolding compute_pfd lowered
project_pfd s max_pfd a context = elim a.ntn [
  | false ↦ ok (a, [])
  | true ↦ compute_pfd s a >>= λ pfd. lowered a (sub_flt pfd max_pfd)
]

unfoldable pub pfd_ceiling : Satellite → Flt → Invariant
pfd_ceiling s max_pfd = record {
  id = pfd_id;
  evaluate = evaluate_pfd s max_pfd;
  project = project_pfd s max_pfd;
}

unfoldable pub ntn_chain :
    Option LiConstraint
    → SpectralMask
    → Flt
    → Satellite
    → (max_pfd : Flt) → NeuralRx
    → List Invariant
unfolding intercept_chain
ntn_chain li mask max_eirp s max_pfd rx =
    numeric_sanity
    ∷ (intercept_chain li
        ++ (spectral_mask mask
            ∷ max_eirp_invariant max_eirp
            ∷ pfd_ceiling s max_pfd
            ∷ neural_rx_envelope rx
            ∷ []))
