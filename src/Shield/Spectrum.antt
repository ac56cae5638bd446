-- ===== src/Shield/Spectrum.antt =====
-- shield/invariants.py: `SpectralMaskInvariant` and `MaxEirpInvariant`. Frequencies and band edges
-- count half steps and bandwidths whole steps, so half a bandwidth is as many half steps.
use preceptual_ai_5g_dynamic.Prelude.{List, String, [], false, if◌then◌else◌, none, some, true, ◌∷◌}
use preceptual_ai_5g_dynamic.Prelude.Flt.{
  Flt, add_flt, double_flt, eq_flt, le_flt, lit, lt_flt, max_flt, min_flt, neg_flt, sub_flt,
}
use preceptual_ai_5g_dynamic.Prelude.Outcome.{Outcome, ok, ◌>>=◌}
use preceptual_ai_5g_dynamic.Shield.Certificate.{
  ConstraintViolation, InvariantCheck, hard, unit_db, unit_hz,
}
use preceptual_ai_5g_dynamic.Shield.Action.{Action, Context, block_emit, float_or, number}
use preceptual_ai_5g_dynamic.Shield.Dispose.{Invariant}

pub record SpectralMask : Type 0 where
  pub band_lo : Flt
  pub band_hi : Flt
  pub guard_band : Flt

abbrev pub mask_id : String
mask_id = "spectral_mask_ts38104"

-- `_edges`
unfoldable pub edges : Action → Outcome (Flt × Flt)
edges a = do
  f ← float_or a.frequency_hz (lit 0)
  bw ← float_or a.bandwidth_hz (lit 0)
  ok (sub_flt f bw, add_flt f bw)

unfoldable pub mask_margin : SpectralMask → Flt → Flt → Flt
mask_margin m lo hi =
    min_flt (sub_flt lo (add_flt m.band_lo m.guard_band))
      (sub_flt (sub_flt m.band_hi m.guard_band) hi)

unfoldable pub evaluate_mask : SpectralMask → Action → Context → Outcome InvariantCheck
evaluate_mask m a context = do
  e ← edges a
  ok (record {
    invariant_id = mask_id;
    satisfied = le_flt (lit 0) (mask_margin m e.0 e.1);
    margin = some (mask_margin m e.0 e.1);
    margin_unit = unit_hz;
  })

-- the lowest and the highest frequency of the usable channel, and its width in half steps
unfoldable pub usable_lo : SpectralMask → Flt
usable_lo m = add_flt m.band_lo m.guard_band

unfoldable pub usable_hi : SpectralMask → Flt
usable_hi m = sub_flt m.band_hi m.guard_band

unfoldable pub usable_w : SpectralMask → Flt
usable_w m = sub_flt (usable_hi m) (usable_lo m)

-- `min(max(f, lo_allowed), hi_allowed)`
unfoldable pub clip : SpectralMask → Flt → Flt → Flt
clip m bw f = min_flt (max_flt f (add_flt (usable_lo m) bw)) (sub_flt (usable_hi m) bw)

unfoldable pub project_mask :
    SpectralMask → Action → Context → Outcome (Action × List ConstraintViolation)
project_mask m a context = do
  bw ← float_or a.bandwidth_hz (lit 0)
  elim (lt_flt (usable_w m) (double_flt bw)) [
    | true ↦
        ok
          (block_emit a, record { constraint_id = mask_id; severity = hard; margin_db = none } ∷ [])
    | false ↦ (do
      f ← float_or a.frequency_hz (lit 0)
      ok (
          if eq_flt (clip m bw f) f then (a, []) else (
            record a { frequency_hz = some (number (clip m bw f)) },
            record { constraint_id = mask_id; severity = hard; margin_db = none } ∷ [],
          )))
  ]

unfoldable pub spectral_mask : SpectralMask → Invariant
spectral_mask m = record { id = mask_id; evaluate = evaluate_mask m; project = project_mask m }

abbrev pub eirp_id : String
eirp_id = "max_eirp"

-- `_eirp`
unfoldable pub eirp_of : Action → Outcome Flt
eirp_of a = do
  tx ← float_or a.tx_power_dbm (lit 0)
  gain ← float_or a.antenna_gain_dbi (lit 0)
  ok (add_flt tx gain)

unfoldable pub evaluate_eirp : Flt → Action → Context → Outcome InvariantCheck
evaluate_eirp max_eirp a context = do
  eirp ← eirp_of a
  ok (record {
    invariant_id = eirp_id;
    satisfied = le_flt (lit 0) (sub_flt max_eirp eirp);
    margin = some (sub_flt max_eirp eirp);
    margin_unit = unit_db;
  })

unfoldable pub project_eirp : Flt → Action → Context → Outcome (Action × List ConstraintViolation)
project_eirp max_eirp a context = do
  eirp ← eirp_of a
  elim (lt_flt (lit 0) (sub_flt eirp max_eirp)) [
    | false ↦ ok (a, [])
    | true ↦ (do
      tx ← float_or a.tx_power_dbm (lit 0)
      ok (
        record a { tx_power_dbm = some (number (sub_flt tx (sub_flt eirp max_eirp))) },
        record {
          constraint_id = eirp_id;
          severity = hard;
          margin_db = some (neg_flt (sub_flt eirp max_eirp));
        }
            ∷ [],
      ))
  ]

unfoldable pub max_eirp_invariant : Flt → Invariant
max_eirp_invariant max_eirp = record {
  id = eirp_id;
  evaluate = evaluate_eirp max_eirp;
  project = project_eirp max_eirp;
}
