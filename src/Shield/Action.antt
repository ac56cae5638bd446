-- ===== src/Shield/Action.antt =====
-- shield/invariants.py: an action and a context, as the keys that the Shield and its invariants
-- read. A numeric entry is what `float()` makes of it: a number, or the exception that it raises
-- (`TypeError`, `ValueError` or `OverflowError`; a conversion that raises another is not modelled).
-- Units: `frequency_hz` and the band edges are counted in half steps and `bandwidth_hz` in whole
-- steps of one frequency grid, so that `bw / 2.0` is exact; powers and gains in steps of one
-- dB grid, error rates and confidences in steps of 10^-9. A missing `emit_blocked` is `false`.
use preceptual_ai_5g_dynamic.Prelude.Int.{ℤ}
use preceptual_ai_5g_dynamic.Prelude.{Bool, Option, String, none, some, true}
use preceptual_ai_5g_dynamic.Prelude.Flt.{Flt}
use preceptual_ai_5g_dynamic.Prelude.Outcome.{
  Outcome, ok, overflow_error, raised, type_error, value_error,
}
use preceptual_ai_5g_dynamic.LawfulIntercept.{IdField}

pub data Value : Type 0 where
  number : Flt → Value
  wrong_type wrong_value too_large : Value

-- An entry that `int()` reads too: a whole number, a number with a fraction (cut to `ℤ` by
-- `int()`), a value that is not finite, or an exception.
pub data OrderValue : Type 0 where
  whole : ℤ → OrderValue
  cut : ℤ → OrderValue
  not_finite : Flt → OrderValue
  order_wrong_type order_wrong_value : OrderValue

pub record Action : Type 0 where
  pub block : Option String
  pub emit_blocked : Bool
  pub shield_fallback_to : Option String
  pub frequency_hz : Option Value
  pub bandwidth_hz : Option Value
  pub tx_power_dbm : Option Value
  pub antenna_gain_dbi : Option Value
  pub sat_antenna_gain_dbi : Option Value
  pub predicted_tbler : Option Value
  pub baseline_tbler : Option Value
  pub demap_confidence : Option Value
  pub papr_db : Option Value
  pub constellation_order : Option OrderValue
  pub ntn : Bool
  pub slant_range_m : Option Value
  pub affected_ue_ids : IdField
  pub affected_slice_ids : IdField
  pub target_jurisdiction : Option String

pub record Context : Type 0 where
  pub measured_tbler : Option Value

-- `float(v)`
unfoldable pub to_float : Value → Outcome Flt
to_float (number x) = ok x
to_float wrong_type = raised type_error
to_float wrong_value = raised value_error
to_float too_large = raised overflow_error

-- `float(action.get(key, default))`
unfoldable pub float_or : Option Value → Flt → Outcome Flt
unfolding to_float
float_or none default = ok default
float_or (some v) default = to_float v

abbrev pub block_emit : Action → Action
block_emit a = record a { emit_blocked = true }
