-- ===== src/Shield/Numeric.antt =====
-- shield/invariants.py: `NumericSanityInvariant`. Ratios are counted in steps of 1e-9. A problem is
-- the name of its field.
use preceptual_ai_5g_dynamic.Prelude.{
  Bool, List, Option, String, [], false, if◌then◌else◌, none, nonempty, not, some, true, ◌&&◌, ◌++◌,
  ◌∷◌,
}
use preceptual_ai_5g_dynamic.Prelude.Int.{pos}
use preceptual_ai_5g_dynamic.Prelude.Flt.{Flt, is_finite, le_flt, leb_ℤ, lit, lt_flt}
use preceptual_ai_5g_dynamic.Prelude.Outcome.{Outcome, ok}
use preceptual_ai_5g_dynamic.Shield.Certificate.{
  ConstraintViolation, InvariantCheck, hard, unit_domain,
}
use preceptual_ai_5g_dynamic.Shield.Action.{
  Action, Context, OrderValue, Value, block_emit, cut, not_finite, number, order_wrong_type,
  order_wrong_value, too_large, whole, wrong_type, wrong_value,
}
use preceptual_ai_5g_dynamic.Shield.Dispose.{Invariant}

abbrev pub one_ratio : Flt
one_ratio = lit 1000000000

abbrev finite_only : Flt → Option Flt
finite_only x = if is_finite x then some x else none

-- `_number(action.get(key))`: `float(None)` is a `TypeError`
unfoldable pub number_of : Option Value → Option Flt
unfolding is_finite
number_of none = none
number_of (some (number x)) = finite_only x
number_of (some wrong_type) = none
number_of (some wrong_value) = none
number_of (some too_large) = none

-- `[name]` if the test says that there is a problem
abbrev pub problem_if : Bool → String → List String
problem_if bad name = if bad then name ∷ [] else []

-- `x is None or x <= 0.0`
unfoldable pub not_positive : Option Flt → Bool
unfolding le_flt
not_positive none = true
not_positive (some x) = le_flt x (lit 0)

unfoldable pub is_missing : Option Flt → Bool
is_missing none = true
is_missing (some _) = false

-- `key in action and self._number(action[key]) is None`
unfoldable pub present_and_bad : Option Value → Bool
unfolding number_of is_missing
present_and_bad none = false
present_and_bad (some v) = is_missing (number_of (some v))

-- `value is None or not 0.0 <= value <= 1.0`
unfoldable pub outside_unit : Option Flt → Bool
unfolding le_flt
outside_unit none = true
outside_unit (some x) = not (le_flt (lit 0) x && le_flt x one_ratio)

-- the loop over the probabilities skips a key that is not there
unfoldable pub bad_ratio : Option Value → Bool
unfolding number_of outside_unit
bad_ratio none = false
bad_ratio (some v) = outside_unit (number_of (some v))

-- `papr is None or papr < 0.0`
unfoldable pub is_negative : Option Flt → Bool
unfolding lt_flt
is_negative none = true
is_negative (some x) = lt_flt x (lit 0)

unfoldable pub bad_papr : Option Value → Bool
unfolding number_of is_negative
bad_papr none = false
bad_papr (some v) = is_negative (number_of (some v))

-- `order is None or order <= 0.0 or not order.is_integer()`
unfoldable pub bad_order : Option OrderValue → Bool
bad_order none = false
bad_order (some (whole n)) = leb_ℤ n (pos 0)
bad_order (some (cut _)) = true
bad_order (some (not_finite _)) = true
bad_order (some order_wrong_type) = true
bad_order (some order_wrong_value) = true

unfoldable pub problems : Action → List String
unfolding number_of not_positive is_missing present_and_bad bad_ratio bad_papr bad_order
problems a =
    problem_if (not_positive (number_of a.frequency_hz)) "frequency_hz"
    ++ (problem_if (not_positive (number_of a.bandwidth_hz)) "bandwidth_hz"
        ++ (problem_if (is_missing (number_of a.tx_power_dbm)) "tx_power_dBm"
            ++ (problem_if (present_and_bad a.antenna_gain_dbi) "antenna_gain_dBi"
                ++ (problem_if (present_and_bad a.sat_antenna_gain_dbi) "sat_antenna_gain_dBi"
                    ++ (problem_if (bad_ratio a.predicted_tbler) "predicted_tbler"
                        ++ (problem_if (bad_ratio a.baseline_tbler) "baseline_tbler"
                            ++ (problem_if (bad_ratio a.demap_confidence) "demap_confidence"
                                ++ (problem_if (bad_papr a.papr_db) "papr_dB"
                                    ++ (problem_if (bad_order a.constellation_order)
                                          "constellation_order"
                                        ++ problem_if
                                            (a.ntn && not_positive (number_of a.slant_range_m))
                                            "slant_range_m")))))))))

abbrev pub sanity_id : String
sanity_id = "numeric_domain_sanity"

unfoldable pub evaluate_sanity : Action → Context → Outcome InvariantCheck
evaluate_sanity a context = ok (record {
  invariant_id = sanity_id;
  satisfied = not (nonempty (problems a));
  margin = none;
  margin_unit = unit_domain;
})

unfoldable pub project_sanity : Action → Context → Outcome (Action × List ConstraintViolation)
project_sanity a context =
    if nonempty (problems a)
    then ok
        (block_emit a, record { constraint_id = sanity_id; severity = hard; margin_db = none } ∷ [])
    else ok (a, [])

unfoldable pub numeric_sanity : Invariant
unfolding evaluate_sanity project_sanity
numeric_sanity = record { id = sanity_id; evaluate = evaluate_sanity; project = project_sanity }
