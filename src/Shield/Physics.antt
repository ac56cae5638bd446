-- ===== src/Shield/Physics.antt =====
-- shield/invariants.py: what a satisfied invariant means in physical terms.

use preceptual_ai_5g_dynamic.Shield.Phy.{
  NeuralRx, evaluate_neural, grade, graded, is_neural_rx, measured_value,
}
use preceptual_ai_5g_dynamic.Prelude.{
  Bool, List, Option, String, [], arith, false, inl, inr, none, refl, some, true, ◌++◌, ◌≡◌, ◌≢◌,
  ◌⊎◌,
}
use preceptual_ai_5g_dynamic.Prelude.Int.{int_laws, pos, ℤ, ◌+ℤ◌, ◌-ℤ◌, ◌≤ℤ◌}
use preceptual_ai_5g_dynamic.Prelude.Flt.{
  add_flt, fin, is_finite, le_flt, leb_ℤ, lit, min_flt, nan, sub_flt,
}
use preceptual_ai_5g_dynamic.Prelude.Outcome.{Outcome-cases, ok}
use preceptual_ai_5g_dynamic.Shield.Certificate.{InvariantCheck}
use preceptual_ai_5g_dynamic.Shield.Action.{Action, Context, Value, float_or, number}
use preceptual_ai_5g_dynamic.Shield.Numeric.{
  is_missing, not_positive, number_of, present_and_bad, problem_if, problems,
}
use preceptual_ai_5g_dynamic.Shield.Spectrum.{
  edges, eirp_of, evaluate_eirp, evaluate_mask, mask_margin,
}

problem_if-nil :
    (bad : Bool) (name : String) (rest : List String)
    → problem_if bad name ++ rest ≡ []
    → (bad ≡ false) × (rest ≡ [])
problem_if-nil true name rest h = cc
problem_if-nil false name rest h = (refl, h)

pub number_of-positive :
    (v : Option Value)
    → not_positive (number_of v) ≡ false
    → (z : ℤ) × (v ≡ some (number (fin z))) × (pos 1 ≤ℤ z)
unfolding not_positive number_of le_flt is_finite
number_of-positive (some (number (fin z))) h = (z, refl, ground arith)
number_of-positive (some (number nan)) h = cc
number_of-positive _ h = cc

-- A finite number stands under the key.
abbrev pub Holds : Option Value → ℤ → Type 0
Holds v z = v ≡ some (number (fin z))

number_of-finite : (v : Option Value) → is_missing (number_of v) ≡ false → (z : ℤ) × Holds v z
unfolding is_missing number_of is_finite
number_of-finite (some (number (fin z))) h = (z, refl)
number_of-finite (some (number nan)) h = cc
number_of-finite _ h = cc

-- Nothing stands under the key, or a finite number does: the gain that is added.
abbrev pub Gain : Option Value → ℤ → Type 0
Gain v z = ((v ≡ none) × (z ≡ pos 0)) ⊎ Holds v z

present-Gain : (v : Option Value) → present_and_bad v ≡ false → (z : ℤ) × Gain v z
unfolding present_and_bad
present-Gain none h = (pos 0, inl (refl, refl))
present-Gain (some v) h = let (z, e) = number_of-finite (some v) h in (z, inr e)

pub record IsSane (a : Action) : Type 0 where
  pub frequency : (z : ℤ) × Holds a.frequency_hz z × (pos 1 ≤ℤ z)
  pub bandwidth : (z : ℤ) × Holds a.bandwidth_hz z × (pos 1 ≤ℤ z)
  pub power : (z : ℤ) × Holds a.tx_power_dbm z
  pub gain : (z : ℤ) × Gain a.antenna_gain_dbi z

pub problems-IsSane : (a : Action) → problems a ≡ [] → IsSane a
unfolding problems
problems-IsSane a h =
    let p = problem_if-nil _ "frequency_hz" _ h in
    let q = problem_if-nil _ "bandwidth_hz" _ p.1 in
    let r = problem_if-nil _ "tx_power_dBm" _ q.1 in
    let s = problem_if-nil _ "antenna_gain_dBi" _ r.1 in
    record {
      frequency = number_of-positive a.frequency_hz p.0;
      bandwidth = number_of-positive a.bandwidth_hz q.0;
      power = number_of-finite a.tx_power_dbm r.0;
      gain = present-Gain a.antenna_gain_dbi s.0;
    }

pub leb_ℤ-le : (a b : ℤ) → leb_ℤ a b ≡ true → a ≤ℤ b
leb_ℤ-le a b h = ground arith

pub nonneg_sub : (a b : ℤ) → pos 0 ≤ℤ a -ℤ b → b ≤ℤ a
nonneg_sub a b h = omega int_laws

-- A margin that is not negative is the smaller of two that are not.
min_flt-nonneg :
    (x y : ℤ) → le_flt (lit 0) (min_flt (fin x) (fin y)) ≡ true → (pos 0 ≤ℤ x) × (pos 0 ≤ℤ y)
unfolding min_flt le_flt
min_flt-nonneg x y h = ground arith

pub satisfied_of_ok : (r c : InvariantCheck) → ok r ≡ ok c → c.satisfied ≡ true → r.satisfied ≡ true
satisfied_of_ok r c h s = ground arith

-- Half a bandwidth on either side of the centre frequency stays inside the usable channel.
pub mask-inside :
    (lo hi g f b : ℤ) (a : Action) (context : Context) (c : InvariantCheck)
    → Holds a.frequency_hz f
    → Holds a.bandwidth_hz b
    → evaluate_mask (record { band_lo = fin lo; band_hi = fin hi; guard_band = fin g }) a context
      ≡ ok c
    → c.satisfied ≡ true
    → (lo +ℤ g ≤ℤ f -ℤ b) × (f +ℤ b ≤ℤ hi -ℤ g)
unfolding evaluate_mask edges float_or mask_margin sub_flt add_flt
mask-inside lo hi g f b a context c ef eb h s =
    let checked = satisfied_of_ok _ c (rw (ef, eb) at h) s in
    let (below, above) = min_flt-nonneg (f -ℤ b -ℤ (lo +ℤ g)) (hi -ℤ g -ℤ (f +ℤ b)) checked in
    (nonneg_sub (f -ℤ b) (lo +ℤ g) below, nonneg_sub (hi -ℤ g) (f +ℤ b) above)

pub eirp-below :
    (e t g : ℤ) (a : Action) (context : Context) (c : InvariantCheck)
    → Holds a.tx_power_dbm t
    → Gain a.antenna_gain_dbi g
    → evaluate_eirp (fin e) a context ≡ ok c
    → c.satisfied ≡ true
    → t +ℤ g ≤ℤ e
unfolding evaluate_eirp eirp_of float_or sub_flt add_flt le_flt
eirp-below e t g a context c et (inl (eg, z)) h s =
    let checked = satisfied_of_ok _ c (rw (et, eg) at h) s in
    rw z (nonneg_sub e (t +ℤ pos 0) (leb_ℤ-le (pos 0) (e -ℤ (t +ℤ pos 0)) checked))
eirp-below e t g a context c et (inr eg) h s =
    let checked = satisfied_of_ok _ c (rw (et, eg) at h) s in
    nonneg_sub e (t +ℤ g) (leb_ℤ-le (pos 0) (e -ℤ (t +ℤ g)) checked)

-- A neural receiver that must be measured and was not is never satisfied.
pub neural-measured :
    (r : NeuralRx) (a : Action) (context : Context) (c : InvariantCheck)
    → evaluate_neural r a context ≡ ok c
    → c.satisfied ≡ true
    → is_neural_rx a ≡ true
    → r.require_measurement ≡ true
    → context.measured_tbler ≢ none
unfolding evaluate_neural grade measured_value graded
neural-measured r a context c h s n q m = elim (Outcome-cases (float_or a.baseline_tbler (lit 0))) [
  | inr (x, ex) ↦ ground arith
  | inl (base, eb) ↦ elim (Outcome-cases (float_or a.predicted_tbler (lit 0))) [
    | inr (x, ex) ↦ ground arith
    | inl (own, eo) ↦ cc (satisfied_of_ok _ c (rw (n, eb, eo, m, q) at h) s)
  ]
]
