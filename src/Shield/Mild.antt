-- ===== src/Shield/Mild.antt =====
-- shield/invariants.py: what the sanity, lawful-intercept, mask and EIRP invariants can raise.
use preceptual_ai_5g_dynamic.Prelude.{
  Bool-cases, Option, inl, inr, none, nonempty, refl, some, true, ◌≡◌,
}
use preceptual_ai_5g_dynamic.Prelude.Flt.{
  Flt, double_flt, fin, inf, lit, lt_flt, nan, ninf, sub_flt,
}
use preceptual_ai_5g_dynamic.Prelude.Outcome.{Exn, Outcome, ok, raised, ◌>>=◌}
use preceptual_ai_5g_dynamic.LawfulIntercept.{LiConstraint}
use preceptual_ai_5g_dynamic.Shield.Action.{
  Action, Context, OrderValue, Value, cut, float_or, not_finite, number, order_wrong_type,
  order_wrong_value, to_float, too_large, whole, wrong_type, wrong_value,
}
use preceptual_ai_5g_dynamic.Shield.Dispose.{Invariant, caught}
use preceptual_ai_5g_dynamic.Shield.Total.{IsContained}
use preceptual_ai_5g_dynamic.Shield.Numeric.{
  evaluate_sanity, numeric_sanity, problems, project_sanity,
}
use preceptual_ai_5g_dynamic.Shield.Spectrum.{
  SpectralMask, edges, eirp_of, evaluate_eirp, evaluate_mask, max_eirp_invariant, project_eirp,
  project_mask, spectral_mask, usable_w,
}
use preceptual_ai_5g_dynamic.Shield.Constellation.{order_of}
use preceptual_ai_5g_dynamic.Shield.Chain.{evaluate_intercept, lawful_intercept, project_intercept}

-- The call returns, or raises what the Shield catches.
abbrev pub Mild {ℓ} : {A : Type ℓ} → Outcome A → Type 0
Mild (ok a) = Unit
Mild (raised e) = caught e ≡ true

pub Mild-bind {ℓ κ} :
    {A : Type ℓ} {B : Type κ} (m : Outcome A) (f : A → Outcome B)
    → Mild m
    → ((a : A) → Mild (f a))
    → Mild (m >>= f)
Mild-bind (ok a) f h k = k a
Mild-bind (raised e) f h k = h

Mild-raised {ℓ} : {A : Type ℓ} (o : Outcome A) (e : Exn) → Mild o → o ≡ raised e → caught e ≡ true
Mild-raised (ok a) e h k = cc
Mild-raised (raised d) e h k = let same : d ≡ e = cc in rw same at h

pub Mild-IsContained :
    (inv : Invariant)
    → ((a : Action) (context : Context) → Mild (inv.evaluate a context))
    → ((a : Action) (context : Context) → Mild (inv.project a context))
    → IsContained inv
Mild-IsContained inv h k = record {
  evaluates = λ a context e. Mild-raised (inv.evaluate a context) e (h a context);
  projects = λ a context e. Mild-raised (inv.project a context) e (k a context);
}

pub Mild-float_or : (v : Option Value) (x : Flt) → Mild (float_or v x)
unfolding float_or to_float caught
Mild-float_or none x = tt
Mild-float_or (some (number y)) x = tt
Mild-float_or (some wrong_type) x = refl
Mild-float_or (some wrong_value) x = refl
Mild-float_or (some too_large) x = refl

pub Mild-order_of : (v : Option OrderValue) → Mild (order_of v)
unfolding order_of caught
Mild-order_of none = tt
Mild-order_of (some (whole n)) = tt
Mild-order_of (some (cut n)) = tt
Mild-order_of (some (not_finite nan)) = refl
Mild-order_of (some (not_finite inf)) = refl
Mild-order_of (some (not_finite ninf)) = refl
Mild-order_of (some (not_finite (fin z))) = refl
Mild-order_of (some order_wrong_type) = refl
Mild-order_of (some order_wrong_value) = refl

Mild-project_sanity : (a : Action) (context : Context) → Mild (project_sanity a context)
unfolding project_sanity
Mild-project_sanity a context = elim (Bool-cases (nonempty (problems a))) [
  | inl bad ↦ rw bad tt
  | inr fine ↦ rw fine tt
]

pub numeric_sanity-IsContained : IsContained numeric_sanity
unfolding numeric_sanity evaluate_sanity
numeric_sanity-IsContained = Mild-IsContained numeric_sanity (λ a context. tt) Mild-project_sanity

pub lawful_intercept-IsContained : (c : LiConstraint) → IsContained (lawful_intercept c)
unfolding lawful_intercept evaluate_intercept project_intercept
lawful_intercept-IsContained c =
    Mild-IsContained (lawful_intercept c) (λ a context. tt) (λ a context. tt)

Mild-edges : (a : Action) → Mild (edges a)
unfolding edges
Mild-edges a =
    Mild-bind _ _ (Mild-float_or a.frequency_hz (lit 0))
      (λ f. Mild-bind _ _ (Mild-float_or a.bandwidth_hz (lit 0)) (λ bw. tt))

Mild-project_mask :
    (m : SpectralMask) (a : Action) (context : Context) → Mild (project_mask m a context)
unfolding project_mask
Mild-project_mask m a context = Mild-bind _ _ (Mild-float_or a.bandwidth_hz (lit 0)) (λ bw.
    elim (Bool-cases (lt_flt (usable_w m) (double_flt bw))) [
      | inl wide ↦ rw wide tt
      | inr fits ↦ rw fits (Mild-bind _ _ (Mild-float_or a.frequency_hz (lit 0)) (λ f. tt))
    ])

pub spectral_mask-IsContained : (m : SpectralMask) → IsContained (spectral_mask m)
unfolding spectral_mask evaluate_mask
spectral_mask-IsContained m =
    Mild-IsContained (spectral_mask m) (λ a context. Mild-bind _ _ (Mild-edges a) (λ e. tt))
      (Mild-project_mask m)

Mild-eirp_of : (a : Action) → Mild (eirp_of a)
unfolding eirp_of
Mild-eirp_of a =
    Mild-bind _ _ (Mild-float_or a.tx_power_dbm (lit 0))
      (λ tx. Mild-bind _ _ (Mild-float_or a.antenna_gain_dbi (lit 0)) (λ gain. tt))

Mild-project_eirp : (e : Flt) (a : Action) (context : Context) → Mild (project_eirp e a context)
unfolding project_eirp
Mild-project_eirp e a context = Mild-bind _ _ (Mild-eirp_of a) (λ eirp.
    elim (Bool-cases (lt_flt (lit 0) (sub_flt eirp e))) [
      | inl over ↦ rw over (Mild-bind _ _ (Mild-float_or a.tx_power_dbm (lit 0)) (λ tx. tt))
      | inr fine ↦ rw fine tt
    ])

pub max_eirp_invariant-IsContained : (e : Flt) → IsContained (max_eirp_invariant e)
unfolding max_eirp_invariant evaluate_eirp
max_eirp_invariant-IsContained e =
    Mild-IsContained (max_eirp_invariant e) (λ a context. Mild-bind _ _ (Mild-eirp_of a) (λ x. tt))
      (Mild-project_eirp e)
