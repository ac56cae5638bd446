-- ===== src/Shield/Contained.antt =====
-- shield/invariants.py: what the terrestrial Shield's invariants can raise, the receiver's and the
-- constellation's included.
use preceptual_ai_5g_dynamic.Prelude.{
  Bool-cases, List, Option, [], inl, inr, length, none, nonempty, some, true, ℕ, ◌∷◌, ◌≡◌,
}
use preceptual_ai_5g_dynamic.Prelude.Int.{ℤ}
use preceptual_ai_5g_dynamic.Prelude.Flt.{Flt, lit}
use preceptual_ai_5g_dynamic.Prelude.Outcome.{ok}
use preceptual_ai_5g_dynamic.LawfulIntercept.{LiConstraint}
use preceptual_ai_5g_dynamic.Shield.Certificate.{ShieldDisposition}
use preceptual_ai_5g_dynamic.Shield.Action.{Action, Context, Value, float_or}
use preceptual_ai_5g_dynamic.Shield.Dispose.{Labels, dispose}
use preceptual_ai_5g_dynamic.Shield.Total.{AllContained, IsContained, dispose-total}
use preceptual_ai_5g_dynamic.Shield.Mild.{
  Mild, Mild-IsContained, Mild-bind, Mild-float_or, Mild-order_of, lawful_intercept-IsContained,
  max_eirp_invariant-IsContained, numeric_sanity-IsContained, spectral_mask-IsContained,
}
use preceptual_ai_5g_dynamic.Shield.Numeric.{one_ratio}
use preceptual_ai_5g_dynamic.Shield.Spectrum.{SpectralMask}
use preceptual_ai_5g_dynamic.Shield.Constellation.{
  Constellation, applies, constellation_legality, evaluate_constellation, is_allowed, legal_le,
  project_constellation, snap, snap_from, snap_order,
}
use preceptual_ai_5g_dynamic.Shield.Phy.{
  NeuralRx, baseline_or_predicted, evaluate_neural, grade, graded, is_neural_rx, measured_value,
  neural_rx_envelope, project_neural,
}
use preceptual_ai_5g_dynamic.Shield.Chain.{intercept_chain, terrestrial_chain}

-- The logarithm of the ratio raises nothing but what the Shield catches.
abbrev pub IsMildRatio : NeuralRx → Type 0
IsMildRatio r = (base measured : Flt) → Mild (r.ratio_db base measured)

Mild-graded :
    (r : NeuralRx) (a : Action) (base : Flt) (o : Option Flt)
    → IsMildRatio r
    → Mild (graded r a base o)
unfolding graded
Mild-graded r a base none h = tt
Mild-graded r a base (some measured) h =
    Mild-bind _ _ (h base measured)
      (λ ratio. Mild-bind _ _ (Mild-float_or a.demap_confidence one_ratio) (λ conf. tt))

Mild-measured_value : (r : NeuralRx) (v : Option Value) (x : Flt) → Mild (measured_value r v x)
unfolding measured_value float_or
Mild-measured_value r none x = tt
Mild-measured_value r (some v) x = Mild-bind _ _ (Mild-float_or (some v) x) (λ y. tt)

Mild-evaluate_neural :
    (r : NeuralRx) (a : Action) (context : Context)
    → IsMildRatio r
    → Mild (evaluate_neural r a context)
unfolding evaluate_neural grade
Mild-evaluate_neural r a context h = elim (Bool-cases (is_neural_rx a)) [
  | inr other ↦ rw other tt
  | inl neural ↦ rw neural (
      Mild-bind _ _ (Mild-float_or a.baseline_tbler (lit 0)) (λ base.
        Mild-bind _ _ (Mild-float_or a.predicted_tbler (lit 0)) (λ own.
          Mild-bind _ _ (Mild-measured_value r context.measured_tbler own)
            (λ m. Mild-graded r a base m h))))
]

Mild-project_neural :
    (r : NeuralRx) (a : Action) (context : Context)
    → IsMildRatio r
    → Mild (project_neural r a context)
unfolding project_neural
Mild-project_neural r a context h = Mild-bind _ _ (Mild-evaluate_neural r a context h) (λ c.
    elim (Bool-cases c.satisfied) [
      | inl fine ↦ rw fine tt
      | inr bad ↦ rw bad (Mild-bind _ _ (Mild-float_or (baseline_or_predicted a) (lit 0)) (λ x. tt))
    ])

neural_rx_envelope-IsContained : (r : NeuralRx) → IsMildRatio r → IsContained (neural_rx_envelope r)
unfolding neural_rx_envelope
neural_rx_envelope-IsContained r h =
    Mild-IsContained (neural_rx_envelope r) (λ a context. Mild-evaluate_neural r a context h)
      (λ a context. Mild-project_neural r a context h)

Mild-snap_from : (os allowed : List ℕ) → nonempty allowed ≡ true → Mild (snap_from os allowed)
unfolding snap_from
Mild-snap_from (o ∷ os) allowed h = tt
Mild-snap_from [] (o ∷ os) h = tt
Mild-snap_from [] [] h = cc

Mild-snap_order :
    (k : Constellation) (order : ℤ) (a : Action)
    → nonempty k.allowed_orders ≡ true
    → Mild (snap_order k order a)
unfolding snap_order snap
Mild-snap_order k order a h = elim (Bool-cases (is_allowed order k.allowed_orders)) [
  | inl legal ↦ rw (Mild, snap_order, legal) tt
  | inr illegal ↦
      rw (Mild, snap_order, illegal)
        (Mild-bind _ _ (Mild-snap_from (legal_le order k.allowed_orders) k.allowed_orders h)
          (λ n. tt))
]

constellation_legality-IsContained :
    (k : Constellation) → nonempty k.allowed_orders ≡ true → IsContained (constellation_legality k)
unfolding constellation_legality evaluate_constellation project_constellation
constellation_legality-IsContained k h =
    Mild-IsContained (constellation_legality k)
      (λ a context. elim (Bool-cases (applies a)) [
        | inr other ↦ rw other tt
        | inl mine ↦ rw mine (
            Mild-bind _ _ (Mild-order_of a.constellation_order)
              (λ order. Mild-bind _ _ (Mild-float_or a.papr_db (lit 0)) (λ papr. tt)))
      ])
      (λ a context. elim (Bool-cases (applies a)) [
        | inr other ↦ rw other tt
        | inl mine ↦ rw mine (
            Mild-bind _ _ (Mild-order_of a.constellation_order) (λ order.
              Mild-bind _ _ (Mild-snap_order k order a h)
                (λ r. Mild-bind _ _ (Mild-float_or r.0.papr_db (lit 0)) (λ papr. tt))))
      ])

pub terrestrial_chain-AllContained :
    (li : Option LiConstraint) (mask : SpectralMask) (e : Flt) (r : NeuralRx) (k : Constellation)
    → IsMildRatio r
    → nonempty k.allowed_orders ≡ true
    → AllContained (terrestrial_chain li mask e r k)
unfolding terrestrial_chain intercept_chain
terrestrial_chain-AllContained none mask e r k h o = (
  numeric_sanity-IsContained,
  (
    spectral_mask-IsContained mask,
    (
      max_eirp_invariant-IsContained e,
      (neural_rx_envelope-IsContained r h, (constellation_legality-IsContained k o, tt)),
    ),
  ),
)
terrestrial_chain-AllContained (some c) mask e r k h o = (
  numeric_sanity-IsContained,
  (
    lawful_intercept-IsContained c,
    (
      spectral_mask-IsContained mask,
      (
        max_eirp_invariant-IsContained e,
        (neural_rx_envelope-IsContained r h, (constellation_legality-IsContained k o, tt)),
      ),
    ),
  ),
)

-- If the logarithm raises nothing but what the Shield catches and there is an allowed order, then
-- the terrestrial Shield returns a disposition, with one check for each invariant, for every action
-- and context.
pub terrestrial_total :
    (li : Option LiConstraint) (mask : SpectralMask) (e : Flt) (r : NeuralRx) (k : Constellation)
    (n : ℕ) (l : Labels) (a : Action) (context : Context)
    → IsMildRatio r
    → nonempty k.allowed_orders ≡ true
    → let chain = terrestrial_chain li mask e r k in
      (d : ShieldDisposition Action) × (dispose n chain l a context ≡ ok d)
      × (length d.certificate.invariants ≡ length chain)
terrestrial_total li mask e r k n l a context h o =
    dispose-total n (terrestrial_chain li mask e r k) l a context
      (terrestrial_chain-AllContained li mask e r k h o)
