-- ===== src/Shield/Terrestrial.antt =====
-- shield/shield.py: what a safe certificate of the terrestrial Shield means.
use preceptual_ai_5g_dynamic.Prelude.{
  List, Option, String, [], none, nonempty, not, refl, some, true, ℕ, ◌∷◌, ◌≡◌, ◌≢◌,
}
use preceptual_ai_5g_dynamic.Prelude.Int.{pos, ℤ, ◌+ℤ◌, ◌-ℤ◌, ◌≤ℤ◌}
use preceptual_ai_5g_dynamic.Prelude.Flt.{fin}
use preceptual_ai_5g_dynamic.Prelude.Outcome.{ok}
use preceptual_ai_5g_dynamic.LawfulIntercept.{LiConstraint, check_feasibility}
use preceptual_ai_5g_dynamic.Shield.Certificate.{
  ConstraintViolation, InvariantCheck, ShieldDisposition,
}
use preceptual_ai_5g_dynamic.Shield.Action.{Action, Context}
use preceptual_ai_5g_dynamic.Shield.Constellation.{Constellation}
use preceptual_ai_5g_dynamic.Shield.Dispose.{Labels, dispose}
use preceptual_ai_5g_dynamic.Shield.Soundness.{AllSatisfied, dispose-safe}
use preceptual_ai_5g_dynamic.Shield.Numeric.{evaluate_sanity, numeric_sanity, problems}
use preceptual_ai_5g_dynamic.Shield.Spectrum.{SpectralMask, max_eirp_invariant, spectral_mask}
use preceptual_ai_5g_dynamic.Shield.Phy.{NeuralRx, is_neural_rx, neural_rx_envelope}
use preceptual_ai_5g_dynamic.Shield.Chain.{
  evaluate_intercept, lawful_intercept, terrestrial_chain, to_li,
}
use preceptual_ai_5g_dynamic.Shield.Physics.{
  Gain, Holds, IsSane, eirp-below, mask-inside, neural-measured, problems-IsSane, satisfied_of_ok,
}

-- What compliance asks of an action: the carrier with its bandwidth inside the band, a guard band
-- away from both edges; the EIRP at most the ceiling; no breach of a lawful-intercept rule; and an
-- independent measurement for a neural receiver, where one is required.
pub record IsCompliant (li : Option LiConstraint) (lo hi g e : ℤ) (r : NeuralRx) (a : Action)
    (context : Context) : Type 0 where
  pub in_band :
      (f : ℤ) × (b : ℤ) × Holds a.frequency_hz f
      × Holds a.bandwidth_hz b
      × (pos 1 ≤ℤ b)
      × (lo +ℤ g ≤ℤ f -ℤ b)
      × (f +ℤ b ≤ℤ hi -ℤ g)
  pub eirp :
      (t : ℤ) × (gain : ℤ) × Holds a.tx_power_dbm t
      × Gain a.antenna_gain_dbi gain
      × (t +ℤ gain ≤ℤ e)
  pub intercept : (c : LiConstraint) → li ≡ some c → check_feasibility c (to_li a) ≡ []
  pub measured :
      is_neural_rx a ≡ true → r.require_measurement ≡ true → context.measured_tbler ≢ none

abbrev pub mask_of : ℤ → ℤ → ℤ → SpectralMask
mask_of lo hi g = record { band_lo = fin lo; band_hi = fin hi; guard_band = fin g }

-- The invariants of the radio that both Shields have.
abbrev pub PhysicsHold : ℤ → ℤ → ℤ → ℤ → NeuralRx → Action → Context → Type 0
PhysicsHold lo hi g e r a context =
    AllSatisfied
      (spectral_mask (mask_of lo hi g) ∷ max_eirp_invariant (fin e) ∷ neural_rx_envelope r ∷ []) a
      context

pub sanity-IsSane :
    (a : Action) (context : Context) (c : InvariantCheck)
    → evaluate_sanity a context ≡ ok c
    → c.satisfied ≡ true
    → IsSane a
unfolding evaluate_sanity
sanity-IsSane a context c h s =
    problems-IsSane a (no_problem (problems a) (satisfied_of_ok _ c h s))
  where
    no_problem : (ps : List String) → not (nonempty ps) ≡ true → ps ≡ []
    no_problem [] h = refl
    no_problem (p ∷ ps) h = cc

pub intercept-feasible :
    (c : LiConstraint) (a : Action) (context : Context) (k : InvariantCheck)
    → evaluate_intercept c a context ≡ ok k
    → k.satisfied ≡ true
    → check_feasibility c (to_li a) ≡ []
unfolding evaluate_intercept
intercept-feasible c a context k h s =
    no_violation (check_feasibility c (to_li a)) (satisfied_of_ok _ k h s)
  where
    no_violation : (vs : List ConstraintViolation) → not (nonempty vs) ≡ true → vs ≡ []
    no_violation [] h = refl
    no_violation (v ∷ vs) h = cc

pub physics-IsCompliant :
    (li : Option LiConstraint) (lo hi g e : ℤ) (r : NeuralRx) (a : Action) (context : Context)
    → IsSane a
    → ((c : LiConstraint) → li ≡ some c → check_feasibility c (to_li a) ≡ [])
    → PhysicsHold lo hi g e r a context
    → IsCompliant li lo hi g e r a context
unfolding spectral_mask max_eirp_invariant neural_rx_envelope
physics-IsCompliant li lo hi g e r a context sane legal (mask, (eirp, (neural, _))) =
    let (f, ef, _) = sane.frequency in
    let (b, eb, positive) = sane.bandwidth in
    let (t, et) = sane.power in
    let (gain, eg) = sane.gain in
    let inside = mask-inside lo hi g f b a context mask.0 ef eb mask.1 mask.2 in
    record {
      in_band = (f, b, ef, eb, positive, inside.0, inside.1);
      eirp = (t, gain, et, eg, eirp-below e t gain a context eirp.0 et eg eirp.1 eirp.2);
      intercept = legal;
      measured = neural-measured r a context neural.0 neural.1 neural.2;
    }

terrestrial-IsCompliant :
    (li : Option LiConstraint) (lo hi g e : ℤ) (r : NeuralRx) (k : Constellation) (a : Action)
    (context : Context)
    → AllSatisfied (terrestrial_chain li (mask_of lo hi g) (fin e) r k) a context
    → IsCompliant li lo hi g e r a context
unfolding terrestrial_chain numeric_sanity lawful_intercept
terrestrial-IsCompliant none lo hi g e r k a context (sane, (mask, (eirp, (neural, _)))) =
    physics-IsCompliant none lo hi g e r a context (sanity-IsSane a context sane.0 sane.1 sane.2)
      (λ c h. cc) (mask, (eirp, (neural, tt)))
terrestrial-IsCompliant (some c) lo hi g e r k a context
      (sane, (legal, (mask, (eirp, (neural, _))))) =
    physics-IsCompliant (some c) lo hi g e r a context
      (sanity-IsSane a context sane.0 sane.1 sane.2)
      (λ d h.
        let same : c ≡ d = cc in
        rw (← same) (intercept-feasible c a context legal.0 legal.1 legal.2))
      (mask, (eirp, (neural, tt)))

-- Whatever a planner proposes, and whatever the projections do: an action that the terrestrial
-- Shield certifies as safe is compliant: the carrier with its bandwidth lies a guard band inside
-- both band edges, power plus gain is at most the EIRP ceiling, no lawful-intercept rule is
-- breached, and a neural receiver is kept only on an independent measurement where one is required.
pub terrestrial_safe :
    (li : Option LiConstraint) (lo hi g e : ℤ) (r : NeuralRx) (k : Constellation) (n : ℕ)
    (l : Labels) (a : Action) (context : Context) (d : ShieldDisposition Action)
    → dispose n (terrestrial_chain li (mask_of lo hi g) (fin e) r k) l a context ≡ ok d
    → d.certificate.safe ≡ true
    → IsCompliant li lo hi g e r d.safe_action context
terrestrial_safe li lo hi g e r k n l a context d h s =
    terrestrial-IsCompliant li lo hi g e r k d.safe_action context
      (dispose-safe n (terrestrial_chain li (mask_of lo hi g) (fin e) r k) l a context d h s).0
