-- ===== src/Pipeline/Nominal.antt =====
-- rapp/pipeline.py: the action that the planner proposes passes the Shield as it is.

use preceptual_ai_5g_dynamic.Prelude.Outcome.{Outcome, ok, ◌>>=◌}
use preceptual_ai_5g_dynamic.Shield.Action.{Action, Context, float_or, to_float}
use preceptual_ai_5g_dynamic.Shield.Spectrum.{
  edges, eirp_of, evaluate_eirp, evaluate_mask, mask_margin, max_eirp_invariant, spectral_mask,
}
use preceptual_ai_5g_dynamic.Shield.Phy.{
  block_text, evaluate_neural, is_neural_rx, neural_rx_envelope,
}
use preceptual_ai_5g_dynamic.Shield.Constellation.{
  applies, constellation_legality, evaluate_constellation,
}
use preceptual_ai_5g_dynamic.Shield.Chain.{intercept_chain, terrestrial_chain}
use preceptual_ai_5g_dynamic.Shield.Dispose.{Labels, default_max_passes}
use preceptual_ai_5g_dynamic.Shield.Soundness.{AllSatisfied}
use preceptual_ai_5g_dynamic.Shield.Complete.{dispose-AllSatisfied}
use preceptual_ai_5g_dynamic.Prelude.Dict.{lookup}
use preceptual_ai_5g_dynamic.Pipeline.Gate.{failures_of_iff, is_blocked_iff}
use preceptual_ai_5g_dynamic.Prelude.{
  Bool-cases, Option, String, [], arith, false, inl, inr, none, refl, some, subst, sym, true, ℕ,
  ◌↔◌, ◌∙◌, ◌≡◌,
}
use preceptual_ai_5g_dynamic.Prelude.Int.{int_laws, ltb_ℤ, negsuc, pos, ℤ, ◌+ℤ◌, ◌-ℤ◌, ◌≤ℤ◌}
use preceptual_ai_5g_dynamic.Prelude.Flt.{
  Flt, add_flt, fin, is_finite, le_flt, leb_ℤ, lit, lt_flt, min_flt, sub_flt,
}
use preceptual_ai_5g_dynamic.Shield.Numeric.{
  bad_order, bad_papr, bad_ratio, evaluate_sanity, is_missing, not_positive, number_of,
  numeric_sanity, present_and_bad, problems,
}
use preceptual_ai_5g_dynamic.A1.Json.{Json}
use preceptual_ai_5g_dynamic.Pipeline.Planner.{candidates, choose, risk_of}
use preceptual_ai_5g_dynamic.Pipeline.Conforms.{planned, planned-Conforms}
use preceptual_ai_5g_dynamic.Pipeline.Records.{Verdict, decide, is_blocked, payload_at, verdict_of}
use preceptual_ai_5g_dynamic.Pipeline.Decide.{
  PipelineConfig, TelemetryEvent, below_floor, failures_of, min_viable_tx_power, min_ℤ,
  pipeline_chain, safe_tx_val, shield_action,
}

-- a band whose centre is above 0 and that is at least one step wide
abbrev pub IsBand : PipelineConfig → Type 0
IsBand cfg = (pos 1 ≤ℤ cfg.band_lo +ℤ cfg.band_hi) × (cfg.band_lo +ℤ pos 1 ≤ℤ cfg.band_hi)

positive_centre :
    (cfg : PipelineConfig) → IsBand cfg → leb_ℤ (cfg.band_lo +ℤ cfg.band_hi) (pos 0) ≡ false
positive_centre cfg h = ground arith

positive_width : (a b : ℤ) → a +ℤ pos 1 ≤ℤ b → leb_ℤ (min_ℤ (pos 20000000) (b -ℤ a)) (pos 0) ≡ false
unfolding ◌-ℤ◌ ◌+ℤ◌
positive_width a b h = ground arith

nominal_problems : (cfg : PipelineConfig) → IsBand cfg → problems (shield_action cfg) ≡ []
unfolding problems number_of not_positive is_finite le_flt shield_action is_missing present_and_bad
    bad_ratio bad_papr bad_order
nominal_problems cfg h = rw (positive_centre cfg h, positive_width cfg.band_lo cfg.band_hi h.1) refl

leb_ℤ_of : (a b : ℤ) → a ≤ℤ b → leb_ℤ a b ≡ true
leb_ℤ_of a b h = ground arith

least_of_both :
    (a b : ℤ) → pos 0 ≤ℤ a → pos 0 ≤ℤ b → le_flt (lit 0) (min_flt (fin a) (fin b)) ≡ true
unfolding min_flt lt_flt le_flt
least_of_both a b h k = elim (Bool-cases (ltb_ℤ b a)) [
  | inl less ↦ rw less (leb_ℤ_of (pos 0) b k)
  | inr more ↦ rw more (leb_ℤ_of (pos 0) a h)
]

narrow : (w : ℤ) → min_ℤ (pos 20000000) w ≤ℤ w
narrow w = ground arith

weak : (e : ℤ) → min_ℤ (pos 2400) (e -ℤ pos 900) ≤ℤ e -ℤ pos 900
weak e = ground arith

nominal_mask :
    (lo hi w : ℤ)
    → w ≤ℤ hi -ℤ lo
    → (pos 0 ≤ℤ lo +ℤ hi -ℤ w -ℤ (lo +ℤ lo +ℤ pos 0))
      × (pos 0 ≤ℤ hi +ℤ hi -ℤ pos 0 -ℤ (lo +ℤ hi +ℤ w))
nominal_mask lo hi w h = (omega int_laws, omega int_laws)

nominal_eirp : (e t : ℤ) → t ≤ℤ e -ℤ pos 900 → pos 0 ≤ℤ e -ℤ (t +ℤ pos 500)
nominal_eirp e t h = omega int_laws

nominal-AllSatisfied :
    (ratio_db : Flt → Flt → Outcome Flt) (cfg : PipelineConfig) (context : Context)
    → IsBand cfg
    → AllSatisfied (pipeline_chain ratio_db cfg) (shield_action cfg) context
unfolding pipeline_chain terrestrial_chain intercept_chain numeric_sanity spectral_mask
    max_eirp_invariant neural_rx_envelope constellation_legality evaluate_sanity evaluate_mask edges
    evaluate_eirp eirp_of evaluate_neural is_neural_rx block_text evaluate_constellation applies
    float_or to_float mask_margin sub_flt add_flt shield_action le_flt
nominal-AllSatisfied ratio_db cfg context h =
    let inside =
      nominal_mask cfg.band_lo cfg.band_hi (min_ℤ (pos 20000000) (cfg.band_hi -ℤ cfg.band_lo))
        (narrow (cfg.band_hi -ℤ cfg.band_lo)) in
    (
      (_, refl, rw (nominal_problems cfg h) refl),
      (
        (_, refl, least_of_both _ _ inside.0 inside.1),
        (
          (
            _,
            refl,
            leb_ℤ_of (pos 0) _ (
                nominal_eirp cfg.max_eirp (min_ℤ (pos 2400) (cfg.max_eirp -ℤ pos 900))
                  (weak cfg.max_eirp)),
          ),
          ((_, refl, refl), ((_, refl, refl), tt)),
        ),
      ),
    )

-- the ceiling of -1 dBm, below which the planned power is under the hardware's floor
abbrev pub least_ceiling : ℤ
least_ceiling = negsuc 99

floor_of_ceiling :
    (e : ℤ)
    → (lt_flt (fin (min_ℤ (pos 2400) (e -ℤ pos 900))) (fin min_viable_tx_power) ≡ false)
      ↔ (least_ceiling ≤ℤ e)
unfolding lt_flt ◌-ℤ◌
floor_of_ceiling e = (λ h. ground arith, λ h. ground arith)

planned-payload_at :
    (source_id : String) (risk : ℕ) (decision_id : String)
    → (payload : Json) × (payload_at (choose risk) (candidates source_id risk decision_id)
        ≡ ok payload)
unfolding payload_at planned
planned-payload_at source_id risk decision_id =
    let (payload, found, _) = planned-Conforms source_id risk decision_id in
    let f : lookup (choose risk) (candidates source_id risk decision_id) ≡ some payload = found in
    (payload, rw (payload_at, f) refl)

module _ (ratio_db : Flt → Flt → Outcome Flt) (cfg : PipelineConfig) where
  gate_of_ceiling :
      (elapsed : Flt) (v : Verdict)
      → v.failures
        ≡ failures_of cfg elapsed v.disposition.certificate
            (some (fin (min_ℤ (pos 2400) (cfg.max_eirp -ℤ pos 900))))
      → v.disposition.certificate.safe ≡ true
      → v.disposition.certificate.emit_blocked ≡ false
      → v.disposition.certificate.corrections ≡ []
      → (is_blocked v ≡ false)
        ↔ ((le_flt elapsed cfg.decision_budget_ms ≡ true) × (least_ceiling ≤ℤ cfg.max_eirp))
  unfolding below_floor
  gate_of_ceiling elapsed v are safe open_emit uncorrected =
      let c = v.disposition.certificate in
      let tx : Option Flt = some (fin (min_ℤ (pos 2400) (cfg.max_eirp -ℤ pos 900))) in
      (
        λ h.
            let (may, floor) =
              (failures_of_iff cfg elapsed c tx).0 (sym are ∙ ((is_blocked_iff v).0 h).0) in
            (may.in_time, (floor_of_ceiling cfg.max_eirp).0 floor),
        λ (timely, high). (is_blocked_iff v).1 (
          are
              ∙ (failures_of_iff cfg elapsed c tx).1 (
                record {
                  certified = safe;
                  not_blocked = open_emit;
                  pretrained = refl;
                  in_time = timely;
                  audited = inl uncorrected;
                },
                (floor_of_ceiling cfg.max_eirp).1 high,
              ),
          open_emit,
        ),
      )

  -- With a band of positive centre and width, the planned action passes the Shield unprojected and is
  -- certified as safe, for every event whose risk is read without an exception and whatever the dB
  -- ratio of the receiver check does. The decision is then blocked unless it was taken within the
  -- budget and the EIRP ceiling is at least -1 dBm; and in that case it is not blocked.
  pub decide_nominal :
      (event : TelemetryEvent) (decision_id : String) (seed : ℕ) (elapsed : Flt) (risk : ℕ)
      → IsBand cfg
      → risk_of event.sla_risk_30s ≡ ok risk
      → (v : Verdict) × (decide ratio_db cfg event decision_id seed elapsed ≡ ok v)
        × (v.policy_type ≡ choose risk)
        × (v.disposition.safe_action ≡ shield_action cfg)
        × (v.disposition.certificate.safe ≡ true)
        × (v.disposition.certificate.projected ≡ false)
        × ((is_blocked v ≡ false)
            ↔ ((le_flt elapsed cfg.decision_budget_ms ≡ true) × (least_ceiling ≤ℤ cfg.max_eirp)))
  unfolding decide verdict_of safe_tx_val shield_action
  decide_nominal event decision_id seed elapsed risk band read =
      let context : Context = record { measured_tbler = none } in
      let labels : Labels = record {
        decision_id = decision_id;
        rng_seed = none;
        loop_tier = "non_rt";
      } in
      let (payload, at_risk) = planned-payload_at event.source_id risk decision_id in
      let (d, disposed, same, safe, open_emit, unprojected, uncorrected) =
        dispose-AllSatisfied default_max_passes (pipeline_chain ratio_db cfg) labels
          (shield_action cfg) context (nominal-AllSatisfied ratio_db cfg context band) refl in
      let tx : safe_tx_val d.safe_action.tx_power_dbm
          ≡ ok (some (fin (min_ℤ (pos 2400) (cfg.max_eirp -ℤ pos 900)))) =
        subst
          (λ (a : Action).
            safe_tx_val a.tx_power_dbm
            ≡ ok (some (fin (min_ℤ (pos 2400) (cfg.max_eirp -ℤ pos 900)))))
          (sym same) refl in
      let v =
        verdict_of ratio_db cfg event decision_id seed elapsed risk payload d
          (some (fin (min_ℤ (pos 2400) (cfg.max_eirp -ℤ pos 900)))) in
      (
        v,
        rw (read, ◌>>=◌, at_risk, disposed, tx) refl,
        refl,
        same,
        safe,
        unprojected,
        gate_of_ceiling elapsed v refl safe open_emit uncorrected,
      )
