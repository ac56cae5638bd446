-- ===== src/Pipeline/Accepted.antt =====
-- rapp/pipeline.py: what an accepted decision has passed.

use preceptual_ai_5g_dynamic.Prelude.Int.{pos, ◌+ℤ◌}
use preceptual_ai_5g_dynamic.Guards.Chain.{MayEmit}
use preceptual_ai_5g_dynamic.Shield.Action.{Value, number, too_large, wrong_type, wrong_value}
use preceptual_ai_5g_dynamic.Shield.Terrestrial.{IsCompliant, terrestrial_safe}
use preceptual_ai_5g_dynamic.A1.Emit.{env_truthy}
use preceptual_ai_5g_dynamic.Pipeline.State.{Loop, Parts, PipelineResult, RunInput}
use preceptual_ai_5g_dynamic.Pipeline.Process.{act, process_event}
use preceptual_ai_5g_dynamic.Prelude.{Option, false, none, refl, some, subst, sym, true, ◌∙◌, ◌≡◌}
use preceptual_ai_5g_dynamic.Prelude.Flt.{Flt, fin, lt_flt}
use preceptual_ai_5g_dynamic.Prelude.Outcome.{Outcome, ok, raised}
use preceptual_ai_5g_dynamic.Shield.Dispose.{default_max_passes}
use preceptual_ai_5g_dynamic.Pipeline.Decide.{
  TelemetryEvent, below_floor, default_constellation, min_viable_tx_power, or_none, pipeline_chain,
  receiver_of, safe_tx_val, shield_action,
}
use preceptual_ai_5g_dynamic.Pipeline.Records.{Verdict, decide, is_blocked}
use preceptual_ai_5g_dynamic.Pipeline.Gate.{failures_of_iff, is_blocked_iff}
use preceptual_ai_5g_dynamic.Pipeline.Branches.{IsDecided, WasPut, act-accepted, decide-IsDecided}

module _ {P W S : Type 0} (parts : Parts P W S) where
  -- What stands behind a decision that was accepted, for any Shield parameters, telemetry and RIC:
  -- the action was certified as safe and complies with the band and the EIRP ceiling of the
  -- configuration; every guard passed; its power is at least the floor of the hardware; and the
  -- payload was put to the RIC, which answered.
  pub record IsClean (input : RunInput) (event : TelemetryEvent) (l : Loop P W S) (v : Verdict)
      : Type 0 where
    pub compliant :
        IsCompliant none
          (parts.cfg.band_lo +ℤ parts.cfg.band_lo)
          (parts.cfg.band_hi +ℤ parts.cfg.band_hi)
          (pos 0)
          parts.cfg.max_eirp
          (receiver_of parts.ratio_db)
          v.disposition.safe_action
          (record { measured_tbler = none })
    pub guarded :
        MayEmit v.disposition.certificate true input.elapsed_ms parts.cfg.decision_budget_ms
          (or_none v.disposition.certificate.corrections)
    pub above_floor :
        (x : Flt) × (v.disposition.safe_action.tx_power_dbm ≡ some (number x))
        × (lt_flt x (fin min_viable_tx_power) ≡ false)
    pub live : env_truthy parts.lib.normal input.dry_run ≡ false
    pub put : WasPut parts v l

  above :
      (value : Option Value) (tx : Option Flt)
      → safe_tx_val value ≡ ok tx
      → below_floor tx ≡ false
      → (x : Flt) × (value ≡ some (number x)) × (lt_flt x (fin min_viable_tx_power) ≡ false)
  unfolding safe_tx_val below_floor
  above none tx h k = let e : tx ≡ none = cc in cc (subst (λ t. below_floor t ≡ false) e k)
  above (some (number x)) tx h k =
      let e : tx ≡ some x = cc in (x, refl, subst (λ t. below_floor t ≡ false) e k)
  above (some wrong_type) tx h k =
      let e : tx ≡ none = cc in cc (subst (λ t. below_floor t ≡ false) e k)
  above (some wrong_value) tx h k =
      let e : tx ≡ none = cc in cc (subst (λ t. below_floor t ≡ false) e k)
  above (some too_large) tx h k = cc

  clean :
      (input : RunInput) (event : TelemetryEvent) (l : Loop P W S) (v : Verdict)
      → IsDecided parts.ratio_db parts.cfg event input.decision_id input.seed input.elapsed_ms v
      → is_blocked v ≡ false
      → env_truthy parts.lib.normal input.dry_run ≡ false
      → WasPut parts v l
      → IsClean input event l v
  unfolding pipeline_chain
  clean input event l v d open_gate live put =
      let c = v.disposition.certificate in
      let empty = ((is_blocked_iff v).0 open_gate).0 in
      let (may, floor) =
        (failures_of_iff parts.cfg input.elapsed_ms c d.tx).0 (sym d.failures_are ∙ empty) in
      record {
        compliant =
            terrestrial_safe none (parts.cfg.band_lo +ℤ parts.cfg.band_lo)
              (parts.cfg.band_hi +ℤ parts.cfg.band_hi) (pos 0) parts.cfg.max_eirp
              (receiver_of parts.ratio_db) default_constellation default_max_passes
              (record { decision_id = input.decision_id; rng_seed = none; loop_tier = "non_rt" })
              (shield_action parts.cfg) (record { measured_tbler = none }) v.disposition d.disposed
              may.certified;
        guarded = may;
        above_floor = above _ d.tx d.tx_is floor;
        live = live;
        put = put;
      }

  -- If `process_event` returns a result that says `accepted`, then its verdict is clean: the action
  -- was certified as safe and complies with the configuration's band and EIRP ceiling, every guard
  -- passed, the power is at least the hardware's floor, the kill switch is off, and the RIC answered
  -- the PUT of the payload under a registered type.
  pub process_event-accepted :
      (input : RunInput) (event : TelemetryEvent) (l l' : Loop P W S) (r : PipelineResult)
      → process_event parts input event l ≡ (ok r, l')
      → r.accepted ≡ true
      → (v : Verdict) × (decide parts.ratio_db parts.cfg event input.decision_id input.seed
            input.elapsed_ms
          ≡ ok v)
        × IsClean input event l v
  process_event-accepted input event l l' r h acc =
      decided (decide parts.ratio_db parts.cfg event input.decision_id input.seed input.elapsed_ms)
        refl (unfold process_event in h)
    where
      decided :
          (o : Outcome Verdict)
          → decide parts.ratio_db parts.cfg event input.decision_id input.seed input.elapsed_ms ≡ o
          → (elim o as (λ _. Outcome PipelineResult × Loop P W S) [
            | raised e ↦ (raised e, l)
            | ok v ↦ act parts input event v l
          ])
            ≡ (ok r, l')
          → (v : Verdict) × (decide parts.ratio_db parts.cfg event input.decision_id input.seed
                input.elapsed_ms
              ≡ ok v)
            × IsClean input event l v
      decided (raised e) is k = cc
      decided (ok v) is k =
          let (open_gate, live, put) = act-accepted parts input event v l l' r k acc in
          (v, is, clean input event l v (decide-IsDecided _ _ event _ _ _ v is) open_gate live put)
