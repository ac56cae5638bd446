-- ===== src/Liveness/Verdict.antt =====
-- runtime/liveness.py: what the verdicts say of the signals that came in.
use preceptual_ai_5g_dynamic.Prelude.Outcome.{Outcome, ok, raised}
use preceptual_ai_5g_dynamic.Prelude.{
  Bool-cases, List, Option, String, [], arith, false, if◌then◌else◌, inl, inr, none, refl, some,
  true, ◌↔◌, ◌∷◌, ◌≡◌,
}
use preceptual_ai_5g_dynamic.Prelude.Flt.{Flt, lit, lt_flt, max_flt, sub_flt}
use preceptual_ai_5g_dynamic.Liveness.{
  Limits, LivenessRegistry, evaluate, lagging, live_failures, mark_planner_heartbeat,
  mark_watchdog_tick, new_liveness, record_loop_lag, report_of, stale, stalled,
}

-- what the producers report
pub data Signal : Type 0 where
  tick : Flt → Signal
  heartbeat : Flt → Signal
  lag_reading : Flt → Signal

unfoldable pub receive : Signal → LivenessRegistry → LivenessRegistry
receive (tick t) r = mark_watchdog_tick t r
receive (heartbeat t) r = mark_planner_heartbeat t r
receive (lag_reading x) r = record_loop_lag x r

unfoldable pub receive_all : List Signal → LivenessRegistry → LivenessRegistry
receive_all [] r = r
receive_all (s ∷ ss) r = receive_all ss (receive s r)

-- the time of the last tick, the last heartbeat if there was one, and the last reading of the lag
abbrev pub last_tick : Flt → List Signal → Flt
last_tick t [] = t
last_tick t (tick u ∷ ss) = last_tick u ss
last_tick t (heartbeat u ∷ ss) = last_tick t ss
last_tick t (lag_reading x ∷ ss) = last_tick t ss

abbrev pub last_heartbeat : Option Flt → List Signal → Option Flt
last_heartbeat t [] = t
last_heartbeat t (tick u ∷ ss) = last_heartbeat t ss
last_heartbeat t (heartbeat u ∷ ss) = last_heartbeat (some u) ss
last_heartbeat t (lag_reading x ∷ ss) = last_heartbeat t ss

abbrev pub last_lag : Flt → List Signal → Flt
last_lag x [] = x
last_lag x (tick u ∷ ss) = last_lag x ss
last_lag x (heartbeat u ∷ ss) = last_lag x ss
last_lag x (lag_reading y ∷ ss) = last_lag (max_flt (lit 0) y) ss

-- the planner was heard, and not too long ago
abbrev pub Recent : Limits → Flt → Option Flt → Type 0
Recent l now none = Unit
Recent l now (some t) = lt_flt l.planner_max_silence (sub_flt now t) ≡ false

-- the heartbeat that a registry remembers
abbrev heard : LivenessRegistry → Option Flt
heard r = if r.planner_seen_heartbeat then some r.last_planner_heartbeat else none

receive_all-fields :
    (ss : List Signal) (r : LivenessRegistry)
    → let r' = receive_all ss r in
      (r'.limits ≡ r.limits)
      × (r'.last_watchdog_tick ≡ last_tick r.last_watchdog_tick ss)
      × (r'.loop_lag ≡ last_lag r.loop_lag ss)
      × (heard r' ≡ last_heartbeat (heard r) ss)
unfolding receive_all receive mark_watchdog_tick mark_planner_heartbeat record_loop_lag
receive_all-fields [] r = (refl, refl, refl, refl)
receive_all-fields (tick t ∷ ss) r = receive_all-fields ss (mark_watchdog_tick t r)
receive_all-fields (heartbeat t ∷ ss) r = receive_all-fields ss (mark_planner_heartbeat t r)
receive_all-fields (lag_reading x ∷ ss) r = receive_all-fields ss (record_loop_lag x r)

Recent-heard :
    (now : Flt) (r : LivenessRegistry) → (stalled now r ≡ false) ↔ Recent r.limits now (heard r)
unfolding stalled
Recent-heard now r = elim (Bool-cases r.planner_seen_heartbeat) [
  | inl seen ↦ rw seen (λ h. h, λ h. h)
  | inr unseen ↦ rw unseen (λ h. tt, λ h. refl)
]

evaluate_iff :
    (now : Flt) (r : LivenessRegistry)
    → ((evaluate now r).is_ok ≡ true)
      ↔ ((stale now r ≡ false) × (lagging r ≡ false) × (stalled now r ≡ false))
unfolding evaluate live_failures report_of
evaluate_iff now r = ground arith

evaluate_of :
    (now : Flt) (r : LivenessRegistry) (l : Limits) (t x : Flt) (o : Option Flt)
    → r.limits ≡ l
    → r.last_watchdog_tick ≡ t
    → r.loop_lag ≡ x
    → heard r ≡ o
    → ((evaluate now r).is_ok ≡ true) ↔ (
        (lt_flt l.watchdog_max_age (sub_flt now t) ≡ false)
        × (lt_flt l.loop_lag_max x ≡ false)
        × Recent l now o)
unfolding stale lagging
evaluate_of now r l t x o limits ticked lag silent =
    let verdict = evaluate_iff now r in
    let planner = Recent-heard now r in
    rw (← limits, ← ticked, ← lag, ← silent)
      (
        λ h. let k = verdict.0 h in (k.0, k.1, planner.0 k.2),
        λ h. verdict.1 (h.0, h.1, planner.1 h.2),
      )

-- After any signals, /healthz is ok exactly when neither the last tick of the watchdog, or the boot
-- where there was none, is older than its limit, nor the last lag reading above its limit, nor the
-- last heartbeat of the planner, if there was one, older than the tolerated silence.
pub evaluate-receive_all :
    (ss : List Signal) (l : Limits) (boot now : Flt)
    → ((evaluate now (receive_all ss (new_liveness l boot))).is_ok ≡ true) ↔ (
        (lt_flt l.watchdog_max_age (sub_flt now (last_tick boot ss)) ≡ false)
        × (lt_flt l.loop_lag_max (last_lag (lit 0) ss) ≡ false)
        × Recent l now (last_heartbeat none ss))
unfolding new_liveness
evaluate-receive_all ss l boot now =
    let (limits, ticked, lag, silent) = receive_all-fields ss (new_liveness l boot) in
    evaluate_of now (receive_all ss (new_liveness l boot)) l (last_tick boot ss)
      (last_lag (lit 0) ss) (last_heartbeat none ss) limits ticked lag silent

-- A provider that is set returned what is wanted.
abbrev pub Gives {ℓ} : {A : Type ℓ} → Option (Outcome A) → A → Type ℓ
Gives none wanted = Unit
Gives (some o) wanted = o ≡ ok wanted

abbrev returned : Outcome String → String
returned (ok s) = s
returned (raised e) = ""
