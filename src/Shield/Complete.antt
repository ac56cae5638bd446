-- ===== src/Shield/Complete.antt =====
-- shield/shield.py: the Shield leaves an action alone that satisfies every invariant.
use preceptual_ai_5g_dynamic.Prelude.{List, [], arith, false, refl, suc, true, zero, ℕ, ◌∷◌, ◌≡◌}
use preceptual_ai_5g_dynamic.Prelude.Outcome.{ok, ◌>>=◌}
use preceptual_ai_5g_dynamic.Shield.Certificate.{InvariantCheck, ShieldDisposition}
use preceptual_ai_5g_dynamic.Shield.Action.{Action, Context}
use preceptual_ai_5g_dynamic.Shield.Dispose.{
  Invariant, Labels, Progress, certify, check, dispose, ids_of, or_rejected, passes, unsatisfied,
}
use preceptual_ai_5g_dynamic.Shield.Soundness.{AllSatisfied}

AllSatisfied-check :
    (invs : List Invariant) (action : Action) (context : Context)
    → AllSatisfied invs action context
    → (cs : List InvariantCheck) × (check invs action context ≡ ok cs) × (unsatisfied cs ≡ [])
unfolding check or_rejected unsatisfied
AllSatisfied-check [] action context h = ([], refl, refl)
AllSatisfied-check (inv ∷ invs) action context ((c, evaluated, satisfied), rest) =
    let (cs, checked, none_left) = AllSatisfied-check invs action context rest in
    (c ∷ cs, rw (evaluated, ◌>>=◌, checked) refl, rw (satisfied, none_left) refl)

passes-satisfied :
    (n : ℕ) (invs : List Invariant) (context : Context) (p : Progress) (cs : List InvariantCheck)
    → check invs p.safe context ≡ ok cs
    → unsatisfied cs ≡ []
    → passes n invs context p ≡ ok p
unfolding passes
passes-satisfied zero invs context p cs checked u = refl
passes-satisfied (suc n) invs context p cs checked u = rw (checked, ◌>>=◌, u) refl

certify-satisfied :
    (l : Labels) (a : Action) (cs : List InvariantCheck)
    → unsatisfied cs ≡ []
    → a.emit_blocked ≡ false
    → let d = certify l a (record { safe = a; corrections = []; projected = false }) cs in
      (d.safe_action ≡ a)
      × (d.certificate.safe ≡ true)
      × (d.certificate.emit_blocked ≡ false)
      × (d.certificate.projected ≡ false)
      × (d.certificate.corrections ≡ [])
unfolding certify ids_of
certify-satisfied l a cs u open_emit = ground arith

-- For every chain of invariants and every bound on the passes: an action that is not marked as
-- blocked and that every invariant evaluates as satisfied is returned as it was proposed, with a
-- certificate that says `safe` and lists no correction.
pub dispose-AllSatisfied :
    (n : ℕ) (invs : List Invariant) (l : Labels) (a : Action) (context : Context)
    → AllSatisfied invs a context
    → a.emit_blocked ≡ false
    → (d : ShieldDisposition Action) × (dispose n invs l a context ≡ ok d)
      × (d.safe_action ≡ a)
      × (d.certificate.safe ≡ true)
      × (d.certificate.emit_blocked ≡ false)
      × (d.certificate.projected ≡ false)
      × (d.certificate.corrections ≡ [])
unfolding dispose
dispose-AllSatisfied n invs l a context all open_emit =
    let start : Progress = record { safe = a; corrections = []; projected = false } in
    let (cs, checked, u) = AllSatisfied-check invs a context all in
    let (same, safe, emit_open, unprojected, uncorrected) = certify-satisfied l a cs u open_emit in
    (
      certify l a start cs,
      rw (passes-satisfied n invs context start cs checked u, ◌>>=◌, checked) refl,
      same,
      safe,
      emit_open,
      unprojected,
      uncorrected,
    )
