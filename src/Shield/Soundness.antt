-- ===== src/Shield/Soundness.antt =====
-- shield/shield.py: what a certificate is worth, for any invariants and any number of passes.
use preceptual_ai_5g_dynamic.Prelude.{
  List, String, [], arith, false, nonempty, not, refl, true, ℕ, ◌∷◌, ◌≡◌, ◌≢◌,
}
use preceptual_ai_5g_dynamic.Prelude.Outcome.{>>=-eq-ok, Outcome, ok, raised, ◌>>=◌}
use preceptual_ai_5g_dynamic.Shield.Certificate.{InvariantCheck, ShieldDisposition}
use preceptual_ai_5g_dynamic.Shield.Action.{Action, Context}
use preceptual_ai_5g_dynamic.Shield.Dispose.{
  Invariant, Labels, Progress, certify, check, dispose, ids_of, or_rejected, passes, unsatisfied,
}

-- Every invariant evaluates the action, without an exception, as satisfied.
abbrev pub AllSatisfied : List Invariant → Action → Context → Type 0
AllSatisfied [] action context = Unit
AllSatisfied (inv ∷ invs) action context =
    ((c : InvariantCheck) × (inv.evaluate action context ≡ ok c) × (c.satisfied ≡ true))
    × AllSatisfied invs action context

or_rejected-satisfied :
    (id : String) (o : Outcome InvariantCheck) (c : InvariantCheck)
    → or_rejected id o ≡ ok c
    → c.satisfied ≡ true
    → o ≡ ok c
unfolding or_rejected
or_rejected-satisfied id (ok d) c h s = h
or_rejected-satisfied id (raised e) c h s = ground arith

unsatisfied-nil :
    (c : InvariantCheck) (ds : List InvariantCheck)
    → unsatisfied (c ∷ ds) ≡ []
    → (c.satisfied ≡ true) × (unsatisfied ds ≡ [])
unfolding unsatisfied
unsatisfied-nil c ds h = ground arith

-- A check without a violation means that every invariant is satisfied.
pub check-AllSatisfied :
    (invs : List Invariant) (action : Action) (context : Context) (cs : List InvariantCheck)
    → check invs action context ≡ ok cs
    → unsatisfied cs ≡ []
    → AllSatisfied invs action context
unfolding check
check-AllSatisfied [] action context cs h u = tt
check-AllSatisfied (inv ∷ invs) action context cs h u =
    let o = or_rejected inv.id (inv.evaluate action context) in
    let (c, ec, hc) = >>=-eq-ok o (λ c. check invs action context >>= λ cs. ok (c ∷ cs)) h in
    let (ds, ed, hd) = >>=-eq-ok (check invs action context) (λ ds. ok (c ∷ ds)) hc in
    let es : cs ≡ c ∷ ds = cc in
    let v : (c.satisfied ≡ true) × (unsatisfied ds ≡ []) = unsatisfied-nil c ds (rw es at u) in
    (
      (c, or_rejected-satisfied inv.id (inv.evaluate action context) c ec v.0, v.0),
      check-AllSatisfied invs action context ds ed v.1,
    )

ids_of-nil : (cs : List InvariantCheck) → nonempty (ids_of cs) ≡ false → cs ≡ []
unfolding ids_of
ids_of-nil [] h = refl
ids_of-nil (c ∷ cs) h = cc

-- What the certificate says of the action that goes with it.
certify-safe :
    (l : Labels) (a : Action) (p : Progress) (fc : List InvariantCheck)
    → (certify l a p fc).certificate.safe ≡ true
    → (unsatisfied fc ≡ [])
      × (p.safe.emit_blocked ≡ false)
      × ((certify l a p fc).safe_action ≡ p.safe)
unfolding certify
certify-safe l a p fc h = ground (arith, ids_of-nil (unsatisfied fc))

certify-blocked :
    (l : Labels) (a : Action) (p : Progress) (fc : List InvariantCheck)
    → let d = certify l a p fc in
      (d.certificate.emit_blocked ≡ not d.certificate.safe)
      × (d.safe_action.emit_blocked ≡ d.certificate.emit_blocked)
      × (d.certificate.violated_ids ≢ [] → d.certificate.emit_blocked ≡ true)
      × (d.certificate.action_safe ≡ d.safe_action)
      × (d.certificate.action_proposed ≡ a)
unfolding certify
certify-blocked l a p fc = ground arith

certify-violated :
    (l : Labels) (a : Action) (p : Progress) (fc : List InvariantCheck)
    → unsatisfied fc ≡ []
    → (certify l a p fc).certificate.violated_ids ≡ []
unfolding certify
certify-violated l a p fc h = rw h

-- The parts of a call of `dispose` that returned.
pub dispose-eq-ok :
    (n : ℕ) (invs : List Invariant) (l : Labels) (a : Action) (context : Context)
    (d : ShieldDisposition Action)
    → dispose n invs l a context ≡ ok d
    → (p : Progress) × (fc : List InvariantCheck) × (passes n invs context
          (record { safe = a; corrections = []; projected = false })
        ≡ ok p)
      × (check invs p.safe context ≡ ok fc)
      × (certify l a p fc ≡ d)
unfolding dispose
dispose-eq-ok n invs l a context d h =
    let start : Progress = record { safe = a; corrections = []; projected = false } in
    let (p, ep, hp) =
      >>=-eq-ok (passes n invs context start)
        (λ p. check invs p.safe context >>= λ fc. ok (certify l a p fc)) h in
    let (fc, efc, hfc) = >>=-eq-ok (check invs p.safe context) (λ fc. ok (certify l a p fc)) hp in
    (p, fc, ep, efc, cc)

-- A certificate that says `safe` is true of the action that it travels with: every invariant
-- evaluates that action as satisfied, the action is not marked as blocked, and the certificate
-- neither lists a violation nor blocks the emit. This holds for every chain of invariants, however
-- their projections behave, and for every bound on the passes.
pub dispose-safe :
    (n : ℕ) (invs : List Invariant) (l : Labels) (a : Action) (context : Context)
    (d : ShieldDisposition Action)
    → dispose n invs l a context ≡ ok d
    → d.certificate.safe ≡ true
    → AllSatisfied invs d.safe_action context
      × (d.safe_action.emit_blocked ≡ false)
      × (d.certificate.emit_blocked ≡ false)
      × (d.certificate.violated_ids ≡ [])
dispose-safe n invs l a context d h s =
    let (p, fc, ep, efc, e) = dispose-eq-ok n invs l a context d h in
    let t : (certify l a p fc).certificate.safe ≡ true = rw e s in
    let (u, open_emit, same) = certify-safe l a p fc t in
    let (opposite, flag, _, _, _) = certify-blocked l a p fc in
    rw (← e) (
      rw same (check-AllSatisfied invs p.safe context fc efc u),
      rw same open_emit,
      rw (opposite, t) refl,
      certify-violated l a p fc u,
    )

-- The two verdicts are opposite, the blocked flag of the emitted action is the certificate's, and a
-- violation that remains blocks the emit.
pub dispose_fails_closed :
    (n : ℕ) (invs : List Invariant) (l : Labels) (a : Action) (context : Context)
    (d : ShieldDisposition Action)
    → dispose n invs l a context ≡ ok d
    → (d.certificate.emit_blocked ≡ not d.certificate.safe)
      × (d.safe_action.emit_blocked ≡ d.certificate.emit_blocked)
      × (d.certificate.violated_ids ≢ [] → d.certificate.emit_blocked ≡ true)
      × (d.certificate.action_safe ≡ d.safe_action)
      × (d.certificate.action_proposed ≡ a)
dispose_fails_closed n invs l a context d h =
    let (p, fc, ep, efc, e) = dispose-eq-ok n invs l a context d h in
    rw (← e) (certify-blocked l a p fc)
