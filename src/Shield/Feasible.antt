-- ===== src/Shield/Feasible.antt =====
-- shield/shield.py: `is_feasible`, the mask that planners use, against `check` and `dispose`.

use preceptual_ai_5g_dynamic.Shield.Soundness.{dispose-eq-ok}
use preceptual_ai_5g_dynamic.Prelude.{
  Bool, List, String, [], ap, arith, false, if◌then◌else◌, inl, inr, nonempty, nonempty-cases, not,
  refl, suc, sym, true, zero, ℕ, ◌∙◌, ◌∷◌, ◌≡◌, ◌≢◌,
}
use preceptual_ai_5g_dynamic.Prelude.Outcome.{
  >>=-eq-ok, Exn, Outcome, Outcome-cases, ok, raised, ◌>>=◌,
}
use preceptual_ai_5g_dynamic.Shield.Certificate.{
  ConstraintViolation, InvariantCheck, ShieldDisposition,
}
use preceptual_ai_5g_dynamic.Shield.Action.{Action, Context}
use preceptual_ai_5g_dynamic.Shield.Dispose.{
  Invariant, Labels, Progress, caught, certify, check, dispose, feasible_step, is_feasible,
  or_rejected, passes, project_pass, unsatisfied,
}
use preceptual_ai_5g_dynamic.Shield.Total.{AllContained, check-total}

feasible_step-or_rejected :
    (id : String) (o : Outcome InvariantCheck) (rest : Outcome Bool) (c : InvariantCheck)
    → ((e : Exn) → o ≡ raised e → caught e ≡ true)
    → or_rejected id o ≡ ok c
    → feasible_step o rest ≡ (if c.satisfied then rest else ok false)
unfolding feasible_step or_rejected
feasible_step-or_rejected id (ok d) rest c h e = ground arith
feasible_step-or_rejected id (raised x) rest c h e = ground (arith, h x refl)

-- Where no exception escapes, `is_feasible` says whether `check` finds no violation.
pub is_feasible-check :
    (invs : List Invariant) (a : Action) (context : Context) (cs : List InvariantCheck)
    → AllContained invs
    → check invs a context ≡ ok cs
    → is_feasible invs a context ≡ ok (not (nonempty (unsatisfied cs)))
unfolding is_feasible check unsatisfied
is_feasible-check [] a context cs h e = ground arith
is_feasible-check (inv ∷ invs) a context cs h e =
    let o = inv.evaluate a context in
    let (c, ec, hc) =
      >>=-eq-ok (or_rejected inv.id o) (λ c. check invs a context >>= λ cs. ok (c ∷ cs)) e in
    let (ds, ed, hd) = >>=-eq-ok (check invs a context) (λ ds. ok (c ∷ ds)) hc in
    let es : cs ≡ c ∷ ds = cc in
    rw es (
      feasible_step-or_rejected inv.id o (is_feasible invs a context) c (h.0.evaluates a context) ec
      ∙ rw (is_feasible-check invs a context ds h.1 ed) (ground arith))

abbrev after_pass : Action × List ConstraintViolation → Progress
after_pass r = record { safe = r.0; corrections = r.1; projected = true }

passes-projected :
    (n : ℕ) (invs : List Invariant) (context : Context) (p q : Progress)
    → p.projected ≡ true
    → passes n invs context p ≡ ok q
    → q.projected ≡ true
unfolding passes
passes-projected zero invs context p q t h = ground arith
passes-projected (suc n) invs context p q t h = elim (Outcome-cases (check invs p.safe context)) [
  | inr (e, ee) ↦ ground arith
  | inl (cs, ecs) ↦ elim (Outcome-cases (project_pass invs context p.safe p.corrections)) [
    | inr (e, ee) ↦ ground arith
    | inl (r, er) ↦ ground (arith, passes-projected n invs context (after_pass r) q refl)
  ]
]

-- The first test of the loop decides whether anything is projected.
passes-first :
    (n : ℕ) (invs : List Invariant) (context : Context) (p q : Progress) (cs : List InvariantCheck)
    → check invs p.safe context ≡ ok cs
    → passes (suc n) invs context p ≡ ok q
    → (unsatisfied cs ≡ [] → q ≡ p) × (unsatisfied cs ≢ [] → q.projected ≡ true)
unfolding passes
passes-first n invs context p q cs ecs h =
    elim (Outcome-cases (project_pass invs context p.safe p.corrections)) [
      | inr (e, ee) ↦ (λ u. ground arith, λ u. ground arith)
      | inl (r, er) ↦ (
        λ u. ground arith,
        λ u. ground (arith, passes-projected n invs context (after_pass r) q refl),
      )
    ]

certify-unprojected :
    (l : Labels) (a : Action) (fc : List InvariantCheck)
    → unsatisfied fc ≡ []
    → let d = certify l a (record { safe = a; corrections = []; projected = false }) fc in
      (d.certificate.projected ≡ false) × (d.safe_action ≡ a) × (d.certificate.corrections ≡ [])
unfolding certify
certify-unprojected l a fc u = rw u (refl, ground arith, refl)

certify-projected :
    (l : Labels) (a : Action) (p : Progress) (fc : List InvariantCheck)
    → (certify l a p fc).certificate.projected ≡ p.projected
unfolding certify
certify-projected l a p fc = refl

-- Masking is consistent with shielding: where the invariants raise only what the Shield catches and
-- at least one pass is allowed, `dispose` projects exactly the actions that `is_feasible` rejects,
-- and a feasible action leaves the Shield as it came, with no correction.
pub dispose-is_feasible :
    (n : ℕ) (invs : List Invariant) (l : Labels) (a : Action) (context : Context)
    (d : ShieldDisposition Action) (b : Bool)
    → AllContained invs
    → is_feasible invs a context ≡ ok b
    → dispose (suc n) invs l a context ≡ ok d
    → (d.certificate.projected ≡ not b)
      × (b ≡ true → (d.safe_action ≡ a) × (d.certificate.corrections ≡ []))
dispose-is_feasible n invs l a context d b h f e =
    let start : Progress = record { safe = a; corrections = []; projected = false } in
    let (cs, ecs, _) = check-total invs a context h in
    let eb : ok b ≡ ok (not (nonempty (unsatisfied cs))) =
      sym f ∙ is_feasible-check invs a context cs h ecs in
    let (p, fc, ep, efc, ed) = dispose-eq-ok (suc n) invs l a context d e in
    let (stays, moves) = passes-first n invs context start p cs ecs ep in
    elim (nonempty-cases (unsatisfied cs)) [
      | inl u ↦ feasible cs fc p u eb ecs (stays u) efc ed
      | inr (u, t) ↦ infeasible cs fc p t eb (moves u) ed
    ]
  where
    feasible :
        (cs fc : List InvariantCheck) (p : Progress)
        → unsatisfied cs ≡ []
        → ok b ≡ ok (not (nonempty (unsatisfied cs)))
        → check invs a context ≡ ok cs
        → p ≡ record { safe = a; corrections = []; projected = false }
        → check invs p.safe context ≡ ok fc
        → certify l a p fc ≡ d
        → (d.certificate.projected ≡ not b)
          × (b ≡ true → (d.safe_action ≡ a) × (d.certificate.corrections ≡ []))
    feasible cs fc p u eb ecs same efc ed =
        let same_checks : fc ≡ cs = cc (ap (λ (q : Progress). check invs q.safe context) same) in
        let start : Progress = record { safe = a; corrections = []; projected = false } in
        let facts = certify-unprojected l a cs u in
        let all_of_it : certify l a start cs ≡ d = rw (← same, ← same_checks) ed in
        rw (← all_of_it) (facts.0 ∙ ground arith, λ _. (facts.1, facts.2))

    infeasible :
        (cs fc : List InvariantCheck) (p : Progress)
        → nonempty (unsatisfied cs) ≡ true
        → ok b ≡ ok (not (nonempty (unsatisfied cs)))
        → p.projected ≡ true
        → certify l a p fc ≡ d
        → (d.certificate.projected ≡ not b)
          × (b ≡ true → (d.safe_action ≡ a) × (d.certificate.corrections ≡ []))
    infeasible cs fc p t eb moved ed =
        let no_mask : b ≡ false = ground arith in
        rw (← ed, certify-projected, moved, no_mask) (refl, λ h. cc)
