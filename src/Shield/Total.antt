-- ===== src/Shield/Total.antt =====
-- shield/shield.py: `dispose` over invariants that raise.
use preceptual_ai_5g_dynamic.Prelude.{
  Bool-cases, List, String, [], ap, false, inl, inr, length, none, nonempty, refl, suc, true, zero,
  ℕ, ◌++◌, ◌∷◌, ◌≡◌,
}
use preceptual_ai_5g_dynamic.Prelude.Outcome.{Exn, Outcome, ok, raised, ◌>>=◌}
use preceptual_ai_5g_dynamic.Shield.Certificate.{
  ConstraintViolation, InvariantCheck, ShieldDisposition, hard,
}
use preceptual_ai_5g_dynamic.Shield.Action.{Action, Context, block_emit}
use preceptual_ai_5g_dynamic.Shield.Dispose.{
  Invariant, Labels, Progress, caught, certify, check, dispose, or_rejected, passes,
  project_or_block, project_pass, rejected_check, unsatisfied,
}

-- What an invariant raises is one of the four exceptions that the Shield catches.
pub record IsContained (inv : Invariant) : Type 0 where
  pub evaluates :
      (a : Action) (context : Context) (e : Exn)
      → inv.evaluate a context ≡ raised e
      → caught e ≡ true
  pub projects :
      (a : Action) (context : Context) (e : Exn)
      → inv.project a context ≡ raised e
      → caught e ≡ true

abbrev pub AllContained : List Invariant → Type 0
AllContained [] = Unit
AllContained (inv ∷ invs) = IsContained inv × AllContained invs

or_rejected-total :
    (id : String) (o : Outcome InvariantCheck)
    → ((e : Exn) → o ≡ raised e → caught e ≡ true)
    → (c : InvariantCheck) × (or_rejected id o ≡ ok c)
unfolding or_rejected
or_rejected-total id (ok c) h = (c, refl)
or_rejected-total id (raised e) h = (rejected_check id, rw (h e refl) refl)

project_or_block-total :
    (id : String) (a : Action) (o : Outcome (Action × List ConstraintViolation))
    → ((e : Exn) → o ≡ raised e → caught e ≡ true)
    → (r : Action × List ConstraintViolation) × (project_or_block id a o ≡ ok r)
unfolding project_or_block
project_or_block-total id a (ok r) h = (r, refl)
project_or_block-total id a (raised e) h = (
  (block_emit a, record { constraint_id = id; severity = hard; margin_db = none } ∷ []),
  rw (h e refl) refl,
)

-- `check` of contained invariants returns one check for each of them.
pub check-total :
    (invs : List Invariant) (a : Action) (context : Context)
    → AllContained invs
    → (cs : List InvariantCheck) × (check invs a context ≡ ok cs) × (length cs ≡ length invs)
unfolding check
check-total [] a context h = ([], refl, refl)
check-total (inv ∷ invs) a context h =
    let (c, ec) = or_rejected-total inv.id (inv.evaluate a context) (h.0.evaluates a context) in
    let (cs, ecs, n) = check-total invs a context h.1 in (c ∷ cs, rw (ec, ecs) refl, ap suc n)

project_pass-total :
    (invs : List Invariant) (context : Context) (a : Action) (corr : List ConstraintViolation)
    → AllContained invs
    → (r : Action × List ConstraintViolation) × (project_pass invs context a corr ≡ ok r)
unfolding project_pass
project_pass-total [] context a corr h = ((a, corr), refl)
project_pass-total (inv ∷ invs) context a corr h =
    let (r, er) =
      project_or_block-total inv.id a (inv.project a context) (h.0.projects a context) in
    let (s, es) = project_pass-total invs context r.0 (corr ++ r.1) h.1 in
    elim (Bool-cases r.0.emit_blocked) [
      | inl blocked ↦ ((r.0, corr ++ r.1), rw (er, ◌>>=◌, blocked) refl)
      | inr free ↦ (s, rw (er, ◌>>=◌, free) es)
    ]

passes-total :
    (n : ℕ) (invs : List Invariant) (context : Context) (p : Progress)
    → AllContained invs
    → (q : Progress) × (passes n invs context p ≡ ok q)
unfolding passes
passes-total zero invs context p h = (p, refl)
passes-total (suc n) invs context p h =
    let (cs, ecs, _) = check-total invs p.safe context h in
    let (r, er) = project_pass-total invs context p.safe p.corrections h in
    let p' : Progress = record { safe = r.0; corrections = r.1; projected = true } in
    let (q, eq) = passes-total n invs context p' h in
    elim (Bool-cases (nonempty (unsatisfied cs))) [
      | inr fine ↦ (p, rw (ecs, ◌>>=◌, fine) refl)
      | inl bad ↦ elim (Bool-cases r.0.emit_blocked) [
        | inl blocked ↦ (p', rw (ecs, ◌>>=◌, bad) (rw (er, ◌>>=◌, blocked) refl))
        | inr free ↦ (q, rw (ecs, ◌>>=◌, bad) (rw (er, ◌>>=◌, free) eq))
      ]
    ]

-- If every invariant only raises what the Shield catches, `dispose` returns a disposition for every
-- action, and its certificate holds one check for each invariant.
pub dispose-total :
    (n : ℕ) (invs : List Invariant) (l : Labels) (a : Action) (context : Context)
    → AllContained invs
    → (d : ShieldDisposition Action) × (dispose n invs l a context ≡ ok d)
      × (length d.certificate.invariants ≡ length invs)
unfolding dispose certify
dispose-total n invs l a context h =
    let start : Progress = record { safe = a; corrections = []; projected = false } in
    let (p, ep) = passes-total n invs context start h in
    let (fc, efc, m) = check-total invs p.safe context h in (certify l a p fc, rw (ep, efc) refl, m)
