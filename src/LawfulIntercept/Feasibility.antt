-- ===== src/LawfulIntercept/Feasibility.antt =====
-- policy/li_constraint.py: what `check_feasibility` reports, against the rules read one by one.

use preceptual_ai_5g_dynamic.Prelude.Outcome.{ok}
use preceptual_ai_5g_dynamic.Prelude.{
  Bool, Bool-cases, List, Option, String, [], arith, eq_iff, false, has, has-inter, inl, inr, inter,
  nonempty, refl, true, ◌&&◌, ◌++◌, ◌↔◌, ◌∙◌, ◌∷◌, ◌≡◌, ◌⊎◌,
}
use preceptual_ai_5g_dynamic.LawfulIntercept.Defs.{
  LiAction, LiConstraint, LiJurisdictionRule, allows, as_str_set, check_feasibility, check_rules,
  gate_shut, is_text, new_constraint, slice_violations, ue_violations,
}

-- What a rule asks: no affected UE is protected, and where an affected slice is protected the
-- target jurisdiction is declared and allowed.
abbrev pub Respects : List String → List String → Option String → LiJurisdictionRule → Type 0
Respects ues slices target rule =
    ((u : String) → has u ues ≡ true → has u rule.protected_ue_ids ≡ false)
    × ((s : String)
        → has s slices ≡ true
        → has s rule.protected_slice_ids ≡ true
        → allows rule target ≡ true)

abbrev pub AllRespect : List String → List String → Option String → List LiJurisdictionRule → Type 0
AllRespect ues slices target [] = Unit
AllRespect ues slices target (rule ∷ rules) =
    Respects ues slices target rule × AllRespect ues slices target rules

-- a set without a member is empty, and one with a member is not
pub nonempty_of_has : (x : String) (xs : List String) → has x xs ≡ true → nonempty xs ≡ true
nonempty_of_has x [] h = cc
nonempty_of_has x (y ∷ ys) h = refl

first_of_nonempty : (xs : List String) → nonempty xs ≡ true → (x : String) × (has x xs ≡ true)
first_of_nonempty [] h = cc
first_of_nonempty (x ∷ xs) h = (x, ground (arith, eq_iff x x))

append-nil_iff : {A : Type 0} (xs ys : List A) → xs ++ ys ≡ [] → (xs ≡ []) × (ys ≡ [])
append-nil_iff [] ys h = (refl, h)
append-nil_iff (x ∷ xs) ys h = cc

pub disjoint_of_inter :
    (xs ys : List String)
    → nonempty (inter xs ys) ≡ false
    → (u : String) → has u xs ≡ true
    → has u ys ≡ false
disjoint_of_inter xs ys h u hu = elim (Bool-cases (has u ys)) [
  | inl hit ↦ cc (nonempty_of_has u (inter xs ys) (has-inter u xs ys ∙ (rw (hu, hit) refl)), h)
  | inr miss ↦ miss
]

pub inter_of_disjoint :
    (xs ys : List String)
    → ((u : String) → has u xs ≡ true → has u ys ≡ false)
    → nonempty (inter xs ys) ≡ false
inter_of_disjoint xs ys h = elim (Bool-cases (nonempty (inter xs ys))) [
  | inl hit ↦
      let (u, hu) = first_of_nonempty (inter xs ys) hit in
      let both : (has u xs ≡ true) × (has u ys ≡ true) = ground (arith, has-inter u xs ys) in
      cc (h u both.0, both.1)
  | inr miss ↦ miss
]

-- the tests on the two sets are implied by the test on their intersection
pub inter_guard :
    (xs ys : List String)
    → (nonempty xs && nonempty ys && nonempty (inter xs ys)) ≡ nonempty (inter xs ys)
inter_guard xs ys = elim (Bool-cases (nonempty (inter xs ys))) [
  | inl hit ↦
      let (u, hu) = first_of_nonempty (inter xs ys) hit in
      let both : (has u xs ≡ true) × (has u ys ≡ true) = ground (arith, has-inter u xs ys) in
      ground (arith, nonempty_of_has u xs both.0, nonempty_of_has u ys both.1)
  | inr miss ↦ ground arith
]

pub ue_violations_iff :
    (ues : List String) (rule : LiJurisdictionRule)
    → (ue_violations ues rule ≡ [])
      ↔ ((u : String) → has u ues ≡ true → has u rule.protected_ue_ids ≡ false)
unfolding ue_violations
ue_violations_iff ues rule = rw (inter_guard ues rule.protected_ue_ids) (
  λ h. disjoint_of_inter ues rule.protected_ue_ids (ground arith),
  λ h. rw (inter_of_disjoint ues rule.protected_ue_ids h) refl,
)

slice_violations_iff :
    (slices : List String) (target : Option String) (rule : LiJurisdictionRule)
    → (slice_violations slices target rule ≡ []) ↔ (
        (s : String)
        → has s slices ≡ true
        → has s rule.protected_slice_ids ≡ true
        → allows rule target ≡ true)
unfolding slice_violations
slice_violations_iff slices target rule = elim (Bool-cases (allows rule target)) [
  | inl fine ↦ rw fine (λ h s _ _. refl, λ h. ground arith)
  | inr wrong ↦ (
    λ h s hs hp.
        let d : nonempty (inter slices rule.protected_slice_ids) ≡ false =
          ground (arith, inter_guard slices rule.protected_slice_ids) in
        cc (disjoint_of_inter slices rule.protected_slice_ids d s hs, hp),
    λ h.
        let d =
          inter_of_disjoint slices rule.protected_slice_ids (λ s hs. ground (arith, h s hs)) in
        ground arith,
  )
]

check_rules_iff :
    (ues slices : List String) (target : Option String) (rules : List LiJurisdictionRule)
    → (check_rules ues slices target rules ≡ []) ↔ AllRespect ues slices target rules
unfolding check_rules
check_rules_iff ues slices target [] = (λ _. tt, λ _. refl)
check_rules_iff ues slices target (rule ∷ rules) =
    let u = ue_violations_iff ues rule in
    let s = slice_violations_iff slices target rule in
    let ih = check_rules_iff ues slices target rules in
    (
      λ h.
          let p = append-nil_iff (ue_violations ues rule) _ h in
          let q = append-nil_iff (slice_violations slices target rule) _ p.1 in
          ((u.0 p.0, s.0 q.0), ih.0 q.1),
      λ h. rw (u.1 h.0.0, s.1 h.0.1, ih.1 h.1) refl,
    )

module _ {ℓ} {A : Type ℓ} where
  pub check_feasibility_iff :
      (c : LiConstraint) (action : LiAction A)
      → (check_feasibility c action ≡ []) ↔ (
          (gate_shut c ≡ false)
          × AllRespect
              (as_str_set action.affected_ue_ids)
              (as_str_set action.affected_slice_ids)
              action.target_jurisdiction
              c.rules)
  unfolding check_feasibility
  check_feasibility_iff c action =
      let r =
        check_rules_iff (as_str_set action.affected_ue_ids) (as_str_set action.affected_slice_ids)
          action.target_jurisdiction c.rules in
      elim (Bool-cases (gate_shut c)) [
        | inl shut ↦ rw shut (λ h. cc, λ h. cc)
        | inr open_gate ↦ rw open_gate (λ h. (refl, r.0 h), λ h. r.1 h.1)
      ]

  -- A constraint that was constructed and lets some action pass has a rule, or the operator's
  -- election to run without rules is on record as a text that is not empty.
  pub feasible_needs_record :
      (rules : List LiJurisdictionRule) (fail_closed : Bool) (record_id : Option String)
      (c : LiConstraint) (action : LiAction A)
      → new_constraint rules fail_closed record_id ≡ ok c
      → check_feasibility c action ≡ []
      → (nonempty c.rules ≡ true) ⊎ (is_text c.deployment_audit_record ≡ true)
  unfolding new_constraint check_feasibility gate_shut
  feasible_needs_record rules fail_closed record_id c action made h = ground arith
