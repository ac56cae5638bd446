-- ===== src/LawfulIntercept/Projection.antt =====
-- policy/li_constraint.py: what `project` removes, keeps and leaves for the guards to refuse.
use preceptual_ai_5g_dynamic.Prelude.Sorted.{has-sorted, sorted}
use preceptual_ai_5g_dynamic.Prelude.{
  Bool-cases, List, Option, String, [], ap, arith, diff, eq_iff, false, has, has-append, has-dedup,
  has-diff, has-inter, inl, inr, inter, nonempty, not, refl, true, ◌&&◌, ◌++◌, ◌∙◌, ◌∷◌, ◌≡◌,
}
use preceptual_ai_5g_dynamic.Shield.Certificate.{ConstraintViolation}
use preceptual_ai_5g_dynamic.LawfulIntercept.Defs.{
  LiAction, LiConstraint, LiJurisdictionRule, as_str_set, check_feasibility, check_rules, cid_jx,
  gate_shut, keep_jx, project, protected_union, slice_violations, strip_ues,
}
use preceptual_ai_5g_dynamic.LawfulIntercept.Feasibility.{
  AllRespect, check_feasibility_iff, disjoint_of_inter, inter_guard, inter_of_disjoint,
  ue_violations_iff,
}

-- `keep_jx` keeps all of what the second test reports, and none of the first.
keep_jx-append : (xs ys : List ConstraintViolation) → keep_jx (xs ++ ys) ≡ keep_jx xs ++ keep_jx ys
unfolding keep_jx
keep_jx-append [] ys = refl
keep_jx-append (x ∷ xs) ys = ground (arith, keep_jx-append xs ys)

keep_jx-slice_violations :
    (slices : List String) (target : Option String) (rule : LiJurisdictionRule)
    → keep_jx (slice_violations slices target rule) ≡ slice_violations slices target rule
unfolding keep_jx slice_violations
keep_jx-slice_violations slices target rule = ground (arith, eq_iff cid_jx cid_jx)

-- With no protected UE left, only the second test reports.
keep_jx-check_rules :
    (ues slices : List String) (target : Option String) (rules : List LiJurisdictionRule)
    → ((u : String) → has u ues ≡ true → has u (protected_union rules) ≡ false)
    → keep_jx (check_rules ues slices target rules) ≡ check_rules ues slices target rules
unfolding check_rules protected_union
keep_jx-check_rules ues slices target [] h = unfold keep_jx in refl
keep_jx-check_rules ues slices target (rule ∷ rules) h =
    let split : (u : String)
        → has u ues ≡ true
        → (has u rule.protected_ue_ids ≡ false) × (has u (protected_union rules) ≡ false) =
      λ u hu. ground (arith, h u hu, has-append u rule.protected_ue_ids (protected_union rules)) in
    let rest = check_rules ues slices target rules in
    rw ((ue_violations_iff ues rule).1 (λ u hu. (split u hu).0)) (
      keep_jx-append (slice_violations slices target rule) rest
      ∙ rw (keep_jx-slice_violations slices target rule)
          (rw (keep_jx-check_rules ues slices target rules (λ u hu. (split u hu).1))))

AllRespect-protected_union :
    (ues slices : List String) (target : Option String) (rules : List LiJurisdictionRule)
    → AllRespect ues slices target rules
    → (u : String) → has u ues ≡ true
    → has u (protected_union rules) ≡ false
unfolding protected_union
AllRespect-protected_union ues slices target [] h u hu = refl
AllRespect-protected_union ues slices target (rule ∷ rules) h u hu =
    rw (has-append u rule.protected_ue_ids (protected_union rules), h.0.0 u hu)
      (AllRespect-protected_union ues slices target rules h.1 u hu)

module _ {ℓ} {A : Type ℓ} (c : LiConstraint) (action : LiAction A) where
  -- The UEs of a projected action are those of the action that no rule protects.
  strip_ues-has :
      (u : String)
      → has u (as_str_set (strip_ues c action).0.affected_ue_ids)
        ≡ (has u (as_str_set action.affected_ue_ids) && not (has u (protected_union c.rules)))
  unfolding strip_ues
  strip_ues-has u =
      let ues = as_str_set action.affected_ue_ids in
      let hit = inter ues (protected_union c.rules) in
      elim (Bool-cases (nonempty ues && nonempty hit)) [
        | inl some_hit ↦ rw some_hit (
            has-dedup u (sorted (diff ues hit))
            ∙ has-sorted u (diff ues hit)
            ∙ has-diff u ues hit
            ∙ ground (arith, has-inter u ues (protected_union c.rules)))
        | inr no_hit ↦ rw no_hit (
            ground (
              arith,
              inter_guard ues (protected_union c.rules),
              disjoint_of_inter ues (protected_union c.rules) _ u,
            ))
      ]

  project-strip_ues : gate_shut c ≡ false → (project c action).0 ≡ (strip_ues c action).0
  unfolding project
  project-strip_ues h = rw h

  strip_ues-same :
      ((strip_ues c action).0.affected_slice_ids ≡ action.affected_slice_ids)
      × ((strip_ues c action).0.target_jurisdiction ≡ action.target_jurisdiction)
      × ((strip_ues c action).0.others ≡ action.others)
  unfolding strip_ues
  strip_ues-same = ground arith

  keep_jx-check_feasibility :
      gate_shut c ≡ false
      → keep_jx (check_feasibility c (strip_ues c action).0)
        ≡ check_feasibility c (strip_ues c action).0
  unfolding check_feasibility
  keep_jx-check_feasibility h =
      let a = (strip_ues c action).0 in
      rw h (
        keep_jx-check_rules (as_str_set a.affected_ue_ids) (as_str_set a.affected_slice_ids)
          a.target_jurisdiction c.rules (λ u hu. ground (arith, strip_ues-has u)))

  -- With the gate open, `project` keeps exactly the affected UEs that no rule protects, never
  -- rewrites the slices, the target jurisdiction or anything else, and its corrections end with
  -- all that `check_feasibility` still reports of the projected action.
  pub project_lem :
      gate_shut c ≡ false
      → let (feasible, corrections) = project c action in
        ((u : String)
          → has u (as_str_set feasible.affected_ue_ids)
            ≡ (has u (as_str_set action.affected_ue_ids) && not (has u (protected_union c.rules))))
        × (feasible.affected_slice_ids ≡ action.affected_slice_ids)
        × (feasible.target_jurisdiction ≡ action.target_jurisdiction)
        × (feasible.others ≡ action.others)
        × ((first : List ConstraintViolation) × (corrections
              ≡ first ++ check_feasibility c feasible))
  unfolding project
  project_lem h =
      let same = strip_ues-same in
      rw h (
        strip_ues-has,
        same.0,
        same.1,
        same.2,
        ((strip_ues c action).1, rw (keep_jx-check_feasibility h) refl),
      )

  -- An action that was feasible is returned as it is, with no correction.
  pub project_feasible : check_feasibility c action ≡ [] → project c action ≡ (action, [])
  unfolding project strip_ues
  project_feasible h =
      let (open_gate, respected) = (check_feasibility_iff c action).0 h in
      let ues = as_str_set action.affected_ue_ids in
      let untouched : nonempty (inter ues (protected_union c.rules)) ≡ false =
        inter_of_disjoint ues (protected_union c.rules) (λ u hu.
          AllRespect-protected_union ues (as_str_set action.affected_slice_ids)
            action.target_jurisdiction c.rules respected u hu) in
      rw open_gate (ground (arith, untouched, ap keep_jx h))
