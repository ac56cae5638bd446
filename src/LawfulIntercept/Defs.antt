-- ===== src/LawfulIntercept/Defs.antt =====
-- policy/li_constraint.py: the rules, the constraint and its two operations. `A` is what an action
-- holds besides the three keys that this module reads. Messages are not modelled.
use preceptual_ai_5g_dynamic.Prelude.{
  Bool, List, Option, String, [], dedup, diff, false, has, if◌then◌else◌, inter, none, nonempty,
  not, some, str_eq, ◌&&◌, ◌++◌, ◌∷◌,
}
use preceptual_ai_5g_dynamic.Prelude.Outcome.{Outcome, ok, raised, value_error}
use preceptual_ai_5g_dynamic.Prelude.Sorted.{sorted}
use preceptual_ai_5g_dynamic.Shield.Certificate.{ConstraintViolation, hard}

-- What an action may hold under `affected_ue_ids` and `affected_slice_ids`: no key or `None`, a
-- collection (its elements as texts), one text, or a value that cannot be iterated.
pub data IdField : Type 0 where
  absent : IdField
  ids : List String → IdField
  single : String → IdField
  not_iterable : IdField

pub record LiAction {ℓ} (A : Type ℓ) : Type ℓ where
  pub affected_ue_ids : IdField
  pub affected_slice_ids : IdField
  pub target_jurisdiction : Option String
  pub others : A

pub record LiJurisdictionRule : Type 0 where
  pub rule_id : String
  pub protected_ue_ids : List String
  pub protected_slice_ids : List String
  pub allowed_jurisdictions : List String

pub record LiConstraint : Type 0 where
  pub rules : List LiJurisdictionRule
  pub fail_closed : Bool
  pub deployment_audit_record : Option String

-- truth of a text that may be `None`
unfoldable pub is_text : Option String → Bool
is_text none = false
is_text (some t) = not (str_eq t "")

-- `LIConstraint.__init__`
unfoldable pub new_constraint :
    List LiJurisdictionRule → Bool → Option String → Outcome LiConstraint
unfolding is_text
new_constraint rules fail_closed deployment_audit_record =
    if not fail_closed && not (nonempty rules) && not (is_text deployment_audit_record)
    then raised value_error
    else ok (record {
      rules = rules;
      fail_closed = fail_closed;
      deployment_audit_record = deployment_audit_record;
    })

-- `_as_str_set`; a set is a list without repetitions, read by membership
unfoldable pub as_str_set : IdField → List String
as_str_set absent = []
as_str_set (ids xs) = dedup xs
as_str_set (single x) = x ∷ []
as_str_set not_iterable = []

abbrev pub cid_ue : String
cid_ue = "li_protected_ue"

abbrev pub cid_jx : String
cid_jx = "li_jurisdiction"

abbrev pub cid_fail_closed : String
cid_fail_closed = "li_fail_closed"

unfoldable pub hard_constraint_ids : List String
hard_constraint_ids = cid_ue ∷ cid_jx ∷ cid_fail_closed ∷ []

abbrev pub hard_violation : String → ConstraintViolation
hard_violation id = record { constraint_id = id; severity = hard; margin_db = none }

-- `self.fail_closed and not self.rules`
unfoldable pub gate_shut : LiConstraint → Bool
gate_shut c = c.fail_closed && not (nonempty c.rules)

-- the first test of the loop in `check_feasibility`
unfoldable pub ue_violations : List String → LiJurisdictionRule → List ConstraintViolation
ue_violations ues rule =
    if nonempty ues && nonempty rule.protected_ue_ids && nonempty (inter ues rule.protected_ue_ids)
    then hard_violation cid_ue ∷ []
    else []

-- `target_jx in rule.allowed_jurisdictions`
unfoldable pub allows : LiJurisdictionRule → Option String → Bool
allows rule none = false
allows rule (some j) = has j rule.allowed_jurisdictions

-- the second test
unfoldable pub slice_violations :
    List String → Option String → LiJurisdictionRule → List ConstraintViolation
unfolding allows
slice_violations slices target rule =
    if nonempty slices
      && nonempty rule.protected_slice_ids
      && nonempty (inter slices rule.protected_slice_ids)
      && not (allows rule target)
    then hard_violation cid_jx ∷ []
    else []

unfoldable pub check_rules :
    List String → List String → Option String → List LiJurisdictionRule → List ConstraintViolation
unfolding ue_violations slice_violations
check_rules ues slices target [] = []
check_rules ues slices target (rule ∷ rules) =
    ue_violations ues rule
    ++ (slice_violations slices target rule ++ check_rules ues slices target rules)

-- `protected_union`
unfoldable pub protected_union : List LiJurisdictionRule → List String
protected_union [] = []
protected_union (rule ∷ rules) = rule.protected_ue_ids ++ protected_union rules

-- `[v for v in vs if v.constraint_id == self._CID_JX]`
unfoldable pub keep_jx : List ConstraintViolation → List ConstraintViolation
keep_jx [] = []
keep_jx (v ∷ vs) = let rest = keep_jx vs in if str_eq v.constraint_id cid_jx then v ∷ rest else rest

module _ {ℓ} {A : Type ℓ} where
  unfoldable pub check_feasibility : LiConstraint → LiAction A → List ConstraintViolation
  unfolding gate_shut
  check_feasibility c action =
      if gate_shut c
      then hard_violation cid_fail_closed ∷ []
      else check_rules (as_str_set action.affected_ue_ids) (as_str_set action.affected_slice_ids)
          action.target_jurisdiction c.rules

  -- the UE part of `project`: the action without its protected UEs, and the correction
  unfoldable pub strip_ues : LiConstraint → LiAction A → LiAction A × List ConstraintViolation
  unfolding protected_union sorted as_str_set
  strip_ues c action =
      let ues = as_str_set action.affected_ue_ids in
      let removed = inter ues (protected_union c.rules) in
      if nonempty ues && nonempty removed
      then (
        record action { affected_ue_ids = ids (sorted (diff ues removed)) },
        hard_violation cid_ue ∷ [],
      )
      else (action, [])

  unfoldable pub project : LiConstraint → LiAction A → LiAction A × List ConstraintViolation
  unfolding strip_ues keep_jx
  project c action =
      if gate_shut c
      then (action, hard_violation cid_fail_closed ∷ [])
      else let (feasible, corrections) = strip_ues c action in
        (feasible, corrections ++ keep_jx (check_feasibility c feasible))
