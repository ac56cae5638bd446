-- ===== src/LawfulIntercept.antt =====
-- policy/li_constraint.py: the lawful-intercept constraint.
mod Defs
pub mod Feasibility
pub mod Projection
pub use Defs.{
  IdField, absent, ids, single, not_iterable, LiAction, LiJurisdictionRule, LiConstraint,
}
unfoldable pub use Defs.{
  is_text, new_constraint, as_str_set, cid_ue, cid_jx, cid_fail_closed, hard_constraint_ids,
  hard_violation, gate_shut, ue_violations, allows, slice_violations, check_rules, protected_union,
  keep_jx, check_feasibility, strip_ues, project,
}
