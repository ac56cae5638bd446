-- ===== src/Shield/Constellation.antt =====
-- shield/invariants.py: `ConstellationLegalityInvariant`.
use text.Mathlib.Text.{find?}
use preceptual_ai_5g_dynamic.Prelude.{
  Bool, List, Option, String, [], false, if◌then◌else◌, ltb, none, some, true, ℕ, ◌&&◌, ◌++◌, ◌==◌,
  ◌||◌, ◌∷◌,
}
use preceptual_ai_5g_dynamic.Prelude.Int.{negsuc, pos, ℤ}
use preceptual_ai_5g_dynamic.Prelude.Flt.{Flt, le_flt, leb_ℤ, lit, lt_flt, nan, sub_flt}
use preceptual_ai_5g_dynamic.Prelude.Outcome.{
  Outcome, ok, other_error, overflow_error, raised, type_error, value_error, ◌>>=◌,
}
use preceptual_ai_5g_dynamic.Shield.Certificate.{
  ConstraintViolation, InvariantCheck, hard, unit_db, unit_na,
}
use preceptual_ai_5g_dynamic.Shield.Action.{
  Action, Context, OrderValue, cut, float_or, not_finite, number, order_wrong_type,
  order_wrong_value, whole,
}
use preceptual_ai_5g_dynamic.Shield.Dispose.{Invariant}
use preceptual_ai_5g_dynamic.Shield.Phy.{block_text}

pub record Constellation : Type 0 where
  pub max_papr_db : Flt
  pub allowed_orders : List ℕ
  pub fallback_block : String

abbrev pub legal_qam_orders : List ℕ
legal_qam_orders = 4 ∷ 16 ∷ 64 ∷ 256 ∷ []

abbrev pub constellation_id : String
constellation_id = "constellation_legality"

-- `int(action.get("constellation_order", 0))`
unfoldable pub order_of : Option OrderValue → Outcome ℤ
order_of none = ok (pos 0)
order_of (some (whole n)) = ok n
order_of (some (cut n)) = ok n
order_of (some (not_finite nan)) = raised value_error
order_of (some (not_finite _)) = raised overflow_error
order_of (some order_wrong_type) = raised type_error
order_of (some order_wrong_value) = raised value_error

-- `order in self.allowed_orders`
unfoldable pub is_allowed : ℤ → List ℕ → Bool
is_allowed (pos n) [] = false
is_allowed (pos n) (o ∷ os) = n == o || is_allowed (pos n) os
is_allowed (negsuc n) os = false

abbrev found? : Option ℕ → Bool
found? none = false
found? (some _) = true

-- `_applies`
unfoldable pub applies : Action → Bool
unfolding block_text
applies a = elim a.constellation_order [
  | some _ ↦ true
  | none ↦ found? (find? (block_text a) "learned_constellation")
]

unfoldable pub evaluate_constellation : Constellation → Action → Context → Outcome InvariantCheck
evaluate_constellation k a context =
    if applies a
    then (do
      order ← order_of a.constellation_order
      papr ← float_or a.papr_db (lit 0)
      ok (record {
        invariant_id = constellation_id;
        satisfied =
            is_allowed order k.allowed_orders && le_flt (lit 0) (sub_flt k.max_papr_db papr);
        margin = some (sub_flt k.max_papr_db papr);
        margin_unit = unit_db;
      }))
    else ok (record {
      invariant_id = constellation_id;
      satisfied = true;
      margin = none;
      margin_unit = unit_na;
    })

-- `[o for o in self.allowed_orders if o <= order]`
unfoldable pub legal_le : ℤ → List ℕ → List ℕ
legal_le order [] = []
legal_le order (o ∷ os) =
    let rest = legal_le order os in if leb_ℤ (pos o) order then o ∷ rest else rest

unfoldable pub max_of : ℕ → List ℕ → ℕ
max_of best [] = best
max_of best (o ∷ os) = max_of (if ltb best o then o else best) os

-- `max(legal_le or [self.allowed_orders[0]])`; an empty tuple of orders is an `IndexError`
unfoldable pub snap_from : List ℕ → List ℕ → Outcome ℕ
snap_from (o ∷ os) allowed = ok (max_of o os)
snap_from [] (o ∷ _) = ok o
snap_from [] [] = raised other_error

unfoldable pub snap : ℤ → List ℕ → Outcome ℕ
unfolding legal_le snap_from max_of
snap order allowed = snap_from (legal_le order allowed) allowed

abbrev pub fall_back : Constellation → Action → Action
fall_back k a = record a {
  block = some k.fallback_block;
  shield_fallback_to = some k.fallback_block;
}

-- the first half of `project`: the order
unfoldable pub snap_order : Constellation → ℤ → Action → Outcome (Action × List ConstraintViolation)
snap_order k order a = elim (is_allowed order k.allowed_orders) [
  | true ↦ ok (a, [])
  | false ↦ (do
    snapped ← snap order k.allowed_orders
    ok (
      record (fall_back k a) { constellation_order = some (whole (pos snapped)) },
      record { constraint_id = constellation_id; severity = hard; margin_db = none } ∷ [],
    ))
]

-- the second half: the PAPR
unfoldable pub clip_papr : Constellation → Flt → Action → Action × List ConstraintViolation
clip_papr k papr a =
    if lt_flt k.max_papr_db papr
    then (
      record (fall_back k a) { papr_db = some (number k.max_papr_db) },
      record {
        constraint_id = constellation_id;
        severity = hard;
        margin_db = some (sub_flt k.max_papr_db papr);
      }
          ∷ [],
    )
    else (a, [])

unfoldable pub project_constellation :
    Constellation → Action → Context → Outcome (Action × List ConstraintViolation)
project_constellation k a context =
    if applies a
    then (do
      order ← order_of a.constellation_order
      r ← snap_order k order a
      papr ← float_or r.0.papr_db (lit 0)
      ok ((clip_papr k papr r.0).0, r.1 ++ (clip_papr k papr r.0).1))
    else ok (a, [])

unfoldable pub constellation_legality : Constellation → Invariant
constellation_legality k = record {
  id = constellation_id;
  evaluate = evaluate_constellation k;
  project = project_constellation k;
}
