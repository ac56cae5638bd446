-- ===== src/Shield/Certificate.antt =====
-- shield/certificate.py: the records of one shielded decision. An action is what a parameter `A`
-- says it is. Messages and free-text details are not modelled, nor is the time of issue.
use preceptual_ai_5g_dynamic.Prelude.{
  Bool, List, Option, String, [], false, if◌then◌else◌, none, some, true, ℕ, ◌∷◌,
}
use preceptual_ai_5g_dynamic.Prelude.Flt.{Flt, min_flt}

pub data Severity : Type 0 where
  hard soft : Severity

pub record ConstraintViolation : Type 0 where
  pub constraint_id : String
  pub severity : Severity
  pub margin_db : Option Flt

-- the texts that `InvariantCheck.unit` takes
pub data MarginUnit : Type 0 where
  unit_db unit_hz unit_fraction unit_bool unit_domain unit_error unit_na : MarginUnit

pub record InvariantCheck : Type 0 where
  pub invariant_id : String
  pub satisfied : Bool
  pub margin : Option Flt
  pub margin_unit : MarginUnit

pub record SafetyCertificate {ℓ} (A : Type ℓ) : Type ℓ where
  pub decision_id : String
  pub loop_tier : String
  pub block : String
  pub action_proposed : A
  pub action_safe : A
  pub invariants : List InvariantCheck
  pub corrections : List ConstraintViolation
  pub violated_ids : List String
  pub projected : Bool
  pub fallback_used : Bool
  pub fallback_to : Option String
  pub safe : Bool
  pub emit_blocked : Bool
  pub rng_seed : Option ℕ

pub record ShieldDisposition {ℓ} (A : Type ℓ) : Type ℓ where
  pub safe_action : A
  pub certificate : SafetyCertificate A

is_db : MarginUnit → Bool
is_db unit_db = true
is_db _ = false

-- the margins that `min_margin_dB` compares
unfoldable pub db_margins : List InvariantCheck → List Flt
unfolding is_db
db_margins [] = []
db_margins (c ∷ cs) =
    let rest = db_margins cs in
    elim c.margin [ none ↦ rest | some m ↦ if is_db c.margin_unit then m ∷ rest else rest ]

-- Python's `min` over the rest of a list
unfoldable pub min_from : Flt → List Flt → Flt
unfolding min_flt
min_from best [] = best
min_from best (m ∷ ms) = min_from (min_flt best m) ms

unfoldable pub min_or_none : List Flt → Option Flt
unfolding min_from
min_or_none [] = none
min_or_none (m ∷ ms) = some (min_from m ms)

unfoldable pub min_margin_db {ℓ} : {A : Type ℓ} → SafetyCertificate A → Option Flt
unfolding db_margins min_or_none
min_margin_db c = min_or_none (db_margins c.invariants)
