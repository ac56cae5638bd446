-- ===== src/A1/Json.antt =====
-- JSON documents and the part of JSON Schema (draft 07) that rapp/a1_adapter.py writes: what a
-- document must be to be valid. A number that is no integer is given in tenths, and so is every
-- bound on numbers; all are at least 0. Every schema of an object has `additionalProperties` false,
-- unless it is the bare `any_object`.
use preceptual_ai_5g_dynamic.Prelude.{
  Bool, List, String, [], false, has, if◌then◌else◌, leb, str_eq, true, ℕ, ◌&&◌, ◌*◌, ◌||◌, ◌∷◌,
}

mutual
  pub data Json : Type 0 where
    text : String → Json
    int : ℕ → Json
    tenths : ℕ → Json
    flag : Bool → Json
    object : Fields → Json

  pub data Fields : Type 0 where
    end : Fields
    field : String → Json → Fields → Fields

mutual
  pub data Schema : Type 0 where
    any_text any_object : Schema
    one_of : List String → Schema
    integer_in : (least most : ℕ) → Schema
    at_least : (least : ℕ) → Schema
    number_in : (least most : ℕ) → Schema
    object_of : Properties → (required : List String) → Schema

  pub data Properties : Type 0 where
    last : Properties
    property : String → Schema → Properties → Properties

-- `key in document`
unfoldable pub has_field : String → Fields → Bool
has_field k end = false
has_field k (field j v fs) = str_eq j k || has_field k fs

unfoldable pub has_fields : List String → Fields → Bool
unfolding has_field
has_fields [] fs = true
has_fields (k ∷ ks) fs = has_field k fs && has_fields ks fs

unfoldable pub all_fields : (String → Json → Bool) → Fields → Bool
all_fields p end = true
all_fields p (field k v fs) = p k v && all_fields p fs

unfoldable mutual
  unfolding has_fields all_fields

  pub validate : Schema → Json → Bool
  validate any_text (text t) = true
  validate any_object (object fs) = true
  validate (one_of ts) (text t) = has t ts
  validate (integer_in lo hi) (int n) = leb lo n && leb n hi
  validate (at_least lo) (int n) = leb lo (10 * n)
  validate (at_least lo) (tenths n) = leb lo n
  validate (number_in lo hi) (int n) = leb lo (10 * n) && leb (10 * n) hi
  validate (number_in lo hi) (tenths n) = leb lo n && leb n hi
  validate (object_of ps required) (object fs) =
      has_fields required fs && all_fields (validate_at ps) fs
  validate _ _ = false

  pub validate_at : Properties → String → Json → Bool
  validate_at last k v = false
  validate_at (property j s ps) k v =
      let here = validate s v in let rest = validate_at ps k v in if str_eq j k then here else rest
