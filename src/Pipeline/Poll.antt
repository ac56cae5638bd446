-- ===== src/Pipeline/Poll.antt =====
-- rapp/a1_adapter.py: `get_policy_status`, and rapp/pipeline.py: `_poll_enforcement`. What a GET of
-- the RIC gives is a parameter. The sleep between two attempts is left out.
use preceptual_ai_5g_dynamic.Prelude.{
  Bool, List, Option, String, [], false, has, if◌then◌else◌, none, some, suc, true, zero, ℕ, ◌∷◌,
}
use preceptual_ai_5g_dynamic.Prelude.Int.{ltb_ℤ, pos, pos_part, ℤ}
use preceptual_ai_5g_dynamic.Prelude.Dict.{Dict, lookup}
use preceptual_ai_5g_dynamic.Prelude.Outcome.{Outcome, ok, other_error, raised}
use preceptual_ai_5g_dynamic.Breaker.{CallError, not_http}
use preceptual_ai_5g_dynamic.A1.Urls.{Dialect, policy_status_url}

-- `body.get(key)`: nothing or null, or the text that `str()` makes of a false or of a true value
pub data StatusField : Type 0 where
  null : StatusField
  falsy : String → StatusField
  truthy : String → StatusField

-- a GET with `raise_for_status` and `json()`: an object, other JSON, a body that is no JSON (a
-- `ValueError`), or an exception
pub data StatusReply : Type 0 where
  status_object : (enforce_status instance_status status : StatusField) → StatusReply
  other_json : StatusReply
  no_json : StatusReply
  get_failed : CallError → StatusReply

-- `a or b`
unfoldable pub field_or : StatusField → StatusField → StatusField
field_or (truthy t) b = truthy t
field_or (falsy t) b = b
field_or null b = b

-- `str(raw)` if there is one
unfoldable pub raw_text : StatusField → Option String
raw_text null = none
raw_text (falsy t) = some t
raw_text (truthy t) = some t

abbrev pub enforced_states : List String
enforced_states = "ENFORCED" ∷ "IN EFFECT" ∷ "OK" ∷ []

-- what one attempt makes of a reply: a status text, nothing, or an exception that is not caught
unfoldable pub status_of : StatusReply → Outcome (Option String)
unfolding field_or raw_text
status_of (status_object e i s) = ok (raw_text (field_or e (field_or i s)))
status_of other_json = ok none
status_of no_json = ok none
status_of (get_failed not_http) = raised other_error
status_of (get_failed e) = ok none

-- the status text and whether it says that the policy is enforced
abbrev pub PollState : Type 0
PollState = Option String × Option Bool

unfoldable pub noted : Option String → PollState → PollState
noted none p = p
noted (some t) p = (some t, some (has t enforced_states))

unfoldable pub is_enforced : Option String → Bool
is_enforced none = false
is_enforced (some t) = has t enforced_states

module _ {W : Type 0} (get_status : String → W → StatusReply × W) where
  -- an unregistered type is a `ValueError`, and nothing is sent
  unfoldable pub get_policy_status :
      Dialect
      → (text_of : ℕ → String) → Dict ℕ
      → (policy_type policy_id : String) → W
      → StatusReply × W
  unfolding policy_status_url
  get_policy_status dialect text_of policy_types policy_type policy_id w =
      elim (lookup policy_type policy_types) [
        | none ↦ (no_json, w)
        | some n ↦ get_status (policy_status_url dialect (text_of n) policy_id) w
      ]

-- `max(1, status_poll_attempts)`
unfoldable pub attempts_of : ℤ → ℕ
attempts_of n = if ltb_ℤ (pos 1) n then pos_part n else 1

module _ {W : Type 0} (ask : W → StatusReply × W) where
  -- the loop, with the number of attempts that are left
  unfoldable pub poll : ℕ → PollState → W → Outcome PollState × W
  unfolding status_of noted is_enforced
  poll zero p w = (ok p, w)
  poll (suc left) p w =
      let (reply, w') = ask w in
      elim (status_of reply) [
        | raised e ↦ (raised e, w')
        | ok t ↦ elim (is_enforced t) [
          | true ↦ (ok (noted t p), w')
          | false ↦ poll left (noted t p) w'
        ]
      ]

  unfoldable pub poll_enforcement : ℤ → W → Outcome PollState × W
  unfolding poll attempts_of
  poll_enforcement attempts w = poll (attempts_of attempts) (none, none) w
