-- ===== src/Breaker/Call.antt =====
-- runtime/circuit_breaker.py: `AsyncCircuitBreaker.call`. pybreaker's breaker is a parameter: its
-- state `P`, and what `call` uses of it. A breaker's listeners are part of its state. Times are
-- numbers of one unit; `call` starts at one and ends at another. A call that ends with an exception outside the classes of `CallError`, such
-- as a cancelled task, is reported as `not_http` is.
use preceptual_ai_5g_dynamic.Prelude.{
  Bool, List, Option, String, [], false, if◌then◌else◌, ltb, none, some, str_eq, ℕ, ◌&&◌, ◌+◌, ◌∷◌,
}
use preceptual_ai_5g_dynamic.Breaker.{CallError, is_failure}

pub record CircuitLib (P : Type 0) : Type 0 where
  pub current_state : P → String
  pub opened_at : P → Option ℕ
  pub reset_timeout : P → ℕ
  pub half_open : P → P
  -- what the state is after `_handle_error` at a time; its own exception is suppressed
  pub handle_error : ℕ → CallError → P → P
  pub handle_success : P → P

pub data Reply {ℓ} (A : Type ℓ) : Type ℓ where
  answered : A → Reply A
  failed : CallError → Reply A

pub data Called {ℓ} (A : Type ℓ) : Type ℓ where
  returned : A → Called A
  call_failed : CallError → Called A
  circuit_open : Called A

-- `opened_at and now < opened_at + timeout`
unfoldable pub still_open : Option ℕ → (window now : ℕ) → Bool
still_open none window now = false
still_open (some t) window now = ltb now (t + window)

module _ {P : Type 0} (lib : CircuitLib P) where
  unfoldable pub is_rejected : ℕ → P → Bool
  unfolding still_open
  is_rejected now p =
      str_eq (lib.current_state p) "open" && still_open (lib.opened_at p) (lib.reset_timeout p) now

  -- the state in which the coroutine is awaited
  unfoldable pub admitted : P → P
  admitted p = if str_eq (lib.current_state p) "open" then lib.half_open p else p

  -- the report of a failed call
  unfoldable pub report : ℕ → CallError → P → P
  unfolding is_failure
  report finish e p = if is_failure e then lib.handle_error finish e p else lib.handle_success p

  module _ {ℓ κ} {A : Type ℓ} {W : Type κ} where
    unfoldable pub settle : ℕ → Reply A → P → W → Called A × P × W
    unfolding report
    settle finish (answered a) p w = (returned a, lib.handle_success p, w)
    settle finish (failed e) p w = (call_failed e, report finish e p, w)

    -- `call`, of a coroutine that acts on `W`
    unfoldable pub call : (start finish : ℕ) (fn : W → Reply A × W) → P → W → Called A × P × W
    unfolding is_rejected settle admitted
    call start finish fn p w =
        let (reply, w') = fn w in
        if is_rejected start p then (circuit_open, p, w) else settle finish reply (admitted p) w'

    -- calls one after the other, each with its two times
    unfoldable pub call_each : (fn : W → Reply A × W) → List (ℕ × ℕ) → P → W → P × W
    unfolding call
    call_each fn [] p w = (p, w)
    call_each fn ((start, finish) ∷ times) p w =
        let (_, p', w') = call start finish fn p w in call_each fn times p' w'
