-- ===== src/Breaker/Trips.antt =====
-- runtime/circuit_breaker.py: when the breaker opens, and what that protects.
use preceptual_ai_5g_dynamic.Prelude.{
  List, [], arith, length, refl, some, suc, true, ℕ, ◌++◌, ◌+◌, ◌<◌, ◌∙◌, ◌∷◌, ◌≡◌, ◌≤◌,
}
use preceptual_ai_5g_dynamic.Breaker.{CallError, is_failure}
use preceptual_ai_5g_dynamic.Breaker.Call.{
  CircuitLib, Reply, admitted, call, call_each, call_failed, circuit_open, failed, is_rejected,
  report, settle, still_open,
}

-- What pybreaker documents of a closed breaker: a failure is counted, or opens it when the count
-- reaches `fail_max`; a success clears the count.
pub record CountsFailures {P : Type 0} (lib : CircuitLib P) : Type 0 where
  pub fail_counter : P → ℕ
  pub fail_max : P → ℕ
  pub error_counts :
      (p : P) (now : ℕ) (e : CallError)
      → lib.current_state p ≡ "closed"
      → suc (fail_counter p) < fail_max p
      → (lib.current_state (lib.handle_error now e p) ≡ "closed")
        × (fail_counter (lib.handle_error now e p) ≡ suc (fail_counter p))
        × (fail_max (lib.handle_error now e p) ≡ fail_max p)
        × (lib.reset_timeout (lib.handle_error now e p) ≡ lib.reset_timeout p)
  pub error_opens :
      (p : P) (now : ℕ) (e : CallError)
      → lib.current_state p ≡ "closed"
      → fail_max p ≤ suc (fail_counter p)
      → (lib.current_state (lib.handle_error now e p) ≡ "open")
        × (lib.opened_at (lib.handle_error now e p) ≡ some now)
        × (lib.reset_timeout (lib.handle_error now e p) ≡ lib.reset_timeout p)
  pub success_clears :
      (p : P)
      → lib.current_state p ≡ "closed"
      → (lib.current_state (lib.handle_success p) ≡ "closed")
        × (fail_counter (lib.handle_success p) ≡ 0)
        × (fail_max (lib.handle_success p) ≡ fail_max p)

-- when the last call ended
abbrev pub last_finish : List (ℕ × ℕ) → ℕ → ℕ
last_finish [] t = t
last_finish ((start, finish) ∷ times) t = last_finish times finish

abbrev pub AllBefore : ℕ → List (ℕ × ℕ) → Type 0
AllBefore t [] = Unit
AllBefore t ((start, finish) ∷ times) = (start < t) × AllBefore t times

module _ {ℓ κ} {P : Type 0} {A : Type ℓ} {W : Type κ} (lib : CircuitLib P)
    (fn : W → Reply A × W) where
  -- every call ends with an exception that counts
  abbrev pub Fails : Type (ℓ ⊔ κ)
  Fails = (w : W) → (e : CallError) × ((fn w).0 ≡ failed e) × (is_failure e ≡ true)

  call_each-append :
      (ts us : List (ℕ × ℕ)) (p : P) (w : W)
      → call_each lib fn (ts ++ us) p w
        ≡ call_each lib fn us (call_each lib fn ts p w).0 (call_each lib fn ts p w).1
  unfolding call_each
  call_each-append [] us p w = refl
  call_each-append ((start, finish) ∷ ts) us p w = call_each-append ts us _ _

  closed-call :
      (start finish : ℕ) (p : P) (w : W)
      → lib.current_state p ≡ "closed"
      → call lib start finish fn p w ≡ settle lib finish (fn w).0 p (fn w).1
  unfolding call is_rejected admitted
  closed-call start finish p w h = rw h refl

  -- a call while the breaker is open and its window lasts
  window_call :
      (start finish t : ℕ) (p : P) (w : W)
      → lib.current_state p ≡ "open"
      → lib.opened_at p ≡ some t
      → start < t + lib.reset_timeout p
      → call lib start finish fn p w ≡ (circuit_open, p, w)
  unfolding call is_rejected still_open
  window_call start finish t p w h k before = rw (h, k) (ground arith)

  window_calls :
      (us : List (ℕ × ℕ)) (t : ℕ) (p : P) (w : W)
      → lib.current_state p ≡ "open"
      → lib.opened_at p ≡ some t
      → AllBefore (t + lib.reset_timeout p) us
      → call_each lib fn us p w ≡ (p, w)
  unfolding call_each
  window_calls [] t p w h k before = refl
  window_calls ((start, finish) ∷ us) t p w h k before =
      rw (window_call start finish t p w h k before.0) (window_calls us t p w h k before.1)

  failing_call :
      (start finish : ℕ) (p : P) (w : W)
      → Fails
      → lib.current_state p ≡ "closed"
      → (e : CallError) × (call lib start finish fn p w
          ≡ (call_failed e, lib.handle_error finish e p, (fn w).1))
  unfolding settle report
  failing_call start finish p w fails h =
      let (e, eq, counts) = fails w in (e, rw (closed-call start finish p w h, eq, counts) refl)

  trips :
      (laws : CountsFailures lib) (t : ℕ × ℕ) (ts : List (ℕ × ℕ)) (p : P) (w : W)
      → Fails
      → lib.current_state p ≡ "closed"
      → laws.fail_max p ≡ laws.fail_counter p + suc (length ts)
      → let q = (call_each lib fn (t ∷ ts) p w).0 in
        (lib.current_state q ≡ "open")
        × (lib.opened_at q ≡ some (last_finish ts t.1))
        × (lib.reset_timeout q ≡ lib.reset_timeout p)
  unfolding call_each
  trips laws (start, finish) [] p w fails h full =
      let (e, ran) = failing_call start finish p w fails h in
      rw ran (laws.error_opens p finish e h (omega arith))
  trips laws (start, finish) (u ∷ ts) p w fails h full =
      let (e, ran) = failing_call start finish p w fails h in
      let (closed, counted, most, timeout_is) = laws.error_counts p finish e h (omega arith) in
      let (o, at, same) =
        trips laws u ts (lib.handle_error finish e p) (fn w).1 fails closed
          (omega (arith, counted, most, full)) in
      rw (call_each, ran) (o, at, same ∙ timeout_is)

  -- Under what pybreaker documents of a closed breaker: when every call ends with an exception that
  -- counts, then after as many calls as `fail_max` leaves room for the breaker is open since the end
  -- of the last, and any further calls that start before the reset timeout has passed are rejected:
  -- neither the breaker nor the remote side changes.
  pub trips_and_shields :
      (laws : CountsFailures lib) (t : ℕ × ℕ) (ts us : List (ℕ × ℕ)) (p : P) (w : W)
      → Fails
      → lib.current_state p ≡ "closed"
      → laws.fail_max p ≡ laws.fail_counter p + length (t ∷ ts)
      → AllBefore (last_finish ts t.1 + lib.reset_timeout p) us
      → (lib.current_state (call_each lib fn (t ∷ ts) p w).0 ≡ "open")
        × (call_each lib fn (t ∷ ts ++ us) p w ≡ call_each lib fn (t ∷ ts) p w)
  trips_and_shields laws t ts us p w fails h full before =
      let (o, at, same) = trips laws t ts p w fails h full in
      (
        o,
        call_each-append (t ∷ ts) us p w
            ∙ window_calls us (last_finish ts t.1) _ _ o at (rw same before),
      )
