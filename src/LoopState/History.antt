-- ===== src/LoopState/History.antt =====
-- runtime/loop_state.py: what any run of calls leaves in the history, and what `replay` makes of it.
use preceptual_ai_5g_dynamic.Prelude.{
  List, Option, String, [], ap, refl, subst, sym, ◌++◌, ◌∙◌, ◌∷◌, ◌≡◌, ◌≢◌,
}
use preceptual_ai_5g_dynamic.Prelude.Outcome.{Outcome, ok, raised}
use preceptual_ai_5g_dynamic.LoopState.Defs.{
  LoopState, Machine, Request, SinkFn, StateTransition, current_state, idle, monitor, new_machine,
  promote, replay, replay_from, rollback, run, transition, validate,
}
use preceptual_ai_5g_dynamic.LoopState.Transition.{
  Took, accept, reject, retune, revert, settle, start, trained, transition-Took, watch, ◌⟶◌,
  ⟶-edge_in,
}

-- The entries lead from one state to another along edges of the graph, each entry from where the
-- one before it ended.
abbrev pub IsChain : LoopState → List StateTransition → LoopState → Type 0
IsChain a [] b = a ≡ b
IsChain a (t ∷ ts) b = (t.from_state ≡ a) × (a ⟶ t.to_state) × IsChain t.to_state ts b

IsChain-snoc :
    (a : LoopState) {b : LoopState} (ts : List StateTransition) (t : StateTransition)
    → IsChain a ts b
    → t.from_state ≡ b
    → b ⟶ t.to_state
    → IsChain a (ts ++ t ∷ []) t.to_state
IsChain-snoc a [] t h p e = (p ∙ sym h, subst (λ x. x ⟶ t.to_state) (sym h) e, refl)
IsChain-snoc a (u ∷ ts) t h p e = (h.0, h.1, IsChain-snoc u.to_state ts t h.2 p e)

replay_from-IsChain :
    (a : LoopState) {b : LoopState} (ts : List StateTransition)
    → IsChain a ts b
    → replay_from a ts ≡ ok b
unfolding replay_from
replay_from-IsChain a [] h = ap {B = Outcome LoopState} ok h
replay_from-IsChain a (t ∷ ts) h = rw (⟶-edge_in h.1) (replay_from-IsChain t.to_state ts h.2)

module _ {ℓ} {W : Type ℓ} where
  Took-IsChain :
      (a : LoopState) (m : Machine) (r : Outcome StateTransition × Machine × W)
      → Took m r
      → IsChain a m.entries m.state
      → IsChain a r.1.entries r.1.state
  Took-IsChain a m (ok t, m', w) (p, e, q, es, _) h =
      rw (es, q) (IsChain-snoc a m.entries t h p (subst (λ x. m.state ⟶ x) q e))
  Took-IsChain a m (raised x, m', w) p h = rw p h

  -- After any calls, legal or not and whatever the sink does, the history is a walk along the
  -- lifecycle graph that starts at the initial state and ends where the machine stands.
  pub run-IsChain :
      (sink : Option (SinkFn W)) (rs : List Request) (initial : LoopState) (m : Machine) (w : W)
      → IsChain initial m.entries m.state
      → let m' = (run sink rs m w).0 in IsChain initial m'.entries m'.state
  unfolding run
  run-IsChain sink [] initial m w h = h
  run-IsChain sink (r ∷ rs) initial m w h =
      let (x, m', w') = transition sink r.new_state r.reason r.actor r.model_sha r.now m w in
      run-IsChain sink rs initial m' w' (
        Took-IsChain initial m (x, m', w')
          (transition-Took sink r.new_state r.reason r.actor r.model_sha r.now m w) h)

  -- For a machine that starts in IDLE, after any calls `replay` returns the current state.
  pub replay-run :
      (sink : Option (SinkFn W)) (rs : List Request) (actor : String) (w : W)
      → let m = (run sink rs (new_machine idle actor) w).0 in replay m ≡ ok (current_state m)
  unfolding replay new_machine current_state
  replay-run sink rs actor w =
      let m = (run sink rs (new_machine idle actor) w).0 in
      replay_from-IsChain idle m.entries (run-IsChain sink rs idle (new_machine idle actor) w refl)

-- A machine that starts elsewhere is not reproduced: with no call made, `replay` returns IDLE.
pub replay_not_initial :
    (initial : LoopState) (actor : String)
    → initial ≢ idle
    → replay (new_machine initial actor) ≢ ok (current_state (new_machine initial actor))
unfolding replay replay_from new_machine current_state
replay_not_initial initial actor h e = h (cc e)

-- Every entry that promotes a model leaves the state VALIDATE, every entry that ends in MONITOR
-- leaves PROMOTE, and every roll-back leaves MONITOR.
abbrev pub IsGated : List StateTransition → Type 0
IsGated [] = Unit
IsGated (t ∷ ts) =
    (t.to_state ≡ promote → t.from_state ≡ validate)
    × (t.to_state ≡ monitor → t.from_state ≡ promote)
    × (t.to_state ≡ rollback → t.from_state ≡ monitor)
    × IsGated ts

⟶-gate :
    {a b : LoopState}
    → a ⟶ b
    → (b ≡ promote → a ≡ validate) × (b ≡ monitor → a ≡ promote) × (b ≡ rollback → a ≡ monitor)
⟶-gate start = (λ h. cc, λ h. cc, λ h. cc)
⟶-gate trained = (λ h. cc, λ h. cc, λ h. cc)
⟶-gate accept = (λ h. refl, λ h. cc, λ h. cc)
⟶-gate reject = (λ h. cc, λ h. cc, λ h. cc)
⟶-gate watch = (λ h. cc, λ h. refl, λ h. cc)
⟶-gate revert = (λ h. cc, λ h. cc, λ h. refl)
⟶-gate retune = (λ h. cc, λ h. cc, λ h. cc)
⟶-gate settle = (λ h. cc, λ h. cc, λ h. cc)

IsChain-IsGated : (a b : LoopState) (ts : List StateTransition) → IsChain a ts b → IsGated ts
IsChain-IsGated a b [] h = tt
IsChain-IsGated a b (t ∷ ts) h =
    let g = ⟶-gate h.1 in
    (λ e. h.0 ∙ g.0 e, λ e. h.0 ∙ g.1 e, λ e. h.0 ∙ g.2 e, IsChain-IsGated t.to_state b ts h.2)

-- Whatever calls are made on a fresh machine, no recorded entry promotes a model that was not being
-- validated, monitors one that was not promoted, or rolls back one that was not monitored.
pub run-IsGated {ℓ} :
    {W : Type ℓ} (sink : Option (SinkFn W)) (rs : List Request) (initial : LoopState)
    (actor : String) (w : W)
    → IsGated (run sink rs (new_machine initial actor) w).0.entries
unfolding new_machine
run-IsGated sink rs initial actor w =
    let m = new_machine initial actor in
    IsChain-IsGated initial (run sink rs m w).0.state (run sink rs m w).0.entries
      (run-IsChain sink rs initial m w refl)
