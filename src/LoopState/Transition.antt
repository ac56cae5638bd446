-- ===== src/LoopState/Transition.antt =====
-- runtime/loop_state.py: what one call of `transition` does, on every path.
use preceptual_ai_5g_dynamic.Prelude.{
  Bool-cases, Option, String, [], inl, inr, refl, true, ℕ, ◌++◌, ◌∷◌, ◌≡◌,
}
use preceptual_ai_5g_dynamic.Prelude.Outcome.{Outcome, ok, raised}
use preceptual_ai_5g_dynamic.LoopState.Defs.{
  LoopState, Machine, SinkFn, StateTransition, allowed_edges, edge_in, emit_to, idle, monitor,
  promote, record_transition, retrain, rollback, transition, validate,
}

-- The lifecycle graph, as the docstring draws it.
infix 40 ◌⟶◌
pub data ◌⟶◌ : LoopState → LoopState → Type 0 where
  start : idle ⟶ retrain
  trained : retrain ⟶ validate
  accept : validate ⟶ promote
  reject : validate ⟶ idle
  watch : promote ⟶ monitor
  revert : monitor ⟶ rollback
  retune : monitor ⟶ retrain
  settle : rollback ⟶ idle

pub ruleset edges = (start, trained, accept, reject, watch, revert, retune, settle)

pub edge_in-⟶ : (a b : LoopState) → edge_in a b allowed_edges ≡ true → a ⟶ b
unfolding edge_in
edge_in-⟶ idle retrain h = start
edge_in-⟶ retrain validate h = trained
edge_in-⟶ validate promote h = accept
edge_in-⟶ validate idle h = reject
edge_in-⟶ promote monitor h = watch
edge_in-⟶ monitor rollback h = revert
edge_in-⟶ monitor retrain h = retune
edge_in-⟶ rollback idle h = settle
edge_in-⟶ _ _ h = cc

pub ⟶-edge_in : {a b : LoopState} → a ⟶ b → edge_in a b allowed_edges ≡ true
unfolding edge_in
⟶-edge_in start = refl
⟶-edge_in trained = refl
⟶-edge_in accept = refl
⟶-edge_in reject = refl
⟶-edge_in watch = refl
⟶-edge_in revert = refl
⟶-edge_in retune = refl
⟶-edge_in settle = refl

module _ {ℓ} {W : Type ℓ} where
  -- What a call did, by how it ended: recorded exactly one edge of the graph that starts where the
  -- machine stood, or raised and left the machine as it was.
  abbrev pub Took : Machine → Outcome StateTransition × Machine × W → Type 0
  Took m (ok t, m', w') =
      (t.from_state ≡ m.state)
      × (m.state ⟶ m'.state)
      × (m'.state ≡ t.to_state)
      × (m'.entries ≡ m.entries ++ t ∷ [])
      × (m'.actor ≡ m.actor)
  Took m (raised e, m', w') = m' ≡ m

  record_transition-Took :
      (m : Machine) (t : StateTransition) (r : Outcome (Unit {0}) × W)
      → t.from_state ≡ m.state
      → m.state ⟶ t.to_state
      → Took m (record_transition m t r)
  unfolding record_transition
  record_transition-Took m t (ok _, w) p e = (p, e, refl, refl, refl)
  record_transition-Took m t (raised _, w) p e = refl

  -- A call of `transition` records exactly one edge of the lifecycle graph, from the state that the
  -- machine is in, or raises and leaves state and history alone.
  pub transition-Took :
      (sink : Option (SinkFn W)) (s : LoopState) (reason : String) (actor sha : Option String)
      (now : ℕ) (m : Machine) (w : W)
      → Took m (transition sink s reason actor sha now m w)
  unfolding transition
  transition-Took sink s reason actor sha now m w =
      elim (Bool-cases (edge_in m.state s allowed_edges)) [
        | inl legal ↦
            rw legal
              (record_transition-Took m _ (emit_to sink _ w) refl (edge_in-⟶ m.state s legal))
        | inr illegal ↦ rw illegal refl
      ]

  -- Every edge of the graph is taken when the sink accepts: the call then returns and the machine
  -- stands in the requested state.
  pub transition-⟶ :
      (sink : Option (SinkFn W)) (s : LoopState) (reason : String) (actor sha : Option String)
      (now : ℕ) (m : Machine) (w : W)
      → m.state ⟶ s
      → ((t : StateTransition) → (emit_to sink t w).0 ≡ ok tt)
      → (transition sink s reason actor sha now m w).1.state ≡ s
  unfolding transition
  transition-⟶ sink s reason actor sha now m w legal accepts =
      rw (⟶-edge_in legal) (accepted m _ (emit_to sink _ w) (accepts _))
    where
      accepted :
          (m : Machine) (t : StateTransition) (r : Outcome (Unit {0}) × W)
          → r.0 ≡ ok tt
          → (record_transition m t r).1.state ≡ t.to_state
      accepted m t (ok _, w) h = refl
      accepted m t (raised _, w) h = cc
