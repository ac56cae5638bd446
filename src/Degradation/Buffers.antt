-- ===== src/Degradation/Buffers.antt =====
-- runtime/graceful_degradation.py: what goes through the evidence buffer and the held
-- decisions.

use preceptual_ai_5g_dynamic.Prelude.{List, [], ◌++◌, ◌∷◌}
use preceptual_ai_5g_dynamic.Alarms.{X733AlarmBus}
use preceptual_ai_5g_dynamic.Degradation.{Controller, drain_buffered_evidence, drain_held_decisions}
use preceptual_ai_5g_dynamic.Degradation.Modes.{
  Call, buffer_call, drain_buffer_call, drain_held_call, hold_call, perform,
}

module _ {P R : Type 0} where
  -- what a call hands to the evidence buffer, and what it takes out of it
  unfoldable pub given : Call P R → List R
  given (buffer_call r) = r ∷ []
  given _ = []

  unfoldable pub drained : Call P R → Controller P R → List R
  drained drain_buffer_call c = (drain_buffered_evidence c).0
  drained _ c = []

  -- the same for held decisions
  unfoldable pub held : Call P R → List R
  held (hold_call r) = r ∷ []
  held _ = []

  unfoldable pub released : Call P R → Controller P R → List R
  released drain_held_call c = (drain_held_decisions c).0
  released _ c = []

  -- what a run of calls hands in
  unfoldable pub given_all : List (Call P R) → List R
  given_all [] = []
  given_all (k ∷ ks) = given k ++ given_all ks

  unfoldable pub held_all : List (Call P R) → List R
  held_all [] = []
  held_all (k ∷ ks) = held k ++ held_all ks

module _ {ℓ} {P R : Type 0} {W : Type ℓ} where
  -- what a run of calls takes out
  unfoldable pub drained_all : List (Call P R) → Controller P R → X733AlarmBus W → W → List R
  drained_all [] c bus w = []
  drained_all (k ∷ ks) c bus w =
      let (c', bus', w') = perform k c bus w in drained k c ++ drained_all ks c' bus' w'

  unfoldable pub released_all : List (Call P R) → Controller P R → X733AlarmBus W → W → List R
  released_all [] c bus w = []
  released_all (k ∷ ks) c bus w =
      let (c', bus', w') = perform k c bus w in released k c ++ released_all ks c' bus' w'
