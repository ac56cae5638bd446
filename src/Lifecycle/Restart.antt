-- ===== src/Lifecycle/Restart.antt =====
-- rapp/lifecycle.py: what the checkpointed counter of emissions is after restarts.
use preceptual_ai_5g_dynamic.Prelude.{
  List, Option, [], arith, if◌then◌else◌, none, some, ℕ, ◌+◌, ◌==◌, ◌∷◌, ◌≡◌,
}
use preceptual_ai_5g_dynamic.Lifecycle.{
  Checkpoint, Lifecycle, new_lifecycle, or_zero, restore_from_disk, state_snapshot,
}

-- the A1 adapter emits so many policies
abbrev pub emissions : ℕ → Lifecycle → Lifecycle
emissions k l = record l { policies_emitted = k + l.policies_emitted }

-- One life after another: each restores the checkpoint of the one before, emits, and leaves its own.
abbrev pub lives : List ℕ → Option Checkpoint → Option Checkpoint
lives [] prior = prior
lives (k ∷ ks) prior = lives ks (some (state_snapshot (emissions k (new_lifecycle prior))))

abbrev pub counter_of : Option Checkpoint → ℕ
counter_of none = 0
counter_of (some c) = elim c.emitted_count [ none ↦ 0 | some n ↦ n ]

-- the emissions of the first life that emits
abbrev pub first_emitting : List ℕ → ℕ
first_emitting [] = 0
first_emitting (k ∷ ks) = if k == 0 then first_emitting ks else k

counter-life :
    (k : ℕ) (prior : Option Checkpoint)
    → counter_of (some (state_snapshot (emissions k (new_lifecycle prior))))
      ≡ (if counter_of prior == 0 then k else counter_of prior)
unfolding state_snapshot new_lifecycle restore_from_disk or_zero
counter-life k none = ground arith
counter-life k (some c) = ground arith

counter-lives :
    (ks : List ℕ) (prior : Option Checkpoint)
    → counter_of (lives ks prior)
      ≡ (if counter_of prior == 0 then first_emitting ks else counter_of prior)
counter-lives [] prior = ground arith
counter-lives (k ∷ ks) prior =
    let next = some (state_snapshot (emissions k (new_lifecycle prior))) in
    ground (arith, counter-lives ks next, counter-life k prior)

-- For any lives of the rApp, each started from the checkpoint that the one before left, and the first
-- from none: the counter of the last checkpoint is the number of policies that the first life with an
-- emission emitted. What later lives emit is not counted.
pub lives-first_emitting : (ks : List ℕ) → counter_of (lives ks none) ≡ first_emitting ks
lives-first_emitting ks = counter-lives ks none
