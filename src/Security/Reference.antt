-- ===== src/Security/Reference.antt =====
-- security/jwt.py: a run of rotations and verifications, and the same run for a manager that never
-- drops a retired key. The clock of each reading is given, in any order.
use preceptual_ai_5g_dynamic.Prelude.{List, String, [], some, ℕ, ◌++◌, ◌+◌, ◌∷◌, ◌≡◌, ◌≢◌, ◌≤◌, ◌⊎◌}
use preceptual_ai_5g_dynamic.Prelude.Outcome.{Outcome, ok, raised}
use preceptual_ai_5g_dynamic.Security.Jwt.{
  ActiveKey, JwtManager, loaded_key, max_clock_skew, outliving, prune_retired_keys,
  rotate_signing_key,
}

-- a rotation, with what the loader gives and the two readings, or a verification of some token
pub data Event : Type 0 where
  rotates : (loaded : Outcome (String × String)) (now prune_at : ℕ) → Event
  verifies : (prune_at : ℕ) → Event

-- a rotation whose loader raises leaves the manager as it is
abbrev pub run : List Event → JwtManager → JwtManager
run [] m = m
run (rotates loaded now prune_at ∷ events) m = elim (rotate_signing_key loaded now prune_at m) [
  | ok n ↦ run events n
  | raised e ↦ run events m
]
run (verifies prune_at ∷ events) m = run events (prune_retired_keys prune_at m)

-- the rotation without the pruning
abbrev pub rotate_kept : String × String → ℕ → JwtManager → JwtManager
rotate_kept pems now m = record m {
  active = loaded_key pems;
  retired = m.retired ++ record m.active { retire_at = some (now + m.overlap_window) } ∷ [];
}

abbrev pub run_kept : List Event → JwtManager → JwtManager
run_kept [] m = m
run_kept (rotates (ok pems) now prune_at ∷ events) m = run_kept events (rotate_kept pems now m)
run_kept (rotates (raised e) now prune_at ∷ events) m = run_kept events m
run_kept (verifies prune_at ∷ events) m = run_kept events m

-- the active key and every key ever retired whose window is open
abbrev pub open_keys : ℕ → JwtManager → List ActiveKey
unfolding outliving
open_keys now m = m.active ∷ outliving 0 now m.retired

-- no reading that a key was dropped by is ahead of a time by more than the tolerated skew
abbrev pub Steady : ℕ → List Event → Type 0
Steady now [] = Unit
Steady now (rotates loaded at_time prune_at ∷ events) =
    (prune_at ≤ now + max_clock_skew) × Steady now events
Steady now (verifies prune_at ∷ events) = (prune_at ≤ now + max_clock_skew) × Steady now events

-- no rotation brings a key with that public text
abbrev pub Fresh : String → List Event → Type 0
Fresh pem [] = Unit
Fresh pem (rotates (ok (private_pem, public_pem)) now prune_at ∷ events) =
    (public_pem ≢ pem) × Fresh pem events
Fresh pem (rotates (raised e) now prune_at ∷ events) = Fresh pem events
Fresh pem (verifies prune_at ∷ events) = Fresh pem events

-- no key of the list has that public text
abbrev pub Foreign : String → List ActiveKey → Type 0
Foreign pem [] = Unit
Foreign pem (k ∷ ks) = (k.public_pem ≢ pem) × Foreign pem ks

-- one key of the list has that public text, and it is retired at a time
abbrev pub Retired : String → ℕ → List ActiveKey → Type 0
Retired pem at_time [] = ⊥
Retired pem at_time (k ∷ ks) =
    ((k.public_pem ≡ pem) × (k.retire_at ≡ some at_time) × Foreign pem ks)
    ⊎ ((k.public_pem ≢ pem) × Retired pem at_time ks)
