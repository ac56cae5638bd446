-- ===== src/Tests/Restarts.antt =====
-- runtime/state_recovery.py and rapp/lifecycle.py at concrete inputs.
use preceptual_ai_5g_dynamic.Prelude.{
  Bool, List, String, [], if◌then◌else◌, leb, none, refl, some, str_eq, true, ℕ, ◌≡◌, ◌∷◌, ◌⊎◌,
}
use preceptual_ai_5g_dynamic.Prelude.Outcome.{ok}
use preceptual_ai_5g_dynamic.StateRecovery.{
  Disk, File, Loaded, appended_to, at_fsync_dir, decode_error, dict, first_ops, load_state,
  made_ops, perform, perform_ops, synced_file, writes,
}
use preceptual_ai_5g_dynamic.StateRecovery.Crash.{readable, save_state-crash, seen}
use preceptual_ai_5g_dynamic.Lifecycle.{
  Lifecycle, any_status, deregistering, new_lifecycle, restore_from_disk, shutdown,
  track_planner_task, discard,
}
use preceptual_ai_5g_dynamic.Lifecycle.Restart.{
  counter_of, first_emitting, lives, lives-first_emitting,
}
use preceptual_ai_5g_dynamic.Lifecycle.Shutdown.{Drained, EndsFrom, shutdown-Drained}

-- a state is a number; the texts of two states are read back
abbrev loads_small : String → Loaded ℕ
loads_small raw =
    if str_eq raw "{1}" then dict 1 else if str_eq raw "{2}" then dict 2 else decode_error

abbrev blank : String → Bool
blank raw = str_eq raw ""

abbrev first_saved : File
first_saved = record { content = "{1}"; synced = true }

abbrev disk_of_first : Disk
disk_of_first = record { entry = some first_saved; durable_entry = some first_saved; temp = none }

abbrev chunks_of_second : List String
chunks_of_second = "{" ∷ "2" ∷ "}" ∷ []

-- the process is killed after the rename
save_state-crash_example :
    (load_state loads_small blank (readable (some "{2}"))
      ≡ load_state loads_small blank (readable (some "{1}")))
    ⊎ (load_state loads_small blank (readable (some "{2}")) ≡ some 2)
unfolding perform_ops first_ops made_ops perform writes appended_to synced_file
save_state-crash_example =
    save_state-crash loads_small blank at_fsync_dir chunks_of_second 2 disk_of_first (some "{1}") 6
      (some "{2}") refl refl refl refl (seen (record { content = "{2}"; synced = true }) refl)

lives-first_emitting_example :
    counter_of (lives (0 ∷ 5 ∷ 7 ∷ []) none) ≡ first_emitting (0 ∷ 5 ∷ 7 ∷ [])
lives-first_emitting_example = lives-first_emitting (0 ∷ 5 ∷ 7 ∷ [])

abbrev busy : Lifecycle
busy = track_planner_task 3 (track_planner_task 8 (new_lifecycle none))

abbrev small_in_time : ℕ → Bool
small_in_time t = leb t 5

shutdown-Drained_example :
    Drained (3 ∷ 8 ∷ []) small_in_time (shutdown small_in_time any_status (ok tt) (ok tt) busy).2
    × EndsFrom deregistering (shutdown small_in_time any_status (ok tt) (ok tt) busy)
unfolding track_planner_task discard new_lifecycle restore_from_disk
shutdown-Drained_example = shutdown-Drained small_in_time any_status (ok tt) (ok tt) busy
