-- ===== src/StateRecovery.antt =====
-- runtime/state_recovery.py: `save_state` as the file operations that it performs one by one, and
-- `load_state`. `S` is the state, `json.dump` writes it in chunks, and `json.loads` is a parameter.
-- Of the system: `os.replace` is atomic, a file keeps what it held at its last fsync, and a directory
-- keeps its entries of its last fsync or later ones.
pub mod Crash
use Prim.Native.String.{◌++◌ as ◌<>◌}
use preceptual_ai_5g_dynamic.Prelude.{
  Bool, List, Option, String, [], false, if◌then◌else◌, leb, length, none, some, true, zero, suc, ℕ,
  ◌++◌, ◌==◌, ◌+◌, ◌∷◌, map, ltb,
}
use preceptual_ai_5g_dynamic.Prelude.Outcome.{Exn, Outcome, ok, raised}

pub record File : Type 0 where
  pub content : String
  pub synced : Bool

-- the name `path` as processes see it and as the directory on the disk has it, and the temporary file
pub record Disk : Type 0 where
  pub entry : Option File
  pub durable_entry : Option File
  pub temp : Option File

pub data FileOp : Type 0 where
  mkstemp fsync_file replace fsync_dir unlink_temp : FileOp
  write : String → FileOp

unfoldable pub appended_to : String → Option File → Option File
appended_to chunk none = none
appended_to chunk (some f) = some (record { content = f.content <> chunk; synced = false })

unfoldable pub synced_file : Option File → Option File
synced_file none = none
synced_file (some f) = some (record f { synced = true })

unfoldable pub perform : FileOp → Disk → Disk
unfolding appended_to synced_file
perform mkstemp d = record d { temp = some (record { content = ""; synced = false }) }
perform (write chunk) d = record d { temp = appended_to chunk d.temp }
perform fsync_file d = record d { temp = synced_file d.temp }
perform replace d = record d { entry = d.temp; temp = none }
perform fsync_dir d = record d { durable_entry = d.entry }
perform unlink_temp d = record d { temp = none }

unfoldable pub perform_ops : List FileOp → Disk → Disk
unfolding perform
perform_ops [] d = d
perform_ops (op ∷ ops) d = perform_ops ops (perform op d)

unfoldable pub writes : List String → List FileOp
writes [] = []
writes (chunk ∷ chunks) = write chunk ∷ writes chunks

-- the calls of `save_state`, when none raises
unfoldable pub save_ops : List String → List FileOp
unfolding writes
save_ops chunks = mkstemp ∷ writes chunks ++ fsync_file ∷ replace ∷ fsync_dir ∷ []

unfoldable pub first_ops : ℕ → List FileOp → List FileOp
first_ops zero ops = []
first_ops (suc n) [] = []
first_ops (suc n) (op ∷ ops) = op ∷ first_ops n ops

-- Where an exception comes up: none, at `mkstemp`, at the call after so many (a chunk, the fsync of the
-- file or the rename), at the fsync of the directory, or at the last call, the `stat` for the log.
pub data Fault : Type 0 where
  no_fault at_mkstemp at_fsync_dir at_stat : Fault
  at_call : (done : ℕ) → Fault

-- the calls that are made: the clean-up deletes the temporary file, and that of the directory is
-- suppressed
unfoldable pub made_ops : Fault → List String → List FileOp
unfolding save_ops first_ops writes
made_ops no_fault chunks = save_ops chunks
made_ops at_mkstemp chunks = []
made_ops (at_call done) chunks =
    mkstemp ∷ first_ops done (writes chunks ++ fsync_file ∷ []) ++ unlink_temp ∷ []
made_ops at_fsync_dir chunks = mkstemp ∷ writes chunks ++ fsync_file ∷ replace ∷ []
made_ops at_stat chunks =
    mkstemp ∷ writes chunks ++ fsync_file ∷ replace ∷ fsync_dir ∷ unlink_temp ∷ []

unfoldable pub outcome_of : Fault → Exn → Outcome (Unit {0})
outcome_of no_fault e = ok tt
outcome_of at_mkstemp e = raised e
outcome_of (at_call done) e = raised e
outcome_of at_fsync_dir e = ok tt
outcome_of at_stat e = raised e

unfoldable pub save_state : Fault → Exn → List String → Disk → Outcome (Unit {0}) × Disk
unfolding outcome_of made_ops perform_ops
save_state fault e chunks d = (outcome_of fault e, perform_ops (made_ops fault chunks) d)

-- how `json.loads` ends
pub data Loaded {ℓ} (S : Type ℓ) : Type ℓ where
  dict : S → Loaded S
  not_dict decode_error : Loaded S

-- a text read from the file: `read_text` may raise
module _ {ℓ} {S : Type ℓ} (loads : String → Loaded S) (is_blank : String → Bool) where
  unfoldable pub state_of : Loaded S → Option S
  state_of (dict s) = some s
  state_of not_dict = none
  state_of decode_error = none

  unfoldable pub load_state : Option (Outcome String) → Option S
  unfolding state_of
  load_state none = none
  load_state (some (raised e)) = none
  load_state (some (ok raw)) = if is_blank raw then none else state_of (loads raw)
