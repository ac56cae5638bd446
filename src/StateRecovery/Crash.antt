-- ===== src/StateRecovery/Crash.antt =====
-- runtime/state_recovery.py: a crash of the process or of the system during `save_state`.
use Prim.Native.String.{◌++◌ as ◌<>◌}
use text.Mathlib.TextLemmas.{append_assoc, append-nil, nil-append}
use preceptual_ai_5g_dynamic.Prelude.{
  Bool, List, Option, String, [], false, inl, inr, none, ap, refl, some, suc, true, zero, ℕ, ◌++◌,
  ◌∷◌, ◌≡◌, ◌⊎◌, ◌∙◌,
}
use preceptual_ai_5g_dynamic.Prelude.Outcome.{Exn, Outcome, ok}
use preceptual_ai_5g_dynamic.StateRecovery.{
  Disk, Fault, File, FileOp, Loaded, appended_to, at_call, at_fsync_dir, at_mkstemp, at_stat, dict,
  first_ops, fsync_dir, fsync_file, load_state, made_ops, mkstemp, no_fault, outcome_of, perform,
  perform_ops, replace, save_ops, save_state, state_of, synced_file, unlink_temp, write, writes,
}

-- the text that the chunks make
abbrev pub joined : List String → String
joined [] = ""
joined (chunk ∷ chunks) = chunk <> joined chunks

-- What may be found under the name after a power loss: its entry now or at the last fsync of the
-- directory; the text of a file that was not synced may be any. After a crash of the process alone it
-- is the entry now, with its text.
pub data Survives (d : Disk) : Option String → Type 0 where
  nothing_now : d.entry ≡ none → Survives d none
  nothing_then : d.durable_entry ≡ none → Survives d none
  seen : (f : File) → d.entry ≡ some f → Survives d (some f.content)
  seen_then : (f : File) → d.durable_entry ≡ some f → Survives d (some f.content)
  torn : (f : File) (text : String) → d.entry ≡ some f → f.synced ≡ false → Survives d (some text)
  torn_then :
      (f : File) (text : String)
      → d.durable_entry ≡ some f
      → f.synced ≡ false
      → Survives d (some text)

-- an entry that was saved before, or none
abbrev pub Old : Option String → Option File → Type 0
Old none o = o ≡ none
Old (some text) o = o ≡ some (record { content = text; synced = true })

-- no rename but of the whole new text, synced
Fine : String → Option File → List FileOp → Type 0
Fine new t [] = Unit
Fine new t (mkstemp ∷ ops) = Fine new (some (record { content = ""; synced = false })) ops
Fine new t (write chunk ∷ ops) = Fine new (appended_to chunk t) ops
Fine new t (fsync_file ∷ ops) = Fine new (synced_file t) ops
Fine new t (replace ∷ ops) =
    (t ≡ some (record { content = new; synced = true })) × Fine new none ops
Fine new t (fsync_dir ∷ ops) = Fine new t ops
Fine new t (unlink_temp ∷ ops) = Fine new none ops

-- both entries lead to the old text or the new one, synced
record Whole (old : Option String) (new : String) (d : Disk) : Type 0 where
  now : Old old d.entry ⊎ (d.entry ≡ some (record { content = new; synced = true }))
  then :
      Old old d.durable_entry ⊎ (d.durable_entry ≡ some (record { content = new; synced = true }))

perform_ops-Whole :
    (old : Option String) (new : String) (n : ℕ) (ops : List FileOp) (d : Disk)
    → Fine new d.temp ops
    → Whole old new d
    → Whole old new (perform_ops (first_ops n ops) d)
unfolding Fine perform_ops first_ops perform
perform_ops-Whole old new zero ops d f h = h
perform_ops-Whole old new (suc n) [] d f h = h
perform_ops-Whole old new (suc n) (mkstemp ∷ ops) d f h =
    perform_ops-Whole old new n ops (perform mkstemp d) f (record { now = h.now; then = h.then })
perform_ops-Whole old new (suc n) (write chunk ∷ ops) d f h =
    perform_ops-Whole old new n ops (perform (write chunk) d) f
      (record { now = h.now; then = h.then })
perform_ops-Whole old new (suc n) (fsync_file ∷ ops) d f h =
    perform_ops-Whole old new n ops (perform fsync_file d) f (record { now = h.now; then = h.then })
perform_ops-Whole old new (suc n) (replace ∷ ops) d f h =
    perform_ops-Whole old new n ops (perform replace d) f.1
      (record { now = inr f.0; then = h.then })
perform_ops-Whole old new (suc n) (fsync_dir ∷ ops) d f h =
    perform_ops-Whole old new n ops (perform fsync_dir d) f (record { now = h.now; then = h.now })
perform_ops-Whole old new (suc n) (unlink_temp ∷ ops) d f h =
    perform_ops-Whole old new n ops (perform unlink_temp d) f
      (record { now = h.now; then = h.then })

-- the temporary file as `mkstemp` makes it
abbrev empty : File
empty = record { content = ""; synced = false }

writes-Fine :
    (new : String) (chunks : List String) (f : File) (rest : List FileOp)
    → f.content <> joined chunks ≡ new
    → Fine new none rest
    → Fine new (some f) (writes chunks ++ fsync_file ∷ replace ∷ rest)
unfolding Fine writes appended_to synced_file
writes-Fine new [] f rest whole after = (rw (← whole, append-nil f.content) refl, after)
writes-Fine new (chunk ∷ chunks) f rest whole after =
    writes-Fine new chunks (record { content = f.content <> chunk; synced = false }) rest
      (append_assoc f.content chunk (joined chunks) ∙ whole) after

dropped-Fine :
    (new : String) (done : ℕ) (chunks : List String) (t : Option File)
    → Fine new t (first_ops done (writes chunks ++ fsync_file ∷ []) ++ unlink_temp ∷ [])
unfolding Fine writes first_ops
dropped-Fine new zero chunks t = tt
dropped-Fine new (suc zero) [] t = tt
dropped-Fine new (suc (suc done)) [] t = tt
dropped-Fine new (suc done) (chunk ∷ chunks) t = dropped-Fine new done chunks (appended_to chunk t)

made_ops-Fine :
    (fault : Fault) (chunks : List String) (t : Option File)
    → Fine (joined chunks) t (made_ops fault chunks)
unfolding Fine made_ops save_ops
made_ops-Fine no_fault chunks t =
    writes-Fine (joined chunks) chunks empty (fsync_dir ∷ []) (nil-append (joined chunks)) tt
made_ops-Fine at_mkstemp chunks t = tt
made_ops-Fine (at_call done) chunks t = dropped-Fine (joined chunks) done chunks _
made_ops-Fine at_fsync_dir chunks t =
    writes-Fine (joined chunks) chunks empty [] (nil-append (joined chunks)) tt
made_ops-Fine at_stat chunks t =
    writes-Fine (joined chunks) chunks empty (fsync_dir ∷ unlink_temp ∷ [])
      (nil-append (joined chunks)) tt

-- a whole entry is synced, and holds the old text or the new one
entry-text :
    (old : Option String) (new : String) (o : Option File) (f : File)
    → o ≡ some f
    → Old old o ⊎ (o ≡ some (record { content = new; synced = true }))
    → ((some f.content ≡ old) ⊎ (some f.content ≡ some new)) × (f.synced ≡ true)
entry-text none new o f e (inl missing) = cc
entry-text (some text) new o f e (inl kept) =
    let same : f ≡ record { content = text; synced = true } = cc in
    (inl (rw same refl), rw same refl)
entry-text old new o f e (inr fresh) =
    let same : f ≡ record { content = new; synced = true } = cc in
    (inr (rw same refl), rw same refl)

-- a missing entry is the old one
entry-missing :
    (old : Option String) (new : String) (o : Option File)
    → o ≡ none
    → Old old o ⊎ (o ≡ some (record { content = new; synced = true }))
    → none ≡ old
entry-missing none new o e (inl missing) = refl
entry-missing (some text) new o e (inl kept) = cc
entry-missing old new o e (inr fresh) = cc

found-Whole :
    (old : Option String) (new : String) (d : Disk) (found : Option String)
    → Whole old new d
    → Survives d found
    → (found ≡ old) ⊎ (found ≡ some new)
found-Whole old new d _ h (nothing_now e) = inl (entry-missing old new d.entry e h.now)
found-Whole old new d _ h (nothing_then e) = inl (entry-missing old new d.durable_entry e h.then)
found-Whole old new d _ h (seen f e) = (entry-text old new d.entry f e h.now).0
found-Whole old new d _ h (seen_then f e) = (entry-text old new d.durable_entry f e h.then).0
found-Whole old new d _ h (torn f text e unsynced) =
    let synced = (entry-text old new d.entry f e h.now).1 in cc
found-Whole old new d _ h (torn_then f text e unsynced) =
    let synced = (entry-text old new d.durable_entry f e h.then).1 in cc

-- what `load_state` reads of a surviving text
abbrev pub readable : Option String → Option (Outcome String)
readable none = none
readable (some text) = some (ok text)

module _ {ℓ} {S : Type ℓ} (loads : String → Loaded S) (is_blank : String → Bool) where
  -- A disk on which an earlier state, or none, was saved: wherever `save_state` raises, if it does, and
  -- wherever in it the process or the system crashes, `load_state` gives what it gave of the earlier
  -- file, or the new state, if `json.loads` reads it back from the text of all chunks.
  pub save_state-crash :
      (fault : Fault) (chunks : List String) (s : S) (d : Disk) (old : Option String) (n : ℕ)
      (found : Option String)
      → loads (joined chunks) ≡ dict s
      → is_blank (joined chunks) ≡ false
      → Old old d.entry
      → Old old d.durable_entry
      → Survives (perform_ops (first_ops n (made_ops fault chunks)) d) found
      → (load_state loads is_blank (readable found) ≡ load_state loads is_blank (readable old))
        ⊎ (load_state loads is_blank (readable found) ≡ some s)
  unfolding load_state state_of
  save_state-crash fault chunks s d old n found back text now then survives =
      elim (found-Whole old (joined chunks) _ found
        (perform_ops-Whole old (joined chunks) n (made_ops fault chunks) d
          (made_ops-Fine fault chunks d.temp) (record { now = inl now; then = inl then }))
        survives) [ inl same ↦ inl (rw same refl) | inr fresh ↦ inr (rw (fresh, text, back) refl) ]

saved :
    (chunks : List String) (f : File) (d : Disk)
    → d.temp ≡ some f
    → (perform_ops (writes chunks ++ fsync_file ∷ replace ∷ fsync_dir ∷ []) d ≡ record {
      entry = some (record { content = f.content <> joined chunks; synced = true });
      durable_entry = some (record { content = f.content <> joined chunks; synced = true });
      temp = none;
    })
unfolding perform_ops perform writes appended_to synced_file
saved [] f d e = rw (append-nil f.content, e) refl
saved (chunk ∷ chunks) f d e = rw (← append_assoc f.content chunk (joined chunks)) (
    saved chunks (record { content = f.content <> chunk; synced = false }) (perform (write chunk) d)
      (rw e refl))

-- When no call of `save_state` raises, the entry and its durable copy are the new text, synced.
pub save_state-saved :
    (e : Exn) (chunks : List String) (d : Disk)
    → save_state no_fault e chunks d ≡ (
      ok tt,
      record {
        entry = some (record { content = joined chunks; synced = true });
        durable_entry = some (record { content = joined chunks; synced = true });
        temp = none;
      },
    )
unfolding save_state outcome_of made_ops save_ops perform_ops perform
save_state-saved e chunks d =
    ap (λ (x : Disk). (ok tt, x))
      (saved chunks empty (perform mkstemp d) refl ∙ rw (nil-append (joined chunks)) refl)
