-- ===== src/Security/Rotation.antt =====
-- security/jwt.py: what pruning does to verification.
use preceptual_ai_5g_dynamic.Prelude.{
  Bool-cases, List, Option-cases, String, [], arith, false, inl, inr, refl, some, ℕ, ◌++◌, ◌+◌, ◌∷◌,
  ◌≡◌, ◌≤◌, ◌∙◌, sym,
}
use preceptual_ai_5g_dynamic.Prelude.Outcome.{ok, raised}
use preceptual_ai_5g_dynamic.Security.Jwt.{
  ActiveKey, Decoder, JwtManager, max_clock_skew, outlives, outliving, prune_retired_keys,
  rotate_signing_key, try_keys, verify_token,
}
use preceptual_ai_5g_dynamic.Security.Reference.{
  Event, Steady, open_keys, rotate_kept, rotates, run, run_kept, verifies,
}

dropped-closed :
    (now prune_at : ℕ) (k : ActiveKey)
    → prune_at ≤ now + max_clock_skew
    → outlives max_clock_skew prune_at k ≡ false
    → outlives 0 now k ≡ false
unfolding outlives
dropped-closed now prune_at k h dropped = elim (Option-cases k.retire_at) [
  | inl never ↦ let d = rw (outlives, never) at dropped in cc
  | inr (t, at_t) ↦ let d = rw (outlives, at_t) at dropped in rw (outlives, at_t) (ground arith)
]

-- what is dropped with the slack has no open window at a time that is at most the slack behind
outliving-prune :
    (now prune_at : ℕ) (ks : List ActiveKey)
    → prune_at ≤ now + max_clock_skew
    → outliving 0 now (outliving max_clock_skew prune_at ks) ≡ outliving 0 now ks
unfolding outliving outlives
outliving-prune now prune_at [] h = refl
outliving-prune now prune_at (k ∷ ks) h = elim (Bool-cases (outlives max_clock_skew prune_at k)) [
  | inl kept ↦ rw (kept, outliving-prune now prune_at ks h) refl
  | inr dropped ↦
      rw (dropped, dropped-closed now prune_at k h dropped) (outliving-prune now prune_at ks h)
]

outliving-append :
    (now : ℕ) (ks : List ActiveKey) (k : ActiveKey)
    → outliving 0 now (ks ++ k ∷ []) ≡ outliving 0 now ks ++ outliving 0 now (k ∷ [])
unfolding outliving
outliving-append now [] k = refl
outliving-append now (j ∷ ks) k = elim (Bool-cases (outlives 0 now j)) [
  | inl within ↦ rw (within, outliving-append now ks k) refl
  | inr closed ↦ rw (closed, outliving-append now ks k) refl
]

-- the two managers differ only in keys whose window is closed at a time
record Alike (now : ℕ) (m r : JwtManager) : Type 0 where
  same_active : m.active ≡ r.active
  same_window : m.overlap_window ≡ r.overlap_window
  same_audience : m.audience ≡ r.audience
  same_issuer : m.issuer ≡ r.issuer
  same_open : outliving 0 now m.retired ≡ outliving 0 now r.retired

prune-Alike :
    (now prune_at : ℕ) (m r : JwtManager)
    → prune_at ≤ now + max_clock_skew
    → Alike now m r
    → Alike now (prune_retired_keys prune_at m) r
unfolding prune_retired_keys
prune-Alike now prune_at m r h a = record {
  same_active = a.same_active;
  same_window = a.same_window;
  same_audience = a.same_audience;
  same_issuer = a.same_issuer;
  same_open = outliving-prune now prune_at m.retired h ∙ a.same_open;
}

rotate_kept-Alike :
    (now at_time : ℕ) (pems : String × String) (m r : JwtManager)
    → Alike now m r
    → Alike now (rotate_kept pems at_time m) (rotate_kept pems at_time r)
rotate_kept-Alike now at_time pems m r a =
    let old : (x : JwtManager) → ActiveKey =
      λ x. record x.active { retire_at = some (at_time + x.overlap_window) } in
    let same : old m ≡ old r = rw (a.same_active, a.same_window) refl in
    record {
      same_active = refl;
      same_window = a.same_window;
      same_audience = a.same_audience;
      same_issuer = a.same_issuer;
      same_open =
          outliving-append now m.retired (old m)
          ∙ rw (a.same_open, same) (sym (outliving-append now r.retired (old r)));
    }

run-Alike :
    (now : ℕ) (events : List Event) (m r : JwtManager)
    → Steady now events
    → Alike now m r
    → Alike now (run events m) (run_kept events r)
unfolding rotate_signing_key
run-Alike now [] m r h a = a
run-Alike now (rotates (raised e) at_time prune_at ∷ events) m r h a =
    run-Alike now events m r h.1 a
run-Alike now (rotates (ok pems) at_time prune_at ∷ events) m r h a =
    run-Alike now events _ (rotate_kept pems at_time r) h.1 (
      prune-Alike now prune_at (rotate_kept pems at_time m) _ h.0
        (rotate_kept-Alike now at_time pems m r a))
run-Alike now (verifies prune_at ∷ events) m r h a =
    run-Alike now events _ r h.1 (prune-Alike now prune_at m r h.0 a)

-- At a time that no pruning so far was ahead of by more than `MAX_CLOCK_SKEW_SECONDS`: after any
-- rotations and verifications, `verify_token` ends as the loop over the active key and all keys ever
-- retired whose overlap window is open; that retired keys are dropped makes no difference.
pub verify_token-kept :
    (decode : Decoder) (token : String) (events : List Event) (m : JwtManager) (prune_at now : ℕ)
    → Steady now events
    → prune_at ≤ now + max_clock_skew
    → (verify_token decode token prune_at now (run events m)).0
      ≡ try_keys decode token
          (run_kept events m).audience
          (run_kept events m).issuer
          (open_keys now (run_kept events m))
unfolding verify_token
verify_token-kept decode token events m prune_at now steady h =
    let refl_alike : Alike now m m = record {
      same_active = refl;
      same_window = refl;
      same_audience = refl;
      same_issuer = refl;
      same_open = refl;
    } in
    let a =
      prune-Alike now prune_at (run events m) (run_kept events m) h
        (run-Alike now events m m steady refl_alike) in
    rw (a.same_active, a.same_audience, a.same_issuer, a.same_open) refl
