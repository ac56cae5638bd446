-- ===== src/Security/Window.antt =====
-- security/jwt.py: the overlap window of a rotated key.
use preceptual_ai_5g_dynamic.Prelude.{
  Bool-cases, List, String, [], arith, if◌then◌else◌, inl, inr, ltb, refl, some, ℕ, ◌++◌, ◌+◌, ◌∷◌,
  ◌≡◌, ◌≢◌, ◌≤◌, subst, ◌∙◌, sym,
}
use preceptual_ai_5g_dynamic.Prelude.Outcome.{ok, raised}
use preceptual_ai_5g_dynamic.Security.Jwt.{
  ActiveKey, Claims, Decoder, JwtManager, jwt_error, loaded_key, max_clock_skew, outlives,
  outliving, try_keys, valid, verify_token, with_required,
}
use preceptual_ai_5g_dynamic.Security.Reference.{
  Event, Foreign, Fresh, Retired, Steady, rotate_kept, rotates, run, run_kept, verifies,
}
use preceptual_ai_5g_dynamic.Security.Rotation.{verify_token-kept}

outlives-retired :
    (now at_time : ℕ) (k : ActiveKey)
    → k.retire_at ≡ some at_time
    → outlives 0 now k ≡ ltb now at_time
unfolding outlives
outlives-retired now at_time k at_k = rw (outlives, at_k) (ground arith)

-- the loop over the keys, for a token that one public key decodes
module _ (decode : Decoder) (token audience issuer : String) (pem : String) (c : Claims) where
  -- no other public key decodes the token, and it has the required claims
  abbrev pub SignedBy : Type 0
  SignedBy =
      ((other : String) → other ≢ pem → decode token other audience issuer ≡ jwt_error)
      × (decode token pem audience issuer ≡ valid c)
      × (with_required c ≡ valid c)

  try_keys-skip :
      (k : ActiveKey) (ks : List ActiveKey)
      → SignedBy
      → k.public_pem ≢ pem
      → try_keys decode token audience issuer (k ∷ ks) ≡ try_keys decode token audience issuer ks
  unfolding try_keys
  try_keys-skip k ks s apart = rw (try_keys, s.0 k.public_pem apart) refl

  try_keys-Foreign :
      (now : ℕ) (ks : List ActiveKey)
      → SignedBy
      → Foreign pem ks
      → try_keys decode token audience issuer (outliving 0 now ks) ≡ jwt_error
  unfolding try_keys outliving
  try_keys-Foreign now [] s f = refl
  try_keys-Foreign now (k ∷ ks) s f = elim (Bool-cases (outlives 0 now k)) [
    | inl within ↦
        rw (outliving, within)
          (try_keys-skip k (outliving 0 now ks) s f.0 ∙ try_keys-Foreign now ks s f.1)
    | inr closed ↦ rw (outliving, closed) (try_keys-Foreign now ks s f.1)
  ]

  try_keys-Retired :
      (now at_time : ℕ) (ks : List ActiveKey)
      → SignedBy
      → Retired pem at_time ks
      → try_keys decode token audience issuer (outliving 0 now ks)
        ≡ (if ltb now at_time then valid c else jwt_error)
  unfolding try_keys outliving outlives
  try_keys-Retired now at_time [] s none_is = absurd none_is
  try_keys-Retired now at_time (k ∷ ks) s (inl (same, at_k, f)) =
      let lives = outlives-retired now at_time k at_k in
      let rest = try_keys-Foreign now ks s f in
      let decoded =
        subst (λ (x : String). decode token x audience issuer ≡ valid c) (sym same) s.1 in
      elim (Bool-cases (ltb now at_time)) [
        | inl within ↦ rw (within, outliving, lives ∙ within, try_keys, decoded) s.2
        | inr closed ↦ rw (closed, outliving, lives ∙ closed) rest
      ]
  try_keys-Retired now at_time (k ∷ ks) s (inr (apart, r)) = elim (Bool-cases (outlives 0 now k)) [
    | inl within ↦
        rw (outliving, within)
          (try_keys-skip k (outliving 0 now ks) s apart ∙ try_keys-Retired now at_time ks s r)
    | inr closed ↦ rw (outliving, closed) (try_keys-Retired now at_time ks s r)
  ]

Foreign-append :
    (pem : String) (at_time : ℕ) (ks : List ActiveKey) (k : ActiveKey)
    → Foreign pem ks
    → k.public_pem ≡ pem
    → k.retire_at ≡ some at_time
    → Retired pem at_time (ks ++ k ∷ [])
Foreign-append pem at_time [] k f same at_k = inl (same, at_k, tt)
Foreign-append pem at_time (j ∷ ks) k f same at_k =
    inr (f.0, Foreign-append pem at_time ks k f.1 same at_k)

Foreign-snoc :
    (pem : String) (ks : List ActiveKey) (k : ActiveKey)
    → Foreign pem ks
    → k.public_pem ≢ pem
    → Foreign pem (ks ++ k ∷ [])
Foreign-snoc pem [] k f apart = (apart, tt)
Foreign-snoc pem (j ∷ ks) k f apart = (f.0, Foreign-snoc pem ks k f.1 apart)

Retired-snoc :
    (pem : String) (at_time : ℕ) (ks : List ActiveKey) (k : ActiveKey)
    → Retired pem at_time ks
    → k.public_pem ≢ pem
    → Retired pem at_time (ks ++ k ∷ [])
Retired-snoc pem at_time [] k none_is apart = absurd none_is
Retired-snoc pem at_time (j ∷ ks) k (inl (same, at_j, f)) apart =
    inl (same, at_j, Foreign-snoc pem ks k f apart)
Retired-snoc pem at_time (j ∷ ks) k (inr (other, r)) apart =
    inr (other, Retired-snoc pem at_time ks k r apart)

-- the retired key stays the one with its public text, and the active key has another
run_kept-Retired :
    (pem : String) (at_time : ℕ) (events : List Event) (m : JwtManager)
    → Fresh pem events
    → m.active.public_pem ≢ pem
    → Retired pem at_time m.retired
    → ((run_kept events m).active.public_pem ≢ pem)
      × Retired pem at_time (run_kept events m).retired
unfolding loaded_key
run_kept-Retired pem at_time [] m f apart r = (apart, r)
run_kept-Retired pem at_time (rotates (raised e) now prune_at ∷ events) m f apart r =
    run_kept-Retired pem at_time events m f apart r
run_kept-Retired pem at_time (rotates (ok pems) now prune_at ∷ events) m f apart r =
    run_kept-Retired pem at_time events (rotate_kept pems now m) f.1 f.0
      (Retired-snoc pem at_time m.retired _ r apart)
run_kept-Retired pem at_time (verifies prune_at ∷ events) m f apart r =
    run_kept-Retired pem at_time events m f apart r

run_kept-names :
    (events : List Event) (m : JwtManager)
    → ((run_kept events m).audience ≡ m.audience) × ((run_kept events m).issuer ≡ m.issuer)
run_kept-names [] m = (refl, refl)
run_kept-names (rotates (ok pems) now prune_at ∷ events) m =
    run_kept-names events (rotate_kept pems now m)
run_kept-names (rotates (raised e) now prune_at ∷ events) m = run_kept-names events m
run_kept-names (verifies prune_at ∷ events) m = run_kept-names events m

-- The overlap window of a rotation. A token that the public key which is active at a rotation decodes,
-- and no other key, with the claims that the application requires; the key is not loaded again, nor
-- was it before. After that rotation at a time, any later rotations and verifications, and no pruning
-- ahead of the present reading by more than `MAX_CLOCK_SKEW_SECONDS`: `verify_token` returns the claims
-- as long as the present reading is before that time plus the window, and raises JWTError from then on.
pub verify_token-window :
    (decode : Decoder) (token : String) (c : Claims) (m : JwtManager) (pems : String × String)
    (at_time first_prune : ℕ) (events : List Event) (prune_at now : ℕ)
    → SignedBy decode token m.audience m.issuer m.active.public_pem c
    → Foreign m.active.public_pem m.retired
    → Fresh m.active.public_pem (rotates (ok pems) at_time first_prune ∷ events)
    → Steady now (rotates (ok pems) at_time first_prune ∷ events)
    → prune_at ≤ now + max_clock_skew
    → (verify_token decode token prune_at now
        (run (rotates (ok pems) at_time first_prune ∷ events) m)).0
      ≡ (if ltb now (at_time + m.overlap_window) then valid c else jwt_error)
unfolding loaded_key outliving
verify_token-window decode token c m pems at_time first_prune events prune_at now s f fresh steady
      h =
    let next = rotate_kept pems at_time m in
    let all = rotates (ok pems) at_time first_prune ∷ events in
    let (active, retired) =
      run_kept-Retired m.active.public_pem (at_time + m.overlap_window) events next fresh.1 fresh.0
        (Foreign-append m.active.public_pem (at_time + m.overlap_window) m.retired _ f refl refl) in
    let (aud, iss) = run_kept-names events next in
    verify_token-kept decode token all m prune_at now steady h
    ∙ rw (aud, iss)
        (try_keys-skip decode token m.audience m.issuer m.active.public_pem c
            (run_kept events next).active _ s active
          ∙ try_keys-Retired decode token m.audience m.issuer m.active.public_pem c now
              (at_time + m.overlap_window) (run_kept events next).retired s retired)
