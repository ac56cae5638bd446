-- ===== src/Pipeline/Polls.antt =====
-- rapp/pipeline.py: how often `_poll_enforcement` asks the RIC, and what it reports.
use preceptual_ai_5g_dynamic.Prelude.{
  Bool, Bool-cases, Option, String, arith, false, has, inl, inr, none, refl, some, subst, suc, true,
  zero, ℕ, ◌+◌, ◌<◌, ◌≡◌, ◌≢◌, ◌≤◌,
}
use preceptual_ai_5g_dynamic.Prelude.Int.{ℤ}
use preceptual_ai_5g_dynamic.Prelude.Outcome.{Outcome, ok, raised}
use preceptual_ai_5g_dynamic.Pipeline.Poll.{
  PollState, StatusReply, attempts_of, enforced_states, is_enforced, noted, poll, poll_enforcement,
  status_of,
}

-- the state says that the policy is enforced only with a text that means so
abbrev pub Honest : PollState → Type 0
Honest p = p.1 ≡ some true → (t : String) × (p.0 ≡ some t) × (has t enforced_states ≡ true)

noted-Honest : (t : Option String) (p : PollState) → Honest p → Honest (noted t p)
unfolding noted
noted-Honest none p h = h
noted-Honest (some t) p h = λ e. (t, refl, cc)

module _ {W : Type 0} (ask : W → StatusReply × W) where
  -- the RIC with a count of the requests
  unfoldable pub counting : W × ℕ → StatusReply × (W × ℕ)
  counting (w, n) = let (reply, w') = ask w in (reply, (w', suc n))

  poll_counts :
      (left : ℕ) (p : PollState) (w : W) (n : ℕ)
      → (n ≤ (poll counting left p (w, n)).1.1)
        × ((poll counting left p (w, n)).1.1 ≤ n + left)
        × (left ≢ 0 → n < (poll counting left p (w, n)).1.1)
  unfolding poll counting
  poll_counts zero p w n = (omega arith, omega arith, λ h. absurd (h refl))
  poll_counts (suc left) p w n =
      after (λ q. poll_counts left q (ask w).1 (suc n)) (status_of (ask w).0)
    where
      after :
          ((q : PollState)
            → let m = (poll counting left q ((ask w).1, suc n)).1.1 in
              (suc n ≤ m) × (m ≤ suc n + left) × (left ≢ 0 → suc n < m))
          → (o : Outcome (Option String))
          → let done : Outcome PollState × (W × ℕ) = (elim o as (λ _. Outcome PollState × (W × ℕ)) [
            | raised e ↦ (raised e, ((ask w).1, suc n))
            | ok t ↦ elim (is_enforced t) as (λ _. Outcome PollState × (W × ℕ)) [
              | true ↦ (ok (noted t p), ((ask w).1, suc n))
              | false ↦ poll counting left (noted t p) ((ask w).1, suc n)
            ]
          ]) in
            (n ≤ done.1.1) × (done.1.1 ≤ n + suc left) × (suc left ≢ 0 → n < done.1.1)
      after next (raised e) = (omega arith, omega arith, λ h. omega arith)
      after next (ok t) = elim (Bool-cases (is_enforced t)) [
        | inl on ↦ rw on (omega arith, omega arith, λ h. omega arith)
        | inr off ↦ rw off (
            let (least, most, _) = next (noted t p) in (omega arith, omega arith, λ h. omega arith))
      ]

  poll-Honest :
      (left : ℕ) (p q : PollState) (w w' : W) → Honest p → poll ask left p w ≡ (ok q, w') → Honest q
  unfolding poll
  poll-Honest zero p q w w' honest h = let e : p ≡ q = cc in subst Honest e honest
  poll-Honest (suc left) p q w w' honest h =
      after (status_of (ask w).0)
        (λ t. poll-Honest left (noted t p) q (ask w).1 w' (noted-Honest t p honest)) h
    where
      decided :
          (t : Option String) (b : Bool)
          → (poll ask left (noted t p) (ask w).1 ≡ (ok q, w') → Honest q)
          → (elim b as (λ _. Outcome PollState × W) [
            | true ↦ (ok (noted t p), (ask w).1)
            | false ↦ poll ask left (noted t p) (ask w).1
          ])
            ≡ (ok q, w')
          → Honest q
      decided t true next k = let e : noted t p ≡ q = cc in subst Honest e (noted-Honest t p honest)
      decided t false next k = next k

      after :
          (o : Outcome (Option String))
          → ((t : Option String) → poll ask left (noted t p) (ask w).1 ≡ (ok q, w') → Honest q)
          → (elim o as (λ _. Outcome PollState × W) [
            | raised e ↦ (raised e, (ask w).1)
            | ok t ↦ elim (is_enforced t) as (λ _. Outcome PollState × W) [
              | true ↦ (ok (noted t p), (ask w).1)
              | false ↦ poll ask left (noted t p) (ask w).1
            ]
          ])
            ≡ (ok q, w')
          → Honest q
      after (raised e) next k = cc
      after (ok t) next k = decided t (is_enforced t) (next t) k

  -- `_poll_enforcement` asks the RIC at least once and at most `max(1, status_poll_attempts)` times,
  -- whatever the RIC answers. If it returns that the policy is enforced, then it returns with that a
  -- status text that is one of the enforced states.
  pub poll_bounds :
      (attempts : ℤ) (w : W)
      → (1 ≤ (poll_enforcement counting attempts (w, 0)).1.1)
        × ((poll_enforcement counting attempts (w, 0)).1.1 ≤ attempts_of attempts)
        × ((q : PollState) (w' : W) → poll_enforcement ask attempts w ≡ (ok q, w') → Honest q)
  unfolding poll_enforcement attempts_of
  poll_bounds attempts w =
      let (_, most, least) = poll_counts (attempts_of attempts) (none, none) w 0 in
      (
        least (some_attempt attempts),
        omega (arith, most),
        λ q w' h. poll-Honest (attempts_of attempts) (none, none) q w w' (λ e. cc) h,
      )
    where
      some_attempt : (n : ℤ) → attempts_of n ≢ 0
      some_attempt n h = ground arith
