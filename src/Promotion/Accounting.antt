-- ===== src/Promotion/Accounting.antt =====
-- runtime/atomic_promotion.py: the counts of readers, over any interleaving of readers and swaps.
use preceptual_ai_5g_dynamic.Prelude.{Bool, List, String, [], get_elem?, some, true, ℕ, ◌∷◌, ◌≡◌}
use preceptual_ai_5g_dynamic.Promotion.{
  Promoter, get, release, Pending, may_finish, promote, rollback, new_promoter, drained,
}
use preceptual_ai_5g_dynamic.Promotion.Handles.{Handle, UnusedSha, drop_at, searched}
use preceptual_ai_5g_dynamic.Promotion.Swap.{NewSha}
use preceptual_ai_5g_dynamic.Prelude.Outcome.{ok}

module _ {ℓ} {M : Type ℓ} where
  -- One step of a reader or of a swap. Every swap is to a SHA that no slot and no handle has.
  pub data Step (p : Promoter M) (hs : List Handle) : Promoter M → List Handle → Type ℓ where
    acquires : Step p hs (get p).1 ((p.slot.number, p.slot.sha) ∷ hs)
    releases :
        (i m : ℕ) (sha : String)
        → get_elem? hs i ≡ some (m, sha)
        → Step p hs (release sha p) (drop_at i hs)
    promotes :
        (model : M) (sha : String)
        → NewSha sha (searched p)
        → UnusedSha sha hs
        → Step p hs (promote model sha p).1 hs
    rolls_back :
        (swap : Pending) (q : Promoter M)
        → rollback p ≡ ok (swap, q)
        → NewSha swap.to_sha (searched p)
        → UnusedSha swap.to_sha hs
        → Step p hs q hs
    finishes :
        (swap : Pending) (timed_out : Bool)
        → may_finish timed_out swap p ≡ true
        → Step p hs (drained swap p) hs

  -- A new promoter after some steps, with the handles that are out.
  pub data Reaches (model : M) (sha : String) : Promoter M → List Handle → Type ℓ where
    at_start : Reaches model sha (new_promoter model sha) []
    after :
        {p q : Promoter M} {hs is : List Handle}
        → Reaches model sha p hs
        → Step p hs q is
        → Reaches model sha q is
