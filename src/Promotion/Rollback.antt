-- ===== src/Promotion/Rollback.antt =====
-- runtime/atomic_promotion.py: a rollback while the model that it returns to still drains.
use preceptual_ai_5g_dynamic.Prelude.{String, [], eq_iff, false, refl, true, ◌++◌, ◌∷◌, ◌≡◌}
use preceptual_ai_5g_dynamic.Prelude.Int.{negsuc, ◌+ℤ◌, ◌-ℤ◌}
use preceptual_ai_5g_dynamic.Prelude.Outcome.{ok}
use preceptual_ai_5g_dynamic.Promotion.{
  Pending, Promoter, begin_swap, decrement, get, idle_at, increment, may_finish, new_promoter,
  promote, rollback_swap, release, release_in, rollback,
}

module _ {ℓ} {M : Type ℓ} (a b c : M) (x y z : String) where
  -- a reader has the first model when another is promoted
  abbrev pub promoted : Pending × Promoter M
  promoted = promote b y (get (new_promoter a x)).1

  -- after the rollback `q` the reader releases its handle, a new reader comes, and a third model is
  -- promoted
  abbrev pub third : Promoter M → Pending × Promoter M
  third q = promote c z (get (release x q)).1

  -- For any three models: a reader holds the first model, the second is promoted, and before the
  -- first has drained `rollback` returns to it. Then the release of the reader's handle is counted on
  -- the new active slot, whose count becomes -1, and not on the slot that it came from, whose count
  -- stays 1; the next reader brings the active count to 0, so that after a promotion of the third
  -- model the drain of its slot may end, without the timeout, while it still holds the model.
  pub rollback_miscounts :
      (swap : Pending) × (q : Promoter M) × (rollback promoted.1 ≡ ok (swap, q))
      × ((release x q).slot.in_flight ≡ negsuc 0)
      × ((release x q).draining ≡ promoted.1.draining ++ promoted.1.slot ∷ [])
      × ((get (release x q)).0 ≡ (a, x))
      × (may_finish false (third q).0 (third q).1 ≡ true)
  unfolding rollback begin_swap get increment decrement release release_in promote new_promoter
      may_finish idle_at ◌+ℤ◌ ◌-ℤ◌
  rollback_miscounts =
      let same = (eq_iff x x).1 refl in
      (
        (begin_swap rollback_swap a x promoted.1).0,
        (begin_swap rollback_swap a x promoted.1).1,
        refl,
        rw same refl,
        rw same refl,
        rw same refl,
        rw same refl,
      )
