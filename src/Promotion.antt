-- ===== src/Promotion.antt =====
-- runtime/atomic_promotion.py: `AtomicPromoter`, the swap of the active model between readers. A slot
-- is an object: `number` says which one, and is the number of the swap that made it (0 for the first).
-- A swap is two steps, since readers run while it drains the old slot: `begin_swap`, and `finish_swap`,
-- which may be taken once `may_finish` holds. Times are left out; that the drain timed out is an argument.
pub mod Handles
pub mod Release
pub mod Swap
pub mod Accounting
pub mod Rollback
use preceptual_ai_5g_dynamic.Prelude.{
  Bool, List, Option, String, [], false, if◌then◌else◌, none, some, str_eq, suc, true, ℕ, ◌++◌,
  ◌==◌, ◌||◌, ◌∷◌,
}
use preceptual_ai_5g_dynamic.Prelude.Int.{ltb_ℤ, pos, ℤ, ◌+ℤ◌, ◌-ℤ◌}
use preceptual_ai_5g_dynamic.Prelude.Outcome.{Outcome, ok, raised, runtime_error}

-- `_ActiveSlot`
pub record Slot {ℓ} (M : Type ℓ) : Type ℓ where
  pub number : ℕ
  pub model : M
  pub sha : String
  pub in_flight : ℤ

pub record Promoter {ℓ} (M : Type ℓ) : Type ℓ where
  pub slot : Slot M
  pub previous : Option (Slot M)
  pub draining : List (Slot M)
  pub slot_counter : ℕ

pub data Kind : Type 0 where
  promotion rollback_swap : Kind

pub record PromotionEvent : Type 0 where
  pub slot_number : ℕ
  pub from_sha : String
  pub to_sha : String
  pub kind : Kind
  pub sink_failed : Bool

-- what a swap remembers between its two steps
pub record Pending : Type 0 where
  pub swap_number : ℕ
  pub old_number : ℕ
  pub from_sha : String
  pub to_sha : String
  pub kind : Kind

unfoldable pub event_of : Pending → Bool → PromotionEvent
event_of swap failed = record {
  slot_number = swap.swap_number;
  from_sha = swap.from_sha;
  to_sha = swap.to_sha;
  kind = swap.kind;
  sink_failed = failed;
}

module _ {ℓ} {M : Type ℓ} where
  unfoldable pub new_promoter : M → String → Promoter M
  new_promoter model sha = record {
    slot = record { number = 0; model = model; sha = sha; in_flight = pos 0 };
    previous = none;
    draining = [];
    slot_counter = 0;
  }

  unfoldable pub increment : Slot M → Slot M
  increment s = record s { in_flight = s.in_flight +ℤ pos 1 }

  unfoldable pub decrement : Slot M → Slot M
  decrement s = record s { in_flight = s.in_flight -ℤ pos 1 }

  -- `get`: the model, its SHA, and the promoter after it
  unfoldable pub get : Promoter M → (M × String) × Promoter M
  unfolding increment
  get p = ((p.slot.model, p.slot.sha), record p { slot = increment p.slot })

  -- the search of `release`, which stops at the first slot with the SHA
  unfoldable pub release_in : String → List (Slot M) → List (Slot M)
  unfolding decrement
  release_in sha [] = []
  release_in sha (s ∷ ss) =
      let rest = release_in sha ss in if str_eq s.sha sha then decrement s ∷ ss else s ∷ rest

  -- `release`: the active slot first, then those that drain
  unfoldable pub release : String → Promoter M → Promoter M
  unfolding release_in
  release sha p =
      if str_eq p.slot.sha sha
      then record p { slot = decrement p.slot }
      else record p { draining = release_in sha p.draining }

  -- `_swap` up to the drain
  unfoldable pub begin_swap : Kind → M → String → Promoter M → Pending × Promoter M
  begin_swap kind model sha p = (
    record {
      swap_number = suc p.slot_counter;
      old_number = p.slot.number;
      from_sha = p.slot.sha;
      to_sha = sha;
      kind = kind;
    },
    record {
      slot = record { number = suc p.slot_counter; model = model; sha = sha; in_flight = pos 0 };
      previous = some p.slot;
      draining = p.draining ++ p.slot ∷ [];
      slot_counter = suc p.slot_counter;
    },
  )

  -- `promote` after its slot boundary
  unfoldable pub promote : M → String → Promoter M → Pending × Promoter M
  unfolding begin_swap
  promote model sha p = begin_swap promotion model sha p

  unfoldable pub rollback : Promoter M → Outcome (Pending × Promoter M)
  unfolding begin_swap
  rollback p = elim p.previous [
    | none ↦ raised runtime_error
    | some s ↦ ok (begin_swap rollback_swap s.model s.sha p)
  ]

  -- whether no reader is counted on the slot of that number: `old_slot.in_flight <= 0`
  unfoldable pub idle_at : ℕ → List (Slot M) → Bool
  idle_at n [] = true
  idle_at n (s ∷ ss) =
      let rest = idle_at n ss in if s.number == n then ltb_ℤ s.in_flight (pos 1) else rest

  -- whether the loop of the drain ends
  unfoldable pub may_finish : (timed_out : Bool) → Pending → Promoter M → Bool
  unfolding idle_at
  may_finish timed_out swap p = timed_out || idle_at swap.old_number p.draining

  -- `self._draining.remove(old_slot)`
  unfoldable pub remove_slot : ℕ → List (Slot M) → List (Slot M)
  remove_slot n [] = []
  remove_slot n (s ∷ ss) = let rest = remove_slot n ss in if s.number == n then ss else s ∷ rest

  -- the promoter after the drain
  unfoldable pub drained : Pending → Promoter M → Promoter M
  unfolding remove_slot
  drained swap p = record p { draining = remove_slot swap.old_number p.draining }

  -- `_swap` after the drain, with the sink and the state that it acts on
  unfoldable pub finish_swap {κ} :
      {W : Type κ} (sink : Option (PromotionEvent → W → Outcome (Unit {0}) × W))
      → Pending
      → Promoter M
      → W
      → PromotionEvent × Promoter M × W
  unfolding drained event_of
  finish_swap none swap p w = (event_of swap false, drained swap p, w)
  finish_swap (some sink) swap p w =
      let (done, w') = sink (event_of swap false) w in
      (event_of swap (elim done [ ok _ ↦ false | raised e ↦ true ]), drained swap p, w')

  unfoldable pub active_sha : Promoter M → String
  active_sha p = p.slot.sha

  unfoldable pub previous_sha : Promoter M → Option String
  previous_sha p = elim p.previous [ none ↦ none | some s ↦ some s.sha ]
