-- ===== src/Promotion/Handles.antt =====
-- runtime/atomic_promotion.py: the handles that readers hold, and what the counts of the slots should be.
use preceptual_ai_5g_dynamic.Prelude.{
  List, String, [], arith, false, get_elem?, if◌then◌else◌, refl, some, str_eq, suc, zero, ℕ, ◌==◌,
  ◌∷◌, ◌≡◌, ◌≤◌,
}
use preceptual_ai_5g_dynamic.Prelude.Int.{pos, ℤ, ◌+ℤ◌, ◌-ℤ◌}
use preceptual_ai_5g_dynamic.Promotion.{Promoter, Slot}

-- The handles that are out: the number of the slot, which no reader sees, and the SHA.
abbrev pub Handle : Type 0
Handle = ℕ × String

-- how many handles are out on the slot of a number
abbrev pub held : ℕ → List Handle → ℕ
held n [] = 0
held n ((m, sha) ∷ hs) = if n == m then suc (held n hs) else held n hs

abbrev pub drop_at : ℕ → List Handle → List Handle
drop_at i [] = []
drop_at zero (h ∷ hs) = hs
drop_at (suc i) (h ∷ hs) = h ∷ drop_at i hs

abbrev pub AllUpTo : ℕ → List Handle → Type 0
AllUpTo k [] = Unit
AllUpTo k ((n, sha) ∷ hs) = (n ≤ k) × AllUpTo k hs

-- no handle has the SHA
abbrev pub UnusedSha : String → List Handle → Type 0
UnusedSha sha [] = Unit
UnusedSha sha ((n, t) ∷ hs) = (str_eq sha t ≡ false) × UnusedSha sha hs

pub held-above : (k : ℕ) (hs : List Handle) → AllUpTo k hs → held (suc k) hs ≡ 0
held-above k [] h = refl
held-above k ((n, sha) ∷ hs) h = ground (arith, held-above k hs h.1)

pub held-drop_at :
    (n i m : ℕ) (sha : String) (hs : List Handle)
    → get_elem? hs i ≡ some (m, sha)
    → held n hs ≡ (if n == m then suc (held n (drop_at i hs)) else held n (drop_at i hs))
held-drop_at n i m sha [] e = cc
held-drop_at n zero m sha ((k, t) ∷ hs) e = ground arith
held-drop_at n (suc i) m sha ((k, t) ∷ hs) e = ground (arith, held-drop_at n i m sha hs e)

pub AllUpTo-drop_at : (k i : ℕ) (hs : List Handle) → AllUpTo k hs → AllUpTo k (drop_at i hs)
AllUpTo-drop_at k i [] h = tt
AllUpTo-drop_at k zero ((n, t) ∷ hs) h = h.1
AllUpTo-drop_at k (suc i) ((n, t) ∷ hs) h = (h.0, AllUpTo-drop_at k i hs h.1)

pub AllUpTo-suc : (k : ℕ) (hs : List Handle) → AllUpTo k hs → AllUpTo (suc k) hs
AllUpTo-suc k [] h = tt
AllUpTo-suc k ((n, t) ∷ hs) h = (omega arith, AllUpTo-suc k hs h.1)

pub one_less : (z : ℤ) (n : ℕ) → z ≡ pos (suc n) → z -ℤ pos 1 ≡ pos n
unfolding ◌-ℤ◌
one_less z n h = ground arith

pub one_more : (z : ℤ) (n : ℕ) → z ≡ pos n → z +ℤ pos 1 ≡ pos (suc n)
unfolding ◌+ℤ◌
one_more z n h = ground arith

module _ {ℓ} {M : Type ℓ} where
  -- a handle is of the slot exactly when it has its SHA
  abbrev pub Matches : Slot M → List Handle → Type 0
  Matches s [] = Unit
  Matches s ((n, sha) ∷ hs) = ((s.number == n) ≡ str_eq s.sha sha) × Matches s hs

  abbrev pub AllMatch : List Handle → List (Slot M) → Type 0
  AllMatch hs [] = Unit
  AllMatch hs (s ∷ ss) = Matches s hs × AllMatch hs ss

  -- the count of every slot is the number of its handles
  abbrev pub Counted : List Handle → List (Slot M) → Type 0
  Counted hs [] = Unit
  Counted hs (s ∷ ss) = (s.in_flight ≡ pos (held s.number hs)) × Counted hs ss

  -- every slot has another number and another SHA than `t`
  abbrev pub Others : Slot M → List (Slot M) → Type 0
  Others t [] = Unit
  Others t (s ∷ ss) = ((s.number == t.number) ≡ false) × (str_eq s.sha t.sha ≡ false) × Others t ss

  abbrev pub Apart : List (Slot M) → Type 0
  Apart [] = Unit
  Apart (s ∷ ss) = Others s ss × Apart ss

  abbrev pub NumbersUpTo : ℕ → List (Slot M) → Type 0
  NumbersUpTo k [] = Unit
  NumbersUpTo k (s ∷ ss) = (s.number ≤ k) × NumbersUpTo k ss

  -- the slots that a `release` searches
  abbrev pub searched : Promoter M → List (Slot M)
  searched p = p.slot ∷ p.draining

  pub record IsAccounted (p : Promoter M) (hs : List Handle) : Type 0 where
    pub counted : Counted hs (searched p)
    pub apart : Apart (searched p)
    pub matched : AllMatch hs (searched p)
    pub recent : NumbersUpTo p.slot_counter (searched p)
    pub past : AllUpTo p.slot_counter hs
