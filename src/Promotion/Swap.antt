-- ===== src/Promotion/Swap.antt =====
-- runtime/atomic_promotion.py: the two steps of a swap keep the counts of readers.
use preceptual_ai_5g_dynamic.Prelude.{
  Bool-cases, List, String, [], ap, arith, eq_iff, false, inl, inr, str_eq, suc, sym, ℕ, ◌++◌, ◌==◌,
  ◌∷◌, ◌≡◌, ◌≤◌,
}
use preceptual_ai_5g_dynamic.Prelude.Int.{pos}
use preceptual_ai_5g_dynamic.Promotion.{
  Kind, Promoter, Slot, begin_swap, remove_slot, Pending, drained,
}
use preceptual_ai_5g_dynamic.Promotion.Handles.{
  AllMatch, AllUpTo, AllUpTo-suc, Apart, Counted, Handle, IsAccounted, Matches, NumbersUpTo, Others,
  UnusedSha, held, held-above, searched,
}

module _ {ℓ} {M : Type ℓ} where
  -- no slot of the list has the SHA
  abbrev pub NewSha : String → List (Slot M) → Type 0
  NewSha sha [] = Unit
  NewSha sha (s ∷ ss) = (str_eq s.sha sha ≡ false) × NewSha sha ss

  Counted-last :
      (hs : List Handle) (t : Slot M) (ss : List (Slot M))
      → t.in_flight ≡ pos (held t.number hs)
      → Counted hs ss
      → Counted hs (ss ++ t ∷ [])
  Counted-last hs t [] e c = (e, tt)
  Counted-last hs t (s ∷ ss) e c = (c.0, Counted-last hs t ss e c.1)

  AllMatch-last :
      (hs : List Handle) (t : Slot M) (ss : List (Slot M))
      → Matches t hs
      → AllMatch hs ss
      → AllMatch hs (ss ++ t ∷ [])
  AllMatch-last hs t [] e c = (e, tt)
  AllMatch-last hs t (s ∷ ss) e c = (c.0, AllMatch-last hs t ss e c.1)

  NumbersUpTo-last :
      (k : ℕ) (t : Slot M) (ss : List (Slot M))
      → t.number ≤ k
      → NumbersUpTo k ss
      → NumbersUpTo (suc k) (ss ++ t ∷ [])
  NumbersUpTo-last k t [] e c = (omega arith, tt)
  NumbersUpTo-last k t (s ∷ ss) e c = (omega arith, NumbersUpTo-last k t ss e c.1)

  Others-last :
      (u t : Slot M) (ss : List (Slot M))
      → (t.number == u.number) ≡ false
      → str_eq t.sha u.sha ≡ false
      → Others u ss
      → Others u (ss ++ t ∷ [])
  Others-last u t [] e f o = (e, f, tt)
  Others-last u t (s ∷ ss) e f o = (o.0, o.1, Others-last u t ss e f o.2)

  Apart-last : (t : Slot M) (ss : List (Slot M)) → Others t ss → Apart ss → Apart (ss ++ t ∷ [])
  Apart-last t [] o a = (tt, tt)
  Apart-last t (s ∷ ss) o a = (
    Others-last s t ss (ground arith) (ground (arith, eq_iff s.sha t.sha, eq_iff t.sha s.sha)) a.0,
    Apart-last t ss o.2 a.1,
  )

  Others-new :
      (k : ℕ) (model : M) (sha : String) (ss : List (Slot M))
      → NumbersUpTo k ss
      → NewSha sha ss
      → Others (record { number = suc k; model = model; sha = sha; in_flight = pos 0 }) ss
  Others-new k model sha [] n f = tt
  Others-new k model sha (s ∷ ss) n f = (ground arith, f.0, Others-new k model sha ss n.1 f.1)

  Matches-new :
      (k : ℕ) (model : M) (sha : String) (hs : List Handle)
      → AllUpTo k hs
      → UnusedSha sha hs
      → Matches (record { number = suc k; model = model; sha = sha; in_flight = pos 0 }) hs
  Matches-new k model sha [] n f = tt
  Matches-new k model sha ((m, t) ∷ hs) n f = (ground arith, Matches-new k model sha hs n.1 f.1)

  pub begin_swap-IsAccounted :
      (kind : Kind) (model : M) (sha : String) (hs : List Handle) (p : Promoter M)
      → NewSha sha (searched p)
      → UnusedSha sha hs
      → IsAccounted p hs
      → IsAccounted (begin_swap kind model sha p).1 hs
  unfolding begin_swap
  begin_swap-IsAccounted kind model sha hs p new unused h =
      let k = p.slot_counter in
      let fresh : Slot M = record { number = suc k; model = model; sha = sha; in_flight = pos 0 } in
      record {
        counted = (
          ap pos (sym (held-above k hs h.past)),
          Counted-last hs p.slot p.draining h.counted.0 h.counted.1,
        );
        apart = (
          Others-last fresh p.slot p.draining (Others-new k model sha (searched p) h.recent new).0
              new.0 (Others-new k model sha p.draining h.recent.1 new.1),
          Apart-last p.slot p.draining h.apart.0 h.apart.1,
        );
        matched = (
          Matches-new k model sha hs h.past unused,
          AllMatch-last hs p.slot p.draining h.matched.0 h.matched.1,
        );
        recent = (omega arith, NumbersUpTo-last k p.slot p.draining h.recent.0 h.recent.1);
        past = AllUpTo-suc k hs h.past;
      }

  Counted-remove :
      (n : ℕ) (hs : List Handle) (ss : List (Slot M))
      → Counted hs ss
      → Counted hs (remove_slot n ss)
  unfolding remove_slot
  Counted-remove n hs [] c = tt
  Counted-remove n hs (s ∷ ss) c = elim (Bool-cases (s.number == n)) [
    | inl here ↦ rw here c.1
    | inr there ↦ rw there (c.0, Counted-remove n hs ss c.1)
  ]

  AllMatch-remove :
      (n : ℕ) (hs : List Handle) (ss : List (Slot M))
      → AllMatch hs ss
      → AllMatch hs (remove_slot n ss)
  unfolding remove_slot
  AllMatch-remove n hs [] c = tt
  AllMatch-remove n hs (s ∷ ss) c = elim (Bool-cases (s.number == n)) [
    | inl here ↦ rw here c.1
    | inr there ↦ rw there (c.0, AllMatch-remove n hs ss c.1)
  ]

  NumbersUpTo-remove :
      (n k : ℕ) (ss : List (Slot M)) → NumbersUpTo k ss → NumbersUpTo k (remove_slot n ss)
  unfolding remove_slot
  NumbersUpTo-remove n k [] c = tt
  NumbersUpTo-remove n k (s ∷ ss) c = elim (Bool-cases (s.number == n)) [
    | inl here ↦ rw here c.1
    | inr there ↦ rw there (c.0, NumbersUpTo-remove n k ss c.1)
  ]

  Others-remove :
      (n : ℕ) (t : Slot M) (ss : List (Slot M)) → Others t ss → Others t (remove_slot n ss)
  unfolding remove_slot
  Others-remove n t [] c = tt
  Others-remove n t (s ∷ ss) c = elim (Bool-cases (s.number == n)) [
    | inl here ↦ rw here c.2
    | inr there ↦ rw there (c.0, c.1, Others-remove n t ss c.2)
  ]

  Apart-remove : (n : ℕ) (ss : List (Slot M)) → Apart ss → Apart (remove_slot n ss)
  unfolding remove_slot
  Apart-remove n [] c = tt
  Apart-remove n (s ∷ ss) c = elim (Bool-cases (s.number == n)) [
    | inl here ↦ rw here c.1
    | inr there ↦ rw there (Others-remove n s ss c.0, Apart-remove n ss c.1)
  ]

  pub drained-IsAccounted :
      (swap : Pending) (hs : List Handle) (p : Promoter M)
      → IsAccounted p hs
      → IsAccounted (drained swap p) hs
  unfolding drained
  drained-IsAccounted swap hs p h =
      let n = swap.old_number in
      record {
        counted = (h.counted.0, Counted-remove n hs p.draining h.counted.1);
        apart = (Others-remove n p.slot p.draining h.apart.0, Apart-remove n p.draining h.apart.1);
        matched = (h.matched.0, AllMatch-remove n hs p.draining h.matched.1);
        recent = (h.recent.0, NumbersUpTo-remove n p.slot_counter p.draining h.recent.1);
        past = h.past;
      }
