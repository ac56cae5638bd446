-- ===== src/Promotion/Release.antt =====
-- runtime/atomic_promotion.py: `get` and `release` keep the counts of readers.
use preceptual_ai_5g_dynamic.Prelude.{
  Bool-cases, List, String, [], arith, eq_iff, get_elem?, inl, inr, refl, some, str_eq, subst, suc,
  sym, true, zero, ℕ, ◌==◌, ◌∙◌, ◌∷◌, ◌≡◌,
}
use preceptual_ai_5g_dynamic.Promotion.{
  Promoter, Slot, decrement, get, increment, release, release_in,
}
use preceptual_ai_5g_dynamic.Promotion.Handles.{
  AllMatch, AllUpTo, AllUpTo-drop_at, Apart, Counted, Handle, IsAccounted, Matches, NumbersUpTo,
  Others, drop_at, held, held-drop_at, one_less, one_more, searched,
}

module _ {ℓ} {M : Type ℓ} where
  Matches-at :
      (s : Slot M) (i m : ℕ) (sha : String) (hs : List Handle)
      → get_elem? hs i ≡ some (m, sha)
      → Matches s hs
      → (s.number == m) ≡ str_eq s.sha sha
  Matches-at s i m sha [] e h = cc
  Matches-at s zero m sha ((k, t) ∷ hs) e h = ground arith
  Matches-at s (suc i) m sha ((k, t) ∷ hs) e h = Matches-at s i m sha hs e h.1

  Matches-drop_at :
      (s : Slot M) (i : ℕ) (hs : List Handle) → Matches s hs → Matches s (drop_at i hs)
  Matches-drop_at s i [] h = tt
  Matches-drop_at s zero ((k, t) ∷ hs) h = h.1
  Matches-drop_at s (suc i) ((k, t) ∷ hs) h = (h.0, Matches-drop_at s i hs h.1)

  AllMatch-drop_at :
      (i : ℕ) (hs : List Handle) (ss : List (Slot M)) → AllMatch hs ss → AllMatch (drop_at i hs) ss
  AllMatch-drop_at i hs [] h = tt
  AllMatch-drop_at i hs (s ∷ ss) h = (Matches-drop_at s i hs h.0, AllMatch-drop_at i hs ss h.1)

  AllMatch-release_in :
      (i : ℕ) (sha : String) (hs : List Handle) (ss : List (Slot M))
      → AllMatch hs ss
      → AllMatch (drop_at i hs) (release_in sha ss)
  unfolding release_in decrement
  AllMatch-release_in i sha hs [] h = tt
  AllMatch-release_in i sha hs (s ∷ ss) h = elim (Bool-cases (str_eq s.sha sha)) [
    | inl found ↦ rw found (Matches-drop_at (decrement s) i hs h.0, AllMatch-drop_at i hs ss h.1)
    | inr other ↦ rw other (Matches-drop_at s i hs h.0, AllMatch-release_in i sha hs ss h.1)
  ]

  Others-release_in :
      (t : Slot M) (sha : String) (ss : List (Slot M)) → Others t ss → Others t (release_in sha ss)
  unfolding release_in decrement
  Others-release_in t sha [] h = tt
  Others-release_in t sha (s ∷ ss) h = elim (Bool-cases (str_eq s.sha sha)) [
    | inl found ↦ rw found h
    | inr other ↦ rw other (h.0, h.1, Others-release_in t sha ss h.2)
  ]

  Apart-release_in : (sha : String) (ss : List (Slot M)) → Apart ss → Apart (release_in sha ss)
  unfolding release_in decrement
  Apart-release_in sha [] h = tt
  Apart-release_in sha (s ∷ ss) h = elim (Bool-cases (str_eq s.sha sha)) [
    | inl found ↦ rw found h
    | inr other ↦ rw other (Others-release_in s sha ss h.0, Apart-release_in sha ss h.1)
  ]

  NumbersUpTo-release_in :
      (k : ℕ) (sha : String) (ss : List (Slot M))
      → NumbersUpTo k ss
      → NumbersUpTo k (release_in sha ss)
  unfolding release_in decrement
  NumbersUpTo-release_in k sha [] h = tt
  NumbersUpTo-release_in k sha (s ∷ ss) h = elim (Bool-cases (str_eq s.sha sha)) [
    | inl found ↦ rw found h
    | inr other ↦ rw other (h.0, NumbersUpTo-release_in k sha ss h.1)
  ]

  untouched :
      (i m : ℕ) (sha : String) (hs : List Handle) (t : Slot M) (ss : List (Slot M))
      → get_elem? hs i ≡ some (m, sha)
      → (t.number == m) ≡ true
      → Others t ss
      → Counted hs ss
      → Counted (drop_at i hs) ss
  untouched i m sha hs t [] e here o c = tt
  untouched i m sha hs t (s ∷ ss) e here o c =
      (ground (arith, held-drop_at s.number i m sha hs e), untouched i m sha hs t ss e here o.2 c.1)

  Counted-release_in :
      (i m : ℕ) (sha : String) (hs : List Handle) (ss : List (Slot M))
      → get_elem? hs i ≡ some (m, sha)
      → AllMatch hs ss
      → Apart ss
      → Counted hs ss
      → Counted (drop_at i hs) (release_in sha ss)
  unfolding release_in decrement
  Counted-release_in i m sha hs [] e h a c = tt
  Counted-release_in i m sha hs (s ∷ ss) e h a c =
      let same = Matches-at s i m sha hs e h.0 in
      let dropped = held-drop_at s.number i m sha hs e in
      elim (Bool-cases (str_eq s.sha sha)) [
        | inl found ↦
            rw found
              (one_less _ _ (ground arith), untouched i m sha hs s ss e (same ∙ found) a.0 c.1)
        | inr other ↦ rw other (ground arith, Counted-release_in i m sha hs ss e h.1 a.1 c.1)
      ]

  searched-release :
      (sha : String) (p : Promoter M) → searched (release sha p) ≡ release_in sha (searched p)
  unfolding release release_in
  searched-release sha p = elim (Bool-cases (str_eq p.slot.sha sha)) [
    | inl found ↦ rw found refl
    | inr other ↦ rw other refl
  ]

  counter-release : (sha : String) (p : Promoter M) → (release sha p).slot_counter ≡ p.slot_counter
  unfolding release
  counter-release sha p = ground arith

  pub release-IsAccounted :
      (i m : ℕ) (sha : String) (hs : List Handle) (p : Promoter M)
      → get_elem? hs i ≡ some (m, sha)
      → IsAccounted p hs
      → IsAccounted (release sha p) (drop_at i hs)
  release-IsAccounted i m sha hs p e h =
      let same = sym (searched-release sha p) in
      let count = sym (counter-release sha p) in
      record {
        counted =
            subst (Counted (drop_at i hs)) same
              (Counted-release_in i m sha hs (searched p) e h.matched h.apart h.counted);
        apart = subst Apart same (Apart-release_in sha (searched p) h.apart);
        matched =
            subst (AllMatch (drop_at i hs)) same
              (AllMatch-release_in i sha hs (searched p) h.matched);
        recent =
            subst (λ k. NumbersUpTo k (searched (release sha p))) count
              (subst (NumbersUpTo p.slot_counter) same
                (NumbersUpTo-release_in p.slot_counter sha (searched p) h.recent));
        past =
            subst (λ k. AllUpTo k (drop_at i hs)) count
              (AllUpTo-drop_at p.slot_counter i hs h.past);
      }

  Counted-other :
      (n : ℕ) (sha : String) (hs : List Handle) (t : Slot M) (ss : List (Slot M))
      → t.number ≡ n
      → Others t ss
      → Counted hs ss
      → Counted ((n, sha) ∷ hs) ss
  Counted-other n sha hs t [] e o c = tt
  Counted-other n sha hs t (s ∷ ss) e o c = (ground arith, Counted-other n sha hs t ss e o.2 c.1)

  AllMatch-other :
      (hs : List Handle) (t : Slot M) (ss : List (Slot M))
      → Others t ss
      → AllMatch hs ss
      → AllMatch ((t.number, t.sha) ∷ hs) ss
  AllMatch-other hs t [] o h = tt
  AllMatch-other hs t (s ∷ ss) o h = ((o.0 ∙ sym o.1, h.0), AllMatch-other hs t ss o.2 h.1)

  pub get-IsAccounted :
      (hs : List Handle) (p : Promoter M)
      → IsAccounted p hs
      → IsAccounted (get p).1 ((p.slot.number, p.slot.sha) ∷ hs)
  unfolding get increment
  get-IsAccounted hs p h = record {
    counted = (
      one_more p.slot.in_flight (held p.slot.number hs) h.counted.0 ∙ ground arith,
      Counted-other p.slot.number p.slot.sha hs p.slot p.draining refl h.apart.0 h.counted.1,
    );
    apart = h.apart;
    matched = (
      (ground (arith, eq_iff p.slot.sha p.slot.sha), h.matched.0),
      AllMatch-other hs p.slot p.draining h.apart.0 h.matched.1,
    );
    recent = h.recent;
    past = (h.recent.0, h.past);
  }
