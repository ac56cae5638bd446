-- ===== src/Prelude/Sorted.antt =====
-- `sorted` on texts: insertion by code points.
use Prim.Native.Char.{code}
use preceptual_ai_5g_dynamic.Prelude.{
  Bool, List, String, [], arith, false, has, if◌then◌else◌, ltb, refl, str_eq, true, ℕ, ◌&&◌, ◌==◌,
  ◌||◌, ◌∷◌, ◌≡◌,
}

-- the code points of a text
abbrev pub codes : String → List ℕ
codes String.[] = []
codes (String.◌∷◌ c s) = code c ∷ codes s

le_codes : List ℕ → List ℕ → Bool
le_codes [] ys = true
le_codes (x ∷ xs) [] = false
le_codes (x ∷ xs) (y ∷ ys) = let rest = le_codes xs ys in ltb x y || (x == y && rest)

-- `a <= b` on texts
unfoldable pub str_le : String → String → Bool
unfolding le_codes
str_le a b = le_codes (codes a) (codes b)

unfoldable pub insert_sorted : String → List String → List String
unfolding str_le
insert_sorted x [] = x ∷ []
insert_sorted x (y ∷ ys) =
    let rest = insert_sorted x ys in if str_le x y then x ∷ y ∷ ys else y ∷ rest

unfoldable pub sorted : List String → List String
unfolding insert_sorted
sorted [] = []
sorted (x ∷ xs) = insert_sorted x (sorted xs)

has-insert_sorted :
    (z x : String) (xs : List String) → has z (insert_sorted x xs) ≡ (str_eq z x || has z xs)
unfolding insert_sorted
has-insert_sorted z x [] = refl
has-insert_sorted z x (y ∷ ys) = ground (arith, has-insert_sorted z x ys)

-- Sorting changes no membership.
pub has-sorted : (z : String) (xs : List String) → has z (sorted xs) ≡ has z xs
unfolding sorted
has-sorted z [] = refl
has-sorted z (x ∷ xs) = rw has-insert_sorted (ground (arith, has-sorted z xs))
