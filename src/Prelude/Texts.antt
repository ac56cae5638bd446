-- ===== src/Prelude/Texts.antt =====
-- Texts as keys and as set elements.
use mathlib.Core.Logic.{◌≢◌, ◌⊎◌, inl, inr}
use mathlib.Core.Path.{◌≡◌, refl}
use mathlib.Core.Bool.{Bool, true, false, not, ◌&&◌, ◌||◌}
use mathlib.Core.List.{List, [], ◌∷◌, ◌++◌}
use native.Mathlib.Omega.{arith}
use Prim.Native.String.{String}
use text.Mathlib.Text.{◌==◌}
use text.Mathlib.TextEquality.{eq_iff}
use preceptual_ai_5g_dynamic.Prelude.Tests.{if◌then◌else◌}

abbrev pub str_eq : String → String → Bool
str_eq a b = a == b

-- `x in xs` for a collection of texts
abbrev pub has : String → List String → Bool
has x [] = false
has x (y ∷ ys) = str_eq x y || has x ys

-- `xs & ys`, `xs - ys` for sets of texts
abbrev pub inter : List String → List String → List String
inter [] ys = []
inter (x ∷ xs) ys = let rest = inter xs ys in if has x ys then x ∷ rest else rest

abbrev pub diff : List String → List String → List String
diff [] ys = []
diff (x ∷ xs) ys = let rest = diff xs ys in if has x ys then rest else x ∷ rest

-- `set(xs)`
abbrev pub dedup : List String → List String
dedup [] = []
dedup (x ∷ xs) = let rest = dedup xs in if has x rest then rest else x ∷ rest

-- truth of a collection: not empty
abbrev pub nonempty {ℓ} : {A : Type ℓ} → List A → Bool
nonempty [] = false
nonempty (_ ∷ _) = true

pub has-inter : (x : String) (xs ys : List String) → has x (inter xs ys) ≡ (has x xs && has x ys)
has-inter x [] ys = refl
has-inter x (y ∷ xs) ys = ground (arith, has-inter x xs ys, eq_iff x y)

pub has-diff :
    (x : String) (xs ys : List String) → has x (diff xs ys) ≡ (has x xs && not (has x ys))
has-diff x [] ys = refl
has-diff x (y ∷ xs) ys = ground (arith, has-diff x xs ys, eq_iff x y)

pub has-dedup : (x : String) (xs : List String) → has x (dedup xs) ≡ has x xs
has-dedup x [] = refl
has-dedup x (y ∷ xs) = ground (arith, has-dedup x xs, has-dedup y xs, eq_iff x y)

pub has-append : (x : String) (xs ys : List String) → has x (xs ++ ys) ≡ (has x xs || has x ys)
has-append x [] ys = refl
has-append x (y ∷ xs) ys = ground (arith, has-append x xs ys)

-- To split on the truth of a collection.
pub nonempty-cases {ℓ} : {A : Type ℓ} (xs : List A) → (xs ≡ []) ⊎ ((xs ≢ []) × (nonempty xs ≡ true))
nonempty-cases [] = inl refl
nonempty-cases (x ∷ xs) = inr (λ h. cc, refl)
