-- ===== src/Prelude/Flt.antt =====
-- Python's `float` in a fixed unit: a number of units, or one of the values that are not finite.
-- Arithmetic is exact: rounding and overflow to an infinity are not modelled. Comparisons and
-- `min`/`max` are Python's, in which every test that meets `nan` is false.
use preceptual_ai_5g_dynamic.Prelude.{
  Bool, false, if◌then◌else◌, leb, refl, true, ℕ, ◌&&◌, ◌+◌, ◌≡◌,
}
use preceptual_ai_5g_dynamic.Prelude.Int.{ltb_ℤ, neg_part, pos, pos_part, ℤ, ◌+ℤ◌, ◌-ℤ◌}

pub data Flt : Type 0 where
  fin : ℤ → Flt
  nan inf ninf : Flt

abbrev pub lit : ℕ → Flt
lit n = fin (pos n)

abbrev pub leb_ℤ : ℤ → ℤ → Bool
leb_ℤ a b = leb (pos_part a + neg_part b) (pos_part b + neg_part a)

-- `a <= b`
unfoldable pub le_flt : Flt → Flt → Bool
le_flt (fin a) (fin b) = leb_ℤ a b
le_flt nan b = false
le_flt (fin a) nan = false
le_flt inf nan = false
le_flt ninf nan = false
le_flt (fin a) inf = true
le_flt (fin a) ninf = false
le_flt inf (fin b) = false
le_flt inf inf = true
le_flt inf ninf = false
le_flt ninf (fin b) = true
le_flt ninf inf = true
le_flt ninf ninf = true

-- `a < b`
unfoldable pub lt_flt : Flt → Flt → Bool
lt_flt (fin a) (fin b) = ltb_ℤ a b
lt_flt nan b = false
lt_flt (fin a) nan = false
lt_flt inf nan = false
lt_flt ninf nan = false
lt_flt (fin a) inf = true
lt_flt (fin a) ninf = false
lt_flt inf (fin b) = false
lt_flt inf inf = false
lt_flt inf ninf = false
lt_flt ninf (fin b) = true
lt_flt ninf inf = true
lt_flt ninf ninf = false

-- `a + b`
unfoldable pub add_flt : Flt → Flt → Flt
add_flt (fin a) (fin b) = fin (a +ℤ b)
add_flt nan b = nan
add_flt (fin a) nan = nan
add_flt inf nan = nan
add_flt ninf nan = nan
add_flt (fin a) inf = inf
add_flt (fin a) ninf = ninf
add_flt inf (fin b) = inf
add_flt inf inf = inf
add_flt inf ninf = nan
add_flt ninf (fin b) = ninf
add_flt ninf inf = nan
add_flt ninf ninf = ninf

-- `-a`
unfoldable pub neg_flt : Flt → Flt
neg_flt (fin a) = fin (pos 0 -ℤ a)
neg_flt nan = nan
neg_flt inf = ninf
neg_flt ninf = inf

-- `a - b`
unfoldable pub sub_flt : Flt → Flt → Flt
sub_flt (fin a) (fin b) = fin (a -ℤ b)
sub_flt nan b = nan
sub_flt (fin a) nan = nan
sub_flt inf nan = nan
sub_flt ninf nan = nan
sub_flt (fin a) inf = ninf
sub_flt (fin a) ninf = inf
sub_flt inf (fin b) = inf
sub_flt inf inf = nan
sub_flt inf ninf = inf
sub_flt ninf (fin b) = ninf
sub_flt ninf inf = ninf
sub_flt ninf ninf = nan

-- `min(a, b)` and `max(a, b)`: the first argument stays unless the second is strictly better
unfoldable pub min_flt : Flt → Flt → Flt
unfolding lt_flt
min_flt a b = if lt_flt b a then b else a

unfoldable pub max_flt : Flt → Flt → Flt
unfolding lt_flt
max_flt a b = if lt_flt a b then b else a

unfoldable pub is_finite : Flt → Bool
is_finite (fin _) = true
is_finite nan = false
is_finite inf = false
is_finite ninf = false

-- twice a value
unfoldable pub double_flt : Flt → Flt
unfolding add_flt
double_flt a = add_flt a a

pub le_flt_nan : (a : Flt) → le_flt a nan ≡ false
unfolding le_flt
le_flt_nan (fin a) = refl
le_flt_nan nan = refl
le_flt_nan inf = refl
le_flt_nan ninf = refl

-- `a == b`
unfoldable pub eq_flt : Flt → Flt → Bool
unfolding le_flt
eq_flt a b = le_flt a b && le_flt b a
