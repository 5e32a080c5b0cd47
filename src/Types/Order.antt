-- ===== src/Types/Order.antt =====
-- The laws of `value_compare` and `value_equal`, and of the names of the types.
use Prim.Native.Nat.{Ordering}
use memory_tools.Prelude.{
  ℕ, ◌*◌, ◌%◌, ◌^◌, ◌<◌, ◌≡◌, refl, Bool, true, false, none, some, arith, ◌==◌, if◌then◌else◌,
}
use memory_tools.Types.{
  DataType, i8, f32, f64, string, bytes, type_is_dynamic, type_is_float, type_size, type_name,
  parse_type, Floats, value_compare, value_equal,
}

-- `parse_type` reads back the name of every type but the two dynamic ones, which it refuses.
pub parse_type-type_name :
    (t : DataType) → parse_type (type_name t) ≡ (if type_is_dynamic t then none else some t)
unfolding parse_type type_name type_is_dynamic
parse_type-type_name i8 = refl
parse_type-type_name _ = refl

abbrev pub flip : Ordering → Ordering
flip Ordering.lt = Ordering.gt
flip Ordering.eq = Ordering.eq
flip Ordering.gt = Ordering.lt

-- Comparing the other way round gives the opposite answer, for every type.
pub value_compare-flip :
    (fl : Floats) (a b : ℕ) (t : DataType) → value_compare fl b a t ≡ flip (value_compare fl a b t)
unfolding value_compare
value_compare-flip fl a b f32 = ground (arith, fl.less_asymm f32 a b, fl.less_asymm f32 b a)
value_compare-flip fl a b f64 = ground (arith, fl.less_asymm f64 a b, fl.less_asymm f64 b a)
value_compare-flip fl a b _ = ground arith

-- The numeric types whose values are whole numbers.
abbrev pub is_integral : DataType → Bool
is_integral f32 = false
is_integral f64 = false
is_integral string = false
is_integral bytes = false
is_integral _ = true

-- Two integral values are equal exactly when they agree in the bits of their type.
pub value_equal-bits :
    (fl : Floats) (a b : ℕ) (t : DataType)
    → a < 2 ^ 64
    → b < 2 ^ 64
    → is_integral t ≡ true
    → value_equal fl a b t ≡ (a % 2 ^ (8 * type_size t) == b % 2 ^ (8 * type_size t))
unfolding value_equal type_size
value_equal-bits fl a b i8 ha hb h = ground arith
value_equal-bits fl a b _ ha hb h = ground arith

-- The order of integral values is transitive.
pub value_compare_trans :
    (fl : Floats) (a b c : ℕ) (t : DataType)
    → is_integral t ≡ true
    → value_compare fl a b t ≡ Ordering.lt
    → value_compare fl b c t ≡ Ordering.lt
    → value_compare fl a c t ≡ Ordering.lt
unfolding value_compare
value_compare_trans fl a b c i8 h ab bc = ground arith
value_compare_trans fl a b c _ h ab bc = ground arith

-- Two floating-point patterns of which neither is below the other are equal, so a NaN is equal to
-- every number.
pub value_equal-unordered :
    (fl : Floats) (a b : ℕ) (t : DataType)
    → type_is_float t ≡ true
    → fl.less t a b ≡ false
    → fl.less t b a ≡ false
    → value_equal fl a b t ≡ true
unfolding value_equal type_is_float
value_equal-unordered fl a b f32 h x y = ground arith
value_equal-unordered fl a b _ h x y = ground arith
