-- ===== src/Web/Json/Limits.antt =====
-- The limits on what the JSON parser returns (src/web/json.h): nesting, string lengths, and integers
-- that fit their type.
pub mod Strings
pub mod Numbers
pub mod Parts
pub mod Values
use memory_tools.Prelude.{ℕ, zero, suc, ◌-◌, ◌^◌, ◌≤◌, ◌<◌, Bytes, length, ℤ, pos, negsuc}
use memory_tools.Web.Json.{
  JsonValue, Items, Fields, null, bool, int, uint, double, string, array, object, no_items, item,
  no_fields, field, max_string, max_depth,
}

abbrev pub FitsInt64 : ℤ → Type 0
FitsInt64 (pos n) = n < 2 ^ 63
FitsInt64 (negsuc n) = n < 2 ^ 63

-- What the parser reads as a `uint`: an `int64_t` comes first.
abbrev pub OnlyUint64 : ℕ → Type 0
OnlyUint64 n = (2 ^ 63 ≤ n) × (n < 2 ^ 64)

abbrev pub FitsString : Bytes → Type 0
FitsString s = length s ≤ max_string

-- The value may stand inside `depth` arrays and objects: it nests no deeper than the limit from
-- there, and its strings and integers fit.
unfoldable mutual
  pub Within : ℕ → JsonValue → Type 0
  Within depth null = Unit
  Within depth (bool b) = Unit
  Within depth (int i) = FitsInt64 i
  Within depth (uint u) = OnlyUint64 u
  Within depth (double d) = Unit
  Within depth (string s) = FitsString s
  Within depth (array xs) = (depth < max_depth) × WithinItems (suc depth) xs
  Within depth (object fs) = (depth < max_depth) × WithinFields (suc depth) fs

  pub WithinItems : ℕ → Items → Type 0
  WithinItems depth no_items = Unit
  WithinItems depth (item v xs) = Within depth v × WithinItems depth xs

  pub WithinFields : ℕ → Fields → Type 0
  WithinFields depth no_fields = Unit
  WithinFields depth (field k v fs) = FitsString k × Within depth v × WithinFields depth fs

-- The value fits, and what is left of the text is shorter than `m`.
abbrev pub FitsValue : ℕ → ℕ → JsonValue × Bytes → Type 0
FitsValue depth m (v, rest) = Within depth v × (length rest < m)
