-- ===== src/Record/TypeFloat.antt =====
-- record/types.cpp: class TypeFloat. A float is the bit pattern of its IEEE 754 single, below
-- 2 ^ 32.
use dis_minisql.Prelude.{
  ℕ, ◌+◌, ◌-◌, ◌%◌, ◌^◌, Bool, not, ◌&&◌, Option, none, some, List, [], ltb, leb, ◌==◌,
  if◌then◌else◌,
}
use dis_minisql.Storage.Disk.{Bytes, le32}
use dis_minisql.Memory.{uint32_bytes}
use dis_minisql.Record.Types.{CmpBool, unless_null}

-- An exponent of ones with a fraction other than 0.
abbrev pub is_nan : ℕ → Bool
is_nan w = ltb 0x7f80_0000 (w % 2 ^ 31)

-- The order of the numbers: sign and magnitude, with -0 at 0.
abbrev pub order_key : ℕ → ℕ
order_key w = if ltb w (2 ^ 31) then 2 ^ 31 + w else 2 ^ 32 - w

-- A comparison with NaN is false.
abbrev pub ordered : (ℕ → ℕ → Bool) → ℕ → ℕ → Bool
ordered test a b = not (is_nan a) && (not (is_nan b) && test (order_key a) (order_key b))

unfoldable pub serialize_to : Option ℕ → List ℕ
serialize_to none = []
serialize_to (some f) = uint32_bytes f

unfoldable pub deserialize_from : Bytes → ℕ → Bool → Option ℕ × ℕ
deserialize_from storage o is_null = if is_null then (none, 0) else (some (le32 storage o), 4)

unfoldable pub get_serialized_size : Option ℕ → ℕ
get_serialized_size none = 0
get_serialized_size (some f) = 4

unfoldable pub compare_equals : Option ℕ → Option ℕ → CmpBool
compare_equals left right = unless_null left right λ a b. ordered ◌==◌ a b

-- `!=` is true with NaN.
unfoldable pub compare_not_equals : Option ℕ → Option ℕ → CmpBool
compare_not_equals left right = unless_null left right λ a b. not (ordered ◌==◌ a b)

unfoldable pub compare_less_than : Option ℕ → Option ℕ → CmpBool
compare_less_than left right = unless_null left right λ a b. ordered ltb a b

unfoldable pub compare_less_than_equals : Option ℕ → Option ℕ → CmpBool
compare_less_than_equals left right = unless_null left right λ a b. ordered leb a b

unfoldable pub compare_greater_than : Option ℕ → Option ℕ → CmpBool
compare_greater_than left right = unless_null left right λ a b. ordered ltb b a

unfoldable pub compare_greater_than_equals : Option ℕ → Option ℕ → CmpBool
compare_greater_than_equals left right = unless_null left right λ a b. ordered leb b a
