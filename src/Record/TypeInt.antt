-- ===== src/Record/TypeInt.antt =====
-- record/types.cpp: class TypeInt. An int32_t is its bit pattern, below 2 ^ 32.
use dis_minisql.Prelude.{
  ℕ, ◌+◌, ◌%◌, ◌^◌, Bool, not, Option, none, some, List, [], ltb, leb, ◌==◌, if◌then◌else◌,
}
use dis_minisql.Storage.Disk.{Bytes, le32}
use dis_minisql.Memory.{uint32_bytes}
use dis_minisql.Record.Types.{CmpBool, unless_null}

-- The order of two's complement is the order of the patterns with the sign bit flipped.
abbrev pub order_key : ℕ → ℕ
order_key i = (i + 2 ^ 31) % 2 ^ 32

unfoldable pub serialize_to : Option ℕ → List ℕ
serialize_to none = []
serialize_to (some i) = uint32_bytes i

unfoldable pub deserialize_from : Bytes → ℕ → Bool → Option ℕ × ℕ
deserialize_from storage o is_null = if is_null then (none, 0) else (some (le32 storage o), 4)

unfoldable pub get_serialized_size : Option ℕ → ℕ
get_serialized_size none = 0
get_serialized_size (some i) = 4

unfoldable pub compare_equals : Option ℕ → Option ℕ → CmpBool
compare_equals left right = unless_null left right λ a b. a == b

unfoldable pub compare_not_equals : Option ℕ → Option ℕ → CmpBool
compare_not_equals left right = unless_null left right λ a b. not (a == b)

unfoldable pub compare_less_than : Option ℕ → Option ℕ → CmpBool
compare_less_than left right = unless_null left right λ a b. ltb (order_key a) (order_key b)

unfoldable pub compare_less_than_equals : Option ℕ → Option ℕ → CmpBool
compare_less_than_equals left right = unless_null left right λ a b. leb (order_key a) (order_key b)

unfoldable pub compare_greater_than : Option ℕ → Option ℕ → CmpBool
compare_greater_than left right = unless_null left right λ a b. ltb (order_key b) (order_key a)

unfoldable pub compare_greater_than_equals : Option ℕ → Option ℕ → CmpBool
compare_greater_than_equals left right =
    unless_null left right λ a b. leb (order_key b) (order_key a)
