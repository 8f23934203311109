-- ===== src/Record/TypeChar.antt =====
-- record/types.cpp: class TypeChar and `CompareStrings`, with the sign of its result. The
-- characters are the unsigned bytes that `memcmp` compares.
pub mod Order
use Prim.Native.Nat.{compare, Ordering}
use dis_minisql.Prelude.{
  ℕ, zero, suc, ◌+◌, Bool, not, ◌&&◌, Option, none, some, List, [], ◌∷◌, ◌++◌, length, ltb, ◌==◌,
  if◌then◌else◌,
}
use dis_minisql.Storage.Disk.{Bytes, le32}
use dis_minisql.Memory.{uint32_bytes, read_bytes}
use dis_minisql.Page.TreePage.{is_lt, is_eq, is_above}
use dis_minisql.Record.Types.{CmpBool, unless_null}

-- VARCHAR_MAX_LEN.
abbrev pub varchar_max_len : ℕ
varchar_max_len = 2048

unfoldable pub memcmp : List ℕ → List ℕ → ℕ → Ordering
memcmp (a ∷ s) (b ∷ t) (suc n) = elim (compare a b) [
  | Ordering.lt ↦ Ordering.lt
  | Ordering.eq ↦ memcmp s t n
  | Ordering.gt ↦ Ordering.gt
]
memcmp _ _ _ = Ordering.eq

abbrev pub min : ℕ → ℕ → ℕ
min a b = if ltb b a then b else a

unfoldable pub compare_strings : List ℕ → List ℕ → Ordering
compare_strings s t =
    let ret = memcmp s t (min (length s) (length t)) in
    if is_eq ret && not (length s == length t) then compare (length s) (length t) else ret

unfoldable pub serialize_to : Option (List ℕ) → List ℕ
serialize_to none = []
serialize_to (some s) = uint32_bytes (length s) ++ s

-- The constructor of the field asserts that the length is below VARCHAR_MAX_LEN.
unfoldable pub deserialize_from : Bytes → ℕ → Bool → Option (Option (List ℕ) × ℕ)
deserialize_from storage o is_null =
    if is_null
    then some (none, 0)
    else let len = le32 storage o in
      if ltb len varchar_max_len
      then some (some (read_bytes storage (o + 4) len), len + 4)
      else none

unfoldable pub get_serialized_size : Option (List ℕ) → ℕ
get_serialized_size none = 0
get_serialized_size (some s) = length s + 4

unfoldable pub compare_equals : Option (List ℕ) → Option (List ℕ) → CmpBool
compare_equals left right = unless_null left right λ s t. is_eq (compare_strings s t)

unfoldable pub compare_not_equals : Option (List ℕ) → Option (List ℕ) → CmpBool
compare_not_equals left right = unless_null left right λ s t. not (is_eq (compare_strings s t))

unfoldable pub compare_less_than : Option (List ℕ) → Option (List ℕ) → CmpBool
compare_less_than left right = unless_null left right λ s t. is_lt (compare_strings s t)

unfoldable pub compare_less_than_equals : Option (List ℕ) → Option (List ℕ) → CmpBool
compare_less_than_equals left right =
    unless_null left right λ s t. not (is_above (compare_strings s t))

unfoldable pub compare_greater_than : Option (List ℕ) → Option (List ℕ) → CmpBool
compare_greater_than left right = unless_null left right λ s t. is_above (compare_strings s t)

unfoldable pub compare_greater_than_equals : Option (List ℕ) → Option (List ℕ) → CmpBool
compare_greater_than_equals left right =
    unless_null left right λ s t. not (is_lt (compare_strings s t))
