-- ===== src/Record/Field.antt =====
-- include/record/field.h: a field and the dispatch of its operations on its type. `none` is a
-- failed assertion: of the base class, which the invalid type has, of two fields that cannot be
-- compared, or of a length.
pub mod RoundTrip
pub mod Comparison
pub mod Keys
use dis_minisql.Prelude.{
  ℕ, ◌^◌, ◌<◌, ◌≡◌, Bool, true, false, Option, none, some, List, length, is_some, not,
}
use dis_minisql.Storage.Disk.{Bytes}
use dis_minisql.Record.Types.{
  TypeId, type_invalid, type_int, type_float, type_char, CmpBool, same_type,
}
use dis_minisql.Record.TypeInt
use dis_minisql.Record.TypeFloat
use dis_minisql.Record.TypeChar
use dis_minisql.Record.TypeChar.{varchar_max_len}

-- The value stands with its type; `none` is null.
pub data Field : Type 0 where
  invalid_field : Field
  int_field float_field : Option ℕ → Field
  char_field : Option (List ℕ) → Field

-- `Field(type)`.
unfoldable pub null_field : TypeId → Field
null_field type_invalid = invalid_field
null_field type_int = int_field none
null_field type_float = float_field none
null_field type_char = char_field none

abbrev pub get_type_id : Field → TypeId
get_type_id invalid_field = type_invalid
get_type_id (int_field v) = type_int
get_type_id (float_field v) = type_float
get_type_id (char_field v) = type_char

abbrev pub is_null : Field → Bool
is_null invalid_field = true
is_null (int_field v) = not (is_some v)
is_null (float_field v) = not (is_some v)
is_null (char_field v) = not (is_some v)

abbrev pub check_comparable : Field → Field → Bool
check_comparable f g = same_type (get_type_id f) (get_type_id g)

-- The bytes that `SerializeTo` writes; their number is its result.
unfoldable pub serialize_to : Field → Option (List ℕ)
serialize_to invalid_field = none
serialize_to (int_field v) = some (TypeInt.serialize_to v)
serialize_to (float_field v) = some (TypeFloat.serialize_to v)
serialize_to (char_field v) = some (TypeChar.serialize_to v)

-- The field, and the number of bytes read.
pub deserialize_from : Bytes → ℕ → TypeId → Bool → Option (Field × ℕ)
deserialize_from buf o type_invalid null = none
deserialize_from buf o type_int null =
    let (v, n) = TypeInt.deserialize_from buf o null in some (int_field v, n)
deserialize_from buf o type_float null =
    let (v, n) = TypeFloat.deserialize_from buf o null in some (float_field v, n)
deserialize_from buf o type_char null = elim (TypeChar.deserialize_from buf o null) [
  | none ↦ none
  | some (v, n) ↦ some (char_field v, n)
]

unfoldable pub get_serialized_size : Field → Option ℕ
get_serialized_size invalid_field = none
get_serialized_size (int_field v) = some (TypeInt.get_serialized_size v)
get_serialized_size (float_field v) = some (TypeFloat.get_serialized_size v)
get_serialized_size (char_field v) = some (TypeChar.get_serialized_size v)

-- `Type::GetInstance(type_id_)` with the method of each type.
unfoldable pub dispatch :
    (Option ℕ → Option ℕ → CmpBool)
    → (Option ℕ → Option ℕ → CmpBool)
    → (Option (List ℕ) → Option (List ℕ) → CmpBool)
    → Field
    → Field
    → Option CmpBool
dispatch ints floats strings (int_field a) (int_field b) = some (ints a b)
dispatch ints floats strings (float_field a) (float_field b) = some (floats a b)
dispatch ints floats strings (char_field a) (char_field b) = some (strings a b)
dispatch ints floats strings _ _ = none

pub compare_equals : Field → Field → Option CmpBool
compare_equals = dispatch TypeInt.compare_equals TypeFloat.compare_equals TypeChar.compare_equals

pub compare_not_equals : Field → Field → Option CmpBool
compare_not_equals =
    dispatch TypeInt.compare_not_equals TypeFloat.compare_not_equals TypeChar.compare_not_equals

unfoldable pub compare_less_than : Field → Field → Option CmpBool
compare_less_than =
    dispatch TypeInt.compare_less_than TypeFloat.compare_less_than TypeChar.compare_less_than

pub compare_less_than_equals : Field → Field → Option CmpBool
compare_less_than_equals =
    dispatch TypeInt.compare_less_than_equals TypeFloat.compare_less_than_equals
      TypeChar.compare_less_than_equals

pub compare_greater_than : Field → Field → Option CmpBool
compare_greater_than =
    dispatch TypeInt.compare_greater_than TypeFloat.compare_greater_than
      TypeChar.compare_greater_than

pub compare_greater_than_equals : Field → Field → Option CmpBool
compare_greater_than_equals =
    dispatch TypeInt.compare_greater_than_equals TypeFloat.compare_greater_than_equals
      TypeChar.compare_greater_than_equals

-- A field that its constructor makes of a value in range.
unfoldable pub IsValid : Field → Type 0
IsValid invalid_field = true ≡ false
IsValid (int_field (some i)) = i < 2 ^ 32
IsValid (float_field (some f)) = f < 2 ^ 32
IsValid (char_field (some s)) = length s < varchar_max_len
IsValid _ = Unit
