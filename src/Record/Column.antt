-- ===== src/Record/Column.antt =====
-- record/column.cpp: a column of a schema. The characters of a name are bytes; `none` is a failed
-- assertion.
pub mod RoundTrip
use dis_minisql.Prelude.{
  ℕ, zero, suc, ◌+◌, ◌*◌, ◌^◌, ◌<◌, ◌≡◌, Bool, true, false, not, Option, none, some, List, length,
  ◌++◌, ◌==◌, ◌>>=◌, if◌then◌else◌,
}
use dis_minisql.Storage.Disk.{Bytes, le32}
use dis_minisql.Memory.{uint32_bytes, read_bytes}
use dis_minisql.Record.Types.{TypeId, type_invalid, type_int, type_float, type_char}

pub record Column : Type 0 where
  pub name : List ℕ
  pub column_type : TypeId
  pub len : ℕ
  pub table_ind : ℕ
  pub nullable : Bool
  pub unique : Bool

abbrev pub column_magic_num : ℕ
column_magic_num = 210928

-- The constructor without a length.
unfoldable pub new_column : List ℕ → TypeId → ℕ → Bool → Bool → Option Column
new_column name type_int index nullable unique = some record {
  name = name;
  column_type = type_int;
  len = 4;
  table_ind = index;
  nullable = nullable;
  unique = unique;
}
new_column name type_float index nullable unique = some record {
  name = name;
  column_type = type_float;
  len = 4;
  table_ind = index;
  nullable = nullable;
  unique = unique;
}
new_column name _ index nullable unique = none

-- The constructor with the maximal length of the characters.
unfoldable pub new_char_column : List ℕ → TypeId → ℕ → ℕ → Bool → Bool → Option Column
new_char_column name type_char length index nullable unique = some record {
  name = name;
  column_type = type_char;
  len = length;
  table_ind = index;
  nullable = nullable;
  unique = unique;
}
new_char_column name _ length index nullable unique = none

-- The copy constructor.
unfoldable pub copy_column : Column → Column
copy_column other = record {
  name = other.name;
  column_type = other.column_type;
  len = other.len;
  table_ind = other.table_ind;
  nullable = other.nullable;
  unique = other.unique;
}

-- The conversions to and from `uint32_t`; `none` is a number that is no type.
abbrev pub number_of_type : TypeId → ℕ
number_of_type type_invalid = 0
number_of_type type_int = 1
number_of_type type_float = 2
number_of_type type_char = 3

abbrev pub type_of_number : ℕ → Option TypeId
type_of_number zero = some type_invalid
type_of_number (suc zero) = some type_int
type_of_number (suc (suc zero)) = some type_float
type_of_number (suc (suc (suc zero))) = some type_char
type_of_number _ = none

abbrev pub number_of_bool : Bool → ℕ
number_of_bool true = 1
number_of_bool false = 0

abbrev pub bool_of_number : ℕ → Bool
bool_of_number n = not (n == 0)

-- The bytes that `SerializeTo` writes; their number is its result.
pub serialize_to : Column → List ℕ
serialize_to c =
    uint32_bytes column_magic_num
    ++ (uint32_bytes (length c.name)
        ++ (c.name
            ++ (uint32_bytes (number_of_type c.column_type)
                ++ (uint32_bytes c.len
                    ++ (uint32_bytes c.table_ind
                        ++ (uint32_bytes (number_of_bool c.nullable)
                            ++ uint32_bytes (number_of_bool c.unique)))))))

pub get_serialized_size : Column → ℕ
get_serialized_size c = 4 * 7 + length c.name

-- The allocation at the end of `DeserializeFrom`.
unfoldable pub allocate_column : List ℕ → TypeId → ℕ → ℕ → Bool → Bool → Option Column
unfolding new_column new_char_column
allocate_column name type_char len index nullable unique =
    new_char_column name type_char len index nullable unique
allocate_column name t len index nullable unique = new_column name t index nullable unique

-- The column, and the number of bytes read.
pub deserialize_from : Bytes → ℕ → Option (Column × ℕ)
deserialize_from buf o =
    if not (le32 buf o == column_magic_num)
    then none
    else let name_len = le32 buf (o + 4) in
      let name = read_bytes buf (o + 8) name_len in
      let at = o + 8 + name_len in
      do
        t ← type_of_number (le32 buf at)
        column ←
            allocate_column name t (le32 buf (at + 4)) (le32 buf (at + 8))
              (bool_of_number (le32 buf (at + 12))) (bool_of_number (le32 buf (at + 16)))
        some (column, 28 + name_len)

-- A column that a constructor makes, with numbers of 32 bits.
pub record IsValid (c : Column) : Type 0 where
  pub name_fits : length c.name < 2 ^ 32
  pub len_fits : c.len < 2 ^ 32
  pub index_fits : c.table_ind < 2 ^ 32
  pub made : allocate_column c.name c.column_type c.len c.table_ind c.nullable c.unique ≡ some c
