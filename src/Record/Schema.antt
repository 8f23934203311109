-- ===== src/Record/Schema.antt =====
-- record/schema.cpp and include/record/schema.h: the columns of a table or an index. `none` is a
-- failed assertion or an access out of bounds.
pub mod RoundTrip
use dis_minisql.Prelude.{
  ℕ, zero, suc, ◌+◌, ◌*◌, ◌^◌, ◌<◌, ◌≡◌, Bool, true, false, not, Option, none, some, List, [], ◌∷◌,
  length, ◌++◌, ◌==◌, ◌>>=◌, if◌then◌else◌, get_elem?, map, ◌&&◌,
}
use dis_minisql.Storage.Disk.{Bytes, le32}
use dis_minisql.Memory.{uint32_bytes}
use dis_minisql.Record.Column
use dis_minisql.Record.Column.{Column, copy_column}

-- A schema is the list of its columns.
abbrev pub Schema : Type 0
Schema = List Column

abbrev pub schema_magic_num : ℕ
schema_magic_num = 200715

unfoldable pub same_name : List ℕ → List ℕ → Bool
same_name [] [] = true
same_name (a ∷ s) (b ∷ t) = a == b && same_name s t
same_name _ _ = false

-- The index of the first column of a name, from `i` on; `none` is DB_COLUMN_NAME_NOT_EXIST.
unfoldable pub column_index_from : Schema → List ℕ → ℕ → Option ℕ
column_index_from [] col_name i = none
column_index_from (c ∷ columns) col_name i =
    let rest = column_index_from columns col_name (i + 1) in
    if same_name c.name col_name then some i else rest

abbrev pub get_column_index : Schema → List ℕ → Option ℕ
get_column_index schema col_name = column_index_from schema col_name 0

unfoldable pub shallow_copy_schema : Schema → List ℕ → Option Schema
shallow_copy_schema table_schema [] = some []
shallow_copy_schema table_schema (i ∷ attrs) = do
  c ← get_elem? table_schema i
  cols ← shallow_copy_schema table_schema attrs
  some (c ∷ cols)

unfoldable pub deep_copy_schema : Schema → Schema
deep_copy_schema from = map copy_column from

unfoldable pub columns_bytes : Schema → List ℕ
columns_bytes [] = []
columns_bytes (c ∷ columns) = Column.serialize_to c ++ columns_bytes columns

-- The bytes that `SerializeTo` writes; their number is its result.
pub serialize_to : Schema → List ℕ
serialize_to columns =
    uint32_bytes schema_magic_num ++ (uint32_bytes (length columns) ++ columns_bytes columns)

unfoldable pub columns_size : Schema → ℕ
columns_size [] = 0
columns_size (c ∷ columns) = Column.get_serialized_size c + columns_size columns

pub get_serialized_size : Schema → ℕ
get_serialized_size columns = 4 * 2 + columns_size columns

-- The loop of `DeserializeFrom`: the columns, and the number of bytes read.
unfoldable pub read_columns : Bytes → ℕ → ℕ → Option (Schema × ℕ)
read_columns buf o zero = some ([], 0)
read_columns buf o (suc column_count) = do
  (c, n) ← Column.deserialize_from buf o
  (columns, k) ← read_columns buf (o + n) column_count
  some (c ∷ columns, n + k)

pub deserialize_from : Bytes → ℕ → Option (Schema × ℕ)
deserialize_from buf o =
    if not (le32 buf o == schema_magic_num)
    then none
    else do (columns, n) ← read_columns buf (o + 8) (le32 buf (o + 4)); some (columns, 8 + n)

unfoldable pub AreValid : Schema → Type 0
AreValid [] = Unit
AreValid (c ∷ columns) = Column.IsValid c × AreValid columns
