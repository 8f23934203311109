-- ===== src/Record/Row.antt =====
-- record/row.cpp and include/record/row.h: the fields of a tuple. `none` is a failed assertion, an
-- access out of bounds or undefined behaviour.
pub mod Header
pub mod RoundTrip
pub mod KeyRow
use Prim.Native.Nat.{bit_or}
use dis_minisql.Prelude.{
  ℕ, zero, suc, ◌+◌, ◌*◌, ◌/◌, ◌%◌, ◌^◌, ◌≡◌, Bool, true, false, not, Option, none, some, List, [],
  ◌∷◌, length, ◌++◌, ltb, ◌==◌, ◌>>=◌, if◌then◌else◌, get_elem?,
}
use dis_minisql.Storage.Disk.{Bytes, le32}
use dis_minisql.Memory.{uint32_bytes, write_bytes}
use dis_minisql.Page.TreePage.{RowId}
use dis_minisql.Record.Field
use dis_minisql.Record.Field.{Field, is_null, get_type_id}
use dis_minisql.Record.Column.{Column}
use dis_minisql.Record.Schema.{Schema, get_column_index}

pub record Row : Type 0 where
  pub rid : RowId
  pub fields : List Field

abbrev pub row_magic_num : ℕ
row_magic_num = 0x1234_5678

-- `1 << i`, which is undefined for an `i` from the width of an `int` on.
abbrev pub bit_at : ℕ → Option ℕ
bit_at i = if ltb i 32 then some (2 ^ i) else none

-- The loop that sets the bits of the null fields.
unfoldable pub null_bitmap_from : List Field → ℕ → ℕ → Option ℕ
null_bitmap_from [] i null_bitmap = some null_bitmap
null_bitmap_from (f ∷ fields) i null_bitmap =
    let marked = bit_at i >>= λ b. null_bitmap_from fields (i + 1) (bit_or null_bitmap b) in
    let kept = null_bitmap_from fields (i + 1) null_bitmap in if is_null f then marked else kept

unfoldable pub fields_bytes : List Field → Option (List ℕ)
fields_bytes [] = some []
fields_bytes (f ∷ fields) = do
  bs ← Field.serialize_to f
  rest ← fields_bytes fields
  some (bs ++ rest)

-- The bytes that `SerializeTo` writes.
unfoldable pub row_bytes : Row → Schema → Option (List ℕ)
row_bytes row schema = if not (length schema == length row.fields) then none else do
  null_bitmap ← null_bitmap_from row.fields 0 0
  rest ← fields_bytes row.fields
  some (
      uint32_bytes row_magic_num
      ++ (uint32_bytes (length row.fields) ++ (uint32_bytes null_bitmap ++ rest)))

-- The buffer afterwards, and the number of bytes written.
unfoldable pub serialize_to : Row → Bytes → ℕ → Schema → Option (Bytes × ℕ)
serialize_to row buf o schema = do bs ← row_bytes row schema; some (write_bytes buf o bs, length bs)

-- `(null_bitmap & (1 << i)) != 0`.
abbrev pub has_bit : ℕ → ℕ → Bool
has_bit null_bitmap i = null_bitmap / 2 ^ i % 2 == 1

-- The loop of `DeserializeFrom` over `field_count` fields from `i` on: the fields, and the number
-- of bytes read.
unfoldable pub read_fields : Bytes → ℕ → Schema → ℕ → ℕ → ℕ → Option (List Field × ℕ)
read_fields buf o schema null_bitmap i zero = some ([], 0)
read_fields buf o schema null_bitmap i (suc field_count) = do
  column ← get_elem? schema i
  b ← bit_at i
  (f, n) ← Field.deserialize_from buf o column.column_type (has_bit null_bitmap i)
  (fields, k) ← read_fields buf (o + n) schema null_bitmap (i + 1) field_count
  some (f ∷ fields, n + k)

-- The row afterwards, and the number of bytes read.
unfoldable pub deserialize_from : Row → Bytes → ℕ → Schema → Option (Row × ℕ)
deserialize_from row buf o schema = if not (le32 buf o == row_magic_num) then none else do
  (fields, n) ← read_fields buf (o + 12) schema (le32 buf (o + 8)) 0 (le32 buf (o + 4))
  some (record row { fields = fields }, 12 + n)

unfoldable pub fields_size : List Field → Option ℕ
fields_size [] = some 0
fields_size (f ∷ fields) = do n ← Field.get_serialized_size f; k ← fields_size fields; some (n + k)

unfoldable pub get_serialized_size : Row → Schema → Option ℕ
get_serialized_size row schema =
    if not (length schema == length row.fields)
    then none
    else do n ← fields_size row.fields; some (4 * 3 + n)

-- The loop of `GetKeyFromRow`. An unknown name leaves the index as it was, undefined at first.
unfoldable pub key_fields : List Field → Schema → Schema → Option ℕ → Option (List Field)
key_fields fields schema [] idx = some []
key_fields fields schema (column ∷ key_schema) idx = do
  i ← found (get_column_index schema column.name)
  f ← get_elem? fields i
  rest ← key_fields fields schema key_schema (some i)
  some (f ∷ rest)
  where
    found : Option ℕ → Option ℕ
    found none = idx
    found (some i) = some i

-- The key row, which has no row id.
pub get_key_from_row : Row → Schema → Schema → Option Row
get_key_from_row row schema key_schema = do
  fields ← key_fields row.fields schema key_schema none
  some (record { rid = record { page_id = none; slot_num = 0 }; fields = fields })

-- The fields are of the types of the columns, and valid.
unfoldable pub Fits : List Field → Schema → Type 0
Fits [] [] = Unit
Fits (f ∷ fields) (c ∷ columns) =
    (get_type_id f ≡ c.column_type) × (Field.IsValid f × Fits fields columns)
Fits _ _ = true ≡ false
