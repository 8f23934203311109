-- ===== src/Record/Column/RoundTrip.antt =====
-- What a column writes is what it reads.
use dis_minisql.Prelude.{
  ℕ, ◌+◌, ◌^◌, ◌<◌, ◌≡◌, refl, sym, ap, ◌∙◌, Bool, some, length, arith, length-append,
}
use dis_minisql.Storage.Disk.{Bytes, le32}
use dis_minisql.Memory.{read_bytes, Holds}
use dis_minisql.Memory.Reading.{
  le32-Holds, length-uint32_bytes, Holds-word, Holds-chars, length-word,
}
use dis_minisql.Record.Types.{TypeId}
use dis_minisql.Record.Column.{
  Column, IsValid, serialize_to, deserialize_from, get_serialized_size, column_magic_num,
  number_of_type, type_of_number, number_of_bool, bool_of_number,
}

-- A column is written in the number of bytes that is announced.
pub length-serialize_to : (c : Column) → length (serialize_to c) ≡ get_serialized_size c
unfolding serialize_to get_serialized_size
length-serialize_to c = grind (arith, length-word, length-append, length-uint32_bytes)

size : (c : Column) → length (serialize_to c) ≡ 28 + length c.name
unfolding get_serialized_size
size c = length-serialize_to c

type_of_number-number_of_type : (t : TypeId) → type_of_number (number_of_type t) ≡ some t
type_of_number-number_of_type t = ground arith

bool_of_number-number_of_bool : (b : Bool) → bool_of_number (number_of_bool b) ≡ b
bool_of_number-number_of_bool b = ground arith

number_of_bool-lt : (b : Bool) → number_of_bool b < 2 ^ 32
number_of_bool-lt b = ground arith

number_of_type-lt : (t : TypeId) → number_of_type t < 2 ^ 32
number_of_type-lt t = ground arith

-- The reading of a column of which every part is known.
read_parts :
    (c : Column) (buf : Bytes) (o n : ℕ)
    → n ≡ length c.name
    → IsValid c
    → le32 buf o ≡ column_magic_num
    → le32 buf (o + 4) ≡ n
    → read_bytes buf (o + 8) n ≡ c.name
    → le32 buf (o + 8 + n) ≡ number_of_type c.column_type
    → le32 buf (o + 8 + n + 4) ≡ c.len
    → le32 buf (o + 8 + n + 8) ≡ c.table_ind
    → le32 buf (o + 8 + n + 12) ≡ number_of_bool c.nullable
    → le32 buf (o + 8 + n + 16) ≡ number_of_bool c.unique
    → deserialize_from buf o ≡ some (c, 28 + n)
unfolding deserialize_from
read_parts c buf o n en v e0 e1 e2 e3 e4 e5 e6 e7 = rw (
  e0,
  e1,
  e2,
  e3,
  e4,
  e5,
  e6,
  e7,
  type_of_number-number_of_type c.column_type,
  bool_of_number-number_of_bool c.nullable,
  bool_of_number-number_of_bool c.unique,
  v.made,
)

-- A valid column is read back from where it was written.
pub deserialize_from-serialize_to :
    (c : Column) (buf : Bytes) (o : ℕ)
    → IsValid c
    → Holds buf o (serialize_to c)
    → deserialize_from buf o ≡ some (c, length (serialize_to c))
unfolding serialize_to deserialize_from
deserialize_from-serialize_to c buf o v h =
    let n = length c.name in
    let (e0, h0) = Holds-word buf o (o + 4) _ _ (omega arith) (omega arith) h in
    let (e1, h1) = Holds-word buf (o + 4) (o + 8) _ _ (omega arith) v.name_fits h0 in
    let (e2, h2) = Holds-chars buf (o + 8) (o + 8 + n) _ _ refl h1 in
    let (e3, h3) = Holds-word buf (o + 8 + n) (o + 8 + n + 4) _ _ refl (number_of_type-lt _) h2 in
    let (e4, h4) = Holds-word buf (o + 8 + n + 4) (o + 8 + n + 8) _ _ (omega arith) v.len_fits h3 in
    let (e5, h5) =
      Holds-word buf (o + 8 + n + 8) (o + 8 + n + 12) _ _ (omega arith) v.index_fits h4 in
    let (e6, h6) =
      Holds-word buf (o + 8 + n + 12) (o + 8 + n + 16) _ _ (omega arith) (number_of_bool-lt _) h5 in
    let e7 = le32-Holds buf (o + 8 + n + 16) _ (number_of_bool-lt _) h6 in
    read_parts c buf o n refl v e0 e1 e2 e3 e4 e5 e6 e7 ∙ ap (λ k. some (c, k)) (sym (size c))
