-- ===== src/Record/Schema/RoundTrip.antt =====
-- What a schema writes is what it reads.
use dis_minisql.Prelude.{
  ℕ, ◌+◌, ◌^◌, ◌<◌, ◌≡◌, refl, ap, ◌∙◌, some, [], ◌∷◌, length, arith, length-append,
}
use dis_minisql.Storage.Disk.{Bytes, le32}
use dis_minisql.Memory.{write_bytes, Holds}
use dis_minisql.Memory.Framing.{Holds-write_bytes}
use dis_minisql.Memory.Reading.{Holds-append, Holds-word, length-word}
use dis_minisql.Record.Column
use dis_minisql.Record.Column.RoundTrip
use dis_minisql.Record.Schema.{
  Schema, AreValid, columns_bytes, columns_size, serialize_to, get_serialized_size, read_columns,
  deserialize_from, schema_magic_num,
}

columns_bytes-length : (s : Schema) → length (columns_bytes s) ≡ columns_size s
unfolding columns_bytes columns_size
columns_bytes-length [] = refl
columns_bytes-length (c ∷ s) = ground (
  arith,
  length-append (Column.serialize_to c) (columns_bytes s),
  RoundTrip.length-serialize_to c,
  columns_bytes-length s,
)

-- A schema is written in the number of bytes that is announced.
pub length-serialize_to : (s : Schema) → length (serialize_to s) ≡ get_serialized_size s
unfolding serialize_to get_serialized_size
length-serialize_to s = grind (arith, length-word, columns_bytes-length)

read_columns-columns_bytes :
    (s : Schema) (buf : Bytes) (o : ℕ)
    → AreValid s
    → Holds buf o (columns_bytes s)
    → read_columns buf o (length s) ≡ some (s, length (columns_bytes s))
unfolding AreValid read_columns columns_bytes
read_columns-columns_bytes [] buf o v h = refl
read_columns-columns_bytes (c ∷ s) buf o (vc, vs) h =
    let (l, r) = Holds-append buf o (Column.serialize_to c) (columns_bytes s) h in
    rw (
      RoundTrip.deserialize_from-serialize_to c buf o vc l,
      read_columns-columns_bytes s buf (o + length (Column.serialize_to c)) vs r,
      length-append (Column.serialize_to c) (columns_bytes s),
    )

read_parts :
    (s : Schema) (buf : Bytes) (o n k : ℕ)
    → le32 buf o ≡ schema_magic_num
    → le32 buf (o + 4) ≡ k
    → read_columns buf (o + 8) k ≡ some (s, n)
    → deserialize_from buf o ≡ some (s, 8 + n)
unfolding deserialize_from
read_parts s buf o n k e0 e1 e2 = rw (e0, e1, e2)

-- A valid schema is read back from where it was written.
pub schema_read_back :
    (s : Schema) (buf : Bytes) (o : ℕ)
    → AreValid s
    → length s < 2 ^ 32
    → Holds buf o (serialize_to s)
    → deserialize_from buf o ≡ some (s, length (serialize_to s))
unfolding serialize_to
schema_read_back s buf o v b h =
    let (e0, h0) = Holds-word buf o (o + 4) _ _ (omega arith) (omega arith) h in
    let (e1, h1) = Holds-word buf (o + 4) (o + 8) _ _ (omega arith) b h0 in
    read_parts s buf o _ _ e0 e1 (read_columns-columns_bytes s buf (o + 8) v h1)
    ∙ ap (λ k. some (s, k)) (grind (arith, length-word))

-- A valid schema that is written to a buffer is read back from there, in as many bytes as are
-- announced.
pub schema_round_trip :
    (s : Schema) (buf : Bytes) (o : ℕ)
    → AreValid s
    → length s < 2 ^ 32
    → deserialize_from (write_bytes buf o (serialize_to s)) o ≡ some (s, get_serialized_size s)
schema_round_trip s buf o v b =
    schema_read_back s _ o v b (Holds-write_bytes buf o (serialize_to s))
    ∙ ap (λ k. some (s, k)) (length-serialize_to s)
