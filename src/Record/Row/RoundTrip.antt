-- ===== src/Record/Row/RoundTrip.antt =====
-- What a row writes is what it reads.
use native.Mathlib.Nat.{pow-le-pow_right}
use dis_minisql.Prelude.{
  Option-cases, inl, inr, ℕ, suc, ◌+◌, ◌*◌, ◌^◌, ◌<◌, ◌≤◌, ◌≡◌, refl, sym, ap, ◌∙◌, subst, some,
  List, [], ◌∷◌, ◌++◌, length, get_elem?, if◌then◌else◌, lt→ltb, ◌==◌, ==_self, arith,
  length-append,
}
use dis_minisql.Storage.Disk.{Bytes, le32}
use dis_minisql.Memory.{uint32_bytes, write_bytes, Holds}
use dis_minisql.Memory.Reading.{Holds-append, Holds-word, length-word}
use dis_minisql.Memory.Framing.{Holds-write_bytes}
use dis_minisql.Record.Field
use dis_minisql.Record.Field.{Field, is_null}
use dis_minisql.Record.Field.RoundTrip.{serialize_to_total, deserialize_from-serialize_to}
use dis_minisql.Record.Column.{Column}
use dis_minisql.Record.Schema.{Schema}
use dis_minisql.Record.Row.{
  Row, Fits, fields_bytes, fields_size, read_fields, row_bytes, row_magic_num, serialize_to,
  deserialize_from, get_serialized_size,
}
use dis_minisql.Record.Row.Header.{
  null_bits, null_bitmap_from-null_bits, null_bits-lt, has_bit-next, rest_bits, rest_bits-lt,
}

-- The columns stand in the schema from an index on.
abbrev At : Schema → ℕ → Schema → Type 0
At schema i columns = (j : ℕ) → get_elem? schema (i + j) ≡ get_elem? columns j

At-next :
    (schema : Schema) (i : ℕ) (c : Column) (columns : Schema)
    → At schema i (c ∷ columns)
    → At schema (i + 1) columns
At-next schema i c columns h j =
    subst (λ k. get_elem? schema k ≡ get_elem? columns j) (omega arith) (h (suc j))

-- The bytes are read as the fields, with the bitmap of the header.
abbrev ReadAs : List Field → Schema → List ℕ → Type 0
ReadAs fields columns bs =
    (buf : Bytes) (o i acc bm : ℕ) (schema : Schema)
    → acc < 2 ^ i
    → i + length fields ≤ 32
    → bm ≡ acc + 2 ^ i * null_bits fields
    → At schema i columns
    → Holds buf o bs
    → read_fields buf o schema bm i (length fields) ≡ some (fields, length bs)

ReadAs-next :
    (f : Field) (c : Column) (fields : List Field) (columns : Schema) (b bs : List ℕ)
    → Field.get_type_id f ≡ c.column_type
    → Field.IsValid f
    → Field.serialize_to f ≡ some b
    → ReadAs fields columns bs
    → ReadAs (f ∷ fields) (c ∷ columns) (b ++ bs)
unfolding read_fields null_bits
ReadAs-next f c fields columns b bs t v e ih buf o i acc bm schema ha hl hb hs h =
    let (l, r) = Holds-append buf o b bs h in
    rw (
      subst (λ k. get_elem? schema k ≡ some c) {x = i + 0} {y = i} (omega arith) (hs 0),
      lt→ltb i 32 (omega arith),
      sym t,
      hb,
      has_bit-next i acc (null_bits fields) (is_null f) ha,
      deserialize_from-serialize_to f b buf o v e l,
      ih buf (o + length b) (i + 1) (acc + (if is_null f then 2 ^ i else 0))
          (acc + 2 ^ i * ((if is_null f then 1 else 0) + 2 * null_bits fields)) schema
          (rest_bits-lt i acc (is_null f) ha) (omega arith)
          (rest_bits i acc (null_bits fields) (is_null f)) (At-next schema i c columns hs) r,
      length-append b bs,
    )

ReadAs-none : ReadAs [] [] []
unfolding read_fields
ReadAs-none buf o i acc bm schema ha hl hb hs h = refl

-- Fields that fit are written in the number of bytes that is announced, and read back.
fields_total :
    (fields : List Field) (columns : Schema)
    → Fits fields columns
    → (bs : List ℕ) × ((fields_bytes fields ≡ some bs)
        × ((fields_size fields ≡ some (length bs)) × ReadAs fields columns bs))
unfolding Fits fields_bytes fields_size
fields_total [] [] h = ([], (refl, (refl, ReadAs-none)))
fields_total [] (c ∷ columns) h = cc
fields_total (f ∷ fields) [] h = cc
fields_total (f ∷ fields) (c ∷ columns) (t, (v, h)) =
    let (b, eb, sb) = serialize_to_total f v in
    let (bs, (es, (ss, rs))) = fields_total fields columns h in
    (
      b ++ bs,
      (
        rw (eb, es),
        (rw (sb, ss, length-append b bs), ReadAs-next f c fields columns b bs t v eb rs),
      ),
    )

pub Fits-length :
    (fields : List Field) (columns : Schema) → Fits fields columns → length columns ≡ length fields
unfolding Fits
Fits-length [] [] h = refl
Fits-length [] (c ∷ columns) h = cc
Fits-length (f ∷ fields) [] h = cc
Fits-length (f ∷ fields) (c ∷ columns) (t, (v, h)) = omega (arith, Fits-length fields columns h)

-- The bytes of a row are read as the row, into any row.
abbrev pub IsRead : Row → Schema → List ℕ → Type 0
IsRead row schema bs =
    (old : Row) (buf : Bytes) (o : ℕ)
    → Holds buf o bs
    → deserialize_from old buf o schema ≡ some (record old { fields = row.fields }, length bs)

bits_fit : (fields : List Field) → length fields ≤ 32 → null_bits fields < 2 ^ 32
bits_fit fields b = omega (
  arith,
  null_bits-lt fields,
  pow-le-pow_right {n = 2} (omega arith) {i = length fields} {j = 32} b,
)

read_parts :
    (row old : Row) (schema : Schema) (buf : Bytes) (o n k bm : ℕ)
    → le32 buf o ≡ row_magic_num
    → le32 buf (o + 4) ≡ k
    → le32 buf (o + 8) ≡ bm
    → read_fields buf (o + 12) schema bm 0 k ≡ some (row.fields, n)
    → deserialize_from old buf o schema ≡ some (record old { fields = row.fields }, 12 + n)
unfolding deserialize_from
read_parts row old schema buf o n k bm e0 e1 e2 e3 = rw (e0, e1, e2, e3)

-- The bytes of a row, from the bytes of its fields.
abbrev with_header : List Field → List ℕ → List ℕ
with_header fields bs =
    uint32_bytes row_magic_num
    ++ (uint32_bytes (length fields) ++ (uint32_bytes (null_bits fields) ++ bs))

length-with_header :
    (fields : List Field) (bs : List ℕ) → length (with_header fields bs) ≡ 12 + length bs
length-with_header fields bs = grind (arith, length-word)

with_header-IsRead :
    (row : Row) (schema : Schema) (bs : List ℕ)
    → length row.fields ≤ 32
    → ReadAs row.fields schema bs
    → IsRead row schema (with_header row.fields bs)
with_header-IsRead row schema bs b rs old buf o h =
    let (e0, h0) = Holds-word buf o (o + 4) _ _ (omega arith) (omega arith) h in
    let (e1, h1) = Holds-word buf (o + 4) (o + 8) _ _ (omega arith) (omega arith) h0 in
    let (e2, h2) = Holds-word buf (o + 8) (o + 12) _ _ (omega arith) (bits_fit row.fields b) h1 in
    read_parts row old schema buf o _ _ _ e0 e1 e2
      (rs buf (o + 12) 0 0 _ schema (omega arith) (omega arith) (omega arith) (λ j. at_start j) h2)
    ∙ ap (λ n. some (record old { fields = row.fields }, n))
        (sym (length-with_header row.fields bs))
  where
    at_start : (j : ℕ) → get_elem? schema (0 + j) ≡ get_elem? schema j
    at_start j = ap (λ k. get_elem? schema k) (omega arith)

-- A row of at most 32 fields that fit the schema is written in the number of bytes that is
-- announced, and read from them.
pub row_total :
    (row : Row) (schema : Schema)
    → Fits row.fields schema
    → length row.fields ≤ 32
    → (bs : List ℕ) × ((row_bytes row schema ≡ some bs)
        × ((get_serialized_size row schema ≡ some (length bs)) × IsRead row schema bs))
unfolding row_bytes get_serialized_size
row_total row schema h b =
    let (bs, (es, (ss, rs))) = fields_total row.fields schema h in
    let same = ap (λ n. n == length row.fields) (Fits-length row.fields schema h) in
    let bits = null_bitmap_from-null_bits row.fields 0 0 (omega arith) (omega arith) in
    (
      with_header row.fields bs,
      (
        rw (same, ==_self (length row.fields), bits, es, one_times row.fields),
        (
          rw (same, ==_self (length row.fields), ss, length-with_header row.fields bs),
          with_header-IsRead row schema bs b rs,
        ),
      ),
    )
  where
    one_times : (fields : List Field) → 0 + 2 ^ 0 * null_bits fields ≡ null_bits fields
    one_times fields = omega arith

-- A row of at most 32 fields that fit the schema is written to a buffer in as many bytes as are
-- announced, and read back from there, nulls included.
pub row_round_trip :
    (row old : Row) (schema : Schema) (buf : Bytes) (o : ℕ)
    → Fits row.fields schema
    → length row.fields ≤ 32
    → (written : Bytes) × ((n : ℕ) × ((serialize_to row buf o schema ≡ some (written, n))
          × ((get_serialized_size row schema ≡ some n)
              × (deserialize_from old written o schema
                  ≡ some (record old { fields = row.fields }, n)))))
unfolding serialize_to
row_round_trip row old schema buf o h b =
    let (bs, (eb, (es, read))) = row_total row schema h b in
    (
      write_bytes buf o bs,
      (length bs, (rw eb, (es, read old (write_bytes buf o bs) o (Holds-write_bytes buf o bs)))),
    )

-- The header alone takes twelve bytes.
pub get_serialized_size-ge :
    (row : Row) (schema : Schema) (n : ℕ) → get_serialized_size row schema ≡ some n → 12 ≤ n
unfolding get_serialized_size
get_serialized_size-ge row schema n h = elim (Option-cases (fields_size row.fields)) [
  | inl e ↦ ground (arith, h, e)
  | inr (k, e) ↦ ground (arith, h, e)
]
