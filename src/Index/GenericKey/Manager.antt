-- ===== src/Index/GenericKey/Manager.antt =====
-- The key manager as the pages of the B+ tree use it: key buffers that hold keys, in their order.
use dis_minisql.Prelude.{
  ℕ, ◌+◌, ◌≤◌, ◌≡◌, refl, sym, ap, ◌∙◌, some, List, [], ◌∷◌, length, arith, le→leb, get_elem?,
  ==_self,
}
use dis_minisql.Storage.Disk.{Bytes}
use dis_minisql.Page.TreePage.{KeyManager}
use dis_minisql.Record.Field.{Field}
use dis_minisql.Record.Field.Keys.{IsKey-IsValid}
use dis_minisql.Record.Schema.{Schema}
use dis_minisql.Record.Row
use dis_minisql.Record.Row.{Row, Fits}
use dis_minisql.Record.Row.RoundTrip.{row_round_trip, Fits-length}
use dis_minisql.Index.GenericKey.{
  KeyFormat, empty_row, serialize_from_key, deserialize_to_key, compare_keys,
}
use dis_minisql.Index.GenericKey.Order.{
  AreKeys, keys_sign, keys_self, keys_flip, keys_flip_gt, keys_same, keys_trans,
}
use dis_minisql.Index.GenericKey.Comparison.{compare_fields-keys_sign}

-- A buffer that holds a key.
pub record ValidKey (m : KeyFormat) : Type 0 where
  pub bytes : Bytes
  pub fields : List Field
  pub decoded :
      deserialize_to_key m bytes empty_row m.key_schema
      ≡ some (record empty_row { fields = fields })
  pub keys : AreKeys m.key_schema fields

compare_keys-keys_sign :
    (m : KeyFormat) (a b : ValidKey m)
    → compare_keys m a.bytes b.bytes ≡ some (keys_sign a.fields b.fields)
unfolding compare_keys
compare_keys-keys_sign m a b = rw (
  a.decoded,
  b.decoded,
  compare_fields-keys_sign m.key_schema a.fields b.fields a.fields b.fields 0 a.keys b.keys
      (λ j. at_start a.fields j) (λ j. at_start b.fields j),
)
  where
    at_start : (fields : List Field) (j : ℕ) → get_elem? fields (0 + j) ≡ get_elem? fields j
    at_start fields j = ap (λ i. get_elem? fields i) (omega arith)

AreKeys-Fits : (s : Schema) (fields : List Field) → AreKeys s fields → Fits fields s
unfolding AreKeys Fits
AreKeys-Fits [] [] h = tt
AreKeys-Fits [] (f ∷ fields) h = cc
AreKeys-Fits (c ∷ s) [] h = cc
AreKeys-Fits (c ∷ s) (f ∷ fields) (hf, h) =
    let (t, v) = IsKey-IsValid c.column_type f hf in (t, (v, AreKeys-Fits s fields h))

some_injective : (i j : ℕ) → some i ≡ some j → i ≡ j
some_injective i j h = cc

read_key :
    (m : KeyFormat) (buf : Bytes) (fields : List Field) (n : ℕ)
    → Row.deserialize_from empty_row buf 0 m.key_schema
      ≡ some (record empty_row { fields = fields }, n)
    → n ≤ m.key_size
    → deserialize_to_key m buf empty_row m.key_schema ≡ some (record empty_row { fields = fields })
unfolding deserialize_to_key
read_key m buf fields n e h = rw (e, le→leb n m.key_size h)

write_key :
    (m : KeyFormat) (k : Row) (buf : Bytes) (n : ℕ)
    → Row.get_serialized_size k m.key_schema ≡ some n
    → Row.serialize_to k (λ _. 0) 0 m.key_schema ≡ some (buf, n)
    → length m.key_schema ≡ length k.fields
    → n ≤ m.key_size
    → serialize_from_key m k m.key_schema ≡ some buf
unfolding serialize_from_key
write_key m k buf n es e same h = rw (es, e, same, ==_self (length k.fields), le→leb n m.key_size h)

-- The buffer that a row is written to, and read back from.
pub row_buffer :
    (m : KeyFormat) (k : Row) (i : ℕ)
    → Fits k.fields m.key_schema
    → length m.key_schema ≤ 32
    → Row.get_serialized_size k m.key_schema ≡ some i
    → i ≤ m.key_size
    → (buf : Bytes) × (serialize_from_key m k m.key_schema ≡ some buf)
      × (deserialize_to_key m buf empty_row m.key_schema
          ≡ some (record empty_row { fields = k.fields }))
row_buffer m k i fits b si bi =
    let same = Fits-length k.fields m.key_schema fits in
    let (buf, (n, (ew, (en, er)))) =
      row_round_trip k empty_row m.key_schema (λ _. 0) 0 fits (omega (arith, same)) in
    let bound : n ≤ m.key_size = omega (arith, some_injective i n (sym si ∙ en)) in
    (buf, write_key m k buf n en ew same bound, read_key m buf k.fields n er bound)

-- The key buffer that a row of keys is written to.
key_buffer :
    (m : KeyFormat) (k : Row) (i : ℕ)
    → AreKeys m.key_schema k.fields
    → length m.key_schema ≤ 32
    → Row.get_serialized_size k m.key_schema ≡ some i
    → i ≤ m.key_size
    → (a : ValidKey m) × ((serialize_from_key m k m.key_schema ≡ some a.bytes)
        × (a.fields ≡ k.fields))
key_buffer m k i hk b si bi =
    let (buf, e, d) = row_buffer m k i (AreKeys-Fits m.key_schema k.fields hk) b si bi in
    (record { bytes = buf; fields = k.fields; decoded = d; keys = hk }, (e, refl))

-- A row of keys that is within the size of the keys is written to a key buffer, and CompareKeys
-- orders two such buffers as the fields are ordered column by column.
pub compare_keys-serialize_from_key :
    (m : KeyFormat) (k l : Row) (i j : ℕ)
    → AreKeys m.key_schema k.fields
    → AreKeys m.key_schema l.fields
    → length m.key_schema ≤ 32
    → Row.get_serialized_size k m.key_schema ≡ some i
    → i ≤ m.key_size
    → Row.get_serialized_size l m.key_schema ≡ some j
    → j ≤ m.key_size
    → (a : Bytes) × ((b : Bytes) × ((serialize_from_key m k m.key_schema ≡ some a)
          × ((serialize_from_key m l m.key_schema ≡ some b)
              × (compare_keys m a b ≡ some (keys_sign k.fields l.fields)))))
compare_keys-serialize_from_key m k l i j hk hl b si bi sj bj =
    let (a, (ea, fa)) = key_buffer m k i hk b si bi in
    let (c, (ec, fc)) = key_buffer m l j hl b sj bj in
    (a.bytes, (c.bytes, (ea, (ec, rw (compare_keys-keys_sign m a c, fa, fc)))))

-- Key buffers of one format in the order of CompareKeys, for the pages of the B+ tree.
unfoldable pub key_manager : KeyFormat → KeyManager
key_manager m = record {
  GenericKey = ValidKey m;
  compare_keys = λ a b. keys_sign a.fields b.fields;
  compare_self = λ a. keys_self s a.fields a.keys;
  compare_trans = λ a b c h i. keys_trans s a.fields b.fields c.fields a.keys b.keys c.keys h i;
  compare_flip = λ a b h. keys_flip s a.fields b.fields a.keys b.keys h;
  compare_flip_gt = λ a b h. keys_flip_gt s a.fields b.fields a.keys b.keys h;
  compare_same = λ a b c h. keys_same s a.fields b.fields c.fields a.keys b.keys c.keys h;
}
  where
    s : Schema
    s = m.key_schema
