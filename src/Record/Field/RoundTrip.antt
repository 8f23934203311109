-- ===== src/Record/Field/RoundTrip.antt =====
-- What a field writes is what it reads.
use dis_minisql.Prelude.{
  ℕ, ◌+◌, ◌<◌, ◌≡◌, refl, none, some, List, length, ◌++◌, arith, length-append, subst,
}
use dis_minisql.Storage.Disk.{Bytes, le32}
use dis_minisql.Memory.{uint32_bytes, read_bytes, Holds}
use dis_minisql.Memory.Reading.{le32-Holds, length-uint32_bytes, Holds-append, read_bytes-Holds}
use dis_minisql.Record.TypeInt
use dis_minisql.Record.TypeFloat
use dis_minisql.Record.TypeChar
use dis_minisql.Record.TypeChar.{varchar_max_len}
use dis_minisql.Record.Field.{
  Field, invalid_field, int_field, float_field, char_field, serialize_to, deserialize_from,
  get_serialized_size, IsValid, get_type_id, is_null,
}

-- A valid field is written, in the number of bytes that is announced.
pub serialize_to_total :
    (f : Field)
    → IsValid f
    → (bs : List ℕ) × (serialize_to f ≡ some bs) × (get_serialized_size f ≡ some (length bs))
unfolding IsValid serialize_to get_serialized_size TypeInt.serialize_to TypeFloat.serialize_to
    TypeChar.serialize_to TypeInt.get_serialized_size TypeFloat.get_serialized_size
    TypeChar.get_serialized_size
serialize_to_total invalid_field v = cc
serialize_to_total (int_field none) v = (_, refl, refl)
serialize_to_total (int_field (some i)) v = (_, refl, ground (arith, length-uint32_bytes i))
serialize_to_total (float_field none) v = (_, refl, refl)
serialize_to_total (float_field (some i)) v = (_, refl, ground (arith, length-uint32_bytes i))
serialize_to_total (char_field none) v = (_, refl, refl)
serialize_to_total (char_field (some s)) v = (
  _,
  refl,
  ground (arith, length-append (uint32_bytes (length s)) s, length-uint32_bytes (length s)),
)

chars_held :
    (m : Bytes) (o : ℕ) (s : List ℕ)
    → length s < varchar_max_len
    → Holds m o (uint32_bytes (length s) ++ s)
    → (le32 m o ≡ length s) × (read_bytes m (o + 4) (length s) ≡ s)
chars_held m o s b h =
    let (l, r) = Holds-append m o (uint32_bytes (length s)) s h in
    (
      le32-Holds m o (length s) (omega arith) l,
      read_bytes-Holds m (o + 4) s
          (subst (λ k. Holds m (o + k) s) (length-uint32_bytes (length s)) r),
    )

pub deserialize_from-serialize_to :
    (f : Field) (bs : List ℕ) (buf : Bytes) (o : ℕ)
    → IsValid f
    → serialize_to f ≡ some bs
    → Holds buf o bs
    → deserialize_from buf o (get_type_id f) (is_null f) ≡ some (f, length bs)
unfolding IsValid serialize_to deserialize_from TypeInt.serialize_to TypeFloat.serialize_to
    TypeChar.serialize_to TypeInt.deserialize_from TypeFloat.deserialize_from
    TypeChar.deserialize_from
deserialize_from-serialize_to invalid_field bs m o v e h = cc
deserialize_from-serialize_to (int_field none) bs m o v e h = ground arith
deserialize_from-serialize_to (int_field (some i)) bs m o v e h =
    ground (arith, le32-Holds m o i v, length-uint32_bytes i)
deserialize_from-serialize_to (float_field none) bs m o v e h = ground arith
deserialize_from-serialize_to (float_field (some i)) bs m o v e h =
    ground (arith, le32-Holds m o i v, length-uint32_bytes i)
deserialize_from-serialize_to (char_field none) bs m o v e h = ground arith
deserialize_from-serialize_to (char_field (some s)) bs m o v e h = ground (
  arith,
  chars_held m o s v,
  length-append (uint32_bytes (length s)) s,
  length-uint32_bytes (length s),
)
