-- ===== src/Index/GenericKey/Tests.antt =====
-- Tests of keys, and their theorems at keys of a number and a string.
use dis_minisql.Prelude.{inl, inr, ◌≡◌, refl, arith, true, false, none, some, [], ◌∷◌}
use dis_minisql.Storage.Disk.{Bytes}
use dis_minisql.Record.Types.{type_int, type_char}
use dis_minisql.Record.TypeInt
use dis_minisql.Record.TypeFloat
use dis_minisql.Record.TypeChar
use dis_minisql.Record.Field
use dis_minisql.Record.Field.{int_field, char_field}
use dis_minisql.Record.Field.Keys.{IsKey}
use dis_minisql.Record.Column.{Column}
use dis_minisql.Record.Row
use dis_minisql.Record.Row.{Row, fields_size}
use dis_minisql.Index.GenericKey.{KeyFormat, serialize_from_key, compare_keys}
use dis_minisql.Index.GenericKey.Order.{AreKeys, keys_sign}
use dis_minisql.Index.GenericKey.Nulls.{
  IsValue, AreValues, sign_without_nulls, compare_keys-sign_without_nulls,
}
use dis_minisql.Index.GenericKey.Manager.{compare_keys-serialize_from_key}

abbrev number : Column
number = record {
  name = 97 ∷ [];
  column_type = type_int;
  len = 4;
  table_ind = 0;
  nullable = false;
  unique = true;
}

abbrev text : Column
text = record {
  name = 98 ∷ [];
  column_type = type_char;
  len = 8;
  table_ind = 1;
  nullable = true;
  unique = false;
}

abbrev format : KeyFormat
format = record { key_size = 32; key_schema = number ∷ text ∷ [] }

-- (5, "b") and (5, "ba").
abbrev first : Row
first = record {
  rid = record { page_id = none; slot_num = 0 };
  fields = int_field (some 5) ∷ char_field (some (98 ∷ [])) ∷ [];
}

abbrev second : Row
second = record {
  rid = record { page_id = none; slot_num = 0 };
  fields = int_field (some 5) ∷ char_field (some (98 ∷ 97 ∷ [])) ∷ [];
}

compare_keys-serialize_from_key_example :
    (a : Bytes) × ((b : Bytes) × ((serialize_from_key format first format.key_schema ≡ some a)
        × ((serialize_from_key format second format.key_schema ≡ some b)
            × (compare_keys format a b ≡ some (keys_sign first.fields second.fields)))))
unfolding AreKeys IsKey Row.get_serialized_size fields_size Field.get_serialized_size
    TypeInt.get_serialized_size TypeFloat.get_serialized_size TypeChar.get_serialized_size
compare_keys-serialize_from_key_example =
    compare_keys-serialize_from_key format first second 21 22 (omega arith, (omega arith, tt))
      (omega arith, (omega arith, tt)) (omega arith) refl (omega arith) refl (omega arith)

-- (null, "b").
abbrev without_number : Row
without_number = record {
  rid = record { page_id = none; slot_num = 0 };
  fields = int_field none ∷ char_field (some (98 ∷ [])) ∷ [];
}

compare_keys-sign_without_nulls_example :
    (a : Bytes) × (b : Bytes) × (serialize_from_key format without_number format.key_schema
      ≡ some a)
    × (serialize_from_key format second format.key_schema ≡ some b)
    × (compare_keys format a b ≡ some (sign_without_nulls without_number.fields second.fields))
unfolding AreValues IsValue IsKey Field.IsValid Row.get_serialized_size fields_size
    Field.get_serialized_size TypeInt.get_serialized_size TypeFloat.get_serialized_size
    TypeChar.get_serialized_size
compare_keys-sign_without_nulls_example =
    compare_keys-sign_without_nulls format without_number second 17 22
      (inr (refl, tt, refl), (inl (omega arith), tt)) (inl (omega arith), (inl (omega arith), tt))
      (omega arith) refl (omega arith) refl (omega arith)
