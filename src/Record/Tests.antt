-- ===== src/Record/Tests.antt =====
-- Tests of fields, rows and schemas, and their theorems at a table of three columns.
use dis_minisql.Prelude.{ℕ, ◌^◌, ◌≡◌, refl, arith, true, false, not, none, some, List, [], ◌∷◌}
use dis_minisql.Storage.Disk.{Bytes}
use dis_minisql.Memory.{write_bytes}
use dis_minisql.Page.TreePage.{is_lt, is_eq, is_above}
use dis_minisql.Record.Types.{type_int, type_float, type_char, cmp_true, get_cmp_bool}
use dis_minisql.Record.TypeInt
use dis_minisql.Record.TypeFloat
use dis_minisql.Record.TypeChar
use dis_minisql.Record.Field
use dis_minisql.Record.Field.{
  Field, int_field, float_field, char_field, compare_equals, compare_not_equals, compare_less_than,
  compare_less_than_equals, compare_greater_than, compare_greater_than_equals, dispatch,
}
use dis_minisql.Record.Field.Keys.{IsKey, sign, comparisons-sign}
use dis_minisql.Record.TypeChar.{memcmp, compare_strings}
use dis_minisql.Record.TypeChar.Order.{dictionary, compare_strings-dictionary}
use dis_minisql.Record.Column.{Column, new_column, new_char_column, allocate_column}
use dis_minisql.Record.Schema
use dis_minisql.Record.Schema.{Schema, AreValid, shallow_copy_schema, column_index_from, same_name}
use dis_minisql.Record.Schema.RoundTrip.{schema_round_trip}
use dis_minisql.Record.Row
use dis_minisql.Record.Row.{
  Row, Fits, fields_bytes, fields_size, read_fields, null_bitmap_from, get_key_from_row, key_fields,
}
use dis_minisql.Record.Row.RoundTrip.{row_round_trip}
use dis_minisql.Record.Row.KeyRow.{DistinctNames, pick, get_key_from_row-shallow_copy_schema}

-- id int, name char(16) and balance float.
abbrev id_column : Column
id_column = record {
  name = 105 ∷ 100 ∷ [];
  column_type = type_int;
  len = 4;
  table_ind = 0;
  nullable = false;
  unique = true;
}

abbrev name_column : Column
name_column = record {
  name = 110 ∷ [];
  column_type = type_char;
  len = 16;
  table_ind = 1;
  nullable = true;
  unique = false;
}

abbrev balance_column : Column
balance_column = record {
  name = 98 ∷ [];
  column_type = type_float;
  len = 4;
  table_ind = 2;
  nullable = true;
  unique = false;
}

abbrev account : Schema
account = id_column ∷ name_column ∷ balance_column ∷ []

-- 7, "ab" and a null balance.
abbrev row : Row
row = record {
  rid = record { page_id = some 3; slot_num = 1 };
  fields = int_field (some 7) ∷ char_field (some (97 ∷ 98 ∷ [])) ∷ float_field none ∷ [];
}

abbrev old_row : Row
old_row = record { rid = record { page_id = some 4; slot_num = 0 }; fields = [] }

abbrev zeros : Bytes
zeros _ = 0

-- The row takes twelve bytes of header, four of the number and six of the string.
row_test : Row.get_serialized_size row account ≡ some 22
unfolding Row.get_serialized_size fields_size Field.get_serialized_size TypeInt.get_serialized_size
    TypeFloat.get_serialized_size TypeChar.get_serialized_size
row_test = refl

compare_test : compare_less_than (int_field (some 0xffff_ffff)) (int_field (some 1)) ≡ some cmp_true
unfolding compare_less_than dispatch TypeInt.compare_less_than
compare_test = refl

row_round_trip_example :
    (written : Bytes) × ((n : ℕ) × ((Row.serialize_to row zeros 40 account ≡ some (written, n))
        × ((Row.get_serialized_size row account ≡ some n)
            × (Row.deserialize_from old_row written 40 account
                ≡ some (record old_row { fields = row.fields }, n)))))
unfolding Fits Field.IsValid
row_round_trip_example =
    row_round_trip row old_row account zeros 40
      (refl, (omega arith, (refl, (omega arith, (refl, (tt, tt)))))) (omega arith)

account-AreValid : AreValid account
unfolding AreValid allocate_column new_column new_char_column
account-AreValid = (
  record { name_fits = omega arith; len_fits = omega arith; index_fits = omega arith; made = refl },
  (
    record {
      name_fits = omega arith;
      len_fits = omega arith;
      index_fits = omega arith;
      made = refl;
    },
    (
      record {
        name_fits = omega arith;
        len_fits = omega arith;
        index_fits = omega arith;
        made = refl;
      },
      tt,
    ),
  ),
)

schema_round_trip_example :
    Schema.deserialize_from (write_bytes zeros 8 (Schema.serialize_to account)) 8
    ≡ some (account, Schema.get_serialized_size account)
schema_round_trip_example = schema_round_trip account zeros 8 account-AreValid (omega arith)

-- 0.0 and -0.0.
abbrev zero_field : Field
zero_field = float_field (some 0)

abbrev minus_zero : Field
minus_zero = float_field (some (2 ^ 31))

comparisons-sign_example :
    (compare_equals zero_field minus_zero
      ≡ some (get_cmp_bool (is_eq (sign zero_field minus_zero))))
    × ((compare_not_equals zero_field minus_zero
          ≡ some (get_cmp_bool (not (is_eq (sign zero_field minus_zero)))))
        × ((compare_less_than zero_field minus_zero
              ≡ some (get_cmp_bool (is_lt (sign zero_field minus_zero))))
            × ((compare_less_than_equals zero_field minus_zero
                  ≡ some (get_cmp_bool (not (is_above (sign zero_field minus_zero)))))
                × ((compare_greater_than zero_field minus_zero
                      ≡ some (get_cmp_bool (is_above (sign zero_field minus_zero))))
                    × (compare_greater_than_equals zero_field minus_zero
                        ≡ some (get_cmp_bool (not (is_lt (sign zero_field minus_zero)))))))))
unfolding IsKey
comparisons-sign_example =
    comparisons-sign type_float zero_field minus_zero (omega arith, refl) (omega arith, refl)

compare_strings-dictionary_example :
    compare_strings (97 ∷ 98 ∷ []) (97 ∷ 98 ∷ 99 ∷ [])
    ≡ dictionary (97 ∷ 98 ∷ []) (97 ∷ 98 ∷ 99 ∷ [])
compare_strings-dictionary_example = compare_strings-dictionary (97 ∷ 98 ∷ []) (97 ∷ 98 ∷ 99 ∷ [])

abbrev key : List Field
key = float_field none ∷ int_field (some 7) ∷ []

get_key_from_row-shallow_copy_schema_example :
    get_key_from_row row account (balance_column ∷ id_column ∷ [])
    ≡ some (record { rid = record { page_id = none; slot_num = 0 }; fields = key })
unfolding DistinctNames column_index_from same_name shallow_copy_schema pick
get_key_from_row-shallow_copy_schema_example =
    get_key_from_row-shallow_copy_schema row account (balance_column ∷ id_column ∷ []) (2 ∷ 0 ∷ [])
      key (refl, (refl, (refl, tt))) refl refl
