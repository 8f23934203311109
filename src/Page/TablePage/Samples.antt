-- ===== src/Page/TablePage/Samples.antt =====
-- A new page and a page with one row, for the tests.
use dis_minisql.Prelude.{
  ℕ, ◌+◌, ◌-◌, ◌*◌, ◌^◌, ◌≤◌, ◌≡◌, inl, refl, sym, true, false, none, some, List, [], ◌∷◌, length,
  arith,
}
use dis_minisql.Storage.Disk.{Bytes, byte_of}
use dis_minisql.Memory.{uint32_bytes}
use dis_minisql.Record.Types.{type_int}
use dis_minisql.Record.TypeInt
use dis_minisql.Record.Field
use dis_minisql.Record.Field.{Field, int_field}
use dis_minisql.Record.Schema.{Schema}
use dis_minisql.Record.Row
use dis_minisql.Record.Row.{Row, Fits, fields_size, fields_bytes, null_bitmap_from}
use dis_minisql.Page.TablePage.{init, place_tuple, get_tuple_count, get_free_space_pointer}
use dis_minisql.Page.TablePage.View.{tuple_at, IsValid}
use dis_minisql.Page.TablePage.Placement.{Placed, place_tuple-Placed}
use dis_minisql.Page.TablePage.Insertion.{Placed-IsValid, tuple_at-Placed}
use dis_minisql.Page.TablePage.Scan.{init_empty, init_count, init_pointer}

abbrev pub zeros : Bytes
zeros _ = 0

-- Page 3, the first of a table.
abbrev pub empty : Bytes
empty = init zeros 3 (2 ^ 32 - 1)

abbrev pub schema : Schema
schema =
    record {
      name = 97 ∷ [];
      column_type = type_int;
      len = 4;
      table_ind = 0;
      nullable = false;
      unique = true;
    }
    ∷ []

abbrev pub row : Row
row = record { rid = record { page_id = none; slot_num = 0 }; fields = int_field (some 7) ∷ [] }

-- The bytes of the row: magic number, one field, no null, and 7.
abbrev pub tuple : List ℕ
tuple = 0x78 ∷ 0x56 ∷ 0x34 ∷ 0x12 ∷ 1 ∷ 0 ∷ 0 ∷ 0 ∷ 0 ∷ 0 ∷ 0 ∷ 0 ∷ 7 ∷ 0 ∷ 0 ∷ 0 ∷ []

pub row_bytes_test : Row.row_bytes row schema ≡ some tuple
unfolding Row.row_bytes fields_bytes null_bitmap_from Field.serialize_to TypeInt.serialize_to
    uint32_bytes byte_of
row_bytes_test = refl

pub row_size : Row.get_serialized_size row schema ≡ some (length tuple)
unfolding Row.get_serialized_size fields_size Field.get_serialized_size TypeInt.get_serialized_size
row_size = refl

pub row-Fits : Fits row.fields schema
unfolding Fits Field.IsValid
row-Fits = (refl, (omega arith, tt))

pub empty-IsValid : IsValid empty
empty-IsValid = (init_empty zeros 3 (2 ^ 32 - 1)).0

empty_room : 32 + 8 * get_tuple_count empty + length tuple ≤ get_free_space_pointer empty
empty_room = omega (arith, init_count zeros 3 (2 ^ 32 - 1), init_pointer zeros 3 (2 ^ 32 - 1))

-- The page with the row in slot 0.
abbrev pub filled : Bytes
filled = place_tuple empty 0 (length tuple) tuple

pub filled-Placed : Placed empty filled 0 tuple
filled-Placed =
    place_tuple-Placed empty 0 tuple (omega arith) empty_room
      (omega (arith, init_pointer zeros 3 (2 ^ 32 - 1)))

first_slot : 0 ≡ get_tuple_count empty
first_slot = sym (init_count zeros 3 (2 ^ 32 - 1))

pub filled_count : get_tuple_count filled ≡ 1
filled_count = ground (arith, filled-Placed.count, first_slot)

pub filled-IsValid : IsValid filled
filled-IsValid =
    Placed-IsValid empty filled 0 tuple empty-IsValid (inl first_slot) filled-Placed
      (λ e. omega (arith, e))
      (omega (arith, filled_count, filled-Placed.pointer, init_pointer zeros 3 (2 ^ 32 - 1)))

pub filled-tuple : tuple_at filled 0 ≡ some tuple
filled-tuple =
    tuple_at-Placed empty filled 0 tuple empty-IsValid (inl first_slot) filled-Placed
      (λ e. omega (arith, e)) 0
