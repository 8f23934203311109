-- ===== src/Index/GenericKey.antt =====
-- include/index/generic_key.h: keys as serialized rows, and their comparison. The sign of the
-- result of `CompareKeys` is an ordering; `none` is a failed assertion.
pub mod Order
pub mod Comparison
pub mod Manager
pub mod Nulls
pub mod Tests
use Prim.Native.Nat.{Ordering}
use dis_minisql.Prelude.{
  ℕ, zero, suc, ◌+◌, Bool, true, false, ◌&&◌, Option, none, some, List, [], length, get_elem?, leb,
  ◌==◌, ◌>>=◌, if◌then◌else◌,
}
use dis_minisql.Storage.Disk.{Bytes}
use dis_minisql.Page.TreePage.{RowId}
use dis_minisql.Record.Types.{CmpBool, cmp_true}
use dis_minisql.Record.Field.{Field, compare_less_than, compare_greater_than}
use dis_minisql.Record.Schema.{Schema}
use dis_minisql.Record.Row
use dis_minisql.Record.Row.{Row}

pub record KeyFormat : Type 0 where
  pub key_size : ℕ
  pub key_schema : Schema

-- `Row(INVALID_ROWID)`.
abbrev pub empty_row : Row
empty_row = record { rid = record { page_id = none; slot_num = 0 }; fields = [] }

-- The buffer is cleared before the row is written.
pub serialize_from_key : KeyFormat → Row → Schema → Option Bytes
serialize_from_key m key schema = do
  size ← Row.get_serialized_size key schema
  (buf, n) ← Row.serialize_to key (λ _. 0) 0 schema
  (if length key.fields == length schema && leb size m.key_size then some buf else none)

pub deserialize_to_key : KeyFormat → Bytes → Row → Schema → Option Row
deserialize_to_key m key_buf key schema = do
  (row, ofs) ← Row.deserialize_from key key_buf 0 schema
  (if leb ofs m.key_size then some row else none)

abbrev pub is_true : CmpBool → Bool
is_true cmp_true = true
is_true _ = false

-- The loop over the columns that are left.
unfoldable pub compare_fields : List Field → List Field → ℕ → ℕ → Option Ordering
compare_fields lhs rhs i zero = some Ordering.eq
compare_fields lhs rhs i (suc n) =
    let rest = compare_fields lhs rhs (i + 1) n in
    do
      l ← get_elem? lhs i
      r ← get_elem? rhs i
      below ← compare_less_than l r
      if is_true below
          then some Ordering.lt
          else (compare_greater_than l r >>= λ above.
              if is_true above then some Ordering.gt else rest)

pub compare_keys : KeyFormat → Bytes → Bytes → Option Ordering
compare_keys m lhs rhs = do
  lhs_key ← deserialize_to_key m lhs empty_row m.key_schema
  rhs_key ← deserialize_to_key m rhs empty_row m.key_schema
  compare_fields lhs_key.fields rhs_key.fields 0 (length m.key_schema)
