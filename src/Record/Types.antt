-- ===== src/Record/Types.antt =====
-- include/record/type_id.h and include/record/types.h: the types of fields and the three-valued
-- result of a comparison. The value of a field is `none` for null.
use dis_minisql.Prelude.{ℕ, Bool, true, false, Option, none, some}

pub data TypeId : Type 0 where
  type_invalid type_int type_float type_char : TypeId

pub data CmpBool : Type 0 where
  cmp_false cmp_true cmp_null : CmpBool

abbrev pub get_cmp_bool : Bool → CmpBool
get_cmp_bool true = cmp_true
get_cmp_bool false = cmp_false

-- `none` is the exception.
unfoldable pub get_type_size : TypeId → Option ℕ
get_type_size type_int = some 4
get_type_size type_float = some 4
get_type_size type_char = some 0
get_type_size type_invalid = none

abbrev pub same_type : TypeId → TypeId → Bool
same_type type_invalid type_invalid = true
same_type type_int type_int = true
same_type type_float type_float = true
same_type type_char type_char = true
same_type _ _ = false

-- The guard of every comparison: null if a side is null.
abbrev pub unless_null {ℓ} : {A : Type ℓ} → Option A → Option A → (A → A → Bool) → CmpBool
unless_null (some a) (some b) test = get_cmp_bool (test a b)
unless_null _ _ test = cmp_null
