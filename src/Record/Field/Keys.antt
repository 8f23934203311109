-- ===== src/Record/Field/Keys.antt =====
-- Fields that are in order: neither null nor NaN, of one type.
use Prim.Native.Nat.{compare, Ordering}
use dis_minisql.Prelude.{ℕ, ◌^◌, ◌<◌, ◌≡◌, true, false, not, some, List, [], length, arith}
use dis_minisql.Page.TreePage.{is_lt, is_eq, is_above}
use dis_minisql.Record.Order.{IsOrder}
use dis_minisql.Record.Types.{TypeId, type_int, type_float, type_char, get_cmp_bool}
use dis_minisql.Record.TypeInt
use dis_minisql.Record.TypeFloat
use dis_minisql.Record.TypeFloat.{is_nan}
use dis_minisql.Record.TypeChar
use dis_minisql.Record.TypeChar.{compare_strings, varchar_max_len}
use dis_minisql.Record.TypeChar.Order.{compare_strings-IsOrder}
use dis_minisql.Record.Field
use dis_minisql.Record.Field.{
  Field, invalid_field, int_field, float_field, char_field, dispatch, compare_equals,
  compare_not_equals, compare_less_than, compare_less_than_equals, compare_greater_than,
  compare_greater_than_equals, get_type_id,
}

unfoldable pub IsKey : TypeId → Field → Type 0
IsKey type_int (int_field (some i)) = i < 2 ^ 32
IsKey type_float (float_field (some f)) = (f < 2 ^ 32) × (is_nan f ≡ false)
IsKey type_char (char_field (some s)) = length s < varchar_max_len
IsKey _ _ = true ≡ false

-- The number of a field: the sign of `l - r`.
unfoldable pub sign : Field → Field → Ordering
sign (int_field (some a)) (int_field (some b)) = compare (TypeInt.order_key a) (TypeInt.order_key b)
sign (float_field (some a)) (float_field (some b)) =
    compare (TypeFloat.order_key a) (TypeFloat.order_key b)
sign (char_field (some s)) (char_field (some t)) = compare_strings s t
sign _ _ = Ordering.eq

-- On two keys of a type the six comparisons test one sign.
pub comparisons-sign :
    (t : TypeId) (l r : Field)
    → IsKey t l
    → IsKey t r
    → (compare_equals l r ≡ some (get_cmp_bool (is_eq (sign l r))))
      × ((compare_not_equals l r ≡ some (get_cmp_bool (not (is_eq (sign l r)))))
          × ((compare_less_than l r ≡ some (get_cmp_bool (is_lt (sign l r))))
              × ((compare_less_than_equals l r ≡ some (get_cmp_bool (not (is_above (sign l r)))))
                  × ((compare_greater_than l r ≡ some (get_cmp_bool (is_above (sign l r))))
                      × (compare_greater_than_equals l r
                          ≡ some (get_cmp_bool (not (is_lt (sign l r)))))))))
unfolding compare_equals compare_not_equals compare_less_than compare_less_than_equals
    compare_greater_than compare_greater_than_equals TypeInt.compare_equals
    TypeInt.compare_not_equals TypeInt.compare_less_than TypeInt.compare_less_than_equals
    TypeInt.compare_greater_than TypeInt.compare_greater_than_equals dispatch
    TypeFloat.compare_equals TypeFloat.compare_not_equals TypeFloat.compare_less_than
    TypeFloat.compare_less_than_equals TypeFloat.compare_greater_than
    TypeFloat.compare_greater_than_equals TypeChar.compare_equals TypeChar.compare_not_equals
    TypeChar.compare_less_than TypeChar.compare_less_than_equals TypeChar.compare_greater_than
    TypeChar.compare_greater_than_equals IsKey sign
comparisons-sign t l r hl hr = ground arith

-- The keys of a type, in the order of the sign.
abbrev pub Key : TypeId → Type 0
Key t = (f : Field) × IsKey t f

abbrev pub key_sign : (t : TypeId) → Key t → Key t → Ordering
key_sign t k l = sign k.0 l.0

abbrev chars : Field → List ℕ
chars (char_field (some s)) = s
chars _ = []

pub key_sign-IsOrder : (t : TypeId) → IsOrder (key_sign t)
unfolding IsKey sign
key_sign-IsOrder t = record {
  order_self = λ (f, h). ground (arith, strings.order_self (chars f));
  order_flip = λ (f, h) (g, k) e. ground (arith, strings.order_flip (chars f) (chars g));
  order_flip_gt = λ (f, h) (g, k) e. ground (arith, strings.order_flip_gt (chars f) (chars g));
  order_trans =
      λ (f, h) (g, k) (j, l) e d. ground (arith, strings.order_trans (chars f) (chars g) (chars j));
  order_same =
      λ (f, h) (g, k) (j, l) e. ground (arith, strings.order_same (chars f) (chars g) (chars j));
}
  where
    strings : IsOrder compare_strings
    strings = compare_strings-IsOrder

-- A key is a valid field of its type.
pub IsKey-IsValid : (t : TypeId) (f : Field) → IsKey t f → (get_type_id f ≡ t) × Field.IsValid f
unfolding IsKey Field.IsValid
IsKey-IsValid t f h = ground arith
