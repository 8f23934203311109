-- ===== src/Record/Field/Comparison.antt =====
-- The laws of the comparisons of fields.
use dis_minisql.Prelude.{
  ℕ, ◌≡◌, ◌≢◌, refl, Bool, true, not, ◌||◌, Option, none, some, List, arith, ap, sym,
}
use dis_minisql.Record.Order.{is_lt-is_above}
use dis_minisql.Record.Types.{
  type_invalid, CmpBool, cmp_null, cmp_true, cmp_false, unless_null, get_cmp_bool,
}
use dis_minisql.Record.TypeInt
use dis_minisql.Record.TypeFloat
use dis_minisql.Record.TypeChar
use dis_minisql.Record.TypeChar.{compare_strings}
use dis_minisql.Record.TypeChar.Order.{compare_strings-IsOrder}
use dis_minisql.Record.Field.{
  Field, get_type_id, is_null, check_comparable, dispatch, compare_equals, compare_not_equals,
  compare_less_than, compare_less_than_equals, compare_greater_than, compare_greater_than_equals,
}

-- Negation, of which null is null.
abbrev pub cmp_not : CmpBool → CmpBool
cmp_not cmp_true = cmp_false
cmp_not cmp_false = cmp_true
cmp_not cmp_null = cmp_null

unless_null_swap {ℓ} :
    {A : Type ℓ} (p q : A → A → Bool)
    → ((a b : A) → p a b ≡ q b a)
    → (l r : Option A) → unless_null l r p ≡ unless_null r l q
unless_null_swap p q h none none = refl
unless_null_swap p q h none (some b) = refl
unless_null_swap p q h (some a) none = refl
unless_null_swap p q h (some a) (some b) = ap get_cmp_bool (h a b)

dispatch_swap :
    (i i' f f' : Option ℕ → Option ℕ → CmpBool) (c c' : Option (List ℕ) → Option (List ℕ) → CmpBool)
    → ((a b : Option ℕ) → i a b ≡ i' b a)
    → ((a b : Option ℕ) → f a b ≡ f' b a)
    → ((a b : Option (List ℕ)) → c a b ≡ c' b a)
    → (l r : Field) → dispatch i f c l r ≡ dispatch i' f' c' r l
unfolding dispatch
dispatch_swap i i' f f' c c' hi hf hc l r = grind (arith, hi, hf, hc)

-- `l > r` is `r < l` and `l >= r` is `r <= l`, with null, NaN and failed assertions.
pub compare_swapped :
    (l r : Field)
    → (compare_greater_than l r ≡ compare_less_than r l)
      × (compare_greater_than_equals l r ≡ compare_less_than_equals r l)
unfolding compare_greater_than compare_less_than compare_greater_than_equals
    compare_less_than_equals TypeInt.compare_less_than TypeInt.compare_less_than_equals
    TypeInt.compare_greater_than TypeInt.compare_greater_than_equals TypeFloat.compare_less_than
    TypeFloat.compare_less_than_equals TypeFloat.compare_greater_than
    TypeFloat.compare_greater_than_equals TypeChar.compare_less_than
    TypeChar.compare_less_than_equals TypeChar.compare_greater_than
    TypeChar.compare_greater_than_equals
compare_swapped l r = (
  dispatch_swap _ _ _ _ _ _ ints_gt floats_gt strings_gt l r,
  dispatch_swap _ _ _ _ _ _ ints_ge floats_ge strings_ge l r,
)
  where
    ints_gt : (a b : Option ℕ) → TypeInt.compare_greater_than a b ≡ TypeInt.compare_less_than b a
    ints_gt a b = unless_null_swap _ _ (λ x y. refl) a b

    floats_gt :
        (a b : Option ℕ) → TypeFloat.compare_greater_than a b ≡ TypeFloat.compare_less_than b a
    floats_gt a b = unless_null_swap _ _ (λ x y. ground arith) a b

    strings_gt :
        (a b : Option (List ℕ)) → TypeChar.compare_greater_than a b ≡ TypeChar.compare_less_than b a
    strings_gt a b =
        unless_null_swap _ _ (λ x y. sym (is_lt-is_above compare_strings-IsOrder y x)) a b

    ints_ge :
        (a b : Option ℕ)
        → TypeInt.compare_greater_than_equals a b ≡ TypeInt.compare_less_than_equals b a
    ints_ge a b = unless_null_swap _ _ (λ x y. refl) a b

    floats_ge :
        (a b : Option ℕ)
        → TypeFloat.compare_greater_than_equals a b ≡ TypeFloat.compare_less_than_equals b a
    floats_ge a b = unless_null_swap _ _ (λ x y. ground arith) a b

    strings_ge :
        (a b : Option (List ℕ))
        → TypeChar.compare_greater_than_equals a b ≡ TypeChar.compare_less_than_equals b a
    strings_ge a b =
        unless_null_swap _ _ (λ x y. ap not (is_lt-is_above compare_strings-IsOrder x y)) a b

-- A comparison with null is null, if the types agree.
pub compare_null :
    (l r : Field)
    → check_comparable l r ≡ true
    → get_type_id l ≢ type_invalid
    → (is_null l || is_null r) ≡ true
    → (compare_equals l r ≡ some cmp_null)
      × ((compare_not_equals l r ≡ some cmp_null)
          × ((compare_less_than l r ≡ some cmp_null)
              × ((compare_less_than_equals l r ≡ some cmp_null)
                  × ((compare_greater_than l r ≡ some cmp_null)
                      × (compare_greater_than_equals l r ≡ some cmp_null)))))
unfolding compare_equals compare_not_equals compare_less_than compare_less_than_equals
    compare_greater_than compare_greater_than_equals TypeInt.compare_equals
    TypeInt.compare_not_equals TypeInt.compare_less_than TypeInt.compare_less_than_equals
    TypeInt.compare_greater_than TypeInt.compare_greater_than_equals dispatch
    TypeFloat.compare_equals TypeFloat.compare_not_equals TypeFloat.compare_less_than
    TypeFloat.compare_less_than_equals TypeFloat.compare_greater_than
    TypeFloat.compare_greater_than_equals TypeChar.compare_equals TypeChar.compare_not_equals
    TypeChar.compare_less_than TypeChar.compare_less_than_equals TypeChar.compare_greater_than
    TypeChar.compare_greater_than_equals
compare_null l r c v n = ground arith
