-- ===== src/Record/TypeChar/Order.antt =====
-- `CompareStrings` is the dictionary order, which is a total order.
use Prim.Native.Nat.{compare, Ordering}
use dis_minisql.Prelude.{ℕ, suc, ◌≡◌, refl, List, [], ◌∷◌, length, arith, ap, sym, subst, fun_ext}
use dis_minisql.Record.Order.{IsOrder}
use dis_minisql.Record.TypeChar.{memcmp, min, compare_strings}

-- The dictionary order: a string comes before every string that continues it.
pub dictionary : List ℕ → List ℕ → Ordering
dictionary [] [] = Ordering.eq
dictionary [] (b ∷ t) = Ordering.lt
dictionary (a ∷ s) [] = Ordering.gt
dictionary (a ∷ s) (b ∷ t) = elim (compare a b) [
  | Ordering.lt ↦ Ordering.lt
  | Ordering.eq ↦ dictionary s t
  | Ordering.gt ↦ Ordering.gt
]

min-suc : (m n : ℕ) → min (suc m) (suc n) ≡ suc (min m n)
min-suc m n = ground arith

compare-suc : (m n : ℕ) → compare (suc m) (suc n) ≡ compare m n
compare-suc m n = ground arith

compare_strings-next :
    (a b : ℕ) (s t : List ℕ)
    → compare_strings (a ∷ s) (b ∷ t) ≡ elim (compare a b) [
      | Ordering.lt ↦ Ordering.lt
      | Ordering.eq ↦ compare_strings s t
      | Ordering.gt ↦ Ordering.gt
    ]
unfolding compare_strings memcmp
compare_strings-next a b s t = ground (arith, min-suc (length s) (length t))

compare_strings_empty : (t : List ℕ) → compare_strings [] t ≡ dictionary [] t
unfolding compare_strings memcmp dictionary
compare_strings_empty [] = refl
compare_strings_empty (b ∷ t) = ground arith

compare_strings_longer : (a : ℕ) (s : List ℕ) → compare_strings (a ∷ s) [] ≡ dictionary (a ∷ s) []
unfolding compare_strings memcmp dictionary
compare_strings_longer a s = ground arith

-- `CompareStrings` compares two strings as a dictionary does.
pub compare_strings-dictionary : (s t : List ℕ) → compare_strings s t ≡ dictionary s t
unfolding dictionary
compare_strings-dictionary [] t = compare_strings_empty t
compare_strings-dictionary (a ∷ s) [] = compare_strings_longer a s
compare_strings-dictionary (a ∷ s) (b ∷ t) =
    ground (arith, compare_strings-next a b s t, compare_strings-dictionary s t)

dictionary-IsOrder : IsOrder dictionary
unfolding dictionary
dictionary-IsOrder = record {
  order_self = dictionary_self;
  order_flip = dictionary_flip;
  order_flip_gt = dictionary_flip_gt;
  order_trans = dictionary_trans;
  order_same = λ s t u e. dictionary_same s t u e;
}
  where
    dictionary_self : (s : List ℕ) → dictionary s s ≡ Ordering.eq
    dictionary_self [] = refl
    dictionary_self (a ∷ s) = ground (arith, dictionary_self s)

    dictionary-eq : (s t : List ℕ) → dictionary s t ≡ Ordering.eq → s ≡ t
    dictionary-eq [] [] h = refl
    dictionary-eq [] (b ∷ t) h = cc
    dictionary-eq (a ∷ s) [] h = cc
    dictionary-eq (a ∷ s) (b ∷ t) h = ground (arith, dictionary-eq s t)

    dictionary_same :
        (s t u : List ℕ)
        → dictionary s t ≡ Ordering.eq
        → (dictionary s u ≡ dictionary t u) × (dictionary u s ≡ dictionary u t)
    dictionary_same s t u e =
        let p = dictionary-eq s t e in (ap (λ x. dictionary x u) p, ap (λ x. dictionary u x) p)

    dictionary_flip : (s t : List ℕ) → dictionary s t ≡ Ordering.lt → dictionary t s ≡ Ordering.gt
    dictionary_flip [] [] h = cc
    dictionary_flip [] (b ∷ t) h = refl
    dictionary_flip (a ∷ s) [] h = cc
    dictionary_flip (a ∷ s) (b ∷ t) h = ground (arith, dictionary_flip s t)

    dictionary_flip_gt :
        (s t : List ℕ) → dictionary s t ≡ Ordering.gt → dictionary t s ≡ Ordering.lt
    dictionary_flip_gt [] [] h = cc
    dictionary_flip_gt [] (b ∷ t) h = cc
    dictionary_flip_gt (a ∷ s) [] h = refl
    dictionary_flip_gt (a ∷ s) (b ∷ t) h = ground (arith, dictionary_flip_gt s t)

    dictionary_trans :
        (s t u : List ℕ)
        → dictionary s t ≡ Ordering.lt
        → dictionary t u ≡ Ordering.lt
        → dictionary s u ≡ Ordering.lt
    dictionary_trans [] [] u h k = cc
    dictionary_trans [] (b ∷ t) [] h k = cc
    dictionary_trans [] (b ∷ t) (c ∷ u) h k = refl
    dictionary_trans (a ∷ s) [] u h k = cc
    dictionary_trans (a ∷ s) (b ∷ t) [] h k = cc
    dictionary_trans (a ∷ s) (b ∷ t) (c ∷ u) h k = ground (arith, dictionary_trans s t u)

pub compare_strings-IsOrder : IsOrder compare_strings
compare_strings-IsOrder =
    subst IsOrder
      (sym (
        fun_ext {f = compare_strings} {g = dictionary} λ s.
          fun_ext {f = compare_strings s} {g = dictionary s} λ t. compare_strings-dictionary s t))
      dictionary-IsOrder
