-- ===== src/Page/TreePage.antt =====
-- page/b_plus_tree_page.cpp: the header that the pages of the B+ tree share, and the comparison of
-- keys by the key manager (include/index/generic_key.h), which is a parameter of the pages. An id
-- is `none` for INVALID_PAGE_ID.
use Prim.Native.Nat.{Ordering}
use dis_minisql.Prelude.{
  ℕ, ◌+◌, ◌/◌, ◌≡◌, ◌≢◌, refl, Bool, true, false, Option, none, some, ◌==◌, ◌==◌,
}

abbrev pub is_lt : Ordering → Bool
is_lt Ordering.lt = true
is_lt _ = false

abbrev pub is_eq : Ordering → Bool
is_eq Ordering.eq = true
is_eq _ = false

abbrev pub is_above : Ordering → Bool
is_above Ordering.gt = true
is_above _ = false

-- Whether two page ids are equal.
abbrev pub same_page : Option ℕ → Option ℕ → Bool
same_page none none = true
same_page (some p) (some q) = p == q
same_page _ _ = false

pub is_lt→eq : (o : Ordering) → is_lt o ≡ true → o ≡ Ordering.lt
is_lt→eq Ordering.lt h = refl
is_lt→eq Ordering.eq h = cc
is_lt→eq Ordering.gt h = cc

pub is_eq→eq : (o : Ordering) → is_eq o ≡ true → o ≡ Ordering.eq
is_eq→eq Ordering.eq h = refl
is_eq→eq Ordering.lt h = cc
is_eq→eq Ordering.gt h = cc

-- An ordering that is neither below nor equal is above.
pub is_gt : (o : Ordering) → is_lt o ≡ false → o ≢ Ordering.eq → o ≡ Ordering.gt
is_gt Ordering.gt h n = refl
is_gt Ordering.lt h n = cc
is_gt Ordering.eq h n = absurd (n refl)

-- `CompareKeys`, with the sign of its result, orders the keys.
pub record KeyManager : Type 1 where
  pub GenericKey : Type 0
  pub compare_keys : GenericKey → GenericKey → Ordering
  pub compare_self : (k : GenericKey) → compare_keys k k ≡ Ordering.eq
  pub compare_trans :
      (k l m : GenericKey)
      → compare_keys k l ≡ Ordering.lt
      → compare_keys l m ≡ Ordering.lt
      → compare_keys k m ≡ Ordering.lt
  pub compare_flip :
      (k l : GenericKey) → compare_keys k l ≡ Ordering.lt → compare_keys l k ≡ Ordering.gt
  pub compare_flip_gt :
      (k l : GenericKey) → compare_keys k l ≡ Ordering.gt → compare_keys l k ≡ Ordering.lt
  pub compare_same :
      (k l m : GenericKey)
      → compare_keys k l ≡ Ordering.eq
      → (compare_keys k m ≡ compare_keys l m) × (compare_keys m k ≡ compare_keys m l)

-- common/rowid.h.
pub record RowId : Type 0 where
  pub page_id : Option ℕ
  pub slot_num : ℕ

pub data IndexPageType : Type 0 where
  invalid_index_page leaf_page internal_page : IndexPageType

pub record TreePage : Type 0 where
  pub page_type : IndexPageType
  pub key_size : ℕ
  pub lsn : Option ℕ
  pub size : ℕ
  pub max_size : ℕ
  pub parent_page_id : Option ℕ
  pub page_id : Option ℕ

pub is_leaf_page : TreePage → Bool
is_leaf_page p = elim p.page_type [ leaf_page ↦ true | _ ↦ false ]

pub is_root_page : TreePage → Bool
is_root_page p = elim p.parent_page_id [ none ↦ true | some _ ↦ false ]

abbrev pub set_size : TreePage → ℕ → TreePage
set_size p size = record p { size = size }

abbrev pub increase_size : TreePage → ℕ → TreePage
increase_size p amount = record p { size = p.size + amount }

pub get_min_size : TreePage → ℕ
get_min_size p = p.max_size / 2
