-- ===== src/Page/IndexRoots.antt =====
-- page/index_roots_page.cpp: the table from the ids of indexes to the pages of their roots. That
-- the page has room for another entry is not tested by the source.
pub mod Insertion
pub mod Tests
use dis_minisql.Prelude.{
  ℕ, zero, suc, ◌+◌, ◌-◌, Bool, true, false, Option, none, some, ◌==◌, if◌then◌else◌, update,
}
use dis_minisql.Page.Pairs.{shift_down}

pub record IndexRootsPage : Type 0 where
  pub count : ℕ
  pub roots : ℕ → ℕ × Option ℕ

pub init : IndexRootsPage → IndexRootsPage
init p = record p { count = 0 }

-- The loop of `FindIndex`, over the entries that are left; `none` is -1.
pub find_from : ℕ → (ℕ → ℕ × Option ℕ) → ℕ → ℕ → Option ℕ
find_from zero roots index_id i = none
find_from (suc left) roots index_id i =
    let later = find_from left roots index_id (i + 1) in
    if (roots i).0 == index_id then some i else later

pub find_index : IndexRootsPage → ℕ → Option ℕ
find_index p index_id = find_from p.count p.roots index_id 0

pub insert : IndexRootsPage → ℕ → Option ℕ → Bool × IndexRootsPage
insert p index_id root_id = elim (find_index p index_id) [
  | some index ↦ (false, p)
  | none ↦
      (true, record { count = p.count + 1; roots = update p.roots p.count (index_id, root_id) })
]

pub delete : IndexRootsPage → ℕ → Bool × IndexRootsPage
delete p index_id = elim (find_index p index_id) [
  | none ↦ (false, p)
  | some index ↦
      (true, record { count = p.count - 1; roots = shift_down (p.count - 1 - index) index p.roots })
]

pub update_root : IndexRootsPage → ℕ → Option ℕ → Bool × IndexRootsPage
update_root p index_id root_id = elim (find_index p index_id) [
  | none ↦ (false, p)
  | some index ↦ (true, record p { roots = update p.roots index ((p.roots index).0, root_id) })
]

pub get_root_id : IndexRootsPage → ℕ → Option (Option ℕ)
get_root_id p index_id = elim (find_index p index_id) [
  | none ↦ none
  | some index ↦ some (p.roots index).1
]
