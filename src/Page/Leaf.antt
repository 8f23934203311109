-- ===== src/Page/Leaf.antt =====
-- page/b_plus_tree_leaf_page.cpp: a leaf of the B+ tree, over the key manager's comparison. The
-- pairs are an array without end: that a page has room for its pairs is up to the tree, which keeps
-- them below the maximal size.
pub mod Search
pub mod Insertion
pub mod Removal
pub mod Moves
pub mod Tests
use Prim.Native.Nat.{Ordering}
use dis_minisql.Prelude.{
  ℕ, zero, suc, ◌+◌, ◌-◌, ◌*◌, ◌/◌, Bool, true, false, ◌&&◌, Option, none, some, ltb, leb, ◌==◌,
  if◌then◌else◌, update,
}
use dis_minisql.Page.Pairs.{copy_pairs, shift_up, shift_down}
use dis_minisql.Page.TreePage.{
  KeyManager, RowId, is_lt, is_eq, TreePage, IndexPageType, leaf_page, set_size, increase_size,
}

module _ (KM : KeyManager) where
  open KM use {GenericKey}

  abbrev pub Pairs : Type 0
  Pairs = ℕ → GenericKey × RowId

  pub record LeafPage : Type 0 where
    pub header : TreePage
    pub next_page_id : Option ℕ
    pub pairs : Pairs

  abbrev pub get_size : LeafPage → ℕ
  get_size p = p.header.size

  abbrev pub key_at : LeafPage → ℕ → GenericKey
  key_at p index = (p.pairs index).0

  abbrev pub value_at : LeafPage → ℕ → RowId
  value_at p index = (p.pairs index).1

  pub init : LeafPage → Option ℕ → Option ℕ → ℕ → ℕ → LeafPage
  init p page_id parent_id key_size max_size = record p {
    header = record (p.header) {
      page_id = page_id;
      parent_page_id = parent_id;
      key_size = key_size;
      max_size = max_size;
      size = 0;
      page_type = leaf_page;
    };
    next_page_id = none;
  }

  -- The loop of `KeyIndex`, on as much fuel as pairs are left.
  pub index_between : ℕ → LeafPage → GenericKey → ℕ → ℕ → ℕ
  index_between zero p key left right = right
  index_between (suc fuel) p key left right =
      let mid = (left + right) / 2 in
      let above = index_between fuel p key (mid + 1) right in
      let below = index_between fuel p key left mid in
      if ltb left right
      then if is_lt (KM.compare_keys (key_at p mid) key) then above else below
      else right

  pub key_index : LeafPage → GenericKey → ℕ
  key_index p key = index_between (get_size p) p key 0 (get_size p)

  -- `Insert`: the page after it; its answer is the size.
  pub insert : LeafPage → GenericKey → RowId → LeafPage
  insert p key value =
      let index = key_index p key in
      record p {
        header = increase_size p.header 1;
        pairs = update (shift_up (get_size p - index) index p.pairs) index (key, value);
      }

  -- `CopyNFrom`, from an offset of the pairs of another page.
  pub copy_n_from : LeafPage → Pairs → ℕ → ℕ → LeafPage
  copy_n_from p from src size = record p {
    header = increase_size p.header size;
    pairs = copy_pairs p.pairs (get_size p) from src size;
  }

  -- The page and the recipient after a move, here and below.
  pub move_half_to : LeafPage → LeafPage → LeafPage × LeafPage
  move_half_to p recipient =
      let size = get_size p in
      let move_size = size / 2 in
      (
        record p { header = set_size p.header (size - move_size) },
        copy_n_from recipient p.pairs (size - move_size) move_size,
      )

  -- The loop of `Lookup`. `right` is one more than in the source, where it may be -1.
  pub lookup_between : ℕ → LeafPage → GenericKey → ℕ → ℕ → Option RowId
  lookup_between zero p key left right = none
  lookup_between (suc fuel) p key left right =
      let index = (left + (right - 1)) / 2 in
      let above = lookup_between fuel p key (index + 1) right in
      let below = lookup_between fuel p key left index in
      if ltb left right
      then if is_eq (KM.compare_keys (key_at p index) key)
        then some (value_at p index)
        else if is_lt (KM.compare_keys (key_at p index) key)
        then above
        else below
      else none

  pub lookup : LeafPage → GenericKey → Option RowId
  lookup p key = lookup_between (get_size p) p key 0 (get_size p)

  -- `RemoveAndDeleteRecord`: whether the key was there, where the source answers the size or -1.
  pub remove_and_delete_record : LeafPage → GenericKey → Bool × LeafPage
  remove_and_delete_record p key =
      let index = key_index p key in
      if ltb index (get_size p) && is_eq (KM.compare_keys (key_at p index) key)
      then (
        true,
        record p {
          header = set_size p.header (get_size p - 1);
          pairs = shift_down (get_size p - 1 - index) index p.pairs;
        },
      )
      else (false, p)

  pub move_all_to : LeafPage → LeafPage → LeafPage × LeafPage
  move_all_to p recipient =
      let copied = copy_n_from recipient p.pairs 0 (get_size p) in
      let emptied = record p { header = set_size p.header 0 } in
      (
        emptied,
        record copied {
          next_page_id = p.next_page_id;
          header = increase_size copied.header (get_size emptied);
        },
      )

  pub copy_last_from : LeafPage → GenericKey → RowId → LeafPage
  copy_last_from p key value = record p {
    pairs = update p.pairs (get_size p) (key, value);
    header = increase_size p.header 1;
  }

  pub copy_first_from : LeafPage → GenericKey → RowId → LeafPage
  copy_first_from p key value = record p {
    pairs = update (shift_up (get_size p) 0 p.pairs) 0 (key, value);
    header = increase_size p.header 1;
  }

  -- The source calls the two redistributions on a page that is not empty.
  pub move_first_to_end_of : LeafPage → LeafPage → LeafPage × LeafPage
  move_first_to_end_of p recipient = (
    record p {
      pairs = shift_down (get_size p - 1) 0 p.pairs;
      header = set_size p.header (get_size p - 1);
    },
    copy_last_from recipient (key_at p 0) (value_at p 0),
  )

  pub move_last_to_front_of : LeafPage → LeafPage → LeafPage × LeafPage
  move_last_to_front_of p recipient = (
    record p { header = set_size p.header (get_size p - 1) },
    copy_first_from recipient (key_at p (get_size p - 1)) (value_at p (get_size p - 1)),
  )
