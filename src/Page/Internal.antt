-- ===== src/Page/Internal.antt =====
-- page/b_plus_tree_internal_page.cpp: an internal page of the B+ tree, over the key manager's
-- comparison. As in a leaf, the pairs are an array without end. `Lookup` and the redistributions
-- are for a page that is not empty. The pages of the children are in the buffer pool; `none` is
-- undefined behaviour of the pool. The page and its sibling are pinned by the caller and apart from
-- the children.
pub mod Search
pub mod Updates
pub mod Adoption
pub mod Moves
pub mod Tests
use dis_minisql.Prelude.{
  ℕ, zero, suc, ◌+◌, ◌-◌, ◌/◌, Bool, true, false, not, ◌&&◌, Option, none, some, ltb, ◌==◌, ◌>>=◌,
  if◌then◌else◌, update,
}
use dis_minisql.Storage.Disk.{Bytes}
use dis_minisql.Buffer.Replacer.{Replacer}
use dis_minisql.Buffer.Pool.{Pool, fetch_page, unpin_page}
use dis_minisql.Buffer.Pool.Access.{bytes_of, with_bytes}
use dis_minisql.Page.TablePage.{set32, word_of}
use dis_minisql.Page.Pairs.{copy_pairs, shift_up, shift_down}
use dis_minisql.Page.TreePage.{
  KeyManager, is_above, same_page, TreePage, internal_page, set_size, increase_size,
}

-- `SetParentPageId`, on the bytes of a page of the tree.
abbrev pub set_parent_page_id : Bytes → Option ℕ → Bytes
set_parent_page_id p parent_page_id = set32 p 20 (word_of parent_page_id)

module _ (R : Replacer) where
  -- A child gets its parent, or nothing is done if its page is not fetched.
  pub adopt_child : Pool R.State → Option ℕ → Option ℕ → Option (Pool R.State)
  adopt_child b child parent = elim (fetch_page R b child) [
    | none ↦ none
    | some (none, b1) ↦ some b1
    | some (some frame, b1) ↦
        let adopted = set_parent_page_id (bytes_of R b1 frame) parent in
        some (unpin_page R (with_bytes R b1 frame adopted) child true).1
  ]

module _ (KM : KeyManager) where
  open KM use {GenericKey}

  pub record InternalPage : Type 0 where
    pub header : TreePage
    pub pairs : ℕ → GenericKey × Option ℕ

  abbrev pub get_size : InternalPage → ℕ
  get_size p = p.header.size

  abbrev pub key_at : InternalPage → ℕ → GenericKey
  key_at p index = (p.pairs index).0

  abbrev pub value_at : InternalPage → ℕ → Option ℕ
  value_at p index = (p.pairs index).1

  pub init : InternalPage → Option ℕ → Option ℕ → ℕ → ℕ → InternalPage
  init p page_id parent_id key_size max_size = record p {
    header = record (p.header) {
      page_id = page_id;
      parent_page_id = parent_id;
      key_size = key_size;
      max_size = max_size;
      size = 0;
      page_type = internal_page;
    };
  }

  pub set_key_at : InternalPage → ℕ → GenericKey → InternalPage
  set_key_at p index key = record p { pairs = update p.pairs index (key, value_at p index) }

  pub set_value_at : InternalPage → ℕ → Option ℕ → InternalPage
  set_value_at p index value = record p { pairs = update p.pairs index (key_at p index, value) }

  -- The loop of `ValueIndex`, over the pairs that are left; `none` is -1.
  pub value_index_from : ℕ → InternalPage → Option ℕ → ℕ → Option ℕ
  value_index_from zero p value i = none
  value_index_from (suc left) p value i =
      let later = value_index_from left p value (i + 1) in
      if same_page (value_at p i) value then some i else later

  pub value_index : InternalPage → Option ℕ → Option ℕ
  value_index p value = value_index_from (get_size p) p value 0

  -- The loop of `Lookup`. `right` is one more than in the source, where it may be less than `left`.
  pub child_between : ℕ → InternalPage → GenericKey → ℕ → ℕ → Option ℕ
  child_between zero p key left right = value_at p left
  child_between (suc fuel) p key left right =
      let mid = (left + (right - 1)) / 2 in
      let below = child_between fuel p key left mid in
      let above = child_between fuel p key (mid + 1) right in
      if ltb left right
      then if not (is_above (KM.compare_keys (key_at p mid) key))
          && is_above (KM.compare_keys (key_at p (mid + 1)) key)
        then value_at p mid
        else if is_above (KM.compare_keys (key_at p mid) key)
        then below
        else above
      else value_at p left

  pub lookup : InternalPage → GenericKey → Option ℕ
  lookup p key =
      if is_above (KM.compare_keys (key_at p 1) key)
      then value_at p 0
      else if not (is_above (KM.compare_keys (key_at p (get_size p - 1)) key))
      then value_at p (get_size p - 1)
      else child_between (get_size p) p key 1 (get_size p - 1)

  pub populate_new_root : InternalPage → Option ℕ → GenericKey → Option ℕ → InternalPage
  populate_new_root p old_value new_key new_value =
      set_value_at
        (set_key_at (set_value_at (record p { header = set_size p.header 2 }) 0 old_value) 1
          new_key)
        1 new_value

  -- `ValueIndex(old_value) + 1`.
  abbrev pub index_after : Option ℕ → ℕ
  index_after none = 0
  index_after (some i) = i + 1

  pub insert_node_after : InternalPage → Option ℕ → GenericKey → Option ℕ → InternalPage
  insert_node_after p old_value new_key new_value =
      let index = index_after (value_index p old_value) in
      record p {
        header = increase_size p.header 1;
        pairs = update (shift_up (get_size p - index) index p.pairs) index (new_key, new_value);
      }

  -- `Remove`, of `index + 1`: the index may be -1.
  pub remove : InternalPage → ℕ → InternalPage
  remove p first = record p {
    header = set_size p.header (get_size p - 1);
    pairs = shift_down (get_size p - 1 - first) first p.pairs;
  }

  pub remove_and_return_only_child : InternalPage → Option ℕ × InternalPage
  remove_and_return_only_child p = (value_at p 0, record p { header = set_size p.header 0 })

  module _ (R : Replacer) where
    open R use {State}

    -- The loop of `CopyNFrom` over the children, `left` of which are to be adopted.
    pub adopt : ℕ → Pool State → Option ℕ → (ℕ → GenericKey × Option ℕ) → ℕ → Option (Pool State)
    adopt zero b parent from i = some b
    adopt (suc left) b parent from i =
        adopt_child R b (from i).1 parent >>= λ b'. adopt left b' parent from (i + 1)

    pub copy_n_from :
        InternalPage
        → (ℕ → GenericKey × Option ℕ)
        → ℕ
        → ℕ
        → Pool State
        → Option (InternalPage × Pool State)
    copy_n_from p from src size b = do
      b' ← adopt size b p.header.page_id from src
      some (
        record p {
          header = increase_size p.header size;
          pairs = copy_pairs p.pairs (get_size p) from src size;
        },
        b',
      )

    -- The page, the recipient and the pool after a move, here and below.
    pub move_half_to :
        InternalPage → InternalPage → Pool State → Option (InternalPage × InternalPage × Pool State)
    move_half_to p recipient b =
        let size = get_size p in
        let move_size = size / 2 in
        (copy_n_from recipient p.pairs (size - move_size) move_size b >>= λ (recipient', b').
        some (record p { header = set_size p.header (size - move_size) }, recipient', b'))

    pub move_all_to :
        InternalPage
        → InternalPage
        → GenericKey
        → Pool State
        → Option (InternalPage × InternalPage × Pool State)
    move_all_to p recipient middle_key b = do
      (recipient', b') ← copy_n_from recipient p.pairs 0 (get_size p) b
      some (record p { header = set_size p.header 0 }, recipient', b')

    pub copy_last_from :
        InternalPage → GenericKey → Option ℕ → Pool State → Option (InternalPage × Pool State)
    copy_last_from p key value b = do
      b' ← adopt_child R b value p.header.page_id
      some (
        record p {
          header = increase_size p.header 1;
          pairs = update p.pairs (get_size p) (key, value);
        },
        b',
      )

    pub move_first_to_end_of :
        InternalPage
        → InternalPage
        → GenericKey
        → Pool State
        → Option (InternalPage × InternalPage × Pool State)
    move_first_to_end_of p recipient middle_key b = do
      (recipient', b') ← copy_last_from recipient middle_key (value_at p 0) b
      some (remove p 0, recipient', b')

    pub copy_first_from : InternalPage → Option ℕ → Pool State → Option (InternalPage × Pool State)
    copy_first_from p value b = do
      b' ← adopt_child R b value p.header.page_id
      let shifted = record p {
        header = increase_size p.header 1;
        pairs = shift_up (get_size p) 0 p.pairs;
      }
      some (set_value_at shifted 0 value, b')

    pub move_last_to_front_of :
        InternalPage
        → InternalPage
        → GenericKey
        → Pool State
        → Option (InternalPage × InternalPage × Pool State)
    move_last_to_front_of p recipient middle_key b = do
      (recipient', b') ← copy_first_from recipient (value_at p (get_size p - 1)) b
      some (remove p (get_size p - 1), set_key_at recipient' 0 (key_at p (get_size p - 1)), b')
