-- ===== src/Storage/FreeSpaceMap.antt =====
-- storage/freespace_map.cpp: the list of free space map pages, over the buffer pool. The fuel of a
-- walk bounds the pages that it visits; `none` is undefined behaviour, as at a null page, or a walk
-- that is out of fuel.
pub mod Pair
pub mod Search
mod Tests
use dis_minisql.Prelude.{
  ℕ, zero, suc, ◌+◌, ◌-◌, ◌%◌, ◌^◌, Bool, true, false, Option, none, some, ltb, ◌==◌, ◌>>=◌,
  if◌then◌else◌, update,
}
use dis_minisql.Storage.Disk.{Bytes}
use dis_minisql.Buffer.Replacer.{Replacer}
use dis_minisql.Buffer.Pool
use dis_minisql.Buffer.Pool.{Pool, fetch_page, new_page, unpin_page}
use dis_minisql.Buffer.Pool.Access.{bytes_of, with_bytes, id_of}
use dis_minisql.Page.TablePage.{word_of, page_id_of, invalid_page}
use dis_minisql.Page.FreeSpaceMapPage.{
  size_max_pair, get_pair_count, get_map_next_page_id, set_map_next_page_id, get_space_page_id,
  set_pair_space, init_map, new_pair, find_fit, find_pair,
}

pub record FreeSpaceMap : Type 0 where
  pub first_page_id : Option ℕ
  pub last_page_id : Option ℕ
  pub internal_index : ℕ
  pub page_index : Option ℕ

module _ (R : Replacer) where
  open R use {State}

  -- `FetchPage` of a page that the code then uses without a test for null.
  abbrev pub fetch_used : Pool State → Option ℕ → Option (ℕ × Pool State)
  fetch_used b page_id = elim (fetch_page R b page_id) [
    | none ↦ none
    | some (none, _) ↦ none
    | some (some frame, b') ↦ some (frame, b')
  ]

  -- The constructor, which leaves the place of the iterator as it is found.
  unfoldable pub create : Pool State → Option ℕ → ℕ → Option ℕ → Option (FreeSpaceMap × Pool State)
  create b first internal_index page_index = fetch_used b first >>= λ (frame, b1).
      let b2 = with_bytes R b1 frame (init_map (bytes_of R b1 frame) (word_of first)) in
      some (
        record {
          first_page_id = first;
          last_page_id = none;
          internal_index = internal_index;
          page_index = page_index;
        },
        (unpin_page R b2 first true).1,
      )

  -- A new page at the end of the list; the inner `none` is a pool without room.
  unfoldable pub append_page : Pool State → ℕ → Option (Option ℕ × Pool State)
  append_page b frame = elim (new_page R b) [
    | none ↦ none
    | some (none, _, b1) ↦ some (none, b1)
    | some (some next, _, b1) ↦
        (fetch_used (unpin_page R b1 (some next) false).1 (some next) >>= λ (fresh, b2).
        let b3 = with_bytes R b2 fresh (init_map (bytes_of R b2 fresh) next) in
        let b4 = with_bytes R b3 frame (set_map_next_page_id (bytes_of R b3 frame) next) in
        some (some next, (unpin_page R b4 (some next) true).1))
  ]

  -- The page behind one that is full.
  unfoldable pub next_page : Pool State → ℕ → Option (Option ℕ × Pool State)
  next_page b frame = elim (page_id_of (get_map_next_page_id (bytes_of R b frame))) [
    | some next ↦ some (some next, b)
    | none ↦ append_page b frame
  ]

  -- The loop of `SetNewPair`: the first page with room.
  unfoldable pub walk : ℕ → Pool State → ℕ → Option (Option ℕ × Pool State)
  walk zero b frame = none
  walk (suc fuel) b frame =
      let onward = next_page b frame >>= λ (next, b1). elim next [
        | none ↦ some (none, b1)
        | some id ↦
            fetch_used (unpin_page R b1 (id_of R b1 frame) false).1 (some id) >>= λ (frame', b2).
            walk fuel b2 frame'
      ] in
      if ltb (get_pair_count (bytes_of R b frame)) size_max_pair
      then some (some frame, b)
      else onward

  -- The page is unpinned as clean before the pair is written.
  unfoldable pub set_new_pair :
      ℕ → FreeSpaceMap → Pool State → Option ℕ → ℕ → Option (FreeSpaceMap × Pool State)
  set_new_pair fuel m b page_id free_space = elim (fetch_page R b m.first_page_id) [
    | none ↦ none
    | some (none, b1) ↦ some (m, b1)
    | some (some first, b1) ↦ elim (walk fuel b1 first) [
      | none ↦ none
      | some (none, b2) ↦ some (m, b2)
      | some (some frame, b2) ↦
          let b3 = (unpin_page R b2 (id_of R b2 frame) false).1 in
          some (
            record m { last_page_id = page_id },
            with_bytes R b3 frame (new_pair (bytes_of R b3 frame) (word_of page_id) free_space).0,
          )
    ]
  ]

  -- The loop of `GetBegin` and `GetNext`, from an index of a page on. Behind the last page the last
  -- page of the table is given out, once.
  unfoldable pub seek :
      ℕ → FreeSpaceMap → Pool State → ℕ → ℕ → ℕ → Option (Option ℕ × FreeSpaceMap × Pool State)
  seek zero m b frame need_space internal_id = none
  seek (suc fuel) m b frame need_space internal_id =
      let page = bytes_of R b frame in
      let pair_count = get_pair_count page in
      let last = (pair_count + 2 ^ 32 - 1) % 2 ^ 32 in
      let b1 = (unpin_page R b (id_of R b frame) false).1 in
      let onward = fetch_used b1 (page_id_of (get_map_next_page_id page)) >>= λ (frame', b2).
      seek fuel m b2 frame' need_space 0 in
      elim (find_fit page need_space internal_id (pair_count - internal_id)) [
        | some k ↦ some (
          page_id_of (get_space_page_id page k),
          record m { internal_index = k; page_index = id_of R b frame },
          b1,
        )
        | none ↦ elim (page_id_of (get_map_next_page_id page)) [
          | some next ↦ onward
          | none ↦
              if m.internal_index == last
              then some (none, m, b1)
              else some (
                m.last_page_id,
                record m { internal_index = last; page_index = id_of R b frame },
                b1,
              )
        ]
      ]

  unfoldable pub get_begin :
      ℕ → FreeSpaceMap → Pool State → ℕ → Option (Option ℕ × FreeSpaceMap × Pool State)
  get_begin fuel m b need_space = elim (fetch_page R b m.first_page_id) [
    | none ↦ none
    | some (none, b1) ↦ some (none, m, b1)
    | some (some frame, b1) ↦
        seek fuel (record m { internal_index = 2 ^ 32 - 1; page_index = none }) b1 frame need_space
          0
  ]

  unfoldable pub get_next :
      ℕ → FreeSpaceMap → Pool State → ℕ → Option (Option ℕ × FreeSpaceMap × Pool State)
  get_next fuel m b need_space = elim (fetch_page R b m.page_index) [
    | none ↦ none
    | some (none, b1) ↦ some (none, m, b1)
    | some (some frame, b1) ↦ seek fuel m b1 frame need_space ((m.internal_index + 1) % 2 ^ 32)
  ]

  -- The loop of `SetFreeSpace`.
  unfoldable pub settle : ℕ → Pool State → ℕ → ℕ → ℕ → Option (Option ℕ × Pool State)
  settle zero b frame page_id free_space = none
  settle (suc fuel) b frame page_id free_space =
      let page = bytes_of R b frame in
      let b1 = (unpin_page R b (id_of R b frame) false).1 in
      let onward = fetch_used b1 (page_id_of (get_map_next_page_id page)) >>= λ (frame', b2).
      settle fuel b2 frame' page_id free_space in
      elim (find_pair page page_id 0 (get_pair_count page)) [
        | some k ↦ some (
          id_of R b frame,
          (unpin_page R (with_bytes R b frame (set_pair_space page k free_space)) (id_of R b frame)
              true).1,
        )
        | none ↦ elim (page_id_of (get_map_next_page_id page)) [
          | some next ↦ onward
          | none ↦ some (none, b1)
        ]
      ]

  unfoldable pub set_free_space :
      ℕ → FreeSpaceMap → Pool State → Option ℕ → ℕ → Option (Option ℕ × Pool State)
  set_free_space fuel m b page_id free_space = elim (fetch_page R b m.first_page_id) [
    | none ↦ none
    | some (none, b1) ↦ some (none, b1)
    | some (some frame, b1) ↦ settle fuel b1 frame (word_of page_id) free_space
  ]
