-- ===== src/Page/FreeSpaceMapPage.antt =====
-- page/freespace_map_page.cpp and include/page/freespace_map_page.h: a page of pairs of a page id and
-- its free space, on its bytes, and the loops of storage/freespace_map.cpp over one page. A page id
-- is its 32-bit pattern.
pub mod Pairs
use dis_minisql.Prelude.{
  ℕ, zero, suc, ◌+◌, ◌-◌, ◌*◌, ◌%◌, ◌^◌, Option, none, some, leb, ◌==◌, if◌then◌else◌,
}
use dis_minisql.Storage.Disk.{Bytes, le32}
use dis_minisql.Page.TablePage.{set32, invalid_page}

-- SIZE_MAX_PAIR.
abbrev pub size_max_pair : ℕ
size_max_pair = 510

abbrev pub get_map_next_page_id : Bytes → ℕ
get_map_next_page_id p = le32 p 8

abbrev pub set_map_next_page_id : Bytes → ℕ → Bytes
set_map_next_page_id p next_page_id = set32 p 8 next_page_id

abbrev pub get_pair_count : Bytes → ℕ
get_pair_count p = le32 p 12

abbrev pub set_pair_count : Bytes → ℕ → Bytes
set_pair_count p pair_count = set32 p 12 pair_count

abbrev pub get_space_page_id : Bytes → ℕ → ℕ
get_space_page_id p internal_id = le32 p (16 + 8 * internal_id)

abbrev pub set_space_page_id : Bytes → ℕ → ℕ → Bytes
set_space_page_id p internal_id page_id = set32 p (16 + 8 * internal_id) page_id

abbrev pub get_pair_space : Bytes → ℕ → ℕ
get_pair_space p internal_id = le32 p (20 + 8 * internal_id)

unfoldable pub set_pair_space : Bytes → ℕ → ℕ → Bytes
set_pair_space p internal_id free_space = set32 p (20 + 8 * internal_id) free_space

unfoldable pub init_map : Bytes → ℕ → Bytes
init_map p page_id = set_pair_count (set_map_next_page_id (set32 p 0 page_id) invalid_page) 0

-- The page afterwards, and the number of pairs that is returned.
unfoldable pub new_pair : Bytes → ℕ → ℕ → Bytes × ℕ
new_pair p page_id free_space =
    let pair_count = get_pair_count p in
    let spaced = set_pair_space p pair_count free_space in
    let named = set_space_page_id spaced pair_count page_id in
    let counted = (pair_count + 1) % 2 ^ 32 in (set_pair_count named counted, counted)

-- The loop of `GetBegin` and `GetNext` over one page: the first of the next `n` pairs from `i` on with
-- the space that is needed.
unfoldable pub find_fit : Bytes → ℕ → ℕ → ℕ → Option ℕ
find_fit p need_space i zero = none
find_fit p need_space i (suc n) =
    let rest = find_fit p need_space (i + 1) n in
    if leb need_space (get_pair_space p i) then some i else rest

-- The loop of `SetFreeSpace` over one page: the first of the next `n` pairs from `i` on of a page.
unfoldable pub find_pair : Bytes → ℕ → ℕ → ℕ → Option ℕ
find_pair p page_id i zero = none
find_pair p page_id i (suc n) =
    let rest = find_pair p page_id (i + 1) n in
    if get_space_page_id p i == page_id then some i else rest
