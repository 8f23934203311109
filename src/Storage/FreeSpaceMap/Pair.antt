-- ===== src/Storage/FreeSpaceMap/Pair.antt =====
-- storage/freespace_map.cpp: `SetNewPair` on a first page with room.
use dis_minisql.Prelude.{
  ℕ, suc, ◌<◌, ◌≡◌, ap, ◌∙◌, true, false, Option, some, ==_self, ltb, lt→ltb, if◌then◌else◌,
}
use dis_minisql.Storage.Disk.{Bytes}
use dis_minisql.Buffer.Replacer.{Replacer}
use dis_minisql.Buffer.Pool.{Pool, fetch_page, unpin_page}
use dis_minisql.Buffer.Pool.Unpinned.{unpin_page-Same}
use dis_minisql.Page.FreeSpaceMapPage.{size_max_pair, get_pair_count, new_pair}
use dis_minisql.Storage.FreeSpaceMap.{FreeSpaceMap, walk, set_new_pair}
use dis_minisql.Buffer.Pool.Access.{bytes_of, with_bytes, id_of}
use dis_minisql.Page.TablePage.{word_of}

module _ (R : Replacer) where
  open R use {State}

  walk-room :
      (fuel : ℕ) (b : Pool State) (f : ℕ)
      → ltb (get_pair_count (bytes_of R b f)) size_max_pair ≡ true
      → walk R (suc fuel) b f ≡ some (some f, b)
  unfolding walk
  walk-room fuel b f h = rw h

  bytes_of-with_bytes : (b : Pool State) (f : ℕ) (x : Bytes) → bytes_of R (with_bytes R b f x) f ≡ x
  bytes_of-with_bytes b f x =
      ap (λ c. (if c then record (b.pages f) { data_bytes = x } else b.pages f).data_bytes)
        (==_self f)

  is_dirty-with_bytes :
      (b : Pool State) (f : ℕ) (x : Bytes)
      → ((with_bytes R b f x).pages f).is_dirty ≡ (b.pages f).is_dirty
  is_dirty-with_bytes b f x =
      ap (λ c. (if c then record (b.pages f) { data_bytes = x } else b.pages f).is_dirty)
        (==_self f)

-- SetNewPair on a list of pages whose first page has room writes the pair into the frame of that page
-- and leaves the dirty flag of the frame as it was.
pub set_new_pair-is_dirty :
    (R : Replacer) (fuel : ℕ) (m : FreeSpaceMap) (b b1 : Pool R.State) (page_id : Option ℕ)
    (free_space first : ℕ)
    → fetch_page R b m.first_page_id ≡ some (some first, b1)
    → get_pair_count (bytes_of R b1 first) < size_max_pair
    → (b2 : Pool R.State) × ((set_new_pair R (suc fuel) m b page_id free_space
          ≡ some (record m { last_page_id = page_id }, b2))
        × ((bytes_of R b2 first ≡ (new_pair (bytes_of R b1 first) (word_of page_id) free_space).0)
            × ((b2.pages first).is_dirty ≡ (b1.pages first).is_dirty)))
unfolding set_new_pair
set_new_pair-is_dirty R fuel m b b1 page_id free_space first e room =
    let b2 : Pool R.State = (unpin_page R b1 (id_of R b1 first) false).1 in
    let (bytes, dirty) = unpin_page-Same R b1 (id_of R b1 first) first in
    (
      with_bytes R b2 first (new_pair (bytes_of R b2 first) (word_of page_id) free_space).0,
      (
        rw (set_new_pair, e, walk-room R fuel b1 first (lt→ltb _ _ room)),
        (
          bytes_of-with_bytes R b2 first _
              ∙ ap (λ x. (new_pair x (word_of page_id) free_space).0) bytes,
          is_dirty-with_bytes R b2 first _ ∙ dirty,
        ),
      ),
    )
