-- ===== src/Storage/FreeSpaceMap/Search.antt =====
-- storage/freespace_map.cpp: `GetBegin` and `GetNext` on a page that holds a pair with enough space.
use dis_minisql.Prelude.{
  ℕ, suc, ◌+◌, ◌-◌, ◌%◌, ◌^◌, ◌<◌, ◌≤◌, ◌≡◌, inl, inr, false, Option, none, some, arith,
}
use dis_minisql.Storage.Disk.{Bytes}
use dis_minisql.Buffer.Replacer.{Replacer}
use dis_minisql.Buffer.Pool.{Pool, fetch_page, unpin_page}
use dis_minisql.Page.TablePage.{page_id_of}
use dis_minisql.Page.FreeSpaceMapPage.{get_pair_count, get_pair_space, get_space_page_id}
use dis_minisql.Page.FreeSpaceMapPage.Pairs.{find_fit-First}
use dis_minisql.Storage.FreeSpaceMap.{FreeSpaceMap, seek, get_begin, get_next}
use dis_minisql.Buffer.Pool.Access.{bytes_of, id_of}

-- `k` is the first pair from `i` on with the space.
abbrev pub Fits : Bytes → ℕ → ℕ → ℕ → Type 0
Fits p need_space i k =
    (i ≤ k)
    × ((k < get_pair_count p)
        × ((need_space ≤ get_pair_space p k)
            × ((j : ℕ) → i ≤ j → j < k → get_pair_space p j < need_space)))

module _ (R : Replacer) where
  open R use {State}

  -- The answer at a pair.
  abbrev pub at_pair : FreeSpaceMap → Pool State → ℕ → ℕ → Option ℕ × FreeSpaceMap × Pool State
  at_pair m b frame k = (
    page_id_of (get_space_page_id (bytes_of R b frame) k),
    record m { internal_index = k; page_index = id_of R b frame },
    (unpin_page R b (id_of R b frame) false).1,
  )

  pub seek-Fits :
      (fuel : ℕ) (m : FreeSpaceMap) (b : Pool State) (frame need_space i j : ℕ)
      → i ≤ j
      → j < get_pair_count (bytes_of R b frame)
      → need_space ≤ get_pair_space (bytes_of R b frame) j
      → (k : ℕ) × (Fits (bytes_of R b frame) need_space i k
          × (seek R (suc fuel) m b frame need_space i ≡ some (at_pair m b frame k)))
  unfolding seek
  seek-Fits fuel m b frame need_space i j from below room =
      let p : Bytes = bytes_of R b frame in
      elim (find_fit-First p need_space i (get_pair_count p - i)) [
        | inl (_, all) ↦
            absurd
              (short (get_pair_space p j) need_space room (all j from (inside i j _ from below)))
        | inr (k, (e, (l, (u, (d, first))))) ↦
            (k, ((l, (within i k _ u l, (d, first))), rw (seek, e)))
      ]
    where
      short : (a n : ℕ) → n ≤ a → a < n → ⊥
      short a n l u = omega arith

      inside : (i j c : ℕ) → i ≤ j → j < c → j < i + (c - i)
      inside i j c l u = omega arith

      within : (i k c : ℕ) → k < i + (c - i) → i ≤ k → k < c
      within i k c u l = omega arith

-- GetBegin, on a list whose first page has a pair with the space that is needed, gives out the page of
-- the first such pair and keeps the place of that pair.
pub get_begin-Fits :
    (R : Replacer) (fuel : ℕ) (m : FreeSpaceMap) (b b1 : Pool R.State) (need_space frame j : ℕ)
    → fetch_page R b m.first_page_id ≡ some (some frame, b1)
    → j < get_pair_count (bytes_of R b1 frame)
    → need_space ≤ get_pair_space (bytes_of R b1 frame) j
    → (k : ℕ) × (Fits (bytes_of R b1 frame) need_space 0 k
        × (get_begin R (suc fuel) m b need_space ≡ some (at_pair R m b1 frame k)))
unfolding get_begin
get_begin-Fits R fuel m b b1 need_space frame j e below room =
    let (k, (fits, found)) =
      seek-Fits R fuel (record m { internal_index = 2 ^ 32 - 1; page_index = none }) b1 frame
        need_space 0 j (omega arith) below room in
    (k, (fits, rw (get_begin, e, found)))

-- GetNext, on a page with a pair behind the place that is kept and with the space that is needed, gives
-- out the page of the first such pair and keeps the place of that pair.
pub get_next-Fits :
    (R : Replacer) (fuel : ℕ) (m : FreeSpaceMap) (b b1 : Pool R.State) (need_space frame j : ℕ)
    → fetch_page R b m.page_index ≡ some (some frame, b1)
    → m.internal_index + 1 < 2 ^ 32
    → m.internal_index < j
    → j < get_pair_count (bytes_of R b1 frame)
    → need_space ≤ get_pair_space (bytes_of R b1 frame) j
    → (k : ℕ) × (Fits (bytes_of R b1 frame) need_space (m.internal_index + 1) k
        × (get_next R (suc fuel) m b need_space ≡ some (at_pair R m b1 frame k)))
unfolding get_next
get_next-Fits R fuel m b b1 need_space frame j e small behind below room =
    let (k, (fits, found)) =
      seek-Fits R fuel m b1 frame need_space (m.internal_index + 1) j (omega arith) below room in
    let index : (m.internal_index + 1) % 2 ^ 32 ≡ m.internal_index + 1 = omega arith in
    (k, (fits, rw (get_next, e, index, found)))
