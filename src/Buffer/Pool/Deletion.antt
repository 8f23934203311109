-- ===== src/Buffer/Pool/Deletion.antt =====
-- `BufferPoolManager::DeletePage`, whose test for the page in the table is the wrong way round.
use dis_minisql.Prelude.{
  ℕ, ◌≡◌, ◌/◌, Bool-cases, inl, inr, ◌<◌, ap, ◌∙◌, true, false, some, none, List, ◌∷◌, arith,
  update, ==_self,
}
use dis_minisql.Storage.Disk
use dis_minisql.Storage.Disk.{DiskManager, bitmap_size, max_valid_page_id}
use dis_minisql.Storage.Disk.Invariant as DiskInvariant
use dis_minisql.Storage.Disk.Invariant.{InReach, free}
use dis_minisql.Storage.Disk.Release.{de_allocate_page_frees}
use dis_minisql.Buffer.Replacer.{Replacer}
use dis_minisql.Buffer.Pool.{
  Pool, blank, same_id, set_entry, deallocate, delete_missing, delete_page,
}
use dis_minisql.Buffer.Pool.Invariant.{IsValid, same→eq}

module _ (R : Replacer) where
  -- Deleting a page that is in the pool, pinned or not, answers that it is deleted: the disk gives
  -- the page out again, but the page table and the frames stay as they are.
  pub delete_page-resident :
      (b : Pool R.State) (p f : ℕ)
      → b.page_table (some p) ≡ some f
      → DiskInvariant.IsValid b.disk
      → p < max_valid_page_id
      → InReach (p / bitmap_size)
      → free b.disk p ≡ false
      → (d : DiskManager) × (delete_page R b (some p) ≡ some (true, record b { disk = d }))
        × (free d p ≡ true)
  unfolding delete_page deallocate
  delete_page-resident b p f e v h reach used =
      let (d, freed, _, frees) = de_allocate_page_frees b.disk p v h reach used in
      (d, rw (e, delete_page, freed), frees p ∙ rw (==_self p))

  -- Deleting a page that is not in the pool, when frame 0 is not pinned, leaves a pool that is not
  -- well formed: frame 0 enters the free list although it is in it or holds another page.
  pub delete_page-missing :
      (b : Pool R.State) (q : List ℕ) (p : ℕ) (d : DiskManager)
      → IsValid R b q
      → 0 < b.pool_size
      → b.page_table (some p) ≡ none
      → (b.pages 0).pin_count ≡ 0
      → Disk.de_allocate_page b.disk p ≡ some d
      → (b' : Pool R.State) × (delete_page R b (some p) ≡ some (true, b'))
        × ((q' : List ℕ) → ¬ IsValid R b' q')
  unfolding delete_page deallocate delete_missing
  delete_page-missing b q p d v h missing z freed = (
    emptied d,
    rw (missing, delete_page, z, freed),
    λ q' w.
        let (fresh, _) = w.free_distinct in
        let owned = v.resident 0 h fresh in
        let (_, _, out) = w.entry (b.pages 0).page_id 0 (stays owned) in ground (arith, out),
  )
    where
      emptied : DiskManager → Pool R.State
      emptied d = record b {
        disk = d;
        page_table = set_entry (set_entry b.page_table (some p) (some 0)) (some p) none;
        pages = update b.pages 0 blank;
        free_list = 0 ∷ b.free_list;
      }

      stays :
          b.page_table (b.pages 0).page_id ≡ some 0
          → (emptied d).page_table (b.pages 0).page_id ≡ some 0
      stays owned = elim (Bool-cases (same_id (some p) (b.pages 0).page_id)) [
        | inl same ↦
            absurd (ground (arith, missing, owned, ap b.page_table (same→eq (some p) _ same)))
        | inr other ↦ ground (arith, other, owned)
      ]
