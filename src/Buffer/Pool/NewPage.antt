-- ===== src/Buffer/Pool/NewPage.antt =====
-- `BufferPoolManager::NewPage` on a well-formed pool, for a page that the disk gives out.
use dis_minisql.Prelude.{
  ℕ, ◌+◌, ◌≡◌, ◌≢◌, ◌<◌, refl, subst, ap, ◌∙◌, Option, some, none, List, arith,
}
use dis_minisql.Storage.Disk
use dis_minisql.Storage.Disk.{DiskManager, Bytes}
use dis_minisql.Buffer.Replacer.{Replacer}
use dis_minisql.Buffer.Pool.{Pool, Page, take_frame}
use dis_minisql.Buffer.Pool.Invariant.{IsValid, Reserved}
use dis_minisql.Buffer.Pool.Frames.{Takes, none_left, taken, take_frame-Takes}
use dis_minisql.Buffer.Pool.Install.{installed, pin_frame_lem}
use dis_minisql.Buffer.Pool.{new_page, place_page}
use dis_minisql.Buffer.Pool.Fetch.{backed, write_back-backed}
use dis_minisql.Buffer.Pool.Install.{installed-IsValid, without_absent}

-- The page that `NewPage` makes of what the frame held: zeroes, pinned once more, and dirty if the
-- old page was.
abbrev pub cleared : Page → ℕ → Page
cleared page p = record page {
  data_bytes = λ _. 0;
  page_id = some p;
  pin_count = page.pin_count + 1;
}

module _ (R : Replacer) where
  place_page_lem :
      (b : Pool R.State) (f p : ℕ) (q : List ℕ) (d : DiskManager)
      → Reserved R b f q
      → b.page_table (some p) ≡ none
      → (r : R.State) × (place_page R (f, b) (some p) d
          ≡ some (some f, installed R b f p (backed d p (b.pages f)) (cleared (b.pages f) p) r))
        × IsValid R (installed R b f p (backed d p (b.pages f)) (cleared (b.pages f) p) r) q
  unfolding place_page
  place_page_lem b f p q d v missing =
      let (r, e, w) = R.pin_lem b.pool_size b.replacer q f v.represents in
      let same = without_absent b.pool_size q f v.frame_out in
      (
        r,
        rw (write_back-backed d p (b.pages f), place_page) (pin_frame_lem R _ f r e),
        installed-IsValid R b f p _ (cleared (b.pages f) p) r q v missing refl (λ z. omega arith)
            (subst (R.Represents b.pool_size r) same w),
      )

  -- What a new page is: no frame was left, or frame `f` holds it.
  pub data News (b : Pool R.State) (p : ℕ) : Option ℕ → Option ℕ → Pool R.State → Type 0 where
    no_frame : ((f : ℕ) → f < b.pool_size → (b.pages f).pin_count ≢ 0) → News b p none none b
    made :
        (f : ℕ) (b' : Pool R.State)
        → b'.page_table (some p) ≡ some f
        → (b'.pages f).page_id ≡ some p
        → (b'.pages f).pin_count ≡ 1
        → ((o : ℕ) → (b'.pages f).data_bytes o ≡ 0)
        → News b p (some p) (some f) b'

  abbrev pub Made : Pool R.State → ℕ → Type 0
  Made b p =
      (page_id : Option ℕ) × (frame : Option ℕ) × (b' : Pool R.State) × (q : List ℕ) × (new_page R b
        ≡ some (page_id, frame, b'))
      × IsValid R b' q
      × News b p page_id frame b'

  new_page_taken :
      (b : Pool R.State) (q : List ℕ) (p : ℕ) (d : DiskManager)
      → IsValid R b q
      → Disk.allocate_page b.disk ≡ some (some p, d)
      → b.page_table (some p) ≡ none
      → (x : Option (Option (ℕ × Pool R.State))) → take_frame R b b.free_list ≡ x
      → Takes R b q x
      → Made b p
  unfolding new_page
  new_page_taken b q p d v given missing _ t (none_left _ all) =
      (none, none, b, q, rw (t, new_page), v, no_frame all)
  new_page_taken b q p d v given missing _ t (taken f c q' res same) =
      let (r, placed, w) =
        place_page_lem c f p q' d res (ap (λ table. table (some p)) same.1 ∙ missing) in
      (
        some p,
        some f,
        installed R c f p (backed d p (c.pages f)) (cleared (c.pages f) p) r,
        q',
        rw (t, new_page, given, placed),
        w,
        made f _ (ground arith) (ground arith) (ground (arith, res.frame_unpinned))
            (λ o. ground arith),
      )

  -- On a well-formed pool, when the disk gives out a page that is not in the pool, `NewPage` ends
  -- without undefined behaviour and leaves a well-formed pool. Either every frame was pinned, or
  -- the page is in a frame, pinned once and zero.
  pub new_page-IsValid :
      (b : Pool R.State) (q : List ℕ) (p : ℕ) (d : DiskManager)
      → IsValid R b q
      → Disk.allocate_page b.disk ≡ some (some p, d)
      → b.page_table (some p) ≡ none
      → Made b p
  new_page-IsValid b q p d v given missing =
      new_page_taken b q p d v given missing (take_frame R b b.free_list) refl
        (take_frame-Takes R b q v)
