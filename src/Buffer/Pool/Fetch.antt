-- ===== src/Buffer/Pool/Fetch.antt =====
-- `BufferPoolManager::FetchPage` on a well-formed pool.
use dis_minisql.Prelude.{
  ℕ, ◌+◌, ◌≡◌, ◌≢◌, ◌<◌, refl, ap, ◌∙◌, false, Option, some, none, List, arith, mem, if◌then◌else◌,
  update, mem-erase,
}
use dis_minisql.Storage.Disk
use dis_minisql.Storage.Disk.{DiskManager, Bytes}
use dis_minisql.Storage.Disk.Data.{bytes_of, Readable, read_page_lem}
use dis_minisql.Buffer.Replacer.{Replacer, without}
use dis_minisql.Buffer.Pool.{
  Pool, Page, fetch_hit, fetch_page, take_frame, write_back, read_page, write_page,
}
use dis_minisql.Buffer.Pool.Invariant.{IsValid, Reserved}
use dis_minisql.Buffer.Pool.Frames.{Takes, none_left, taken, take_frame-Takes, SameFrames}
use dis_minisql.Buffer.Pool.Install.{installed, read_in, fill_frame_lem, pin_frame_lem}

-- The disk after the bytes of a frame are written back under the id that is fetched.
abbrev pub backed : DiskManager → ℕ → Page → DiskManager
backed d p page = if page.is_dirty then Disk.write_page d p page.data_bytes else d

pub write_back-backed :
    (d : DiskManager) (p : ℕ) (page : Page) → write_back d (some p) page ≡ some (backed d p page)
unfolding write_back write_page
write_back-backed d p page = ground arith

read_page-some : (d : DiskManager) (p : ℕ) → Readable p → read_page d (some p) ≡ some (bytes_of d p)
unfolding read_page
read_page-some d p h = read_page_lem d p h

module _ (R : Replacer) where
  -- A page of the pool, pinned once more.
  abbrev pub pinned : Pool R.State → ℕ → R.State → Pool R.State
  pinned b f r = record b {
    pages = update b.pages f (record (b.pages f) { pin_count = (b.pages f).pin_count + 1 });
    replacer = r;
  }

  -- How a fetch of page `p` may end.
  pub data Fetches (b : Pool R.State) (p : ℕ) : Option ℕ → Pool R.State → Type 0 where
    hit :
        (f : ℕ) (r : R.State) → b.page_table (some p) ≡ some f → Fetches b p (some f) (pinned b f r)
    no_frame :
        b.page_table (some p) ≡ none
        → ((f : ℕ) → f < b.pool_size → (b.pages f).pin_count ≢ 0)
        → Fetches b p none b
    read :
        (f : ℕ) (c : Pool R.State) (q : List ℕ) (r : R.State)
        → b.page_table (some p) ≡ none
        → Reserved R c f q
        → SameFrames b c
        → Fetches b p (some f) (
            installed R c f p
              (backed c.disk p (c.pages f))
              (read_in R p (bytes_of (backed c.disk p (c.pages f)) p))
              r)

  pub fetch_hit-IsValid :
      (b : Pool R.State) (q : List ℕ) (f : ℕ)
      → IsValid R b q
      → f < b.pool_size
      → mem f b.free_list ≡ false
      → (r : R.State) × (fetch_hit R b f ≡ some (some f, pinned b f r))
        × IsValid R (pinned b f r) (without b.pool_size q f)
  unfolding fetch_hit
  fetch_hit-IsValid b q f v h m =
      let (r, e, w) = R.pin_lem b.pool_size b.replacer q f v.represents in
      let d = R.distinct_lem b.pool_size b.replacer q v.represents in
      (
        r,
        pin_frame_lem R _ f r e,
        record {
          represents = w;
          queue_below = λ g k. v.queue_below g (ground (arith, mem-erase g f q d));
          queued = λ g k. ground (arith, v.queued g k, mem-erase g f q d);
          free_below = v.free_below;
          free_distinct = v.free_distinct;
          free_blank = λ g k. ground (arith, v.free_blank g k);
          entry = λ pid g k. ground (arith, v.entry pid g k);
          resident = λ g k n. ground (arith, v.resident g k n);
          no_entry = v.no_entry;
        },
      )

  -- A fetch of page `p` ends with a well-formed pool, in one of the three ways.
  abbrev pub Fetched : Pool R.State → ℕ → Type 0
  Fetched b p =
      (result : Option ℕ) × (b' : Pool R.State) × (q : List ℕ) × (fetch_page R b (some p)
        ≡ some (result, b'))
      × IsValid R b' q
      × Fetches b p result b'

  fetch_miss :
      (b : Pool R.State) (q : List ℕ) (p : ℕ)
      → IsValid R b q
      → Readable p
      → b.page_table (some p) ≡ none
      → (x : Option (Option (ℕ × Pool R.State))) → take_frame R b b.free_list ≡ x
      → Takes R b q x
      → Fetched b p
  unfolding fetch_page
  fetch_miss b q p v h e _ t (none_left _ all) =
      (none, b, q, rw (e, fetch_page, t), v, no_frame e all)
  fetch_miss b q p v h e _ t (taken f c q' res same) =
      let missing = ap (λ table. table (some p)) same.1 ∙ e in
      let d = backed c.disk p (c.pages f) in
      let (r, filled, w) =
        fill_frame_lem R c f p q' d (bytes_of d p) res missing
          (write_back-backed c.disk p (c.pages f)) (read_page-some d p h) in
      (some f, _, q', rw (e, fetch_page, t) filled, w, read f c q' r e res same)

  -- On a well-formed pool, fetching a page that lies below 2 GiB in the file ends without undefined
  -- behaviour and leaves a well-formed pool, in one of the three ways of `Fetches`.
  pub fetch_page-IsValid :
      (b : Pool R.State) (q : List ℕ) (p : ℕ) → IsValid R b q → Readable p → Fetched b p
  unfolding fetch_page
  fetch_page-IsValid b q p v h = go (b.page_table (some p)) refl
    where
      go : (entry : Option ℕ) → b.page_table (some p) ≡ entry → Fetched b p
      go (some f) e =
          let (l, _, m) = v.entry (some p) f e in
          let (r, e', w) = fetch_hit-IsValid b q f v l m in
          (some f, _, _, rw (e, fetch_page) e', w, hit f r e)
      go none e =
          fetch_miss b q p v h e (take_frame R b b.free_list) refl (take_frame-Takes R b q v)
