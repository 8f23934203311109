-- ===== src/Buffer/Pool/Unpin.antt =====
-- `UnpinPage` and `FlushPage` on a well-formed pool.
use native.Mathlib.Decide.{ℕ_discrete}
use dis_minisql.Prelude.{
  ℕ, ◌-◌, ◌≡◌, ◌≢◌, ◌<◌, refl, subst, ap, Bool, true, false, some, List, ◌∷◌, arith, mem, ◌==◌, leb,
  if◌then◌else◌, update, ==_ne, ==_self,
}
use dis_minisql.Buffer.Replacer.{Replacer, with}
use dis_minisql.Buffer.Pool.{Pool, Page, unpin_frame, unpin_page, flush_page, write_page}
use dis_minisql.Buffer.Pool.Invariant.{IsValid}
use dis_minisql.Storage.Disk
use dis_minisql.Storage.Disk.{DiskManager}
use dis_minisql.Storage.Disk.Data.{bytes_of, bytes_of-write_page}

-- The frame's page with one pin less, dirty if it was or if the caller says so.
abbrev pub lowered : Page → Bool → Page
lowered page dirty = record page {
  is_dirty = if dirty then true else page.is_dirty;
  pin_count = page.pin_count - 1;
}

module _ (R : Replacer) where
  -- The frame that an unpinned page occupies.
  abbrev pub put_page : Pool R.State → ℕ → Page → Pool R.State
  put_page b f page = record b { pages = update b.pages f page }

  -- A page of the pool may change its bytes, its dirty flag, and its number of pins if it stays
  -- pinned.
  pub put_page-IsValid :
      (b : Pool R.State) (q : List ℕ) (f : ℕ) (page : Page)
      → IsValid R b q
      → mem f b.free_list ≡ false
      → page.page_id ≡ (b.pages f).page_id
      → (page.pin_count == 0) ≡ ((b.pages f).pin_count == 0)
      → IsValid R (put_page b f page) q
  put_page-IsValid b q f page v m id pins = record {
    represents = v.represents;
    queue_below = v.queue_below;
    queued = λ g k. ground (arith, v.queued g k);
    free_below = v.free_below;
    free_distinct = v.free_distinct;
    free_blank = λ g k. ground (arith, v.free_blank g k);
    entry = λ pid g k. ground (arith, v.entry pid g k);
    resident = λ g k n. ground (arith, v.resident g k n, id);
    no_entry = v.no_entry;
  }

  -- The last pin is gone: the frame enters the replacer.
  release-IsValid :
      (b : Pool R.State) (q : List ℕ) (f : ℕ) (page : Page)
      → IsValid R b q
      → f < b.pool_size
      → mem f b.free_list ≡ false
      → page.page_id ≡ (b.pages f).page_id
      → page.pin_count ≡ 0
      → (b.pages f).pin_count ≢ 0
      → IsValid R (record (put_page b f page) { replacer = R.unpin b.replacer f }) (f ∷ q)
  release-IsValid b q f page v h m id pins old =
      let out : mem f q ≡ false = ground (arith, v.queued f h) in
      let w = R.unpin_lem b.pool_size b.replacer q f v.represents in
      let entered : with b.pool_size q f ≡ f ∷ q = ground arith in
      record {
        represents = subst (R.Represents b.pool_size (R.unpin b.replacer f)) entered w;
        queue_below = λ g k. ground (arith, v.queue_below g);
        queued = λ g k. ground (arith, v.queued g k);
        free_below = v.free_below;
        free_distinct = v.free_distinct;
        free_blank = λ g k. ground (arith, v.free_blank g k);
        entry = λ pid g k. ground (arith, v.entry pid g k);
        resident = λ g k n. ground (arith, v.resident g k n, id);
        no_entry = v.no_entry;
      }

  unpin_page_hit :
      (b : Pool R.State) (p f : ℕ) (dirty : Bool)
      → b.page_table (some p) ≡ some f
      → unpin_page R b (some p) dirty ≡ unpin_frame R b f dirty
  unfolding unpin_page
  unpin_page_hit b p f dirty e = rw (e, unpin_page)

  unpin_frame_low :
      (b : Pool R.State) (f : ℕ) (dirty : Bool)
      → (b.pages f).pin_count ≢ 0
      → (b.pages f).pin_count ≢ 1
      → unpin_frame R b f dirty ≡ (false, put_page b f (lowered (b.pages f) dirty))
  unfolding unpin_frame
  unpin_frame_low b f dirty z o = rw (
    ==_ne (b.pages f).pin_count 0 z,
    ==_ne ((b.pages f).pin_count - 1) 0 (λ e. omega arith),
    unpin_frame,
  )

  unpin_frame_last :
      (b : Pool R.State) (f : ℕ) (dirty : Bool)
      → (b.pages f).pin_count ≡ 1
      → unpin_frame R b f dirty ≡ (
        true,
        record (put_page b f (lowered (b.pages f) dirty)) { replacer = R.unpin b.replacer f },
      )
  unfolding unpin_frame
  unpin_frame_last b f dirty o = rw o

  unpin_frame_idle :
      (b : Pool R.State) (f : ℕ) (dirty : Bool)
      → (b.pages f).pin_count ≡ 0
      → unpin_frame R b f dirty ≡ (true, b)
  unfolding unpin_frame
  unpin_frame_idle b f dirty o = rw o

  -- How an unpinned frame, page and call fit.
  abbrev pub Unpins : Pool R.State → ℕ → Bool → Bool × Pool R.State → Type 0
  Unpins b f dirty result =
      (q' : List ℕ) × IsValid R result.1 q'
      × (result.1.pages f
          ≡ (if (b.pages f).pin_count == 0 then b.pages f else lowered (b.pages f) dirty))
      × (mem f q' ≡ leb (b.pages f).pin_count 1)
      × (result.0 ≡ mem f q')

  unpin_frame-IsValid :
      (b : Pool R.State) (q : List ℕ) (f : ℕ) (dirty : Bool)
      → IsValid R b q
      → f < b.pool_size
      → mem f b.free_list ≡ false
      → Dec ((b.pages f).pin_count ≡ 0)
      → Dec ((b.pages f).pin_count ≡ 1)
      → Unpins b f dirty (unpin_frame R b f dirty)
  unpin_frame-IsValid b q f dirty v h m (yes z) _ =
      rw (unpin_frame_idle b f dirty z)
        (q, v, rw z, ground (arith, v.queued f h), ground (arith, v.queued f h))
  unpin_frame-IsValid b q f dirty v h m (no z) (yes o) =
      let w = release-IsValid b q f (lowered (b.pages f) dirty) v h m refl (omega arith) z in
      rw (unpin_frame_last b f dirty o) (f ∷ q, w, rw (==_self f, o), ground arith, ground arith)
  unpin_frame-IsValid b q f dirty v h m (no z) (no o) =
      let w = put_page-IsValid b q f (lowered (b.pages f) dirty) v m refl (ground arith) in
      rw (unpin_frame_low b f dirty z o) (
        q,
        w,
        rw (==_self f, ==_ne (b.pages f).pin_count 0 z),
        ground (arith, v.queued f h),
        ground (arith, v.queued f h),
      )

  -- Unpinning a page of a well-formed pool keeps the pool well formed. A page that was pinned loses
  -- one pin and is dirty if it was or if the caller says so; a page that was not is left alone, the
  -- dirty flag of the call included. The answer, and the frame's place in the replacer, say whether
  -- the page is unpinned now.
  pub unpin_page-IsValid :
      (b : Pool R.State) (q : List ℕ) (p f : ℕ) (dirty : Bool)
      → IsValid R b q
      → b.page_table (some p) ≡ some f
      → Unpins b f dirty (unpin_page R b (some p) dirty)
  unpin_page-IsValid b q p f dirty v e =
      let (h, _, m) = v.entry (some p) f e in
      rw (unpin_page_hit b p f dirty e) (
        unpin_frame-IsValid b q f dirty v h m (ℕ_discrete (b.pages f).pin_count 0)
          (ℕ_discrete (b.pages f).pin_count 1))

  -- Flushing a page of a well-formed pool writes the bytes of its frame to the page in the file,
  -- and leaves a well-formed pool in which the page is not dirty and no frame has other bytes.
  pub flush_page-IsValid :
      (b : Pool R.State) (q : List ℕ) (p f : ℕ)
      → IsValid R b q
      → b.page_table (some p) ≡ some f
      → (b' : Pool R.State) × (flush_page R b (some p) ≡ some (true, b'))
        × IsValid R b' q
        × ((b'.pages f).is_dirty ≡ false)
        × ((g : ℕ) → (b'.pages g).data_bytes ≡ (b.pages g).data_bytes)
        × ((g : ℕ)
            → bytes_of b'.disk g ≡ (if p == g then (b.pages f).data_bytes else bytes_of b.disk g))
  unfolding flush_page write_page
  flush_page-IsValid b q p f v e =
      let (_, _, m) = v.entry (some p) f e in
      let w = put_page-IsValid b q f (record (b.pages f) { is_dirty = false }) v m refl refl in
      (
        record (put_page b f (record (b.pages f) { is_dirty = false })) {
          disk = Disk.write_page b.disk p (b.pages f).data_bytes;
        },
        rw (e, flush_page),
        record {
          represents = w.represents;
          queue_below = w.queue_below;
          queued = w.queued;
          free_below = w.free_below;
          free_distinct = w.free_distinct;
          free_blank = w.free_blank;
          entry = w.entry;
          resident = w.resident;
          no_entry = w.no_entry;
        },
        ground arith,
        λ g. ground (arith, ap b.pages {x = f} {y = g}),
        λ g. bytes_of-write_page b.disk p g (b.pages f).data_bytes,
      )
