-- ===== src/Storage/Disk/Invariant.antt =====
-- The well-formed disk: the counters of the meta page agree with the bitmaps of the extents.
use native.Mathlib.Decide.{ℕ_discrete}
use dis_minisql.Prelude.{
  ℕ, zero, suc, ◌+◌, ◌*◌, ◌/◌, ◌%◌, ◌^◌, ◌<◌, ◌≤◌, ◌≡◌, refl, ap, ◌≢◌, Bool, true, false, arith,
  ltb, ◌==◌, if◌then◌else◌, update,
}
use dis_minisql.Page.Bitmap
use dis_minisql.Page.Bitmap.{BitmapPage}
use dis_minisql.Page.Bitmap.Allocation
use dis_minisql.Storage.Disk.{
  DiskManager, decode, encode, bitmap_page_id, max_chars, bitmap_size, max_bitmap, page_size,
  write_physical_page,
}
use dis_minisql.Storage.Disk.Layout.{decode-encode}

-- The bitmap of an extent, as the file holds it.
unfoldable pub bitmap_of : DiskManager → ℕ → BitmapPage
bitmap_of d i = decode (d.file (bitmap_page_id i))

-- Whether a logical page is free, by the bitmap of its extent.
unfoldable pub free : DiskManager → ℕ → Bool
free d p = Bitmap.is_page_free max_chars (bitmap_of d (p / bitmap_size)) (p % bitmap_size)

-- The pages used in the first `n` extents.
abbrev pub used : (ℕ → ℕ) → ℕ → ℕ
used f zero = 0
used f (suc n) = f n + used f n

pub used-le_part : (f : ℕ → ℕ) (i n : ℕ) → i < n → f i ≤ used f n
used-le_part f i zero h = absurd (omega arith)
used-le_part f i (suc n) h = elim (ℕ_discrete i n) [
  | yes e ↦ rw e (omega arith)
  | no ne ↦ omega (arith, used-le_part f i n (omega arith))
]

pub record IsValid (d : DiskManager) : Type 0 where
  pub bound : d.num_extents ≤ max_bitmap
  pub bitmaps : (i : ℕ) → Allocation.IsValid max_chars (bitmap_of d i)
  pub counted : (i : ℕ) → d.extent_used_page i ≡ (bitmap_of d i).page_allocated
  pub fresh : (i : ℕ) → d.num_extents ≤ i → d.extent_used_page i ≡ 0
  pub total : d.num_allocated_pages ≡ used d.extent_used_page d.num_extents

-- The bitmap of an extent can be read: its offset in the file fits an `int`.
unfoldable pub InReach : ℕ → Type 0
InReach i = bitmap_page_id i * page_size < 2 ^ 31

used-update :
    (f : ℕ → ℕ) (i v n : ℕ)
    → used (update f i v) n + (if ltb i n then f i else 0) ≡ used f n + (if ltb i n then v else 0)
used-update f i v zero = ground arith
used-update f i v (suc n) = ground (arith, used-update f i v n)

bitmap_page_id-injective : (i j : ℕ) → i ≢ j → bitmap_page_id i ≢ bitmap_page_id j
unfolding bitmap_page_id
bitmap_page_id-injective i j ne = omega arith

-- The disk after the bitmap of one extent is written, with the extent's counter.
abbrev pub put_bitmap : DiskManager → ℕ → BitmapPage → ℕ → ℕ → DiskManager
put_bitmap d i b count total =
    write_physical_page
      (record d {
        extent_used_page = update d.extent_used_page i count;
        num_allocated_pages = total;
      })
      (bitmap_page_id i) (encode b)

bitmap_of-put_bitmap :
    (d : DiskManager) (i : ℕ) (b : BitmapPage) (count total j : ℕ)
    → b.page_allocated < 2 ^ 32
    → b.next_free_page < 2 ^ 32
    → bitmap_of (put_bitmap d i b count total) j ≡ (if i == j then b else bitmap_of d j)
unfolding bitmap_of write_physical_page
bitmap_of-put_bitmap d i b count total j h k =
    ground (arith, decode-encode b, bitmap_page_id-injective i j, ap bitmap_page_id {x = i} {y = j})

either_IsValid :
    (t : Bool) (b c : BitmapPage)
    → Allocation.IsValid max_chars b
    → Allocation.IsValid max_chars c
    → Allocation.IsValid max_chars (if t then b else c)
either_IsValid true b c v w = v
either_IsValid false b c v w = w

module _ (d : DiskManager) (i : ℕ) (b : BitmapPage) (count total : ℕ)
    (v : Allocation.IsValid max_chars b) where
  put_small : (b.page_allocated < 2 ^ 32) × (b.next_free_page < 2 ^ 32)
  put_small = (omega (arith, Allocation.page_allocated-le max_chars b v), omega (arith, v.in_page))

  pub free-put_bitmap :
      (q : ℕ)
      → free (put_bitmap d i b count total) q ≡ (
          if i == q / bitmap_size
          then Bitmap.is_page_free max_chars b (q % bitmap_size)
          else free d q)
  unfolding free
  free-put_bitmap q =
      rw (bitmap_of-put_bitmap d i b count total (q / bitmap_size) put_small.0 put_small.1)
        (if_is_page_free (i == q / bitmap_size) b (bitmap_of d (q / bitmap_size)) (q % bitmap_size))
    where
      if_is_page_free :
          (t : Bool) (b c : BitmapPage) (x : ℕ)
          → Bitmap.is_page_free max_chars (if t then b else c) x
            ≡ (if t then Bitmap.is_page_free max_chars b x else Bitmap.is_page_free max_chars c x)
      if_is_page_free true b c x = refl
      if_is_page_free false b c x = refl

  -- An extent's bitmap and counter change together, and the total with them.
  pub put_bitmap-IsValid :
      IsValid d
      → i < d.num_extents
      → count ≡ b.page_allocated
      → total + d.extent_used_page i ≡ d.num_allocated_pages + count
      → IsValid (put_bitmap d i b count total)
  unfolding write_physical_page
  put_bitmap-IsValid w l e t = record {
    bound = w.bound;
    bitmaps = λ j.
        rw (bitmap_of-put_bitmap d i b count total j put_small.0 put_small.1)
          (either_IsValid (i == j) b (bitmap_of d j) v (w.bitmaps j));
    counted = λ j.
        rw (bitmap_of-put_bitmap d i b count total j put_small.0 put_small.1)
          (ground (arith, w.counted j));
    fresh = λ j h. ground (arith, w.fresh j h);
    total = ground (arith, used-update d.extent_used_page i count d.num_extents, w.total);
  }
