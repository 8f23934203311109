-- ===== src/Buffer/Pool/Contents.antt =====
-- What a pool answers for each page: the bytes of its frame, or of the file.
use dis_minisql.Prelude.{ℕ, ◌≡◌, ◌≢◌, ◌<◌, ◌∙◌, false, Option, some, none, arith, ==_self}
use dis_minisql.Storage.Disk.{DiskManager, Bytes}
use dis_minisql.Storage.Disk.Data.{bytes_of}
use dis_minisql.Buffer.Replacer.{Replacer}
use dis_minisql.Buffer.Pool.{Pool}
use dis_minisql.Buffer.Pool.Install.{installed, read_in}

module _ (R : Replacer) where
  -- The bytes of page `p` in frame `f`, or in the file.
  abbrev bytes_at : Pool R.State → ℕ → Option ℕ → Bytes
  bytes_at b p none = bytes_of b.disk p
  bytes_at b p (some f) = (b.pages f).data_bytes

  -- The bytes that a reader of page `p` is to see.
  pub content : Pool R.State → ℕ → Bytes
  content b p = bytes_at b p (b.page_table (some p))

  -- Every frame that may be given up holds what the file holds.
  unfoldable pub Clean : Pool R.State → Type 0
  Clean b =
      (p f : ℕ)
      → b.page_table (some p) ≡ some f
      → (b.pages f).pin_count ≡ 0
      → ((b.pages f).is_dirty ≡ false) × ((b.pages f).data_bytes ≡ bytes_of b.disk p)

  pub content_at :
      (b : Pool R.State) (p : ℕ) (entry : Option ℕ)
      → b.page_table (some p) ≡ entry
      → content b p ≡ bytes_at b p entry
  unfolding content
  content_at b p entry e = rw e

  pub content-installed :
      (b : Pool R.State) (f p : ℕ) (d : DiskManager) (x : Bytes) (r : R.State)
      → content (installed R b f p d (read_in R p x) r) p ≡ x
  content-installed b f p d x r =
      content_at (installed R b f p d (read_in R p x) r) p (some f) (ground arith)
      ∙ rw (bytes_at, ==_self f)

  -- The frame that a fetch returns, or the reason why it returns none.
  abbrev pub Serves : Pool R.State → ℕ → Option ℕ → Pool R.State → Type 0
  Serves b p none b' = (f : ℕ) → f < b.pool_size → (b.pages f).pin_count ≢ 0
  Serves b p (some f) b' =
      (b'.page_table (some p) ≡ some f)
      × ((b'.pages f).pin_count ≢ 0)
      × ((b'.pages f).data_bytes ≡ content b p)
