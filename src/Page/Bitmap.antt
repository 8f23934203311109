-- ===== src/Page/Bitmap.antt =====
-- page/bitmap_page.cpp: the bitmap of an extent. `max_chars` is the number of bytes that the
-- template argument leaves for the bits (MAX_CHARS), and a page has eight times as many bits.
pub mod Bits
pub mod Search
pub mod Allocation
pub mod Release
pub mod Low
pub mod RoundTrip
pub mod Tests
use Prim.Native.Nat.{bit_and, bit_or, bit_xor}
use dis_minisql.Prelude.{
  ℕ, zero, suc, ◌+◌, ◌-◌, ◌*◌, ◌/◌, ◌%◌, ◌^◌, Bool, true, false, not, ◌||◌, Option, none, some, ltb,
  leb, ◌==◌, if◌then◌else◌, update,
}

pub record BitmapPage : Type 0 where
  pub page_allocated : ℕ
  pub next_free_page : ℕ
  pub bytes : ℕ → ℕ

-- The constructor.
unfoldable pub empty : BitmapPage
empty = record { page_allocated = 0; next_free_page = 0; bytes = λ _. 0 }

-- `bytes[x >> 3] |= 1 << (x & 7)`, on an `unsigned char`.
pub set : (ℕ → ℕ) → ℕ → ℕ → ℕ
set bytes x = update bytes (x / 8) (bit_or (bytes (x / 8)) (2 ^ (x % 8)) % 256)

-- `bytes[x >> 3] &= 255 ^ (1 << (x & 7))`.
pub reset : (ℕ → ℕ) → ℕ → ℕ → ℕ
reset bytes x = update bytes (x / 8) (bit_and (bytes (x / 8)) (bit_xor 255 (2 ^ (x % 8))) % 256)

-- `(bytes[x >> 3] >> (x & 7)) & 1`.
pub get : (ℕ → ℕ) → ℕ → Bool
get bytes x = bytes (x / 8) / 2 ^ (x % 8) % 2 == 1

module _ (max_chars : ℕ) where
  abbrev pub max_pages : ℕ
  max_pages = max_chars * 8

  pub is_page_free : BitmapPage → ℕ → Bool
  is_page_free b page_offset =
      if leb max_pages page_offset then false else not (get b.bytes page_offset)

  -- `(bytes[byte_index] & (1 << bit_index)) ^ 1`, an integer that is read as a Boolean.
  pub is_page_free_low : BitmapPage → ℕ → ℕ → Bool
  is_page_free_low b byte_index bit_index =
      if leb max_pages ((byte_index * 8 + bit_index) % 2 ^ 32)
      then false
      else not (bit_xor (bit_and (b.bytes byte_index) (2 ^ bit_index)) 1 == 0)

  -- The body of the search for a free page: one page on, and round at the end.
  pub next_page : ℕ → ℕ
  next_page n = if leb max_pages (n + 1) then (n + 1) % max_pages else n + 1

  -- `while (!IsPageFree(next_free_page_)) ...` on fuel.
  pub search : ℕ → BitmapPage → ℕ → Option ℕ
  search zero b next = none
  search (suc fuel) b next = elim (is_page_free b next) [
    | true ↦ some next
    | false ↦ search fuel b (next_page next)
  ]

  -- The `next_free_page_` after an allocation.
  pub advance : BitmapPage → Option BitmapPage
  advance b =
      if b.page_allocated == max_pages
      then some (record b { next_free_page = 0 })
      else elim (search max_pages b b.next_free_page) [
        | none ↦ none
        | some next ↦ some (record b { next_free_page = next })
      ]

  -- The offset that is given out, `none` on a full page, and the page after the call. The outer
  -- `none` is a search that does not end.
  pub allocate_page : BitmapPage → Option (Option ℕ × BitmapPage)
  allocate_page b =
      let taken : BitmapPage = record b {
        page_allocated = (b.page_allocated + 1) % 2 ^ 32;
        bytes = set b.bytes b.next_free_page;
      } in
      if ltb max_pages taken.page_allocated
      then some (none, b)
      else elim (advance taken) [ none ↦ none | some b' ↦ some (some b.next_free_page, b') ]

  -- Whether the page was taken, and the page after the call.
  pub de_allocate_page : BitmapPage → ℕ → Bool × BitmapPage
  de_allocate_page b page_offset =
      if leb max_pages page_offset || is_page_free b page_offset then (false, b) else (
        true,
        record {
          page_allocated = if b.page_allocated == 0 then 2 ^ 32 - 1 else b.page_allocated - 1;
          next_free_page = if b.page_allocated == max_pages then page_offset else b.next_free_page;
          bytes = reset b.bytes page_offset;
        },
      )
