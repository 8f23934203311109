-- ===== src/Page/Bitmap/Low.antt =====
-- `IsPageFreeLow`, which takes the byte and the bit instead of the offset.
use Prim.Native.Nat.{bit_and, bit_xor}
use dis_minisql.Prelude.{ℕ, ◌+◌, ◌*◌, ◌%◌, ◌^◌, ◌<◌, ◌≡◌, refl, true, not, ◌||◌, ◌==◌, arith}
use dis_minisql.Page.Bitmap.{BitmapPage, max_pages, is_page_free_low}
use dis_minisql.Page.Bitmap.Bits.{AreBytes, every, test_at}

low_table :
    every (λ k. every (λ b. k == 0 || not (bit_xor (bit_and b (2 ^ k)) 1 == 0)) 256) 8 ≡ true
unfolding every
low_table = refl

-- On every bit of a byte but the lowest, the low-level test answers that the page is free, whether
-- its bit is set or not.
pub is_page_free_low-true :
    (mc : ℕ) (b : BitmapPage) (byte_index bit_index : ℕ)
    → AreBytes b.bytes
    → bit_index < 8
    → 0 < bit_index
    → byte_index * 8 + bit_index < max_pages mc
    → is_page_free_low mc b byte_index bit_index ≡ true
unfolding is_page_free_low
is_page_free_low-true mc b i k h hk pos l =
    let low : (i * 8 + k) % 2 ^ 32 < max_pages mc = omega (arith, l) in
    ground (arith, low, test_at _ 256 (b.bytes i) (h i) (test_at _ 8 k hk low_table))
