-- ===== src/Storage/Disk/Layout.antt =====
-- The layout of a bitmap page in the file.
use dis_minisql.Prelude.{ℕ, ◌+◌, ◌-◌, ◌^◌, ◌≤◌, ◌<◌, ◌≡◌, refl, arith, fun_ext}
use dis_minisql.Page.Bitmap.{BitmapPage}
use dis_minisql.Storage.Disk.{Bytes, le32, decode, encode, byte_of}

-- Four little-endian bytes give a 32-bit number back.
pub le32-byte_of :
    (x : ℕ) (p : Bytes) (o : ℕ)
    → x < 2 ^ 32
    → p o ≡ byte_of x 0
    → p (o + 1) ≡ byte_of x 1
    → p (o + 2) ≡ byte_of x 2
    → p (o + 3) ≡ byte_of x 3
    → le32 p o ≡ x
unfolding le32 byte_of
le32-byte_of x p o h e0 e1 e2 e3 = omega (arith, e0, e1, e2, e3)

-- A number is read from four bytes.
pub le32-cong :
    (p q : Bytes) (o : ℕ) → ((b : ℕ) → o ≤ b → b < o + 4 → q b ≡ p b) → le32 q o ≡ le32 p o
unfolding le32
le32-cong p q o h = omega (
  arith,
  h o (omega arith) (omega arith),
  h (o + 1) (omega arith) (omega arith),
  h (o + 2) (omega arith) (omega arith),
  h (o + 3) (omega arith) (omega arith),
)

encode_bits : (b : BitmapPage) (o : ℕ) → encode b (o + 8) ≡ b.bytes o
unfolding encode
encode_bits b o = ground (arith, add_sub o)
  where
    add_sub : (o : ℕ) → o + 8 - 8 ≡ o
    add_sub o = omega arith

-- A bitmap that is written to the file is read back.
pub decode-encode :
    (b : BitmapPage) → b.page_allocated < 2 ^ 32 → b.next_free_page < 2 ^ 32 → decode (encode b) ≡ b
unfolding decode encode
decode-encode b h k = λ i. record {
  page_allocated = le32-byte_of b.page_allocated (encode b) 0 h refl refl refl refl i;
  next_free_page = le32-byte_of b.next_free_page (encode b) 4 k refl refl refl refl i;
  bytes = fun_ext {f = λ (o : ℕ). encode b (o + 8)} {g = b.bytes} (encode_bits b) i;
}
