-- ===== src/Page/TablePage/Access.antt =====
-- The fields of a table page do not disturb each other.
use dis_minisql.Prelude.{
  ℕ, ◌+◌, ◌*◌, ◌^◌, ◌<◌, ◌≤◌, ◌≡◌, ◌⊎◌, inl, inr, List, length, arith, ◌≢◌, ltb, ltb→lt, ltb→le,
  Bool-cases,
}
use dis_minisql.Storage.Disk.{Bytes, le32}
use dis_minisql.Storage.Disk.Layout.{le32-cong}
use dis_minisql.Memory.{uint32_bytes, write_bytes}
use dis_minisql.Memory.Reading.{le32-Holds, length-uint32_bytes}
use dis_minisql.Memory.Framing.{write_bytes_before, write_bytes_after, Holds-write_bytes}
use dis_minisql.Page.TablePage.{set32}

-- Two ranges of a page that have no byte in common.
abbrev pub Apart : ℕ → ℕ → ℕ → ℕ → Type 0
Apart a m b n = (a + m ≤ b) ⊎ (b + n ≤ a)

pub write_bytes-Apart :
    (p : Bytes) (o : ℕ) (bs : List ℕ) (b : ℕ) → Apart o (length bs) b 1 → write_bytes p o bs b ≡ p b
write_bytes-Apart p o bs b (inl h) = write_bytes_after p o bs b h
write_bytes-Apart p o bs b (inr h) = write_bytes_before p o bs b (omega (arith, h))

pub le32-write_bytes :
    (p : Bytes) (o : ℕ) (bs : List ℕ) (b : ℕ)
    → Apart o (length bs) b 4
    → le32 (write_bytes p o bs) b ≡ le32 p b
le32-write_bytes p o bs b (inl h) =
    le32-cong p (write_bytes p o bs) b λ i l u. write_bytes_after p o bs i (omega arith)
le32-write_bytes p o bs b (inr h) =
    le32-cong p (write_bytes p o bs) b λ i l u. write_bytes_before p o bs i (omega arith)

pub set32-Apart : (p : Bytes) (o x b : ℕ) → Apart o 4 b 1 → set32 p o x b ≡ p b
unfolding set32
set32-Apart p o x b (inl h) =
    write_bytes_after p o (uint32_bytes x) b (omega (arith, length-uint32_bytes x))
set32-Apart p o x b (inr h) = write_bytes_before p o (uint32_bytes x) b (omega arith)

pub le32-set32-Apart : (p : Bytes) (o x b : ℕ) → Apart o 4 b 4 → le32 (set32 p o x) b ≡ le32 p b
le32-set32-Apart p o x b (inl h) =
    le32-cong p (set32 p o x) b λ i l u. set32-Apart p o x i (inl (omega arith))
le32-set32-Apart p o x b (inr h) =
    le32-cong p (set32 p o x) b λ i l u. set32-Apart p o x i (inr (omega arith))

-- A number of 32 bits that is stored is read.
pub le32-set32 : (p : Bytes) (o x : ℕ) → x < 2 ^ 32 → le32 (set32 p o x) o ≡ x
unfolding set32
le32-set32 p o x h =
    le32-Holds (write_bytes p o (uint32_bytes x)) o x h (Holds-write_bytes p o (uint32_bytes x))

pub Apart-cong :
    (a b m n : ℕ) (c d k l : ℕ) → c ≡ a → d ≡ b → k ≡ m → l ≡ n → Apart a m b n → Apart c k d l
Apart-cong a b m n c d k l e f g h (inl x) = inl (omega arith)
Apart-cong a b m n c d k l e f g h (inr x) = inr (omega arith)

-- The fields of the slots have no byte in common.
pub sizes-Apart : (i j : ℕ) → j ≢ i → Apart (28 + 8 * i) 4 (28 + 8 * j) 4
sizes-Apart i j n = elim (Bool-cases (ltb i j)) [
  | inl l ↦ inl (omega (arith, ltb→lt i j l))
  | inr l ↦ inr (ground (arith, n, ltb→le i j l))
]

pub offsets-Apart : (i j : ℕ) → j ≢ i → Apart (24 + 8 * i) 4 (24 + 8 * j) 4
offsets-Apart i j n = elim (Bool-cases (ltb i j)) [
  | inl l ↦ inl (omega (arith, ltb→lt i j l))
  | inr l ↦ inr (ground (arith, n, ltb→le i j l))
]

pub size_offset-Apart : (i j : ℕ) → Apart (28 + 8 * i) 4 (24 + 8 * j) 4
size_offset-Apart i j = elim (Bool-cases (ltb i j)) [
  | inl l ↦ inl (omega (arith, ltb→lt i j l))
  | inr l ↦ inr (omega (arith, ltb→le i j l))
]

pub offset_size-Apart : (i j : ℕ) → Apart (24 + 8 * i) 4 (28 + 8 * j) 4
offset_size-Apart i j = elim (Bool-cases (ltb j i)) [
  | inl l ↦ inr (omega (arith, ltb→lt j i l))
  | inr l ↦ inl (omega (arith, ltb→le j i l))
]
