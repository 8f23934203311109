-- ===== src/Memory.antt =====
-- include/common/macros.h: what the code writes to a buffer and reads from it. A pointer into a
-- buffer is the buffer's bytes with an offset.
pub mod Reading
pub mod Framing
use dis_minisql.Prelude.{ℕ, zero, suc, ◌+◌, ◌≡◌, List, [], ◌∷◌, update}
use dis_minisql.Storage.Disk.{Bytes, byte_of}

-- What `MACH_WRITE_UINT32` writes.
unfoldable pub uint32_bytes : ℕ → List ℕ
uint32_bytes x = byte_of x 0 ∷ byte_of x 1 ∷ byte_of x 2 ∷ byte_of x 3 ∷ []

-- A write of bytes one after another, as by `memcpy`.
unfoldable pub write_bytes : Bytes → ℕ → List ℕ → Bytes
write_bytes m o [] = m
write_bytes m o (b ∷ bs) = write_bytes (update m o b) (o + 1) bs

-- The bytes that `std::string(buf, len)` and `memcpy` copy.
unfoldable pub read_bytes : Bytes → ℕ → ℕ → List ℕ
read_bytes m o zero = []
read_bytes m o (suc n) = m o ∷ read_bytes m (o + 1) n

-- The bytes stand in the buffer from an offset on.
unfoldable pub Holds : Bytes → ℕ → List ℕ → Type 0
Holds m o [] = Unit
Holds m o (b ∷ bs) = (m o ≡ b) × Holds m (o + 1) bs
