-- ===== src/Memory/Framing.antt =====
-- What a write leaves as it was.
use dis_minisql.Prelude.{
  zero, suc, ℕ, ◌+◌, ◌≤◌, ◌<◌, ◌≡◌, refl, List, [], ◌∷◌, length, arith, update, ◌∙◌, ap,
}
use dis_minisql.Storage.Disk.{Bytes}
use dis_minisql.Memory.{write_bytes, read_bytes, Holds}

pub write_bytes_before :
    (m : Bytes) (o : ℕ) (bs : List ℕ) (i : ℕ) → i < o → write_bytes m o bs i ≡ m i
unfolding write_bytes
write_bytes_before m o [] i h = refl
write_bytes_before m o (b ∷ bs) i h = ground (arith, write_bytes_before (update m o b) (o + 1) bs i)

pub write_bytes_after :
    (m : Bytes) (o : ℕ) (bs : List ℕ) (i : ℕ) → o + length bs ≤ i → write_bytes m o bs i ≡ m i
unfolding write_bytes
write_bytes_after m o [] i h = refl
write_bytes_after m o (b ∷ bs) i h = ground (arith, write_bytes_after (update m o b) (o + 1) bs i)

-- What is written is held.
pub Holds-write_bytes : (m : Bytes) (o : ℕ) (bs : List ℕ) → Holds (write_bytes m o bs) o bs
unfolding write_bytes Holds
Holds-write_bytes m o [] = tt
Holds-write_bytes m o (b ∷ bs) = (
  ground (arith, write_bytes_before (update m o b) (o + 1) bs o),
  Holds-write_bytes (update m o b) (o + 1) bs,
)

-- What is held in a part of a buffer is held in every buffer that agrees there.
pub Holds-cong :
    (m n : Bytes) (o : ℕ) (bs : List ℕ)
    → ((b : ℕ) → o ≤ b → b < o + length bs → n b ≡ m b)
    → Holds m o bs
    → Holds n o bs
unfolding Holds
Holds-cong m n o [] h e = tt
Holds-cong m n o (x ∷ bs) h (e, es) = (
  h o (omega arith) (omega arith) ∙ e,
  Holds-cong m n (o + 1) bs (λ b l u. h b (omega arith) (omega arith)) es,
)

pub read_bytes-cong :
    (m n : Bytes) (o k : ℕ)
    → ((b : ℕ) → o ≤ b → b < o + k → n b ≡ m b)
    → read_bytes n o k ≡ read_bytes m o k
unfolding read_bytes
read_bytes-cong m n o zero h = refl
read_bytes-cong m n o (suc k) h = ground (
  arith,
  h o (omega arith) (omega arith),
  read_bytes-cong m n (o + 1) k (λ b l u. h b (omega arith) (omega arith)),
)

-- Bytes that were moved are read from where they were moved to.
pub read_bytes-moved :
    (m n : Bytes) (o s k : ℕ)
    → ((b : ℕ) → o ≤ b → b < o + k → n (b + s) ≡ m b)
    → read_bytes n (o + s) k ≡ read_bytes m o k
unfolding read_bytes
read_bytes-moved m n o s zero h = refl
read_bytes-moved m n o s (suc k) h = ground (
  arith,
  h o (omega arith) (omega arith),
  ap (λ a. read_bytes n a k) {x = o + s + 1} {y = o + 1 + s} (omega arith),
  read_bytes-moved m n (o + 1) s k (λ b l u. h b (omega arith) (omega arith)),
)

pub read_bytes-shifted :
    (m n : Bytes) (o a k : ℕ)
    → ((t : ℕ) → t < k → n (a + t) ≡ m (o + t))
    → read_bytes n a k ≡ read_bytes m o k
unfolding read_bytes
read_bytes-shifted m n o a zero h = refl
read_bytes-shifted m n o a (suc k) h = ground (
  arith,
  ap n {x = a + 0} {y = a} (omega arith),
  ap m {x = o + 0} {y = o} (omega arith),
  h 0 (omega arith),
  read_bytes-shifted m n (o + 1) (a + 1) k next,
)
  where
    next : (t : ℕ) → t < k → n (a + 1 + t) ≡ m (o + 1 + t)
    next t l =
        ap n {x = a + 1 + t} {y = a + suc t} (omega arith)
        ∙ h (suc t) (omega arith)
        ∙ ap m {x = o + suc t} {y = o + 1 + t} (omega arith)
