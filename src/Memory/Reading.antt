-- ===== src/Memory/Reading.antt =====
-- Reading back what a buffer holds.
use dis_minisql.Prelude.{
  zero, suc, ℕ, ◌+◌, ◌^◌, ◌<◌, ◌≡◌, refl, List, [], ◌∷◌, ◌++◌, length, arith, subst, sym,
  length-append,
}
use dis_minisql.Storage.Disk.{Bytes, le32}
use dis_minisql.Storage.Disk.Layout.{le32-byte_of}
use dis_minisql.Memory.{uint32_bytes, read_bytes, Holds}

pub read_bytes-Holds :
    (m : Bytes) (o : ℕ) (bs : List ℕ) → Holds m o bs → read_bytes m o (length bs) ≡ bs
unfolding read_bytes Holds
read_bytes-Holds m o [] h = refl
read_bytes-Holds m o (b ∷ bs) h = ground (arith, read_bytes-Holds m (o + 1) bs)

pub length-uint32_bytes : (x : ℕ) → length (uint32_bytes x) ≡ 4
unfolding uint32_bytes
length-uint32_bytes x = refl

-- A 32-bit number is read back.
pub le32-Holds : (m : Bytes) (o x : ℕ) → x < 2 ^ 32 → Holds m o (uint32_bytes x) → le32 m o ≡ x
unfolding uint32_bytes Holds
le32-Holds m o x b (e0, (e1, (e2, (e3, _)))) =
    le32-byte_of x m o b e0 (ground arith) (ground arith) (ground arith)

-- What is held is held in parts.
pub Holds-append :
    (m : Bytes) (o : ℕ) (xs ys : List ℕ)
    → Holds m o (xs ++ ys)
    → Holds m o xs × Holds m (o + length xs) ys
unfolding Holds
Holds-append m o [] ys h = (tt, subst (λ p. Holds m p ys) (omega arith) h)
Holds-append m o (x ∷ xs) ys (e, h) =
    let (l, r) = Holds-append m (o + 1) xs ys h in
    ((e, l), subst (λ p. Holds m p ys) (omega arith) r)

-- A 32-bit number in front of what is held is read, and the rest stands behind it.
pub Holds-word :
    (m : Bytes) (o p x : ℕ) (rest : List ℕ)
    → p ≡ o + 4
    → x < 2 ^ 32
    → Holds m o (uint32_bytes x ++ rest)
    → (le32 m o ≡ x) × Holds m p rest
Holds-word m o p x rest e b h =
    let (l, r) = Holds-append m o (uint32_bytes x) rest h in
    (le32-Holds m o x b l, subst (λ k. Holds m k rest) (omega (arith, length-uint32_bytes x)) r)

-- Characters in front of what is held are read, and the rest stands behind them.
pub Holds-chars :
    (m : Bytes) (o p : ℕ) (s rest : List ℕ)
    → p ≡ o + length s
    → Holds m o (s ++ rest)
    → (read_bytes m o (length s) ≡ s) × Holds m p rest
Holds-chars m o p s rest e h =
    let (l, r) = Holds-append m o s rest h in
    (read_bytes-Holds m o s l, subst (λ k. Holds m k rest) (sym e) r)

pub length-word : (x : ℕ) (rest : List ℕ) → length (uint32_bytes x ++ rest) ≡ 4 + length rest
length-word x rest = omega (arith, length-append (uint32_bytes x) rest, length-uint32_bytes x)

pub Holds-read_bytes : (m : Bytes) (o n : ℕ) → Holds m o (read_bytes m o n)
unfolding read_bytes Holds
Holds-read_bytes m o zero = tt
Holds-read_bytes m o (suc n) = (refl, Holds-read_bytes m (o + 1) n)

pub length-read_bytes : (m : Bytes) (o n : ℕ) → length (read_bytes m o n) ≡ n
unfolding read_bytes
length-read_bytes m o zero = refl
length-read_bytes m o (suc n) = omega (arith, length-read_bytes m (o + 1) n)
