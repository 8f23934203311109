-- ===== src/Page/Bitmap/Bits.antt =====
-- The bits of a bitmap page: what `set` and `reset` change, and their number.
use Prim.Native.Nat.{bit_and, bit_or, bit_xor}
use dis_minisql.Prelude.{
  ℕ, zero, suc, ◌+◌, ◌/◌, ◌%◌, ◌^◌, ◌<◌, ◌≤◌, ◌≡◌, refl, sym, ap, Bool, true, false, not, ◌||◌,
  ◌&&◌, ◌==◌, if◌then◌else◌, arith, ◌≢◌, Bool-cases, inl, inr,
}
use native.Mathlib.Decide.{ℕ_discrete}
use dis_minisql.Page.Bitmap.{set, reset, get}

-- A test on every number under a bound, by evaluation.
unfoldable pub every : (ℕ → Bool) → ℕ → Bool
every test zero = true
every test (suc top) = every test top && test top

pub test_at : (test : ℕ → Bool) (top i : ℕ) → i < top → every test top ≡ true → test i ≡ true
unfolding every
test_at test zero i below passed = absurd (omega arith)
test_at test (suc top) i below passed = ground (arith, test_at test top i)

abbrev bit : ℕ → ℕ → Bool
bit b k = b / 2 ^ k % 2 == 1

abbrev same : Bool → Bool → Bool
same true b = b
same false b = not b

set_table :
    every
      (λ k.
        every (λ j. every (λ b. same (bit (bit_or b (2 ^ k) % 256) j) (k == j || bit b j)) 256) 8)
      8
    ≡ true
unfolding every
set_table = refl

reset_table :
    every
      (λ k.
        every
          (λ j.
            every
              (λ b. same (bit (bit_and b (bit_xor 255 (2 ^ k)) % 256) j) (not (k == j) && bit b j))
              256)
          8)
      8
    ≡ true
unfolding every
reset_table = refl

same→eq : (a b : Bool) → same a b ≡ true → a ≡ b
same→eq true b h = ground arith
same→eq false b h = ground arith

bit-set :
    (b k j : ℕ) → b < 256 → k < 8 → j < 8 → bit (bit_or b (2 ^ k) % 256) j ≡ (k == j || bit b j)
bit-set b k j hb hk hj =
    same→eq _ _ (test_at _ 256 b hb (test_at _ 8 j hj (test_at _ 8 k hk set_table)))

bit-reset :
    (b k j : ℕ)
    → b < 256
    → k < 8
    → j < 8
    → bit (bit_and b (bit_xor 255 (2 ^ k)) % 256) j ≡ (not (k == j) && bit b j)
bit-reset b k j hb hk hj =
    same→eq _ _ (test_at _ 256 b hb (test_at _ 8 j hj (test_at _ 8 k hk reset_table)))

-- Every element of the array is a byte.
abbrev pub AreBytes : (ℕ → ℕ) → Type 0
AreBytes bytes = (i : ℕ) → bytes i < 256

pub set-AreBytes : (bytes : ℕ → ℕ) (x : ℕ) → AreBytes bytes → AreBytes (set bytes x)
unfolding set
set-AreBytes bytes x h i = ground (arith, h i)

pub reset-AreBytes : (bytes : ℕ → ℕ) (x : ℕ) → AreBytes bytes → AreBytes (reset bytes x)
unfolding reset
reset-AreBytes bytes x h i = ground (arith, h i)

-- Two positions in one byte are equal if their bits are, and two in different bytes are not.
==_mod : (x y : ℕ) → x / 8 ≡ y / 8 → (x == y) ≡ (x % 8 == y % 8)
==_mod x y e = ground arith

==_div : (x y : ℕ) → x / 8 ≢ y / 8 → (x == y) ≡ false
==_div x y ne = ground arith

-- `set` changes one bit.
pub get-set :
    (bytes : ℕ → ℕ) (x y : ℕ) → AreBytes bytes → get (set bytes x) y ≡ (x == y || get bytes y)
unfolding set get
get-set bytes x y h = elim (ℕ_discrete (x / 8) (y / 8)) [
  | yes e ↦ ground (
    arith,
    bit-set (bytes (x / 8)) (x % 8) (y % 8) (h (x / 8)) (omega arith) (omega arith),
    ==_mod x y e,
  )
  | no ne ↦ ground (arith, ==_div x y ne)
]

-- `reset` changes one bit.
pub get-reset :
    (bytes : ℕ → ℕ) (x y : ℕ)
    → AreBytes bytes
    → get (reset bytes x) y ≡ (not (x == y) && get bytes y)
unfolding reset get
get-reset bytes x y h = elim (ℕ_discrete (x / 8) (y / 8)) [
  | yes e ↦ ground (
    arith,
    bit-reset (bytes (x / 8)) (x % 8) (y % 8) (h (x / 8)) (omega arith) (omega arith),
    ==_mod x y e,
  )
  | no ne ↦ ground (arith, ==_div x y ne)
]

-- The number of set bits below a bound.
unfoldable pub count : (ℕ → Bool) → ℕ → ℕ
count p zero = 0
count p (suc n) = (if p n then 1 else 0) + count p n

pub count-le : (p : ℕ → Bool) (n : ℕ) → count p n ≤ n
unfolding count
count-le p zero = omega arith
count-le p (suc n) = ground (arith, count-le p n)

pub count-cong : (p q : ℕ → Bool) (n : ℕ) → ((i : ℕ) → i < n → p i ≡ q i) → count p n ≡ count q n
unfolding count
count-cong p q zero h = refl
count-cong p q (suc n) h = ground (arith, h n, count-cong p q n (λ i l. h i (omega arith)))

-- Setting a bit that was clear adds one.
pub count-add :
    (p q : ℕ → Bool) (x n : ℕ)
    → x < n
    → p x ≡ false
    → q x ≡ true
    → ((i : ℕ) → x ≢ i → q i ≡ p i)
    → count q n ≡ count p n + 1
unfolding count
count-add p q x zero l hp hq h = absurd (omega arith)
count-add p q x (suc n) l hp hq h = elim (ℕ_discrete x n) [
  | yes e ↦ ground (arith, ap p e, ap q e, count-cong p q n (λ i k. sym (h i (omega arith))))
  | no ne ↦ ground (arith, h n, count-add p q x n)
]

-- Below a bound that the number of set bits does not reach, some bit is clear.
pub clear_bit : (p : ℕ → Bool) (n : ℕ) → count p n < n → (x : ℕ) × (x < n) × (p x ≡ false)
unfolding count
clear_bit p zero h = absurd (omega arith)
clear_bit p (suc n) h = elim (Bool-cases (p n)) [
  | inl e ↦ let (x, l, c) = clear_bit p n (ground arith) in (x, omega arith, c)
  | inr e ↦ (n, omega arith, e)
]
