-- ===== src/Record/Row/Header.antt =====
-- The bitmap of the null fields: what the loop of `SerializeTo` sets is what the loop of
-- `DeserializeFrom` tests.
use Prim.Native.Nat.{bit_or, max, digits, bit_or-bitwise}
use native.Mathlib.Nat.{add-mul-div_left, div-eq_of_lt}
use dis_minisql.Prelude.{
  ℕ, zero, suc, ◌+◌, ◌*◌, ◌/◌, ◌%◌, ◌^◌, ◌<◌, ◌≤◌, ◌≡◌, refl, Bool, true, false, some, List, [],
  ◌∷◌, length, if◌then◌else◌, arith, sym, ◌∙◌, ap, Bool-cases, inl, inr, lt→ltb,
}
use dis_minisql.Record.Field.{Field, is_null}
use dis_minisql.Record.Row.{null_bitmap_from, has_bit}

or_digits_fuel :
    (n m a b : ℕ) → a ≤ n → a ≤ m → digits (λ b. b) max n a b ≡ digits (λ b. b) max m a b
or_digits_fuel zero zero a b p q = refl
or_digits_fuel zero (suc m) zero b p q = refl
or_digits_fuel zero (suc m) (suc a) b p q = absurd (omega arith)
or_digits_fuel (suc n) zero zero b p q = refl
or_digits_fuel (suc n) zero (suc a) b p q = absurd (omega arith)
or_digits_fuel (suc n) (suc m) zero b p q = refl
or_digits_fuel (suc n) (suc m) (suc a) b p q =
    omega (arith, or_digits_fuel n m (suc a / 2) (b / 2) (omega arith) (omega arith))

zero-bit_or : (b : ℕ) → bit_or 0 b ≡ b
zero-bit_or b = bit_or-bitwise 0 b

zero-max : (b : ℕ) → max 0 b ≡ b
zero-max b = omega arith

max_zero : (a : ℕ) → max a 0 ≡ a
max_zero a = omega arith

-- The disjunction of two numbers, one digit at a time.
bit_or_step : (a b : ℕ) → bit_or a b ≡ bit_or (a / 2) (b / 2) * 2 + max (a % 2) (b % 2)
bit_or_step zero b = omega (arith, zero-bit_or b, zero-bit_or (b / 2), zero-max (b % 2))
bit_or_step (suc a) b = omega (
  arith,
  bit_or-bitwise (suc a) b,
  bit_or-bitwise (suc a / 2) (b / 2),
  or_digits_fuel a (suc a / 2) (suc a / 2) (b / 2) (omega arith) (omega arith),
)

-- A bit above a number is added to it.
bit_or-pow : (i a : ℕ) → a < 2 ^ i → bit_or a (2 ^ i) ≡ a + 2 ^ i
bit_or-pow zero zero h = zero-bit_or 1
bit_or-pow zero (suc a) h = absurd (omega arith)
bit_or-pow (suc i) a h = omega (
  arith,
  bit_or_step a (2 ^ suc i),
  halve i,
  even i,
  ap (λ k. bit_or (a / 2) k) (halve i),
  ap (λ k. max (a % 2) k) (even i),
  max_zero (a % 2),
  bit_or-pow i (a / 2) (omega arith),
)
  where
    halve : (i : ℕ) → 2 ^ suc i / 2 ≡ 2 ^ i
    halve i = omega arith

    even : (i : ℕ) → 2 ^ suc i % 2 ≡ 0
    even i = omega arith

-- The bits of the null fields, the first field lowest.
unfoldable pub null_bits : List Field → ℕ
null_bits [] = 0
null_bits (f ∷ fields) = (if is_null f then 1 else 0) + 2 * null_bits fields

pow_next : (i : ℕ) → 2 ^ (i + 1) ≡ 2 * 2 ^ i
pow_next i = ap (λ k. 2 ^ k) {x = i + 1} {y = suc i} (omega arith) ∙ pow_suc
  where
    pow_suc : 2 ^ suc i ≡ 2 * 2 ^ i
    pow_suc = omega arith

pow_pos : (i : ℕ) → 1 ≤ 2 ^ i
pow_pos zero = omega arith
pow_pos (suc i) = omega (arith, pow_pos i)

distribute : (p n : ℕ) → p * (1 + 2 * n) ≡ p + 2 * p * n
distribute p n = grind arith

set_bit :
    (i acc n : ℕ) → acc + 2 ^ i + 2 ^ (i + 1) * n ≡ acc + 2 ^ i * ((if true then 1 else 0) + 2 * n)
set_bit i acc n = grind (arith, pow_next i, distribute (2 ^ i) n)

clear_bit : (i acc n : ℕ) → acc + 2 ^ (i + 1) * n ≡ acc + 2 ^ i * ((if false then 1 else 0) + 2 * n)
clear_bit i acc n = grind (arith, pow_next i)

pub null_bitmap_from-null_bits :
    (fields : List Field) (i acc : ℕ)
    → acc < 2 ^ i
    → i + length fields ≤ 32
    → null_bitmap_from fields i acc ≡ some (acc + 2 ^ i * null_bits fields)
unfolding null_bitmap_from null_bits
null_bitmap_from-null_bits [] i acc h b = ground arith
null_bitmap_from-null_bits (f ∷ fields) i acc h b = elim (Bool-cases (is_null f)) [
  | inl e ↦ rw (
    e,
    lt→ltb i 32 (omega arith),
    bit_or-pow i acc h,
    null_bitmap_from-null_bits fields (i + 1) (acc + 2 ^ i) (omega (arith, pow_next i))
        (omega arith),
    set_bit i acc (null_bits fields),
  )
  | inr e ↦ rw (
    e,
    null_bitmap_from-null_bits fields (i + 1) acc (omega (arith, pow_next i)) (omega arith),
    clear_bit i acc (null_bits fields),
  )
]

-- The bitmap is a number of 32 bits.
pub null_bits-lt : (fields : List Field) → null_bits fields < 2 ^ length fields
unfolding null_bits
null_bits-lt [] = omega arith
null_bits-lt (f ∷ fields) = ground (arith, null_bits-lt fields)

-- Behind the bits that were set before, the lowest bit tells of the next field.
pub has_bit-next :
    (i acc n : ℕ) (b : Bool)
    → acc < 2 ^ i
    → has_bit (acc + 2 ^ i * ((if b then 1 else 0) + 2 * n)) i ≡ b
has_bit-next i acc n b h =
    let k = (if b then 1 else 0) + 2 * n in
    ground (arith, add-mul-div_left acc k (pow_pos i), div-eq_of_lt h)

-- The bits of the fields after the first stand above the bit of the first.
pub rest_bits :
    (i acc n : ℕ) (b : Bool)
    → acc + 2 ^ i * ((if b then 1 else 0) + 2 * n)
      ≡ acc + (if b then 2 ^ i else 0) + 2 ^ (i + 1) * n
rest_bits i acc n true = sym (set_bit i acc n)
rest_bits i acc n false = omega (arith, clear_bit i acc n)

pub rest_bits-lt :
    (i acc : ℕ) (b : Bool) → acc < 2 ^ i → acc + (if b then 2 ^ i else 0) < 2 ^ (i + 1)
rest_bits-lt i acc b h = ground (arith, pow_next i)
