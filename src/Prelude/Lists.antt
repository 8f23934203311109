-- ===== src/Prelude/Lists.antt =====
-- Lists with native lengths and positions, and membership of numbers as a test.
use Prim.Native.Nat.{ℕ, zero, suc, ◌+◌}
use mathlib.Core.Bool.{Bool, true, false, ◌||◌}
use mathlib.Core.List.{List, [], ◌∷◌, ◌++◌}
use mathlib.Core.Option.{Option, none, some}
use mathlib.Core.Path.{◌≡◌, refl}
use native.Mathlib.Omega.{arith}
use dis_minisql.Prelude.Tests.{◌==◌, if◌then◌else◌}

module _ {ℓ} {A : Type ℓ} where
  abbrev pub length : List A → ℕ
  length [] = 0
  length (x ∷ xs) = suc (length xs)

  abbrev pub get_elem? : List A → ℕ → Option A
  get_elem? [] i = none
  get_elem? (x ∷ xs) zero = some x
  get_elem? (x ∷ xs) (suc i) = get_elem? xs i

  -- The element at a position, or the default out of bounds.
  abbrev pub get_or : List A → ℕ → A → A
  get_or [] i d = d
  get_or (x ∷ xs) zero d = x
  get_or (x ∷ xs) (suc i) d = get_or xs i d

  -- A write out of bounds changes nothing.
  abbrev pub set : List A → ℕ → A → List A
  set [] i v = []
  set (x ∷ xs) zero v = v ∷ xs
  set (x ∷ xs) (suc i) v = x ∷ set xs i v

  abbrev pub last_or : A → List A → A
  last_or d [] = d
  last_or d (x ∷ xs) = last_or x xs

  pub length-append : (xs ys : List A) → length (xs ++ ys) ≡ length xs + length ys
  length-append [] ys = omega arith
  length-append (x ∷ xs) ys = omega (arith, length-append xs ys)

  pub length-set : (xs : List A) (i : ℕ) (v : A) → length (set xs i v) ≡ length xs
  length-set [] i v = refl
  length-set (x ∷ xs) zero v = refl
  length-set (x ∷ xs) (suc i) v = omega (arith, length-set xs i v)

abbrev pub mem : ℕ → List ℕ → Bool
mem a [] = false
mem a (x ∷ xs) = a == x || mem a xs

-- The list without the first occurrence of a number.
abbrev pub erase : ℕ → List ℕ → List ℕ
erase a [] = []
erase a (x ∷ xs) = if a == x then xs else x ∷ erase a xs

-- No number stands twice.
abbrev pub Distinct : List ℕ → Type 0
Distinct [] = Unit
Distinct (x ∷ xs) = (mem x xs ≡ false) × Distinct xs

pub mem-erase_ne : (a b : ℕ) (xs : List ℕ) → mem a xs ≡ false → mem a (erase b xs) ≡ false
mem-erase_ne a b [] h = refl
mem-erase_ne a b (x ∷ xs) h = ground (arith, mem-erase_ne a b xs)

pub erase-Distinct : (a : ℕ) (xs : List ℕ) → Distinct xs → Distinct (erase a xs)
erase-Distinct a [] d = tt
erase-Distinct a (x ∷ xs) d = ground (arith, erase-Distinct a xs, mem-erase_ne x a xs)

pub mem-erase_self : (a : ℕ) (xs : List ℕ) → Distinct xs → mem a (erase a xs) ≡ false
mem-erase_self a [] d = refl
mem-erase_self a (x ∷ xs) d = ground (arith, mem-erase_self a xs)

pub length-erase : (a : ℕ) (xs : List ℕ) → mem a xs ≡ true → length (erase a xs) + 1 ≡ length xs
length-erase a [] h = cc
length-erase a (x ∷ xs) h = ground (arith, length-erase a xs)

pub mem-erase :
    (a b : ℕ) (xs : List ℕ)
    → Distinct xs
    → mem a (erase b xs) ≡ (if b == a then false else mem a xs)
mem-erase a b [] d = ground arith
mem-erase a b (x ∷ xs) d = ground (arith, mem-erase a b xs)

pub mem-last_or : (a : ℕ) (xs : List ℕ) → mem (last_or a xs) (a ∷ xs) ≡ true
mem-last_or a [] = ground arith
mem-last_or a (x ∷ xs) = ground (arith, mem-last_or x xs)

pub erase_absent : (a : ℕ) (xs : List ℕ) → mem a xs ≡ false → erase a xs ≡ xs
erase_absent a [] h = refl
erase_absent a (x ∷ xs) h = ground (arith, erase_absent a xs)
