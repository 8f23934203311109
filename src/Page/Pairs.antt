-- ===== src/Page/Pairs.antt =====
-- The arrays of pairs in the pages of the B+ tree (page/b_plus_tree_leaf_page.cpp,
-- page/b_plus_tree_internal_page.cpp): `memcpy` and the loops that make room for a pair and close
-- the gap of one.
use native.Mathlib.Decide.{ℕ_discrete}
use dis_minisql.Prelude.{
  ◌≤◌, ℕ, zero, suc, ◌+◌, ◌-◌, ◌<◌, ◌≡◌, refl, ◌&&◌, ltb, leb, if◌then◌else◌, update, arith, List,
  [], ◌∷◌, ◌++◌, ap, ◌∙◌,
}

-- `memcpy` of `n` pairs, from `src` on, to `dest` on.
unfoldable pub copy_pairs {ℓ} : {A : Type ℓ} → (ℕ → A) → ℕ → (ℕ → A) → ℕ → ℕ → (ℕ → A)
copy_pairs to dest from src n i =
    if leb dest i && ltb i (dest + n) then from (src + (i - dest)) else to i

-- `for (int i = index + n; i > index; i--) pairs[i] = pairs[i - 1];`
unfoldable pub shift_up {ℓ} : {A : Type ℓ} → ℕ → ℕ → (ℕ → A) → (ℕ → A)
shift_up zero index pairs = pairs
shift_up (suc n) index pairs = shift_up n index (update pairs (index + suc n) (pairs (index + n)))

-- `for (int i = index; i < index + n; i++) pairs[i] = pairs[i + 1];`
unfoldable pub shift_down {ℓ} : {A : Type ℓ} → ℕ → ℕ → (ℕ → A) → (ℕ → A)
shift_down zero index pairs = pairs
shift_down (suc n) index pairs = shift_down n (index + 1) (update pairs index (pairs (index + 1)))

-- What the two loops leave at each index.
pub shift_up_lem {ℓ} :
    {A : Type ℓ} (n index : ℕ) (pairs : ℕ → A) (j : ℕ)
    → shift_up n index pairs j
      ≡ (if ltb index j && leb j (index + n) then pairs (j - 1) else pairs j)
unfolding shift_up
shift_up_lem zero index pairs j = ground arith
shift_up_lem (suc n) index pairs j =
    shift_up_lem n index (update pairs (index + suc n) (pairs (index + n))) j ∙ step
  where
    moved : index + suc n ≡ j → index + n ≡ j - 1
    moved e = omega (arith, e)

    step :
        (if ltb index j && leb j (index + n)
          then update pairs (index + suc n) (pairs (index + n)) (j - 1)
          else update pairs (index + suc n) (pairs (index + n)) j)
        ≡ (if ltb index j && leb j (index + suc n) then pairs (j - 1) else pairs j)
    step = elim (ℕ_discrete (index + suc n) j) [
      | yes e ↦ ground (arith, ap pairs (moved e), e)
      | no ne ↦ ground arith
    ]

pub shift_down_lem {ℓ} :
    {A : Type ℓ} (n index : ℕ) (pairs : ℕ → A) (j : ℕ)
    → shift_down n index pairs j
      ≡ (if leb index j && ltb j (index + n) then pairs (j + 1) else pairs j)
unfolding shift_down
shift_down_lem zero index pairs j = ground arith
shift_down_lem (suc n) index pairs j = ground (
  arith,
  shift_down_lem n (index + 1) (update pairs index (pairs (index + 1))) j,
  ap pairs {x = j} {y = index},
  ap pairs {x = j + 1} {y = index + 1},
)

-- The `n` pairs from index `i` on.
abbrev pub entries_from {ℓ} : {A : Type ℓ} → (ℕ → A) → ℕ → ℕ → List A
entries_from pairs i zero = []
entries_from pairs i (suc n) = pairs i ∷ entries_from pairs (i + 1) n

pub entries_from-eq {ℓ} :
    {A : Type ℓ} (f g : ℕ → A) (i k n : ℕ)
    → ((j : ℕ) → j < n → f (i + j) ≡ g (k + j))
    → entries_from f i n ≡ entries_from g k n
entries_from-eq f g i k zero h = refl
entries_from-eq f g i k (suc n) h =
    ap (λ x. x ∷ entries_from f (i + 1) n)
      (ap f (omega arith) ∙ h 0 (omega arith) ∙ ap g (omega arith))
    ∙ ap (λ xs. g k ∷ xs)
        (entries_from-eq f g (i + 1) (k + 1) n
          λ j l. ap f (omega arith) ∙ h (j + 1) (omega arith) ∙ ap g (omega arith))

pub entries_from-add {ℓ} :
    {A : Type ℓ} (f : ℕ → A) (i n m : ℕ)
    → entries_from f i (n + m) ≡ entries_from f i n ++ entries_from f (i + n) m
entries_from-add f i zero m =
    ap (λ k. entries_from f i k) {x = 0 + m} {y = m} (omega arith)
    ∙ entries_from-eq f f i (i + 0) m λ j l. ap f (omega arith)
entries_from-add f i (suc n) m =
    ap (λ k. entries_from f i k) {x = suc n + m} {y = suc (n + m)} (omega arith)
    ∙ ap (λ xs. f i ∷ xs)
        (entries_from-add f (i + 1) n m
          ∙ ap (λ k. entries_from f (i + 1) n ++ entries_from f k m) (omega arith))

-- Pairs that are copied behind the pairs of an array follow them.
pub copy_pairs-entries_from {ℓ} :
    {A : Type ℓ} (to from : ℕ → A) (size src n : ℕ)
    → entries_from (copy_pairs to size from src n) 0 (size + n)
      ≡ entries_from to 0 size ++ entries_from from src n
unfolding copy_pairs
copy_pairs-entries_from to from size src n =
    entries_from-add (copy_pairs to size from src n) 0 size n
    ∙ ap (λ xs. xs ++ entries_from (copy_pairs to size from src n) (0 + size) n)
        (entries_from-eq (copy_pairs to size from src n) to 0 0 size λ j l. ground arith)
    ∙ ap (λ xs. entries_from to 0 size ++ xs)
        (entries_from-eq (copy_pairs to size from src n) from (0 + size) src n
          λ j l. ground (arith, copied j l))
  where
    copied : (j : ℕ) → j < n → from (src + (0 + size + j - size)) ≡ from (src + j)
    copied j l = ap from (omega arith)

-- Making room for a pair at an index and writing it there inserts it.
pub shift_up-entries_from {ℓ} :
    {A : Type ℓ} (pairs : ℕ → A) (n index : ℕ) (x : A)
    → index ≤ n
    → entries_from (update (shift_up (n - index) index pairs) index x) 0 (n + 1)
      ≡ entries_from pairs 0 index ++ (x ∷ entries_from pairs index (n - index))
shift_up-entries_from {A = A} pairs n index x h =
    ap (entries_from grown 0) {x = n + 1} {y = index + suc (n - index)} (omega arith)
    ∙ entries_from-add grown 0 index (suc (n - index))
    ∙ ap (λ xs. xs ++ entries_from grown (0 + index) (suc (n - index)))
        (entries_from-eq grown pairs 0 0 index
          λ j l. ground (arith, shift_up_lem (n - index) index pairs (0 + j)))
    ∙ ap (λ y. entries_from pairs 0 index ++ (y ∷ entries_from grown (0 + index + 1) (n - index)))
        {x = grown (0 + index)} {y = x} (ground arith)
    ∙ ap (λ xs. entries_from pairs 0 index ++ (x ∷ xs))
        (entries_from-eq grown pairs (0 + index + 1) index (n - index)
          λ j l. ground (arith, shift_up_lem (n - index) index pairs (0 + index + 1 + j), moved j))
  where
    grown : ℕ → A
    grown = update (shift_up (n - index) index pairs) index x

    moved : (j : ℕ) → pairs (0 + index + 1 + j - 1) ≡ pairs (index + j)
    moved j = ap pairs (omega arith)

-- Closing the gap of an index removes its pair.
pub shift_down-entries_from {ℓ} :
    {A : Type ℓ} (pairs : ℕ → A) (n index : ℕ)
    → index < n
    → entries_from (shift_down (n - 1 - index) index pairs) 0 (n - 1)
      ≡ entries_from pairs 0 index ++ entries_from pairs (index + 1) (n - 1 - index)
shift_down-entries_from {A = A} pairs n index h =
    ap (entries_from less 0) {x = n - 1} {y = index + (n - 1 - index)} (omega arith)
    ∙ entries_from-add less 0 index (n - 1 - index)
    ∙ ap (λ xs. xs ++ entries_from less (0 + index) (n - 1 - index))
        (entries_from-eq less pairs 0 0 index
          λ j l. ground (arith, shift_down_lem (n - 1 - index) index pairs (0 + j)))
    ∙ ap (λ xs. entries_from pairs 0 index ++ xs)
        (entries_from-eq less pairs (0 + index) (index + 1) (n - 1 - index) λ j l.
          ground (arith, shift_down_lem (n - 1 - index) index pairs (0 + index + j), moved j))
  where
    less : ℕ → A
    less = shift_down (n - 1 - index) index pairs

    moved : (j : ℕ) → pairs (0 + index + j + 1) ≡ pairs (index + 1 + j)
    moved j = ap pairs (omega arith)

pub append-one {ℓ} :
    {A : Type ℓ} (xs : List A) (y : A) (zs : List A) → (xs ++ (y ∷ [])) ++ zs ≡ xs ++ (y ∷ zs)
append-one [] y zs = refl
append-one (x ∷ xs) y zs = ap (λ ws. x ∷ ws) (append-one xs y zs)
