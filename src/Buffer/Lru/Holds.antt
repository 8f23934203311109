-- ===== src/Buffer/Lru/Holds.antt =====
-- What it means that the linked replacer holds a list of nodes, and the frames of the nodes.
use dis_minisql.Prelude.{
  ℕ, ◌≡◌, refl, ◌<◌, true, false, List, [], ◌∷◌, Option, none, some, arith, mem, erase, Distinct,
  ◌==◌, if◌then◌else◌, length, is_some,
}
use dis_minisql.Buffer.Lru.{Node, LruReplacer}
use dis_minisql.Buffer.Lru.Links.{Chain}

abbrev pub vals : (ℕ → Node) → List ℕ → List ℕ
vals n [] = []
vals n (x ∷ xs) = (n x).val ∷ vals n xs

-- The address of the node that holds a frame.
abbrev pub find : (ℕ → Node) → ℕ → List ℕ → Option ℕ
find n f [] = none
find n f (x ∷ xs) = if f == (n x).val then some x else find n f xs

-- Every address of the list is below the bound.
abbrev pub Below : ℕ → List ℕ → Type 0
Below k [] = Unit
Below k (x ∷ xs) = (x < k) × Below k xs

-- The nodes at the addresses `xs`, and nothing else, are in the replacer.
pub record Holds (r : LruReplacer) (xs : List ℕ) : Type 0 where
  pub chain : Chain r.nodes r.head xs r.tail
  pub head_out : mem r.head xs ≡ false
  pub tail_out : mem r.tail xs ≡ false
  pub head_fresh : r.head < r.fresh
  pub tail_fresh : r.tail < r.fresh
  pub fresh : Below r.fresh xs
  pub distinct : Distinct (vals r.nodes xs)
  pub sized : r.now_size ≡ length xs
  pub mapped : (f : ℕ) → r.map f ≡ find r.nodes f xs
  pub flagged : (f : ℕ) → r.unpinned f ≡ mem f (vals r.nodes xs)

unfoldable pub Represents : LruReplacer → List ℕ → Type 0
Represents r q = (xs : List ℕ) × Holds r xs × (q ≡ vals r.nodes xs)

-- Two nodes with different frames are different nodes.
pub mem-vals :
    (n : ℕ → Node) (x : ℕ) (xs : List ℕ) → mem x xs ≡ true → mem (n x).val (vals n xs) ≡ true
mem-vals n x [] h = cc
mem-vals n x (y ∷ ys) h = ground (arith, mem-vals n x ys)

pub Distinct-addresses : (n : ℕ → Node) (xs : List ℕ) → Distinct (vals n xs) → Distinct xs
Distinct-addresses n [] d = tt
Distinct-addresses n (x ∷ xs) d = ground (arith, Distinct-addresses n xs, mem-vals n x xs)

pub vals-erase :
    (n : ℕ → Node) (x : ℕ) (xs : List ℕ)
    → Distinct (vals n xs)
    → mem x xs ≡ true
    → vals n (erase x xs) ≡ erase (n x).val (vals n xs)
vals-erase n x [] d h = cc
vals-erase n x (y ∷ ys) d h = ground (arith, vals-erase n x ys, mem-vals n x ys)

pub find-erase :
    (n : ℕ → Node) (x f : ℕ) (xs : List ℕ)
    → Distinct (vals n xs)
    → mem x xs ≡ true
    → find n f (erase x xs) ≡ (if (n x).val == f then none else find n f xs)
find-erase n x f [] d h = cc
find-erase n x f (y ∷ ys) d h =
    ground (arith, find-erase n x f ys, mem-vals n x ys, find_absent n f ys)
  where
    find_absent :
        (n : ℕ → Node) (f : ℕ) (xs : List ℕ) → mem f (vals n xs) ≡ false → find n f xs ≡ none
    find_absent n f [] h = refl
    find_absent n f (x ∷ xs) h = ground (arith, find_absent n f xs)

pub find-mem :
    (n : ℕ → Node) (f x : ℕ) (xs : List ℕ)
    → find n f xs ≡ some x
    → (mem x xs ≡ true) × ((n x).val ≡ f)
find-mem n f x [] h = cc
find-mem n f x (y ∷ ys) h = ground (arith, find-mem n f x ys)

pub find-is_some : (n : ℕ → Node) (f : ℕ) (xs : List ℕ) → is_some (find n f xs) ≡ mem f (vals n xs)
find-is_some n f [] = refl
find-is_some n f (x ∷ xs) = ground (arith, find-is_some n f xs)
