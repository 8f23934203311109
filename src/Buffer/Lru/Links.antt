-- ===== src/Buffer/Lru/Links.antt =====
-- The doubly linked list of the replacer as a list of addresses.
use dis_minisql.Prelude.{
  ℕ, ◌≡◌, ◌≢◌, true, false, ◌||◌, List, [], ◌∷◌, arith, mem, erase, Distinct, last_or, ◌==◌,
  if◌then◌else◌,
}
use dis_minisql.Buffer.Lru.{Node, unlink, link_front}

-- From the node `a` on, the addresses `xs` and then `b` follow one another, both ways.
abbrev pub Chain : (ℕ → Node) → ℕ → List ℕ → ℕ → Type 0
Chain n a [] b = ((n a).next ≡ b) × ((n b).prev ≡ a)
Chain n a (x ∷ xs) b = ((n a).next ≡ x) × ((n x).prev ≡ a) × Chain n x xs b

unlink-next :
    (n : ℕ → Node) (x y : ℕ)
    → (unlink n x y).next ≡ (if (n x).prev == y then (n x).next else (n y).next)
unfolding unlink
unlink-next n x y = ground arith

unlink-prev :
    (n : ℕ → Node) (x y : ℕ)
    → (unlink n x y).prev ≡ (if (n x).next == y then (n x).prev else (n y).prev)
unfolding unlink
unlink-prev n x y = ground arith

pub unlink-val : (n : ℕ → Node) (x y : ℕ) → (unlink n x y).val ≡ (n y).val
unfolding unlink
unlink-val n x y = ground arith

-- The neighbours of a node of the chain are in the chain or at its ends.
prev-mem :
    (n : ℕ → Node) (a b x : ℕ) (xs : List ℕ)
    → Chain n a xs b
    → mem x xs ≡ true
    → mem (n x).prev (a ∷ xs) ≡ true
prev-mem n a b x [] c h = cc
prev-mem n a b x (y ∷ ys) c h = ground (arith, prev-mem n y b x ys c.2)

next-mem :
    (n : ℕ → Node) (a b x : ℕ) (xs : List ℕ)
    → Chain n a xs b
    → mem x xs ≡ true
    → ((n x).next == b || mem (n x).next xs) ≡ true
next-mem n a b x [] c h = cc
next-mem n a b x (y ∷ []) c h = ground arith
next-mem n a b x (y ∷ z ∷ zs) c h = ground (arith, next-mem n y b x (z ∷ zs) c.2)

-- A chain of which neither end is written stays.
Chain-unlink_outside :
    (n : ℕ → Node) (x a b : ℕ) (xs : List ℕ)
    → mem (n x).prev (a ∷ xs) ≡ false
    → ((n x).next == b || mem (n x).next xs) ≡ false
    → Chain n a xs b
    → Chain (unlink n x) a xs b
Chain-unlink_outside n x a b [] hp hn c = ground (arith, unlink-next n x a, unlink-prev n x b)
Chain-unlink_outside n x a b (y ∷ ys) hp hn c =
    ground (arith, unlink-next n x a, unlink-prev n x y, Chain-unlink_outside n x y b ys)

Chain-unlink_first :
    (n : ℕ → Node) (x a b : ℕ) (xs : List ℕ)
    → Chain n a (x ∷ xs) b
    → mem a (x ∷ xs) ≡ false
    → mem b (x ∷ xs) ≡ false
    → Distinct (x ∷ xs)
    → Chain (unlink n x) a xs b
Chain-unlink_first n x a b [] c ha hb d = ground (arith, unlink-next n x a, unlink-prev n x b)
Chain-unlink_first n x a b (y ∷ ys) c ha hb d =
    ground (arith, unlink-next n x a, unlink-prev n x y, Chain-unlink_outside n x y b ys)

-- Taking a node out of the chain takes its address out of the list.
pub Chain-unlink :
    (n : ℕ → Node) (x a b : ℕ) (xs : List ℕ)
    → Chain n a xs b
    → mem a xs ≡ false
    → mem b xs ≡ false
    → Distinct xs
    → mem x xs ≡ true
    → Chain (unlink n x) a (erase x xs) b
Chain-unlink n x a b [] c ha hb d h = cc
Chain-unlink n x a b (y ∷ ys) c ha hb d h = ground (
  arith,
  Chain-unlink_first n y a b ys,
  Chain-unlink n x y b ys,
  unlink-next n x a,
  unlink-prev n x y,
  prev-mem n y b x ys,
  next-mem n y b x ys,
)

-- The node before the end of the chain is its last.
pub prev-last : (n : ℕ → Node) (a b : ℕ) (xs : List ℕ) → Chain n a xs b → (n b).prev ≡ last_or a xs
prev-last n a b [] c = c.1
prev-last n a b (x ∷ xs) c = prev-last n x b xs c.2

link_front-next :
    (n : ℕ → Node) (a now val y : ℕ)
    → now ≢ a
    → (link_front n a now val y).next
      ≡ (if a == y then now else if now == y then (n a).next else (n y).next)
unfolding link_front
link_front-next n a now val y h = ground arith

link_front-prev :
    (n : ℕ → Node) (a now val y : ℕ)
    → now ≢ a
    → now ≢ (n a).next
    → (link_front n a now val y).prev
      ≡ (if (n a).next == y then now else if now == y then a else (n y).prev)
unfolding link_front
link_front-prev n a now val y h k = ground arith

-- A part of the chain behind the first node keeps its links.
Chain-link_front_outside :
    (n : ℕ → Node) (a now val x b : ℕ) (xs : List ℕ)
    → now ≢ a
    → now ≢ (n a).next
    → mem a (x ∷ xs) ≡ false
    → mem now (x ∷ b ∷ xs) ≡ false
    → mem (n a).next (b ∷ xs) ≡ false
    → Chain n x xs b
    → Chain (link_front n a now val) x xs b
Chain-link_front_outside n a now val x b [] h k ha hw hn c =
    ground (arith, link_front-next n a now val x, link_front-prev n a now val b)
Chain-link_front_outside n a now val x b (y ∷ ys) h k ha hw hn c = ground (
  arith,
  link_front-next n a now val x,
  link_front-prev n a now val y,
  Chain-link_front_outside n a now val y b ys,
)

-- A node that the chain does not hold becomes its first.
pub Chain-link_front :
    (n : ℕ → Node) (a b now val : ℕ) (xs : List ℕ)
    → Chain n a xs b
    → mem now (a ∷ b ∷ xs) ≡ false
    → mem a xs ≡ false
    → mem b xs ≡ false
    → Distinct xs
    → Chain (link_front n a now val) a (now ∷ xs) b
Chain-link_front n a b now val [] c h ha hb d = ground (
  arith,
  link_front-next n a now val a,
  link_front-next n a now val now,
  link_front-prev n a now val now,
  link_front-prev n a now val b,
)
Chain-link_front n a b now val (x ∷ xs) c h ha hb d = ground (
  arith,
  link_front-next n a now val a,
  link_front-next n a now val now,
  link_front-prev n a now val now,
  link_front-prev n a now val x,
  Chain-link_front_outside n a now val x b xs,
)

pub link_front-val :
    (n : ℕ → Node) (a now val y : ℕ)
    → now ≢ a
    → (link_front n a now val y).val ≡ (if now == y then val else (n y).val)
unfolding link_front
link_front-val n a now val y h = ground arith
