-- ===== src/Record/Order.antt =====
-- What an order is of which a comparison gives the sign, and the orders that the types compare by.
use Prim.Native.Nat.{compare, Ordering}
use dis_minisql.Prelude.{ℕ, ◌≡◌, arith}
use dis_minisql.Page.TreePage.{is_lt, is_above}

pub record IsOrder {ℓ} {A : Type ℓ} (cmp : A → A → Ordering) : Type ℓ where
  pub order_self : (a : A) → cmp a a ≡ Ordering.eq
  pub order_flip : (a b : A) → cmp a b ≡ Ordering.lt → cmp b a ≡ Ordering.gt
  pub order_flip_gt : (a b : A) → cmp a b ≡ Ordering.gt → cmp b a ≡ Ordering.lt
  pub order_trans :
      (a b c : A) → cmp a b ≡ Ordering.lt → cmp b c ≡ Ordering.lt → cmp a c ≡ Ordering.lt
  pub order_same : (a b c : A) → cmp a b ≡ Ordering.eq → (cmp a c ≡ cmp b c) × (cmp c a ≡ cmp c b)

-- Values are in the order of their keys.
pub by_key-IsOrder {ℓ} : {A : Type ℓ} (key : A → ℕ) → IsOrder {A = A} λ a b. compare (key a) (key b)
by_key-IsOrder key = record {
  order_self = λ a. ground arith;
  order_flip = λ a b h. ground arith;
  order_flip_gt = λ a b h. ground arith;
  order_trans = λ a b c h k. ground arith;
  order_same = λ a b c h. (ground arith, ground arith);
}

-- One comes before the other if and only if the other comes after it.
pub is_lt-is_above {ℓ} :
    {A : Type ℓ} {cmp : A → A → Ordering}
    → IsOrder cmp
    → (a b : A) → is_lt (cmp a b) ≡ is_above (cmp b a)
is_lt-is_above o a b = ground (arith, o.order_flip a b, o.order_flip_gt b a)
