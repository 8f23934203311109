-- ===== src/Index/GenericKey/Order.antt =====
-- The order of the keys: rows of fields that are neither null nor NaN, column by column.
use Prim.Native.Nat.{Ordering}
use dis_minisql.Prelude.{◌≡◌, refl, true, false, List, [], ◌∷◌, arith}
use dis_minisql.Record.Order.{IsOrder}
use dis_minisql.Record.Types.{TypeId}
use dis_minisql.Record.Field.{Field}
use dis_minisql.Record.Field.Keys.{IsKey, sign, key_sign-IsOrder}
use dis_minisql.Record.Schema.{Schema}

unfoldable pub AreKeys : Schema → List Field → Type 0
AreKeys [] [] = Unit
AreKeys (c ∷ columns) (f ∷ fields) = IsKey c.column_type f × AreKeys columns fields
AreKeys _ _ = true ≡ false

-- The first column in which the rows differ decides.
unfoldable pub keys_sign : List Field → List Field → Ordering
keys_sign (f ∷ k) (g ∷ l) = elim (sign f g) [
  | Ordering.lt ↦ Ordering.lt
  | Ordering.eq ↦ keys_sign k l
  | Ordering.gt ↦ Ordering.gt
]
keys_sign _ _ = Ordering.eq

abbrev order_of : (t : TypeId) → IsOrder {A = (f : Field) × IsKey t f} λ k l. sign k.0 l.0
order_of t = key_sign-IsOrder t

pub keys_self : (s : Schema) (k : List Field) → AreKeys s k → keys_sign k k ≡ Ordering.eq
unfolding AreKeys keys_sign
keys_self [] [] hk = refl
keys_self [] (f ∷ k) hk = cc
keys_self (c ∷ s) [] hk = cc
keys_self (c ∷ s) (f ∷ k) (hf, hk) =
    let o = order_of c.column_type in ground (arith, o.order_self (f, hf), keys_self s k hk)

pub keys_flip :
    (s : Schema) (k l : List Field)
    → AreKeys s k
    → AreKeys s l
    → keys_sign k l ≡ Ordering.lt
    → keys_sign l k ≡ Ordering.gt
unfolding AreKeys keys_sign
keys_flip [] k l hk hl h = ground arith
keys_flip (c ∷ s) [] l hk hl h = cc
keys_flip (c ∷ s) (f ∷ k) [] hk hl h = cc
keys_flip (c ∷ s) (f ∷ k) (g ∷ l) (hf, hk) (hg, hl) h =
    let o = order_of c.column_type in
    ground (
      arith,
      o.order_flip (f, hf) (g, hg),
      o.order_same (f, hf) (g, hg) (f, hf),
      o.order_self (f, hf),
      keys_flip s k l hk hl,
    )

pub keys_flip_gt :
    (s : Schema) (k l : List Field)
    → AreKeys s k
    → AreKeys s l
    → keys_sign k l ≡ Ordering.gt
    → keys_sign l k ≡ Ordering.lt
unfolding AreKeys keys_sign
keys_flip_gt [] k l hk hl h = ground arith
keys_flip_gt (c ∷ s) [] l hk hl h = cc
keys_flip_gt (c ∷ s) (f ∷ k) [] hk hl h = cc
keys_flip_gt (c ∷ s) (f ∷ k) (g ∷ l) (hf, hk) (hg, hl) h =
    let o = order_of c.column_type in
    ground (
      arith,
      o.order_flip_gt (f, hf) (g, hg),
      o.order_same (f, hf) (g, hg) (f, hf),
      o.order_self (f, hf),
      keys_flip_gt s k l hk hl,
    )

pub keys_same :
    (s : Schema) (k l m : List Field)
    → AreKeys s k
    → AreKeys s l
    → AreKeys s m
    → keys_sign k l ≡ Ordering.eq
    → (keys_sign k m ≡ keys_sign l m) × (keys_sign m k ≡ keys_sign m l)
unfolding AreKeys keys_sign
keys_same [] k l m hk hl hm h = ground arith
keys_same (c ∷ s) (f ∷ k) (g ∷ l) (j ∷ m) (hf, hk) (hg, hl) (hj, hm) h =
    let o = order_of c.column_type in
    ground (arith, o.order_same (f, hf) (g, hg) (j, hj), keys_same s k l m hk hl hm)
keys_same (c ∷ s) [] l m hk hl hm h = cc
keys_same (c ∷ s) (f ∷ k) [] m hk hl hm h = cc
keys_same (c ∷ s) (f ∷ k) (g ∷ l) [] hk hl hm h = cc

pub keys_trans :
    (s : Schema) (k l m : List Field)
    → AreKeys s k
    → AreKeys s l
    → AreKeys s m
    → keys_sign k l ≡ Ordering.lt
    → keys_sign l m ≡ Ordering.lt
    → keys_sign k m ≡ Ordering.lt
unfolding AreKeys keys_sign
keys_trans [] k l m hk hl hm h i = ground arith
keys_trans (c ∷ s) (f ∷ k) (g ∷ l) (j ∷ m) (hf, hk) (hg, hl) (hj, hm) h i =
    let o = order_of c.column_type in
    ground (
      arith,
      o.order_same (f, hf) (g, hg) (j, hj),
      o.order_same (g, hg) (j, hj) (f, hf),
      o.order_trans (f, hf) (g, hg) (j, hj),
      keys_trans s k l m hk hl hm,
    )
keys_trans (c ∷ s) [] l m hk hl hm h i = cc
keys_trans (c ∷ s) (f ∷ k) [] m hk hl hm h i = cc
keys_trans (c ∷ s) (f ∷ k) (g ∷ l) [] hk hl hm h i = cc
