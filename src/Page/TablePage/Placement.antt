-- ===== src/Page/TablePage/Placement.antt =====
-- What `InsertTuple` writes to a page with room.
use dis_minisql.Prelude.{
  ℕ, ◌+◌, ◌-◌, ◌*◌, ◌%◌, ◌^◌, ◌<◌, ◌≤◌, ◌≡◌, ◌≢◌, inl, inr, sym, ap, ◌∙◌, subst, List, length, ◌==◌,
  if◌then◌else◌, arith, Bool-cases, ltb, ltb→lt, ltb→le,
}
use dis_minisql.Storage.Disk.{Bytes, le32}
use dis_minisql.Memory.{write_bytes, Holds}
use dis_minisql.Memory.Framing.{Holds-write_bytes, Holds-cong}
use dis_minisql.Page.TablePage.{
  set32, get_free_space_pointer, get_tuple_count, get_tuple_offset, get_tuple_size, enter_tuple,
  place_tuple,
}
use dis_minisql.Page.TablePage.Access.{
  Apart, le32-write_bytes, write_bytes-Apart, set32-Apart, le32-set32-Apart, le32-set32,
}

-- The tuple has room behind the slots and one more.
pub record HasRoom (p : Bytes) (i at : ℕ) (tuple : List ℕ) : Type 0 where
  pub slot : i ≤ get_tuple_count p
  pub below : 32 + 8 * get_tuple_count p ≤ at
  pub above : at + length tuple ≤ 4096

module _ (p : Bytes) (i at : ℕ) (tuple : List ℕ) (h : HasRoom p i at tuple) where
  abbrev with_tuple : Bytes
  with_tuple = enter_tuple p i at (length tuple) tuple

  -- A field of the header is kept, but for the free space pointer and the slot.
  enter_tuple_field :
      (b : ℕ)
      → b + 4 ≤ at
      → Apart 16 4 b 4
      → Apart (24 + 8 * i) 8 b 4
      → le32 with_tuple b ≡ le32 p b
  unfolding enter_tuple
  enter_tuple_field b l f s =
      le32-set32-Apart _ (28 + 8 * i) (length tuple) b (upper s)
      ∙ le32-set32-Apart _ (24 + 8 * i) at b (lower s)
      ∙ le32-write_bytes _ at tuple b (inr l)
      ∙ le32-set32-Apart p 16 at b f
    where
      upper : Apart (24 + 8 * i) 8 b 4 → Apart (28 + 8 * i) 4 b 4
      upper (inl e) = inl (omega (arith, e))
      upper (inr e) = inr (omega (arith, e))

      lower : Apart (24 + 8 * i) 8 b 4 → Apart (24 + 8 * i) 4 b 4
      lower (inl e) = inl (omega (arith, e))
      lower (inr e) = inr (omega (arith, e))

  enter_tuple_byte : (b : ℕ) → at ≤ b → with_tuple b ≡ write_bytes (set32 p 16 at) at tuple b
  unfolding enter_tuple
  enter_tuple_byte b l =
      set32-Apart _ (28 + 8 * i) (length tuple) b (inl (omega (arith, h.slot, h.below)))
      ∙ set32-Apart _ (24 + 8 * i) at b (inl (omega (arith, h.slot, h.below)))

  enter_tuple_offset : get_tuple_offset with_tuple i ≡ at
  unfolding enter_tuple
  enter_tuple_offset =
      le32-set32-Apart _ (28 + 8 * i) (length tuple) (24 + 8 * i) (inr (omega arith))
      ∙ le32-set32 _ (24 + 8 * i) at (omega (arith, h.above))

  enter_tuple_size : get_tuple_size with_tuple i ≡ length tuple
  unfolding enter_tuple
  enter_tuple_size = le32-set32 _ (28 + 8 * i) (length tuple) (omega (arith, h.above))

  enter_tuple_pointer : get_free_space_pointer with_tuple ≡ at
  unfolding enter_tuple
  enter_tuple_pointer =
      le32-set32-Apart _ (28 + 8 * i) (length tuple) 16 (inr (omega arith))
      ∙ le32-set32-Apart _ (24 + 8 * i) at 16 (inr (omega arith))
      ∙ le32-write_bytes _ at tuple 16 (inr (omega (arith, h.below)))
      ∙ le32-set32 p 16 at (omega (arith, h.above))

counted : Bytes → ℕ → Bytes
counted p i = if i == get_tuple_count p then set32 p 20 (i + 1) else p

counted_field : (p : Bytes) (i b : ℕ) → Apart 20 4 b 4 → le32 (counted p i) b ≡ le32 p b
unfolding counted
counted_field p i b a = ground (arith, le32-set32-Apart p 20 (i + 1) b a)

counted_byte : (p : Bytes) (i b : ℕ) → 24 ≤ b → counted p i b ≡ p b
unfolding counted
counted_byte p i b l = ground (arith, set32-Apart p 20 (i + 1) b (inl (omega arith)))

counted_count :
    (p : Bytes) (i : ℕ)
    → i < 4096
    → get_tuple_count (counted p i) ≡ (if i == get_tuple_count p then i + 1 else get_tuple_count p)
unfolding counted
counted_count p i l = ground (arith, le32-set32 p 20 (i + 1) (omega arith))

-- The effect of the insertion on each part of the page.
pub record Placed (p q : Bytes) (i : ℕ) (tuple : List ℕ) : Type 0 where
  pub count : get_tuple_count q ≡ (if i == get_tuple_count p then i + 1 else get_tuple_count p)
  pub pointer : get_free_space_pointer q + length tuple ≡ get_free_space_pointer p
  pub id : le32 q 0 ≡ le32 p 0
  pub offset_here : get_tuple_offset q i ≡ get_free_space_pointer q
  pub size_here : get_tuple_size q i ≡ length tuple
  pub offset_other :
      (j : ℕ) → j < get_tuple_count p → j ≢ i → get_tuple_offset q j ≡ get_tuple_offset p j
  pub size_other : (j : ℕ) → j < get_tuple_count p → j ≢ i → get_tuple_size q j ≡ get_tuple_size p j
  pub held : Holds q (get_free_space_pointer q) tuple
  pub kept : (b : ℕ) → get_free_space_pointer p ≤ b → q b ≡ p b

counted-Placed :
    (p : Bytes) (i at : ℕ) (tuple : List ℕ)
    → HasRoom p i at tuple
    → at + length tuple ≡ get_free_space_pointer p
    → Placed p (counted (enter_tuple p i at (length tuple) tuple) i) i tuple
counted-Placed p i at tuple h e = record {
  count =
      counted_count t i (omega (arith, h.slot, h.below, h.above))
      ∙ ap (λ n. if i == n then i + 1 else n) same_count;
  pointer = ap (λ n. n + length tuple) pointer_at ∙ e;
  id =
      counted_field t i 0 (inr (omega arith))
      ∙ enter_tuple_field p i at tuple h 0 (omega (arith, h.below)) (inr (omega arith))
          (inr (omega arith));
  offset_here =
      counted_field t i (24 + 8 * i) (inl (omega arith))
      ∙ enter_tuple_offset p i at tuple h
      ∙ sym pointer_at;
  size_here = counted_field t i (28 + 8 * i) (inl (omega arith)) ∙ enter_tuple_size p i at tuple h;
  offset_other = λ j l n. other (24 + 8 * j) (omega (arith, h.below)) (omega arith) (slots j n);
  size_other = λ j l n. other (28 + 8 * j) (omega (arith, h.below)) (omega arith) (sizes j n);
  held = subst (λ o. Holds (counted t i) o tuple) (sym pointer_at) held_at;
  kept = λ b l.
      counted_byte t i b (omega (arith, h.below))
      ∙ enter_tuple_byte p i at tuple h b (omega arith)
      ∙ write_bytes-Apart (set32 p 16 at) at tuple b (inl (omega arith))
      ∙ set32-Apart p 16 at b (inl (omega (arith, h.below)));
}
  where
    t : Bytes
    t = enter_tuple p i at (length tuple) tuple

    same_count : get_tuple_count t ≡ get_tuple_count p
    same_count =
        enter_tuple_field p i at tuple h 20 (omega (arith, h.below)) (inl (omega arith))
          (inr (omega arith))

    pointer_at : get_free_space_pointer (counted t i) ≡ at
    pointer_at = counted_field t i 16 (inr (omega arith)) ∙ enter_tuple_pointer p i at tuple h

    other :
        (b : ℕ) → b + 4 ≤ at → 24 ≤ b → Apart (24 + 8 * i) 8 b 4 → le32 (counted t i) b ≡ le32 p b
    other b l g a =
        counted_field t i b (inl g) ∙ enter_tuple_field p i at tuple h b l (inl (omega arith)) a

    slots : (j : ℕ) → j ≢ i → Apart (24 + 8 * i) 8 (24 + 8 * j) 4
    slots j n = elim (Bool-cases (ltb i j)) [
      | inl l ↦ inl (omega (arith, ltb→lt i j l))
      | inr l ↦ inr (ground (arith, n, ltb→le i j l))
    ]

    sizes : (j : ℕ) → j ≢ i → Apart (24 + 8 * i) 8 (28 + 8 * j) 4
    sizes j n = elim (Bool-cases (ltb i j)) [
      | inl l ↦ inl (omega (arith, ltb→lt i j l))
      | inr l ↦ inr (ground (arith, n, ltb→le i j l))
    ]

    held_at : Holds (counted t i) at tuple
    held_at =
        Holds-cong (write_bytes (set32 p 16 at) at tuple) (counted t i) at tuple
          (λ b l u.
            counted_byte t i b (omega (arith, h.below)) ∙ enter_tuple_byte p i at tuple h b l)
          (Holds-write_bytes (set32 p 16 at) at tuple)

pub place_tuple-Placed :
    (p : Bytes) (i : ℕ) (tuple : List ℕ)
    → i ≤ get_tuple_count p
    → 32 + 8 * get_tuple_count p + length tuple ≤ get_free_space_pointer p
    → get_free_space_pointer p ≤ 4096
    → Placed p (place_tuple p i (length tuple) tuple) i tuple
unfolding place_tuple counted
place_tuple-Placed p i tuple hi room top =
    counted-Placed p i ((get_free_space_pointer p + 2 ^ 32 - length tuple) % 2 ^ 32) tuple
      (record { slot = hi; below = omega arith; above = omega arith }) (omega arith)
