-- ===== src/Page/TablePage/Deletion.antt =====
-- `ApplyDelete`: the tuples below the deleted one are moved up over it.
pub mod Compaction
use dis_minisql.Prelude.{
  ℕ, ◌+◌, ◌-◌, ◌*◌, ◌%◌, ◌^◌, ◌<◌, ◌≤◌, ◌≡◌, ◌≢◌, inl, inr, refl, sym, ap, ◌∙◌, Bool, true, false,
  not, ◌&&◌, ◌||◌, some, none, Option, leb, ltb, lt→ltb, le→ltb, ◌==◌, if◌then◌else◌, arith,
}
use dis_minisql.Storage.Disk.{Bytes, le32}
use dis_minisql.Storage.Disk.Layout.{le32-cong}
use dis_minisql.Page.TablePage.{
  get_free_space_pointer, get_tuple_count, get_tuple_offset, get_tuple_size, is_deleted,
  set_tuple_size, set_tuple_offset, set_free_space_pointer, unset_deleted_flag, move_bytes,
  shift_offsets, apply_delete, set32,
}
use dis_minisql.Page.TablePage.Access.{
  Apart, set32-Apart, le32-set32-Apart, le32-set32, sizes-Apart, offsets-Apart, size_offset-Apart,
  offset_size-Apart,
}
use dis_minisql.Page.TablePage.View.{IsValid, extent, not_deleted}
use dis_minisql.Page.TablePage.Shifting.{
  adjust_offsets_field, adjust_offsets_byte, adjust_offsets_offset,
}

pub move_bytes_below : (p : Bytes) (to from n b : ℕ) → b < to → move_bytes p to from n b ≡ p b
unfolding move_bytes
move_bytes_below p to from n b l = ground arith

pub move_bytes_above : (p : Bytes) (to from n b : ℕ) → to + n ≤ b → move_bytes p to from n b ≡ p b
unfolding move_bytes
move_bytes_above p to from n b l = ground arith

pub move_bytes_inside :
    (p : Bytes) (to from n b : ℕ) → b < n → move_bytes p to from n (to + b) ≡ p (from + b)
unfolding move_bytes
move_bytes_inside p to from n b l =
    ground (arith, ap p {x = to + b - to + from} {y = from + b} (omega arith))

-- Where a tuple of a size and an offset stands afterwards.
abbrev pub below : ℕ → ℕ → ℕ → Bool
below o size a = not (size == 0) && ltb a o

abbrev pub up : ℕ → ℕ → ℕ
up s a = (a + s) % 2 ^ 32

up-lt : (s a : ℕ) → up s a < 2 ^ 32
up-lt s a = omega arith

abbrev pub shifted : ℕ → ℕ → ℕ → ℕ → ℕ
shifted o s size a = if below o size a then up s a else a

-- The effect of the deletion on each part of the page.
pub record Removed (p q : Bytes) (i : ℕ) : Type 0 where
  pub count : get_tuple_count q ≡ get_tuple_count p
  pub pointer : get_free_space_pointer q ≡ get_free_space_pointer p + extent p i
  pub size_here : get_tuple_size q i ≡ 0
  pub size_other : (j : ℕ) → j < get_tuple_count p → j ≢ i → get_tuple_size q j ≡ get_tuple_size p j
  pub offset_other :
      (j : ℕ)
      → j < get_tuple_count p
      → j ≢ i
      → get_tuple_offset q j
        ≡ shifted (get_tuple_offset p i) (extent p i) (get_tuple_size p j) (get_tuple_offset p j)
  pub moved :
      (b : ℕ) → get_free_space_pointer p ≤ b → b < get_tuple_offset p i → q (b + extent p i) ≡ p b
  pub kept : (b : ℕ) → get_tuple_offset p i + extent p i ≤ b → q b ≡ p b

module _ (p : Bytes) (i : ℕ) (v : IsValid p) (l : i < get_tuple_count p)
    (z : get_tuple_size p i ≢ 0) where
  abbrev o : ℕ
  o = get_tuple_offset p i

  abbrev s : ℕ
  s = extent p i

  abbrev f : ℕ
  f = get_free_space_pointer p

  cleared : Bytes
  cleared =
      set_tuple_offset
        (set_tuple_size (set_free_space_pointer (move_bytes p (f + s) f (o - f)) ((f + s) % 2 ^ 32))
          i 0)
        i 0

  removed : Bytes
  removed = shift_offsets cleared o s

  -- A field of the header is kept, but for the free space pointer and the slot.
  cleared_field :
      (b : ℕ)
      → b + 4 ≤ f
      → Apart 16 4 b 4
      → Apart (28 + 8 * i) 4 b 4
      → Apart (24 + 8 * i) 4 b 4
      → le32 cleared b ≡ le32 p b
  unfolding cleared
  cleared_field b h a c d =
      le32-set32-Apart _ (24 + 8 * i) 0 b d
      ∙ le32-set32-Apart _ (28 + 8 * i) 0 b c
      ∙ le32-set32-Apart _ 16 ((f + s) % 2 ^ 32) b a
      ∙ le32-cong p (move_bytes p (f + s) f (o - f)) b
          λ k m n. move_bytes_below p (f + s) f (o - f) k (omega arith)

  cleared_byte : (b : ℕ) → f ≤ b → cleared b ≡ move_bytes p (f + s) f (o - f) b
  unfolding cleared
  cleared_byte b h =
      set32-Apart _ (24 + 8 * i) 0 b (inl (omega (arith, v.room, l)))
      ∙ set32-Apart _ (28 + 8 * i) 0 b (inl (omega (arith, v.room, l)))
      ∙ set32-Apart _ 16 ((f + s) % 2 ^ 32) b (inl (omega (arith, v.room)))

  cleared_count : get_tuple_count cleared ≡ get_tuple_count p
  cleared_count =
      cleared_field 20 (omega (arith, v.room)) (inl (omega arith)) (inr (omega arith))
        (inr (omega arith))

  cleared_pointer : get_free_space_pointer cleared ≡ f + s
  unfolding cleared
  cleared_pointer =
      le32-set32-Apart _ (24 + 8 * i) 0 16 (inr (omega arith))
      ∙ le32-set32-Apart _ (28 + 8 * i) 0 16 (inr (omega arith))
      ∙ le32-set32 _ 16 ((f + s) % 2 ^ 32) (omega arith)
      ∙ omega (arith, v.top)

  cleared_here : get_tuple_size cleared i ≡ 0
  unfolding cleared
  cleared_here =
      le32-set32-Apart _ (24 + 8 * i) 0 (28 + 8 * i) (offset_size-Apart i i)
      ∙ le32-set32 _ (28 + 8 * i) 0 (omega arith)

  removed-Removed : Removed p removed i
  unfolding removed
  removed-Removed = record {
    count = field_kept 20 (λ j. inr (omega arith)) ∙ cleared_count;
    pointer = field_kept 16 (λ j. inr (omega arith)) ∙ cleared_pointer;
    size_here = field_kept (28 + 8 * i) (λ j. offset_size-Apart j i) ∙ cleared_here;
    size_other = λ j k n. field_kept (28 + 8 * j) (λ m. offset_size-Apart m j) ∙ size_kept j k n;
    offset_other = λ j k n.
        adjust_offsets_offset (below o) (up s) (up-lt s) cleared 0 (get_tuple_count cleared) j
          (omega arith) (omega (arith, cleared_count))
        ∙ ap (λ x. shifted o s x (get_tuple_offset cleared j)) (size_kept j k n)
        ∙ ap (λ x. shifted o s (get_tuple_size p j) x) (offset_kept j k n);
    moved = λ b g h.
        byte_kept (b + s) (omega arith)
        ∙ ap (λ k. move_bytes p (f + s) f (o - f) k) {x = b + s} {y = f + s + (b - f)} (omega arith)
        ∙ move_bytes_inside p (f + s) f (o - f) (b - f) (omega arith)
        ∙ ap p {x = f + (b - f)} {y = b} (omega arith);
    kept = λ b g.
        let (below, _) = v.inside i l z in
        byte_kept b (omega (arith, below))
        ∙ move_bytes_above p (f + s) f (o - f) b (omega (arith, below));
  }
    where
      field_kept : (b : ℕ) → ((j : ℕ) → Apart (24 + 8 * j) 4 b 4) → le32 removed b ≡ le32 cleared b
      field_kept b a =
          adjust_offsets_field (below o) (up s) (up-lt s) cleared 0 (get_tuple_count cleared) b
            λ j _ _. a j

      size_kept :
          (j : ℕ) → j < get_tuple_count p → j ≢ i → get_tuple_size cleared j ≡ get_tuple_size p j
      size_kept j k n =
          cleared_field (28 + 8 * j) (omega (arith, v.room)) (inl (omega arith)) (sizes-Apart i j n)
            (offset_size-Apart i j)

      offset_kept :
          (j : ℕ)
          → j < get_tuple_count p
          → j ≢ i
          → get_tuple_offset cleared j ≡ get_tuple_offset p j
      offset_kept j k n =
          cleared_field (24 + 8 * j) (omega (arith, v.room)) (inl (omega arith))
            (size_offset-Apart i j) (offsets-Apart i j n)

      byte_kept : (b : ℕ) → f ≤ b → removed b ≡ move_bytes p (f + s) f (o - f) b
      byte_kept b h =
          adjust_offsets_byte (below o) (up s) (up-lt s) cleared 0 (get_tuple_count cleared) b
            (omega (arith, cleared_count, v.room))
          ∙ cleared_byte b h

-- ApplyDelete of a slot in use computes that page.
pub apply_delete-Removed :
    (p : Bytes) (i : ℕ)
    → IsValid p
    → i < get_tuple_count p
    → get_tuple_size p i ≢ 0
    → (q : Bytes) × ((apply_delete p i ≡ some q) × Removed p q i)
unfolding apply_delete removed cleared
apply_delete-Removed p i v l z =
    let (below, _) = v.inside i l z in
    (
      removed p i v l z,
      (
        rw (
          lt→ltb i (get_tuple_count p) l,
          le→ltb (get_tuple_offset p i) (get_free_space_pointer p) below,
          unmarked (get_tuple_size p i) (v.word i l),
        ),
        removed-Removed p i v l z,
      ),
    )
  where
    unmarked :
        (m : ℕ) → m < 2 ^ 32 → (if is_deleted m then unset_deleted_flag m else m) ≡ m % 2 ^ 31
    unmarked m w = ground arith
