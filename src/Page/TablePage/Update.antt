-- ===== src/Page/TablePage/Update.antt =====
-- `UpdateTuple`: the tuples below the old one are moved by the difference of the sizes, and the new
-- one is written up to where the old one ended.
pub mod Moves
pub mod Replacement
pub mod Rows
use dis_minisql.Prelude.{
  ℕ, ◌+◌, ◌-◌, ◌*◌, ◌%◌, ◌^◌, ◌<◌, ◌≤◌, ◌≡◌, ◌≢◌, inl, inr, refl, sym, ap, ◌∙◌, subst, Bool, true,
  false, not, ◌&&◌, List, length, ltb, lt→ltb, ◌==◌, if◌then◌else◌, arith,
}
use dis_minisql.Storage.Disk.{Bytes, le32}
use dis_minisql.Storage.Disk.Layout.{le32-cong}
use dis_minisql.Memory.{write_bytes, Holds}
use dis_minisql.Memory.Framing.{Holds-write_bytes, Holds-cong}
use dis_minisql.Page.TablePage.{
  get_free_space_pointer, get_tuple_count, get_tuple_offset, get_tuple_size, is_deleted,
  set_tuple_size, set_tuple_offset, set_free_space_pointer, move_bytes, update_offsets,
  replace_tuple, set32,
}
use dis_minisql.Page.TablePage.Access.{
  Apart, set32-Apart, le32-set32-Apart, le32-set32, sizes-Apart, offsets-Apart, size_offset-Apart,
  offset_size-Apart, le32-write_bytes, write_bytes-Apart,
}
use dis_minisql.Page.TablePage.View.{IsValid, extent, not_deleted}
use dis_minisql.Page.TablePage.Shifting.{
  adjust_offsets_field, adjust_offsets_byte, adjust_offsets_offset,
}
use dis_minisql.Page.TablePage.Deletion.{move_bytes_below, move_bytes_above, move_bytes_inside}

abbrev pub reached : ℕ → ℕ → ℕ → Bool
reached end size a = ltb 0 size && ltb a end

abbrev pub moved_by : ℕ → ℕ → ℕ → ℕ
moved_by s n a = (a + s + 2 ^ 32 - n) % 2 ^ 32

moved_by-lt : (s n a : ℕ) → moved_by s n a < 2 ^ 32
moved_by-lt s n a = omega arith

-- Where a tuple of a size and an offset stands afterwards.
abbrev pub updated : ℕ → ℕ → ℕ → ℕ → ℕ → ℕ
updated o s n size a = if reached ((o + s) % 2 ^ 32) size a then moved_by s n a else a

-- The effect of the update on each part of the page.
pub record Replaced (p q : Bytes) (i : ℕ) (tuple : List ℕ) : Type 0 where
  pub count : get_tuple_count q ≡ get_tuple_count p
  pub pointer :
      get_free_space_pointer q + length tuple ≡ get_free_space_pointer p + get_tuple_size p i
  pub size_here : get_tuple_size q i ≡ length tuple
  pub size_other : (j : ℕ) → j < get_tuple_count p → j ≢ i → get_tuple_size q j ≡ get_tuple_size p j
  pub offset_here : get_tuple_offset q i + length tuple ≡ get_tuple_offset p i + get_tuple_size p i
  pub offset_other :
      (j : ℕ)
      → j < get_tuple_count p
      → j ≢ i
      → get_tuple_offset q j
        ≡ updated
            (get_tuple_offset p i)
            (get_tuple_size p i)
            (length tuple)
            (get_tuple_size p j)
            (get_tuple_offset p j)
  pub held : Holds q (get_tuple_offset q i) tuple
  pub moved :
      (b c : ℕ)
      → get_free_space_pointer p ≤ b
      → b < get_tuple_offset p i
      → c + length tuple ≡ b + get_tuple_size p i
      → q c ≡ p b
  pub kept : (b : ℕ) → get_tuple_offset p i + get_tuple_size p i ≤ b → q b ≡ p b

module _ (p : Bytes) (i : ℕ) (tuple : List ℕ) (v : IsValid p) (l : i < get_tuple_count p)
    (d : is_deleted (get_tuple_size p i) ≡ false)
    (room : 24 + 8 * get_tuple_count p + length tuple
      ≤ get_free_space_pointer p + get_tuple_size p i)
    (ne : length tuple ≢ 0) where
  abbrev o : ℕ
  o = get_tuple_offset p i

  abbrev s : ℕ
  s = get_tuple_size p i

  abbrev f : ℕ
  f = get_free_space_pointer p

  abbrev n : ℕ
  n = length tuple

  abbrev at : ℕ
  at = (f + s + 2 ^ 32 - n) % 2 ^ 32

  abbrev moved_bytes : Bytes
  moved_bytes = move_bytes p at f (o - f)

  sized : Bytes
  sized = set_tuple_size (write_bytes (set_free_space_pointer moved_bytes at) (o + s - n) tuple) i n

  bounds : (f ≤ o) × ((o + s ≤ 4096) × ((at + n ≡ f + s) × (24 + 8 * get_tuple_count p ≤ at)))
  bounds =
      let (z, (b, x)) = not_deleted s d in
      let (a, c) = v.inside i l z in
      (
        a,
        (
          omega (arith, c, x),
          (omega (arith, a, c, x, room, v.top), omega (arith, a, c, x, room, v.top)),
        ),
      )

  -- A field of the header is kept, but for the free space pointer and the size.
  sized_field :
      (b : ℕ)
      → b + 4 ≤ 24 + 8 * get_tuple_count p
      → Apart 16 4 b 4
      → Apart (28 + 8 * i) 4 b 4
      → le32 sized b ≡ le32 p b
  unfolding sized
  sized_field b h a c =
      let (x, (y, (z, w))) = bounds in
      le32-set32-Apart _ (28 + 8 * i) n b c
      ∙ le32-write_bytes _ (o + s - n) tuple b (inr (omega (arith, x, z, w)))
      ∙ le32-set32-Apart _ 16 at b a
      ∙ le32-cong p moved_bytes b λ k m u. move_bytes_below p at f (o - f) k (omega (arith, w))

  sized_byte :
      (b : ℕ)
      → 24 + 8 * get_tuple_count p ≤ b
      → sized b ≡ write_bytes (set_free_space_pointer moved_bytes at) (o + s - n) tuple b
  unfolding sized
  sized_byte b h = set32-Apart _ (28 + 8 * i) n b (inl (omega (arith, l)))

  sized_outside :
      (b : ℕ) → 24 + 8 * get_tuple_count p ≤ b → Apart (o + s - n) n b 1 → sized b ≡ moved_bytes b
  sized_outside b h a =
      sized_byte b h
      ∙ write_bytes-Apart _ (o + s - n) tuple b a
      ∙ set32-Apart moved_bytes 16 at b (inl (omega arith))

  sized_count : get_tuple_count sized ≡ get_tuple_count p
  sized_count = sized_field 20 (omega arith) (inl (omega arith)) (inr (omega arith))

  sized_pointer : get_free_space_pointer sized ≡ at
  unfolding sized
  sized_pointer =
      let (x, (y, (z, w))) = bounds in
      le32-set32-Apart _ (28 + 8 * i) n 16 (inr (omega arith))
      ∙ le32-write_bytes _ (o + s - n) tuple 16 (inr (omega (arith, x, z, w)))
      ∙ le32-set32 _ 16 at (omega arith)

  sized_here : get_tuple_size sized i ≡ n
  unfolding sized
  sized_here =
      let (x, (y, (z, w))) = bounds in le32-set32 _ (28 + 8 * i) n (omega (arith, x, y, z, v.top))

  replaced : Bytes
  replaced = update_offsets sized o s n

  field_kept : (b : ℕ) → ((j : ℕ) → Apart (24 + 8 * j) 4 b 4) → le32 replaced b ≡ le32 sized b
  unfolding replaced
  field_kept b a =
      adjust_offsets_field (reached ((o + s) % 2 ^ 32)) (moved_by s n) (moved_by-lt s n) sized 0
        (get_tuple_count sized) b λ j _ _. a j

  byte_kept : (b : ℕ) → 24 + 8 * get_tuple_count p ≤ b → replaced b ≡ sized b
  unfolding replaced
  byte_kept b h =
      adjust_offsets_byte (reached ((o + s) % 2 ^ 32)) (moved_by s n) (moved_by-lt s n) sized 0
        (get_tuple_count sized) b (omega (arith, sized_count))

  offset_new :
      (j : ℕ)
      → j < get_tuple_count p
      → get_tuple_offset replaced j ≡ updated o s n (get_tuple_size sized j) (get_tuple_offset p j)
  unfolding replaced
  offset_new j h =
      adjust_offsets_offset (reached ((o + s) % 2 ^ 32)) (moved_by s n) (moved_by-lt s n) sized 0
        (get_tuple_count sized) j (omega arith) (omega (arith, sized_count))
      ∙ ap (λ a. updated o s n (get_tuple_size sized j) a)
          (sized_field (24 + 8 * j) (omega arith) (inl (omega arith)) (size_offset-Apart i j))

  size_kept : (j : ℕ) → j < get_tuple_count p → j ≢ i → get_tuple_size sized j ≡ get_tuple_size p j
  size_kept j h m = sized_field (28 + 8 * j) (omega arith) (inl (omega arith)) (sizes-Apart i j m)

  updated_here : updated o s n n o + n ≡ o + s
  updated_here = let (x, (y, (z, w))) = bounds in ground (arith, x, y, z, w, ne, not_deleted s d)

  offset_here_lem : get_tuple_offset replaced i + n ≡ o + s
  offset_here_lem =
      ap (λ a. a + n) (offset_new i l ∙ ap (λ z. updated o s n z o) sized_here) ∙ updated_here

  held_here : Holds replaced (get_tuple_offset replaced i) tuple
  held_here =
      let (x, (y, (z, w))) = bounds in
      subst (λ a. Holds replaced a tuple) {x = o + s - n} {y = get_tuple_offset replaced i}
        (omega (arith, offset_here_lem))
        (Holds-cong (write_bytes (set_free_space_pointer moved_bytes at) (o + s - n) tuple) replaced
          (o + s - n) tuple
          (λ b g h. byte_kept b (omega (arith, x, z, w)) ∙ sized_byte b (omega (arith, x, z, w)))
          (Holds-write_bytes (set_free_space_pointer moved_bytes at) (o + s - n) tuple))

  replaced-Replaced : Replaced p replaced i tuple
  replaced-Replaced = record {
    count = field_kept 20 (λ j. inr (omega arith)) ∙ sized_count;
    pointer =
        ap (λ a. a + n) (field_kept 16 (λ j. inr (omega arith)) ∙ sized_pointer) ∙ (bounds.1).1.0;
    size_here = field_kept (28 + 8 * i) (λ j. offset_size-Apart j i) ∙ sized_here;
    size_other = λ j h m. field_kept (28 + 8 * j) (λ k. offset_size-Apart k j) ∙ size_kept j h m;
    offset_here = offset_here_lem;
    offset_other = λ j h m.
        offset_new j h ∙ ap (λ z. updated o s n z (get_tuple_offset p j)) (size_kept j h m);
    held = held_here;
    moved = λ b c g h e.
        let (x, (y, (z, w))) = bounds in
        byte_kept c (omega (arith, x, z, w))
        ∙ sized_outside c (omega (arith, x, z, w)) (inr (omega (arith, x, z, w)))
        ∙ ap moved_bytes {x = c} {y = at + (b - f)} (omega (arith, x, z, w))
        ∙ move_bytes_inside p at f (o - f) (b - f) (omega arith)
        ∙ ap p {x = f + (b - f)} {y = b} (omega arith);
    kept = λ b g.
        let (x, (y, (z, w))) = bounds in
        byte_kept b (omega (arith, x, z, w))
        ∙ sized_outside b (omega (arith, x, z, w)) (inl (omega (arith, x, z, w)))
        ∙ move_bytes_above p at f (o - f) b (omega (arith, x, z, w));
  }

-- What `UpdateTuple` makes of a page with room.
pub replace_tuple-Replaced :
    (p : Bytes) (i : ℕ) (tuple : List ℕ)
    → IsValid p
    → i < get_tuple_count p
    → is_deleted (get_tuple_size p i) ≡ false
    → 24 + 8 * get_tuple_count p + length tuple ≤ get_free_space_pointer p + get_tuple_size p i
    → length tuple ≢ 0
    → Replaced p (replace_tuple p i (length tuple) tuple) i tuple
unfolding replace_tuple replaced sized
replace_tuple-Replaced p i tuple v l d room ne = replaced-Replaced p i tuple v l d room ne
