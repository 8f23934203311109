-- ===== src/Page/TablePage/Insertion.antt =====
-- `InsertTuple` enters a tuple in an unused slot and keeps the others.
use dis_minisql.Prelude.{
  ℕ, zero, suc, ◌+◌, ◌*◌, ◌%◌, ◌^◌, ◌<◌, ◌≤◌, ◌≡◌, ◌≢◌, ◌⊎◌, inl, inr, sym, ap, ◌∙◌, false, some,
  List, length, ◌==◌, ==_self, ==_ne, ==→eq, if◌then◌else◌, arith, Bool-cases,
}
use native.Mathlib.Decide.{ℕ_discrete}
use dis_minisql.Storage.Disk.{Bytes}
use dis_minisql.Memory.{read_bytes}
use dis_minisql.Memory.Reading.{read_bytes-Holds}
use dis_minisql.Memory.Framing.{read_bytes-cong}
use dis_minisql.Page.TablePage.{
  get_free_space_pointer, get_tuple_count, get_tuple_offset, get_tuple_size, is_deleted, empty_slot,
}
use dis_minisql.Page.TablePage.Access.{Apart-cong}
use dis_minisql.Page.TablePage.View.{
  tuple_at, IsValid, extent, tuple_at-there, tuple_at-cong, not_deleted,
}
use dis_minisql.Page.TablePage.Placement.{Placed}

-- The search for a slot ends at one without a tuple, or behind all.
pub empty_slot-IsEmpty :
    (p : Bytes) (i n : ℕ)
    → (i ≤ empty_slot p i n)
      × ((empty_slot p i n ≤ i + n)
          × ((empty_slot p i n ≡ i + n) ⊎ (get_tuple_size p (empty_slot p i n) ≡ 0)))
unfolding empty_slot
empty_slot-IsEmpty p i zero = (omega arith, (omega arith, inl (omega arith)))
empty_slot-IsEmpty p i (suc n) = elim (Bool-cases (get_tuple_size p i == 0)) [
  | inl e ↦ rw e (omega arith, (omega arith, inr (==→eq _ 0 e)))
  | inr e ↦
      let (l, (u, c)) = empty_slot-IsEmpty p (i + 1) n in
      rw e (
        omega (arith, l),
        (omega (arith, u), elim c [ inl h ↦ inl (omega (arith, h)) | inr h ↦ inr h ]),
      )
]

-- The slot is unused: behind the last, or without a tuple.
abbrev pub IsUnused : Bytes → ℕ → Type 0
IsUnused p i = (i ≡ get_tuple_count p) ⊎ ((i < get_tuple_count p) × (get_tuple_size p i ≡ 0))

module _ (p q : Bytes) (i : ℕ) (tuple : List ℕ) (v : IsValid p) (u : IsUnused p i)
    (d : Placed p q i tuple) where
  old_slot : (j : ℕ) → j < get_tuple_count q → j ≢ i → j < get_tuple_count p
  old_slot j l n = ground (arith, d.count, l, n)

  more_slots : get_tuple_count p ≤ get_tuple_count q
  more_slots = ground (arith, d.count)

  here : i < get_tuple_count q
  here = ground (arith, d.count, u)

  size_old : (j : ℕ) → j < get_tuple_count q → j ≢ i → get_tuple_size q j ≡ get_tuple_size p j
  size_old j l n = d.size_other j (old_slot j l n) n

  offset_old : (j : ℕ) → j < get_tuple_count q → j ≢ i → get_tuple_offset q j ≡ get_tuple_offset p j
  offset_old j l n = d.offset_other j (old_slot j l n) n

  extent_old : (j : ℕ) → j < get_tuple_count q → j ≢ i → extent q j ≡ extent p j
  extent_old j l n = ap (λ s. s % 2 ^ 31) (size_old j l n)

  inside_old :
      (j : ℕ)
      → j < get_tuple_count q
      → j ≢ i
      → get_tuple_size q j ≢ 0
      → (get_free_space_pointer p ≤ get_tuple_offset q j)
        × (get_tuple_offset q j + extent q j ≤ 4096)
  inside_old j l n s =
      let (a, b) = v.inside j (old_slot j l n) (λ z. s (size_old j l n ∙ z)) in
      (omega (arith, offset_old j l n), omega (arith, offset_old j l n, extent_old j l n, b))

  size_new : (j : ℕ) → j ≡ i → get_tuple_size q j ≡ length tuple
  size_new j e = ap (λ k. get_tuple_size q k) e ∙ d.size_here

  offset_new : (j : ℕ) → j ≡ i → get_tuple_offset q j ≡ get_free_space_pointer q
  offset_new j e = ap (λ k. get_tuple_offset q k) e ∙ d.offset_here

  extent_new : (j : ℕ) → j ≡ i → extent q j ≡ length tuple
  extent_new j e = omega (arith, ap (λ s. s % 2 ^ 31) (size_new j e), d.pointer, v.top)

  -- The page with the new tuple is well formed.
  pub Placed-IsValid :
      length tuple ≢ 0 → 24 + 8 * get_tuple_count q ≤ get_free_space_pointer q → IsValid q
  Placed-IsValid ne room = record {
    room = room;
    top = omega (arith, d.pointer, v.top);
    word = λ j l. elim (ℕ_discrete j i) [
      | yes e ↦ omega (arith, size_new j e, d.pointer, v.top)
      | no n ↦ omega (arith, size_old j l n, v.word j (old_slot j l n))
    ];
    used = λ j l s. elim (ℕ_discrete j i) [
      | yes e ↦ λ z. ne (sym (extent_new j e) ∙ z)
      | no n ↦
          λ z. v.used j (old_slot j l n) (λ y. s (size_old j l n ∙ y)) (sym (extent_old j l n) ∙ z)
    ];
    inside = λ j l s. elim (ℕ_discrete j i) [
      | yes e ↦ (
        omega (arith, offset_new j e),
        omega (arith, offset_new j e, extent_new j e, d.pointer, v.top),
      )
      | no n ↦ (omega (arith, (inside_old j l n s).0, d.pointer), (inside_old j l n s).1)
    ];
    apart = λ j k l m n s t. elim (ℕ_discrete j i) [
      | yes e ↦ elim (ℕ_discrete k i) [
        | yes f ↦ absurd (n (e ∙ sym f))
        | no f ↦
            inl (omega (arith, offset_new j e, extent_new j e, d.pointer, (inside_old k m f t).0))
      ]
      | no e ↦ elim (ℕ_discrete k i) [
        | yes f ↦
            inr (omega (arith, offset_new k f, extent_new k f, d.pointer, (inside_old j l e s).0))
        | no f ↦
            Apart-cong (get_tuple_offset p j) (get_tuple_offset p k) (extent p j) (extent p k)
              (get_tuple_offset q j) (get_tuple_offset q k) (extent q j) (extent q k)
              (offset_old j l e) (offset_old k m f) (extent_old j l e) (extent_old k m f)
              (v.apart j k (old_slot j l e) (old_slot k m f) n (λ z. s (size_old j l e ∙ z))
                (λ z. t (size_old k m f ∙ z)))
      ]
    ];
  }

  tuple_here : length tuple ≢ 0 → tuple_at q i ≡ some tuple
  tuple_here ne =
      tuple_at-there q i here (ap is_deleted d.size_here ∙ present)
      ∙ ap some (
          ap (λ n. read_bytes q n (get_tuple_size q i)) d.offset_here
          ∙ ap (λ n. read_bytes q (get_free_space_pointer q) n) d.size_here
          ∙ read_bytes-Holds q (get_free_space_pointer q) tuple d.held)
    where
      present : is_deleted (length tuple) ≡ false
      present = ground (arith, d.pointer, v.top, ne)

  tuple_other : (j : ℕ) → j ≢ i → tuple_at q j ≡ tuple_at p j
  tuple_other j n =
      tuple_at-cong p q j (λ l. omega (arith, more_slots)) (λ l. (old_slot j l n, size_old j l n))
        (λ l e.
          let k = old_slot j l n in
          let (s, (b, x)) = not_deleted (get_tuple_size p j) e in
          let (a, c) = v.inside j k s in
          ap (λ o. read_bytes q o (get_tuple_size p j)) (offset_old j l n)
          ∙ read_bytes-cong p q (get_tuple_offset p j) (get_tuple_size p j)
              λ b f g. d.kept b (omega arith))

  -- The new tuple stands in its slot, and the other slots hold what they held.
  pub tuple_at-Placed :
      length tuple ≢ 0 → (j : ℕ) → tuple_at q j ≡ (if j == i then some tuple else tuple_at p j)
  tuple_at-Placed ne j = elim (ℕ_discrete j i) [
    | yes e ↦ rw (ap (λ k. k == i) e ∙ ==_self i, ap (λ k. tuple_at q k) e, tuple_here ne)
    | no n ↦ rw (==_ne j i n, tuple_other j n)
  ]
