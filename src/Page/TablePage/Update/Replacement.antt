-- ===== src/Page/TablePage/Update/Replacement.antt =====
-- `UpdateTuple` keeps every other tuple and the page well formed.
use dis_minisql.Prelude.{
  ℕ, ◌+◌, ◌*◌, ◌%◌, ◌^◌, ◌<◌, ◌≤◌, ◌≡◌, ◌≢◌, inl, inr, refl, sym, ap, subst, ◌∙◌, false, some, List,
  length, ◌==◌, ==_ne, ==_self, if◌then◌else◌, arith,
}
use native.Mathlib.Decide.{ℕ_discrete}
use dis_minisql.Storage.Disk.{Bytes}
use dis_minisql.Memory.{read_bytes}
use dis_minisql.Memory.Reading.{read_bytes-Holds}
use dis_minisql.Memory.Framing.{read_bytes-cong, read_bytes-shifted}
use dis_minisql.Page.TablePage.{
  get_free_space_pointer, get_tuple_count, get_tuple_offset, get_tuple_size, is_deleted,
}
use dis_minisql.Page.TablePage.Access.{Apart, Apart-cong}
use dis_minisql.Page.TablePage.View.{
  tuple_at, IsValid, extent, tuple_at-cong, tuple_at-there, not_deleted,
}
use dis_minisql.Page.TablePage.Update.{Replaced}
use dis_minisql.Page.TablePage.Update.Moves.{
  Moves, updated-Moves, Moves-Apart, Moves-here, Moves-inside, Apart-flip,
}

module _ (p q : Bytes) (i : ℕ) (tuple : List ℕ) (v : IsValid p) (l : i < get_tuple_count p)
    (e : is_deleted (get_tuple_size p i) ≡ false)
    (room : 24 + 8 * get_tuple_count p + length tuple
      ≤ get_free_space_pointer p + get_tuple_size p i)
    (ne : length tuple ≢ 0) (d : Replaced p q i tuple) where
  abbrev o : ℕ
  o = get_tuple_offset p i

  abbrev s : ℕ
  s = get_tuple_size p i

  abbrev n : ℕ
  n = length tuple

  bounds : (get_free_space_pointer p ≤ o) × (o + s ≤ 4096)
  bounds =
      let (z, (b, x)) = not_deleted s e in let (a, c) = v.inside i l z in (a, omega (arith, c, x))

  inside_p : (j : ℕ) → j < get_tuple_count q → j < get_tuple_count p
  inside_p j h = omega (arith, d.count)

  size_old : (j : ℕ) → j < get_tuple_count q → j ≢ i → get_tuple_size q j ≡ get_tuple_size p j
  size_old j h m = d.size_other j (inside_p j h) m

  extent_old : (j : ℕ) → j < get_tuple_count q → j ≢ i → extent q j ≡ extent p j
  extent_old j h m = ap (λ x. x % 2 ^ 31) (size_old j h m)

  size_new : (j : ℕ) → j ≡ i → get_tuple_size q j ≡ n
  size_new j m = ap (λ k. get_tuple_size q k) m ∙ d.size_here

  offset_new : (j : ℕ) → j ≡ i → get_tuple_offset q j + n ≡ o + s
  offset_new j m = ap (λ k. get_tuple_offset q k + n) m ∙ d.offset_here

  extent_new : (j : ℕ) → j ≡ i → extent q j ≡ n
  extent_new j m = omega (arith, ap (λ x. x % 2 ^ 31) (size_new j m), d.offset_here, bounds.1)

  moves :
      (j : ℕ)
      → j < get_tuple_count p
      → j ≢ i
      → get_tuple_size p j ≢ 0
      → Moves o s n (get_tuple_offset p j) (extent p j) (get_tuple_offset q j)
  moves j h m z =
      subst (λ a. Moves o s n (get_tuple_offset p j) (extent p j) a) (sym (d.offset_other j h m))
        (updated-Moves o s n (get_tuple_size p j) (get_tuple_offset p j) (extent p j) z
          (v.used j h z) ((v.inside j h z).1) (bounds.1) (omega (arith, (v.inside j h z).0, room))
          (Apart-cong o (get_tuple_offset p j) (extent p i) (extent p j) o (get_tuple_offset p j) s
            (extent p j) refl refl (sym ((not_deleted s e).1.1)) refl
            (v.apart i j l h (λ y. m (sym y)) ((not_deleted s e).0) z)))

  live : (j : ℕ) → j < get_tuple_count q → j ≢ i → get_tuple_size q j ≢ 0 → get_tuple_size p j ≢ 0
  live j h m z y = z (size_old j h m ∙ y)

  after_q :
      (j : ℕ)
      → j < get_tuple_count q
      → j ≢ i
      → get_tuple_size q j ≢ 0
      → Moves o s n (get_tuple_offset p j) (extent p j) (get_tuple_offset q j)
  after_q j h m z = moves j (inside_p j h) m (live j h m z)

  disjoint_here :
      (j k : ℕ)
      → j ≡ i
      → k < get_tuple_count q
      → k ≢ i
      → get_tuple_size q k ≢ 0
      → Apart (get_tuple_offset q j) (extent q j) (get_tuple_offset q k) (extent q k)
  disjoint_here j k m h r z =
      Apart-cong (get_tuple_offset q j) (get_tuple_offset q k) n (extent p k) (get_tuple_offset q j)
        (get_tuple_offset q k) (extent q j) (extent q k) refl refl (extent_new j m)
        (extent_old k h r)
        (Moves-here o s n (get_tuple_offset p k) (extent p k) (get_tuple_offset q k)
          (get_tuple_offset q j) (after_q k h r z) (offset_new j m))

  disjoint_old :
      (j k : ℕ)
      → j < get_tuple_count q
      → k < get_tuple_count q
      → j ≢ k
      → j ≢ i
      → k ≢ i
      → get_tuple_size q j ≢ 0
      → get_tuple_size q k ≢ 0
      → Apart (get_tuple_offset q j) (extent q j) (get_tuple_offset q k) (extent q k)
  disjoint_old j k a b m r t y z =
      Apart-cong (get_tuple_offset q j) (get_tuple_offset q k) (extent p j) (extent p k)
        (get_tuple_offset q j) (get_tuple_offset q k) (extent q j) (extent q k) refl refl
        (extent_old j a r) (extent_old k b t)
        (Moves-Apart o s n (get_tuple_offset p j) (extent p j) (get_tuple_offset q j)
          (get_tuple_offset p k) (extent p k) (get_tuple_offset q k) (after_q j a r y)
          (after_q k b t z)
          (v.apart j k (inside_p j a) (inside_p k b) m (live j a r y) (live k b t z)))

  pub Replaced-IsValid : IsValid q
  Replaced-IsValid = record {
    room = omega (arith, d.count, d.pointer, room);
    top = omega (arith, d.pointer, bounds.0, bounds.1, d.offset_here);
    word = λ j h. elim (ℕ_discrete j i) [
      | yes m ↦ omega (arith, size_new j m, d.offset_here, bounds.1)
      | no m ↦ omega (arith, size_old j h m, v.word j (inside_p j h))
    ];
    used = λ j h z. elim (ℕ_discrete j i) [
      | yes m ↦ λ y. ne (sym (extent_new j m) ∙ y)
      | no m ↦ λ y. v.used j (inside_p j h) (live j h m z) (sym (extent_old j h m) ∙ y)
    ];
    inside = λ j h z. elim (ℕ_discrete j i) [
      | yes m ↦ (
        omega (arith, offset_new j m, d.pointer, bounds.0),
        omega (arith, offset_new j m, extent_new j m, bounds.1),
      )
      | no m ↦
          let (a, b) = v.inside j (inside_p j h) (live j h m z) in
          let (x, y) =
            Moves-inside _ _ _ _ _ _ _ (get_free_space_pointer q) (after_q j h m z) a (bounds.0) b
              (bounds.1) d.pointer in
          (x, omega (arith, y, extent_old j h m))
    ];
    apart = λ j k a b m y z. elim (ℕ_discrete j i) [
      | yes r ↦ elim (ℕ_discrete k i) [
        | yes t ↦ absurd (m (r ∙ sym t))
        | no t ↦ disjoint_here j k r b t z
      ]
      | no r ↦ elim (ℕ_discrete k i) [
        | yes t ↦ Apart-flip _ _ _ _ (disjoint_here k j t a r y)
        | no t ↦ disjoint_old j k a b m r t y z
      ]
    ];
  }

  kept_bytes :
      (j : ℕ)
      → j < get_tuple_count p
      → j ≢ i
      → is_deleted (get_tuple_size p j) ≡ false
      → read_bytes q (get_tuple_offset q j) (get_tuple_size p j)
        ≡ read_bytes p (get_tuple_offset p j) (get_tuple_size p j)
  kept_bytes j h m z =
      let (y, (_, x)) = not_deleted (get_tuple_size p j) z in
      let (a, b) = v.inside j h y in
      elim (moves j h m y) [
        | inl (u, w) ↦
            read_bytes-shifted p q (get_tuple_offset p j) (get_tuple_offset q j)
              (get_tuple_size p j)
              λ t k.
                d.moved (get_tuple_offset p j + t) (get_tuple_offset q j + t) (omega (arith, a))
                  (omega (arith, u, x, k)) (omega (arith, w))
        | inr (u, w) ↦
            ap (λ c. read_bytes q c (get_tuple_size p j)) w
            ∙ read_bytes-cong p q (get_tuple_offset p j) (get_tuple_size p j)
                λ c f g. d.kept c (omega (arith, u, f))
      ]

  tuple_here : tuple_at q i ≡ some tuple
  tuple_here =
      tuple_at-there q i (omega (arith, l, d.count)) (ap is_deleted d.size_here ∙ present)
      ∙ ap some (
          ap (λ k. read_bytes q (get_tuple_offset q i) k) d.size_here
          ∙ read_bytes-Holds q (get_tuple_offset q i) tuple d.held)
    where
      present : is_deleted n ≡ false
      present = ground (arith, d.offset_here, bounds.1, ne)

  pub tuple_at-Replaced : (j : ℕ) → tuple_at q j ≡ (if j == i then some tuple else tuple_at p j)
  tuple_at-Replaced j = elim (ℕ_discrete j i) [
    | yes m ↦
        ap (λ k. tuple_at q k) m
        ∙ tuple_here
        ∙ sym (ap (λ b. if b then some tuple else tuple_at p j) (ap (λ k. k == i) m ∙ ==_self i))
    | no m ↦
        tuple_at-cong p q j (λ h. omega (arith, d.count)) (λ h. (inside_p j h, size_old j h m))
          (λ h z. kept_bytes j (inside_p j h) m z)
        ∙ sym (ap (λ b. if b then some tuple else tuple_at p j) (==_ne j i m))
  ]
