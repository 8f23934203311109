-- ===== src/Page/TablePage/Deletion/Compaction.antt =====
-- `ApplyDelete` keeps every other tuple and the page well formed.
use dis_minisql.Prelude.{
  ℕ, ◌+◌, ◌%◌, ◌^◌, ◌<◌, ◌≤◌, ◌≡◌, ◌≢◌, ◌⊎◌, inl, inr, refl, sym, ap, subst, ◌∙◌, false, some, none,
  ◌==◌, ==_ne, ==_self, if◌then◌else◌, arith,
}
use native.Mathlib.Decide.{ℕ_discrete}
use dis_minisql.Storage.Disk.{Bytes}
use dis_minisql.Memory.{read_bytes}
use dis_minisql.Memory.Framing.{read_bytes-cong, read_bytes-moved}
use dis_minisql.Page.TablePage.{
  get_free_space_pointer, get_tuple_count, get_tuple_offset, get_tuple_size, is_deleted,
  apply_delete,
}
use dis_minisql.Page.TablePage.Access.{Apart, Apart-cong}
use dis_minisql.Page.TablePage.View.{
  tuple_at, IsValid, extent, tuple_at-cong, tuple_at-deleted, not_deleted,
}
use dis_minisql.Page.TablePage.Deletion.{shifted, Removed, apply_delete-Removed}

-- A tuple below the deleted one moves up by its size, and one above stays.
abbrev Moves : ℕ → ℕ → ℕ → ℕ → ℕ → Type 0
Moves o s a m b = ((a + m ≤ o) × (b ≡ a + s)) ⊎ ((o + s ≤ a) × (b ≡ a))

shifted-Moves :
    (o s z a m : ℕ)
    → z ≢ 0
    → m ≢ 0
    → a + m ≤ 4096
    → o + s ≤ 4096
    → Apart o s a m
    → Moves o s a m (shifted o s z a)
shifted-Moves o s z a m nz nm h k (inl e) = inr (e, ground (arith, e, nz))
shifted-Moves o s z a m nz nm h k (inr e) = inl (e, ground (arith, e, nz, nm))

Moves-Apart :
    (o s a m c b n d : ℕ) → Moves o s a m c → Moves o s b n d → Apart a m b n → Apart c m d n
Moves-Apart o s a m c b n d (inl (x, e)) (inl (y, g)) (inl h) = inl (omega arith)
Moves-Apart o s a m c b n d (inl (x, e)) (inl (y, g)) (inr h) = inr (omega arith)
Moves-Apart o s a m c b n d (inl (x, e)) (inr (y, g)) h = inl (omega arith)
Moves-Apart o s a m c b n d (inr (x, e)) (inl (y, g)) h = inr (omega arith)
Moves-Apart o s a m c b n d (inr (x, e)) (inr (y, g)) (inl h) = inl (omega arith)
Moves-Apart o s a m c b n d (inr (x, e)) (inr (y, g)) (inr h) = inr (omega arith)

Moves-inside :
    (o s a m b f : ℕ)
    → Moves o s a m b
    → f ≤ a
    → f ≤ o
    → a + m ≤ 4096
    → o + s ≤ 4096
    → (f + s ≤ b) × (b + m ≤ 4096)
Moves-inside o s a m b f (inl (x, e)) g k h t = (omega arith, omega arith)
Moves-inside o s a m b f (inr (x, e)) g k h t = (omega arith, omega arith)

module _ (p q : Bytes) (i : ℕ) (v : IsValid p) (l : i < get_tuple_count p)
    (z : get_tuple_size p i ≢ 0) (d : Removed p q i) where
  other : (j : ℕ) → get_tuple_size q j ≢ 0 → j ≢ i
  other j n e = n (ap (λ k. get_tuple_size q k) e ∙ d.size_here)

  inside_p : (j : ℕ) → j < get_tuple_count q → j < get_tuple_count p
  inside_p j h = omega (arith, d.count)

  live : (j : ℕ) → j < get_tuple_count q → get_tuple_size q j ≢ 0 → get_tuple_size p j ≢ 0
  live j h n e = n (d.size_other j (inside_p j h) (other j n) ∙ e)

  extent_kept : (j : ℕ) → j < get_tuple_count q → j ≢ i → extent q j ≡ extent p j
  extent_kept j h n = ap (λ s. s % 2 ^ 31) (d.size_other j (inside_p j h) n)

  moves :
      (j : ℕ)
      → j < get_tuple_count p
      → j ≢ i
      → get_tuple_size p j ≢ 0
      → Moves
          (get_tuple_offset p i)
          (extent p i)
          (get_tuple_offset p j)
          (extent p j)
          (get_tuple_offset q j)
  moves j h n s =
      subst (λ o. Moves (get_tuple_offset p i) (extent p i) (get_tuple_offset p j) (extent p j) o)
        (sym (d.offset_other j h n))
        (shifted-Moves (get_tuple_offset p i) (extent p i) (get_tuple_size p j)
          (get_tuple_offset p j) (extent p j) s (v.used j h s) ((v.inside j h s).1)
          ((v.inside i l z).1) (v.apart i j l h (λ e. n (sym e)) z s))

  Removed-IsValid : IsValid q
  Removed-IsValid = record {
    room = omega (arith, d.count, d.pointer, v.room);
    top = omega (arith, d.pointer, (v.inside i l z).0, (v.inside i l z).1);
    word = λ j h. elim (ℕ_discrete j i) [
      | yes e ↦ omega (arith, ap (λ k. get_tuple_size q k) e, d.size_here)
      | no n ↦ omega (arith, d.size_other j (inside_p j h) n, v.word j (inside_p j h))
    ];
    used = λ j h s e. v.used j (inside_p j h) (live j h s) (sym (extent_kept j h (other j s)) ∙ e);
    inside = λ j h s.
        let k = inside_p j h in
        let n = other j s in
        let (a, b) = v.inside j k (live j h s) in
        let (c, t) = v.inside i l z in
        let (x, y) = Moves-inside _ _ _ _ _ _ (moves j k n (live j h s)) a c b t in
        (omega (arith, x, d.pointer), omega (arith, y, extent_kept j h n));
    apart = λ j k a b n s t.
        Apart-cong (get_tuple_offset q j) (get_tuple_offset q k) (extent p j) (extent p k)
          (get_tuple_offset q j) (get_tuple_offset q k) (extent q j) (extent q k) refl refl
          (extent_kept j a (other j s)) (extent_kept k b (other k t))
          (Moves-Apart (get_tuple_offset p i) (extent p i) (get_tuple_offset p j) (extent p j)
            (get_tuple_offset q j) (get_tuple_offset p k) (extent p k) (get_tuple_offset q k)
            (moves j (inside_p j a) (other j s) (live j a s))
            (moves k (inside_p k b) (other k t) (live k b t))
            (v.apart j k (inside_p j a) (inside_p k b) n (live j a s) (live k b t)));
  }

  kept_bytes :
      (j : ℕ)
      → j < get_tuple_count p
      → j ≢ i
      → is_deleted (get_tuple_size p j) ≡ false
      → read_bytes q (get_tuple_offset q j) (get_tuple_size p j)
        ≡ read_bytes p (get_tuple_offset p j) (get_tuple_size p j)
  kept_bytes j h n e =
      let (s, (_, x)) = not_deleted (get_tuple_size p j) e in
      let (a, b) = v.inside j h s in
      elim (moves j h n s) [
        | inl (u, w) ↦
            ap (λ o. read_bytes q o (get_tuple_size p j)) w
            ∙ read_bytes-moved p q (get_tuple_offset p j) (extent p i) (get_tuple_size p j)
                λ b f g. d.moved b (omega (arith, a, f)) (omega (arith, u, x, g))
        | inr (u, w) ↦
            ap (λ o. read_bytes q o (get_tuple_size p j)) w
            ∙ read_bytes-cong p q (get_tuple_offset p j) (get_tuple_size p j)
                λ b f g. d.kept b (omega (arith, u, f))
      ]

  tuple_at-Removed : (j : ℕ) → tuple_at q j ≡ (if j == i then none else tuple_at p j)
  tuple_at-Removed j = elim (ℕ_discrete j i) [
    | yes e ↦
        tuple_at-deleted q j (ap is_deleted (ap (λ k. get_tuple_size q k) e ∙ d.size_here))
        ∙ sym (ap (λ b. if b then none else tuple_at p j) (ap (λ k. k == i) e ∙ ==_self i))
    | no n ↦
        tuple_at-cong p q j (λ h. omega (arith, d.count))
          (λ h. (inside_p j h, d.size_other j (inside_p j h) n))
          (λ h e. kept_bytes j (inside_p j h) n e)
        ∙ sym (ap (λ b. if b then none else tuple_at p j) (==_ne j i n))
  ]

-- ApplyDelete of a slot in use on a well-formed page frees that slot alone: every other tuple keeps
-- its bytes, which move up where they lie below, and the page stays well formed.
pub apply_delete-compacts :
    (p : Bytes) (i : ℕ)
    → IsValid p
    → i < get_tuple_count p
    → get_tuple_size p i ≢ 0
    → (q : Bytes) × ((apply_delete p i ≡ some q)
        × (IsValid q
            × ((get_free_space_pointer q ≡ get_free_space_pointer p + extent p i)
                × ((j : ℕ) → tuple_at q j ≡ (if j == i then none else tuple_at p j)))))
apply_delete-compacts p i v l z =
    let (q, (e, d)) = apply_delete-Removed p i v l z in
    (q, (e, (Removed-IsValid p q i v l z d, (d.pointer, tuple_at-Removed p q i v l z d))))
