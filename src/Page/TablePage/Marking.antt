-- ===== src/Page/TablePage/Marking.antt =====
-- `MarkDelete` and `RollbackDelete`: the size of a slot is set, and nothing else.
use dis_minisql.Prelude.{
  ℕ, ◌+◌, ◌*◌, ◌%◌, ◌^◌, ◌<◌, ◌≤◌, ◌≡◌, ◌≢◌, inl, inr, sym, ap, ◌∙◌, true, false, none, some, List,
  leb, lt→ltb, arith,
}
use native.Mathlib.Decide.{ℕ_discrete}
use dis_minisql.Storage.Disk.{Bytes}
use dis_minisql.Memory.{read_bytes}
use dis_minisql.Memory.Framing.{read_bytes-cong}
use dis_minisql.Page.TablePage.{
  get_free_space_pointer, get_tuple_count, get_tuple_offset, get_tuple_size, is_deleted,
  set_tuple_size, set_deleted_flag, unset_deleted_flag, mark_delete, rollback_delete,
}
use dis_minisql.Page.TablePage.Access.{
  Apart-cong, set32-Apart, le32-set32-Apart, le32-set32, sizes-Apart, size_offset-Apart,
}
use dis_minisql.Page.TablePage.View.{
  tuple_at, IsValid, extent, tuple_at-cong, tuple_at-deleted, not_deleted, tuple_at-some,
}

module _ (p : Bytes) (i x : ℕ) (v : IsValid p) (l : i < get_tuple_count p) (w : x < 2 ^ 32) where
  abbrev resized : Bytes
  resized = set_tuple_size p i x

  resized_count : get_tuple_count resized ≡ get_tuple_count p
  resized_count = le32-set32-Apart p (28 + 8 * i) x 20 (inr (omega arith))

  resized_pointer : get_free_space_pointer resized ≡ get_free_space_pointer p
  resized_pointer = le32-set32-Apart p (28 + 8 * i) x 16 (inr (omega arith))

  resized_offset : (j : ℕ) → get_tuple_offset resized j ≡ get_tuple_offset p j
  resized_offset j = le32-set32-Apart p (28 + 8 * i) x (24 + 8 * j) (size_offset-Apart i j)

  resized_size : (j : ℕ) → j ≢ i → get_tuple_size resized j ≡ get_tuple_size p j
  resized_size j n = le32-set32-Apart p (28 + 8 * i) x (28 + 8 * j) (sizes-Apart i j n)

  resized_here : get_tuple_size resized i ≡ x
  resized_here = le32-set32 p (28 + 8 * i) x w

  resized_byte : (b : ℕ) → get_free_space_pointer p ≤ b → resized b ≡ p b
  resized_byte b h = set32-Apart p (28 + 8 * i) x b (inl (omega (arith, v.room)))

  resized_other : (j : ℕ) → j ≢ i → tuple_at resized j ≡ tuple_at p j
  resized_other j n =
      tuple_at-cong p resized j (λ k. omega (arith, resized_count))
        (λ k. (omega (arith, resized_count), resized_size j n))
        (λ k e.
          let (s, (b, x)) = not_deleted (get_tuple_size p j) e in
          let (a, c) = v.inside j (omega (arith, resized_count)) s in
          ap (λ o. read_bytes resized o (get_tuple_size p j)) (resized_offset j)
          ∙ read_bytes-cong p resized (get_tuple_offset p j) (get_tuple_size p j)
              λ b f g. resized_byte b (omega arith))

  -- Only the mark of a size changes.
  module _ (e : x % 2 ^ 31 ≡ extent p i) (z : get_tuple_size p i ≢ 0) where
    resized-extent : (j : ℕ) → extent resized j ≡ extent p j
    resized-extent j = elim (ℕ_discrete j i) [
      | yes d ↦
          ap (λ k. extent resized k) d
          ∙ ap (λ s. s % 2 ^ 31) resized_here
          ∙ e
          ∙ ap (λ k. extent p k) (sym d)
      | no n ↦ ap (λ s. s % 2 ^ 31) (resized_size j n)
    ]

    resized_live : (j : ℕ) → get_tuple_size resized j ≢ 0 → get_tuple_size p j ≢ 0
    resized_live j s = elim (ℕ_discrete j i) [
      | yes d ↦ λ y. z (ap (λ k. get_tuple_size p k) (sym d) ∙ y)
      | no n ↦ λ y. s (resized_size j n ∙ y)
    ]

    resized_in : (j : ℕ) → j < get_tuple_count resized → j < get_tuple_count p
    resized_in j k = omega (arith, resized_count)

    resized-IsValid : IsValid resized
    resized-IsValid = record {
      room = omega (arith, resized_count, resized_pointer, v.room);
      top = omega (arith, resized_pointer, v.top);
      word = λ j k. elim (ℕ_discrete j i) [
        | yes d ↦ omega (arith, ap (λ k. get_tuple_size resized k) d, resized_here, w)
        | no n ↦ omega (arith, resized_size j n, v.word j (resized_in j k))
      ];
      used = λ j k s y. v.used j (resized_in j k) (resized_live j s) (sym (resized-extent j) ∙ y);
      inside = λ j k s.
          let (a, b) = v.inside j (resized_in j k) (resized_live j s) in
          (
            omega (arith, resized_pointer, resized_offset j, a),
            omega (arith, resized_offset j, resized-extent j, b),
          );
      apart = λ j k a b n s t.
          Apart-cong (get_tuple_offset p j) (get_tuple_offset p k) (extent p j) (extent p k)
            (get_tuple_offset resized j) (get_tuple_offset resized k) (extent resized j)
            (extent resized k) (resized_offset j) (resized_offset k) (resized-extent j)
            (resized-extent k)
            (v.apart j k (resized_in j a) (resized_in k b) n (resized_live j s) (resized_live k t));
    }

mark_delete-marks :
    (p : Bytes) (i : ℕ)
    → i < get_tuple_count p
    → is_deleted (get_tuple_size p i) ≡ false
    → mark_delete p i ≡ (true, set_tuple_size p i (set_deleted_flag (get_tuple_size p i)))
unfolding mark_delete
mark_delete-marks p i l d = rw (not_beyond i (get_tuple_count p) l, d)
  where
    not_beyond : (i n : ℕ) → i < n → leb n i ≡ false
    not_beyond i n l = ground arith

rollback_delete-unmarks :
    (p : Bytes) (i : ℕ)
    → i < get_tuple_count p
    → is_deleted (get_tuple_size p i) ≡ true
    → rollback_delete p i ≡ some (set_tuple_size p i (unset_deleted_flag (get_tuple_size p i)))
unfolding rollback_delete
rollback_delete-unmarks p i l d = rw (lt→ltb i (get_tuple_count p) l, d)

-- MarkDelete of a tuple on a well-formed page takes that tuple alone away, and RollbackDelete then
-- brings it back; both keep the page well formed.
pub rollback_delete-mark_delete :
    (p : Bytes) (i : ℕ) (bs : List ℕ)
    → IsValid p
    → tuple_at p i ≡ some bs
    → (q : Bytes) × ((r : Bytes) × ((mark_delete p i ≡ (true, q))
          × (IsValid q
              × ((tuple_at q i ≡ none)
                  × (((j : ℕ) → j ≢ i → tuple_at q j ≡ tuple_at p j)
                      × ((rollback_delete q i ≡ some r)
                          × (IsValid r × ((j : ℕ) → tuple_at r j ≡ tuple_at p j))))))))
rollback_delete-mark_delete p i bs v h =
    let (l, (d, _)) = tuple_at-some p i bs h in
    let s = get_tuple_size p i in
    let (live, (small, same)) = not_deleted s d in
    let x = set_deleted_flag s in
    let q = set_tuple_size p i x in
    let wx : x < 2 ^ 32 = omega arith in
    let ex : x % 2 ^ 31 ≡ extent p i = omega arith in
    let vq = resized-IsValid p i x v l wx ex live in
    let sq = resized_here p i x v l wx in
    let dq = ap is_deleted sq ∙ marked s in
    let lq : i < get_tuple_count q = omega (arith, resized_count p i x v l wx, l) in
    let y = unset_deleted_flag (get_tuple_size q i) in
    let wy : y < 2 ^ 32 = omega arith in
    let live_q : get_tuple_size q i ≢ 0 = λ z. omega (arith, sq, z) in
    let r = set_tuple_size q i y in
    let sr : get_tuple_size r i ≡ s = omega (arith, resized_here q i y vq lq wy, sq, same) in
    let cr = resized_count q i y vq lq wy ∙ resized_count p i x v l wx in
    let (above, _) = v.inside i l live in
    let bytes =
      ap (λ o. read_bytes r o s) (resized_offset q i y vq lq wy i ∙ resized_offset p i x v l wx i)
      ∙ read_bytes-cong p r (get_tuple_offset p i) s λ b f g.
        resized_byte q i y vq lq wy b (omega (arith, resized_pointer p i x v l wx, above))
        ∙ resized_byte p i x v l wx b (omega (arith, above)) in
    (
      q,
      (
        r,
        (
          mark_delete-marks p i l d,
          (
            vq,
            (
              tuple_at-deleted q i dq,
              (
                resized_other p i x v l wx,
                (
                  rollback_delete-unmarks q i lq dq,
                  (
                    resized-IsValid q i y vq lq wy (omega arith) live_q,
                    λ j. elim (ℕ_discrete j i) [
                      | yes e ↦
                          ap (λ k. tuple_at r k) e
                          ∙ tuple_at-cong p r i (λ k. omega (arith, cr, k)) (λ _. (l, sr))
                              (λ _ _. bytes)
                          ∙ ap (λ k. tuple_at p k) (sym e)
                      | no n ↦ resized_other q i y vq lq wy j n ∙ resized_other p i x v l wx j n
                    ],
                  ),
                ),
              ),
            ),
          ),
        ),
      ),
    )
  where
    marked : (s : ℕ) → is_deleted (set_deleted_flag s) ≡ true
    marked s = ground arith
