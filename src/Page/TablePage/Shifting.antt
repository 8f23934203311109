-- ===== src/Page/TablePage/Shifting.antt =====
-- The loops over the slots: they change the offsets of the tuples that pass a test, and nothing
-- else.
use dis_minisql.Prelude.{
  Bool, ℕ, zero, suc, ◌+◌, ◌*◌, ◌^◌, ◌<◌, ◌≤◌, ◌≡◌, inl, refl, sym, ap, ◌∙◌, if◌then◌else◌, arith,
}
use native.Mathlib.Decide.{ℕ_discrete}
use dis_minisql.Storage.Disk.{Bytes, le32}
use dis_minisql.Page.TablePage.{get_tuple_offset, get_tuple_size, set_tuple_offset, adjust_offsets}
use dis_minisql.Page.TablePage.Access.{
  Apart, set32-Apart, le32-set32-Apart, le32-set32, offsets-Apart, offset_size-Apart,
}

module _ (test : ℕ → ℕ → Bool) (target : ℕ → ℕ) (bound : (o : ℕ) → target o < 2 ^ 32) where
  -- Where a tuple of a size and an offset stands afterwards.
  abbrev pub adjusted : ℕ → ℕ → ℕ
  adjusted size o = if test size o then target o else o

  step : Bytes → ℕ → Bytes
  step p i =
      if test (get_tuple_size p i) (get_tuple_offset p i)
      then set_tuple_offset p i (target (get_tuple_offset p i))
      else p

  step_field : (p : Bytes) (i b : ℕ) → Apart (24 + 8 * i) 4 b 4 → le32 (step p i) b ≡ le32 p b
  unfolding step
  step_field p i b a =
      ground (arith, le32-set32-Apart p (24 + 8 * i) (target (get_tuple_offset p i)) b a)

  step_byte : (p : Bytes) (i b : ℕ) → 28 + 8 * i ≤ b → step p i b ≡ p b
  unfolding step
  step_byte p i b l =
      ground
        (arith, set32-Apart p (24 + 8 * i) (target (get_tuple_offset p i)) b (inl (omega arith)))

  step_offset :
      (p : Bytes) (i : ℕ)
      → get_tuple_offset (step p i) i ≡ adjusted (get_tuple_size p i) (get_tuple_offset p i)
  unfolding step
  step_offset p i = ground (
    arith,
    le32-set32 p (24 + 8 * i) (target (get_tuple_offset p i)) (bound (get_tuple_offset p i)),
  )

  pub adjust_offsets_field :
      (p : Bytes) (i n b : ℕ)
      → ((j : ℕ) → i ≤ j → j < i + n → Apart (24 + 8 * j) 4 b 4)
      → le32 (adjust_offsets p i n test target) b ≡ le32 p b
  unfolding adjust_offsets step
  adjust_offsets_field p i zero b a = refl
  adjust_offsets_field p i (suc n) b a =
      adjust_offsets_field (step p i) (i + 1) n b (λ j l u. a j (omega arith) (omega arith))
      ∙ step_field p i b (a i (omega arith) (omega arith))

  pub adjust_offsets_byte :
      (p : Bytes) (i n b : ℕ) → 24 + 8 * (i + n) ≤ b → adjust_offsets p i n test target b ≡ p b
  unfolding adjust_offsets step
  adjust_offsets_byte p i zero b l = refl
  adjust_offsets_byte p i (suc n) b l =
      adjust_offsets_byte (step p i) (i + 1) n b (omega arith) ∙ step_byte p i b (omega arith)

  pub adjust_offsets_offset :
      (p : Bytes) (i n j : ℕ)
      → i ≤ j
      → j < i + n
      → get_tuple_offset (adjust_offsets p i n test target) j
        ≡ adjusted (get_tuple_size p j) (get_tuple_offset p j)
  unfolding adjust_offsets step
  adjust_offsets_offset p i zero j l u = absurd (omega arith)
  adjust_offsets_offset p i (suc n) j l u = elim (ℕ_discrete j i) [
    | yes e ↦
        adjust_offsets_field (step p i) (i + 1) n (24 + 8 * j)
          (λ k f g. offsets-Apart k j λ h. omega (arith, e, h))
        ∙ ap (λ k. get_tuple_offset (step p i) k) e
        ∙ step_offset p i
        ∙ ap (λ k. adjusted (get_tuple_size p k) (get_tuple_offset p k)) (sym e)
    | no ne ↦
        adjust_offsets_offset (step p i) (i + 1) n j (ground (arith, ne)) (omega arith)
        ∙ ap (λ z. adjusted z (get_tuple_offset (step p i) j))
            (step_field p i (28 + 8 * j) (offset_size-Apart i j))
        ∙ ap (λ o. adjusted (get_tuple_size p j) o)
            (step_field p i (24 + 8 * j) (offsets-Apart i j ne))
  ]
