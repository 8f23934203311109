-- ===== src/Page/FreeSpaceMapPage/Pairs.antt =====
-- What the operations of a free space map page do to its pairs.
use dis_minisql.Prelude.{
  ℕ, zero, suc, ◌+◌, ◌*◌, ◌%◌, ◌^◌, ◌<◌, ◌≤◌, ◌≡◌, ◌⊎◌, inl, inr, refl, sym, ap, ◌∙◌, true, false,
  none, some, leb, ◌==◌, ==_ne, if◌then◌else◌, arith, Bool-cases, ltb, ltb→lt, ltb→le,
}
use native.Mathlib.Decide.{ℕ_discrete}
use dis_minisql.Storage.Disk.{Bytes, le32}
use dis_minisql.Page.TablePage.Access.{Apart, le32-set32-Apart, le32-set32}
use dis_minisql.Page.FreeSpaceMapPage.{
  get_pair_count, get_space_page_id, get_pair_space, set_pair_space, new_pair, find_fit,
  size_max_pair, get_map_next_page_id,
}

module _ (p : Bytes) (page_id free_space : ℕ) (room : get_pair_count p < size_max_pair)
    (id : page_id < 2 ^ 32) (space : free_space < 2 ^ 32) where
  abbrev c : ℕ
  c = get_pair_count p

  abbrev added : Bytes
  added = (new_pair p page_id free_space).0

  added_count : get_pair_count added ≡ c + 1
  unfolding new_pair
  added_count = le32-set32 _ 12 ((c + 1) % 2 ^ 32) (omega arith) ∙ omega arith

  added_field :
      (b : ℕ)
      → Apart 12 4 b 4
      → Apart (16 + 8 * c) 4 b 4
      → Apart (20 + 8 * c) 4 b 4
      → le32 added b ≡ le32 p b
  unfolding new_pair set_pair_space
  added_field b x y z =
      le32-set32-Apart _ 12 ((c + 1) % 2 ^ 32) b x
      ∙ le32-set32-Apart _ (16 + 8 * c) page_id b y
      ∙ le32-set32-Apart p (20 + 8 * c) free_space b z

  added_id : get_space_page_id added c ≡ page_id
  unfolding new_pair
  added_id =
      le32-set32-Apart _ 12 ((c + 1) % 2 ^ 32) (16 + 8 * c) (inl (omega arith))
      ∙ le32-set32 _ (16 + 8 * c) page_id id

  added_space : get_pair_space added c ≡ free_space
  unfolding new_pair set_pair_space
  added_space =
      le32-set32-Apart _ 12 ((c + 1) % 2 ^ 32) (20 + 8 * c) (inl (omega arith))
      ∙ le32-set32-Apart _ (16 + 8 * c) page_id (20 + 8 * c) (inl (omega arith))
      ∙ le32-set32 p (20 + 8 * c) free_space space

-- NewPair on a page with room adds the pair behind the others, which it keeps, and returns their new
-- number.
pub new_pair-adds :
    (p : Bytes) (page_id free_space : ℕ)
    → get_pair_count p < size_max_pair
    → page_id < 2 ^ 32
    → free_space < 2 ^ 32
    → (q : Bytes) × ((new_pair p page_id free_space ≡ (q, get_pair_count p + 1))
        × ((get_pair_count q ≡ get_pair_count p + 1)
            × ((get_map_next_page_id q ≡ get_map_next_page_id p)
                × (((i : ℕ)
                      → i ≤ get_pair_count p
                      → get_space_page_id q i
                        ≡ (if i == get_pair_count p then page_id else get_space_page_id p i))
                    × ((i : ℕ)
                        → i ≤ get_pair_count p
                        → get_pair_space q i
                          ≡ (if i == get_pair_count p then free_space else get_pair_space p i))))))
unfolding new_pair
new_pair-adds p page_id free_space room id space = (
  added p page_id free_space room id space,
  (
    ap (λ n. (added p page_id free_space room id space, n)) count_lem,
    (
      added_count p page_id free_space room id space,
      (
        added_field p page_id free_space room id space 8 (inr (omega arith)) (inr (omega arith))
            (inr (omega arith)),
        (
          λ i l. elim (ℕ_discrete i (get_pair_count p)) [
            | yes e ↦
                ap (λ k. get_space_page_id (added p page_id free_space room id space) k) e
                ∙ added_id p page_id free_space room id space
                ∙ sym (
                    ap (λ b. if b then page_id else get_space_page_id p i)
                      (==_yes i (get_pair_count p) e))
            | no n ↦
                added_field p page_id free_space room id space (16 + 8 * i) (inl (omega arith))
                  (inr (ground (arith, n))) (inr (ground (arith, n)))
                ∙ sym (
                    ap (λ b. if b then page_id else get_space_page_id p i)
                      (==_ne i (get_pair_count p) n))
          ],
          λ i l. elim (ℕ_discrete i (get_pair_count p)) [
            | yes e ↦
                ap (λ k. get_pair_space (added p page_id free_space room id space) k) e
                ∙ added_space p page_id free_space room id space
                ∙ sym (
                    ap (λ b. if b then free_space else get_pair_space p i)
                      (==_yes i (get_pair_count p) e))
            | no n ↦
                added_field p page_id free_space room id space (20 + 8 * i) (inl (omega arith))
                  (inr (ground (arith, n))) (inr (ground (arith, n)))
                ∙ sym (
                    ap (λ b. if b then free_space else get_pair_space p i)
                      (==_ne i (get_pair_count p) n))
          ],
        ),
      ),
    ),
  ),
)
  where
    count_lem : (get_pair_count p + 1) % 2 ^ 32 ≡ get_pair_count p + 1
    count_lem = omega arith

    ==_yes : (i c : ℕ) → i ≡ c → (i == c) ≡ true
    ==_yes i c e = ground arith

-- The loop of GetBegin and GetNext over a page ends with the first pair that has the space, or none
-- has it.
pub find_fit-First :
    (p : Bytes) (need_space i n : ℕ)
    → ((find_fit p need_space i n ≡ none)
        × ((j : ℕ) → i ≤ j → j < i + n → get_pair_space p j < need_space))
      ⊎ ((k : ℕ) × ((find_fit p need_space i n ≡ some k)
            × ((i ≤ k)
                × ((k < i + n)
                    × ((need_space ≤ get_pair_space p k)
                        × ((j : ℕ) → i ≤ j → j < k → get_pair_space p j < need_space))))))
unfolding find_fit
find_fit-First p need_space i zero = inl (refl, λ j l u. absurd (omega arith))
find_fit-First p need_space i (suc n) = elim (Bool-cases (leb need_space (get_pair_space p i))) [
  | inl e ↦ inr (
    i,
    (
      rw e,
      (
        omega arith,
        (omega arith, (fits need_space (get_pair_space p i) e, λ j l u. absurd (omega arith))),
      ),
    ),
  )
  | inr e ↦ elim (find_fit-First p need_space (i + 1) n) [
    | inl (h, all) ↦ inl (rw (e, h), λ j l u. first_or i j l e (λ m. all j m (omega arith)))
    | inr (k, (h, (l, (u, (d, all))))) ↦ inr (
      k,
      (
        rw (e, h),
        (omega (arith, l), (omega (arith, u), (d, λ j m w. first_or i j m e (λ x. all j x w)))),
      ),
    )
  ]
]
  where
    fits : (a b : ℕ) → leb a b ≡ true → a ≤ b
    fits a b h = ground arith

    short : (a b : ℕ) → leb a b ≡ false → b < a
    short a b h = ground arith

    first_or :
        (i j : ℕ)
        → i ≤ j
        → leb need_space (get_pair_space p i) ≡ false
        → (i + 1 ≤ j → get_pair_space p j < need_space)
        → get_pair_space p j < need_space
    first_or i j l e h = elim (Bool-cases (ltb i j)) [
      | inl b ↦ h (omega (arith, ltb→lt i j b))
      | inr b ↦ short need_space (get_pair_space p j) (
          ap (λ k. leb need_space (get_pair_space p k)) {x = j} {y = i}
            (omega (arith, ltb→le i j b))
          ∙ e)
    ]
