-- ===== src/Page/Internal/Adoption.antt =====
-- The loop of `CopyNFrom` over the children: each gets its new parent in its page in the buffer pool.
use dis_minisql.Prelude.{
  ℕ, zero, suc, ◌+◌, ◌^◌, ◌<◌, ◌≤◌, ◌≡◌, ◌⊎◌, refl, ap, ◌∙◌, sym, subst, true, false, Option, some,
  List, arith, Bool-cases, inl, inr, ◌==◌, ==→eq, ==_self, ==_ne, if◌then◌else◌,
}
use dis_minisql.Storage.Disk.{le32}
use dis_minisql.Buffer.Replacer.{Replacer}
use dis_minisql.Buffer.Pool.{Pool}
use dis_minisql.Buffer.Pool.Access.{bytes_of}
use dis_minisql.Buffer.Pool.Invariant.{IsValid}
use dis_minisql.Buffer.Pool.Visit.{visit}
use dis_minisql.Page.TablePage.{word_of}
use dis_minisql.Page.TablePage.Access.{Apart, set32-Apart, le32-set32}
use dis_minisql.Page.TreePage.{KeyManager}
use dis_minisql.Page.Internal.{set_parent_page_id, adopt_child, adopt}

module _ (R : Replacer) where
  open R use {State}

  -- A child in the pool is adopted in its frame, and in no other.
  adopt_child-IsValid :
      (b : Pool State) (q : List ℕ) (p f : ℕ) (parent : Option ℕ)
      → IsValid R b q
      → b.page_table (some p) ≡ some f
      → (b' : Pool State) × (q' : List ℕ) × (adopt_child R b (some p) parent ≡ some b')
        × IsValid R b' q'
        × ((k : Option ℕ) → b'.page_table k ≡ b.page_table k)
        × ((g : ℕ)
            → bytes_of R b' g
              ≡ (if f == g then set_parent_page_id (bytes_of R b f) parent else bytes_of R b g))
        × ((b'.pages f).is_dirty ≡ true)
        × ((g : ℕ) → (f == g) ≡ false → (b'.pages g).is_dirty ≡ (b.pages g).is_dirty)
  unfolding adopt_child
  adopt_child-IsValid b q p f parent v e =
      let (b1, b2, q', fetched, done, w, table, bytes, dirty, clean) =
        visit R b q p f (λ x. set_parent_page_id x parent) v e in
      (b2, q', rw (adopt_child, fetched) (ap some done), w, table, bytes, dirty, clean)

module _ (KM : KeyManager) (R : Replacer) where
  open KM use {GenericKey}
  open R use {State}

  -- The page of one of the next `n` children from `i` on is in the frame.
  abbrev pub HasChild : Pool State → (ℕ → GenericKey × Option ℕ) → ℕ → ℕ → ℕ → Type 0
  HasChild b from i n frame =
      (j : ℕ) × (p : ℕ) × (i ≤ j)
      × (j < i + n)
      × ((from j).1 ≡ some p)
      × (b.page_table (some p) ≡ some frame)

  -- The pages of the next `n` children from `i` on are in the pool.
  abbrev pub Resident : Pool State → (ℕ → GenericKey × Option ℕ) → ℕ → ℕ → Type 0
  Resident b from i n =
      (j : ℕ)
      → i ≤ j
      → j < i + n
      → (p : ℕ) × (f : ℕ) × ((from j).1 ≡ some p) × (b.page_table (some p) ≡ some f)

  -- The pool after the next `n` children from `i` on were adopted: a frame with one of them has the
  -- parent id in its header and is dirty; all other bytes are as they were.
  pub record Adopts (b b' : Pool State) (parent : Option ℕ) (from : ℕ → GenericKey × Option ℕ)
      (i n : ℕ) : Type 0 where
    pub queue : List ℕ
    pub valid : IsValid R b' queue
    pub table : (k : Option ℕ) → b'.page_table k ≡ b.page_table k
    pub has_parent : (g : ℕ) → HasChild b from i n g → le32 (bytes_of R b' g) 20 ≡ word_of parent
    pub keeps_parent :
        (g : ℕ)
        → le32 (bytes_of R b g) 20 ≡ word_of parent
        → le32 (bytes_of R b' g) 20 ≡ word_of parent
    pub is_dirty : (g : ℕ) → HasChild b from i n g → (b'.pages g).is_dirty ≡ true
    pub keeps_dirty : (g : ℕ) → (b.pages g).is_dirty ≡ true → (b'.pages g).is_dirty ≡ true
    pub rest : (g o : ℕ) → Apart 20 4 o 1 → bytes_of R b' g o ≡ bytes_of R b g o
    pub others : (g : ℕ) → (HasChild b from i n g → ⊥) → bytes_of R b' g ≡ bytes_of R b g

  module _ (parent : Option ℕ) (word : word_of parent < 2 ^ 32)
      (from : ℕ → GenericKey × Option ℕ) where
    -- One child, and then the others.
    adopt_step :
        (b b1 b' : Pool State) (p f i n : ℕ)
        → (from i).1 ≡ some p
        → b.page_table (some p) ≡ some f
        → ((k : Option ℕ) → b1.page_table k ≡ b.page_table k)
        → ((g : ℕ)
            → bytes_of R b1 g
              ≡ (if f == g then set_parent_page_id (bytes_of R b f) parent else bytes_of R b g))
        → ((b1.pages f).is_dirty ≡ true)
        → ((g : ℕ) → (f == g) ≡ false → (b1.pages g).is_dirty ≡ (b.pages g).is_dirty)
        → Adopts b1 b' parent from (i + 1) n
        → Adopts b b' parent from i (suc n)
    adopt_step b b1 b' p f i n here at table bytes dirty clean a = record {
      queue = a.queue;
      valid = a.valid;
      table = λ k. a.table k ∙ table k;
      has_parent = λ g h. elim (child_at g h) [
        | inl same ↦
            a.keeps_parent g (subst (λ g. le32 (bytes_of R b1 g) 20 ≡ word_of parent) same own)
        | inr later ↦ a.has_parent g later
      ];
      keeps_parent = λ g h. a.keeps_parent g (first_kept g h);
      is_dirty = λ g h. elim (child_at g h) [
        | inl same ↦ a.keeps_dirty g (subst (λ g. (b1.pages g).is_dirty ≡ true) same dirty)
        | inr later ↦ a.is_dirty g later
      ];
      keeps_dirty = λ g h. a.keeps_dirty g (first_dirty g h);
      rest = λ g o l. a.rest g o l ∙ first_rest g o l;
      others = λ g none_here.
          a.others g (λ (j, q, l, u, e, t).
            none_here (j, q, omega (arith, l), omega (arith, u), e, sym (table (some q)) ∙ t))
          ∙ bytes g
          ∙ rw (==_ne f g (λ e. none_here (i, p, omega arith, omega arith, here, at ∙ ap some e)));
    }
      where
        own : le32 (bytes_of R b1 f) 20 ≡ word_of parent
        own = rw (bytes f, ==_self f) (le32-set32 (bytes_of R b f) 20 (word_of parent) word)

        first_kept :
            (g : ℕ)
            → le32 (bytes_of R b g) 20 ≡ word_of parent
            → le32 (bytes_of R b1 g) 20 ≡ word_of parent
        first_kept g h = elim (Bool-cases (f == g)) [
          | inl same ↦ subst (λ g. le32 (bytes_of R b1 g) 20 ≡ word_of parent) (==→eq f g same) own
          | inr apart ↦ rw (bytes g, apart) h
        ]

        first_rest : (g o : ℕ) → Apart 20 4 o 1 → bytes_of R b1 g o ≡ bytes_of R b g o
        first_rest g o l = elim (Bool-cases (f == g)) [
          | inl same ↦
              rw (bytes g, same)
                (set32-Apart (bytes_of R b f) 20 (word_of parent) o l
                  ∙ ap (λ g. bytes_of R b g o) (==→eq f g same))
          | inr apart ↦ rw (bytes g, apart)
        ]

        some_eq : (f g : ℕ) → some f ≡ some g → f ≡ g
        some_eq f g h = cc

        first_dirty : (g : ℕ) → (b.pages g).is_dirty ≡ true → (b1.pages g).is_dirty ≡ true
        first_dirty g h = elim (Bool-cases (f == g)) [
          | inl same ↦ subst (λ g. (b1.pages g).is_dirty ≡ true) (==→eq f g same) dirty
          | inr apart ↦ clean g apart ∙ h
        ]

        -- The child of a frame is the first one or a later one.
        child_at : (g : ℕ) → HasChild b from i (suc n) g → (f ≡ g) ⊎ HasChild b1 from (i + 1) n g
        child_at g (j, q, l, u, e, t) = elim (Bool-cases (i == j)) [
          | inl same ↦
              let ids : some p ≡ some q = sym here ∙ ap (λ j. (from j).1) (==→eq i j same) ∙ e in
              inl (some_eq f g (sym at ∙ ap b.page_table ids ∙ t))
          | inr apart ↦
              inr (j, q, ground (arith, l, apart), omega (arith, u), e, table (some q) ∙ t)
        ]

    pub adopt-Adopts :
        (n i : ℕ) (b : Pool State) (q : List ℕ)
        → IsValid R b q
        → Resident b from i n
        → (b' : Pool State) × (adopt KM R n b parent from i ≡ some b') × Adopts b b' parent from i n
    unfolding adopt
    adopt-Adopts zero i b q v r = (
      b,
      refl,
      record {
        queue = q;
        valid = v;
        table = λ k. refl;
        has_parent = λ g (j, p, l, u, e, t). absurd (omega (arith, l, u));
        keeps_parent = λ g h. h;
        is_dirty = λ g (j, p, l, u, e, t). absurd (omega (arith, l, u));
        keeps_dirty = λ g h. h;
        rest = λ g o l. refl;
        others = λ g h. refl;
      },
    )
    adopt-Adopts (suc n) i b q v r =
        let (p, f, here, at) = r i (omega arith) (omega arith) in
        let (b1, q1, e, w, table, bytes, dirty, clean) =
          adopt_child-IsValid R b q p f parent v at in
        let (b', e', a) = adopt-Adopts n (i + 1) b1 q1 w (λ j l u.
          let (p', f', h', t') = r j (omega (arith, l)) (omega (arith, u)) in
          (p', f', h', table (some p') ∙ t')) in
        (b', rw (adopt, here, e) e', adopt_step b b1 b' p f i n here at table bytes dirty clean a)
