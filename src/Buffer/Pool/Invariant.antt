-- ===== src/Buffer/Pool/Invariant.antt =====
-- The well-formed buffer pool: its table, its free list and its replacer agree on every frame.
use dis_minisql.Prelude.{
  ℕ, ◌≡◌, ◌≢◌, ◌<◌, refl, true, false, not, ◌&&◌, Option, some, none, List, arith, mem, Distinct,
  ◌==◌, if◌then◌else◌,
}
use dis_minisql.Buffer.Replacer.{Replacer}
use dis_minisql.Buffer.Pool.{Pool, same_id, set_entry}

pub same→eq : (p q : Option ℕ) → same_id p q ≡ true → p ≡ q
same→eq none none h = refl
same→eq none (some q) h = ground arith
same→eq (some p) none h = ground arith
same→eq (some p) (some q) h = ground arith

pub same_self : (p : Option ℕ) → same_id p p ≡ true
same_self none = refl
same_self (some p) = ground arith

-- The value of a map of ids after one entry changes.
pub set_entry_lem :
    (table : Option ℕ → Option ℕ) (p q f : Option ℕ)
    → set_entry table p f q ≡ (if same_id p q then f else table q)
set_entry_lem table p q f = refl

module _ (R : Replacer) where
  -- `q` lists the frames in the replacer: those in use that nobody has pinned.
  pub record IsValid (b : Pool R.State) (q : List ℕ) : Type 0 where
    pub represents : R.Represents b.pool_size b.replacer q
    pub queue_below : (f : ℕ) → mem f q ≡ true → f < b.pool_size
    pub queued :
        (f : ℕ)
        → f < b.pool_size
        → mem f q ≡ ((b.pages f).pin_count == 0 && not (mem f b.free_list))
    pub free_below : (f : ℕ) → mem f b.free_list ≡ true → f < b.pool_size
    pub free_distinct : Distinct b.free_list
    pub free_blank :
        (f : ℕ)
        → mem f b.free_list ≡ true
        → ((b.pages f).page_id ≡ none)
          × ((b.pages f).pin_count ≡ 0)
          × ((b.pages f).is_dirty ≡ false)
    pub entry :
        (p : Option ℕ) (f : ℕ)
        → b.page_table p ≡ some f
        → (f < b.pool_size) × ((b.pages f).page_id ≡ p) × (mem f b.free_list ≡ false)
    pub resident :
        (f : ℕ)
        → f < b.pool_size
        → mem f b.free_list ≡ false
        → b.page_table (b.pages f).page_id ≡ some f
    pub no_entry : b.page_table none ≡ none

  -- The pool between the choice of a frame and its use: as well formed, but for the frame.
  pub record Reserved (b : Pool R.State) (f : ℕ) (q : List ℕ) : Type 0 where
    pub represents : R.Represents b.pool_size b.replacer q
    pub queue_below : (g : ℕ) → mem g q ≡ true → g < b.pool_size
    pub queued :
        (g : ℕ)
        → g < b.pool_size
        → f ≢ g
        → mem g q ≡ ((b.pages g).pin_count == 0 && not (mem g b.free_list))
    pub free_below : (g : ℕ) → mem g b.free_list ≡ true → g < b.pool_size
    pub free_distinct : Distinct b.free_list
    pub free_blank :
        (g : ℕ)
        → mem g b.free_list ≡ true
        → ((b.pages g).page_id ≡ none)
          × ((b.pages g).pin_count ≡ 0)
          × ((b.pages g).is_dirty ≡ false)
    pub entry :
        (p : Option ℕ) (g : ℕ)
        → b.page_table p ≡ some g
        → (g < b.pool_size) × ((b.pages g).page_id ≡ p) × (mem g b.free_list ≡ false)
    pub resident :
        (g : ℕ)
        → g < b.pool_size
        → f ≢ g
        → mem g b.free_list ≡ false
        → b.page_table (b.pages g).page_id ≡ some g
    pub no_entry : b.page_table none ≡ none
    pub frame_below : f < b.pool_size
    pub frame_out : mem f q ≡ false
    pub frame_taken : mem f b.free_list ≡ false
    pub frame_unpinned : (b.pages f).pin_count ≡ 0
    pub frame_owner : (g : ℕ) → b.page_table (b.pages f).page_id ≡ some g → g ≡ f
