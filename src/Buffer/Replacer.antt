-- ===== src/Buffer/Replacer.antt =====
-- include/buffer/replacer.h: the abstract class that the buffer pool uses. A replacer keeps the
-- frames that may be given up; what it promises is stated over a list of those frames.
use dis_minisql.Prelude.{
  ℕ, ◌≡◌, true, Option, some, List, [], ◌∷◌, ltb, mem, erase, Distinct, if◌then◌else◌, length,
}

-- A frame above the bound is refused; any other is in the list once, or not at all.
abbrev pub without : ℕ → List ℕ → ℕ → List ℕ
without bound q f = if ltb bound f then q else erase f q

abbrev pub with : ℕ → List ℕ → ℕ → List ℕ
with bound q f = if ltb bound f then q else if mem f q then q else f ∷ q

pub record Replacer : Type 1 where
  pub State : Type 0
  pub init : ℕ → State
  pub victim : State → Option ℕ × State
  -- `none` is undefined behaviour.
  pub pin : State → ℕ → Option State
  pub unpin : State → ℕ → State
  pub size : State → ℕ
  -- The state holds the frames of the list, under the bound that it was made with.
  pub Represents : ℕ → State → List ℕ → Type 0
  pub init_lem : (bound : ℕ) → Represents bound (init bound) []
  pub victim_lem :
      (bound : ℕ) (s : State) (f : ℕ) (q : List ℕ)
      → Represents bound s (f ∷ q)
      → (g : ℕ) × ((victim s).0 ≡ some g)
        × (mem g (f ∷ q) ≡ true)
        × Represents bound (victim s).1 (erase g (f ∷ q))
  pub pin_lem :
      (bound : ℕ) (s : State) (q : List ℕ) (f : ℕ)
      → Represents bound s q
      → (s' : State) × (pin s f ≡ some s') × Represents bound s' (without bound q f)
  pub unpin_lem :
      (bound : ℕ) (s : State) (q : List ℕ) (f : ℕ)
      → Represents bound s q
      → Represents bound (unpin s f) (with bound q f)
  pub size_lem : (bound : ℕ) (s : State) (q : List ℕ) → Represents bound s q → size s ≡ length q
  pub distinct_lem : (bound : ℕ) (s : State) (q : List ℕ) → Represents bound s q → Distinct q
