-- ===== src/Page/TablePage/Update/Moves.antt =====
-- Where the tuples stand after `UpdateTuple`.
use dis_minisql.Prelude.{ℕ, ◌+◌, ◌≤◌, ◌≡◌, ◌≢◌, ◌⊎◌, inl, inr, arith}
use dis_minisql.Page.TablePage.Access.{Apart}
use dis_minisql.Page.TablePage.Update.{updated}

-- A tuple below the old one moves by the difference of the sizes, and one above stays.
abbrev pub Moves : ℕ → ℕ → ℕ → ℕ → ℕ → ℕ → Type 0
Moves o s n a m b = ((a + m ≤ o) × (b + n ≡ a + s)) ⊎ ((o + s ≤ a) × (b ≡ a))

pub updated-Moves :
    (o s n z a m : ℕ)
    → z ≢ 0
    → m ≢ 0
    → a + m ≤ 4096
    → o + s ≤ 4096
    → n ≤ a + s
    → Apart o s a m
    → Moves o s n a m (updated o s n z a)
updated-Moves o s n z a m nz nm h k r (inl e) = inr (e, ground (arith, e, nz))
updated-Moves o s n z a m nz nm h k r (inr e) = inl (e, ground (arith, e, nz, nm, r))

pub Moves-Apart :
    (o s n a m c b k d : ℕ) → Moves o s n a m c → Moves o s n b k d → Apart a m b k → Apart c m d k
Moves-Apart o s n a m c b k d (inl (x, e)) (inl (y, g)) (inl h) = inl (omega arith)
Moves-Apart o s n a m c b k d (inl (x, e)) (inl (y, g)) (inr h) = inr (omega arith)
Moves-Apart o s n a m c b k d (inl (x, e)) (inr (y, g)) h = inl (omega arith)
Moves-Apart o s n a m c b k d (inr (x, e)) (inl (y, g)) h = inr (omega arith)
Moves-Apart o s n a m c b k d (inr (x, e)) (inr (y, g)) (inl h) = inl (omega arith)
Moves-Apart o s n a m c b k d (inr (x, e)) (inr (y, g)) (inr h) = inr (omega arith)

-- The new tuple ends where the old one ended.
pub Moves-here : (o s n a m b c : ℕ) → Moves o s n a m b → c + n ≡ o + s → Apart c n b m
Moves-here o s n a m b c (inl (x, e)) h = inr (omega arith)
Moves-here o s n a m b c (inr (x, e)) h = inl (omega arith)

pub Apart-flip : (a m b n : ℕ) → Apart a m b n → Apart b n a m
Apart-flip a m b n (inl h) = inr h
Apart-flip a m b n (inr h) = inl h

pub Moves-inside :
    (o s n a m b f g : ℕ)
    → Moves o s n a m b
    → f ≤ a
    → f ≤ o
    → a + m ≤ 4096
    → o + s ≤ 4096
    → g + n ≡ f + s
    → (g ≤ b) × (b + m ≤ 4096)
Moves-inside o s n a m b f g (inl (x, e)) i k h t w = (omega arith, omega arith)
Moves-inside o s n a m b f g (inr (x, e)) i k h t w = (omega arith, omega arith)
