-- ===== src/Prelude/Maps.antt =====
-- Maps and arrays as functions of a number, and the update at one place.
use Prim.Native.Nat.{ℕ}
use dis_minisql.Prelude.Tests.{◌==◌, if◌then◌else◌}

abbrev pub update {ℓ} : {A : Type ℓ} → (ℕ → A) → ℕ → A → ℕ → A
update f p v q = if p == q then v else f q
