-- ===== src/Recovery/Sorted.antt =====
-- The map of the log records in recovery_manager.h: records under rising numbers.
use dis_minisql.Prelude.{
  ℕ, ◌≡◌, ◌<◌, ◌≤◌, inl, inr, refl, not, ◌&&◌, some, none, List, [], ◌∷◌, ltb, ◌==◌, if◌then◌else◌,
  is_some, arith, Bool-cases,
}
use dis_minisql.Recovery.{Keys, LogRec, emplace_rec, find_rec}

module _ (K : Keys) where
  abbrev Above : ℕ → List (LogRec K) → Type 0
  Above n [] = Unit
  Above n (r ∷ rest) = (n < r.lsn) × Above n rest

  -- The numbers of the records rise.
  abbrev pub Sorted : List (LogRec K) → Type 0
  Sorted [] = Unit
  Sorted (r ∷ rest) = Above r.lsn rest × Sorted rest

  Above-lower : (n m : ℕ) (log : List (LogRec K)) → n ≤ m → Above m log → Above n log
  Above-lower n m [] h a = tt
  Above-lower n m (r ∷ rest) h a = (omega (arith, a.0), Above-lower n m rest h a.1)

  find_rec-Above : (log : List (LogRec K)) (n l : ℕ) → Above n log → l ≤ n → find_rec K log l ≡ none
  unfolding find_rec
  find_rec-Above [] n l a h = refl
  find_rec-Above (r ∷ rest) n l a h = ground (arith, find_rec-Above rest n l, a)

  emplace_rec-Above :
      (log : List (LogRec K)) (n : ℕ) (r : LogRec K)
      → Above n log
      → n < r.lsn
      → Above n (emplace_rec K log r)
  unfolding emplace_rec
  emplace_rec-Above [] n r a h = (h, tt)
  emplace_rec-Above (x ∷ rest) n r (a, b) h = ground (arith, emplace_rec-Above rest n r, a, b)

  pub emplace_rec-Sorted :
      (log : List (LogRec K)) (r : LogRec K) → Sorted log → Sorted (emplace_rec K log r)
  unfolding emplace_rec
  emplace_rec-Sorted [] r s = (tt, tt)
  emplace_rec-Sorted (x ∷ rest) r (a, s) = elim (Bool-cases (r.lsn == x.lsn)) [
    | inl same ↦ rw same (a, s)
    | inr apart ↦ elim (Bool-cases (ltb r.lsn x.lsn)) [
      | inl less ↦
          rw (apart, less) ((ground arith, Above-lower r.lsn x.lsn rest (ground arith) a), (a, s))
      | inr more ↦
          rw (apart, more)
            (emplace_rec-Above rest x.lsn r a (ground arith), emplace_rec-Sorted rest r s)
    ]
  ]

  -- A record that is appended is found under its number unless the number is taken; every other
  -- number finds what it found.
  pub find_rec-emplace_rec :
      (log : List (LogRec K)) (r : LogRec K) (l : ℕ)
      → Sorted log
      → find_rec K (emplace_rec K log r) l
        ≡ (if r.lsn == l && not (is_some (find_rec K log l)) then some r else find_rec K log l)
  unfolding emplace_rec find_rec
  find_rec-emplace_rec [] r l s = ground arith
  find_rec-emplace_rec (x ∷ rest) r l (a, s) =
      ground (arith, find_rec-emplace_rec rest r l s, find_rec-Above rest x.lsn l a)
