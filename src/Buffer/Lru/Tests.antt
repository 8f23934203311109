-- ===== src/Buffer/Lru/Tests.antt =====
-- Tests of the least-recently-used replacer, and its theorems at concrete histories.
use dis_minisql.Prelude.{ℕ, ◌≡◌, refl, List, [], ◌∷◌, Option, some, none}
use dis_minisql.Buffer.Lru.{
  LruReplacer, init, unlink, link_front, victim, release, pin, unpin, size,
}
use dis_minisql.Buffer.Lru.Holds.{Represents}
use dis_minisql.Buffer.Lru.Holds.{Represents}
use dis_minisql.Buffer.Lru.Run.{Call, pins, unpins, victims, run, run-init-refines}

unfoldable pub program : Unit {0}
unfolding init unlink link_front victim release pin unpin size
program = tt

-- As in test/buffer/lru_replacer_test.cpp: six frames, two victims, a frame that is pinned.
abbrev history : List Call
history =
    unpins 1
    ∷ unpins 2
    ∷ unpins 3
    ∷ unpins 4
    ∷ unpins 5
    ∷ unpins 6
    ∷ unpins 1
    ∷ victims
    ∷ victims
    ∷ victims
    ∷ pins 3
    ∷ pins 4
    ∷ unpins 4
    ∷ victims
    ∷ victims
    ∷ victims
    ∷ []

abbrev given_out : List (Option ℕ)
given_out = some 1 ∷ some 2 ∷ some 3 ∷ some 5 ∷ some 6 ∷ some 4 ∷ []

outputs : Option (List (Option ℕ) × LruReplacer) → List (Option ℕ)
outputs none = []
outputs (some (out, _)) = out

history_test : outputs (run (init 7) history) ≡ given_out
unfolding init unlink link_front victim release pin unpin run outputs
history_test = refl

run-init-refines_example :
    (r : LruReplacer) × (run (init 7) history ≡ some (given_out, r))
    × Represents r []
    × (size r ≡ 0)
run-init-refines_example = run-init-refines 7 history
