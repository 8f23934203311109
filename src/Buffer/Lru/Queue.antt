-- ===== src/Buffer/Lru/Queue.antt =====
-- What the least-recently-used replacer promises, over a plain queue of frames: the most recently
-- unpinned frame first, the next victim last.
use dis_minisql.Prelude.{
  ℕ, Option, some, none, List, [], ◌∷◌, ltb, mem, erase, if◌then◌else◌, last_or,
}

abbrev pub pin : ℕ → List ℕ → ℕ → List ℕ
pin max q f = if ltb max f then q else erase f q

abbrev pub unpin : ℕ → List ℕ → ℕ → List ℕ
unpin max q f = if ltb max f then q else if mem f q then q else f ∷ q

abbrev pub victim : List ℕ → Option ℕ × List ℕ
victim [] = (none, [])
victim (f ∷ q) = (some (last_or f q), erase (last_or f q) (f ∷ q))
