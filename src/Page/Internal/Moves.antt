-- ===== src/Page/Internal/Moves.antt =====
-- `MoveHalfTo` of an internal page: the pairs move to a sibling, which becomes the parent of their
-- children in the buffer pool.
use dis_minisql.Prelude.{
  ℕ, ◌+◌, ◌-◌, ◌/◌, ◌^◌, ◌<◌, ◌≡◌, refl, ap, ◌∙◌, Option, some, List, ◌++◌, arith,
}
use dis_minisql.Buffer.Replacer.{Replacer}
use dis_minisql.Buffer.Pool.{Pool}
use dis_minisql.Buffer.Pool.Invariant.{IsValid}
use dis_minisql.Page.TablePage.{word_of}
use dis_minisql.Page.TreePage.{KeyManager, set_size, increase_size}
use dis_minisql.Page.Pairs.{copy_pairs, entries_from, entries_from-add, copy_pairs-entries_from}
use dis_minisql.Page.Internal.{InternalPage, get_size, adopt, copy_n_from, move_half_to}
use dis_minisql.Page.Internal.Updates.{entries}
use dis_minisql.Page.Internal.Adoption.{Resident, Adopts, adopt-Adopts}

module _ (KM : KeyManager) (R : Replacer) where
  open KM use {GenericKey}
  open R use {State}

  copy_n_from_at :
      (p : InternalPage KM) (from : ℕ → GenericKey × Option ℕ) (src size : ℕ) (b b' : Pool State)
      → adopt KM R size b p.header.page_id from src ≡ some b'
      → copy_n_from KM R p from src size b
        ≡ some (
          record p {
            header = increase_size p.header size;
            pairs = copy_pairs p.pairs (get_size KM p) from src size;
          },
          b',
        )
  unfolding copy_n_from
  copy_n_from_at p from src size b b' e = rw (copy_n_from, e)

  -- MoveHalfTo, on a well-formed pool that holds the pages of the children that move, ends without
  -- undefined behaviour. It moves the later half of the pairs, rounded down, behind those of the
  -- recipient and loses none. The frame of each child that moves then has the recipient as the parent
  -- in its header and is dirty; its other bytes and those of every other frame are as they were, and the
  -- pool stays well formed.
  pub move_half_to-Adopts :
      (p recipient : InternalPage KM) (b : Pool State) (q : List ℕ)
      → IsValid R b q
      → Resident KM R b p.pairs (get_size KM p - get_size KM p / 2) (get_size KM p / 2)
      → word_of recipient.header.page_id < 2 ^ 32
      → (p' : InternalPage KM) × (recipient' : InternalPage KM) × (b' : Pool State) × (moved : List
          (GenericKey × Option ℕ))
        × (move_half_to KM R p recipient b ≡ some (p', recipient', b'))
        × (entries KM p ≡ entries KM p' ++ moved)
        × (entries KM recipient' ≡ entries KM recipient ++ moved)
        × (get_size KM p' ≡ get_size KM p - get_size KM p / 2)
        × Adopts KM R b b' recipient.header.page_id p.pairs
            (get_size KM p - get_size KM p / 2)
            (get_size KM p / 2)
  unfolding move_half_to
  move_half_to-Adopts p recipient b q v r word =
      let size : ℕ = get_size KM p in
      let first : ℕ = size - size / 2 in
      let (b', e, a) =
        adopt-Adopts KM R recipient.header.page_id word p.pairs (size / 2) first b q v r in
      (
        record p { header = set_size p.header first },
        record recipient {
          header = increase_size recipient.header (size / 2);
          pairs = copy_pairs recipient.pairs (get_size KM recipient) p.pairs first (size / 2);
        },
        b',
        entries_from p.pairs first (size / 2),
        rw (move_half_to, copy_n_from_at recipient p.pairs first (size / 2) b b' e),
        ap (entries_from p.pairs 0) {x = size} {y = first + size / 2} (omega arith)
            ∙ entries_from-add p.pairs 0 first (size / 2)
            ∙ ap (λ k. entries_from p.pairs 0 first ++ entries_from p.pairs k (size / 2))
                {x = 0 + first} {y = first} (omega arith),
        copy_pairs-entries_from recipient.pairs p.pairs (get_size KM recipient) first (size / 2),
        refl,
        a,
      )
