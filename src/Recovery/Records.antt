-- ===== src/Recovery/Records.antt =====
-- The constructor of `LogRec` and `AppendLogRec`: the records of each transaction form a chain.
use dis_minisql.Prelude.{
  ℕ, ◌+◌, ◌^◌, ◌≡◌, ◌<◌, ◌≤◌, ◌⊎◌, inl, inr, refl, ◌∙◌, subst, true, some, none, List, [], ◌∷◌,
  ◌==◌, if◌then◌else◌, update, is_some, arith, Bool-cases, ==_self, Option-cases, lt→ltb, ==→eq,
}
use dis_minisql.Recovery.{
  Keys, LogRecType, LogInfo, LogRec, Counters, is_begin, or_zero, create_log, emplace_rec, find_rec,
}
use dis_minisql.Recovery.Sorted.{Sorted, emplace_rec-Sorted, find_rec-emplace_rec}
use dis_minisql.Recovery.TxnChain.{
  NoneBetween, TxnChain, begun, after, NoneBetween-emplace_rec, TxnChain-emplace_rec,
  NoneBetween-suc,
}

module _ (K : Keys) where
  -- The log holds the records made so far, and the map of the last records knows the last record of
  -- each transaction, or that it has none.
  pub record Logged (c : Counters K) (log : List (LogRec K)) : Type 0 where
    pub sorted : Sorted K log
    pub fresh : (l : ℕ) → c.next_lsn ≤ l → find_rec K log l ≡ none
    pub chained :
        (txn_id l : ℕ)
        → c.prev_lsn_map txn_id ≡ some l
        → (l < c.next_lsn)
          × NoneBetween K log txn_id (l + 1) c.next_lsn
          × ((rs : List (LogRec K)) × TxnChain K log txn_id l rs)
    pub unknown :
        (txn_id : ℕ) → c.prev_lsn_map txn_id ≡ none → NoneBetween K log txn_id 0 c.next_lsn

  -- The record that `LogRec` makes.
  abbrev record_of : Counters K → LogRecType → ℕ → LogInfo K → LogRec K
  record_of c kind txn_id log_info = record {
    kind = kind;
    lsn = c.next_lsn;
    prev_lsn = if is_begin kind then none else some (or_zero (c.prev_lsn_map txn_id));
    txn_id = txn_id;
    log_info = log_info;
  }

  -- Making a record, for a transaction that begins or has begun, and appending it to the log gives
  -- the record a new number, unless the numbers of an `int` run out. For each transaction the map of
  -- the last records still names its last record, from which the earlier numbers lead through all
  -- its records back to its last begin, and through no record of another.
  pub create_log-Logged :
      (c : Counters K) (log : List (LogRec K)) (kind : LogRecType) (txn_id : ℕ)
      (log_info : LogInfo K)
      → Logged c log
      → (is_begin kind ≡ true) ⊎ (is_some (c.prev_lsn_map txn_id) ≡ true)
      → c.next_lsn + 1 < 2 ^ 31
      → (r : LogRec K) × (c' : Counters K) × (create_log K c kind txn_id log_info ≡ some (r, c'))
        × Logged c' (emplace_rec K log r)
        × (find_rec K (emplace_rec K log r) c.next_lsn ≡ some r)
        × (c'.prev_lsn_map txn_id ≡ some c.next_lsn)
  unfolding create_log
  create_log-Logged c log kind txn_id log_info v goes_on h = (
    r,
    record {
      prev_lsn_map = update c.prev_lsn_map txn_id (some c.next_lsn);
      next_lsn = c.next_lsn + 1;
    },
    rw (lt→ltb (c.next_lsn + 1) (2 ^ 31) h),
    record {
      sorted = emplace_rec-Sorted K log r v.sorted;
      fresh = λ l g. find_rec-emplace_rec K log r l v.sorted ∙ ground (arith, v.fresh l);
      chained = chained;
      unknown = unknown;
    },
    found,
    rw (==_self txn_id),
  )
    where
      r : LogRec K
      r = record_of c kind txn_id log_info

      log' : List (LogRec K)
      log' = emplace_rec K log r

      unused : find_rec K log c.next_lsn ≡ none
      unused = v.fresh c.next_lsn (omega arith)

      found : find_rec K log' c.next_lsn ≡ some r
      found = find_rec-emplace_rec K log r c.next_lsn v.sorted ∙ rw (unused, ==_self c.next_lsn)

      new_chain : (rs : List (LogRec K)) × TxnChain K log' txn_id c.next_lsn rs
      new_chain = elim (Bool-cases (is_begin kind)) [
        | inl b ↦ (r ∷ [], begun c.next_lsn r found refl b)
        | inr b ↦ elim (Option-cases (c.prev_lsn_map txn_id)) [
          | inl missing ↦ absurd (ground (arith, goes_on, missing, b))
          | inr (l, e) ↦
              let (below, n, (rs, chain)) = v.chained txn_id l e in
              (
                r ∷ rs,
                after c.next_lsn l r rs found refl b (rw (b, e)) below
                    (NoneBetween-emplace_rec K log r v.sorted unused txn_id (l + 1) c.next_lsn
                      (omega arith) n)
                    (TxnChain-emplace_rec K log r v.sorted unused txn_id l rs below chain),
              )
        ]
      ]

      chained :
          (t l : ℕ)
          → update c.prev_lsn_map txn_id (some c.next_lsn) t ≡ some l
          → (l < c.next_lsn + 1)
            × NoneBetween K log' t (l + 1) (c.next_lsn + 1)
            × ((rs : List (LogRec K)) × TxnChain K log' t l rs)
      chained t l e = elim (Bool-cases (txn_id == t)) [
        | inl here ↦
            let same : c.next_lsn ≡ l = ground (arith, e, here) in
            let whose : txn_id ≡ t = ==→eq txn_id t here in
            (
              omega (arith, same),
              λ k y a b d. absurd (omega (arith, same, a, b)),
              subst (λ l. (rs : List (LogRec K)) × TxnChain K log' t l rs) same
                  (subst (λ t. (rs : List (LogRec K)) × TxnChain K log' t c.next_lsn rs) whose
                    new_chain),
            )
        | inr other ↦
            let (below, n, (rs, chain)) = v.chained t l (ground (arith, e, other)) in
            (
              omega (arith, below),
              NoneBetween-suc K log r v.sorted unused t (l + 1) (λ d. ground (arith, d, other)) n,
              (rs, TxnChain-emplace_rec K log r v.sorted unused t l rs below chain),
            )
      ]

      unknown :
          (t : ℕ)
          → update c.prev_lsn_map txn_id (some c.next_lsn) t ≡ none
          → NoneBetween K log' t 0 (c.next_lsn + 1)
      unknown t e = elim (Bool-cases (txn_id == t)) [
        | inl here ↦ absurd (ground (arith, e, here))
        | inr other ↦
            NoneBetween-suc K log r v.sorted unused t 0 (λ d. ground (arith, d, other))
              (v.unknown t (ground (arith, e, other)))
      ]
