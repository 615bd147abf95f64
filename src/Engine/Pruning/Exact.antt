-- ===== src/Engine/Pruning/Exact.antt =====
-- Which blocks the pruning queue has after a step that returns (xayagame/pruningqueue.cpp).
use libxayagame.Base.{
  ℕ, zero, suc, ◌+◌, ◌-◌, ◌^◌, ◌%◌, ◌≡◌, refl, sym, ap, ◌∙◌, inl, inr, true, ◌||◌, ◌&&◌, not, some,
  List, [], ◌∷◌, ◌++◌, length, drop, ltb, leb, arith, Bool-cases, Option-cases, Bool,
}
use libxayagame.Engine.Storage.{Outcome, done, StorageInterface, Outcome-cases}
use libxayagame.Engine.Transactions.{
  TransactionManager, active_transaction, begin, commit, rollback, unwind,
}
use libxayagame.Engine.Pruning.{
  PruningQueue, release_from, prune_if_too_long, prune_before, initial_pruning, attach_block,
}

drop_nil : (n : ℕ) → drop {A = ℕ} n [] ≡ []
drop_nil zero = refl
drop_nil (suc n) = refl

module _ (st : StorageInterface) where
  open st use {State, release_undo_data}

  unwind-throws :
      {Q : Type 0} (q r : Q) (m n : TransactionManager st) → ¬ (unwind st q m ≡ done (r, n))
  unwind-throws q r m n e = elim (Outcome-cases (rollback st m)) [
    | inl (k, rolled) ↦ absurd (ground (arith, e, rolled))
    | inr (inl (k, thrown)) ↦ absurd (ground (arith, e, thrown))
    | inr (inr aborted) ↦ absurd (ground (arith, e, aborted))
  ]

  -- A block with an `ActiveTransaction` that returns has run its body.
  active_transaction-ran :
      {Q : Type 0} (body : Q → State → Outcome (Q × State)) (q r : Q) (m n : TransactionManager st)
      → active_transaction st body q m ≡ done (r, n)
      → (s : State) × (t : State) × (body q s ≡ done (r, t))
  unfolding active_transaction
  active_transaction-ran body q r m n went = elim (Outcome-cases (begin st m)) [
    | inr (inr e) ↦ absurd (ground (arith, went, e))
    | inr (inl (m1, e)) ↦ absurd (ground (arith, went, e))
    | inl (m1, e) ↦ elim (Option-cases m1.storage) [
      | inl gone ↦ absurd (ground (arith, went, e, gone))
      | inr (s, here) ↦ elim (Outcome-cases (body q s)) [
        | inr (inr b) ↦ absurd (ground (arith, went, e, here, b))
        | inr (inl ((q1, t), b)) ↦ absurd (
            unwind-throws q1 r (record m1 { storage = some t }) n
              (ground (arith, went, e, here, b)))
        | inl ((q1, t), b) ↦ elim (Outcome-cases (commit st (record m1 { storage = some t }))) [
          | inl (m2, c) ↦
              let same : q1 ≡ r = ground (arith, went, e, here, b, c) in
              (s, t, b ∙ ap (λ x. done (x, t)) same)
          | inr (inl (m2, c)) ↦
              absurd (unwind-throws q1 r m2 n (ground (arith, went, e, here, b, c)))
          | inr (inr c) ↦ absurd (ground (arith, went, e, here, b, c))
        ]
      ]
    ]
  ]

  release_from-exact :
      (hs : List ℕ) (q r : PruningQueue) (s t : State)
      → release_from st hs q s ≡ done (r, t)
      → r ≡ record q { hashes = drop (length hs - q.n_blocks) hs }
  unfolding release_from
  release_from-exact [] q r s t went = ground (arith, went, drop_nil (0 - q.n_blocks))
  release_from-exact (h ∷ hs) q r s t went = elim (Bool-cases (ltb q.n_blocks (length (h ∷ hs)))) [
    | inr short ↦
        let none_left : length (h ∷ hs) - q.n_blocks ≡ 0 = ground (arith, short) in
        ground (arith, went, short, none_left)
    | inl long ↦ elim (Outcome-cases (release_undo_data h s)) [
      | inr (inl (k, e)) ↦ absurd (ground (arith, went, long, e))
      | inr (inr e) ↦ absurd (ground (arith, went, long, e))
      | inl (k, e) ↦
          let one_more : length (h ∷ hs) - q.n_blocks ≡ suc (length hs - q.n_blocks) =
            ground (arith, long) in
          release_from-exact hs q r k t (ground (arith, went, long, e))
          ∙ ap (λ (j : ℕ). record q { hashes = drop j (h ∷ hs) }) (sym one_more)
    ]
  ]

  -- The queue with the blocks dropped that are too many.
  abbrev pub shortened : PruningQueue → PruningQueue
  shortened q = record q { hashes = drop (length q.hashes - q.n_blocks) q.hashes }

  prune_if_too_long-exact :
      (q r : PruningQueue) (m n : TransactionManager st)
      → prune_if_too_long st q m ≡ done (r, n)
      → r ≡ shortened q
  unfolding prune_if_too_long
  prune_if_too_long-exact q r m n went = elim (Bool-cases (leb (length q.hashes) q.n_blocks)) [
    | inl short ↦
        let none_left : 0 ≡ length q.hashes - q.n_blocks = ground (arith, short) in
        let same : q ≡ r = ground (arith, went, short) in
        sym same ∙ ap (λ (j : ℕ). record q { hashes = drop j q.hashes }) none_left
    | inr long ↦
        let (s, t, ran) =
          active_transaction-ran (λ (p : PruningQueue) x. release_from st p.hashes p x) q r m n
            (ground (arith, went, long)) in
        release_from-exact q.hashes q r s t ran
  ]

  prune_before-exact :
      (height : ℕ) (q r : PruningQueue) (s t : State)
      → prune_before st height q s ≡ done (r, t)
      → q ≡ r
  prune_before-exact height q r s t ran = elim (Outcome-cases (st.prune_undo_data height s)) [
    | inl (k, e) ↦ ground (arith, ran, e)
    | inr (inl (k, e)) ↦ absurd (ground (arith, ran, e))
    | inr (inr e) ↦ absurd (ground (arith, ran, e))
  ]

  initial_pruning-exact :
      (height : ℕ) (q r : PruningQueue) (m n : TransactionManager st)
      → initial_pruning st height q m ≡ done (r, n)
      → r ≡ record q { initial_pruning_done = true }
  unfolding initial_pruning
  initial_pruning-exact height q r m n went =
      let next = (height + 1) % 2 ^ 32 in
      elim (Bool-cases (ltb next (length q.hashes))) [
        | inl wrong ↦ absurd (ground (arith, went, wrong))
        | inr right ↦ elim (Bool-cases (ltb 0 (next - length q.hashes))) [
          | inr nothing ↦ ground (arith, went, right, nothing)
          | inl old ↦
              let body = prune_before st (next - length q.hashes - 1) in
              elim (Outcome-cases (active_transaction st body q m)) [
                | inr (inl ((q1, m1), e)) ↦ absurd (ground (arith, went, right, old, e))
                | inr (inr e) ↦ absurd (ground (arith, went, right, old, e))
                | inl ((q1, m1), e) ↦
                    let (s, t, ran) = active_transaction-ran body q q1 m m1 e in
                    let kept : q ≡ q1 =
                      prune_before-exact (next - length q.hashes - 1) q q1 s t ran in
                    let flagged : record q1 { initial_pruning_done = true } ≡ r =
                      ground (arith, went, right, old, e) in
                    sym flagged
                    ∙ ap (λ (p : PruningQueue). record p { initial_pruning_done = true }) (sym kept)
              ]
        ]
      ]

  -- What an attached block leads to where it returns: the flag is set once the queue is filled, and
  -- the oldest blocks beyond the desired size are gone.
  pub attach_block-exact :
      (hash height : ℕ) (q r : PruningQueue) (m n : TransactionManager st)
      → attach_block st hash height q m ≡ done (r, n)
      → r
        ≡ shortened (record q {
          hashes = q.hashes ++ hash ∷ [];
          initial_pruning_done =
              q.initial_pruning_done || leb q.n_blocks (length (q.hashes ++ hash ∷ []));
        })
  unfolding attach_block
  attach_block-exact hash height q r m n went =
      let pushed : PruningQueue = record q { hashes = q.hashes ++ hash ∷ [] } in
      elim (Bool-cases (not q.initial_pruning_done && leb q.n_blocks (length pushed.hashes))) [
        | inr ongoing ↦
            let flag : q.initial_pruning_done
                ≡ (q.initial_pruning_done || leb q.n_blocks (length pushed.hashes)) =
              ground (arith, ongoing) in
            prune_if_too_long-exact pushed r m n (ground (arith, went, ongoing))
            ∙ ap (λ (b : Bool). shortened (record pushed { initial_pruning_done = b })) flag
        | inl filled ↦
            let flag : true ≡ (q.initial_pruning_done || leb q.n_blocks (length pushed.hashes)) =
              ground (arith, filled) in
            elim (Outcome-cases (initial_pruning st height pushed m)) [
              | inr (inl (k, e)) ↦ absurd (ground (arith, went, filled, e))
              | inr (inr e) ↦ absurd (ground (arith, went, filled, e))
              | inl ((q1, m1), e) ↦
                  prune_if_too_long-exact q1 r m1 n (ground (arith, went, filled, e))
                  ∙ ap shortened (initial_pruning-exact height pushed q1 m m1 e)
                  ∙ ap (λ (b : Bool). shortened (record pushed { initial_pruning_done = b })) flag
            ]
      ]
