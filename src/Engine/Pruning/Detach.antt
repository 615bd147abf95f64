-- ===== src/Engine/Pruning/Detach.antt =====
-- Detaching blocks and changing the size of the pruning queue (xayagame/pruningqueue.cpp).
use libxayagame.Base.{
  zero, suc, ◌+◌, ◌-◌, ◌^◌, ◌∙◌, ◌||◌, ◌⊎◌, inl, inr, drop, leb, length-append, ℕ, ◌≤◌, ◌<◌, ◌≡◌,
  refl, ap, List, [], ◌∷◌, ◌++◌, length, without_last,
}
use libxayagame.Engine.Storage.{done, throw, StorageInterface}
use libxayagame.Engine.Transactions.{TransactionManager}
use libxayagame.Engine.Transactions.Invariant.{IsTransactional, IsIdle}
use libxayagame.Engine.Pruning.{PruningQueue, attach_block, detach_block, set_desired_size}
use libxayagame.Engine.Pruning.Kept.{IsPrunable, AllDistinct, HasHeights, undo_at}
use libxayagame.Engine.Pruning.Attach.{Pruned, if_too_long, attach_block-Pruned}
use libxayagame.Engine.Pruning.Exact.{shortened, attach_block-exact}

without_last-append : (hs : List ℕ) (h : ℕ) → without_last (hs ++ h ∷ []) ≡ hs
without_last-append [] h = refl
without_last-append (g ∷ []) h = refl
without_last-append (g ∷ k ∷ hs) h = ap (λ r. g ∷ r) (without_last-append (k ∷ hs) h)

without_last-drop : (n : ℕ) (hs : List ℕ) (h : ℕ) → without_last (drop n (hs ++ h ∷ [])) ≡ drop n hs
without_last-drop zero hs h = without_last-append hs h
without_last-drop (suc zero) [] h = refl
without_last-drop (suc (suc n)) [] h = refl
without_last-drop (suc n) (g ∷ hs) h = without_last-drop n hs h

module _ (st : StorageInterface) where
  -- On a storage that is as documented, a block of a height below 2 ^ 32 - 1 is attached to a queue
  -- of distinct blocks, no more than the chain has, whose undo data stands at consecutive heights
  -- that end with the new block's. Either an exception is thrown, or detaching the block again gives
  -- the queue as it was, but for the oldest blocks, as many as the new block made too many, and for
  -- the flag, which is set if the new block filled the queue.
  pub detach_block-attach_block :
      (laws : IsTransactional st) (prunable : IsPrunable st laws) (hash height : ℕ)
      (q : PruningQueue) (m : TransactionManager st) (s : st.State)
      → IsIdle st laws m s
      → height + 1 < 2 ^ 32
      → length (q.hashes ++ hash ∷ []) ≤ height + 1
      → AllDistinct (q.hashes ++ hash ∷ [])
      → HasHeights
          (undo_at st laws prunable s)
          (height + 1 - length (q.hashes ++ hash ∷ []))
          (q.hashes ++ hash ∷ [])
      → (r : PruningQueue) × (n : TransactionManager st) × (((attach_block st hash height q m
              ≡ done (r, n))
            × (detach_block r ≡ record q {
              hashes = drop (length q.hashes + 1 - q.n_blocks) q.hashes;
              initial_pruning_done = q.initial_pruning_done || leb q.n_blocks (length q.hashes + 1);
            }))
          ⊎ (attach_block st hash height q m ≡ throw (r, n)))
  unfolding detach_block
  detach_block-attach_block laws prunable hash height q m s i w l d hh =
      let p = attach_block-Pruned st laws prunable hash height q m s i w l d hh in
      (
        p.queue,
        p.manager,
        elim p.went [
          | inr e ↦ inr e
          | inl (e, _, _, _) ↦ inl (
            e,
            ap detach_block (attach_block-exact st hash height q p.queue m p.manager e) ∙ back,
          )
        ],
      )
    where
      back :
          detach_block (
            shortened st (record q {
              hashes = q.hashes ++ hash ∷ [];
              initial_pruning_done =
                  q.initial_pruning_done || leb q.n_blocks (length (q.hashes ++ hash ∷ []));
            }))
          ≡ record q {
            hashes = drop (length q.hashes + 1 - q.n_blocks) q.hashes;
            initial_pruning_done = q.initial_pruning_done || leb q.n_blocks (length q.hashes + 1);
          }
      back =
          ap
            (λ (k : ℕ). record q {
              hashes = without_last (drop (k - q.n_blocks) (q.hashes ++ hash ∷ []));
              initial_pruning_done = q.initial_pruning_done || leb q.n_blocks k;
            })
            (length-append q.hashes (hash ∷ []))
          ∙ ap
              (λ hs. record q {
                hashes = hs;
                initial_pruning_done =
                    q.initial_pruning_done || leb q.n_blocks (length q.hashes + 1);
              })
              (without_last-drop (length q.hashes + 1 - q.n_blocks) q.hashes hash)

  -- On a storage that is as documented, a change of the desired size of a queue of distinct blocks,
  -- between transactions, fails no CHECK and leaves the manager between transactions. If no
  -- exception is thrown, the queue is a newer part of the old one with at most the new size, and the
  -- undo data of every block in it is as it was.
  pub set_desired_size-Pruned :
      (laws : IsTransactional st) (prunable : IsPrunable st laws) (n : ℕ) (q : PruningQueue)
      (m : TransactionManager st) (s : st.State)
      → IsIdle st laws m s
      → AllDistinct q.hashes
      → Pruned st laws prunable q.hashes s (set_desired_size st n q m) (λ r. length r.hashes ≤ n)
  unfolding set_desired_size
  set_desired_size-Pruned laws prunable n q m s =
      if_too_long st laws prunable (record q { n_blocks = n }) m s
