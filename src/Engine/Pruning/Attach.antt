-- ===== src/Engine/Pruning/Attach.antt =====
-- Attaching blocks to the pruning queue (xayagame/pruningqueue.cpp).
use libxayagame.Base.{
  ℕ, ◌+◌, ◌-◌, ◌≤◌, ◌<◌, ◌^◌, ◌%◌, ◌≡◌, refl, sym, ◌∙◌, ap, subst, ◌⊎◌, inl, inr, true, ◌&&◌, not,
  ltb, leb, arith, Bool-cases, List, [], ◌∷◌, ◌++◌, length, contains,
}
use libxayagame.Base.Eq.{number_equality}
use libxayagame.Engine.Storage.{Outcome, done, throw, StorageInterface}
use libxayagame.Engine.Transactions.{TransactionManager}
use libxayagame.Engine.Transactions.Invariant.{IsTransactional, IsIdle}
use libxayagame.Engine.Transactions.Scopes.{active_transaction-Succeeded}
use libxayagame.Engine.Pruning.{
  PruningQueue, release_from, prune_if_too_long, prune_before, initial_pruning, attach_block,
}
use libxayagame.Engine.Pruning.Kept.{
  above, IsPrunable, AllDistinct, HasHeights, IsSuffix, whole, Same, undo_at, Released, released,
  suffix_contains,
}
use libxayagame.Engine.Pruning.Bodies.{HasHeights-above, release_body, prune_body}

module _ (st : StorageInterface) (laws : IsTransactional st) (prunable : IsPrunable st laws) where
  open laws use {is_open, view, durable}
  open prunable use {undo}

  -- What a step of the queue leads to: the hashes are a newer part of the queue, and if the step
  -- does not throw, the undo data of each is as before.
  pub record Pruned (hs : List ℕ) (s : st.State)
      (o : Outcome (PruningQueue × TransactionManager st)) (P : PruningQueue → Type 0)
      : Type 0 where
    pub queue : PruningQueue
    pub manager : TransactionManager st
    pub after : st.State
    pub idle : IsIdle st laws manager after
    pub went :
        ((o ≡ done (queue, manager))
          × IsSuffix queue.hashes hs
          × P queue
          × Same st laws prunable queue.hashes s after)
        ⊎ (o ≡ throw (queue, manager))

  -- What the loop did, where it returned.
  body-Released :
      (q r : PruningQueue) (s t : st.State)
      → is_open s ≡ true
      → release_from st q.hashes q s ≡ done (r, t)
      → Released st laws prunable q.hashes q r s t
  body-Released q r s t o ran =
      let (r', t', _, went) = released st laws prunable q.hashes q s o in
      elim went [
        | inr (e, _) ↦ absurd (ground (arith, e, ran))
        | inl (e, x) ↦
            let same_r : r' ≡ r = ground (arith, e, ran) in
            let same_t : t' ≡ t = ground (arith, e, ran) in
            subst (λ y. Released st laws prunable q.hashes q y s t) same_r
              (subst (λ y. Released st laws prunable q.hashes q r' s y) same_t x)
      ]

  pub if_too_long :
      (q : PruningQueue) (m : TransactionManager st) (s : st.State)
      → IsIdle st laws m s
      → AllDistinct q.hashes
      → Pruned q.hashes s (prune_if_too_long st q m) (λ r. length r.hashes ≤ q.n_blocks)
  unfolding prune_if_too_long
  if_too_long q m s i d = elim (Bool-cases (leb (length q.hashes) q.n_blocks)) [
    | inl short ↦ record {
      queue = q;
      manager = m;
      after = s;
      idle = i;
      went = inl (rw short refl, whole q.hashes, ground (arith, short), λ k c. refl);
    }
    | inr long ↦
        let (r, n, t, o) =
          active_transaction-Succeeded st laws
            (λ (p : PruningQueue) x. release_from st p.hashes p x) (release_body st laws prunable) q
            m s i in
        elim o [
          | inr (e, x) ↦ record {
            queue = r;
            manager = n;
            after = t;
            idle = x.idle;
            went = inr (ground (arith, long, e));
          }
          | inl (e, x) ↦
              let b = body-Released q r x.before x.after x.opened x.ran in
              record {
                queue = r;
                manager = n;
                after = t;
                idle = x.idle;
                went = inl (
                  ground (arith, long, e),
                  b.suffix,
                  b.small,
                  λ k c.
                      ap (λ v. undo v k) x.seen
                      ∙ b.same_undo d k c
                      ∙ ap (λ v. undo v k) x.same_view,
                );
              }
        ]
  ]

  body_pruned :
      (height : ℕ) (q r : PruningQueue) (s t : st.State)
      → is_open s ≡ true
      → prune_before st height q s ≡ done (r, t)
      → (q ≡ r) × ((k : ℕ) → undo (view t) k ≡ above height (undo (view s) k))
  body_pruned height q r s t o ran =
      let (t', _, went) = prunable.prunes height s o in
      elim went [
        | inr e ↦ absurd (ground (arith, e, ran))
        | inl (e, x) ↦
            let same_t : t' ≡ t = ground (arith, e, ran) in
            (ground (arith, e, ran), λ k. ap (λ y. undo (view y) k) (sym same_t) ∙ x k)
      ]

  initially :
      (height : ℕ) (q : PruningQueue) (m : TransactionManager st) (s : st.State)
      → IsIdle st laws m s
      → height + 1 < 2 ^ 32
      → length q.hashes ≤ height + 1
      → HasHeights (undo_at st laws prunable s) (height + 1 - length q.hashes) q.hashes
      → Pruned q.hashes s
          (initial_pruning st height q m)
          (λ r. (r.hashes ≡ q.hashes) × (r.n_blocks ≡ q.n_blocks))
  unfolding initial_pruning
  initially height q m s i w l hh =
      let wrap : (height + 1) % 2 ^ 32 ≡ height + 1 = omega (arith, w) in
      elim (Bool-cases (ltb 0 (height + 1 - length q.hashes))) [
        | inr full ↦ record {
          queue = record q { initial_pruning_done = true };
          manager = m;
          after = s;
          idle = i;
          went = inl (ground (arith, wrap, l, full), whole q.hashes, (refl, refl), λ k c. refl);
        }
        | inl some_below ↦
            let front = height + 1 - length q.hashes in
            let (r, n, t, o) =
              active_transaction-Succeeded st laws (prune_before st (front - 1))
                (prune_body st laws prunable (front - 1)) q m s i in
            elim o [
              | inr (e, x) ↦ record {
                queue = r;
                manager = n;
                after = t;
                idle = x.idle;
                went = inr (ground (arith, wrap, l, some_below, e));
              }
              | inl (e, x) ↦
                  let (same_q, pruned) =
                    body_pruned (front - 1) q r x.before x.after x.opened x.ran in
                  record {
                    queue = record r { initial_pruning_done = true };
                    manager = n;
                    after = t;
                    idle = x.idle;
                    went = inl (
                      ground (arith, wrap, l, some_below, e),
                      subst (λ (y : PruningQueue). IsSuffix y.hashes q.hashes) same_q
                          (whole q.hashes),
                      (
                        ap (λ (y : PruningQueue). y.hashes) (sym same_q),
                        ap (λ (y : PruningQueue). y.n_blocks) (sym same_q),
                      ),
                      λ k c.
                          ap (λ v. undo v k) x.seen
                          ∙ pruned k
                          ∙ ap (λ v. above (front - 1) (undo v k)) x.same_view
                          ∙ HasHeights-above (undo (view s)) k (front - 1) front q.hashes
                              (ground (arith, some_below)) hh
                              (subst (λ (y : PruningQueue). contains k y.hashes ≡ true) (sym same_q)
                                c),
                    );
                  }
            ]
      ]

  -- On a storage that is as documented, attaching a block of a height below 2 ^ 32 - 1 to a queue
  -- of distinct blocks, no more than the chain has, whose undo data stands at consecutive heights
  -- that end with the new block's, fails no CHECK and leaves the manager between transactions. If
  -- no exception is thrown, the queue is a newer part of the old one with the new block, it has at
  -- most the desired size, and the undo data of every block in it is as it was.
  pub attach_block-Pruned :
      (hash height : ℕ) (q : PruningQueue) (m : TransactionManager st) (s : st.State)
      → IsIdle st laws m s
      → height + 1 < 2 ^ 32
      → length (q.hashes ++ hash ∷ []) ≤ height + 1
      → AllDistinct (q.hashes ++ hash ∷ [])
      → HasHeights
          (undo_at st laws prunable s)
          (height + 1 - length (q.hashes ++ hash ∷ []))
          (q.hashes ++ hash ∷ [])
      → Pruned
          (q.hashes ++ hash ∷ [])
          s
          (attach_block st hash height q m)
          (λ r. length r.hashes ≤ q.n_blocks)
  unfolding attach_block
  attach_block-Pruned hash height q m s i w l d hh =
      let pushed : PruningQueue = record q { hashes = q.hashes ++ hash ∷ [] } in
      elim (Bool-cases (not q.initial_pruning_done && leb q.n_blocks (length pushed.hashes))) [
        | inr ongoing ↦
            let p = if_too_long pushed m s i d in
            record {
              queue = p.queue;
              manager = p.manager;
              after = p.after;
              idle = p.idle;
              went = elim p.went [
                | inl (e, suf, small, same) ↦ inl (ground (arith, ongoing, e), suf, small, same)
                | inr e ↦ inr (ground (arith, ongoing, e))
              ];
            }
        | inl filled ↦
            let a = initially height pushed m s i w l hh in
            elim a.went [
              | inr e ↦ record {
                queue = a.queue;
                manager = a.manager;
                after = a.after;
                idle = a.idle;
                went = inr (ground (arith, filled, e));
              }
              | inl (e, suf, (hashes, size), same) ↦
                  let p =
                    if_too_long a.queue a.manager a.after a.idle
                      (subst AllDistinct (sym hashes) d) in
                  record {
                    queue = p.queue;
                    manager = p.manager;
                    after = p.after;
                    idle = p.idle;
                    went = elim p.went [
                      | inr f ↦ inr (ground (arith, filled, e, f))
                      | inl (f, suf2, small, same2) ↦ inl (
                        ground (arith, filled, e, f),
                        subst (IsSuffix p.queue.hashes) hashes suf2,
                        subst (λ b. length p.queue.hashes ≤ b) size small,
                        λ k c.
                            same2 k c
                            ∙ same k (suffix_contains k p.queue.hashes a.queue.hashes suf2 c),
                      )
                    ];
                  }
            ]
      ]
