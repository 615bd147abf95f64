-- ===== src/Engine/Transactions/Resized.antt =====
-- `SetBatchSize` and `TryAbortTransaction` between transactions (xayagame/transactionmanager.cpp).
use libxayagame.Base.{
  ℕ, ◌<◌, ◌^◌, ◌≡◌, refl, ◌∙◌, ◌⊎◌, inl, inr, true, false, some, ltb, leb, arith, Bool-cases,
}
use libxayagame.Engine.Storage.{done, throw, StorageInterface}
use libxayagame.Engine.Transactions.{TransactionManager, flush, set_batch_size, try_abort}
use libxayagame.Engine.Transactions.Invariant.{IsTransactional, IsIdle}

module _ (st : StorageInterface) (laws : IsTransactional st) where
  open laws use {is_open, view, durable}

  -- What is seen stays; what is durable stays, or has become what is seen.
  pub record Resized (s : st.State) (n : TransactionManager st) (t : st.State) : Type 0 where
    pub idle : IsIdle st laws n t
    pub same_view : view t ≡ view s
    pub same_durable : (durable t ≡ durable s) ⊎ (durable t ≡ view s)

  -- The batch is gone.
  pub record Aborted (s : st.State) (n : TransactionManager st) (t : st.State) : Type 0 where
    pub idle : IsIdle st laws n t
    pub closed : is_open t ≡ false
    pub reverted : (view t ≡ view s) ⊎ (view t ≡ durable s)
    pub same_durable : durable t ≡ durable s

  module _ (m : TransactionManager st) (s : st.State) (i : IsIdle st laws m s) where
    pub set_batch_size-Resized :
        (size : ℕ)
        → 0 < size
        → size < 2 ^ 32
        → ((n : TransactionManager st) × (t : st.State) × (set_batch_size st size m ≡ done n)
            × Resized s n t)
          ⊎ ((n : TransactionManager st) × (set_batch_size st size m ≡ throw n)
              × (n.commit_failed ≡ true))
    unfolding set_batch_size flush
    set_batch_size-Resized size positive fits = elim (Bool-cases (leb size m.batched_commits)) [
      | inr smaller ↦ inl (
        record m { batch_size = size },
        s,
        ground (arith, positive, smaller),
        record {
          idle = record {
            stored = i.stored;
            idle = i.idle;
            good = i.good;
            sized = record { room = ground (arith, smaller); fits = fits };
            opened = i.opened;
          };
          same_view = refl;
          same_durable = inl refl;
        },
      )
      | inl full ↦
          let opened : is_open s ≡ true = ground (arith, i.opened, positive, full) in
          elim (laws.commits s opened) [
            | inl (t, e, o, v, d) ↦ inl (
              record m { storage = some t; batch_size = size; batched_commits = 0 },
              t,
              ground (arith, positive, full, i.stored, i.idle, i.good, e),
              record {
                idle = record {
                  stored = refl;
                  idle = i.idle;
                  good = i.good;
                  sized = record { room = positive; fits = fits };
                  opened = o;
                };
                same_view = v;
                same_durable = inr d;
              },
            )
            | inr (t, e, o, d) ↦ inr (
              record m { storage = some t; batch_size = size; commit_failed = true },
              ground (arith, positive, full, i.stored, i.idle, i.good, e),
              refl,
            )
          ]
    ]

    pub try_abort-Aborted :
        (n : TransactionManager st) × (t : st.State) × (try_abort st m ≡ done n) × Aborted s n t
    unfolding try_abort
    try_abort-Aborted = elim (Bool-cases (ltb 0 m.batched_commits)) [
      | inr empty ↦ (
        record m { in_transaction = false; commit_failed = false; batched_commits = 0 },
        s,
        ground (arith, empty, i.stored, i.idle, i.good),
        record {
          idle = record {
            stored = i.stored;
            idle = refl;
            good = refl;
            sized = record { room = omega (arith, i.sized.room); fits = i.sized.fits };
            opened = i.opened ∙ empty;
          };
          closed = i.opened ∙ empty;
          reverted = inl refl;
          same_durable = refl;
        },
      )
      | inl full ↦
          let (t, e, o, v, d) = laws.rolls_back s (i.opened ∙ full) in
          (
            record m {
              storage = some t;
              in_transaction = false;
              commit_failed = false;
              batched_commits = 0;
            },
            t,
            ground (arith, full, i.stored, i.idle, i.good, e),
            record {
              idle = record {
                stored = refl;
                idle = refl;
                good = refl;
                sized = record { room = omega (arith, i.sized.room); fits = i.sized.fits };
                opened = o;
              };
              closed = o;
              reverted = inr v;
              same_durable = d;
            },
          )
    ]
