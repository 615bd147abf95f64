-- ===== src/Engine/Transactions/Invariant.antt =====
-- The states of the transaction manager (xayagame/transactionmanager.cpp), and what its operations
-- make of them.
use libxayagame.Base.{
  ◌+◌, ◌<◌, ◌^◌, ◌%◌, ◌≡◌, refl, ◌⊎◌, inl, inr, Bool, true, false, ◌||◌, some, ltb, leb, arith,
  Bool-cases,
}
use libxayagame.Base.Eq.{number_equality}
use libxayagame.Engine.Storage.{done, throw, StorageInterface}
use libxayagame.Engine.Transactions.{TransactionManager, begin, commit, rollback}

-- What xayagame/storage.hpp says of transactions. The `view` is what queries see and `durable` what
-- remains after a crash. A commit may throw, and then the transaction can be rolled back.
pub record IsTransactional (st : StorageInterface) : Type 1 where
  pub Content : Type 0
  pub is_open : st.State → Bool
  pub view : st.State → Content
  pub durable : st.State → Content
  pub begins :
      (s : st.State)
      → is_open s ≡ false
      → (t : st.State) × (st.begin_transaction s ≡ done t)
        × (is_open t ≡ true)
        × (view t ≡ view s)
        × (durable t ≡ durable s)
  pub commits :
      (s : st.State)
      → is_open s ≡ true
      → ((t : st.State) × (st.commit_transaction s ≡ done t)
          × (is_open t ≡ false)
          × (view t ≡ view s)
          × (durable t ≡ view s))
        ⊎ ((t : st.State) × (st.commit_transaction s ≡ throw t)
            × (is_open t ≡ true)
            × (durable t ≡ durable s))
  pub rolls_back :
      (s : st.State)
      → is_open s ≡ true
      → (t : st.State) × (st.rollback_transaction s ≡ done t)
        × (is_open t ≡ false)
        × (view t ≡ durable s)
        × (durable t ≡ durable s)

module _ (st : StorageInterface) (laws : IsTransactional st) where
  open laws use {is_open, view, durable}

  -- The batch is not full, and its size is an `unsigned`.
  pub record IsSized (m : TransactionManager st) : Type 0 where
    pub room : m.batched_commits < m.batch_size
    pub fits : m.batch_size < 2 ^ 32

  -- Between transactions: the storage's transaction is open exactly when commits are batched.
  pub record IsIdle (m : TransactionManager st) (s : st.State) : Type 0 where
    pub stored : m.storage ≡ some s
    pub idle : m.in_transaction ≡ false
    pub good : m.commit_failed ≡ false
    pub sized : IsSized m
    pub opened : is_open s ≡ ltb 0 m.batched_commits

  -- Within a transaction.
  pub record IsActive (m : TransactionManager st) (s : st.State) : Type 0 where
    pub stored : m.storage ≡ some s
    pub active : m.in_transaction ≡ true
    pub good : m.commit_failed ≡ false
    pub sized : IsSized m
    pub opened : is_open s ≡ true

  -- After a commit that threw.
  pub record IsFailed (m : TransactionManager st) (s : st.State) : Type 0 where
    pub stored : m.storage ≡ some s
    pub idle : m.in_transaction ≡ false
    pub failed : m.commit_failed ≡ true
    pub fits : (0 < m.batch_size) × (m.batch_size < 2 ^ 32)
    pub opened : is_open s ≡ true

  abbrev pub with_storage : TransactionManager st → st.State → TransactionManager st
  with_storage m s = record m { storage = some s }

  pub record Began (m : TransactionManager st) (s : st.State) : Type 0 where
    pub inner : st.State
    pub begun : begin st m ≡ done (record m { storage = some inner; in_transaction = true })
    pub opened : is_open inner ≡ true
    pub same_view : view inner ≡ view s
    pub same_durable : durable inner ≡ durable s

  pub began : (m : TransactionManager st) (s : st.State) → IsIdle m s → Began m s
  unfolding begin
  began m s i = elim (Bool-cases (leb m.batched_commits 0)) [
    | inl empty ↦
        let closed : is_open s ≡ false = ground (arith, i.opened, empty) in
        let (t, e, o, v, d) = laws.begins s closed in
        record {
          inner = t;
          begun = ground (arith, i.stored, i.good, i.idle, empty, e);
          opened = o;
          same_view = v;
          same_durable = d;
        }
    | inr full ↦ record {
      inner = s;
      begun = ground (arith, i.stored, i.good, i.idle, full);
      opened = ground (arith, i.opened, full);
      same_view = refl;
      same_durable = refl;
    }
  ]

  -- A commit adds to the batch, or commits the batch, or fails.
  pub record Committed (m : TransactionManager st) (s : st.State) (n : TransactionManager st)
      (t : st.State) : Type 0 where
    pub idle : IsIdle n t
    pub same_size : n.batch_size ≡ m.batch_size
    pub same_view : view t ≡ view s
    pub batched :
        ((n.batched_commits ≡ m.batched_commits + 1) × (durable t ≡ durable s))
        ⊎ ((n.batched_commits ≡ 0) × (durable t ≡ view s) × (m.batched_commits + 1 ≡ m.batch_size))

  pub record CommitThrew (m : TransactionManager st) (s : st.State) (n : TransactionManager st)
      (t : st.State) : Type 0 where
    pub failed : IsFailed n t
    pub same_size : n.batch_size ≡ m.batch_size
    pub same_durable : durable t ≡ durable s

  pub committed :
      (m : TransactionManager st) (s : st.State)
      → IsActive m s
      → ((n : TransactionManager st) × (t : st.State) × (commit st m ≡ done n) × Committed m s n t)
        ⊎ ((n : TransactionManager st) × (t : st.State) × (commit st m ≡ throw n)
            × CommitThrew m s n t)
  unfolding commit
  committed m s a =
      let wrap : (m.batched_commits + 1) % 2 ^ 32 ≡ m.batched_commits + 1 =
        omega (arith, a.sized.room, a.sized.fits) in
      elim (Bool-cases (leb m.batch_size (m.batched_commits + 1))) [
        | inr more ↦ inl (
          record m { in_transaction = false; batched_commits = (m.batched_commits + 1) % 2 ^ 32 },
          s,
          ground (arith, a.stored, a.good, a.active, wrap, more),
          record {
            idle = record {
              stored = a.stored;
              idle = refl;
              good = a.good;
              sized = record { room = ground (arith, wrap, more); fits = a.sized.fits };
              opened = ground (arith, a.opened, wrap);
            };
            same_size = refl;
            same_view = refl;
            batched = inl (wrap, refl);
          },
        )
        | inl full ↦ elim (laws.commits s a.opened) [
          | inl (t, e, o, v, d) ↦ inl (
            record m { storage = some t; in_transaction = false; batched_commits = 0 },
            t,
            ground (arith, a.stored, a.good, a.active, wrap, full, e),
            record {
              idle = record {
                stored = refl;
                idle = refl;
                good = a.good;
                sized = record { room = omega (arith, a.sized.room); fits = a.sized.fits };
                opened = o;
              };
              same_size = refl;
              same_view = v;
              batched = inr (refl, d, ground (arith, full, a.sized.room));
            },
          )
          | inr (t, e, o, d) ↦ inr (
            record m {
              storage = some t;
              in_transaction = false;
              batched_commits = (m.batched_commits + 1) % 2 ^ 32;
              commit_failed = true;
            },
            t,
            ground (arith, a.stored, a.good, a.active, wrap, full, e),
            record {
              failed = record {
                stored = refl;
                idle = refl;
                failed = refl;
                fits = (omega (arith, a.sized.room), a.sized.fits);
                opened = o;
              };
              same_size = refl;
              same_durable = d;
            },
          )
        ]
      ]

  -- A rollback gives up the transaction and the whole batch.
  pub record RolledBack (m : TransactionManager st) (s : st.State) (n : TransactionManager st)
      (t : st.State) : Type 0 where
    pub idle : IsIdle n t
    pub same_size : n.batch_size ≡ m.batch_size
    pub empty : n.batched_commits ≡ 0
    pub reverted : view t ≡ durable s
    pub same_durable : durable t ≡ durable s

  pub rolled_back :
      (m : TransactionManager st) (s : st.State)
      → IsActive m s ⊎ IsFailed m s
      → (n : TransactionManager st) × (t : st.State) × (rollback st m ≡ done n) × RolledBack m s n t
  unfolding rollback
  rolled_back m s h =
      let stored : m.storage ≡ some s = elim h [ inl a ↦ a.stored | inr f ↦ f.stored ] in
      let opened : is_open s ≡ true = elim h [ inl a ↦ a.opened | inr f ↦ f.opened ] in
      let busy : (m.in_transaction || m.commit_failed) ≡ true = elim h [
        | inl a ↦ ground (arith, a.active)
        | inr f ↦ ground (arith, f.failed, f.idle)
      ] in
      let fits : (0 < m.batch_size) × (m.batch_size < 2 ^ 32) = elim h [
        | inl a ↦ (omega (arith, a.sized.room), a.sized.fits)
        | inr f ↦ f.fits
      ] in
      let (t, e, o, v, d) = laws.rolls_back s opened in
      (
        record {
          storage = some t;
          batch_size = m.batch_size;
          batched_commits = 0;
          in_transaction = false;
          commit_failed = false;
        },
        t,
        ground (arith, stored, busy, e),
        record {
          idle = record {
            stored = refl;
            idle = refl;
            good = refl;
            sized = record { room = fits.0; fits = fits.1 };
            opened = o;
          };
          same_size = refl;
          empty = refl;
          reverted = v;
          same_durable = d;
        },
      )
