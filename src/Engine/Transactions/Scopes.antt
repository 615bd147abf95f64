-- ===== src/Engine/Transactions/Scopes.antt =====
-- Blocks with an `ActiveTransaction` (xayagame/transactionmanager.cpp).
use libxayagame.Base.{◌+◌, ◌≡◌, refl, ◌∙◌, ◌⊎◌, inl, inr, true, some, arith}
use libxayagame.Engine.Storage.{Outcome, done, throw, StorageInterface}
use libxayagame.Engine.Transactions.{TransactionManager, active_transaction}
use libxayagame.Engine.Transactions.Invariant.{
  IsTransactional, IsIdle, IsActive, began, committed, RolledBack, rolled_back,
}

module _ (st : StorageInterface) (laws : IsTransactional st) where
  open laws use {is_open, view, durable}

  -- A body that works within the open transaction: it returns or throws, and makes nothing durable.
  abbrev pub Kept : st.State → st.State → Type 0
  Kept s t = (is_open t ≡ true) × (durable t ≡ durable s)

  -- The block threw: what is seen is what was durable, the batch is empty.
  pub record Reverted (m : TransactionManager st) (s : st.State) (n : TransactionManager st)
      (t : st.State) : Type 0 where
    pub idle : IsIdle st laws n t
    pub same_size : n.batch_size ≡ m.batch_size
    pub empty : n.batched_commits ≡ 0
    pub reverted : view t ≡ durable s
    pub same_durable : durable t ≡ durable s

  abbrev pub IsBody : {Q : Type 0} → (Q → st.State → Outcome (Q × st.State)) → Type 0
  IsBody {Q} body =
      (q : Q) (s : st.State)
      → is_open s ≡ true
      → (r : Q) × (t : st.State) × ((body q s ≡ done (r, t)) ⊎ (body q s ≡ throw (r, t))) × Kept s t

  -- The block succeeded: the body ran on what was seen before, what is seen is what it made, and the
  -- batch has one more transaction or is durable as a whole.
  pub record Succeeded {Q : Type 0} (body : Q → st.State → Outcome (Q × st.State)) (q : Q)
      (m : TransactionManager st) (s : st.State) (r : Q) (n : TransactionManager st) (t : st.State)
      : Type 0 where
    pub before : st.State
    pub after : st.State
    pub opened : is_open before ≡ true
    pub same_view : view before ≡ view s
    pub same_durable : durable before ≡ durable s
    pub ran : body q before ≡ done (r, after)
    pub idle : IsIdle st laws n t
    pub same_size : n.batch_size ≡ m.batch_size
    pub seen : view t ≡ view after
    pub batched :
        ((n.batched_commits ≡ m.batched_commits + 1) × (durable t ≡ durable s))
        ⊎ ((n.batched_commits ≡ 0)
            × (durable t ≡ view after)
            × (m.batched_commits + 1 ≡ m.batch_size))

  module _ (m : TransactionManager st) (s : st.State) (i : IsIdle st laws m s) where
    abbrev within : st.State → TransactionManager st
    within t = record m { storage = some t; in_transaction = true }

    within-IsActive : (t : st.State) → is_open t ≡ true → IsActive st laws (within t) t
    within-IsActive t o = record {
      stored = refl;
      active = refl;
      good = i.good;
      sized = record { room = i.sized.room; fits = i.sized.fits };
      opened = o;
    }

    Reverted-of :
        (n0 n : TransactionManager st) (t0 t : st.State)
        → n0.batch_size ≡ m.batch_size
        → durable t0 ≡ durable s
        → RolledBack st laws n0 t0 n t
        → Reverted m s n t
    Reverted-of n0 n t0 t size kept b = record {
      idle = b.idle;
      same_size = b.same_size ∙ size;
      empty = b.empty;
      reverted = b.reverted ∙ kept;
      same_durable = b.same_durable ∙ kept;
    }

  module _ {Q : Type 0} (body : Q → st.State → Outcome (Q × st.State)) (lawful : IsBody body)
      (q : Q) (m : TransactionManager st) (s : st.State) (i : IsIdle st laws m s) where
    abbrev pub Outcomes : Type 0
    Outcomes =
        (r : Q) × (n : TransactionManager st) × (t : st.State) × (((active_transaction st body q m
              ≡ done (r, n))
            × Succeeded body q m s r n t)
          ⊎ ((active_transaction st body q m ≡ throw (r, n)) × Reverted m s n t))

    -- Between transactions, on a storage whose transactions are as documented, a block with an
    -- `ActiveTransaction` whose body returns or throws within the transaction fails no CHECK. It
    -- succeeds, with the body's effect seen and batched or the whole batch durable; or it throws,
    -- and then what is seen is what was durable before. Either way no transaction is left open but
    -- that of the batch.
    pub active_transaction-Succeeded : Outcomes
    unfolding active_transaction
    active_transaction-Succeeded =
        let b = began st laws m s i in
        let (r, t, went, (opened, kept)) = lawful q b.inner b.opened in
        let kept_all : durable t ≡ durable s = kept ∙ b.same_durable in
        let active = within-IsActive m s i t opened in
        elim went [
          | inr threw ↦
              let (n, u, e, back) = rolled_back st laws (within m s i t) t (inl active) in
              (
                r,
                n,
                u,
                inr (
                  ground (arith, b.begun, threw, e),
                  Reverted-of m s i (within m s i t) n t u refl kept_all back,
                ),
              )
          | inl ran ↦ elim (committed st laws (within m s i t) t active) [
            | inl (n, u, e, c) ↦ (
              r,
              n,
              u,
              inl (
                ground (arith, b.begun, ran, e),
                record {
                  before = b.inner;
                  after = t;
                  opened = b.opened;
                  same_view = b.same_view;
                  same_durable = b.same_durable;
                  ran = ran;
                  idle = c.idle;
                  same_size = c.same_size;
                  seen = c.same_view;
                  batched = elim c.batched [
                    | inl (count, d) ↦ inl (count, d ∙ kept_all)
                    | inr flushed ↦ inr flushed
                  ];
                },
              ),
            )
            | inr (n1, u1, e1, c) ↦
                let (n, u, e, back) = rolled_back st laws n1 u1 (inr c.failed) in
                (
                  r,
                  n,
                  u,
                  inr (
                    ground (arith, b.begun, ran, e1, e),
                    Reverted-of m s i n1 n u1 u c.same_size (c.same_durable ∙ kept_all) back,
                  ),
                )
          ]
        ]
