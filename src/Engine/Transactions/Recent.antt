-- ===== src/Engine/Transactions/Recent.antt =====
-- The ways to use a transaction manager (xayagame/transactionmanager.cpp), and what a crash leaves.
use libxayagame.Base.{
  drop, ℕ, suc, ◌+◌, ◌<◌, ◌^◌, ◌≡◌, refl, sym, ◌∙◌, ap, subst, Option, none, some, arith, List, [],
  ◌∷◌,
}
use libxayagame.Engine.Storage.{Outcome, done, throw, StorageInterface}
use libxayagame.Engine.Transactions.{
  TransactionManager, set_batch_size, try_abort, active_transaction,
}
use libxayagame.Engine.Transactions.Invariant.{IsTransactional, IsIdle}
use libxayagame.Engine.Transactions.Scopes.{IsBody}

abbrev pub newest {ℓ} : {A : Type ℓ} → List A → Option A
newest [] = none
newest (x ∷ xs) = some x

module _ (st : StorageInterface) (laws : IsTransactional st) where
  open laws use {Content, is_open, view, durable}

  -- The manager, its storage, and what was seen after each transaction that is not reverted, the
  -- newest first.
  pub data History : TransactionManager st → st.State → List Content → Type 1 where
    start :
        (m : TransactionManager st) (s : st.State)
        → IsIdle st laws m s
        → m.batched_commits ≡ 0
        → durable s ≡ view s
        → History m s (view s ∷ [])
    succeeded :
        {Q : Type 0} (body : Q → st.State → Outcome (Q × st.State)) (q r : Q)
        (m n : TransactionManager st) (s t : st.State) (h : List Content)
        → IsBody st laws body
        → History m s h
        → active_transaction st body q m ≡ done (r, n)
        → n.storage ≡ some t
        → History n t (view t ∷ h)
    threw :
        {Q : Type 0} (body : Q → st.State → Outcome (Q × st.State)) (q r : Q)
        (m n : TransactionManager st) (s t : st.State) (h : List Content)
        → IsBody st laws body
        → History m s h
        → active_transaction st body q m ≡ throw (r, n)
        → n.storage ≡ some t
        → History n t (drop m.batched_commits h)
    resized :
        (sz : ℕ) (m n : TransactionManager st) (s t : st.State) (h : List Content)
        → sz < 2 ^ 32
        → History m s h
        → set_batch_size st sz m ≡ done n
        → n.storage ≡ some t
        → History n t h
    aborted :
        (m n : TransactionManager st) (s t : st.State) (h : List Content)
        → History m s h
        → try_abort st m ≡ done n
        → n.storage ≡ some t
        → History n t (drop m.batched_commits h)

  -- What is seen is what the newest transaction left; what a crash leaves is what was seen before
  -- the transactions of the batch.
  pub record IsRecent (m : TransactionManager st) (s : st.State) (h : List Content) : Type 0 where
    pub idle : IsIdle st laws m s
    pub seen : newest h ≡ some (view s)
    pub crashed : newest (drop m.batched_commits h) ≡ some (durable s)

  pub drop_next : (n : ℕ) (x : Content) (h : List Content) → drop (n + 1) (x ∷ h) ≡ drop n h
  drop_next n x h = let e : n + 1 ≡ suc n = omega arith in rw e refl

  pub same_storage :
      (m : TransactionManager st) (s t : st.State) → m.storage ≡ some s → m.storage ≡ some t → s ≡ t
  same_storage m s t e f = ground (arith, e, f)

  pub moved_to :
      (n' n : TransactionManager st) (t' t : st.State) (f : st.State → List Content)
      → n' ≡ n
      → n.storage ≡ some t
      → IsIdle st laws n' t'
      → IsRecent n' t' (f t')
      → IsRecent n t (f t)
  moved_to n' n t' t f same there i c =
      subst (λ k. IsRecent n k (f k))
        (same_storage n t' t (ap (λ (k : TransactionManager st). k.storage) (sym same) ∙ i.stored)
          there)
        (subst (λ k. IsRecent k t' (f t')) same c)
