-- ===== src/Engine/Transactions/History.antt =====
-- Sequences of uses of the transaction manager (xayagame/transactionmanager.cpp) as Game makes them.
use libxayagame.Base.{
  drop, ℕ, ◌<◌, ◌^◌, ◌≡◌, refl, ◌∙◌, subst, inl, inr, true, false, some, ltb, leb, arith,
  Bool-cases, List, ◌∷◌,
}
use libxayagame.Engine.Storage.{Outcome, done, StorageInterface}
use libxayagame.Engine.Transactions.{TransactionManager, flush, set_batch_size, try_abort}
use libxayagame.Engine.Transactions.Invariant.{IsTransactional}
use libxayagame.Engine.Transactions.Scopes.{Succeeded, Reverted, active_transaction-Succeeded}
use libxayagame.Engine.Transactions.Recent.{
  start, succeeded, threw, resized, aborted, History, IsRecent, drop_next, same_storage, moved_to,
}

module _ (st : StorageInterface) (laws : IsTransactional st) where
  open laws use {Content, is_open, view, durable}

  Succeeded-IsRecent :
      {Q : Type 0} (body : Q → st.State → Outcome (Q × st.State)) (q r : Q)
      (m n : TransactionManager st) (s t : st.State) (h : List Content)
      → IsRecent st laws m s h
      → Succeeded st laws body q m s r n t
      → IsRecent st laws n t (view t ∷ h)
  Succeeded-IsRecent body q r m n s t h c x = record {
    idle = x.idle;
    seen = refl;
    crashed = elim x.batched [
      | inl (count, d) ↦ rw (count, d, drop_next st laws) c.crashed
      | inr (count, d, _) ↦ rw (count, d, x.seen) refl
    ];
  }

  Reverted-IsRecent :
      (m n : TransactionManager st) (s t : st.State) (h : List Content)
      → IsRecent st laws m s h
      → Reverted st laws m s n t
      → IsRecent st laws n t (drop m.batched_commits h)
  Reverted-IsRecent m n s t h c x = record {
    idle = x.idle;
    seen = rw (x.reverted) c.crashed;
    crashed = rw (x.empty, x.same_durable) c.crashed;
  }

  resized-IsRecent :
      (sz : ℕ) (m n : TransactionManager st) (s : st.State) (h : List Content)
      → sz < 2 ^ 32
      → IsRecent st laws m s h
      → set_batch_size st sz m ≡ done n
      → (t : st.State) × (n.storage ≡ some t) × IsRecent st laws n t h
  unfolding set_batch_size flush
  resized-IsRecent sz m n s h fits c went = elim (Bool-cases (leb 1 sz)) [
    | inr zero_size ↦ absurd (ground (arith, zero_size, went))
    | inl positive ↦ elim (Bool-cases (leb sz m.batched_commits)) [
      | inr smaller ↦
          let result : record m { batch_size = sz } ≡ n = ground (arith, positive, smaller, went) in
          subst (λ k. (t : st.State) × (k.storage ≡ some t) × IsRecent st laws k t h) result
            (
              s,
              c.idle.stored,
              record {
                idle = record {
                  stored = c.idle.stored;
                  idle = c.idle.idle;
                  good = c.idle.good;
                  sized = record { room = ground (arith, smaller); fits = fits };
                  opened = c.idle.opened;
                };
                seen = c.seen;
                crashed = c.crashed;
              },
            )
      | inl full ↦
          let opened : is_open s ≡ true = ground (arith, c.idle.opened, positive, full) in
          elim (laws.commits s opened) [
            | inr (t, e, o, d) ↦
                absurd
                  (ground (arith, positive, full, c.idle.stored, c.idle.idle, c.idle.good, e, went))
            | inl (t, e, o, v, d) ↦
                let result : record m { batch_size = sz; storage = some t; batched_commits = 0 }
                    ≡ n =
                  ground
                    (arith, positive, full, c.idle.stored, c.idle.idle, c.idle.good, e, went) in
                subst (λ k. (u : st.State) × (k.storage ≡ some u) × IsRecent st laws k u h) result
                  (
                    t,
                    refl,
                    record {
                      idle = record {
                        stored = refl;
                        idle = c.idle.idle;
                        good = c.idle.good;
                        sized = record { room = ground (arith, positive); fits = fits };
                        opened = o;
                      };
                      seen = rw v c.seen;
                      crashed = rw d c.seen;
                    },
                  )
          ]
    ]
  ]

  aborted-IsRecent :
      (m n : TransactionManager st) (s : st.State) (h : List Content)
      → IsRecent st laws m s h
      → try_abort st m ≡ done n
      → (t : st.State) × (n.storage ≡ some t) × IsRecent st laws n t (drop m.batched_commits h)
  unfolding try_abort
  aborted-IsRecent m n s h c went = elim (Bool-cases (ltb 0 m.batched_commits)) [
    | inr empty ↦
        let none_batched : m.batched_commits ≡ 0 = ground (arith, empty) in
        let result : record m { in_transaction = false; commit_failed = false; batched_commits = 0 }
            ≡ n =
          ground (arith, empty, c.idle.stored, c.idle.idle, c.idle.good, went) in
        subst
          (λ k.
            (u : st.State) × (k.storage ≡ some u) × IsRecent st laws k u (drop m.batched_commits h))
          result
          (
            s,
            c.idle.stored,
            record {
              idle = record {
                stored = c.idle.stored;
                idle = refl;
                good = refl;
                sized = record {
                  room = omega (arith, c.idle.sized.room);
                  fits = c.idle.sized.fits;
                };
                opened = c.idle.opened ∙ empty;
              };
              seen = rw none_batched c.seen;
              crashed = c.crashed;
            },
          )
    | inl full ↦
        let (t, e, o, v, d) = laws.rolls_back s (c.idle.opened ∙ full) in
        let result : record m {
          storage = some t;
          in_transaction = false;
          commit_failed = false;
          batched_commits = 0;
        }
            ≡ n =
          ground (arith, full, c.idle.stored, c.idle.idle, c.idle.good, e, went) in
        subst
          (λ k.
            (u : st.State) × (k.storage ≡ some u) × IsRecent st laws k u (drop m.batched_commits h))
          result
          (
            t,
            refl,
            record {
              idle = record {
                stored = refl;
                idle = refl;
                good = refl;
                sized = record {
                  room = omega (arith, c.idle.sized.room);
                  fits = c.idle.sized.fits;
                };
                opened = o;
              };
              seen = rw v c.crashed;
              crashed = rw d c.crashed;
            },
          )
  ]

  -- On a storage whose transactions are as documented, after any sequence of blocks with an
  -- `ActiveTransaction` that return or throw, changes of the batch size that return, and calls of
  -- `TryAbortTransaction`, from a manager with an empty batch: the manager is between transactions,
  -- the storage shows what the last transaction that was not reverted left, and what is durable is
  -- what was seen before the transactions of the current batch, of which there are fewer than the
  -- batch size.
  pub History-IsRecent :
      (m : TransactionManager st) (s : st.State) (h : List Content)
      → History st laws m s h
      → IsRecent st laws m s h
  History-IsRecent m s h (start _ _ i e d) = record {
    idle = i;
    seen = refl;
    crashed = rw (e, d) refl;
  }
  History-IsRecent n t _ (succeeded body q r m _ s _ h lawful before went there) =
      let c = History-IsRecent m s h before in
      let (r', n', t', o) = active_transaction-Succeeded st laws body lawful q m s c.idle in
      elim o [
        | inr (e, _) ↦ absurd (ground (arith, e, went))
        | inl (e, x) ↦
            let same : n' ≡ n = ground (arith, e, went) in
            moved_to st laws n' n t' t (λ u. view u ∷ h) same there x.idle
              (Succeeded-IsRecent body q r' m n' s t' h c x)
      ]
  History-IsRecent n t _ (threw body q r m _ s _ h lawful before went there) =
      let c = History-IsRecent m s h before in
      let (r', n', t', o) = active_transaction-Succeeded st laws body lawful q m s c.idle in
      elim o [
        | inl (e, _) ↦ absurd (ground (arith, e, went))
        | inr (e, x) ↦
            let same : n' ≡ n = ground (arith, e, went) in
            moved_to st laws n' n t' t (λ u. drop m.batched_commits h) same there x.idle
              (Reverted-IsRecent m n' s t' h c x)
      ]
  History-IsRecent n t _ (resized sz m _ s _ h fits before went there) =
      let (t', e, c) = resized-IsRecent sz m n s h fits (History-IsRecent m s h before) went in
      subst (λ x. IsRecent st laws n x h) (same_storage st laws n t' t e there) c
  History-IsRecent n t _ (aborted m _ s _ h before went there) =
      let (t', e, c) = aborted-IsRecent m n s h (History-IsRecent m s h before) went in
      subst (λ x. IsRecent st laws n x (drop m.batched_commits h))
        (same_storage st laws n t' t e there) c
