-- ===== src/Engine/Game/Updates/Sound.antt =====
-- The states that are stored are those of the blocks (xayagame/game.cpp).
use libxayagame.Base.{ℕ, ◌≡◌, inl, inr, some, String, arith, sym, ◌∙◌, subst, Bool-cases}
use libxayagame.Base.Eq.{◌==◌, number_equality}
use libxayagame.Engine.Transactions.Invariant.{IsTransactional}
use libxayagame.Engine.Game.{Setup}
use libxayagame.Engine.Game.Store.{IsStore}
use libxayagame.Engine.Game.Chain.{Chain, IsStateOf, IsUndoOf, IsSound}
use libxayagame.Engine.Game.Updates.Bodies.{IsStateStored, IsAttached, IsDetached}

module _ (u : Setup) (chain : Chain u) (laws : IsTransactional u.store)
    (store : IsStore u.store laws) where
  abbrev pub Sound : laws.Content → Type 0
  Sound = IsSound u chain laws store

  -- A right state of the current block makes the content right, if the undo data is.
  set-IsSound :
      (b : laws.Content) (hash : ℕ) (state : String)
      → store.current b ≡ some (hash, state)
      → IsStateOf u chain hash state
      → ((k : ℕ) (undo : String) → store.undo b k ≡ some undo → IsUndoOf u chain k undo)
      → Sound b
  set-IsSound b hash state e s undos = record {
    state_sound = λ h x k.
        let same : (hash, state) ≡ (h, x) = cc (e, k) in
        subst (λ (p : ℕ × String). IsStateOf u chain p.0 p.1) same s;
    undo_sound = undos;
  }

  pub IsStateStored-IsSound :
      (a b : laws.Content) (hash : ℕ) (state : String)
      → IsStateStored u chain laws store hash state a b
      → IsStateOf u chain hash state
      → Sound a
      → Sound b
  IsStateStored-IsSound a b hash state h s sound =
      set-IsSound b hash state h.is_current s
        (λ k undo e. sound.undo_sound k undo (sym (h.same_undo k) ∙ e))

  pub IsAttached-IsSound :
      (a b : laws.Content) (hash : ℕ) (undo state : String)
      → IsAttached u chain laws store hash undo state a b
      → IsStateOf u chain hash state
      → IsUndoOf u chain hash undo
      → Sound a
      → Sound b
  IsAttached-IsSound a b hash undo state h s d sound =
      set-IsSound b hash state h.is_current s (λ k x e. elim (Bool-cases (hash == k)) [
        | inl hit ↦
            let same_hash : hash ≡ k = ground (arith, hit) in
            let same_undo : undo ≡ x = ground (arith, h.added k, hit, e) in
            subst (λ j. IsUndoOf u chain j x) same_hash (subst (IsUndoOf u chain hash) same_undo d)
        | inr miss ↦ sound.undo_sound k x (ground (arith, h.added k, miss, e))
      ])

  pub IsDetached-IsSound :
      (a b : laws.Content) (parent hash : ℕ) (state : String)
      → IsDetached u chain laws store parent hash state a b
      → IsStateOf u chain parent state
      → Sound a
      → Sound b
  IsDetached-IsSound a b parent hash state h s sound =
      set-IsSound b parent state h.is_current s (λ k x e. elim (Bool-cases (hash == k)) [
        | inl hit ↦ ground (arith, h.removed k, hit, e)
        | inr miss ↦ sound.undo_sound k x (ground (arith, h.removed k, miss, e))
      ])
