-- ===== src/Engine/Game/Chain.antt =====
-- What the driver (xayagame/game.cpp) is to compute: the state of a block is what the game makes of
-- the blocks from the genesis block on.
use libxayagame.Base.{ℕ, zero, suc, ◌+◌, ◌<◌, ◌≡◌, refl, sym, ◌∙◌, ap, some, String, arith, subst}
use libxayagame.Base.Eq.{number_equality}
use libxayagame.Engine.Transactions.Invariant.{IsTransactional}
use libxayagame.Engine.Game.{Setup}
use libxayagame.Engine.Game.Attach.{height_of}
use libxayagame.Engine.Game.Store.{IsStore}

-- The blocks that there are: a tree, with the genesis block of the game. The game does not look at
-- what differs between notifications of one block, such as a request token, and a block's undo data
-- undoes it.
pub record Chain (u : Setup) : Type 0 where
  pub genesis : ℕ
  pub parent_of : ℕ → ℕ
  pub height : ℕ → ℕ
  pub data_of : ℕ → u.json.Value
  pub genesis_hash : u.from_hex u.rules.get_initial_state.2 ≡ some genesis
  pub genesis_height : height genesis ≡ u.rules.get_initial_state.1
  pub undoes :
      (state : String) (hash : ℕ)
      → u.rules.process_backwards
          (u.rules.process_forward state (data_of hash)).0
          (data_of hash)
          (u.rules.process_forward state (data_of hash)).1
        ≡ state

module _ (u : Setup) (chain : Chain u) where
  open chain use {genesis, parent_of, height, data_of}

  -- A notification of a block with its parent.
  pub record IsNotified (parent hash : ℕ) (block_data : u.json.Value) : Type 0 where
    pub is_parent : parent ≡ parent_of hash
    pub next_height : height hash ≡ suc (height parent)
    pub same_forward :
        (state : String)
        → u.rules.process_forward state block_data ≡ u.rules.process_forward state (data_of hash)
    pub same_backwards :
        (state undo : String)
        → u.rules.process_backwards state block_data undo
          ≡ u.rules.process_backwards state (data_of hash) undo
    pub positive : 0 < height_of u block_data

  -- The state of the block that is `n` blocks above the genesis block.
  pub state_at : ℕ → ℕ → String
  state_at zero hash = u.rules.get_initial_state.0
  state_at (suc n) hash = (u.rules.process_forward (state_at n (parent_of hash)) (data_of hash)).0

  abbrev pub undo_at : ℕ → ℕ → String
  undo_at n hash = (u.rules.process_forward (state_at n (parent_of hash)) (data_of hash)).1

  -- The block is `n` blocks above the genesis block.
  abbrev pub Descends : ℕ → ℕ → Type 0
  Descends zero hash = hash ≡ genesis
  Descends (suc n) hash = Descends n (parent_of hash)

  -- The state is that of the block.
  pub record IsStateOf (hash : ℕ) (state : String) : Type 0 where
    pub blocks : ℕ
    pub descends : Descends blocks hash
    pub counted : height hash ≡ height genesis + blocks
    pub computed : state ≡ state_at blocks hash

  -- The undo data is that of the block.
  pub record IsUndoOf (hash : ℕ) (undo : String) : Type 0 where
    pub blocks : ℕ
    pub descends : Descends blocks (parent_of hash)
    pub counted : height hash ≡ height genesis + suc blocks
    pub computed : undo ≡ undo_at blocks hash

  module _ (laws : IsTransactional u.store) (store : IsStore u.store laws) where
    -- The current state is that of the current block, and all undo data belongs to its block.
    pub record IsSound (c : laws.Content) : Type 0 where
      pub state_sound :
          (hash : ℕ) (state : String) → store.current c ≡ some (hash, state) → IsStateOf hash state
      pub undo_sound :
          (hash : ℕ) (undo : String) → store.undo c hash ≡ some undo → IsUndoOf hash undo

  pub genesis-IsStateOf : IsStateOf genesis u.rules.get_initial_state.0
  unfolding state_at
  genesis-IsStateOf = record { blocks = 0; descends = refl; counted = omega arith; computed = refl }

  module _ (parent hash : ℕ) (block_data : u.json.Value)
      (notified : IsNotified parent hash block_data) where
    -- Forwards.
    pub forward-IsStateOf :
        (state : String)
        → IsStateOf parent state
        → IsStateOf hash (u.rules.process_forward state block_data).0
          × IsUndoOf hash (u.rules.process_forward state block_data).1
    unfolding state_at
    forward-IsStateOf state s =
        let same : u.rules.process_forward state block_data
            ≡ u.rules.process_forward (state_at s.blocks (parent_of hash)) (data_of hash) =
          notified.same_forward state
          ∙ ap (λ x. u.rules.process_forward x (data_of hash))
              (s.computed ∙ ap (state_at s.blocks) notified.is_parent) in
        let descends : Descends s.blocks (parent_of hash) =
          subst (Descends s.blocks) notified.is_parent s.descends in
        (
          record {
            blocks = suc s.blocks;
            descends = descends;
            counted = omega (arith, s.counted, notified.next_height);
            computed = ap (λ x. x.0) same;
          },
          record {
            blocks = s.blocks;
            descends = descends;
            counted = omega (arith, s.counted, notified.next_height);
            computed = ap (λ x. x.1) same;
          },
        )

    -- Backwards.
    pub backwards-IsStateOf :
        (state undo : String)
        → IsStateOf hash state
        → IsUndoOf hash undo
        → IsStateOf parent (u.rules.process_backwards state block_data undo)
    unfolding state_at
    backwards-IsStateOf state undo s d =
        let level : s.blocks ≡ suc d.blocks = omega (arith, s.counted, d.counted) in
        let is_state : state ≡ state_at (suc d.blocks) hash =
          s.computed ∙ ap (λ n. state_at n hash) level in
        record {
          blocks = d.blocks;
          descends = subst (Descends d.blocks) (sym notified.is_parent) d.descends;
          counted = omega (arith, d.counted, notified.next_height);
          computed =
              notified.same_backwards state undo
              ∙ ap (λ x. u.rules.process_backwards x (data_of hash) undo) is_state
              ∙ ap
                  (u.rules.process_backwards
                    (u.rules.process_forward (state_at d.blocks (parent_of hash)) (data_of hash)).0
                    (data_of hash))
                  d.computed
              ∙ chain.undoes (state_at d.blocks (parent_of hash)) hash
              ∙ ap (state_at d.blocks) (sym notified.is_parent);
        }
