-- ===== src/Engine/Game/Attach.antt =====
-- One block forwards or backwards (`UpdateStateForAttach` and `UpdateStateForDetach` in
-- xayagame/game.cpp).
use libxayagame.Base.{
  ℕ, ◌-◌, Bool, true, false, not, Option, none, some, String, ltb, if◌then◌else◌,
}
use libxayagame.Base.Eq.{◌==◌, number_equality}
use libxayagame.Engine.Storage.{Outcome}
use libxayagame.Engine.HeightCache.{CachedStorage, set_current_game_state_with_height}
use libxayagame.Engine.Transactions.{active_transaction, try_abort, call, ◌>>=◌}
use libxayagame.Engine.Game.{
  Setup, Cached, Game, Run, done, throw, abort, required, then_do, managed, current_hash,
  current_state,
}

module _ (u : Setup) where
  -- `data["block"]["height"].asUInt ()`
  abbrev pub height_of : u.json.Value → ℕ
  height_of block_data = u.json.as_uint (u.json.at (u.json.at block_data "block") "height")

  abbrev pub with_unit : {S : Type 0} → Outcome S → Outcome (Unit {0} × S)
  with_unit (Outcome.done s) = Outcome.done (tt, s)
  with_unit (Outcome.throw s) = Outcome.throw (tt, s)
  with_unit Outcome.abort = Outcome.abort

  -- A block with an `ActiveTransaction` in which the storage is changed.
  abbrev pub in_transaction :
      (CachedStorage u.store u.hash_to_height → Outcome (CachedStorage u.store u.hash_to_height))
      → Game u
      → Run u (Unit {0})
  in_transaction body g =
      elim (active_transaction (Cached u) (λ (q : Unit {0}) c. with_unit (body c)) tt g.manager) [
        | Outcome.done (_, m) ↦ done (record g { manager = m }) tt
        | Outcome.throw (_, m) ↦ throw (record g { manager = m })
        | Outcome.abort ↦ abort
      ]

  -- What an attached block does to the storage.
  unfoldable pub store_attached :
      ℕ
      → ℕ
      → String
      → String
      → CachedStorage u.store u.hash_to_height
      → Outcome (CachedStorage u.store u.hash_to_height)
  unfolding set_current_game_state_with_height
  store_attached hash height undo new_state c =
      (Cached u).add_undo_data hash height undo c
      >>= set_current_game_state_with_height u.store u.hash_to_height hash height new_state

  -- The flag is false if the game state does not fit, so that the game has to be reinitialised.
  unfoldable pub update_state_for_attach : ℕ → ℕ → u.json.Value → Game u → Run u Bool
  unfolding store_attached
  update_state_for_attach parent hash block_data g = required (current_hash g) λ current.
      if not (current == parent)
      then done g false
      else (required (current_state g) λ old_state.
          let (new_state, undo) = u.rules.process_forward old_state block_data in
          then_do (in_transaction (store_attached hash (height_of block_data) undo new_state) g)
            λ h _. done h true)

  -- What a detached block does to the storage.
  unfoldable pub store_detached :
      ℕ
      → ℕ
      → ℕ
      → String
      → CachedStorage u.store u.hash_to_height
      → Outcome (CachedStorage u.store u.hash_to_height)
  unfolding set_current_game_state_with_height
  store_detached parent hash height old_state c =
      set_current_game_state_with_height u.store u.hash_to_height parent (height - 1) old_state c
      >>= (Cached u).release_undo_data hash

  -- `GetUndoData` of the storage.
  abbrev pub undo_data_of : ℕ → Game u → Option String
  undo_data_of hash g = elim g.manager.storage [
    | none ↦ none
    | some c ↦ (Cached u).get_undo_data hash c
  ]

  -- Without undo data the storage is cleared, so that the game is synced from scratch.
  unfoldable pub drop_state : Game u → Run u (Unit {0})
  unfolding try_abort
  drop_state g = managed g (try_abort (Cached u) g.manager >>= call (Cached u) (Cached u).clear)

  unfoldable pub update_state_for_detach : ℕ → ℕ → u.json.Value → Game u → Run u Bool
  unfolding store_detached drop_state
  update_state_for_detach parent hash block_data g = required (current_hash g) λ current.
      if not (current == hash) then done g false else elim (undo_data_of hash g) [
        | none ↦ then_do (drop_state g) λ h _. done h false
        | some undo ↦ required (current_state g) λ new_state.
            let old_state = u.rules.process_backwards new_state block_data undo in
            if not (ltb 0 (height_of block_data))
            then abort
            else (then_do
                (in_transaction (store_detached parent hash (height_of block_data) old_state) g)
                λ h _. done h true)
      ]
