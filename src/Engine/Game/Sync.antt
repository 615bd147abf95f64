-- ===== src/Engine/Game/Sync.antt =====
-- Syncing with the chain (`SyncFromCurrentState` and `ReinitialiseState` in xayagame/game.cpp).
use libxayagame.Base.{ℕ, zero, suc, not, none, some, String, ltb, if◌then◌else◌}
use libxayagame.Base.Eq.{◌==◌, number_equality}
use libxayagame.Engine.HeightCache.{set_current_game_state_with_height}
use libxayagame.Engine.Transactions.{set_batch_size}
use libxayagame.Engine.Game.{
  State, same_state, Setup, Cached, Daemon, Game, Run, done, throw, abort, unfinished, required,
  then_do, managed, current_hash,
}
use libxayagame.Engine.Game.Attach.{in_transaction, drop_state}

module _ (u : Setup) where
  unfoldable pub sync_from_current_state : Daemon u.json → ℕ → Game u → Run u (Unit {0})
  sync_from_current_state daemon current g =
      if not (same_state g.state State.out_of_sync)
      then abort
      else (required (u.from_hex daemon.best_block_hash) λ best.
          if best == current
          then managed (record g { state = State.up_to_date })
              (set_batch_size (Cached u) 1 g.manager)
          else (let (to_block, token) = daemon.send_updates current in
              then_do
                (managed (record g { state = State.catching_up })
                  (set_batch_size (Cached u) g.transaction_batch_size g.manager))
                λ h _.
                  required (u.from_hex to_block)
                    λ target. done (record h { target_block_hash = target; req_token = token }) tt))

  -- The loop that stores the initial state: it is retried when the storage throws.
  unfoldable pub store_genesis : ℕ → String → Game u → Run u (Unit {0})
  store_genesis zero initial g = unfinished
  store_genesis (suc fuel) initial g =
      elim (in_transaction u
        (set_current_game_state_with_height u.store u.hash_to_height g.genesis_hash g.genesis_height
          initial)
        g) [
          | done h _ ↦ done h tt
          | throw h ↦ store_genesis fuel initial h
          | abort ↦ abort
          | unfinished ↦ unfinished
        ]

  -- The height and hash of the initial state, from the game's logic.
  unfoldable pub with_genesis : Game u → Run u String
  with_genesis g =
      let (initial, height, hash_hex) = u.rules.get_initial_state in
      required (u.from_hex hash_hex)
        λ hash. done (record g { genesis_height = height; genesis_hash = hash }) initial

  -- What is done where the storage has no state, once the genesis block is there.
  unfoldable pub start_from_genesis : ℕ → Daemon u.json → Game u → Run u (Unit {0})
  unfolding drop_state with_genesis
  start_from_genesis fuel daemon g = then_do (drop_state u g) λ cleared _.
      then_do (with_genesis cleared) λ h initial.
        required (u.from_hex (daemon.block_hash h.genesis_height)) λ block_hash.
          if not (block_hash == h.genesis_hash)
          then abort
          else (then_do (store_genesis fuel initial h) λ stored _.
              sync_from_current_state daemon stored.genesis_hash
                (record stored { state = State.out_of_sync }))

  -- The genesis block is asked for once.
  unfoldable pub known_genesis : Game u → Run u (Unit {0})
  unfolding with_genesis
  known_genesis g =
      if g.genesis_hash == 0 then then_do (with_genesis g) (λ h _. done h tt) else done g tt

  unfoldable pub reinitialise_state : ℕ → Daemon u.json → Game u → Run u (Unit {0})
  unfolding sync_from_current_state start_from_genesis known_genesis
  reinitialise_state fuel daemon g = elim (current_hash g) [
    | some current ↦ sync_from_current_state daemon current (record g { state = State.out_of_sync })
    | none ↦ then_do (known_genesis (record g { state = State.unknown })) λ h _.
        if ltb daemon.blocks h.genesis_height
        then (done (record h { state = State.pregenesis; target_block_hash = h.genesis_hash }) tt)
        else start_from_genesis fuel daemon h
  ]
