-- ===== src/Engine/Game/Handlers.antt =====
-- The handlers of notifications (`BlockAttach`, `BlockDetach` and `PendingMove` in
-- xayagame/game.cpp).
use libxayagame.Base.{
  ℕ, suc, Bool, true, false, not, ◌||◌, Option, none, some, String, ltb, if◌then◌else◌,
}
use libxayagame.Base.Eq.{◌==◌, number_equality, text_equality}
use libxayagame.Engine.Storage.{Outcome}
use libxayagame.Engine.Pruning.{reset, attach_block, detach_block}
use libxayagame.Engine.PendingMoves.{
  PendingMoveProcessor, process_attached_block, process_detached_block, process_move,
}
use libxayagame.Engine.Game.{
  State, same_state, Setup, Cached, Daemon, Game, Run, done, throw, abort, unfinished, required,
  then_do, current_hash, current_state,
}
use libxayagame.Engine.Game.Attach.{height_of, update_state_for_attach, update_state_for_detach}
use libxayagame.Engine.Game.Sync.{reinitialise_state}

module _ (u : Setup) where
  open u.json use {Value, at, as_string, is_member}

  unfoldable pub is_reqtoken_relevant : Value → Game u → Bool
  is_reqtoken_relevant block_data g =
      let token : String =
        if is_member block_data "reqtoken" then as_string (at block_data "reqtoken") else "" in
      if same_state g.state State.catching_up then token == g.req_token else token == ""

  -- `data["block"][key]` as a hash
  abbrev pub block_hash_at : String → Value → Option ℕ
  block_hash_at key block_data = u.from_hex (as_string (at (at block_data "block") key))

  abbrev pub reset_pruning : Game u → Game u
  reset_pruning g = elim g.pruning_queue [
    | none ↦ g
    | some q ↦ record g { pruning_queue = some (reset q) }
  ]

  -- After missed notifications.
  unfoldable pub recover : ℕ → Daemon u.json → Game u → Run u (Unit {0})
  recover fuel daemon g =
      then_do (reinitialise_state u fuel daemon g) λ h _. done (reset_pruning h) tt

  -- `++pendingStateVersion` on the largest `int` is undefined; the model stops there.
  unfoldable pub notify_pending_state_change : Game u → Run u (Unit {0})
  notify_pending_state_change g =
      if ltb 0 g.pending_state_version
      then (if ltb g.pending_state_version 2147483647
          then done (record g { pending_state_version = suc g.pending_state_version }) tt
          else abort)
      else abort

  -- A call of the processor of pending moves, if there is one and the game is up to date.
  abbrev pub with_pending :
      (String
        → PendingMoveProcessor u.json u.pending_game u.from_hex
        → Option (PendingMoveProcessor u.json u.pending_game u.from_hex))
      → Game u
      → Run u (Unit {0})
  with_pending f g =
      if not (same_state g.state State.up_to_date) then done g tt else elim g.pending [
        | none ↦ done g tt
        | some p ↦ required (current_state g) λ confirmed.
            required (f confirmed p)
              λ p'. notify_pending_state_change (record g { pending = some p' })
      ]

  -- What a block does in the current state of the driver; the flag says whether to reinitialise.
  unfoldable pub attach_in_state : ℕ → ℕ → Value → Game u → Run u Bool
  attach_in_state parent hash block_data g = elim g.state [
    | State.pregenesis ↦ done g (hash == g.target_block_hash)
    | State.catching_up ↦
        then_do (update_state_for_attach u parent hash block_data g)
          λ h fits. done h (not fits || hash == h.target_block_hash)
    | State.up_to_date ↦
        then_do (update_state_for_attach u parent hash block_data g) λ h fits. done h (not fits)
    | State.unknown ↦ abort
    | State.out_of_sync ↦ abort
  ]

  abbrev pub attach_to_queue : ℕ → ℕ → Game u → Bool → Run u Bool
  attach_to_queue hash height g need = elim g.pruning_queue [
    | none ↦ done g need
    | some q ↦ elim (attach_block (Cached u) hash height q g.manager) [
      | Outcome.done (q', m) ↦ done (record g { pruning_queue = some q'; manager = m }) need
      | Outcome.throw (q', m) ↦ throw (record g { pruning_queue = some q'; manager = m })
      | Outcome.abort ↦ abort
    ]
  ]

  -- A storage that wants a new transaction makes the driver reinitialise.
  abbrev pub caught : Run u Bool → Run u Bool
  caught (done g need) = done g need
  caught (throw g) = done g true
  caught abort = abort
  caught unfinished = unfinished

  unfoldable pub block_attach :
      ℕ → Daemon u.json → String → Value → Bool → Game u → Run u (Unit {0})
  unfolding recover attach_in_state notify_pending_state_change
  block_attach fuel daemon id block_data seq_mismatch g =
      if not (id == g.game_id)
      then abort
      else (required (block_hash_at "parent" block_data) λ parent.
          required (block_hash_at "hash" block_data) λ hash.
            if seq_mismatch
            then recover fuel daemon g
            else (if not (is_reqtoken_relevant block_data g)
                then done g tt
                else (then_do
                    (caught (
                      then_do (attach_in_state parent hash block_data g)
                        (attach_to_queue hash (height_of u block_data))))
                    λ h need.
                      then_do (if need then reinitialise_state u fuel daemon h else done h tt)
                        λ k _.
                          with_pending
                            (λ confirmed.
                              process_attached_block u.json u.pending_game u.from_hex confirmed
                                block_data daemon.mempool)
                            k)))

  unfoldable pub detach_in_state : ℕ → ℕ → Value → Game u → Run u Bool
  detach_in_state parent hash block_data g = elim g.state [
    | State.pregenesis ↦ done g false
    | State.catching_up ↦
        then_do (update_state_for_detach u parent hash block_data g)
          λ h fits. done h (not fits || parent == h.target_block_hash)
    | State.up_to_date ↦
        then_do (update_state_for_detach u parent hash block_data g) λ h fits. done h (not fits)
    | State.unknown ↦ abort
    | State.out_of_sync ↦ abort
  ]

  abbrev pub detach_from_queue : Game u → Bool → Run u Bool
  detach_from_queue g need = elim g.pruning_queue [
    | none ↦ done g need
    | some q ↦ done (record g { pruning_queue = some (detach_block q) }) need
  ]

  unfoldable pub block_detach :
      ℕ → Daemon u.json → String → Value → Bool → Game u → Run u (Unit {0})
  unfolding recover detach_in_state notify_pending_state_change
  block_detach fuel daemon id block_data seq_mismatch g =
      if not (id == g.game_id)
      then abort
      else (required (block_hash_at "parent" block_data) λ parent.
          required (block_hash_at "hash" block_data) λ hash.
            if seq_mismatch
            then recover fuel daemon g
            else (if not (is_reqtoken_relevant block_data g)
                then done g tt
                else (then_do
                    (caught (then_do (detach_in_state parent hash block_data g) detach_from_queue))
                    λ h need.
                      then_do (if need then reinitialise_state u fuel daemon h else done h tt)
                        λ k _.
                          with_pending
                            (λ confirmed p.
                              if ltb 0 (height_of u block_data)
                              then process_detached_block u.json u.pending_game u.from_hex confirmed
                                  block_data daemon.mempool p
                              else none)
                            k)))

  unfoldable pub pending_move : String → Value → Game u → Run u (Unit {0})
  unfolding notify_pending_state_change
  pending_move id mv g =
      if not (id == g.game_id)
      then abort
      else (required (u.from_hex (as_string (at mv "txid"))) λ txid.
          if not (same_state g.state State.up_to_date)
          then done g tt
          else (required (current_hash g) λ hash. required g.pending λ p.
              required (current_state g) λ confirmed.
                required (process_move u.json u.pending_game u.from_hex confirmed mv p)
                  λ p'. notify_pending_state_change (record g { pending = some p' })))
