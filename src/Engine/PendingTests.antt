-- ===== src/Engine/PendingTests.antt =====
-- Tests of the pending moves, and instances of their theorems.
use libxayagame.Base.{
  ℕ, ◌≡◌, refl, String, Option, none, some, List, [], ◌∷◌, ◌++◌, arith, if◌then◌else◌,
}
use libxayagame.Base.Eq.{◌==◌, text_equality, number_equality}
use libxayagame.Base.Map.{lookup, insert}
use libxayagame.Samples.{Value, string, object, field, end, sample_json}
use libxayagame.Engine.PendingMoves.{
  PendingGame, PendingMoveProcessor, reset, process_attached_block,
}
use libxayagame.Engine.PendingMoves.Rebuilt.{IsRebuilt, reset-IsRebuilt}
use libxayagame.Engine.PendingMoves.Queue.{IsProcessor, handle, handle-IsProcessor, attached}

abbrev pub hex : String → Option ℕ
hex s = if s == "aa" then some 170 else if s == "bb" then some 187 else none

-- A game that lists its pending moves.
abbrev pub listing : PendingGame sample_json
listing = record {
  Pending = List Value;
  clear = λ ms. [];
  add_pending_move = λ s block mv ms. ms ++ mv ∷ [];
}

abbrev block : String → String → Value
block hash parent = object (field "hash" (string hash) (field "parent" (string parent) end))

abbrev mv : String → Value
mv txid = object (field "txid" (string txid) end)

abbrev processor : PendingMoveProcessor sample_json listing hex
processor = record {
  block_queue = block "1" "0" ∷ [];
  pending = (170, mv "aa") ∷ (187, mv "bb") ∷ [];
  context = none;
  state = mv "aa" ∷ mv "bb" ∷ [];
}

-- One of the moves is confirmed in the block.
attach_runs :
    process_attached_block sample_json listing hex "s"
      (object (field "block" (block "2" "1") end))
      (string "bb" ∷ [])
      processor
    ≡ some (record {
      block_queue = block "1" "0" ∷ block "2" "1" ∷ [];
      pending = (187, mv "bb") ∷ [];
      context = none;
      state = mv "bb" ∷ [];
    })
unfolding process_attached_block lookup insert
attach_runs = refl

reset-IsRebuilt_example :
    (r : PendingMoveProcessor sample_json listing hex) × (reset sample_json listing hex "s"
        (string "bb" ∷ [])
        processor
      ≡ some r)
    × IsRebuilt sample_json listing hex "s" (187 ∷ []) processor r
reset-IsRebuilt_example =
    reset-IsRebuilt sample_json listing hex "s" (string "bb" ∷ []) (187 ∷ []) processor refl refl
      (refl, refl, tt)

handle-IsProcessor_example :
    (r : PendingMoveProcessor sample_json listing hex) × (handle sample_json listing hex
        (attached "s" (object (field "block" (block "2" "1") end)) (string "bb" ∷ []))
        processor
      ≡ some r)
    × IsProcessor sample_json listing hex r
handle-IsProcessor_example =
    handle-IsProcessor sample_json listing hex
      (attached "s" (object (field "block" (block "2" "1") end)) (string "bb" ∷ [])) processor
      (record { free = refl; chain = (refl, tt); bounded = omega arith })
      (refl, (187 ∷ [], (refl, refl, tt)))
