-- ===== src/Channel/Manager/AutoMoves/Rounds.antt =====
-- One round of the loop of the automoves (`ProcessAutoMoves` in gamechannel/channelmanager.cpp).
use libxayagame.Base.{
  ℕ, ◌≡◌, refl, inl, inr, false, Option, none, some, list_eq, arith, Bool-cases, Option-cases,
}
use libxayagame.Base.Eq.{◌==◌, number_equality}
use libxayagame.Base.Map.{lookup}
use libxayagame.Channel.Types.{Bytes, Participant, Metadata}
use libxayagame.Channel.Signatures.{participant}
use libxayagame.Channel.Rules.{BoardRules, Services, IsBoardRules, IsParsed}
use libxayagame.Channel.StateProof.{unverified_proof_end_state}
use libxayagame.Channel.StateProof.Checks.{participant-total}
use libxayagame.Channel.RollingState.{ReinitData}
use libxayagame.Channel.RollingState.Current.{get_latest_state-known, get_metadata-known}
use libxayagame.Channel.RollingState.Consistent.{IsConsistent}
use libxayagame.Channel.Manager.Environment.{Environment, Session, returns}
use libxayagame.Channel.Manager.AutoMoves.{next_auto_move}

module _ (rules : BoardRules) (sv : Services) (channel_id : ℕ) (env : Environment rules) where
  open rules use {Parsed, whose_turn, turn_count}
  open env use {World, maybe_auto_move}

  -- Why there is no automove in a state: it is nobody's turn, or that of another player, or the
  -- game has none.
  pub data HasNoAutoMove (player_name : Bytes) (world : World) (meta : Metadata) (state : Parsed)
      : Type 0 where
    no_turn : whose_turn state ≡ none → HasNoAutoMove player_name world meta state
    other_turn :
        (turn : ℕ) (player : Participant)
        → whose_turn state ≡ some turn
        → participant turn meta.participants ≡ some player
        → (player.name == player_name) ≡ false
        → HasNoAutoMove player_name world meta state
    none_found :
        (asked : World)
        → maybe_auto_move asked state ≡ (none, world)
        → HasNoAutoMove player_name world meta state

  -- What a round finds.
  pub data Found (s t : Session rules sv channel_id env) (e : ReinitData rules)
      : Option Bytes → Type 0 where
    nothing : HasNoAutoMove s.manager.player_name t.world e.meta e.latest_state → Found s t e none
    proposes :
        (turn : ℕ) (mv : Bytes)
        → whose_turn e.latest_state ≡ some turn
        → maybe_auto_move s.world e.latest_state ≡ (some mv, t.world)
        → Found s t e (some mv)

  Found-answer :
      (s : Session rules sv channel_id env) (e : ReinitData rules) (turn : ℕ) (mv : Option Bytes)
      (w : World)
      → whose_turn e.latest_state ≡ some turn
      → maybe_auto_move s.world e.latest_state ≡ (mv, w)
      → Found s (record s { world = w }) e mv
  Found-answer s e turn none w is_turn h = nothing (none_found s.world h)
  Found-answer s e turn (some mv) w is_turn h = proposes turn mv is_turn h

  module _ (laws : (meta : Metadata) → IsBoardRules rules channel_id meta)
      (s : Session rules sv channel_id env) (e : ReinitData rules)
      (c : IsConsistent rules sv channel_id s.manager.board_states)
      (there : lookup s.manager.board_states.reinit_id s.manager.board_states.reinits
        ≡ some e) where
    pub entry-IsParsed : IsParsed rules channel_id e.meta e.latest_state
    entry-IsParsed = (
      unverified_proof_end_state e.proof,
      (c.entries s.manager.board_states.reinit_id e there).latest,
    )

    pub next_auto_move-Found :
        (mv : Option Bytes) × (w : World) × (next_auto_move rules sv channel_id env s
          ≡ returns (mv, record s { world = w }))
        × Found s (record s { world = w }) e mv
    unfolding next_auto_move
    next_auto_move-Found =
        let state_known = get_latest_state-known rules s.manager.board_states e there in
        let meta_known = get_metadata-known rules s.manager.board_states e there in
        elim (Option-cases (whose_turn e.latest_state)) [
          | inl h ↦ (none, s.world, ground (arith, state_known, meta_known, h), nothing (no_turn h))
          | inr (turn, h) ↦
              let (player, p) =
                participant-total turn e.meta.participants
                  ((laws e.meta).turn_in_range e.latest_state turn entry-IsParsed h) in
              elim (Bool-cases (player.name == s.manager.player_name)) [
                | inr other ↦ (
                  none,
                  s.world,
                  ground (arith, state_known, meta_known, h, p, other),
                  nothing (other_turn turn player h p other),
                )
                | inl own ↦
                    let asked = maybe_auto_move s.world e.latest_state in
                    (
                      asked.0,
                      asked.1,
                      ground (arith, state_known, meta_known, h, p, own),
                      Found-answer s e turn asked.0 asked.1 h refl,
                    )
              ]
        ]
