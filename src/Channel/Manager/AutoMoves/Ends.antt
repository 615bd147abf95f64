-- ===== src/Channel/Manager/AutoMoves/Ends.antt =====
-- The loop of the automoves ends (`ProcessAutoMoves` in gamechannel/channelmanager.cpp).
use libxayagame.Base.{
  ℕ, zero, suc, ◌+◌, ◌<◌, ◌≤◌, ◌≡◌, refl, ap, subst, ◌∙◌, ◌⊎◌, inl, inr, ◌↔◌, Bool, true, false,
  Option, none, some, list_eq, arith,
}
use libxayagame.Base.Eq.{number_equality}
use libxayagame.Base.Map.{lookup}
use libxayagame.Channel.Types.{Bytes, Metadata, accept, reject}
use libxayagame.Channel.Rules.{BoardRules, Services, IsBoardRules, IsParsed, SignsValidly}
use libxayagame.Channel.RollingState.{ReinitData}
use libxayagame.Channel.RollingState.Consistent.{IsConsistent}
use libxayagame.Channel.Manager.{ChannelManager, apply_local_move}
use libxayagame.Channel.Manager.LocalMove.{TurnsIncrease, IsApplied, apply_local_move-IsApplied}
use libxayagame.Channel.Manager.Applied.{
  IsAdvanced, IsAdvanced_refl, IsAdvanced_trans, moved, IsApplied-IsAdvanced,
}
use libxayagame.Channel.Manager.Environment.{Environment, Session, returns, aborts}
use libxayagame.Channel.Manager.AutoMoves.Rounds.{
  HasNoAutoMove, Found, nothing, proposes, entry-IsParsed, next_auto_move-Found,
}
use libxayagame.Channel.Manager.AutoMoves.{next_auto_move, process_auto_moves}

module _ (rules : BoardRules) (sv : Services) (channel_id : ℕ) (env : Environment rules)
    (laws : (meta : Metadata) → IsBoardRules rules channel_id meta)
    (increase : TurnsIncrease rules channel_id) (signs : SignsValidly sv) where
  open rules use {Parsed, whose_turn, turn_count}
  open env use {World, maybe_auto_move}

  -- The loop has stopped at the entry `f`, where there is no automove.
  pub record HasSettled (found : Bool) (s : Session rules sv channel_id env) (e : ReinitData rules)
      (r : Bool × Session rules sv channel_id env) : Type 0 where
    pub entry : ReinitData rules
    pub advanced : IsAdvanced rules sv channel_id laws increase signs s.manager r.1.manager e entry
    pub settled :
        HasNoAutoMove rules sv channel_id env s.manager.player_name r.1.world entry.meta
          entry.latest_state
    pub no_older : turn_count e.latest_state ≤ turn_count entry.latest_state
    pub reports :
        (r.0 ≡ true)
        ↔ ((found ≡ true) ⊎ (turn_count e.latest_state < turn_count entry.latest_state))
    pub unmoved :
        turn_count entry.latest_state ≤ turn_count e.latest_state → r.1.manager ≡ s.manager

  -- The loop has come to the entry `f`, and the move that the game proposes there is refused.
  pub record IsRefused (s : Session rules sv channel_id env) (e : ReinitData rules) : Type 0 where
    pub at : Session rules sv channel_id env
    pub entry : ReinitData rules
    pub advanced : IsAdvanced rules sv channel_id laws increase signs s.manager at.manager e entry
    pub turn : ℕ
    pub is_turn : whose_turn entry.latest_state ≡ some turn
    pub move : Bytes
    pub after : World
    pub proposed : maybe_auto_move at.world entry.latest_state ≡ (some move, after)
    pub refused : apply_local_move rules sv channel_id move at.manager ≡ reject

  abbrev pub Ends : ℕ → Bool → Session rules sv channel_id env → ReinitData rules → Type 0
  Ends fuel found s e =
      ((r : Bool × Session rules sv channel_id env) × (process_auto_moves rules sv channel_id env
            fuel found s
          ≡ returns r)
        × HasSettled found s e r)
      ⊎ ((process_auto_moves rules sv channel_id env fuel found s ≡ aborts) × IsRefused s e)

  module _ (fuel : ℕ) (found : Bool) (s : Session rules sv channel_id env) (e : ReinitData rules)
      (c : IsConsistent rules sv channel_id s.manager.board_states)
      (there : lookup s.manager.board_states.reinit_id s.manager.board_states.reinits ≡ some e)
      (w : World) where
    -- The last round.
    Ends-nothing :
        next_auto_move rules sv channel_id env s ≡ returns (none, record s { world = w })
        → HasNoAutoMove rules sv channel_id env s.manager.player_name w e.meta e.latest_state
        → Ends (suc fuel) found s e
    unfolding process_auto_moves
    Ends-nothing round why = inl (
      (found, record s { world = w }),
      ground (arith, round),
      record {
        entry = e;
        advanced = IsAdvanced_refl rules sv channel_id laws increase signs s.manager e c there;
        settled = why;
        no_older = omega arith;
        reports = (λ h. inl h, λ h. elim h [ inl h ↦ h | inr lt ↦ absurd (omega (arith, lt)) ]);
        unmoved = λ _. refl;
      },
    )

    module _ (turn : ℕ) (mv : Bytes) (is_turn : whose_turn e.latest_state ≡ some turn)
        (round : next_auto_move rules sv channel_id env s
          ≡ returns (some mv, record s { world = w }))
        (proposed : maybe_auto_move s.world e.latest_state ≡ (some mv, w)) where
      Ends-refused :
          apply_local_move rules sv channel_id mv s.manager ≡ reject → Ends (suc fuel) found s e
      unfolding process_auto_moves
      Ends-refused refused = inr (
        ground (arith, round, refused),
        record {
          at = s;
          entry = e;
          advanced = IsAdvanced_refl rules sv channel_id laws increase signs s.manager e c there;
          turn = turn;
          is_turn = is_turn;
          move = mv;
          after = w;
          proposed = proposed;
          refused = refused;
        },
      )

      module _ (n : ChannelManager rules sv channel_id)
          (applies : apply_local_move rules sv channel_id mv s.manager ≡ accept n)
          (applied : IsApplied rules sv channel_id laws increase signs mv s.manager n e) where
        abbrev next_entry : ReinitData rules
        next_entry = moved rules sv channel_id laws increase signs mv s.manager n e c there applied

        first : IsAdvanced rules sv channel_id laws increase signs s.manager n e next_entry
        first =
            IsApplied-IsAdvanced rules sv channel_id laws increase signs mv s.manager n e c there
              applied

        same_player : n.player_name ≡ s.manager.player_name
        same_player = ap (λ (k : ChannelManager rules sv channel_id). k.player_name) first.frame

        -- One more round before the others.
        Ends-move :
            Ends fuel true (record { manager = n; world = w }) next_entry
            → Ends (suc fuel) found s e
        unfolding process_auto_moves
        Ends-move (inl (r, run, h)) = inl (
          r,
          ground (arith, round, applies, run),
          record {
            entry = h.entry;
            advanced =
                IsAdvanced_trans rules sv channel_id laws increase signs s.manager n r.1.manager e
                  next_entry h.entry first h.advanced;
            settled =
                subst
                  (λ k.
                    HasNoAutoMove rules sv channel_id env k r.1.world h.entry.meta
                      h.entry.latest_state)
                  same_player h.settled;
            no_older = omega (arith, applied.fresher, h.no_older);
            reports = (
              λ _. inr (omega (arith, applied.fresher, h.no_older)),
              λ _. h.reports.1 (inl refl),
            );
            unmoved = λ old. absurd (omega (arith, applied.fresher, h.no_older, old));
          },
        )
        Ends-move (inr (run, h)) = inr (
          ground (arith, round, applies, run),
          record {
            at = h.at;
            entry = h.entry;
            advanced =
                IsAdvanced_trans rules sv channel_id laws increase signs s.manager n h.at.manager e
                  next_entry h.entry first h.advanced;
            turn = h.turn;
            is_turn = h.is_turn;
            move = h.move;
            after = h.after;
            proposed = h.proposed;
            refused = h.refused;
          },
        )

  -- A round, given what the others do.
  Ends-round :
      (fuel : ℕ) (found : Bool) (s : Session rules sv channel_id env) (e : ReinitData rules)
      → (s.manager.stopped ≡ false) × (s.manager.exists ≡ true)
      → (c : IsConsistent rules sv channel_id s.manager.board_states)
      → (there : lookup s.manager.board_states.reinit_id s.manager.board_states.reinits ≡ some e)
      → ((t : Session rules sv channel_id env) (f : ReinitData rules)
          → IsAdvanced rules sv channel_id laws increase signs s.manager t.manager e f
          → turn_count e.latest_state < turn_count f.latest_state
          → Ends fuel true t f)
      → (mv : Option Bytes) (w : World)
      → next_auto_move rules sv channel_id env s ≡ returns (mv, record s { world = w })
      → Found rules sv channel_id env s (record s { world = w }) e mv
      → Ends (suc fuel) found s e
  Ends-round fuel found s e running c there others none w round (nothing why) =
      Ends-nothing fuel found s e c there w round why
  Ends-round fuel found s e running c there others (some mv) w round
        (proposes turn _ is_turn proposed) =
      elim (apply_local_move-IsApplied rules sv channel_id laws increase signs mv s.manager e
        running c there) [
          | inl refused ↦
              Ends-refused fuel found s e c there w turn mv is_turn round proposed refused
          | inr (n, applies, applied) ↦
              Ends-move fuel found s e c there w turn mv is_turn round proposed n applies applied (
                others (record { manager = n; world = w })
                  (next_entry fuel found s e c there w turn mv is_turn round proposed n applies
                    applied)
                  (first fuel found s e c there w turn mv is_turn round proposed n applies applied)
                  applied.fresher)
        ]

  -- A move does not stop the manager.
  pub running_after :
      (m n : ChannelManager rules sv channel_id)
      → (m.stopped ≡ false) × (m.exists ≡ true)
      → n ≡ record m { board_states = n.board_states }
      → (n.stopped ≡ false) × (n.exists ≡ true)
  running_after m n running frame = (
    ap (λ (k : ChannelManager rules sv channel_id). k.stopped) frame ∙ running.0,
    ap (λ (k : ChannelManager rules sv channel_id). k.exists) frame ∙ running.1,
  )

  module _ (limit : ℕ)
      (bounded : (meta : Metadata) (p : Parsed)
        → IsParsed rules channel_id meta p
        → turn_count p < limit) where
    -- If the rules are as documented, signatures are valid and the turn counts of all states stay
    -- below a limit, then on a running manager with a consistent state the loop of the automoves
    -- ends within as many rounds as there are turn counts left. It has then reached a state that is
    -- no older, in which it is nobody's turn, another player's turn, or the game proposes no move,
    -- and it reports whether it moved; or a CHECK has failed since a move that the game proposed
    -- was refused.
    pub process_auto_moves-HasSettled :
        (fuel : ℕ) (found : Bool) (s : Session rules sv channel_id env) (e : ReinitData rules)
        → (s.manager.stopped ≡ false) × (s.manager.exists ≡ true)
        → IsConsistent rules sv channel_id s.manager.board_states
        → lookup s.manager.board_states.reinit_id s.manager.board_states.reinits ≡ some e
        → limit ≤ fuel + turn_count e.latest_state
        → Ends fuel found s e
    process_auto_moves-HasSettled zero found s e running c there enough =
        let below =
          bounded e.meta e.latest_state (entry-IsParsed rules sv channel_id env laws s e c there) in
        absurd (omega (arith, below, enough))
    process_auto_moves-HasSettled (suc fuel) found s e running c there enough =
        let (mv, w, round, what) = next_auto_move-Found rules sv channel_id env laws s e c there in
        Ends-round fuel found s e running c there
          (λ t f a fresher.
            process_auto_moves-HasSettled fuel true t f
              (running_after s.manager t.manager running a.frame) a.consistent a.there
              (omega (arith, enough, fresher)))
          mv w round what
