-- ===== src/Channel/Manager/Applied.antt =====
-- What an applied move leaves in the board states (gamechannel/channelmanager.cpp).
use libxayagame.Base.{ℕ, ◌≡◌, refl, sym, ap, subst, ◌∙◌, inr, some, list_eq, arith}
use libxayagame.Base.Eq.{number_equality, same_refl}
use libxayagame.Base.Map.{lookup, lookup-insert}
use libxayagame.Channel.Types.{Bytes, Metadata}
use libxayagame.Channel.Rules.{BoardRules, Services, IsBoardRules, SignsValidly}
use libxayagame.Channel.RollingState.{ReinitData, set_entry}
use libxayagame.Channel.RollingState.Consistent.{
  IsConsistent, fresher-IsConsistentEntry, set_entry-IsConsistent,
}
use libxayagame.Channel.Manager.{ChannelManager}
use libxayagame.Channel.Manager.LocalMove.{TurnsIncrease, IsApplied}

module _ (rules : BoardRules) (sv : Services) (channel_id : ℕ)
    (laws : (meta : Metadata) → IsBoardRules rules channel_id meta)
    (increase : TurnsIncrease rules channel_id) (signs : SignsValidly sv) where
  open rules use {turn_count}

  -- The board states may have moved on from the entry `e` of the current reinitialisation to `f`;
  -- nothing else of the manager has changed.
  pub record IsAdvanced (m n : ChannelManager rules sv channel_id) (e f : ReinitData rules)
      : Type 0 where
    pub consistent : IsConsistent rules sv channel_id n.board_states
    pub same_reinit : n.board_states.reinit_id ≡ m.board_states.reinit_id
    pub there : lookup n.board_states.reinit_id n.board_states.reinits ≡ some f
    pub same_meta : f.meta ≡ e.meta
    pub frame : n ≡ record m { board_states = n.board_states }

  pub IsAdvanced_refl :
      (m : ChannelManager rules sv channel_id) (e : ReinitData rules)
      → IsConsistent rules sv channel_id m.board_states
      → lookup m.board_states.reinit_id m.board_states.reinits ≡ some e
      → IsAdvanced m m e e
  IsAdvanced_refl m e c there = record {
    consistent = c;
    same_reinit = refl;
    there = there;
    same_meta = refl;
    frame = refl;
  }

  pub IsAdvanced_trans :
      (m n k : ChannelManager rules sv channel_id) (e f g : ReinitData rules)
      → IsAdvanced m n e f
      → IsAdvanced n k f g
      → IsAdvanced m k e g
  IsAdvanced_trans m n k e f g a b = record {
    consistent = b.consistent;
    same_reinit = b.same_reinit ∙ a.same_reinit;
    there = b.there;
    same_meta = b.same_meta ∙ a.same_meta;
    frame =
        b.frame
        ∙ ap
            (λ (x : ChannelManager rules sv channel_id). record x { board_states = k.board_states })
            a.frame;
  }

  module _ (mv : Bytes) (m n : ChannelManager rules sv channel_id) (e : ReinitData rules)
      (c : IsConsistent rules sv channel_id m.board_states)
      (there : lookup m.board_states.reinit_id m.board_states.reinits ≡ some e)
      (applied : IsApplied rules sv channel_id laws increase signs mv m n e) where
    abbrev pub moved : ReinitData rules
    moved = record e { proof = applied.proof; latest_state = applied.parsed }

    pub IsApplied-IsAdvanced : IsAdvanced m n e moved
    IsApplied-IsAdvanced =
        let states = set_entry rules sv channel_id m.board_states.reinit_id moved m.board_states in
        let after : ChannelManager rules sv channel_id = record m { board_states = states } in
        subst (λ k. IsAdvanced m k e moved) (sym applied.result)
          (record {
            consistent =
                set_entry-IsConsistent rules sv channel_id m.board_states.reinit_id moved
                  m.board_states c.entries
                  (fresher-IsConsistentEntry rules sv channel_id laws m.board_states.reinit_id e
                    applied.proof applied.parsed (c.entries m.board_states.reinit_id e there)
                    (record {
                      versioned = applied.versioned;
                      valid = applied.valid;
                      parses = applied.parses;
                      fresher = applied.fresher;
                    }))
                  (inr (e, there));
            same_reinit = refl;
            there = ground (
              arith,
              lookup-insert m.board_states.reinit_id m.board_states.reinit_id moved
                  m.board_states.reinits,
              same_refl m.board_states.reinit_id,
            );
            same_meta = refl;
            frame = refl;
          })
