-- ===== src/Channel/Manager/Requests/Disputes.antt =====
-- When a user's dispute is sent (`FileDispute` in gamechannel/channelmanager.cpp).
use libxayagame.Base.{
  ℕ, ◌≡◌, ◌≢◌, inl, inr, true, none, some, list_eq, arith, Bool-cases, Option-cases,
}
use libxayagame.Base.Eq.{◌==◌, number_equality}
use libxayagame.Base.Map.{lookup}
use libxayagame.Channel.Rules.{BoardRules, Services}
use libxayagame.Channel.RollingState.{ReinitData}
use libxayagame.Channel.RollingState.Current.{get_state_proof-known}
use libxayagame.Channel.Manager.Environment.{Environment, Session, returns}
use libxayagame.Channel.Manager.Requests.{file_dispute}
use libxayagame.Channel.Manager.Updates.Resolves.{IsManaged}

module _ (rules : BoardRules) (sv : Services) (channel_id : ℕ) (env : Environment rules)
    (s : Session rules sv channel_id env) where
  -- Nothing speaks against a dispute.
  abbrev pub IsDisputable : Type 0
  IsDisputable =
      (s.manager.exists ≡ true) × (s.manager.dispute ≡ none) × (s.manager.pending_dispute ≡ 0)

  -- The best known state has been sent with a dispute, and its transaction id is kept.
  abbrev pub disputed : ReinitData rules → Session rules sv channel_id env
  disputed e =
      let (txid, world) = env.send_dispute s.world e.proof in
      record s { manager = record s.manager { pending_dispute = txid }; world = world }

  -- What happens to a request that is not met.
  refused : ¬ IsDisputable → file_dispute rules sv channel_id env s ≡ returns (0, s)
  unfolding file_dispute
  refused not_now = elim (Bool-cases s.manager.exists) [
    | inr gone ↦ ground (arith, gone)
    | inl exists ↦ elim (Option-cases s.manager.dispute) [
      | inr (d, h) ↦ ground (arith, exists, h)
      | inl h ↦ elim (Bool-cases (s.manager.pending_dispute == 0)) [
        | inr sent ↦ ground (arith, exists, h, sent)
        | inl unsent ↦ absurd (not_now (exists, h, ground (arith, unsent)))
      ]
    ]
  ]

module _ (rules : BoardRules) (sv : Services) (channel_id : ℕ) (env : Environment rules)
    (s : Session rules sv channel_id env) (e : ReinitData rules)
    (managed : IsManaged rules sv channel_id s.manager)
    (there : lookup s.manager.board_states.reinit_id s.manager.board_states.reinits ≡ some e) where
  -- A request to file a dispute is met exactly if the channel exists, has no dispute, and none is
  -- pending: then the best known state is sent, and otherwise nothing changes. Unless the sender
  -- failed, a second request right after is not met.
  pub file_dispute-once :
      (IsDisputable rules sv channel_id env s
        → (file_dispute rules sv channel_id env s
            ≡ returns ((env.send_dispute s.world e.proof).0, disputed rules sv channel_id env s e))
          × ((env.send_dispute s.world e.proof).0 ≢ 0
              → file_dispute rules sv channel_id env (disputed rules sv channel_id env s e)
                ≡ returns (0, disputed rules sv channel_id env s e)))
      × (¬ IsDisputable rules sv channel_id env s
          → file_dispute rules sv channel_id env s ≡ returns (0, s))
  unfolding file_dispute
  file_dispute-once =
      let proof_known = get_state_proof-known rules s.manager.board_states e there in
      (
        λ (exists, no_dispute, unsent). (
          ground (arith, exists, no_dispute, unsent, managed.on_chain, proof_known),
          λ sent.
              refused rules sv channel_id env (disputed rules sv channel_id env s e)
                (λ again. sent again.2),
        ),
        refused rules sv channel_id env s,
      )
