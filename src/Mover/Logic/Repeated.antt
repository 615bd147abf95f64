-- ===== src/Mover/Logic/Repeated.antt =====
-- A block of Mover moves (mover/logic.cpp) in which one name moves twice.
use libxayagame.Base.{
  ℕ, ◌<◌, String, ◌≡◌, false, Option, some, List, [], ◌∷◌, arith, Option-cases, inl, inr,
}
use libxayagame.Base.Eq.{same_refl, text_equality}
use libxayagame.Base.Map.{lookup}
use libxayagame.Mover.Moves.{Direction, PlayerState, word, is_none}
use libxayagame.Mover.Logic.{Players, Undo, apply_move, apply_moves, forward, backwards}
use libxayagame.Mover.Logic.Moved.{lookup-apply_move, apply_moves-Distinct}
use libxayagame.Mover.Logic.Stepped.{lookup-step_players, step_players-Distinct}
use libxayagame.Mover.Logic.Restored.{lookup-backwards}
use libxayagame.Mover.Logic.Valid.{IsValidPlayer, IsValidState, restore-step, with_finished}

module _ (n : String) (d1 d2 : Direction) (s1 s2 : ℕ) (ps : Players) (p : PlayerState) where
  abbrev two_moves : List (String × Option (Direction × ℕ))
  two_moves = (n, some (d1, s1)) ∷ (n, some (d2, s2)) ∷ []

  twice : Players × Undo
  twice = apply_move n (d2, s2) (apply_move n (d1, s1) (ps, []))

  lookup-twice :
      lookup n ps ≡ some p
      → (lookup n twice.0 ≡ some (record p { dir = d2; steps_left = s2 }))
        × (lookup n twice.1 ≡ some (with_finished (some d1) (some s1) Option.none))
  unfolding twice lookup
  lookup-twice here = ground (
    arith,
    same_refl n,
    lookup-apply_move n n (d1, s1) ps [],
    lookup-apply_move n n (d2, s2) (apply_move n (d1, s1) (ps, [])).0
        (apply_move n (d1, s1) (ps, [])).1,
  )

  -- If a block consists of two moves of a known player of a valid state, the second with a
  -- direction and with steps in range, then undoing the block, where that succeeds, gives the player
  -- the direction and steps of its first move.
  pub backwards-forward_repeated :
      IsValidState ps
      → lookup n ps ≡ some p
      → is_none d2 ≡ false
      → (0 < s2) × (s2 < word)
      → (qs : Players) (u : Undo) (rs : Players) → forward two_moves ps ≡ some (qs, u)
      → backwards qs u ≡ some rs
      → lookup n rs ≡ some (record p { dir = d1; steps_left = s1 })
  unfolding forward twice apply_moves lookup
  backwards-forward_repeated state here moving steps qs u rs went back =
      let v = state.players n p here in
      let p2 : PlayerState = record p { dir = d2; steps_left = s2 } in
      let v2 : IsValidPlayer p2 = record {
        x_word = v.x_word;
        y_word = v.y_word;
        steps_word = steps.1;
        moving = λ _. steps.0;
      } in
      let (q, f, stepped_q, restored_q) = restore-step p2 (some d1) (some s1) v2 in
      let distinct = apply_moves-Distinct two_moves (ps, []) state.distinct in
      elim (Option-cases f) [
        | inl e ↦ ground (
          arith,
          e,
          stepped_q,
          restored_q,
          lookup-twice here,
          lookup-step_players n twice.0 twice.1 qs u went distinct,
          lookup-backwards n qs u rs back
              (step_players-Distinct twice.0 twice.1 qs u went distinct),
        )
        | inr (d, e) ↦ ground (
          arith,
          e,
          stepped_q,
          restored_q,
          lookup-twice here,
          lookup-step_players n twice.0 twice.1 qs u went distinct,
          lookup-backwards n qs u rs back
              (step_players-Distinct twice.0 twice.1 qs u went distinct),
        )
      ]
