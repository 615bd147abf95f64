-- ===== src/Mover/Logic/RoundTrip.antt =====
-- Undoing a block of Mover moves (mover/logic.cpp).
use libxayagame.Base.{
  ℕ, String, ◌≡◌, refl, ◌∙◌, sym, ◌≢◌, Option, some, List, [], ◌∷◌, arith, Bool-cases, Option-cases,
  inl, inr, All,
}
use libxayagame.Base.Eq.{◌==◌, number_equality, text_equality}
use libxayagame.Base.Map.{lookup, Distinct}
use libxayagame.Mover.Moves.{Direction, PlayerState, PlayerUndo}
use libxayagame.Mover.Logic.{
  Players, Undo, apply_moves, step_player, forward, restore_player, backwards,
}
use libxayagame.Mover.Logic.Moved.{
  first_move, OneMoveEach, moved_by, recorded_by, lookup-apply_moves, apply_moves-Distinct,
}
use libxayagame.Mover.Logic.Stepped.{
  stepped, marked, lookup-step_players, step_players-total, step_players-Distinct,
}
use libxayagame.Mover.Logic.Restored.{restored, lookup-backwards, backwards-total}
use libxayagame.Mover.Logic.Valid.{
  IsValidMove, IsValidPlayer, IsValidState, restore-step, step-IsValidPlayer,
}

abbrev after : Option (Direction × ℕ) → Option PlayerState → Option PlayerState
after mv o = stepped (moved_by mv o)

abbrev undo_after : Option (Direction × ℕ) → Option PlayerState → Option PlayerUndo
undo_after mv o = marked (moved_by mv o) (recorded_by mv o Option.none)

-- The undo data of a block restores one player, and the code's checks on it pass.
abbrev Undoes : Option (Direction × ℕ) → Option PlayerState → Type 0
Undoes mv o =
    (restored (after mv o) (undo_after mv o) ≡ o)
    × ((q : PlayerState) → after mv o ≡ some q → restore_player q (undo_after mv o) ≢ Option.none)

abbrev ValidAt : Option PlayerState → Type 0
ValidAt o = (p : PlayerState) → o ≡ some p → IsValidPlayer p

moved_by-ValidAt :
    (mv : Option (Direction × ℕ)) (o : Option PlayerState)
    → IsValidMove mv
    → ValidAt o
    → ValidAt (moved_by mv o)
moved_by-ValidAt Option.none o m v p e = v p e
moved_by-ValidAt (some (d, s)) Option.none m v p e = ground (arith, m)
moved_by-ValidAt (some (d, s)) (some p) m v q e = ground (arith, m, v p refl)

stepped-ValidAt : (o : Option PlayerState) → ValidAt o → ValidAt (stepped o)
stepped-ValidAt Option.none v q e = absurd (ground (arith, e))
stepped-ValidAt (some p) v q e = elim (Option-cases (step_player p)) [
  | inl stuck ↦ absurd (ground (arith, stuck, e))
  | inr ((r, f), went) ↦
      let same : q ≡ r = ground (arith, went, e) in
      rw same (step-IsValidPlayer p r f (v p refl) went)
]

undoes :
    (mv : Option (Direction × ℕ)) (o : Option PlayerState)
    → IsValidMove mv
    → ValidAt o
    → Undoes mv o
unfolding restore_player
undoes Option.none Option.none m v = (refl, λ q e. cc)
undoes Option.none (some p) m v =
    let (q, f, went, back) = restore-step p Option.none Option.none (v p refl) in
    elim (Option-cases f) [
      | inl e ↦ (ground (arith, went, back, e), λ r h. ground (arith, went, back, e, h))
      | inr (d, e) ↦ (ground (arith, went, back, e), λ r h. ground (arith, went, back, e, h))
    ]
undoes (some (d, s)) Option.none m v =
    let p : PlayerState = record { x = 0; y = 0; dir = d; steps_left = s } in
    let (q, f, went, back) =
      restore-step p Option.none Option.none
        (moved_by-ValidAt (some (d, s)) Option.none m v p refl) in
    elim (Option-cases f) [
      | inl e ↦ (ground (arith, went, e), λ r h. ground (arith, went, e, h))
      | inr (c, e) ↦ (ground (arith, went, e), λ r h. ground (arith, went, e, h))
    ]
undoes (some (d, s)) (some p) m v =
    let p1 : PlayerState = record p { dir = d; steps_left = s } in
    let (q, f, went, back) =
      restore-step p1 (some p.dir) (some p.steps_left)
        (moved_by-ValidAt (some (d, s)) (some p) m v p1 refl) in
    elim (Option-cases f) [
      | inl e ↦ (ground (arith, went, back, e), λ r h. ground (arith, went, back, e, h))
      | inr (c, e) ↦ (ground (arith, went, back, e), λ r h. ground (arith, went, back, e, h))
    ]

abbrev pub AllValid : List (String × Option (Direction × ℕ)) → Type 0
AllValid = All (λ m. IsValidMove m.1)

first_move-IsValidMove :
    (n : String) (ms : List (String × Option (Direction × ℕ)))
    → AllValid ms
    → IsValidMove (first_move n ms)
first_move-IsValidMove n [] v = tt
first_move-IsValidMove n ((m, Option.none) ∷ ms) v = first_move-IsValidMove n ms v.1
first_move-IsValidMove n ((m, some mv) ∷ ms) v = elim (Bool-cases (m == n)) [
  | inl hit ↦ rw hit v.0
  | inr miss ↦ rw miss (first_move-IsValidMove n ms v.1)
]

module _ (ms : List (String × Option (Direction × ℕ))) (ps : Players) (valid : AllValid ms)
    (state : IsValidState ps) where
  moved : Players × Undo
  moved = apply_moves ms (ps, [])

  moved-ValidAt : OneMoveEach ms → (n : String) → ValidAt (lookup n moved.0)
  unfolding moved
  moved-ValidAt one n = rw ((lookup-apply_moves n ms (ps, []) one).0) (
      moved_by-ValidAt (first_move n ms) (lookup n ps) (first_move-IsValidMove n ms valid)
        (state.players n))

  moved-steps :
      OneMoveEach ms
      → (n : String) (p : PlayerState) → lookup n moved.0 ≡ some p
      → step_player p ≢ Option.none
  moved-steps one n p e stuck =
      let (q, f, went, _) = restore-step p Option.none Option.none (moved-ValidAt one n p e) in
      ground (arith, went, stuck)

  -- A block of valid moves, at most one for each name, applies to a valid state, and no check
  -- fails.
  pub forward-total : OneMoveEach ms → (r : Players × Undo) × (forward ms ps ≡ some r)
  unfolding forward moved
  forward-total one =
      step_players-total moved.0 moved.1 (apply_moves-Distinct ms (ps, []) state.distinct)
        (moved-steps one)

  module _ (one : OneMoveEach ms) (qs : Players) (u : Undo)
      (went : forward ms ps ≡ some (qs, u)) where
    forward-Distinct : Distinct qs
    unfolding forward
    forward-Distinct =
        step_players-Distinct (apply_moves ms (ps, [])).0 (apply_moves ms (ps, [])).1 qs u went
          (apply_moves-Distinct ms (ps, []) state.distinct)

    lookup-forward :
        (n : String)
        → (lookup n qs ≡ after (first_move n ms) (lookup n ps))
          × (lookup n u ≡ undo_after (first_move n ms) (lookup n ps))
    unfolding forward lookup
    lookup-forward n = ground (
      arith,
      lookup-apply_moves n ms (ps, []) one,
      lookup-step_players n (apply_moves ms (ps, [])).0 (apply_moves ms (ps, [])).1 qs u went
          (apply_moves-Distinct ms (ps, []) state.distinct),
    )

    -- The state after a block of valid moves, at most one for each name, on a valid state is valid.
    pub forward-IsValidState : IsValidState qs
    forward-IsValidState = record {
      distinct = forward-Distinct;
      players = λ n. rw (lookup-forward n).0 (
          stepped-ValidAt (moved_by (first_move n ms) (lookup n ps)) (
            moved_by-ValidAt (first_move n ms) (lookup n ps) (first_move-IsValidMove n ms valid)
              (state.players n)));
    }

    Undoes-at : (n : String) → Undoes (first_move n ms) (lookup n ps)
    Undoes-at n =
        undoes (first_move n ms) (lookup n ps) (first_move-IsValidMove n ms valid) (state.players n)

    -- Undoing a block of valid moves, at most one for each name, that led from a valid state to
    -- another passes every check and gives each name what it had before.
    pub backwards-forward :
        (rs : Players) × (backwards qs u ≡ some rs) × ((n : String) → lookup n rs ≡ lookup n ps)
    backwards-forward =
        let (rs, back) = backwards-total qs u forward-Distinct (λ n q e stuck.
          (Undoes-at n).1 q (sym (lookup-forward n).0 ∙ e) (rw ((lookup-forward n).1) at stuck)) in
        (
          rs,
          back,
          λ n.
              rw
                (
                  lookup-backwards n qs u rs back forward-Distinct,
                  (lookup-forward n).0,
                  (lookup-forward n).1,
                )
                (Undoes-at n).0,
        )
