-- ===== src/Mover/Logic/Stepped.antt =====
-- What the stepping of all players (mover/logic.cpp) does to one player.
use mathlib.Core.Option.{get_or}
use mathlib.Core.Option
use libxayagame.Base.{
  String, ◌≡◌, refl, ◌≢◌, Option, some, [], ◌∷◌, arith, if◌then◌else◌, Option-cases, inl, inr,
}
use libxayagame.Base.Eq.{◌==◌, text_equality, same_refl}
use libxayagame.Base.Map.{lookup, lookup-insert, Distinct, lookup_tail}
use libxayagame.Mover.Moves.{Direction, PlayerState, PlayerUndo}
use libxayagame.Mover.Logic.{
  Players, Undo, no_undo, undo_entry, step_player, mark_finished, step_players,
}

-- The player after the stepping loop, and its undo data.
abbrev pub stepped : Option PlayerState → Option PlayerState
stepped Option.none = Option.none
stepped (some p) = Option.map (λ r. r.0) (step_player p)

abbrev pub finished_entry : Option Direction → Option PlayerUndo → Option PlayerUndo
finished_entry Option.none u = u
finished_entry (some d) u = some (record (get_or u no_undo) { finished_dir = some d })

abbrev pub marked : Option PlayerState → Option PlayerUndo → Option PlayerUndo
marked Option.none u = u
marked (some p) u = elim (step_player p) [ Option.none ↦ u | some (q, f) ↦ finished_entry f u ]

lookup-mark_finished :
    (n name : String) (f : Option Direction) (u : Undo)
    → lookup n (mark_finished name f u)
      ≡ (if name == n then finished_entry f (lookup n u) else lookup n u)
lookup-mark_finished n name Option.none u = ground arith
lookup-mark_finished n name (some d) u = ground (
  arith,
  lookup-insert name n (record (undo_entry name u) { finished_dir = some d }) u,
  text_equality.same_iff name n,
)

-- The stepping loop treats each player by itself.
pub lookup-step_players :
    (n : String) (ps : Players) (u : Undo) (qs : Players) (v : Undo)
    → step_players ps u ≡ some (qs, v)
    → Distinct ps
    → (lookup n qs ≡ stepped (lookup n ps)) × (lookup n v ≡ marked (lookup n ps) (lookup n u))
unfolding step_players lookup
lookup-step_players n [] u qs v e d = ground arith
lookup-step_players n ((name, p) ∷ ps) u qs v e d = elim (Option-cases (step_player p)) [
  | inl stuck ↦ absurd (ground (arith, stuck))
  | inr ((q, f), went) ↦ elim (Option-cases (step_players ps (mark_finished name f u))) [
    | inl stuck ↦ absurd (ground (arith, stuck, went))
    | inr ((rs, w), rest) ↦ ground (
      arith,
      went,
      rest,
      lookup-step_players n ps (mark_finished name f u) rs w rest d.1,
      lookup-mark_finished n name f u,
      text_equality.same_iff name n,
    )
  ]
]

pub step_players-total :
    (ps : Players) (u : Undo)
    → Distinct ps
    → ((n : String) (p : PlayerState) → lookup n ps ≡ some p → step_player p ≢ Option.none)
    → (r : Players × Undo) × (step_players ps u ≡ some r)
unfolding step_players lookup
step_players-total [] u d h = (([], u), refl)
step_players-total ((name, p) ∷ ps) u d h = elim (Option-cases (step_player p)) [
  | inl stuck ↦ absurd (h name p (rw (same_refl name)) stuck)
  | inr ((q, f), went) ↦
      let (r, rest) =
        step_players-total ps (mark_finished name f u) d.1
          (λ n o l. h n o (lookup_tail n name o p ps d.0 l)) in
      ((((name, q) ∷ r.0), r.1), ground (arith, went, rest))
]

-- Stepping keeps the names.
pub step_players-Distinct :
    (ps : Players) (u : Undo) (qs : Players) (v : Undo)
    → step_players ps u ≡ some (qs, v)
    → Distinct ps
    → Distinct qs
unfolding step_players lookup
step_players-Distinct [] u qs v e d = ground arith
step_players-Distinct ((name, p) ∷ ps) u qs v e d = elim (Option-cases (step_player p)) [
  | inl stuck ↦ absurd (ground (arith, stuck))
  | inr ((q, f), went) ↦ elim (Option-cases (step_players ps (mark_finished name f u))) [
    | inl stuck ↦ absurd (ground (arith, stuck, went))
    | inr ((rs, w), rest) ↦ ground (
      arith,
      went,
      rest,
      lookup-step_players name ps (mark_finished name f u) rs w rest d.1,
      step_players-Distinct ps (mark_finished name f u) rs w rest d.1,
    )
  ]
]
