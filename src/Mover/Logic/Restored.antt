-- ===== src/Mover/Logic/Restored.antt =====
-- What undoing a block (mover/logic.cpp) does to one player.
use mathlib.Core.Option.{get_or}
use libxayagame.Base.{
  String, ◌≡◌, refl, ◌≢◌, Bool, true, false, Option, some, List, [], ◌∷◌, arith, if◌then◌else◌,
  Option-cases, inl, inr,
}
use libxayagame.Base.Eq.{◌==◌, text_equality, same_refl}
use libxayagame.Base.Map.{lookup, erase, lookup-erase, Distinct, lookup_tail}
use libxayagame.Mover.Moves.{PlayerState, PlayerUndo}
use libxayagame.Mover.Logic.{
  Players, Undo, restore_player, restore_players, remove_players, backwards,
}

-- The player after the undoing loop.
abbrev pub restored : Option PlayerState → Option PlayerUndo → Option PlayerState
restored Option.none u = Option.none
restored (some p) u = get_or (restore_player p u) Option.none

abbrev pub mem_name : String → List String → Bool
mem_name n [] = false
mem_name n (m ∷ ms) = if m == n then true else mem_name n ms

lookup-remove_players :
    (n : String) (names : List String) (ps : Players)
    → lookup n (remove_players names ps) ≡ (if mem_name n names then Option.none else lookup n ps)
unfolding remove_players
lookup-remove_players n [] ps = refl
lookup-remove_players n (m ∷ ms) ps =
    ground (arith, lookup-remove_players n ms (erase m ps), lookup-erase m n ps)

-- Only players that are there are marked for removal.
restore_players-absent :
    (n : String) (ps : Players) (u : Undo) (qs : Players) (names : List String)
    → restore_players ps u ≡ some (qs, names)
    → lookup n ps ≡ Option.none
    → mem_name n names ≡ false
unfolding restore_players lookup
restore_players-absent n [] u qs names e a = ground arith
restore_players-absent n ((name, p) ∷ ps) u qs names e a =
    elim (Option-cases (restore_player p (lookup name u))) [
      | inl stuck ↦ absurd (ground (arith, stuck))
      | inr (r, went) ↦ elim (Option-cases (restore_players ps u)) [
        | inl stuck ↦ absurd (ground (arith, stuck, went))
        | inr ((rs, ns), rest) ↦
            ground (arith, went, rest, restore_players-absent n ps u rs ns rest)
      ]
    ]

lookup-restore_players :
    (n : String) (ps : Players) (u : Undo) (qs : Players) (names : List String)
    → restore_players ps u ≡ some (qs, names)
    → Distinct ps
    → (if mem_name n names then Option.none else lookup n qs) ≡ restored (lookup n ps) (lookup n u)
unfolding restore_players lookup
lookup-restore_players n [] u qs names e d = ground arith
lookup-restore_players n ((name, p) ∷ ps) u qs names e d =
    elim (Option-cases (restore_player p (lookup name u))) [
      | inl stuck ↦ absurd (ground (arith, stuck))
      | inr (r, went) ↦ elim (Option-cases (restore_players ps u)) [
        | inl stuck ↦ absurd (ground (arith, stuck, went))
        | inr ((rs, ns), rest) ↦ ground (
          arith,
          went,
          rest,
          lookup-restore_players n ps u rs ns rest d.1,
          restore_players-absent n ps u rs ns rest,
          text_equality.same_iff name n,
        )
      ]
    ]

-- The undoing loop, with the removals, treats each player by itself.
pub lookup-backwards :
    (n : String) (ps : Players) (u : Undo) (qs : Players)
    → backwards ps u ≡ some qs
    → Distinct ps
    → lookup n qs ≡ restored (lookup n ps) (lookup n u)
unfolding backwards
lookup-backwards n ps u qs e d = elim (Option-cases (restore_players ps u)) [
  | inl stuck ↦ absurd (ground (arith, stuck))
  | inr ((rs, ns), went) ↦
      ground
        (arith, went, lookup-restore_players n ps u rs ns went d, lookup-remove_players n ns rs)
]

restore_players-total :
    (ps : Players) (u : Undo)
    → Distinct ps
    → ((n : String) (p : PlayerState)
        → lookup n ps ≡ some p
        → restore_player p (lookup n u) ≢ Option.none)
    → (r : Players × List String) × (restore_players ps u ≡ some r)
unfolding restore_players lookup
restore_players-total [] u d h = (([], []), refl)
restore_players-total ((name, p) ∷ ps) u d h =
    elim (Option-cases (restore_player p (lookup name u))) [
      | inl stuck ↦ absurd (h name p (rw (same_refl name)) stuck)
      | inr (r, went) ↦
          let (s, rest) =
            restore_players-total ps u d.1 (λ n o l. h n o (lookup_tail n name o p ps d.0 l)) in
          (
            elim r [
              | Option.none ↦ ((name, p) ∷ s.0, name ∷ s.1)
              | some q ↦ ((name, q) ∷ s.0, s.1)
            ],
            ground (arith, went, rest),
          )
    ]

pub backwards-total :
    (ps : Players) (u : Undo)
    → Distinct ps
    → ((n : String) (p : PlayerState)
        → lookup n ps ≡ some p
        → restore_player p (lookup n u) ≢ Option.none)
    → (qs : Players) × (backwards ps u ≡ some qs)
unfolding backwards
backwards-total ps u d h =
    let (r, went) = restore_players-total ps u d h in (remove_players r.1 r.0, ground (arith, went))
