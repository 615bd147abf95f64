-- ===== src/Mover/Logic/Moved.antt =====
-- What the moves of a block (mover/logic.cpp) do to one player, seen through the map's lookup.
use mathlib.Core.Option.{get_or}
use libxayagame.Base.{
  ℕ, String, ◌≡◌, refl, true, Option, some, List, [], ◌∷◌, arith, if◌then◌else◌, Bool-cases,
  Option-cases, inl, inr,
}
use libxayagame.Base.Eq.{◌==◌, text_equality}
use libxayagame.Base.Map.{lookup, lookup-insert, Distinct, insert-Distinct}
use libxayagame.Mover.Moves.{Direction, PlayerState, PlayerUndo}
use libxayagame.Mover.Logic.{Players, Undo, no_undo, apply_move, apply_moves}

-- The first valid move of a name.
abbrev pub first_move : String → List (String × Option (Direction × ℕ)) → Option (Direction × ℕ)
first_move name [] = Option.none
first_move name ((other, Option.none) ∷ ms) = first_move name ms
first_move name ((other, some mv) ∷ ms) = if other == name then some mv else first_move name ms

-- No name has two valid moves.
abbrev pub OneMoveEach : List (String × Option (Direction × ℕ)) → Type 0
OneMoveEach [] = Unit
OneMoveEach ((name, Option.none) ∷ ms) = OneMoveEach ms
OneMoveEach ((name, some mv) ∷ ms) = (first_move name ms ≡ Option.none) × OneMoveEach ms

abbrev pub moved_by : Option (Direction × ℕ) → Option PlayerState → Option PlayerState
moved_by Option.none o = o
moved_by (some (dir, steps)) Option.none =
    some (record { x = 0; y = 0; dir = dir; steps_left = steps })
moved_by (some (dir, steps)) (some p) = some (record p { dir = dir; steps_left = steps })

abbrev pub recorded_by :
    Option (Direction × ℕ) → Option PlayerState → Option PlayerUndo → Option PlayerUndo
recorded_by Option.none o u = u
recorded_by (some mv) Option.none u = some (record (get_or u no_undo) { is_new = true })
recorded_by (some mv) (some p) u = some (record (get_or u no_undo) {
  previous_dir = some p.dir;
  previous_steps_left = some p.steps_left;
})

pub lookup-apply_move :
    (n name : String) (mv : Direction × ℕ) (ps : Players) (u : Undo)
    → (lookup n (apply_move name mv (ps, u)).0
        ≡ (if name == n then moved_by (some mv) (lookup name ps) else lookup n ps))
      × (lookup n (apply_move name mv (ps, u)).1 ≡ (
          if name == n then recorded_by (some mv) (lookup name ps) (lookup name u) else lookup n u))
unfolding apply_move
lookup-apply_move n name (d, s) ps u = elim (Option-cases (lookup name ps)) [
  | inl e ↦ rw (e, apply_move) (lookup-insert name n _ ps, lookup-insert name n _ u)
  | inr (p, e) ↦ rw (e, apply_move) (lookup-insert name n _ ps, lookup-insert name n _ u)
]

-- A name without a valid move is left alone.
apply_moves-unmoved :
    (n : String) (ms : List (String × Option (Direction × ℕ))) (s : Players × Undo)
    → first_move n ms ≡ Option.none
    → (lookup n (apply_moves ms s).0 ≡ lookup n s.0)
      × (lookup n (apply_moves ms s).1 ≡ lookup n s.1)
unfolding apply_moves
apply_moves-unmoved n [] s h = (refl, refl)
apply_moves-unmoved n ((name, Option.none) ∷ ms) s h = apply_moves-unmoved n ms s h
apply_moves-unmoved n ((name, some mv) ∷ ms) s h =
    ground
      (arith, apply_moves-unmoved n ms (apply_move name mv s), lookup-apply_move n name mv s.0 s.1)

-- Each name is moved by its only valid move.
pub lookup-apply_moves :
    (n : String) (ms : List (String × Option (Direction × ℕ))) (s : Players × Undo)
    → OneMoveEach ms
    → (lookup n (apply_moves ms s).0 ≡ moved_by (first_move n ms) (lookup n s.0))
      × (lookup n (apply_moves ms s).1
          ≡ recorded_by (first_move n ms) (lookup n s.0) (lookup n s.1))
unfolding apply_moves
lookup-apply_moves n [] s d = (refl, refl)
lookup-apply_moves n ((name, Option.none) ∷ ms) s d = lookup-apply_moves n ms s d
lookup-apply_moves n ((name, some mv) ∷ ms) s d = elim (Bool-cases (name == n)) [
  | inl hit ↦
      let same = (text_equality.same_iff name n).0 hit in
      ground (
        arith,
        same,
        lookup-apply_move n name mv s.0 s.1,
        apply_moves-unmoved n ms (apply_move name mv s),
      )
  | inr miss ↦ rw miss (
      ground (
        arith,
        lookup-apply_move n name mv s.0 s.1,
        lookup-apply_moves n ms (apply_move name mv s) d.1,
      ))
]

apply_move-Distinct :
    (name : String) (mv : Direction × ℕ) (s : Players × Undo)
    → Distinct s.0
    → Distinct (apply_move name mv s).0
unfolding apply_move
apply_move-Distinct name (d, st) s h = elim (Option-cases (lookup name s.0)) [
  | inl e ↦ rw (e, apply_move) (insert-Distinct name _ s.0 h)
  | inr (p, e) ↦ rw (e, apply_move) (insert-Distinct name _ s.0 h)
]

pub apply_moves-Distinct :
    (ms : List (String × Option (Direction × ℕ))) (s : Players × Undo)
    → Distinct s.0
    → Distinct (apply_moves ms s).0
unfolding apply_moves
apply_moves-Distinct [] s h = h
apply_moves-Distinct ((name, Option.none) ∷ ms) s h = apply_moves-Distinct ms s h
apply_moves-Distinct ((name, some mv) ∷ ms) s h =
    apply_moves-Distinct ms (apply_move name mv s) (apply_move-Distinct name mv s h)
