-- ===== src/Mover/Logic/Valid.antt =====
-- Valid players and moves of the Mover game (mover/logic.cpp), and one step of a player.
use mathlib.Core.Option.{get_or}
use libxayagame.Base.{
  ℕ, ◌+◌, ◌-◌, ◌%◌, ◌<◌, String, ◌≡◌, refl, false, Option, some, arith, Bool-cases, inl, inr,
}
use libxayagame.Base.Eq.{◌==◌, number_equality, text_equality}
use libxayagame.Base.Map.{lookup, Distinct}
use libxayagame.Mover.Moves.{
  Direction, none, right, left, up, down, right_up, right_down, left_up, left_down, PlayerState,
  PlayerUndo, word, is_none, get_direction_offset,
}
use libxayagame.Mover.Logic.{Players, step_player, restore_player}

-- The fields are 32-bit words, and a player with a direction has steps left.
pub record IsValidPlayer (p : PlayerState) : Type 0 where
  pub x_word : p.x < word
  pub y_word : p.y < word
  pub steps_word : p.steps_left < word
  pub moving : is_none p.dir ≡ false → 0 < p.steps_left

abbrev pub IsValidMove : Option (Direction × ℕ) → Type 0
IsValidMove Option.none = Unit {0}
IsValidMove (some (d, s)) = (is_none d ≡ false) × (0 < s) × (s < word)

pub record IsValidState (ps : Players) : Type 0 where
  pub distinct : Distinct ps
  pub players : (n : String) (p : PlayerState) → lookup n ps ≡ some p → IsValidPlayer p

abbrev Offset : Direction → Type 0
Offset d = (o : ℕ × ℕ) × (get_direction_offset d ≡ some o) × (o.0 < word) × (o.1 < word)

Offset-of : (d : Direction) → is_none d ≡ false → Offset d
unfolding get_direction_offset
Offset-of none h = cc
Offset-of right h = ((1, 0), refl, omega arith, omega arith)
Offset-of left h = ((word - 1, 0), refl, omega arith, omega arith)
Offset-of up h = ((0, 1), refl, omega arith, omega arith)
Offset-of down h = ((0, word - 1), refl, omega arith, omega arith)
Offset-of right_up h = ((1, 1), refl, omega arith, omega arith)
Offset-of right_down h = ((1, word - 1), refl, omega arith, omega arith)
Offset-of left_up h = ((word - 1, 1), refl, omega arith, omega arith)
Offset-of left_down h = ((word - 1, word - 1), refl, omega arith, omega arith)

undone-wrap : (x dx : ℕ) → x < word → dx < word → ((x + dx) % word + word - dx) % word ≡ x
undone-wrap x dx h k = omega arith

abbrev pub with_finished : Option Direction → Option ℕ → Option Direction → PlayerUndo
with_finished pd ps f = record {
  is_new = false;
  previous_dir = pd;
  previous_steps_left = ps;
  finished_dir = f;
}

-- A valid player steps, and its undo entry takes the step back.
pub restore-step :
    (p : PlayerState) (pd : Option Direction) (ps : Option ℕ)
    → IsValidPlayer p
    → (q : PlayerState) × (f : Option Direction) × (step_player p ≡ some (q, f))
      × (restore_player q (some (with_finished pd ps f))
          ≡ some (some (record p { dir = get_or pd p.dir; steps_left = get_or ps p.steps_left })))
unfolding step_player restore_player
restore-step p pd ps v = elim (Bool-cases (is_none p.dir)) [
  | inl still ↦ (p, Option.none, rw still, rw still)
  | inr moving ↦
      let ((dx, dy), o, hx, hy) = Offset-of p.dir moving in
      elim (Bool-cases (p.steps_left - 1 == 0)) [
        | inl last ↦ (
          record {
            x = (p.x + dx) % word;
            y = (p.y + dy) % word;
            dir = none;
            steps_left = p.steps_left - 1;
          },
          some p.dir,
          ground (arith, moving, o, last, v.moving moving),
          ground (
            arith,
            moving,
            o,
            last,
            v.moving moving,
            v.x_word,
            v.y_word,
            v.steps_word,
            undone-wrap p.x dx v.x_word hx,
            undone-wrap p.y dy v.y_word hy,
          ),
        )
        | inr more ↦ (
          record {
            x = (p.x + dx) % word;
            y = (p.y + dy) % word;
            dir = p.dir;
            steps_left = p.steps_left - 1;
          },
          Option.none,
          ground (arith, moving, o, more, v.moving moving),
          ground (
            arith,
            moving,
            o,
            more,
            v.moving moving,
            v.x_word,
            v.y_word,
            v.steps_word,
            undone-wrap p.x dx v.x_word hx,
            undone-wrap p.y dy v.y_word hy,
          ),
        )
      ]
]

pub step-IsValidPlayer :
    (p q : PlayerState) (f : Option Direction)
    → IsValidPlayer p
    → step_player p ≡ some (q, f)
    → IsValidPlayer q
unfolding step_player
step-IsValidPlayer p q f v e = elim (Bool-cases (is_none p.dir)) [
  | inl still ↦ ground (arith, still, e, v.moving, v.x_word, v.y_word, v.steps_word)
  | inr moving ↦
      let ((dx, dy), o, _, _) = Offset-of p.dir moving in
      elim (Bool-cases (p.steps_left - 1 == 0)) [
        | inl last ↦ ground (arith, moving, o, last, e, v.moving moving)
        | inr more ↦ ground (arith, moving, o, more, e, v.moving moving)
      ]
]
