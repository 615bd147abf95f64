-- ===== src/Mover/Accepted.antt =====
-- Which JSON values are moves of the Mover game (mover/moves.cpp).
use libxayagame.Base.{
  ℕ, ◌≤◌, ◌<◌, ◌≡◌, ◌↔◌, refl, subst, Bool, true, false, ◌||◌, not, Option, some, String, arith,
  ltb, leb, if◌then◌else◌,
}
use libxayagame.Base.Eq.{◌==◌, number_equality, text_equality}
use text.Mathlib.TextEquality.{eq_iff}
use libxayagame.Base.Json.{Json}
use libxayagame.Mover.Moves.{
  Direction, none, right, left, up, down, right_up, right_down, left_up, left_down, is_none,
  parse_move, parse_direction,
}

-- What follows from a guard that a result has passed.
passed :
    {A : Type 0} (b : Bool) (o : Option A) {a : A}
    → (if b then Option.none else o) ≡ some a
    → (b ≡ false) × (o ≡ some a)
passed true o h = cc
passed false o h = (refl, h)

passed_not :
    {A : Type 0} (b : Bool) (o : Option A) {a : A}
    → (if not b then Option.none else o) ≡ some a
    → (b ≡ true) × (o ≡ some a)
passed_not true o h = (refl, h)
passed_not false o h = cc

some_pair :
    {A B : Type 0} {a c : A} {b d : B}
    → ◌≡◌ {A = Option (A × B)} (some (a, b)) (some (c, d))
    → (a ≡ c) × (b ≡ d)
some_pair h = (cc, cc)

-- The letters that mover/README.md gives the directions.
pub letter : Direction → Option String
letter right = some "l"
letter left = some "h"
letter up = some "k"
letter down = some "j"
letter right_up = some "u"
letter right_down = some "n"
letter left_up = some "y"
letter left_down = some "b"
letter none = Option.none

some-injective : {a b : String} → ◌≡◌ {A = Option String} (some a) (some b) → a ≡ b
some-injective e = cc (e)

parse_direction-letter :
    (str : String) (d : Direction) → letter d ≡ some str → parse_direction str ≡ d
unfolding letter parse_direction
parse_direction-letter str right e = subst (λ t. parse_direction t ≡ right) (some-injective e) refl
parse_direction-letter str left e = subst (λ t. parse_direction t ≡ left) (some-injective e) refl
parse_direction-letter str up e = subst (λ t. parse_direction t ≡ up) (some-injective e) refl
parse_direction-letter str down e = subst (λ t. parse_direction t ≡ down) (some-injective e) refl
parse_direction-letter str right_up e =
    subst (λ t. parse_direction t ≡ right_up) (some-injective e) refl
parse_direction-letter str right_down e =
    subst (λ t. parse_direction t ≡ right_down) (some-injective e) refl
parse_direction-letter str left_up e =
    subst (λ t. parse_direction t ≡ left_up) (some-injective e) refl
parse_direction-letter str left_down e =
    subst (λ t. parse_direction t ≡ left_down) (some-injective e) refl
parse_direction-letter str none e = absurd (cc (e))

pub letter-moving : {str : String} (d : Direction) → letter d ≡ some str → is_none d ≡ false
unfolding letter
letter-moving right e = refl
letter-moving left e = refl
letter-moving up e = refl
letter-moving down e = refl
letter-moving right_up e = refl
letter-moving right_down e = refl
letter-moving left_up e = refl
letter-moving left_down e = refl
letter-moving none e = absurd (cc (e))

letter-parse_direction :
    (str : String) → is_none (parse_direction str) ≡ false → letter (parse_direction str) ≡ some str
unfolding letter parse_direction
letter-parse_direction str given = ground (
  arith,
  given,
  eq_iff str "l",
  eq_iff str "h",
  eq_iff str "k",
  eq_iff str "j",
  eq_iff str "u",
  eq_iff str "n",
  eq_iff str "y",
  eq_iff str "b",
)

module _ (json : Json) where
  open json use {Value, is_object, is_string, is_uint, is_member, size, at, as_string, as_uint}

  -- A value is a move exactly when it is an object of the two fields `d` and `n`, the first the
  -- letter of the direction and the second a number from 1 to 1000000.
  pub record IsMove (obj : Value) (d : Direction) (s : ℕ) : Type 0 where
    pub is_obj : is_object obj ≡ true
    pub two : size obj ≡ 2
    pub has_d : is_member obj "d" ≡ true
    pub has_n : is_member obj "n" ≡ true
    pub text : is_string (at obj "d") ≡ true
    pub number : is_uint (at obj "n") ≡ true
    pub direction : letter d ≡ some (as_string (at obj "d"))
    pub steps : as_uint (at obj "n") ≡ s
    pub positive : 0 < s
    pub bounded : s ≤ 1000000

  parse_move_sound :
      (obj : Value) (d : Direction) (s : ℕ) → parse_move json obj ≡ some (d, s) → IsMove obj d s
  unfolding parse_move
  parse_move_sound obj d s h =
      let (is_obj, h1) = passed_not (is_object obj) _ h in
      let (two, h2) = passed_not (size obj == 2) _ h1 in
      let (members, h3) = passed (not (is_member obj "d") || not (is_member obj "n")) _ h2 in
      let (types, h4) = passed (not (is_string (at obj "d")) || not (is_uint (at obj "n"))) _ h3 in
      let (moving, h5) = passed (is_none (parse_direction (as_string (at obj "d")))) _ h4 in
      let (range, h6) =
        passed (leb (as_uint (at obj "n")) 0 || ltb 1000000 (as_uint (at obj "n"))) _ h5 in
      let (direction, steps) = some_pair h6 in
      record {
        is_obj = is_obj;
        two = ground (arith, two);
        has_d = ground (arith, members);
        has_n = ground (arith, members);
        text = ground (arith, types);
        number = ground (arith, types);
        direction =
            subst (λ k. letter k ≡ some (as_string (at obj "d"))) direction
              (letter-parse_direction (as_string (at obj "d")) moving);
        steps = steps;
        positive = ground (arith, range, steps);
        bounded = ground (arith, range, steps);
      }

  parse_move_complete :
      (obj : Value) (d : Direction) (s : ℕ) → IsMove obj d s → parse_move json obj ≡ some (d, s)
  unfolding parse_move
  parse_move_complete obj d s h =
      let direction = parse_direction-letter (as_string (at obj "d")) d h.direction in
      let moving = letter-moving d h.direction in
      ground (
        arith, direction, moving, h.is_obj, h.two, h.has_d, h.has_n, h.text, h.number, h.steps,
        h.positive, h.bounded,
      )

  -- `ParseMove` accepts a value, with a direction and a number of steps, exactly when it is a move
  -- of that direction and those steps, by the letters of mover/README.md.
  pub parse_move_iff :
      (obj : Value) (d : Direction) (s : ℕ) → (parse_move json obj ≡ some (d, s)) ↔ IsMove obj d s
  parse_move_iff obj d s = (parse_move_sound obj d s, parse_move_complete obj d s)
