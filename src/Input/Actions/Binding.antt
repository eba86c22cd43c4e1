-- ===== src/Input/Actions/Binding.antt =====
-- Coordinates of internal/input/actions.go: what bindPoint accepts, and that the point that it
-- returns can be sent.
use jetkvm_cli.Base.{
  ℕ, suc, ◌-◌, ◌≤◌, ◌<◌, ◌≡◌, ◌≢◌, refl, ap, subst, true, false, Option, none, some, List, [], ◌∷◌,
  arith, length, All, ok, Result-cases, inl, inr, eq_iff,
}
use jetkvm_cli.Base.Int.{ℤ, pos, negsuc, ◌≤ℤ◌, pos_part, ltb_ℤ}
use jetkvm_cli.Input.Types.{Point, ObservationBinding, Button}
use jetkvm_cli.Input.Protocol.{max_mouse_buttons, is_off_axis}
use jetkvm_cli.Input.Actions.Scaling.{
  scale_coordinate, max_extent, scale_coordinate-scaled, scaled_bounds,
}
use jetkvm_cli.Input.Actions.{bind_point, bind_path, button_mask}

abbrev pub OnScreen : Point → Type 0
OnScreen p = (is_off_axis p.x ≡ false) × (is_off_axis p.y ≡ false)

-- What bindPoint asks of the observation that a coordinate is bound to.
pub record IsCurrent (b : ObservationBinding) (generation now : ℕ) (max_age : ℤ) : Type 0 where
  pub named : b.id ≢ ""
  pub same_generation : b.generation ≡ generation
  pub captured : b.captured_at ≤ now
  pub fresh : pos (now - b.captured_at) ≤ℤ max_age

-- The observation, if there is one, has at most 2 ^ 47 pixels an axis.
abbrev pub IsSized : Option ObservationBinding → Type 0
IsSized none = Unit {0}
IsSized (some b) = (b.width ≤ℤ pos max_extent) × (b.height ≤ℤ pos max_extent)

scale_coordinate-OnAxis :
    (v extent : ℤ)
    → pos 0 ≤ℤ v
    → ltb_ℤ v extent ≡ true
    → extent ≤ℤ pos max_extent
    → is_off_axis (scale_coordinate (pos_part v) (pos_part extent)) ≡ false
scale_coordinate-OnAxis (negsuc v) extent h below small = absurd (ground arith)
scale_coordinate-OnAxis (pos v) (negsuc e) h below small = absurd (ground arith)
scale_coordinate-OnAxis (pos v) (pos e) h below small =
    let inside : v < e = ground arith in
    let (same, most) = scaled_bounds v v e (omega arith) inside in
    simp (scale_coordinate-scaled v e inside (omega arith)) (ground arith)

-- A point that bindPoint accepts is bound to an observation of the current control generation, taken
-- by now and no older than the limit, and lies within its pixels; the result lies in the HID space, if
-- the observation has at most 2 ^ 47 pixels an axis.
pub bind_point-IsCurrent :
    (p q : Point) (b : ObservationBinding) (generation now : ℕ) (max_age : ℤ)
    → IsSized (some b)
    → bind_point p (some b) generation now max_age ≡ ok q
    → IsCurrent b generation now max_age
      × (pos 0 ≤ℤ p.x)
      × (ltb_ℤ p.x b.width ≡ true)
      × (pos 0 ≤ℤ p.y)
      × (ltb_ℤ p.y b.height ≡ true)
      × OnScreen q
unfolding bind_point
bind_point-IsCurrent p q b generation now max_age (wide, high) h =
    let x0 : pos 0 ≤ℤ p.x = ground arith in
    let x1 : ltb_ℤ p.x b.width ≡ true = ground arith in
    let y0 : pos 0 ≤ℤ p.y = ground arith in
    let y1 : ltb_ℤ p.y b.height ≡ true = ground arith in
    let on_x = scale_coordinate-OnAxis p.x b.width x0 x1 wide in
    let on_y = scale_coordinate-OnAxis p.y b.height y0 y1 high in
    let r : Point = record {
      x = scale_coordinate (pos_part p.x) (pos_part b.width);
      y = scale_coordinate (pos_part p.y) (pos_part b.height);
    } in
    let is_q : r ≡ q = ground arith in
    (ground (arith, eq_iff b.id ""), x0, x1, y0, y1, subst OnScreen is_q (on_x, on_y))

unbound :
    (p q : Point) (generation now : ℕ) (max_age : ℤ)
    → bind_point p none generation now max_age ≡ ok q
    → ⊥
unfolding bind_point
unbound p q generation now max_age h = cc

pub bind_point-OnScreen :
    (p q : Point) (b : Option ObservationBinding) (generation now : ℕ) (max_age : ℤ)
    → IsSized b
    → bind_point p b generation now max_age ≡ ok q
    → OnScreen q
bind_point-OnScreen p q none generation now max_age z h =
    absurd (unbound p q generation now max_age h)
bind_point-OnScreen p q (some b) generation now max_age z h =
    (bind_point-IsCurrent p q b generation now max_age z h).5

pub bind_path-OnScreen :
    (ps qs : List Point) (b : Option ObservationBinding) (generation now : ℕ) (max_age : ℤ)
    → IsSized b
    → bind_path ps b generation now max_age ≡ ok qs
    → All OnScreen qs × (length qs ≡ length ps)
unfolding bind_path
bind_path-OnScreen [] [] b generation now max_age z h = (tt, refl)
bind_path-OnScreen [] (q ∷ qs) b generation now max_age z h = cc
bind_path-OnScreen (p ∷ ps) qs b generation now max_age z h =
    elim (Result-cases (bind_point p b generation now max_age)) [
      | inl (e, refused) ↦ ground arith
      | inr (q, bound) ↦ elim (Result-cases (bind_path ps b generation now max_age)) [
        | inl (e, refused) ↦ ground arith
        | inr (rest, done) ↦
            let more = bind_path-OnScreen ps rest b generation now max_age z done in
            let same : qs ≡ q ∷ rest = ground arith in
            rw same
              ((bind_point-OnScreen p q b generation now max_age z bound, more.0), ap suc more.1)
      ]
    ]

pub button_mask-le : (b : Button) (m : ℕ) → button_mask b ≡ ok m → (0 < m) × (m ≤ max_mouse_buttons)
unfolding button_mask
button_mask-le b m h = ground arith
