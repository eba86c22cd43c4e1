-- ===== src/Input/Actions/Scaling.antt =====
-- scaleCoordinate of internal/input/actions.go: pixels of an observation to the 0..32767 HID space.
use native.Mathlib.Nat.{
  div-lt_iff_lt-mul, le-div_iff_mul-le, div-mul-le_self, div-eq_of_lt, div-eq_of_lt-le,
  lt-div-mul-add,
}
use jetkvm_cli.Base.{
  ℕ, ◌+◌, ◌-◌, ◌*◌, ◌/◌, ◌≤◌, ◌<◌, ◌≡◌, ◌^◌, refl, inl, inr, arith, ◌==◌, if◌then◌else◌, Bool-cases,
}
use jetkvm_cli.Base.Int.{ℤ, pos, ◌+ℤ◌, int64, quot, int64-pos, int64-add}
use jetkvm_cli.Input.Protocol.{absolute_coordinate}

-- At a value and an extent that are not negative; the products and sums are those of an int64.
unfoldable pub scale_coordinate : ℕ → ℕ → ℤ
scale_coordinate value extent =
    if extent == 1
    then pos 0
    else quot (int64 (int64 (pos (value * absolute_coordinate)) +ℤ pos ((extent - 1) / 2)))
        (extent - 1)

-- The same over the integers.
abbrev pub scaled : ℕ → ℕ → ℕ
scaled value extent =
    if extent == 1 then 0 else (value * absolute_coordinate + (extent - 1) / 2) / (extent - 1)

abbrev pub max_extent : ℕ
max_extent = 2 ^ 47

-- Nothing wraps for an observation of at most 2 ^ 47 pixels an axis.
pub scale_coordinate-scaled :
    (value extent : ℕ)
    → value < extent
    → extent ≤ max_extent
    → scale_coordinate value extent ≡ pos (scaled value extent)
unfolding scale_coordinate quot
scale_coordinate-scaled value extent below small =
    let product = int64-pos (value * absolute_coordinate) (omega arith) in
    let sum =
      int64-add (pos (value * absolute_coordinate)) (pos ((extent - 1) / 2)) (omega arith)
        (omega arith) (omega arith) (omega arith) in
    elim (Bool-cases (extent == 1)) [
      | inl one ↦ rw one refl
      | inr more ↦ rw (more, product, sum) refl
    ]

-- The rounded quotient of a coordinate over an axis of k steps.
abbrev rounded : ℕ → ℕ → ℕ
rounded v k = (v * 32767 + k / 2) / k

rounded-le : (v k : ℕ) → 0 < k → v ≤ k → rounded v k ≤ 32767
rounded-le v k p h =
    let below : rounded v k < 32768 = (div-lt_iff_lt-mul p).1 (omega arith) in omega arith

rounded_mono : (v w k : ℕ) → 0 < k → v ≤ w → rounded v k ≤ rounded w k
rounded_mono v w k p h =
    (le-div_iff_mul-le p).1 (omega (arith, div-mul-le_self (v * 32767 + k / 2) k))

rounded-zero : (k : ℕ) → 0 < k → rounded 0 k ≡ 0
rounded-zero k p = div-eq_of_lt (omega arith)

rounded-top : (k : ℕ) → 0 < k → rounded k k ≡ 32767
rounded-top k p = div-eq_of_lt-le k (omega arith) (omega arith)

rounded-nearest :
    (v k : ℕ)
    → 0 < k
    → (rounded v k * k ≤ v * 32767 + k / 2) × (v * 32767 + k / 2 < (rounded v k + 1) * k)
rounded-nearest v k p =
    (div-mul-le_self (v * 32767 + k / 2) k, omega (arith, lt-div-mul-add {a = v * 32767 + k / 2} p))

-- A pixel inside the observation lands inside the HID space, and the mapping keeps the order of the
-- pixels.
pub scaled_bounds :
    (v w extent : ℕ)
    → v ≤ w
    → w < extent
    → (scaled v extent ≤ scaled w extent) × (scaled w extent ≤ absolute_coordinate)
scaled_bounds v w extent h below =
    ground (arith, rounded_mono v w (extent - 1), rounded-le w (extent - 1))

-- The first pixel of an axis of two or more maps to 0 and the last to 32767, and a pixel between
-- maps to a nearest point of the HID space: the error, scaled by the steps of the axis, is at most
-- half a step.
pub scaled_nearest :
    (v extent : ℕ)
    → 2 ≤ extent
    → v < extent
    → (scaled 0 extent ≡ 0)
      × (scaled (extent - 1) extent ≡ absolute_coordinate)
      × (2 * (scaled v extent * (extent - 1)) ≤ 2 * (v * absolute_coordinate) + (extent - 1))
      × (2 * (v * absolute_coordinate) ≤ 2 * (scaled v extent * (extent - 1)) + (extent - 1))
scaled_nearest v extent two below =
    ground
      (arith, rounded-zero (extent - 1), rounded-top (extent - 1), rounded-nearest v (extent - 1))
