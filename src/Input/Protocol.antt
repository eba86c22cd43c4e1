-- ===== src/Input/Protocol.antt =====
-- internal/input/protocol.go: the HID-RPC frames. A byte is a number below 256.
use jetkvm_cli.Base.{
  ℕ, ◌+◌, ◌*◌, ◌-◌, ◌/◌, ◌%◌, ◌^◌, ◌≤◌, ◌<◌, ◌≡◌, ◌⊎◌, inl, inr, Bool, true, false, ◌||◌, not,
  Option, none, some, List, [], ◌∷◌, ◌++◌, arith, length, replicate, ltb, ◌==◌, if◌then◌else◌,
  Bool-cases, length-append, length-replicate, Result, ok, err, ◌>>◌, refuse_if,
}
use jetkvm_cli.Base.Int.{ℤ, pos, negsuc, pos_part, ltb_ℤ, ◌≤ℤ◌}
use jetkvm_cli.Input.Types.{InputError, invalid_protocol_value}

abbrev pub hid_rpc_version : ℕ
hid_rpc_version = 1

abbrev pub message_handshake : ℕ
message_handshake = 1

abbrev pub message_keyboard_report : ℕ
message_keyboard_report = 2

abbrev pub message_pointer_report : ℕ
message_pointer_report = 3

abbrev pub message_keypress_report : ℕ
message_keypress_report = 5

abbrev pub message_mouse_report : ℕ
message_mouse_report = 6

abbrev pub keyboard_slots : ℕ
keyboard_slots = 6

abbrev pub absolute_coordinate : ℕ
absolute_coordinate = 32767

abbrev pub max_mouse_buttons : ℕ
max_mouse_buttons = 31

pub handshake : List ℕ
handshake = message_handshake ∷ hid_rpc_version ∷ []

unfoldable pub parse_handshake : List ℕ → Result InputError ℕ
parse_handshake (kind ∷ version ∷ []) =
    if not (kind == message_handshake) || version == 0 || ltb hid_rpc_version version
    then err invalid_protocol_value
    else ok version
parse_handshake _ = err invalid_protocol_value

-- `copy(report[2:], keys)` into zeroed slots.
unfoldable pub keyboard_report : ℕ → List ℕ → Result InputError (List ℕ)
keyboard_report modifier keys =
    if ltb keyboard_slots (length keys)
    then err invalid_protocol_value
    else ok
        (message_keyboard_report ∷ modifier ∷ (keys ++ replicate (keyboard_slots - length keys) 0))

unfoldable pub keypress_report : ℕ → Bool → Result InputError (List ℕ)
keypress_report key pressed =
    if key == 0
    then err invalid_protocol_value
    else ok (message_keypress_report ∷ key ∷ (if pressed then 1 else 0) ∷ [])

-- `x < 0 || x > absoluteCoordinate`
abbrev pub is_off_axis : ℤ → Bool
is_off_axis v = ltb_ℤ v (pos 0) || ltb_ℤ (pos absolute_coordinate) v

-- `buttons &^ maxMouseButtons != 0`, for a byte and the mask of the five low bits.
abbrev pub has_unknown_button : ℕ → Bool
has_unknown_button buttons = not (buttons / 32 == 0)

-- binary.BigEndian.PutUint32
unfoldable pub put_uint32 : ℕ → List ℕ
put_uint32 v = v / 2 ^ 24 % 256 ∷ v / 2 ^ 16 % 256 ∷ v / 2 ^ 8 % 256 ∷ v % 256 ∷ []

-- uint32(x)
abbrev pub to_uint32 : ℤ → ℕ
to_uint32 (pos n) = n % 2 ^ 32
to_uint32 (negsuc n) = (2 ^ 32 - 1 - n % 2 ^ 32) % 2 ^ 32

-- byte(int8(x)), at the integers that an int8 holds.
abbrev pub to_byte : ℤ → ℕ
to_byte (pos n) = n % 256
to_byte (negsuc n) = (255 - n % 256) % 256

unfoldable pub pointer_report : ℤ → ℤ → ℕ → Result InputError (List ℕ)
unfolding put_uint32
pointer_report x y buttons = do
  refuse_if (is_off_axis x || is_off_axis y) invalid_protocol_value
  refuse_if (has_unknown_button buttons) invalid_protocol_value
  ok (message_pointer_report ∷ put_uint32 (to_uint32 x) ++ put_uint32 (to_uint32 y) ++ buttons ∷ [])

unfoldable pub relative_mouse_report : ℤ → ℤ → ℕ → Result InputError (List ℕ)
relative_mouse_report dx dy buttons = do
  refuse_if
      (ltb_ℤ dx (negsuc 127) || ltb_ℤ (pos 127) dx || ltb_ℤ dy (negsuc 127) || ltb_ℤ (pos 127) dy)
      invalid_protocol_value
  refuse_if (has_unknown_button buttons) invalid_protocol_value
  ok (message_mouse_report ∷ to_byte dx ∷ to_byte dy ∷ buttons ∷ [])

-- The pointer frame as the device reads it: two big-endian coordinates and a button mask.
abbrev pub read_pointer : List ℕ → Option (ℕ × ℕ × ℕ)
read_pointer (kind ∷ a ∷ b ∷ c ∷ d ∷ e ∷ f ∷ g ∷ h ∷ buttons ∷ []) =
    if kind == message_pointer_report
    then some (((a * 256 + b) * 256 + c) * 256 + d, ((e * 256 + f) * 256 + g) * 256 + h, buttons)
    else none
read_pointer _ = none

pointer_report_accepts :
    (x y buttons : ℕ)
    → x ≤ absolute_coordinate
    → y ≤ absolute_coordinate
    → buttons ≤ max_mouse_buttons
    → (frame : List ℕ) × (pointer_report (pos x) (pos y) buttons ≡ ok frame)
      × (read_pointer frame ≡ some (x, y, buttons))
unfolding pointer_report
pointer_report_accepts x y buttons hx hy hb = (
  message_pointer_report ∷ (put_uint32 (x % 2 ^ 32) ++ put_uint32 (y % 2 ^ 32) ++ buttons ∷ []),
  ground arith,
  ground arith,
)

-- The inputs of PointerReport that it is meant for: two coordinates of 0..32767, and a mask of the five
-- known buttons.
abbrev pub IsPointing : ℤ → ℤ → ℕ → Type 0
IsPointing x y buttons =
    (pos 0 ≤ℤ x) × (x ≤ℤ pos 32767) × (pos 0 ≤ℤ y) × (y ≤ℤ pos 32767) × (buttons ≤ 31)

-- The coordinates and buttons of a report, in a frame that is read back as these.
abbrev pub IsReadBack : ℤ → ℤ → ℕ → Type 0
IsReadBack x y buttons =
    (frame : List ℕ) × (pointer_report x y buttons ≡ ok frame)
    × (read_pointer frame ≡ some (pos_part x, pos_part y, buttons))

pointer_report_refuses :
    (x y : ℤ) (buttons : ℕ)
    → (is_off_axis x || is_off_axis y || has_unknown_button buttons) ≡ true
    → (¬ IsPointing x y buttons) × (pointer_report x y buttons ≡ err invalid_protocol_value)
unfolding pointer_report
pointer_report_refuses x y buttons out = (λ p. absurd (grind arith), ground arith)

-- PointerReport accepts exactly the coordinates 0..32767 and the masks of the five known buttons, among
-- all integers and masks; the frame of what it accepts is read back as the coordinates and buttons that
-- it was made from, and anything else is refused as an invalid protocol value.
pub pointer_report_roundtrip :
    (x y : ℤ) (buttons : ℕ)
    → (IsPointing x y buttons × IsReadBack x y buttons)
      ⊎ ((¬ IsPointing x y buttons) × (pointer_report x y buttons ≡ err invalid_protocol_value))
pointer_report_roundtrip x y buttons =
    elim (Bool-cases (is_off_axis x || is_off_axis y || has_unknown_button buttons)) [
      | inl out ↦ inr (pointer_report_refuses x y buttons out)
      | inr within ↦ inl (pointing x y within)
    ]
  where
    pointing :
        (x y : ℤ)
        → (is_off_axis x || is_off_axis y || has_unknown_button buttons) ≡ false
        → IsPointing x y buttons × IsReadBack x y buttons
    pointing (pos x) (pos y) within =
        let hx : x ≤ absolute_coordinate = ground arith in
        let hy : y ≤ absolute_coordinate = ground arith in
        let hb : buttons ≤ max_mouse_buttons = ground arith in
        (
          (omega arith, omega arith, omega arith, omega arith, omega arith),
          pointer_report_accepts x y buttons hx hy hb,
        )
    pointing (negsuc x) y within = absurd (ground arith)
    pointing (pos x) (negsuc y) within = absurd (ground arith)

-- The slots of a frame that hold `keys`: zeros fill them up to six.
abbrev pub slots_of : List ℕ → List ℕ
slots_of keys = keys ++ replicate (keyboard_slots - length keys) 0

-- KeyboardReport of at most six keys is the message type, the modifiers, and exactly six slots, which
-- hold the keys in order and then zeros; of more keys it is refused.
pub keyboard_report_shape :
    (modifier : ℕ) (keys : List ℕ)
    → ((length keys ≤ 6)
        × (keyboard_report modifier keys ≡ ok (message_keyboard_report ∷ modifier ∷ slots_of keys))
        × (length (slots_of keys) ≡ 6))
      ⊎ ((6 < length keys) × (keyboard_report modifier keys ≡ err invalid_protocol_value))
unfolding keyboard_report
keyboard_report_shape modifier keys = elim (Bool-cases (ltb 6 (length keys))) [
  | inl many ↦ inr (ground arith, rw many)
  | inr few ↦ inl (
    ground arith,
    rw few,
    ground (
      arith,
      length-append keys (replicate (6 - length keys) 0),
      length-replicate {A = ℕ} (6 - length keys) 0,
    ),
  )
]

-- The int8 that a byte stands for.
abbrev pub from_byte : ℕ → ℤ
from_byte b = if ltb b 128 then pos b else negsuc (255 - b)

-- RelativeMouseReport accepts every movement that fits an int8 with known buttons, and the device
-- reads the movement back from the two's-complement bytes of the frame.
pub relative_mouse_report_roundtrip :
    (dx dy : ℤ) (buttons : ℕ)
    → negsuc 127 ≤ℤ dx
    → dx ≤ℤ pos 127
    → negsuc 127 ≤ℤ dy
    → dy ≤ℤ pos 127
    → buttons ≤ max_mouse_buttons
    → (relative_mouse_report dx dy buttons
        ≡ ok (message_mouse_report ∷ to_byte dx ∷ to_byte dy ∷ buttons ∷ []))
      × (from_byte (to_byte dx) ≡ dx)
      × (from_byte (to_byte dy) ≡ dy)
unfolding relative_mouse_report
relative_mouse_report_roundtrip dx dy buttons a b c d e = ground arith
