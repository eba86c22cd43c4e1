-- ===== src/Input/Types.antt =====
-- The shared data of internal/input: errors, buttons, points, actions, limits and bindings.
-- Wrapped errors are their sentinels. Lengths of time are nanoseconds in ℤ, and a time is the count
-- of nanoseconds since the zero `time.Time`, so `IsZero` is a test against 0.
use jetkvm_cli.Base.{ℕ, ◌*◌, String, Option, List}
use jetkvm_cli.Base.Int.{ℤ, pos}

pub data InputError : Type 0 where
  invalid_protocol_value invalid_action observation_stale unknown_key unsupported_text : InputError
  lease_busy stale_generation lease_released input_uncertain neutralization : InputError
  observation_missing cancelled transport_failed random_failed keepalive_missed : InputError

pub data Button : Type 0 where
  default_button left right middle back forward : Button
  unknown_button : String → Button

pub data ActionType : Type 0 where
  move click double_click drag scroll keypress key_hold type_text wait screenshot : ActionType
  unknown_type : String → ActionType

pub record Point : Type 0 where
  pub x : ℤ
  pub y : ℤ

pub record Action : Type 0 where
  pub kind : ActionType
  pub x : ℤ
  pub y : ℤ
  pub button : Button
  pub path : List Point
  pub delta_x : ℤ
  pub delta_y : ℤ
  pub keys : List String
  pub text : String
  pub duration : ℤ

pub record ObservationBinding : Type 0 where
  pub id : String
  pub generation : ℕ
  pub width : ℤ
  pub height : ℤ
  pub captured_at : ℕ

pub record Batch : Type 0 where
  pub observation : Option ObservationBinding
  pub actions : List Action

pub record Keystroke : Type 0 where
  pub modifier : ℕ
  pub key : ℕ

pub record CompiledAction : Type 0 where
  pub kind : ActionType
  pub point : Point
  pub button : ℕ
  pub path : List Point
  pub delta_x : ℤ
  pub delta_y : ℤ
  pub keys : List ℕ
  pub modifier : ℕ
  pub text : List Keystroke
  pub duration : ℤ
  pub observation_expires : ℕ

pub record Limits : Type 0 where
  pub key_hold : ℤ
  pub inter_key : ℤ
  pub double_click_delay : ℤ
  pub max_actions : ℤ
  pub max_batch_duration : ℤ
  pub max_wait_duration : ℤ
  pub max_total_wait : ℤ
  pub max_observation_age : ℤ

abbrev pub millisecond : ℕ
millisecond = 1000000

abbrev pub second : ℕ
second = 1000000000

abbrev pub max_key_hold_duration : ℤ
max_key_hold_duration = pos (12 * second)

abbrev pub max_actions_limit : ℤ
max_actions_limit = pos 16

unfoldable pub default_limits : Limits
default_limits = record {
  key_hold = pos (20 * millisecond);
  inter_key = pos (20 * millisecond);
  double_click_delay = pos (100 * millisecond);
  max_actions = max_actions_limit;
  max_batch_duration = pos (15 * second);
  max_wait_duration = pos (5 * second);
  max_total_wait = pos (10 * second);
  max_observation_age = pos (30 * second);
}
