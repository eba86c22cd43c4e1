-- ===== src/Input/Tests.antt =====
-- Runs of the input model: frames, keys, coordinates, a batch and its execution.
use jetkvm_cli.Base.{ℕ, ◌≤◌, ◌≡◌, ◌≢◌, ◌⊎◌, refl, some, List, [], ◌∷◌, arith, length, All, ok, err}
use jetkvm_cli.Base.Int.{int64, quot, pos, ◌≤ℤ◌, ◌+ℤ◌}
use jetkvm_cli.Input.Types.{
  Point, Action, ObservationBinding, Batch, Keystroke, CompiledAction, default_limits,
  default_button, click, wait, invalid_protocol_value,
}
use jetkvm_cli.Input.Protocol.{
  pointer_report, keyboard_report, message_keyboard_report, slots_of, IsPointing, IsReadBack,
  pointer_report_roundtrip,
}
use jetkvm_cli.Input.Keys.{compile_text, compile_key_combo, strokes_of}
use jetkvm_cli.Input.Keys.Tables.{
  codes, us_rune, us_punctuation, punctuation_of, modifier_usages, key_usages,
}
use jetkvm_cli.Input.Keys.Combos.{IsUsage, IsDistinct, compile_key_combo-reports}
use jetkvm_cli.Input.Actions.{
  bind_point, button_mask, blank_item, expires_at, compile_pointer, compile_kind, compile_action,
  validate_fields, compile_rest, compile_batch,
}
use jetkvm_cli.Input.Actions.Scaling.{scale_coordinate}
use jetkvm_cli.Input.Actions.Binding.{IsSized}
use jetkvm_cli.Input.Actions.Batches.{AreModest, IsRunnable, compile_batch-IsRunnable}

pointer_report_roundtrip_example :
    (IsPointing (pos 300) (pos 32767) 5 × IsReadBack (pos 300) (pos 32767) 5)
    ⊎ ((¬ IsPointing (pos 300) (pos 32767) 5)
        × (pointer_report (pos 300) (pos 32767) 5 ≡ err invalid_protocol_value))
pointer_report_roundtrip_example = pointer_report_roundtrip (pos 300) (pos 32767) 5

abbrev two_keys : List ℕ
two_keys = 4 ∷ 5 ∷ []

abbrev strokes : List Keystroke
strokes =
    record { modifier = 2; key = 0x04 }
    ∷ record { modifier = 0; key = 0x05 }
    ∷ record { modifier = 2; key = 0x1e }
    ∷ []

strokes_compiled : compile_text "Ab!" ≡ ok strokes
unfolding compile_text strokes_of codes us_rune us_punctuation punctuation_of
strokes_compiled = refl

abbrev ctrl_alt : ℕ
ctrl_alt = 5

abbrev chord_keys : List ℕ
chord_keys = 0x04 ∷ 0x45 ∷ []

combo_compiled : compile_key_combo ("ctrl" ∷ " Alt " ∷ "key-a" ∷ "F12" ∷ []) ≡ ok (5, chord_keys)
unfolding compile_key_combo modifier_usages key_usages
combo_compiled = refl

compile_key_combo-reports_example :
    All IsUsage chord_keys
    × IsDistinct chord_keys
    × (length chord_keys ≤ 6)
    × ((ctrl_alt ≢ 0) ⊎ (chord_keys ≢ []))
    × (keyboard_report 5 chord_keys ≡ ok (message_keyboard_report ∷ 5 ∷ slots_of chord_keys))
compile_key_combo-reports_example =
    compile_key_combo-reports ("ctrl" ∷ " Alt " ∷ "key-a" ∷ "F12" ∷ []) 5 chord_keys combo_compiled

abbrev binding : ObservationBinding
binding = record { id = "obs-1"; generation = 3; width = pos 3; height = pos 3; captured_at = 1000 }

abbrev centre : Point
centre = record { x = pos 1; y = pos 2 }

abbrev bound_centre : Point
bound_centre = record { x = pos 16384; y = pos 32767 }

centre_bound : bind_point centre (some binding) 3 2000 (pos 30000000000) ≡ ok bound_centre
unfolding bind_point scale_coordinate int64 quot ◌+ℤ◌
centre_bound = refl

abbrev click_action : Action
click_action = record {
  kind = click;
  x = pos 1;
  y = pos 2;
  button = default_button;
  path = [];
  delta_x = pos 0;
  delta_y = pos 0;
  keys = [];
  text = "";
  duration = pos 0;
}

abbrev wait_action : Action
wait_action = record click_action { kind = wait; x = pos 0; y = pos 0; duration = pos 1000 }

abbrev pub batch : Batch
batch = record { observation = some binding; actions = click_action ∷ wait_action ∷ [] }

abbrev pub click_item : CompiledAction
click_item = record {
  kind = click;
  point = bound_centre;
  button = 1;
  path = [];
  delta_x = pos 0;
  delta_y = pos 0;
  keys = [];
  modifier = 0;
  text = [];
  duration = pos 0;
  observation_expires = 30000001000;
}

abbrev pub wait_item : CompiledAction
wait_item = record click_item {
  kind = wait;
  point = record { x = pos 0; y = pos 0 };
  button = 0;
  duration = pos 1000;
  observation_expires = 0;
}

default_limits-AreModest : AreModest default_limits
unfolding default_limits
default_limits-AreModest = record {
  key_hold = (omega arith, omega arith);
  inter_key = (omega arith, omega arith);
  double_click = (omega arith, omega arith);
  one_wait = omega arith;
  all_waits = (omega arith, omega arith);
  whole = (omega arith, omega arith);
}

batch-IsSized : IsSized batch.observation
batch-IsSized = (omega arith, omega arith)

batch_compiled : compile_batch batch default_limits 3 2000 ≡ ok (click_item ∷ wait_item ∷ [])
unfolding compile_batch compile_rest compile_action compile_kind compile_pointer validate_fields
    blank_item expires_at bind_point scale_coordinate int64 quot button_mask default_limits ◌+ℤ◌
batch_compiled = refl

compile_batch-IsRunnable_example :
    (1 ≤ length batch.actions)
    × (pos (length batch.actions) ≤ℤ default_limits.max_actions)
    × IsRunnable default_limits 0 0 batch.actions (click_item ∷ wait_item ∷ [])
compile_batch-IsRunnable_example =
    compile_batch-IsRunnable batch default_limits 3 2000 (click_item ∷ wait_item ∷ [])
      default_limits-AreModest batch-IsSized batch_compiled
