-- ===== src/Input/Actions.antt =====
-- internal/input/actions.go: validation and compilation of an action batch.
pub mod Scaling
pub mod Binding
pub mod Ready
pub mod Batches
use jetkvm_cli.Base.{
  ℕ, suc, ◌+◌, ◌-◌, ◌*◌, ◌/◌, ◌≤◌, ◌<◌, ◌≡◌, refl, String, Bool, true, false, not, ◌||◌, ◌&&◌,
  Option, none, some, List, [], ◌∷◌, ◌++◌, arith, length, is_empty, ltb, leb, ◌==◌, str_eq,
  if◌then◌else◌, Result, ok, err, ◌>>=◌, ◌>>◌, refuse_if,
}
use jetkvm_cli.Base.Int.{ℤ, pos, negsuc, pos_part, neg_part, sub_ℕ, ltb_ℤ, leb_ℤ, eq_ℤ, ◌+ℤ◌, int64}
use jetkvm_cli.Input.Types.{
  InputError, invalid_action, observation_stale, stale_generation, Button, default_button, left,
  right, middle, back, forward, unknown_button, ActionType, move, click, double_click, drag, scroll,
  keypress, key_hold, type_text, wait, screenshot, unknown_type, Point, Action, ObservationBinding,
  Batch, Keystroke, CompiledAction, Limits, max_key_hold_duration,
}
use jetkvm_cli.Input.Keys.{compile_key_combo, compile_text}
use Scaling.{scale_coordinate}

unfoldable pub button_mask : Button → Result InputError ℕ
button_mask default_button = ok 1
button_mask left = ok 1
button_mask right = ok 2
button_mask middle = ok 4
button_mask back = ok 8
button_mask forward = ok 16
button_mask (unknown_button s) = err invalid_action

abbrev pub is_zero : ℤ → Bool
is_zero v = eq_ℤ v (pos 0)

abbrev pub is_default_button : Button → Bool
is_default_button default_button = true
is_default_button _ = false

abbrev pub has_point : Action → Bool
has_point a = not (is_zero a.x) || not (is_zero a.y)

abbrev pub has_delta : Action → Bool
has_delta a = not (is_zero a.delta_x) || not (is_zero a.delta_y)

abbrev pub has_button : Action → Bool
has_button a = not (is_default_button a.button)

abbrev pub has_path : Action → Bool
has_path a = not (is_empty a.path)

abbrev pub has_keys : Action → Bool
has_keys a = not (is_empty a.keys)

abbrev pub has_text : Action → Bool
has_text a = not (str_eq a.text "")

abbrev pub has_duration : Action → Bool
has_duration a = not (is_zero a.duration)

-- The `switch` of validateFields; the last clause is its default.
abbrev pub has_foreign_fields : ActionType → Action → Bool
has_foreign_fields move a =
    has_button a || has_path a || has_delta a || has_keys a || has_text a || has_duration a
has_foreign_fields click a = has_path a || has_delta a || has_keys a || has_text a || has_duration a
has_foreign_fields double_click a =
    has_path a || has_delta a || has_keys a || has_text a || has_duration a
has_foreign_fields drag a = has_point a || has_delta a || has_keys a || has_text a || has_duration a
has_foreign_fields scroll a =
    has_point a || has_button a || has_path a || has_keys a || has_text a || has_duration a
has_foreign_fields key_hold a =
    has_point a
    || has_button a
    || has_path a
    || has_delta a
    || has_text a
    || not (has_keys a)
    || not (has_duration a)
has_foreign_fields keypress a =
    has_point a || has_button a || has_path a || has_delta a || has_text a || has_duration a
has_foreign_fields type_text a =
    has_point a || has_button a || has_path a || has_delta a || has_keys a || has_duration a
has_foreign_fields wait a =
    has_point a || has_button a || has_path a || has_delta a || has_keys a || has_text a
has_foreign_fields screenshot a =
    has_point a
    || has_button a
    || has_path a
    || has_delta a
    || has_keys a
    || has_text a
    || has_duration a
has_foreign_fields (unknown_type s) a = true

unfoldable pub validate_fields : Action → Result InputError (Unit {0})
validate_fields a = refuse_if (has_foreign_fields a.kind a) invalid_action

-- now.Sub(captured)
abbrev pub age_at : ℕ → ℕ → ℤ
age_at now captured = sub_ℕ now captured

unfoldable pub bind_point : Point → Option ObservationBinding → ℕ → ℕ → ℤ → Result InputError Point
bind_point p none generation now max_age = err invalid_action
bind_point p (some b) generation now max_age = do
  refuse_if
      (str_eq b.id "" || leb_ℤ b.width (pos 0) || leb_ℤ b.height (pos 0) || b.captured_at == 0)
      invalid_action
  refuse_if (not (b.generation == generation)) stale_generation
  refuse_if (ltb_ℤ (age_at now b.captured_at) (pos 0) || ltb_ℤ max_age (age_at now b.captured_at))
      observation_stale
  refuse_if (ltb_ℤ p.x (pos 0) || leb_ℤ b.width p.x || ltb_ℤ p.y (pos 0) || leb_ℤ b.height p.y)
      invalid_action
  ok (record {
    x = scale_coordinate (pos_part p.x) (pos_part b.width);
    y = scale_coordinate (pos_part p.y) (pos_part b.height);
  })

-- binding.CapturedAt.Add(maxAge), of a binding that bindPoint accepted.
unfoldable pub expires_at : Option ObservationBinding → ℤ → ℕ
expires_at none max_age = 0
expires_at (some b) max_age = pos_part (pos b.captured_at +ℤ max_age)

-- The item that compileAction starts from.
unfoldable pub blank_item : Action → CompiledAction
blank_item a = record {
  kind = a.kind;
  point = record { x = a.x; y = a.y };
  button = 0;
  path = [];
  delta_x = pos 0;
  delta_y = pos 0;
  keys = [];
  modifier = 0;
  text = [];
  duration = pos 0;
  observation_expires = 0;
}

-- The loop of compileAction over the path of a drag.
unfoldable pub bind_path :
    List Point → Option ObservationBinding → ℕ → ℕ → ℤ → Result InputError (List Point)
unfolding bind_point
bind_path [] b generation now max_age = ok []
bind_path (p ∷ ps) b generation now max_age = do
  bound ← bind_point p b generation now max_age
  rest ← bind_path ps b generation now max_age
  ok (bound ∷ rest)

-- time.Duration(len(strokes)) * cost
unfoldable pub times : ℕ → ℤ → ℤ
times n (pos k) = pos (n * k)
times n (negsuc k) = sub_ℕ 0 (n * suc k)

-- A point action: the point bound to the observation and the button.
unfoldable pub compile_pointer :
    Action → Limits → Option ObservationBinding → ℕ → ℕ → Result InputError CompiledAction
unfolding blank_item bind_point expires_at
compile_pointer a limits b generation now = do
  p ← bind_point (blank_item a).point b generation now limits.max_observation_age
  ok (record (blank_item a) {
    point = p;
    observation_expires = expires_at b limits.max_observation_age;
  })

-- The `switch` of compileAction, for an action whose fields are valid.
unfoldable pub compile_kind :
    ActionType
    → Action
    → Limits
    → Option ObservationBinding
    → ℕ
    → ℕ
    → Result InputError (CompiledAction × ℤ)
unfolding blank_item compile_pointer bind_path button_mask times
compile_kind move a limits b generation now = do
  item ← compile_pointer a limits b generation now
  ok (item, pos 0)
compile_kind click a limits b generation now = do
  item ← compile_pointer a limits b generation now
  button ← button_mask a.button
  ok (record item { button = button }, pos 0)
compile_kind double_click a limits b generation now = do
  item ← compile_pointer a limits b generation now
  button ← button_mask a.button
  ok (record item { button = button }, limits.double_click_delay)
compile_kind drag a limits b generation now = do
  refuse_if (ltb (length a.path) 2 || ltb 64 (length a.path)) invalid_action
  path ← bind_path a.path b generation now limits.max_observation_age
  button ← button_mask a.button
  ok (record (blank_item a) { path = path; button = button }, pos 0)
compile_kind scroll a limits b generation now = do
  refuse_if
      (ltb_ℤ a.delta_x (negsuc 126)
        || ltb_ℤ (pos 127) a.delta_x
        || ltb_ℤ a.delta_y (negsuc 126)
        || ltb_ℤ (pos 127) a.delta_y
        || (is_zero a.delta_x && is_zero a.delta_y))
      invalid_action
  ok (record (blank_item a) { delta_x = a.delta_x; delta_y = a.delta_y }, pos 0)
compile_kind keypress a limits b generation now = do
  (modifier, keys) ← compile_key_combo a.keys
  ok (
    record (blank_item a) { modifier = modifier; keys = keys },
    int64 (limits.key_hold +ℤ limits.inter_key),
  )
compile_kind key_hold a limits b generation now = do
  (modifier, keys) ← compile_key_combo a.keys
  refuse_if (leb_ℤ a.duration (pos 0) || ltb_ℤ max_key_hold_duration a.duration) invalid_action
  ok (
    record (blank_item a) { modifier = modifier; keys = keys; duration = a.duration },
    int64 (a.duration +ℤ limits.inter_key),
  )
compile_kind type_text a limits b generation now = do
  strokes ← compile_text a.text
  ok (
    record (blank_item a) { text = strokes },
    int64 (times (length strokes) (int64 (limits.key_hold +ℤ limits.inter_key))),
  )
compile_kind wait a limits b generation now = do
  refuse_if (leb_ℤ a.duration (pos 0) || ltb_ℤ limits.max_wait_duration a.duration) invalid_action
  ok (record (blank_item a) { duration = a.duration }, a.duration)
compile_kind screenshot a limits b generation now = ok (blank_item a, pos 0)
compile_kind (unknown_type s) a limits b generation now = err invalid_action

unfoldable pub compile_action :
    Action → Limits → Option ObservationBinding → ℕ → ℕ → Result InputError (CompiledAction × ℤ)
compile_action a limits b generation now = do
  validate_fields a
  compile_kind a.kind a limits b generation now

abbrev pub is_screenshot : ActionType → Bool
is_screenshot screenshot = true
is_screenshot _ = false

abbrev pub is_wait : ActionType → Bool
is_wait wait = true
is_wait _ = false

-- The loop of compileBatch over the actions left, `first` at the first action, with the total wait
-- and the estimated duration so far. The sums are those of an int64.
unfoldable pub compile_rest :
    Bool → List Action → Batch → Limits → ℕ → ℕ → ℤ → ℤ → Result InputError (List CompiledAction)
compile_rest first [] batch limits generation now total estimated = ok []
compile_rest first (a ∷ rest) batch limits generation now total estimated = do
  refuse_if (is_screenshot a.kind && not (first && is_empty rest) && not (is_empty rest))
      invalid_action
  (item, cost) ← compile_action a limits batch.observation generation now
  let total' = if is_wait a.kind then int64 (total +ℤ a.duration) else total
  refuse_if (is_wait a.kind && ltb_ℤ limits.max_total_wait total') invalid_action
  refuse_if (ltb_ℤ limits.max_batch_duration (int64 (estimated +ℤ cost))) invalid_action
  items ← compile_rest false rest batch limits generation now total' (int64 (estimated +ℤ cost))
  ok (item ∷ items)

unfoldable pub compile_batch : Batch → Limits → ℕ → ℕ → Result InputError (List CompiledAction)
compile_batch batch limits generation now = do
  refuse_if (is_empty batch.actions || ltb_ℤ limits.max_actions (pos (length batch.actions)))
      invalid_action
  compile_rest true batch.actions batch limits generation now (pos 0) (pos 0)
