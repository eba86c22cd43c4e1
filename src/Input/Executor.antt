-- ===== src/Input/Executor.antt =====
-- internal/input/executor.go: the execution of a compiled batch under a lease. An interaction with
-- the world outside the lease (a frame, a flush, a wait, a capture, a look at the clock) takes one
-- tick, and the environment says for each tick what happens there. Before each validity check
-- another goroutine may have fenced the manager; it cannot take the lease, which is held.
pub mod Run
pub mod Safety
pub mod Receipts
pub mod Release
pub mod Leak
pub mod Retry
use jetkvm_cli.Base.{
  ℕ, zero, suc, ◌+◌, ◌≡◌, String, Bool, true, false, not, ◌&&◌, ◌||◌, Option, none, some, List, [],
  ◌∷◌, ◌++◌, map, ltb, leb, ◌==◌, str_eq, if◌then◌else◌, Result, ok, err, refuse_if,
}
use jetkvm_cli.Base.Int.{ℤ, pos, eq_ℤ}
use jetkvm_cli.Input.Types.{
  InputError, input_uncertain, stale_generation, lease_released, neutralization,
  observation_missing, observation_stale, invalid_action, keepalive_missed, Point, Batch, Keystroke,
  CompiledAction, Limits, ActionType, move, click, double_click, drag, scroll, keypress, key_hold,
  type_text, wait, screenshot, unknown_type,
}
use jetkvm_cli.Input.Protocol.{keyboard_report, pointer_report, relative_mouse_report}
use jetkvm_cli.Input.Actions.{compile_batch}
use jetkvm_cli.Input.Lease.{
  Manager, Token, validate_token, remember_pointer, mark_uncertain, begin_release,
  set_active_cancel, finish_release,
}

pub data Reliability : Type 0 where
  reliable motion : Reliability

-- An interaction that was attempted, with the generation that fences it.
pub data Sent : Type 0 where
  hid : ℕ → Reliability → List ℕ → Sent
  wheel : ℕ → ℤ → ℤ → Sent
  flush : ℕ → Sent
  waited : ℤ → Sent
  captured : ℕ → Sent

pub record Observation : Type 0 where
  pub id : String
  pub generation : ℕ

-- How the `select` of a key hold ends, after the ticks of its keepalive timer (true: too late).
pub data HoldEnd : Type 0 where
  deadline : HoldEnd
  done : InputError → HoldEnd

pub record Env : Type 0 where
  pub fences : ℕ → Bool
  pub answer : ℕ → Option InputError
  pub now : ℕ → ℕ
  pub has_observer : Bool
  pub observation : ℕ → Observation
  pub hold_ticks : ℕ → List Bool
  pub hold_end : ℕ → HoldEnd

-- The state of a running batch; the log has the last interaction first.
pub record Session : Type 0 where
  pub manager : Manager
  pub token : Token
  pub released : Bool
  pub tick : ℕ
  pub log : List Sent

pub data ActionStatus : Type 0 where
  not_started send_started accepted failed ambiguous : ActionStatus

pub record Failure : Type 0 where
  pub status : ActionStatus
  pub error : InputError

-- A part of an action: it goes through, or stops the action with a status and an error.
abbrev pub M : Type 0
M = Session → Session × Result Failure (Option Observation)

abbrev pub accept : M
accept s = (s, ok none)

abbrev pub fail_with : ActionStatus → InputError → M
fail_with status e s = (s, err (record { status = status; error = e }))

infixr 5 ◌>>◌
unfoldable pub ◌>>◌ : M → M → M
◌>>◌ m k s = elim (m s).1 [ ok o ↦ k (m s).0 | err f ↦ m s ]

-- One tick, at which another goroutine may have fenced the manager.
unfoldable pub look : Env → Session → Session
unfolding mark_uncertain
look env s = record s {
  manager = if env.fences s.tick then mark_uncertain s.manager else s.manager;
  tick = suc s.tick;
}

unfoldable pub check : Session → Result InputError (Unit {0})
unfolding validate_token
check s = if s.released then err lease_released else validate_token s.manager s.token

-- Lease.ensureValid; `status` is the one that the caller reports its error with.
unfoldable pub ensure_valid : Env → ActionStatus → M
unfolding look check
ensure_valid env status s = elim (check (look env s)) [
  | err e ↦ fail_with status e (look env s)
  | ok v ↦ accept (look env s)
]

abbrev pub attempted : (ℕ → Sent) → Session → Session
attempted act s = record s { tick = suc s.tick; log = act s.token.generation ∷ s.log }

unfoldable pub interact : Env → ActionStatus → (ℕ → Sent) → M
interact env status act s = elim (env.answer s.tick) [
  | none ↦ accept (attempted act s)
  | some e ↦ fail_with status e (attempted act s)
]

unfoldable pub remember : Point → M
unfolding remember_pointer
remember p s = accept (record s { manager = remember_pointer s.manager p })

-- waitContext
unfoldable pub wait_for : Env → ActionStatus → ℤ → M
wait_for env status d = if eq_ℤ d (pos 0) then accept else interact env status (λ g. waited d)

unfoldable pub send_hid : Env → Reliability → List ℕ → M
send_hid env r frame = ensure_valid env ambiguous >> interact env ambiguous (λ g. hid g r frame)

unfoldable pub with_frame : Result InputError (List ℕ) → (List ℕ → M) → M
with_frame (err e) k = fail_with failed e
with_frame (ok frame) k = k frame

-- `frame, _ := …`
unfoldable pub frame_of : Result InputError (List ℕ) → List ℕ
frame_of (err e) = []
frame_of (ok frame) = frame

unfoldable pub send_pointer : Env → Point → ℕ → Reliability → M
send_pointer env p buttons r =
    with_frame (pointer_report p.x p.y buttons) (λ frame. send_hid env r frame >> remember p)

unfoldable pub click_at : Env → Point → ℕ → M
click_at env p button =
    send_pointer env p 0 reliable
    >> send_pointer env p button reliable
    >> send_pointer env p 0 reliable

-- The points of a drag that are left, and the release at the last of them.
unfoldable pub drag_along : Env → Point → List Point → ℕ → M
drag_along env last [] button = send_pointer env last 0 reliable
drag_along env last (p ∷ ps) button =
    send_pointer env p button reliable >> drag_along env p ps button

-- Go panics on an empty path, which is never compiled.
unfoldable pub drag_path : Env → List Point → ℕ → M
drag_path env [] button = fail_with failed invalid_action
drag_path env (p ∷ ps) button = send_pointer env p 0 reliable >> drag_along env p (p ∷ ps) button

unfoldable pub press_keys : Env → Limits → ℕ → List ℕ → M
press_keys env limits modifier keys = with_frame (keyboard_report modifier keys) (λ pressed.
    send_hid env reliable pressed
    >> wait_for env ambiguous limits.key_hold
    >> send_hid env reliable (frame_of (keyboard_report 0 []))
    >> wait_for env ambiguous limits.inter_key)

unfoldable pub type_strokes : Env → Limits → List Keystroke → M
type_strokes env limits [] = accept
type_strokes env limits (k ∷ ks) =
    press_keys env limits k.modifier (k.key ∷ []) >> type_strokes env limits ks

abbrev pub message_keypress_keep_alive : ℕ
message_keypress_keep_alive = 9

-- The `for` of keyhold: the ticks of the keepalive until one is late or another case is ready.
unfoldable pub hold_loop : Env → List Bool → HoldEnd → M
hold_loop env [] (done e) = fail_with ambiguous e
hold_loop env [] deadline = send_hid env reliable (frame_of (keyboard_report 0 []))
hold_loop env (true ∷ ticks) end = fail_with ambiguous keepalive_missed
hold_loop env (false ∷ ticks) end =
    send_hid env reliable (message_keypress_keep_alive ∷ []) >> hold_loop env ticks end

unfoldable pub hold_keys : Env → ℕ → List ℕ → M
hold_keys env modifier keys = with_frame (keyboard_report modifier keys) (λ pressed.
    send_hid env reliable pressed >> interact env ambiguous flush >> λ s.
    hold_loop env (env.hold_ticks s.tick) (env.hold_end s.tick) s)

-- The test of a captured observation, taken at the tick before.
abbrev pub is_usable : Observation → ℕ → Bool
is_usable o g = not (str_eq o.id "") && o.generation == g

unfoldable pub accept_observation : Observation → M
accept_observation o s =
    if is_usable o s.token.generation then (s, ok (some o)) else fail_with failed stale_generation s

unfoldable pub capture : Env → M
capture env =
    if env.has_observer
    then interact env failed captured >> (λ s. accept_observation (env.observation s.tick) s)
    else fail_with failed observation_missing

abbrev pub is_expired : Env → CompiledAction → Session → Bool
is_expired env c s = not (c.observation_expires == 0) && ltb c.observation_expires (env.now s.tick)

unfoldable pub check_expiry : Env → CompiledAction → M
check_expiry env c s = if is_expired env c s then fail_with failed observation_stale s else accept s

-- The `switch` of execute.
unfoldable pub execute_kind : Env → Limits → ActionType → CompiledAction → M
execute_kind env limits move c = send_pointer env c.point 0 motion
execute_kind env limits click c = click_at env c.point c.button
execute_kind env limits double_click c =
    click_at env c.point c.button
    >> wait_for env ambiguous limits.double_click_delay
    >> click_at env c.point c.button
execute_kind env limits drag c = drag_path env c.path c.button
execute_kind env limits scroll c =
    ensure_valid env failed >> interact env ambiguous (λ g. wheel g c.delta_y c.delta_x)
execute_kind env limits key_hold c = hold_keys env c.modifier c.keys
execute_kind env limits keypress c = press_keys env limits c.modifier c.keys
execute_kind env limits type_text c = type_strokes env limits c.text
execute_kind env limits wait c = wait_for env failed c.duration
execute_kind env limits screenshot c = capture env
execute_kind env limits (unknown_type t) c = fail_with failed invalid_action

unfoldable pub execute : Env → Limits → CompiledAction → M
execute env limits c =
    ensure_valid env failed >> check_expiry env c >> execute_kind env limits c.kind c
