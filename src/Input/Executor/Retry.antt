-- ===== src/Input/Executor/Retry.antt =====
-- The two ways in which an action of internal/input/executor.go stops, `failed` and `ambiguous`.
use jetkvm_cli.Base.{
  ℕ, ◌≤◌, ◌≡◌, ◌⊎◌, inl, inr, refl, sym, ◌∙◌, is_ok, Bool, true, false, Option, List, [], ◌∷◌,
  arith, length, All, Result, ok, err, Result-cases, Bool-cases, if◌then◌else◌,
}
use jetkvm_cli.Base.Int.{ℤ, pos, eq_ℤ}
use jetkvm_cli.Input.Types.{
  InputError, Point, Keystroke, CompiledAction, Limits, ActionType, move, click, double_click, drag,
  scroll, keypress, key_hold, type_text, wait, screenshot, unknown_type,
}
use jetkvm_cli.Input.Protocol.{keyboard_report, pointer_report, max_mouse_buttons}
use jetkvm_cli.Input.Actions.Binding.{OnScreen}
use jetkvm_cli.Input.Actions.Ready.{IsReady, IsReadyAs}
use jetkvm_cli.Input.Executor.{
  Env, Session, Sent, hid, wheel, flush, waited, captured, Reliability, reliable, motion,
  Observation, HoldEnd, deadline, done, ActionStatus, failed, ambiguous, Failure, M, ◌>>◌, accept,
  fail_with, look, ensure_valid, interact, remember, wait_for, send_hid, with_frame, send_pointer,
  click_at, drag_along, drag_path, press_keys, type_strokes, hold_loop, hold_keys,
  accept_observation, capture, check_expiry, execute_kind, execute,
}

-- The input of a log: what changes the keys, the buttons or the pointer of the device.
abbrev pub input_of : List Sent → List Sent
input_of [] = []
input_of (hid g r f ∷ log) = hid g r f ∷ input_of log
input_of (wheel g y x ∷ log) = wheel g y x ∷ input_of log
input_of (flush g ∷ log) = flush g ∷ input_of log
input_of (waited d ∷ log) = input_of log
input_of (captured g ∷ log) = input_of log

abbrev IsLoud : M → Type 0
IsLoud m = (s : Session) (f : Failure) → (m s).1 ≡ err f → f.status ≡ ambiguous

abbrev IsSilent : M → Type 0
IsSilent m = (s : Session) → input_of (m s).0.log ≡ input_of s.log

abbrev IsCareful : M → Type 0
IsCareful m =
    (s : Session) (f : Failure)
    → (m s).1 ≡ err f
    → (f.status ≡ ambiguous) ⊎ (input_of (m s).0.log ≡ input_of s.log)

seq_stop : (m k : M) (s : Session) (f : Failure) → (m s).1 ≡ err f → (m >> k) s ≡ m s
unfolding ◌>>◌
seq_stop m k s f h = simp (h, ◌>>◌) refl

seq_pass :
    (m k : M) (s : Session) (o : Option Observation) → (m s).1 ≡ ok o → (m >> k) s ≡ k (m s).0
unfolding ◌>>◌
seq_pass m k s o h = rw (h, ◌>>◌) refl

seq-IsLoud : (m k : M) → IsLoud m → IsLoud k → IsLoud (m >> k)
seq-IsLoud m k a b s f h = elim (Result-cases (m s).1) [
  | inl (e, stopped) ↦ a s f (simp (seq_stop m k s e stopped) at h)
  | inr (o, passed) ↦ b (m s).0 f (simp (seq_pass m k s o passed) at h)
]

seq-IsCareful : (m k : M) → IsSilent m → IsCareful k → IsCareful (m >> k)
seq-IsCareful m k a b s f h = elim (Result-cases (m s).1) [
  | inl (e, stopped) ↦ simp (seq_stop m k s e stopped) (inr (a s))
  | inr (o, passed) ↦
      simp (seq_pass m k s o passed, sym (a s)) (b (m s).0 f (simp (seq_pass m k s o passed) at h))
]

seq-IsSilent : (m k : M) → IsSilent m → IsSilent k → IsSilent (m >> k)
seq-IsSilent m k a b s = elim (Result-cases (m s).1) [
  | inl (e, stopped) ↦ simp (seq_stop m k s e stopped) (a s)
  | inr (o, passed) ↦ simp (seq_pass m k s o passed) (b (m s).0 ∙ a s)
]

accept-IsLoud : IsLoud accept
accept-IsLoud s f h = cc

fail-IsLoud : (e : InputError) → IsLoud (fail_with ambiguous e)
fail-IsLoud e s f h = ground arith

ensure_valid-IsLoud : (env : Env) → IsLoud (ensure_valid env ambiguous)
unfolding ensure_valid
ensure_valid-IsLoud env s f h = ground arith

ensure_valid-IsSilent : (env : Env) (status : ActionStatus) → IsSilent (ensure_valid env status)
unfolding ensure_valid look
ensure_valid-IsSilent env status s = ground arith

interact-IsLoud : (env : Env) (act : ℕ → Sent) → IsLoud (interact env ambiguous act)
unfolding interact
interact-IsLoud env act s f h = ground arith

waited-IsSilent : (env : Env) (d : ℤ) → IsSilent (interact env failed (λ g. waited d))
unfolding interact
waited-IsSilent env d s = ground arith

captured-IsSilent : (env : Env) → IsSilent (interact env failed captured)
unfolding interact
captured-IsSilent env s = ground arith

remember-IsLoud : (p : Point) → IsLoud (remember p)
unfolding remember
remember-IsLoud p s f h = cc

if-IsLoud : (b : Bool) (m k : M) → IsLoud m → IsLoud k → IsLoud (if b then m else k)
if-IsLoud true m k a b = a
if-IsLoud false m k a b = b

wait_for-IsLoud : (env : Env) (d : ℤ) → IsLoud (wait_for env ambiguous d)
unfolding wait_for
wait_for-IsLoud env d =
    if-IsLoud (eq_ℤ d (pos 0)) accept (interact env ambiguous (λ g. waited d)) accept-IsLoud
      (interact-IsLoud env (λ g. waited d))

wait_for-IsSilent : (env : Env) (d : ℤ) → IsSilent (wait_for env failed d)
unfolding wait_for
wait_for-IsSilent env d = elim (Bool-cases (eq_ℤ d (pos 0))) [
  | inl zero_wait ↦ simp zero_wait (λ s. refl)
  | inr waits ↦ simp waits (waited-IsSilent env d)
]

send_hid-IsLoud : (env : Env) (r : Reliability) (frame : List ℕ) → IsLoud (send_hid env r frame)
unfolding send_hid
send_hid-IsLoud env r frame =
    seq-IsLoud _ _ (ensure_valid-IsLoud env) (interact-IsLoud env (λ g. hid g r frame))

with_frame-IsLoud :
    (r : Result InputError (List ℕ)) (k : List ℕ → M)
    → is_ok r ≡ true
    → ((f : List ℕ) → IsLoud (k f))
    → IsLoud (with_frame r k)
unfolding with_frame
with_frame-IsLoud (ok f) k h l = l f
with_frame-IsLoud (err e) k h l = cc

pointer_report_ok :
    (p : Point) (b : ℕ)
    → OnScreen p
    → b ≤ max_mouse_buttons
    → is_ok (pointer_report p.x p.y b) ≡ true
unfolding pointer_report
pointer_report_ok p b (hx, hy) hb = ground arith

keyboard_report_ok :
    (m : ℕ) (keys : List ℕ) → length keys ≤ 6 → is_ok (keyboard_report m keys) ≡ true
unfolding keyboard_report
keyboard_report_ok m keys h = ground arith

send_pointer-IsLoud :
    (env : Env) (p : Point) (b : ℕ) (r : Reliability)
    → OnScreen p
    → b ≤ max_mouse_buttons
    → IsLoud (send_pointer env p b r)
unfolding send_pointer
send_pointer-IsLoud env p b r on hb =
    with_frame-IsLoud _ _ (pointer_report_ok p b on hb)
      (λ f. seq-IsLoud _ _ (send_hid-IsLoud env r f) (remember-IsLoud p))

click_at-IsLoud :
    (env : Env) (p : Point) (b : ℕ) → OnScreen p → b ≤ max_mouse_buttons → IsLoud (click_at env p b)
unfolding click_at
click_at-IsLoud env p b on hb =
    let up = send_pointer-IsLoud env p 0 reliable on (omega arith) in
    seq-IsLoud _ _ up (seq-IsLoud _ _ (send_pointer-IsLoud env p b reliable on hb) up)

drag_along-IsLoud :
    (env : Env) (last : Point) (ps : List Point) (b : ℕ)
    → OnScreen last
    → All OnScreen ps
    → b ≤ max_mouse_buttons
    → IsLoud (drag_along env last ps b)
unfolding drag_along
drag_along-IsLoud env last [] b on h hb = send_pointer-IsLoud env last 0 reliable on (omega arith)
drag_along-IsLoud env last (p ∷ ps) b on (hp, h) hb =
    seq-IsLoud _ _ (send_pointer-IsLoud env p b reliable hp hb)
      (drag_along-IsLoud env p ps b hp h hb)

drag_path-IsLoud :
    (env : Env) (ps : List Point) (b : ℕ)
    → 2 ≤ length ps
    → All OnScreen ps
    → b ≤ max_mouse_buttons
    → IsLoud (drag_path env ps b)
unfolding drag_path
drag_path-IsLoud env [] b n h hb = absurd (omega arith)
drag_path-IsLoud env (p ∷ ps) b n h hb =
    seq-IsLoud _ _ (send_pointer-IsLoud env p 0 reliable h.0 (omega arith))
      (drag_along-IsLoud env p (p ∷ ps) b h.0 h hb)

press_keys-IsLoud :
    (env : Env) (l : Limits) (m : ℕ) (keys : List ℕ)
    → length keys ≤ 6
    → IsLoud (press_keys env l m keys)
unfolding press_keys
press_keys-IsLoud env l m keys h = with_frame-IsLoud _ _ (keyboard_report_ok m keys h) (λ f.
    seq-IsLoud _ _ (send_hid-IsLoud env reliable f) (
      seq-IsLoud _ _ (wait_for-IsLoud env l.key_hold)
        (seq-IsLoud _ _ (send_hid-IsLoud env reliable _) (wait_for-IsLoud env l.inter_key))))

type_strokes-IsLoud :
    (env : Env) (l : Limits) (ks : List Keystroke) → IsLoud (type_strokes env l ks)
unfolding type_strokes
type_strokes-IsLoud env l [] = accept-IsLoud
type_strokes-IsLoud env l (k ∷ ks) =
    seq-IsLoud _ _ (press_keys-IsLoud env l k.modifier (k.key ∷ []) (omega arith))
      (type_strokes-IsLoud env l ks)

hold_loop-IsLoud :
    (env : Env) (ticks : List Bool) (end : HoldEnd) → IsLoud (hold_loop env ticks end)
unfolding hold_loop
hold_loop-IsLoud env [] (done e) = fail-IsLoud e
hold_loop-IsLoud env [] deadline = send_hid-IsLoud env reliable _
hold_loop-IsLoud env (true ∷ ticks) end = fail-IsLoud _
hold_loop-IsLoud env (false ∷ ticks) end =
    seq-IsLoud _ _ (send_hid-IsLoud env reliable _) (hold_loop-IsLoud env ticks end)

hold_keys-IsLoud :
    (env : Env) (m : ℕ) (keys : List ℕ) → length keys ≤ 6 → IsLoud (hold_keys env m keys)
unfolding hold_keys
hold_keys-IsLoud env m keys h = with_frame-IsLoud _ _ (keyboard_report_ok m keys h) (λ f.
    seq-IsLoud _ _ (send_hid-IsLoud env reliable f) (
      seq-IsLoud _ _ (interact-IsLoud env flush)
        (λ s. hold_loop-IsLoud env (env.hold_ticks s.tick) (env.hold_end s.tick) s)))

accept_observation-IsSilent : (o : Observation) → IsSilent (accept_observation o)
unfolding accept_observation
accept_observation-IsSilent o s = ground arith

capture-IsSilent : (env : Env) → IsSilent (capture env)
unfolding capture
capture-IsSilent env = elim (Bool-cases env.has_observer) [
  | inl sees ↦ simp sees (
      seq-IsSilent _ _ (captured-IsSilent env)
        (λ s. accept_observation-IsSilent (env.observation s.tick) s))
  | inr blind ↦ simp blind (λ s. refl)
]

check_expiry-IsSilent : (env : Env) (c : CompiledAction) → IsSilent (check_expiry env c)
unfolding check_expiry
check_expiry-IsSilent env c s = ground arith

execute_kind-IsCareful :
    (env : Env) (l : Limits) (k : ActionType) (c : CompiledAction)
    → IsReadyAs k c
    → IsCareful (execute_kind env l k c)
unfolding execute_kind
execute_kind-IsCareful env l move c h =
    λ s f e. inl ((send_pointer-IsLoud env c.point 0 motion h (omega arith)) s f e)
execute_kind-IsCareful env l click c (on, hb) =
    λ s f e. inl ((click_at-IsLoud env c.point c.button on hb) s f e)
execute_kind-IsCareful env l double_click c (on, hb) =
    let one = click_at-IsLoud env c.point c.button on hb in
    λ s f e.
      inl
        ((seq-IsLoud _ _ one (seq-IsLoud _ _ (wait_for-IsLoud env l.double_click_delay) one)) s f e)
execute_kind-IsCareful env l drag c (on, n, m, hb) =
    λ s f e. inl ((drag_path-IsLoud env c.path c.button n on hb) s f e)
execute_kind-IsCareful env l scroll c h =
    seq-IsCareful _ _ (ensure_valid-IsSilent env failed)
      (λ s f e. inl (interact-IsLoud env (λ g. wheel g c.delta_y c.delta_x) s f e))
execute_kind-IsCareful env l key_hold c (n, lo, hi) =
    λ s f e. inl ((hold_keys-IsLoud env c.modifier c.keys n) s f e)
execute_kind-IsCareful env l keypress c h =
    λ s f e. inl ((press_keys-IsLoud env l c.modifier c.keys h) s f e)
execute_kind-IsCareful env l type_text c h = λ s f e. inl ((type_strokes-IsLoud env l c.text) s f e)
execute_kind-IsCareful env l wait c h = λ s f e. inr ((wait_for-IsSilent env c.duration) s)
execute_kind-IsCareful env l screenshot c h = λ s f e. inr ((capture-IsSilent env) s)
execute_kind-IsCareful env l (unknown_type t) c h = absurd h

-- An item that is ready, as the items of a compiled batch are, and that stops without being reported
-- ambiguous has not attempted to send anything that changes the keys, the buttons or the pointer.
pub execute_failed_sent_nothing :
    (env : Env) (l : Limits) (c : CompiledAction) (s : Session) (f : Failure)
    → IsReady c
    → (execute env l c s).1 ≡ err f
    → (f.status ≡ ambiguous) ⊎ (input_of (execute env l c s).0.log ≡ input_of s.log)
unfolding execute
execute_failed_sent_nothing env l c s f h stopped =
    seq-IsCareful _ _ (ensure_valid-IsSilent env failed)
      (seq-IsCareful _ _ (check_expiry-IsSilent env c) (execute_kind-IsCareful env l c.kind c h)) s
      f stopped
