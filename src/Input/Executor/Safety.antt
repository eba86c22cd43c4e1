-- ===== src/Input/Executor/Safety.antt =====
-- What an action of internal/input/executor.go may change in the session that runs it.
use jetkvm_cli.Base.{
  ℕ, ◌≡◌, ◌⊎◌, inl, inr, refl, sym, ◌∙◌, Bool, true, false, Option, List, [], ◌∷◌, arith, All,
  Result, ok, err, Result-cases, Option-cases, Bool-cases, if◌then◌else◌,
}
use jetkvm_cli.Base.Int.{ℤ, pos, eq_ℤ}
use jetkvm_cli.Input.Types.{
  InputError, Point, Keystroke, CompiledAction, Limits, ActionType, move, click, double_click, drag,
  scroll, keypress, key_hold, type_text, wait, screenshot, unknown_type,
}
use jetkvm_cli.Input.Protocol.{keyboard_report, pointer_report}
use jetkvm_cli.Input.Executor.{
  Env, Session, Sent, hid, wheel, flush, waited, captured, Reliability, reliable, motion,
  Observation, HoldEnd, deadline, done, ActionStatus, failed, ambiguous, Failure, M, ◌>>◌,
  attempted, check, accept, fail_with, is_usable, is_expired, look, ensure_valid, interact,
  remember, wait_for, send_hid, with_frame, send_pointer, click_at, drag_along, drag_path,
  press_keys, type_strokes, hold_loop, hold_keys, accept_observation, capture, check_expiry,
  execute_kind, execute,
}

-- An interaction that names no other generation than g.
abbrev pub IsOf : ℕ → Sent → Type 0
IsOf g (hid h r f) = h ≡ g
IsOf g (wheel h y x) = h ≡ g
IsOf g (flush h) = h ≡ g
IsOf g (waited d) = Unit {0}
IsOf g (captured h) = h ≡ g

-- The lease stays as it is, and what is sent carries the generation of its token.
pub record Keeps (s s' : Session) : Type 0 where
  pub token : s'.token ≡ s.token
  pub released : s'.released ≡ s.released
  pub held : s'.manager.lease_held ≡ s.manager.lease_held
  pub active : s'.manager.active ≡ s.manager.active
  pub limits : s'.manager.limits ≡ s.manager.limits
  pub sent : All (IsOf s.token.generation) s.log → All (IsOf s.token.generation) s'.log

pub Keeps-refl : (s : Session) → Keeps s s
Keeps-refl s = record {
  token = refl;
  released = refl;
  held = refl;
  active = refl;
  limits = refl;
  sent = λ h. h;
}

pub Keeps-trans : {s s' s'' : Session} → Keeps s s' → Keeps s' s'' → Keeps s s''
Keeps-trans {s} {s'} {s''} a b = record {
  token = b.token ∙ a.token;
  released = b.released ∙ a.released;
  held = b.held ∙ a.held;
  active = b.active ∙ a.active;
  limits = b.limits ∙ a.limits;
  sent = λ h. simp (sym a.token) (b.sent (simp a.token (a.sent h)));
}

-- An action stops as failed or as ambiguous.
abbrev pub IsStop : ActionStatus → Type 0
IsStop status = (status ≡ failed) ⊎ (status ≡ ambiguous)

abbrev pub Stops : Result Failure (Option Observation) → Type 0
Stops (ok o) = Unit {0}
Stops (err f) = IsStop f.status

pub record IsSafe (m : M) : Type 0 where
  pub keeps : (s : Session) → Keeps s (m s).0
  pub stops : (s : Session) → Stops (m s).1

pub look-Keeps : (env : Env) (s : Session) → Keeps s (look env s)
unfolding look
look-Keeps env s = record {
  token = refl;
  released = refl;
  held = ground arith;
  active = ground arith;
  limits = ground arith;
  sent = λ h. h;
}

seq-IsSafe : (m k : M) → IsSafe m → IsSafe k → IsSafe (m >> k)
unfolding ◌>>◌
seq-IsSafe m k a b = record {
  keeps = λ s. elim (Result-cases (m s).1) [
    | inl (f, stopped) ↦ rw (stopped, ◌>>◌) (a.keeps s)
    | inr (o, passed) ↦ rw (passed, ◌>>◌) (Keeps-trans (a.keeps s) (b.keeps (m s).0))
  ];
  stops = λ s. elim (Result-cases (m s).1) [
    | inl (f, stopped) ↦ rw (stopped, ◌>>◌) (a.stops s)
    | inr (o, passed) ↦ rw (passed, ◌>>◌) (b.stops (m s).0)
  ];
}

fail-IsSafe : (status : ActionStatus) (e : InputError) → IsStop status → IsSafe (fail_with status e)
fail-IsSafe status e h = record { keeps = Keeps-refl; stops = λ s. h }

accept-IsSafe : IsSafe accept
accept-IsSafe = record { keeps = Keeps-refl; stops = λ s. tt }

ensure_valid-IsSafe :
    (env : Env) (status : ActionStatus) → IsStop status → IsSafe (ensure_valid env status)
unfolding ensure_valid
ensure_valid-IsSafe env status h = record {
  keeps = λ s. elim (Result-cases (check (look env s))) [
    | inl (e, bad) ↦ rw (bad, ensure_valid) (look-Keeps env s)
    | inr (v, good) ↦ rw (good, ensure_valid) (look-Keeps env s)
  ];
  stops = λ s. elim (Result-cases (check (look env s))) [
    | inl (e, bad) ↦ rw (bad, ensure_valid) h
    | inr (v, good) ↦ rw (good, ensure_valid) tt
  ];
}

pub attempted-Keeps :
    (act : ℕ → Sent) (s : Session)
    → IsOf s.token.generation (act s.token.generation)
    → Keeps s (attempted act s)
attempted-Keeps act s h = record {
  token = refl;
  released = refl;
  held = refl;
  active = refl;
  limits = refl;
  sent = λ logged. (h, logged);
}

interact-IsSafe :
    (env : Env) (status : ActionStatus) (act : ℕ → Sent)
    → IsStop status
    → ((g : ℕ) → IsOf g (act g))
    → IsSafe (interact env status act)
unfolding interact
interact-IsSafe env status act h own = record {
  keeps = λ s. elim (Option-cases (env.answer s.tick)) [
    | inl passed ↦ rw (passed, interact) (attempted-Keeps act s (own s.token.generation))
    | inr (e, stopped) ↦ rw (stopped, interact) (attempted-Keeps act s (own s.token.generation))
  ];
  stops = λ s. elim (Option-cases (env.answer s.tick)) [
    | inl passed ↦ rw (passed, interact) tt
    | inr (e, stopped) ↦ rw (stopped, interact) h
  ];
}

remember-IsSafe : (p : Point) → IsSafe (remember p)
unfolding remember
remember-IsSafe p = record {
  keeps = λ s. record {
    token = refl;
    released = refl;
    held = refl;
    active = refl;
    limits = refl;
    sent = λ h. h;
  };
  stops = λ s. tt;
}

if-IsSafe : (b : Bool) (m k : M) → IsSafe m → IsSafe k → IsSafe (if b then m else k)
if-IsSafe true m k a b = a
if-IsSafe false m k a b = b

wait_for-IsSafe :
    (env : Env) (status : ActionStatus) (d : ℤ) → IsStop status → IsSafe (wait_for env status d)
unfolding wait_for
wait_for-IsSafe env status d h =
    if-IsSafe (eq_ℤ d (pos 0)) accept (interact env status (λ g. waited d)) accept-IsSafe
      (interact-IsSafe env status (λ g. waited d) h (λ g. tt))

send_hid-IsSafe : (env : Env) (r : Reliability) (frame : List ℕ) → IsSafe (send_hid env r frame)
unfolding send_hid
send_hid-IsSafe env r frame =
    seq-IsSafe (ensure_valid env ambiguous) (interact env ambiguous (λ g. hid g r frame))
      (ensure_valid-IsSafe env ambiguous (inr refl))
      (interact-IsSafe env ambiguous (λ g. hid g r frame) (inr refl) (λ g. refl))

with_frame-IsSafe :
    (r : Result InputError (List ℕ)) (k : List ℕ → M)
    → ((f : List ℕ) → IsSafe (k f))
    → IsSafe (with_frame r k)
unfolding with_frame
with_frame-IsSafe (err e) k h = fail-IsSafe failed e (inl refl)
with_frame-IsSafe (ok f) k h = h f

send_pointer-IsSafe :
    (env : Env) (p : Point) (b : ℕ) (r : Reliability) → IsSafe (send_pointer env p b r)
unfolding send_pointer
send_pointer-IsSafe env p b r =
    with_frame-IsSafe (pointer_report p.x p.y b) (λ f. send_hid env r f >> remember p)
      (λ f.
        seq-IsSafe (send_hid env r f) (remember p) (send_hid-IsSafe env r f) (remember-IsSafe p))

click_at-IsSafe : (env : Env) (p : Point) (b : ℕ) → IsSafe (click_at env p b)
unfolding click_at
click_at-IsSafe env p b =
    seq-IsSafe _ _ (send_pointer-IsSafe env p 0 reliable)
      (seq-IsSafe _ _ (send_pointer-IsSafe env p b reliable) (send_pointer-IsSafe env p 0 reliable))

drag_along-IsSafe :
    (env : Env) (last : Point) (ps : List Point) (b : ℕ) → IsSafe (drag_along env last ps b)
unfolding drag_along
drag_along-IsSafe env last [] b = send_pointer-IsSafe env last 0 reliable
drag_along-IsSafe env last (p ∷ ps) b =
    seq-IsSafe _ _ (send_pointer-IsSafe env p b reliable) (drag_along-IsSafe env p ps b)

drag_path-IsSafe : (env : Env) (ps : List Point) (b : ℕ) → IsSafe (drag_path env ps b)
unfolding drag_path
drag_path-IsSafe env [] b = fail-IsSafe failed _ (inl refl)
drag_path-IsSafe env (p ∷ ps) b =
    seq-IsSafe _ _ (send_pointer-IsSafe env p 0 reliable) (drag_along-IsSafe env p (p ∷ ps) b)

press_keys-IsSafe :
    (env : Env) (l : Limits) (m : ℕ) (keys : List ℕ) → IsSafe (press_keys env l m keys)
unfolding press_keys
press_keys-IsSafe env l m keys = with_frame-IsSafe (keyboard_report m keys) _ (λ f.
    seq-IsSafe _ _ (send_hid-IsSafe env reliable f) (
      seq-IsSafe _ _ (wait_for-IsSafe env ambiguous l.key_hold (inr refl)) (
        seq-IsSafe _ _ (send_hid-IsSafe env reliable _)
          (wait_for-IsSafe env ambiguous l.inter_key (inr refl)))))

type_strokes-IsSafe :
    (env : Env) (l : Limits) (ks : List Keystroke) → IsSafe (type_strokes env l ks)
unfolding type_strokes
type_strokes-IsSafe env l [] = accept-IsSafe
type_strokes-IsSafe env l (k ∷ ks) =
    seq-IsSafe _ _ (press_keys-IsSafe env l k.modifier (k.key ∷ [])) (type_strokes-IsSafe env l ks)

hold_loop-IsSafe :
    (env : Env) (ticks : List Bool) (end : HoldEnd) → IsSafe (hold_loop env ticks end)
unfolding hold_loop
hold_loop-IsSafe env [] (done e) = fail-IsSafe ambiguous e (inr refl)
hold_loop-IsSafe env [] deadline = send_hid-IsSafe env reliable _
hold_loop-IsSafe env (true ∷ ticks) end = fail-IsSafe ambiguous _ (inr refl)
hold_loop-IsSafe env (false ∷ ticks) end =
    seq-IsSafe _ _ (send_hid-IsSafe env reliable _) (hold_loop-IsSafe env ticks end)

-- A part that is chosen from the state it starts in.
chosen-IsSafe : (k : Session → M) → ((s : Session) → IsSafe (k s)) → IsSafe (λ s. k s s)
chosen-IsSafe k h = record { keeps = λ s. (h s).keeps s; stops = λ s. (h s).stops s }

hold_keys-IsSafe : (env : Env) (m : ℕ) (keys : List ℕ) → IsSafe (hold_keys env m keys)
unfolding hold_keys
hold_keys-IsSafe env m keys = with_frame-IsSafe (keyboard_report m keys) _ (λ f.
    seq-IsSafe _ _ (send_hid-IsSafe env reliable f) (
      seq-IsSafe _ _ (interact-IsSafe env ambiguous flush (inr refl) (λ g. refl)) (
        chosen-IsSafe (λ s. hold_loop env (env.hold_ticks s.tick) (env.hold_end s.tick))
          (λ s. hold_loop-IsSafe env (env.hold_ticks s.tick) (env.hold_end s.tick)))))

accept_observation-IsSafe : (o : Observation) → IsSafe (accept_observation o)
unfolding accept_observation
accept_observation-IsSafe o = record {
  keeps = λ s. elim (Bool-cases (is_usable o s.token.generation)) [
    | inl usable ↦ rw (usable, accept_observation) (Keeps-refl s)
    | inr other ↦ rw (other, accept_observation) (Keeps-refl s)
  ];
  stops = λ s. elim (Bool-cases (is_usable o s.token.generation)) [
    | inl usable ↦ rw (usable, accept_observation) tt
    | inr other ↦ rw (other, accept_observation) (inl refl)
  ];
}

capture-IsSafe : (env : Env) → IsSafe (capture env)
unfolding capture
capture-IsSafe env =
    if-IsSafe env.has_observer _ _
      (seq-IsSafe _ _ (interact-IsSafe env failed captured (inl refl) (λ g. refl)) (
        chosen-IsSafe (λ s. accept_observation (env.observation s.tick))
          (λ s. accept_observation-IsSafe (env.observation s.tick))))
      (fail-IsSafe failed _ (inl refl))

check_expiry-IsSafe : (env : Env) (c : CompiledAction) → IsSafe (check_expiry env c)
unfolding check_expiry
check_expiry-IsSafe env c = record {
  keeps = λ s. elim (Bool-cases (is_expired env c s)) [
    | inl late ↦ rw (late, check_expiry) (Keeps-refl s)
    | inr fresh ↦ rw (fresh, check_expiry) (Keeps-refl s)
  ];
  stops = λ s. elim (Bool-cases (is_expired env c s)) [
    | inl late ↦ rw (late, check_expiry) (inl refl)
    | inr fresh ↦ rw (fresh, check_expiry) tt
  ];
}

execute_kind-IsSafe :
    (env : Env) (l : Limits) (k : ActionType) (c : CompiledAction) → IsSafe (execute_kind env l k c)
unfolding execute_kind
execute_kind-IsSafe env l move c = send_pointer-IsSafe env c.point 0 motion
execute_kind-IsSafe env l click c = click_at-IsSafe env c.point c.button
execute_kind-IsSafe env l double_click c = seq-IsSafe _ _ (click_at-IsSafe env c.point c.button) (
    seq-IsSafe _ _ (wait_for-IsSafe env ambiguous l.double_click_delay (inr refl))
      (click_at-IsSafe env c.point c.button))
execute_kind-IsSafe env l drag c = drag_path-IsSafe env c.path c.button
execute_kind-IsSafe env l scroll c =
    seq-IsSafe _ _ (ensure_valid-IsSafe env failed (inl refl))
      (interact-IsSafe env ambiguous (λ g. wheel g c.delta_y c.delta_x) (inr refl) (λ g. refl))
execute_kind-IsSafe env l key_hold c = hold_keys-IsSafe env c.modifier c.keys
execute_kind-IsSafe env l keypress c = press_keys-IsSafe env l c.modifier c.keys
execute_kind-IsSafe env l type_text c = type_strokes-IsSafe env l c.text
execute_kind-IsSafe env l wait c = wait_for-IsSafe env failed c.duration (inl refl)
execute_kind-IsSafe env l screenshot c = capture-IsSafe env
execute_kind-IsSafe env l (unknown_type t) c = fail-IsSafe failed _ (inl refl)

pub execute-IsSafe : (env : Env) (l : Limits) (c : CompiledAction) → IsSafe (execute env l c)
unfolding execute
execute-IsSafe env l c =
    seq-IsSafe _ _ (ensure_valid-IsSafe env failed (inl refl))
      (seq-IsSafe _ _ (check_expiry-IsSafe env c) (execute_kind-IsSafe env l c.kind c))
