-- ===== src/Control/Actor.antt =====
-- internal/control/actor.go: the commands of the actor, each run whole in its queue. A caller whose
-- context ends while it waits is answered so, and the command still runs; a caller that gives up
-- before the command is taken runs nothing.
pub mod Changes
pub mod Owners
pub mod Fencing
pub mod Backing
pub mod Expiry
pub mod Sweeps
pub mod Reconnects
use jetkvm_cli.Base.{
  ℕ, ◌+◌, ◌-◌, ◌≡◌, min, String, Bool, true, false, not, ◌&&◌, ◌||◌, Option, none, some, List, [],
  ◌∷◌, ltb, ◌==◌, str_eq, if◌then◌else◌, Result, ok, err,
}
use jetkvm_cli.Control.{
  ControlError, invalid_config, control_busy, generation_mismatch, capability_missing, cancelled,
  lock_failed, open_failed, close_failed, unlock_failed, callback_failed, SessionState, HandleState,
  Ownership, Handle, Ref, OpenRequest, ActorState, LockAnswer, granted, nil_lock, refused,
  OpenAnswer, opened, nil_session, failed, Answers, is_ready, same_ownership, has_capabilities,
  find_handle, put_handle, validate, touch, touch_handle, drain, drained, close_session,
  lock_releases, expire_if_needed,
}

abbrev pub Reply : Type 0
Reply = ActorState × Result ControlError Handle

abbrev pub is_found : Option Handle → Bool
is_found none = false
is_found (some h) = true

abbrev pub is_current : ActorState → String → Bool
is_current s id = elim s.current [ none ↦ false | some h ↦ str_eq h.id id ]

-- newHandleID, on the ID that the generator gives.
unfoldable pub is_fresh_id : ActorState → String → Bool
is_fresh_id s id =
    not (str_eq id "") && not (is_current s id) && not (is_found (find_handle id s.history))

-- The handle of a session that was just opened.
abbrev pub new_handle : String → ℕ → Ownership → List String → ℕ → ℕ → ℕ → Handle
new_handle id generation ownership capabilities now idle lifetime = record {
  id = id;
  generation = generation;
  ownership = ownership;
  capabilities = capabilities;
  state = HandleState.ready;
  created_at = now;
  last_used_at = now;
  idle_expires_at = now + idle;
  absolute_expires_at = now + lifetime;
}

-- The handle that is ready, with the expiry and the idle timeout that a request asks for if these are
-- earlier, touched.
abbrev pub shortened : Handle → ℕ → Handle
shortened h lifetime = record h {
  absolute_expires_at =
      if ltb (h.created_at + lifetime) h.absolute_expires_at
      then h.created_at + lifetime
      else h.absolute_expires_at;
}

abbrev pub shared_handle : ActorState → Answers → OpenRequest → Handle → Handle
shared_handle s a request h =
    touch_handle (shortened h request.absolute_lifetime) a.now
      (min s.idle_timeout request.idle_timeout)

abbrev pub shared : ActorState → Answers → OpenRequest → Handle → ActorState
shared s a request h = record s {
  current = some (shared_handle s a request h);
  idle_timeout = min s.idle_timeout request.idle_timeout;
}

-- The part of open that shares the handle that is ready.
unfoldable pub open_shared : ActorState → Answers → OpenRequest → Handle → Reply
open_shared s a request h =
    if not (same_ownership request.ownership h.ownership)
      || not (has_capabilities h.capabilities request.capabilities)
    then (s, err control_busy)
    else (shared s a request h, ok (shared_handle s a request h))

abbrev pub first_handle : ActorState → Answers → OpenRequest → Handle
first_handle s a request =
    new_handle a.handle_id (s.generation + 1) request.ownership request.capabilities a.now
      request.idle_timeout request.absolute_lifetime

abbrev pub started : ActorState → Answers → OpenRequest → ActorState
started s a request = record s {
  generation = s.generation + 1;
  lock = true;
  session = some (s.generation + 1);
  session_state = SessionState.ready;
  current = some (first_handle s a request);
  idle_timeout = request.idle_timeout;
}

abbrev pub without_session : ActorState → ActorState
without_session s = record s { session_state = SessionState.absent }

-- The part of open that starts a session.
unfoldable pub open_new : ActorState → Answers → OpenRequest → Reply
open_new s a request =
    if not (is_fresh_id s a.handle_id) then (s, err invalid_config) else elim a.acquire [
      | refused ↦ (without_session s, err lock_failed)
      | nil_lock ↦ (without_session s, err invalid_config)
      | granted ↦ elim a.open_session [
        | failed ↦ (without_session s, err open_failed)
        | nil_session ↦ (without_session s, err invalid_config)
        | opened ↦ (started s a request, ok (first_handle s a request))
      ]
    ]

unfoldable pub open_unexpired : ActorState → Answers → OpenRequest → Reply
open_unexpired s a request = elim s.current [
  | none ↦ open_new s a request
  | some h ↦ if is_ready h.state then open_shared s a request h else open_new s a request
]

unfoldable pub open_control : ActorState → Answers → OpenRequest → Reply
open_control s a request =
    if a.is_draining
    then (s, err control_busy)
    else if a.is_cancelled
    then (s, err cancelled)
    else open_unexpired (expire_if_needed s a) a request

-- The handle of a snapshot; its transport and session states are read off the registry and the state.
unfoldable pub snapshot : ActorState → Answers → Ref → Bool → Reply
unfolding touch
snapshot s a ref touches =
    let s' = expire_if_needed s a in
    elim (validate s' ref) [
      | err e ↦ (s', err e)
      | ok h ↦
          let t = touch s' h a.now in
          if touches && is_ready h.state
          then (t, elim t.current [ none ↦ err control_busy | some touched ↦ ok touched ])
          else (s', ok h)
    ]

abbrev pub can_run : ActorState → Bool
can_run s = elim s.session_state [
  | SessionState.ready ↦ elim s.session [ none ↦ false | some g ↦ true ]
  | _ ↦ false
]

-- execute: `ok` says that the callback ran, with its success, in the session of the generation given.
unfoldable pub execute_in :
    ActorState → Answers → Ref → String → Bool → ActorState × Result ControlError (ℕ × Bool)
unfolding touch
execute_in s a ref capability succeeds =
    if a.is_draining
    then (s, err control_busy)
    else if a.is_cancelled
    then (s, err cancelled)
    else let s' = expire_if_needed s a in
      elim (validate s' ref) [
        | err e ↦ (s', err e)
        | ok h ↦
            if not (has_capabilities h.capabilities (capability ∷ []))
            then (s', err capability_missing)
            else if not (can_run s')
            then (s', err control_busy)
            else (
              touch s' h a.after_callback,
              elim s'.session [ none ↦ err control_busy | some g ↦ ok (g, succeeds) ],
            )
      ]

-- The part of reconnect after the old session was closed: `old` is the fenced handle.
unfoldable pub reopen : ActorState → Answers → Handle → Reply
reopen s a old = elim a.open_session [
  | opened ↦
      let generation = s.generation + 1 in
      let h =
        new_handle a.handle_id generation old.ownership old.capabilities a.now s.idle_timeout
          (old.absolute_expires_at - old.created_at) in
      (
        record s {
          generation = generation;
          session = some generation;
          session_state = SessionState.ready;
          current = some h;
        },
        ok h,
      )
  | failed ↦ (
    record s { session_state = SessionState.closed; lock = not (lock_releases s a) },
    err open_failed,
  )
  | nil_session ↦ (
    record s { session_state = SessionState.closed; lock = not (lock_releases s a) },
    err invalid_config,
  )
]

-- The part of reconnect that fences the handle and closes its session.
unfoldable pub replace_session : ActorState → Answers → Handle → Reply
unfolding put_handle
replace_session s a h =
    let old = record h { state = HandleState.fenced } in
    let s' = record s { history = put_handle old s.history } in
    if not a.close
    then (
      record s' { current = some old; session_state = SessionState.uncertain },
      err close_failed,
    )
    else reopen (record s' { current = none; session = none }) a old

unfoldable pub reconnect : ActorState → Answers → Ref → Reply
reconnect s a ref =
    if a.is_draining
    then (s, err control_busy)
    else if a.is_cancelled
    then (s, err cancelled)
    else elim (validate s ref) [
      | err e ↦ (s, err e)
      | ok h ↦
          if not (is_fresh_id s a.handle_id) then (s, err invalid_config) else replace_session s a h
    ]

unfoldable pub close_control : ActorState → Answers → Ref → HandleState → Reply
close_control s a ref terminal =
    if a.is_cancelled then (s, err cancelled) else elim (find_handle ref.id s.history) [
      | some h ↦
          if not (h.generation == ref.expected_generation)
          then (s, err generation_mismatch)
          else (s, ok h)
      | none ↦ elim (validate s ref) [
        | err e ↦ (s, err e)
        | ok h ↦ close_session (drain s h) a (drained h) terminal
      ]
    ]

-- shutdown: the state in which the actor stops, and whether it is clean.
unfoldable pub shutdown : ActorState → Answers → ActorState × Option ControlError
shutdown s a = elim s.current [
  | none ↦ (s, none)
  | some h ↦
      let closing = close_session (drain s h) a (drained h) HandleState.closed in
      (closing.0, elim closing.1 [ ok done ↦ none | err e ↦ some e ])
]

pub data Command : Type 0 where
  opens : OpenRequest → Command
  snapshots : Ref → Bool → Command
  executes : Ref → String → Bool → Command
  reconnects : Ref → Command
  closes : Ref → HandleState → Command
  expires : Command

unfoldable pub step : ActorState → Command → Answers → ActorState
step s (opens request) a = (open_control s a request).0
step s (snapshots ref touches) a = (snapshot s a ref touches).0
step s (executes ref capability succeeds) a = (execute_in s a ref capability succeeds).0
step s (reconnects ref) a = (reconnect s a ref).0
step s (closes ref terminal) a = (close_control s a ref terminal).0
step s expires a = expire_if_needed s a

unfoldable pub run : ActorState → List (Command × Answers) → ActorState
run s [] = s
run s ((c, a) ∷ rest) = run (step s c a) rest
