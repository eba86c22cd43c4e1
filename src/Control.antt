-- ===== src/Control.antt =====
-- internal/control: the actor that owns the control session of one device. This file has the data of
-- control.go and the methods of actorState in actor.go. A session is named by the generation that it
-- was opened for, a lock is held or nil, and a time is a count of nanoseconds. The device of a handle
-- and of a request is that of its actor, and is left out, as is the timeout of a cleanup.
pub mod Actor
pub mod Registry
mod Tests
use jetkvm_cli.Base.{
  ℕ, ◌+◌, ◌≡◌, ◌⊎◌, inl, inr, refl, min, String, Bool, true, false, not, ◌&&◌, ◌||◌, Option, none,
  some, List, [], ◌∷◌, ltb, leb, ◌==◌, str_eq, contains, keep_if, if◌then◌else◌, Result, ok, err,
}

pub data ControlError : Type 0 where
  invalid_config control_not_found control_expired generation_mismatch control_busy : ControlError
  registry_closed capability_missing cancelled lock_failed open_failed close_failed : ControlError
  unlock_failed callback_failed : ControlError

pub data SessionState : Type 0 where
  absent opening ready draining closing closed uncertain : SessionState

pub data HandleState : Type 0 where
  ready draining expired closed fenced : HandleState

pub data Ownership : Type 0 where
  owned attached : Ownership

pub record Handle : Type 0 where
  pub id : String
  pub generation : ℕ
  pub ownership : Ownership
  pub capabilities : List String
  pub state : HandleState
  pub created_at : ℕ
  pub last_used_at : ℕ
  pub idle_expires_at : ℕ
  pub absolute_expires_at : ℕ

pub record Ref : Type 0 where
  pub id : String
  pub expected_generation : ℕ

pub record OpenRequest : Type 0 where
  pub capabilities : List String
  pub ownership : Ownership
  pub idle_timeout : ℕ
  pub absolute_lifetime : ℕ

-- actorState; `history` is the map by handle ID.
pub record ActorState : Type 0 where
  pub session_state : SessionState
  pub session : Option ℕ
  pub lock : Bool
  pub generation : ℕ
  pub current : Option Handle
  pub history : List Handle
  pub idle_timeout : ℕ

abbrev pub new_state : ActorState
new_state = record {
  session_state = SessionState.absent;
  session = none;
  lock = false;
  generation = 0;
  current = none;
  history = [];
  idle_timeout = 0;
}

pub data LockAnswer : Type 0 where
  granted nil_lock refused : LockAnswer

pub data OpenAnswer : Type 0 where
  opened nil_session failed : OpenAnswer

pub OpenAnswer-cases : (o : OpenAnswer) → (o ≡ failed) ⊎ ((o ≡ nil_session) ⊎ (o ≡ opened))
OpenAnswer-cases failed = inl refl
OpenAnswer-cases nil_session = inr (inl refl)
OpenAnswer-cases opened = inr (inr refl)

-- What the world answers during one command: the clock at its start and after a callback, whether the
-- caller's context is cancelled and the actor drains, a fresh ID, what Locker.Acquire and
-- SessionFactory.Open return, and whether Session.Close, Session.Disconnect, the release of the lock
-- held, and the release of a lock just acquired succeed.
pub record Answers : Type 0 where
  pub now : ℕ
  pub after_callback : ℕ
  pub is_cancelled : Bool
  pub is_draining : Bool
  pub handle_id : String
  pub acquire : LockAnswer
  pub open_session : OpenAnswer
  pub close : Bool
  pub disconnect : Bool
  pub unlock : Bool

abbrev pub is_ready : HandleState → Bool
is_ready HandleState.ready = true
is_ready _ = false

abbrev pub is_owned : Ownership → Bool
is_owned owned = true
is_owned attached = false

abbrev pub same_ownership : Ownership → Ownership → Bool
same_ownership owned o = is_owned o
same_ownership attached o = not (is_owned o)

-- hasCapabilities
unfoldable pub has_capabilities : List String → List String → Bool
has_capabilities available [] = true
has_capabilities available (c ∷ cs) = contains available c && has_capabilities available cs

unfoldable pub find_handle : String → List Handle → Option Handle
find_handle id [] = none
find_handle id (h ∷ hs) = let rest = find_handle id hs in if str_eq h.id id then some h else rest

-- history[handle.ID] = handle
unfoldable pub put_handle : Handle → List Handle → List Handle
put_handle h hs = h ∷ keep_if (λ k. not (str_eq k.id h.id)) hs

-- The `switch` of validate on a handle of the history.
unfoldable pub refuse_historical : Option Handle → Ref → ControlError
refuse_historical none ref = control_not_found
refuse_historical (some h) ref =
    if not (h.generation == ref.expected_generation) then generation_mismatch else elim h.state [
      | HandleState.expired ↦ control_expired
      | HandleState.fenced ↦ generation_mismatch
      | _ ↦ control_not_found
    ]

unfoldable pub validate_current : Handle → Ref → Result ControlError Handle
validate_current h ref =
    if not (h.generation == ref.expected_generation)
    then err generation_mismatch
    else elim h.state [
      | HandleState.expired ↦ err control_expired
      | HandleState.ready ↦ ok h
      | _ ↦ err control_busy
    ]

unfoldable pub validate : ActorState → Ref → Result ControlError Handle
unfolding validate_current refuse_historical
validate s ref = elim s.current [
  | none ↦ err (refuse_historical (find_handle ref.id s.history) ref)
  | some h ↦
      if str_eq h.id ref.id
      then validate_current h ref
      else err (refuse_historical (find_handle ref.id s.history) ref)
]

unfoldable pub touch_handle : Handle → ℕ → ℕ → Handle
touch_handle h now idle = record h {
  last_used_at = now;
  idle_expires_at =
      if ltb h.absolute_expires_at (now + idle) then h.absolute_expires_at else now + idle;
}

-- touch, where a current handle stands.
unfoldable pub touch : ActorState → Handle → ℕ → ActorState
unfolding touch_handle
touch s h now = record s { current = some (touch_handle h now s.idle_timeout) }

-- The start of a close: the current handle and the session are draining.
abbrev pub drained : Handle → Handle
drained h = record h { state = HandleState.draining }

abbrev pub drain : ActorState → Handle → ActorState
drain s h = record s { current = some (drained h); session_state = SessionState.draining }

abbrev pub session_closes : ActorState → Answers → Handle → Bool
session_closes s a h = elim s.session [
  | none ↦ true
  | some g ↦ if is_owned h.ownership then a.close else a.disconnect
]

-- releaseLock: whether it succeeds.
abbrev pub lock_releases : ActorState → Answers → Bool
lock_releases s a = not s.lock || a.unlock

-- closeSession, with `h` the current handle.
unfoldable pub close_session :
    ActorState → Answers → Handle → HandleState → ActorState × Result ControlError Handle
unfolding put_handle
close_session s a h terminal =
    if not (session_closes s a h)
    then (record s { session_state = SessionState.uncertain }, err close_failed)
    else if not (lock_releases s a)
    then (record s { session_state = SessionState.uncertain; session = none }, err unlock_failed)
    else (
      record s {
        session_state = SessionState.closed;
        session = none;
        lock = false;
        current = none;
        history = put_handle (record h { state = terminal }) s.history;
      },
      ok (record h { state = terminal }),
    )

abbrev pub purge_history : ℕ → List Handle → List Handle
purge_history now hs = keep_if (λ h. ltb now h.absolute_expires_at) hs

abbrev pub is_expired : Handle → ℕ → Bool
is_expired h now = not (ltb now h.idle_expires_at && ltb now h.absolute_expires_at)

unfoldable pub expire_if_needed : ActorState → Answers → ActorState
unfolding close_session
expire_if_needed s a =
    let s' = record s { history = purge_history a.now s.history } in
    elim s.current [
      | none ↦ s'
      | some h ↦
          if is_ready h.state && is_expired h a.now
          then (close_session (drain s' h) a (drained h) HandleState.expired).0
          else s'
    ]
