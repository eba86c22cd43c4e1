-- ===== src/Control/Actor/Expiry.antt =====
-- How a handle of the actor of internal/control/actor.go lives and ends: what a live handle may do, and
-- what is left of one whose time is over.
use jetkvm_cli.Base.{
  keep_if, ℕ, ◌+◌, ◌<◌, ap, ◌≡◌, inl, inr, refl, sym, subst, String, Bool, true, false, not, none,
  some, List, [], ◌∷◌, arith, ltb, str_eq, eq_iff, ok, err, Bool-cases,
}
use jetkvm_cli.Control.{
  ControlError, SessionState, HandleState, Handle, Ref, OpenRequest, ActorState, Answers, granted,
  opened, new_state, is_ready, is_expired, drain, drained, session_closes, lock_releases,
  put_handle, find_handle, purge_history, validate, validate_current, has_capabilities,
  close_session, expire_if_needed,
}
use jetkvm_cli.Control.Actor.{
  Command, is_fresh_id, can_run, open_control, open_unexpired, open_new, first_handle, started,
  execute_in, run, Reply, opens, step,
}
use jetkvm_cli.Control.Actor.Changes.{Has, Changes, step-Changes, purged}
use jetkvm_cli.Control.Actor.Owners.{view}
use jetkvm_cli.Control.Actor.Fencing.{
  IsDead, IsFenced, Has-generation, Changes-IsFenced, run-IsFenced, dead-execute_in,
}
use jetkvm_cli.Control.Actor.Backing.{IsOpen, IsBacked, Has-IsOpen, run-IsBacked}

-- The reference of a handle.
abbrev pub ref_of : Handle → Ref
ref_of h = record { id = h.id; expected_generation = h.generation }

pub live-validate : (s : ActorState) (h : Handle) → Has s h → validate s (ref_of h) ≡ ok h
unfolding validate validate_current
live-validate s h (current, ready) =
    let same : str_eq h.id h.id ≡ true = (eq_iff h.id h.id).1 refl in
    simp (current, same, ready, validate, validate_current) (ground arith)

live-expire_if_needed :
    (s : ActorState) (a : Answers) (h : Handle)
    → s.current ≡ some h
    → is_expired h a.now ≡ false
    → expire_if_needed s a ≡ purged s a
unfolding expire_if_needed
live-expire_if_needed s a h current alive = elim (Bool-cases (is_ready h.state)) [
  | inl ready ↦ simp (current, ready, alive, expire_if_needed) refl
  | inr other ↦ simp (current, other, expire_if_needed) refl
]

IsOpen-can_run : (s : ActorState) → IsOpen s → can_run s ≡ true
IsOpen-can_run s o = simp (o.is_ready_session, o.own_session, can_run) refl

runs_callback :
    (s : ActorState) (a : Answers) (h : Handle) (capability : String) (succeeds : Bool)
    → Has (expire_if_needed s a) h
    → IsOpen (expire_if_needed s a)
    → a.is_draining ≡ false
    → a.is_cancelled ≡ false
    → has_capabilities h.capabilities (capability ∷ []) ≡ true
    → (execute_in s a (ref_of h) capability succeeds).1
      ≡ ok ((expire_if_needed s a).generation, succeeds)
unfolding execute_in
runs_callback s a h capability succeeds own o on going allowed =
    let valid = live-validate (expire_if_needed s a) h own in
    let can = IsOpen-can_run (expire_if_needed s a) o in
    simp (on, going, valid, allowed, can, o.own_session, execute_in) refl

-- An execute for the current handle, in a state that the commands may lead to.
pub live-execute_in :
    (s : ActorState) (a : Answers) (h : Handle) (capability : String) (succeeds : Bool)
    → IsBacked s
    → IsFenced s
    → Has s h
    → is_expired h a.now ≡ false
    → a.is_draining ≡ false
    → a.is_cancelled ≡ false
    → has_capabilities h.capabilities (capability ∷ []) ≡ true
    → (execute_in s a (ref_of h) capability succeeds).1 ≡ ok (h.generation, succeeds)
live-execute_in s a h capability succeeds b f own alive on going allowed =
    let same = live-expire_if_needed s a h own.0 alive in
    let o = Has-IsOpen own b in
    let kept : IsOpen (purged s a) = record {
      own_session = o.own_session;
      locked = o.locked;
      is_ready_session = o.is_ready_session;
    } in
    let runs =
      runs_callback s a h capability succeeds (simp same own) (simp same kept) on going allowed in
    let generation = Has-generation s h own f in
    let number : (expire_if_needed s a).generation ≡ h.generation = simp same (sym generation) in
    subst (λ g. (execute_in s a (ref_of h) capability succeeds).1 ≡ ok (g, succeeds)) number runs

-- A handle that is ready and not expired can be used: after any commands, an execute for it, with a
-- capability that it has, runs its callback in the session of its generation, unless the actor drains
-- or the caller's context is cancelled. No state of the session or of the lock is in its way.
pub live_handle_runs :
    (cs : List (Command × Answers)) (a : Answers) (h : Handle) (capability : String)
    (succeeds : Bool)
    → (run new_state cs).current ≡ some h
    → h.state ≡ HandleState.ready
    → is_expired h a.now ≡ false
    → a.is_draining ≡ false
    → a.is_cancelled ≡ false
    → has_capabilities h.capabilities (capability ∷ []) ≡ true
    → (execute_in (run new_state cs) a (ref_of h) capability succeeds).1
      ≡ ok (h.generation, succeeds)
live_handle_runs cs a h capability succeeds current ready alive on going allowed =
    live-execute_in (run new_state cs) a h capability succeeds (run-IsBacked cs) (run-IsFenced cs)
      (current, ready) alive on going allowed

-- Every cleanup of these answers succeeds.
pub record IsClean (a : Answers) : Type 0 where
  pub closes_session : a.close ≡ true
  pub disconnects : a.disconnect ≡ true
  pub unlocks : a.unlock ≡ true

pub clean-session_closes :
    (s : ActorState) (a : Answers) (h : Handle) → IsClean a → session_closes s a h ≡ true
clean-session_closes s a h clean =
    let c = clean.closes_session in let d = clean.disconnects in ground arith

pub clean-lock_releases : (s : ActorState) (a : Answers) → IsClean a → lock_releases s a ≡ true
clean-lock_releases s a clean = let u = clean.unlocks in ground arith

-- What expireIfNeeded leaves of a handle whose time is over.
abbrev pub released : ActorState → Answers → Handle → ActorState
released s a h = record s {
  session_state = SessionState.closed;
  session = none;
  lock = false;
  current = none;
  history = put_handle (record h { state = HandleState.expired }) (purge_history a.now s.history);
}

expired-released :
    (s : ActorState) (a : Answers) (h : Handle)
    → Has s h
    → is_expired h a.now ≡ true
    → IsClean a
    → expire_if_needed s a ≡ released s a h
unfolding expire_if_needed close_session
expired-released s a h (current, ready) over clean =
    let shut = clean-session_closes (drain (purged s a) h) a (drained h) clean in
    let freed = clean-lock_releases (drain (purged s a) h) a clean in
    let is_open : is_ready h.state ≡ true = simp ready refl in
    simp (current, is_open, over, shut, freed, expire_if_needed, close_session) refl

find_handle-keep_if :
    (id : String) (p : Handle → Bool) (hs : List Handle)
    → find_handle id hs ≡ none
    → find_handle id (keep_if p hs) ≡ none
unfolding find_handle
find_handle-keep_if id p [] e = refl
find_handle-keep_if id p (k ∷ hs) e = elim (Bool-cases (str_eq k.id id)) [
  | inl here ↦ absurd (ground arith)
  | inr other ↦
      let rest : find_handle id hs ≡ none = ground arith in
      let done = find_handle-keep_if id p hs rest in
      elim (Bool-cases (p k)) [
        | inl kept ↦ rw (kept, find_handle, other) done
        | inr dropped ↦ rw dropped done
      ]
]

is_fresh_id-released :
    (s : ActorState) (a : Answers) (h : Handle)
    → s.current ≡ some h
    → is_fresh_id s a.handle_id ≡ true
    → is_fresh_id (released s a h) a.handle_id ≡ true
unfolding is_fresh_id find_handle put_handle
is_fresh_id-released s a h current fresh =
    let named : str_eq a.handle_id "" ≡ false = ground arith in
    let other : str_eq h.id a.handle_id ≡ false = ground arith in
    let absent : find_handle a.handle_id s.history ≡ none = ground arith in
    let purged_absent =
      find_handle-keep_if a.handle_id (λ k. ltb a.now k.absolute_expires_at) s.history absent in
    let put_absent =
      find_handle-keep_if a.handle_id (λ k. not (str_eq k.id h.id)) (purge_history a.now s.history)
        purged_absent in
    simp (named, other, put_absent, find_handle) refl

-- What an open that starts a session leaves, and answers with: the handle `n` of generation g.
pub record IsStarted (g : ℕ) (a : Answers) (request : OpenRequest) (t : ActorState) (n : Handle)
    : Type 0 where
  pub session : t.session ≡ some g
  pub session_state : t.session_state ≡ SessionState.ready
  pub lock : t.lock ≡ true
  pub generation : t.generation ≡ g
  pub current : t.current ≡ some n
  pub handle_state : n.state ≡ HandleState.ready
  pub handle_id : n.id ≡ a.handle_id
  pub handle_generation : n.generation ≡ g
  pub ownership : n.ownership ≡ request.ownership
  pub capabilities : n.capabilities ≡ request.capabilities
  pub idle_expires_at : n.idle_expires_at ≡ a.now + request.idle_timeout
  pub absolute_expires_at : n.absolute_expires_at ≡ a.now + request.absolute_lifetime

makes_way :
    (s : ActorState) (a : Answers) (h : Handle) (request : OpenRequest)
    → Has s h
    → is_expired h a.now ≡ true
    → IsClean a
    → a.is_draining ≡ false
    → a.is_cancelled ≡ false
    → is_fresh_id s a.handle_id ≡ true
    → a.acquire ≡ granted
    → a.open_session ≡ opened
    → open_control s a request
      ≡ (started (released s a h) a request, ok (first_handle (released s a h) a request))
unfolding open_control open_unexpired open_new
makes_way s a h request (current, ready) over clean on going fresh lock session =
    let gone = expired-released s a h (current, ready) over clean in
    let free = is_fresh_id-released s a h current fresh in
    simp (on, going, gone, free, lock, session, open_control, open_unexpired, open_new) refl

-- A device is not held for ever. After any commands, when the time of the handle that is ready is over
-- and its cleanup succeeds, the next open, for any request, opens a session of the next generation
-- under the lock and answers with its handle, if the locker grants the lock, the session opens, and the
-- new ID is fresh. Before the end of the new handle's time an execute for it runs its callback in the
-- new session, if the actor then neither drains nor has its caller cancelled and the request asked for
-- the capability; an execute for the old handle is refused.
pub expired_makes_way :
    (cs : List (Command × Answers)) (a a' : Answers) (h : Handle) (request : OpenRequest)
    (capability : String) (succeeds : Bool)
    → (run new_state cs).current ≡ some h
    → h.state ≡ HandleState.ready
    → is_expired h a.now ≡ true
    → IsClean a
    → a.is_draining ≡ false
    → a.is_cancelled ≡ false
    → is_fresh_id (run new_state cs) a.handle_id ≡ true
    → a.acquire ≡ granted
    → a.open_session ≡ opened
    → a'.now < a.now + request.idle_timeout
    → a'.now < a.now + request.absolute_lifetime
    → a'.is_draining ≡ false
    → a'.is_cancelled ≡ false
    → has_capabilities request.capabilities (capability ∷ []) ≡ true
    → (t : ActorState) × (n : Handle) × (open_control (run new_state cs) a request ≡ (t, ok n))
      × IsStarted (h.generation + 1) a request t n
      × ((execute_in t a' (ref_of n) capability succeeds).1 ≡ ok (h.generation + 1, succeeds))
      × ((e : ControlError) × ((execute_in t a' (ref_of h) capability succeeds).1 ≡ err e))
unfolding step
expired_makes_way cs a a' h request capability succeeds current ready over clean on going fresh lock
      session idle lifetime on' going' allowed =
    let s = run new_state cs in
    let f = run-IsFenced cs in
    let t = started (released s a h) a request in
    let n = first_handle (released s a h) a request in
    let made = makes_way s a h request (current, ready) over clean on going fresh lock session in
    let old : h.generation ≡ s.generation = Has-generation s h (current, ready) f in
    let number : s.generation + 1 ≡ h.generation + 1 = omega (arith, old) in
    let changes : Changes s t =
      subst (λ (r : Reply). Changes s r.0) made (step-Changes s (opens request) a) in
    let g = Changes-IsFenced changes f in
    let is_open : IsOpen t = record {
      own_session = refl;
      locked = refl;
      is_ready_session = refl;
    } in
    let alive : is_expired n a'.now ≡ false = ground arith in
    let runs =
      live-execute_in t a' n capability succeeds (inr is_open) g (refl, refl) alive on' going'
        allowed in
    let dead : IsDead h.generation (view t) = omega (arith, old) in
    (
      t,
      n,
      made,
      record {
        session = ap some number;
        session_state = refl;
        lock = refl;
        generation = number;
        current = refl;
        handle_state = refl;
        handle_id = refl;
        handle_generation = number;
        ownership = refl;
        capabilities = refl;
        idle_expires_at = refl;
        absolute_expires_at = refl;
      },
      subst (λ x. (execute_in t a' (ref_of n) capability succeeds).1 ≡ ok (x, succeeds)) number
          runs,
      dead-execute_in t a' (ref_of h) capability succeeds g dead,
    )
