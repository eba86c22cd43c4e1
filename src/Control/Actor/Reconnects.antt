-- ===== src/Control/Actor/Reconnects.antt =====
-- What reconnect of internal/control/actor.go answers for a handle whose time is over, and what close
-- answers after a reconnect that could not close the old session.
use jetkvm_cli.Base.{
  ◌+◌, ◌-◌, ◌<◌, ◌≡◌, refl, subst, String, Bool, true, false, some, List, [], ◌∷◌, arith, ◌==◌,
  eq_iff, ok, err,
}
use jetkvm_cli.Control.{
  ControlError, new_state, has_capabilities, close_failed, SessionState, HandleState, Handle, Ref,
  ActorState, Answers, opened, is_expired, validate, find_handle, put_handle,
}
use jetkvm_cli.Control.Actor.{
  is_fresh_id, new_handle, reopen, replace_session, reconnect, close_control, Command, reconnects,
  execute_in, step, run,
}
use jetkvm_cli.Control.Actor.Changes.{Has, Changes, step-Changes, validate-IsCurrent}
use jetkvm_cli.Control.Actor.Fencing.{Changes-IsFenced, run-IsFenced, Has-generation}
use jetkvm_cli.Control.Actor.Backing.{Changes-IsBacked, run-IsBacked}
use jetkvm_cli.Control.Actor.Expiry.{ref_of, live-validate, live-execute_in}
use jetkvm_cli.Control.Actor.Sweeps.{expired-execute_in}

-- The handle that a reconnect of `h` gives.
abbrev pub replacement : ActorState → Answers → Handle → Handle
replacement s a h =
    new_handle a.handle_id (s.generation + 1) h.ownership h.capabilities a.now s.idle_timeout
      (h.absolute_expires_at - h.created_at)

expired-reconnect :
    (s : ActorState) (a : Answers) (h : Handle)
    → Has s h
    → is_fresh_id s a.handle_id ≡ true
    → a.is_draining ≡ false
    → a.is_cancelled ≡ false
    → a.close ≡ true
    → a.open_session ≡ opened
    → ((reconnect s a (ref_of h)).1 ≡ ok (replacement s a h))
      × ((reconnect s a (ref_of h)).0.current ≡ some (replacement s a h))
unfolding reconnect replace_session reopen
expired-reconnect s a h own fresh on going shut back =
    let valid = live-validate s h own in
    (
      simp (on, going, valid, fresh, shut, back, reconnect, replace_session, reopen) refl,
      simp (on, going, valid, fresh, shut, back, reconnect, replace_session, reopen) refl,
    )

-- Reconnect does not look at the clock. After any commands, for a handle whose time is over but which
-- was not swept yet, an execute is refused; yet at the same moment a reconnect, when the old session
-- closes, a new one opens, the ID is fresh, and the actor neither drains nor has its caller cancelled,
-- exchanges it for a handle of the next generation. For a whole lifetime from then on, and for the
-- actor's idle timeout, an execute for the new handle runs, with a capability that the old one had,
-- if the actor then neither drains nor has its caller cancelled.
pub expired_reconnects :
    (cs : List (Command × Answers)) (a a' : Answers) (h : Handle) (capability : String)
    (succeeds : Bool)
    → (run new_state cs).current ≡ some h
    → h.state ≡ HandleState.ready
    → is_expired h a.now ≡ true
    → is_fresh_id (run new_state cs) a.handle_id ≡ true
    → a.is_draining ≡ false
    → a.is_cancelled ≡ false
    → a.close ≡ true
    → a.open_session ≡ opened
    → a'.now < a.now + (run new_state cs).idle_timeout
    → a'.now < a.now + (h.absolute_expires_at - h.created_at)
    → a'.is_draining ≡ false
    → a'.is_cancelled ≡ false
    → has_capabilities h.capabilities (capability ∷ []) ≡ true
    → let t = (reconnect (run new_state cs) a (ref_of h)).0 in
      ((e : ControlError) × ((execute_in (run new_state cs) a (ref_of h) capability succeeds).1
          ≡ err e))
      × ((n : Handle) × ((reconnect (run new_state cs) a (ref_of h)).1 ≡ ok n)
          × ((execute_in t a' (ref_of n) capability succeeds).1 ≡ ok (h.generation + 1, succeeds)))
unfolding step
expired_reconnects cs a a' h capability succeeds current ready over fresh on going shut back idle
      lifetime on' going' allowed =
    let s = run new_state cs in
    let own : Has s h = (current, ready) in
    let f = run-IsFenced cs in
    let t = (reconnect s a (ref_of h)).0 in
    let n = replacement s a h in
    let (answer, kept) = expired-reconnect s a h own fresh on going shut back in
    let changes : Changes s t = step-Changes s (reconnects (ref_of h)) a in
    let g = Changes-IsFenced changes f in
    let b = Changes-IsBacked changes (run-IsBacked cs) in
    let alive : is_expired n a'.now ≡ false = ground arith in
    let runs =
      live-execute_in t a' n capability succeeds b g (kept, refl) alive on' going' allowed in
    let old = Has-generation s h own f in
    let number : s.generation + 1 ≡ h.generation + 1 = omega (arith, old) in
    (
      expired-execute_in s a h capability succeeds f own over,
      (
        n,
        answer,
        subst (λ x. (execute_in t a' (ref_of n) capability succeeds).1 ≡ ok (x, succeeds)) number
            runs,
      ),
    )

find_handle-put_handle :
    (id : String) (h : Handle) (hs : List Handle)
    → h.id ≡ id
    → find_handle id (put_handle h hs) ≡ some h
unfolding find_handle put_handle
find_handle-put_handle id h hs e = simp ((eq_iff h.id id).1 e, find_handle, put_handle) refl

past-close_control :
    (t : ActorState) (a : Answers) (ref : Ref) (k : Handle) (terminal : HandleState)
    → find_handle ref.id t.history ≡ some k
    → k.generation ≡ ref.expected_generation
    → a.is_cancelled ≡ false
    → close_control t a ref terminal ≡ (t, ok k)
unfolding close_control
past-close_control t a ref k terminal past same going =
    let named : (k.generation == ref.expected_generation) ≡ true = ground arith in
    simp (going, past, named, close_control) refl

-- What a reconnect leaves when the session of the handle does not close.
abbrev pub unclosed : ActorState → Handle → ActorState
unclosed s h =
    let old = record h { state = HandleState.fenced } in
    record s {
      history = put_handle old s.history;
      current = some old;
      session_state = SessionState.uncertain;
    }

unclosed-reconnect :
    (s : ActorState) (a : Answers) (ref : Ref) (h : Handle)
    → validate s ref ≡ ok h
    → is_fresh_id s a.handle_id ≡ true
    → a.is_draining ≡ false
    → a.is_cancelled ≡ false
    → a.close ≡ false
    → reconnect s a ref ≡ (unclosed s h, err close_failed)
unfolding reconnect replace_session
unclosed-reconnect s a ref h valid fresh on going alive =
    simp (on, going, valid, fresh, alive, reconnect, replace_session) refl

-- After a reconnect of a valid reference whose session does not close, close answers without an error
-- for that reference, with the fenced handle, and closes nothing: the session and the lock are those
-- from before the reconnect.
pub unclosed_reads_closed :
    (s : ActorState) (a a' : Answers) (ref : Ref) (h : Handle) (terminal : HandleState)
    → validate s ref ≡ ok h
    → is_fresh_id s a.handle_id ≡ true
    → a.is_draining ≡ false
    → a.is_cancelled ≡ false
    → a.close ≡ false
    → a'.is_cancelled ≡ false
    → let t = (reconnect s a ref).0 in
      ((reconnect s a ref).1 ≡ err close_failed)
      × (close_control t a' ref terminal ≡ (t, ok (record h { state = HandleState.fenced })))
      × (t.session ≡ s.session)
      × (t.lock ≡ s.lock)
unclosed_reads_closed s a a' ref h terminal valid fresh on going alive going' =
    let c = validate-IsCurrent s ref h valid in
    let old = record h { state = HandleState.fenced } in
    let found = find_handle-put_handle ref.id old s.history c.same_id in
    let failing = unclosed-reconnect s a ref h valid fresh on going alive in
    let closing =
      past-close_control (unclosed s h) a' ref old terminal found c.same_generation going' in
    simp failing (refl, closing, refl, refl)
