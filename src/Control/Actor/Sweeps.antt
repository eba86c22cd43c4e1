-- ===== src/Control/Actor/Sweeps.antt =====
-- The sweep of internal/control/actor.go: expireIfNeeded, which open, snapshot, execute and the actor's
-- own timer run before anything else.
use jetkvm_cli.Base.{◌≡◌, refl, sym, subst, String, Bool, true, false, ◌||◌, some, List, arith, err}
use jetkvm_cli.Control.{
  ControlError, HandleState, Handle, Ref, OpenRequest, ActorState, Answers, new_state, is_ready,
  is_expired, drain, drained, close_session, expire_if_needed,
}
use jetkvm_cli.Control.Actor.{Command, open_control, open_unexpired, snapshot, execute_in, run}
use jetkvm_cli.Control.Actor.Changes.{
  Has, Changes, purged, run-Changes, expire_if_needed-Changes, open_unexpired-Changes,
  snapshot-swept, execute_in-swept,
}
use jetkvm_cli.Control.Actor.Owners.{view, Changes-Moves, run-Moves}
use jetkvm_cli.Control.Actor.Fencing.{
  IsDead, IsFenced, Moves-IsDead, Has-generation, Changes-IsFenced, close_session-history,
  dead-validate, refused-execute_in, dead-execute_in, run-IsFenced,
}
use jetkvm_cli.Control.Actor.Expiry.{ref_of}

pub expired-IsDead :
    (s : ActorState) (a : Answers) (h : Handle)
    → IsFenced s
    → Has s h
    → is_expired h a.now ≡ true
    → IsDead h.generation (view (expire_if_needed s a))
unfolding expire_if_needed
expired-IsDead s a h f (current, ready) over =
    let is_open : is_ready h.state ≡ true = simp ready refl in
    let shut : expire_if_needed s a
        ≡ (close_session (drain (purged s a) h) a (drained h) HandleState.expired).0 =
      simp (current, is_open, over, expire_if_needed) refl in
    let generation = Has-generation s h (current, ready) f in
    let dead = (close_session-history (purged s a) a h HandleState.expired generation).1 in
    let o = view (close_session (drain (purged s a) h) a (drained h) HandleState.expired).0 in
    simp shut (subst (λ g. IsDead g o) (sym generation) dead)

-- A command that sweeps, by what it leaves.
pub data Swept (s : ActorState) (a : Answers) : ActorState → Type 0 where
  by_timer : Swept s a (expire_if_needed s a)
  by_snapshot : (ref : Ref) (touches : Bool) → Swept s a (snapshot s a ref touches).0
  by_open :
      (request : OpenRequest)
      → (a.is_draining || a.is_cancelled) ≡ false
      → Swept s a (open_control s a request).0
  by_execute :
      (ref : Ref) (capability : String) (succeeds : Bool)
      → (a.is_draining || a.is_cancelled) ≡ false
      → Swept s a (execute_in s a ref capability succeeds).0

open_control-swept :
    (s : ActorState) (a : Answers) (request : OpenRequest)
    → (a.is_draining || a.is_cancelled) ≡ false
    → Changes (expire_if_needed s a) (open_control s a request).0
unfolding open_control
open_control-swept s a request runs =
    let same : open_control s a request ≡ open_unexpired (expire_if_needed s a) a request =
      ground arith in
    simp same (open_unexpired-Changes (expire_if_needed s a) a request)

Swept-Changes :
    {s : ActorState} {a : Answers} {t : ActorState} → Swept s a t → Changes (expire_if_needed s a) t
Swept-Changes by_timer = Changes.here
Swept-Changes {s} {a = a} (by_snapshot ref touches) = snapshot-swept s a ref touches
Swept-Changes {s} {a = a} (by_open request runs) = open_control-swept s a request runs
Swept-Changes {s} {a = a} (by_execute ref capability succeeds runs) =
    execute_in-swept s a ref capability succeeds runs

pub expired-execute_in :
    (s : ActorState) (a : Answers) (h : Handle) (capability : String) (succeeds : Bool)
    → IsFenced s
    → Has s h
    → is_expired h a.now ≡ true
    → (e : ControlError) × ((execute_in s a (ref_of h) capability succeeds).1 ≡ err e)
expired-execute_in s a h capability succeeds f own over =
    let g = Changes-IsFenced (expire_if_needed-Changes s a) f in
    let (e, refused) =
      dead-validate (expire_if_needed s a) (ref_of h) g (expired-IsDead s a h f own over) in
    refused-execute_in s a (ref_of h) capability succeeds e refused

-- The first sweep that finds the time of the ready handle over ends it for good. An execute for it at
-- that moment runs no callback; and once any command has swept (the timer, an open or an execute that is
-- not refused at once, or a snapshot), no execute for it runs a callback, whatever commands run in
-- between, and whether or not the cleanup of its session succeeds. This is about the sweep, not about
-- the clock: a callback that is still running when the idle time ends is no sweep, and the touch after
-- it prolongs the handle.
pub expired_never_runs :
    (before after : List (Command × Answers)) (a a' : Answers) (h : Handle) (t : ActorState)
    (capability : String) (succeeds : Bool)
    → (run new_state before).current ≡ some h
    → h.state ≡ HandleState.ready
    → is_expired h a.now ≡ true
    → Swept (run new_state before) a t
    → ((e : ControlError) × ((execute_in (run new_state before) a (ref_of h) capability succeeds).1
          ≡ err e))
      × ((e : ControlError) × ((execute_in (run t after) a' (ref_of h) capability succeeds).1
            ≡ err e))
expired_never_runs before after a a' h t capability succeeds current ready over swept =
    let s = run new_state before in
    let f = run-IsFenced before in
    let changes = Swept-Changes swept in
    let g = Changes-IsFenced changes (Changes-IsFenced (expire_if_needed-Changes s a) f) in
    let dead =
      Moves-IsDead h.generation (Changes-Moves changes)
        (expired-IsDead s a h f (current, ready) over) in
    (
      expired-execute_in s a h capability succeeds f (current, ready) over,
      dead-execute_in (run t after) a' (ref_of h) capability succeeds
          (Changes-IsFenced (run-Changes t after) g)
          (Moves-IsDead h.generation (run-Moves t after) dead),
    )
