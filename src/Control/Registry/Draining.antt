-- ===== src/Control/Registry/Draining.antt =====
-- What Drain of internal/control/control.go leaves of the sessions and the locks.
use jetkvm_cli.Base.{
  ◌≡◌, ◌⊎◌, inl, inr, refl, String, true, false, none, some, List, [], ◌∷◌, arith, All, ok,
}
use jetkvm_cli.Control.{
  Handle, Ref, ActorState, Answers, failed, validate, drain, drained, close_session,
}
use jetkvm_cli.Control.Actor.{is_fresh_id, reopen, replace_session, reconnect, shutdown}
use jetkvm_cli.Control.Actor.Expiry.{IsClean, clean-session_closes, clean-lock_releases}
use jetkvm_cli.Control.Registry.{Registry, shut_actors, perform_drain, is_quiet, quiescent}

-- The actor holds nothing, or has a handle, in whatever state.
abbrev pub Drains : ActorState → Type 0
Drains s = (is_quiet s ≡ true) ⊎ ((h : Handle) × (s.current ≡ some h))

handled-shutdown :
    (s : ActorState) (a : Answers) (h : Handle)
    → IsClean a
    → s.current ≡ some h
    → (is_quiet (shutdown s a).0 ≡ true) × ((shutdown s a).1 ≡ none)
unfolding shutdown close_session is_quiet
handled-shutdown s a h clean current =
    let shut = clean-session_closes (drain s h) a (drained h) clean in
    let freed = clean-lock_releases (drain s h) a clean in
    rw (current, shut, freed, shutdown, close_session) (refl, refl)

quiet-current : (s : ActorState) → is_quiet s ≡ true → s.current ≡ none
unfolding is_quiet
quiet-current s quiet = ground arith

clean-shutdown :
    (s : ActorState) (a : Answers)
    → IsClean a
    → Drains s
    → (is_quiet (shutdown s a).0 ≡ true) × ((shutdown s a).1 ≡ none)
unfolding shutdown
clean-shutdown s a clean (inr (h, current)) = handled-shutdown s a h clean current
clean-shutdown s a clean (inl quiet) = rw (quiet-current s quiet, shutdown) (quiet, refl)

shut_actors-quiescent :
    (answers : String → Answers) (xs : List (String × ActorState))
    → ((d : String) → IsClean (answers d))
    → All (λ x. Drains x.1) xs
    → (quiescent (shut_actors answers xs).0 ≡ true) × ((shut_actors answers xs).1 ≡ [])
unfolding shut_actors quiescent
shut_actors-quiescent answers [] clean ds = (refl, refl)
shut_actors-quiescent answers ((d, s) ∷ xs) clean (p, ps) =
    let (quiet, no_error) = clean-shutdown s (answers d) (clean d) p in
    let (quiets, no_errors) = shut_actors-quiescent answers xs clean ps in
    (simp (quiet, quiets) refl, simp no_error no_errors)

-- When every cleanup succeeds, a drain ends with no error and leaves no session, no lock and no
-- handle, if each actor before it held nothing or had a handle, be it ready, draining or fenced.
pub perform_drain-quiescent :
    (r : Registry) (answers : String → Answers)
    → ((d : String) → IsClean (answers d))
    → All (λ x. Drains x.1) r.actors
    → (quiescent (perform_drain r answers).0.actors ≡ true) × ((perform_drain r answers).1 ≡ [])
unfolding perform_drain
perform_drain-quiescent r answers clean ds = shut_actors-quiescent answers r.actors clean ds

-- A lock can outlive the drain: when a reconnect closes its session, cannot open a new one, and cannot
-- release the lock either, the actor is left with the lock and without a handle, and a shutdown, with
-- any answers, then reports no error and keeps the lock.
pub failed_reopen_keeps_lock :
    (s : ActorState) (a a' : Answers) (ref : Ref) (h : Handle)
    → validate s ref ≡ ok h
    → is_fresh_id s a.handle_id ≡ true
    → s.lock ≡ true
    → a.is_draining ≡ false
    → a.is_cancelled ≡ false
    → a.close ≡ true
    → a.open_session ≡ failed
    → a.unlock ≡ false
    → let t = (reconnect s a ref).0 in
      (t.lock ≡ true) × (t.current ≡ none) × (shutdown t a' ≡ (t, none))
unfolding reconnect replace_session reopen shutdown
failed_reopen_keeps_lock s a a' ref h valid fresh locked on going shut failing held =
    rw (on, going, valid, fresh, shut, failing, locked, held, reconnect, replace_session, reopen)
      (refl, refl, refl)
