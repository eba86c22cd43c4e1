-- ===== src/Control/Actor/Backing.antt =====
-- The session that a callback of execute gets, in internal/control/actor.go.
use jetkvm_cli.Base.{
  ℕ, ◌≡◌, ◌⊎◌, inl, inr, refl, sym, ap, ◌∙◌, String, Bool, true, some, List, arith, ok,
  Result-cases, Bool-cases,
}
use jetkvm_cli.Control.{
  SessionState, HandleState, Handle, Ref, ActorState, Answers, OpenAnswer-cases, new_state, touch,
  drain, drained, session_closes, lock_releases, validate, close_session, expire_if_needed,
}
use jetkvm_cli.Control.Actor.{Command, reopen, replace_session, execute_in, run}
use jetkvm_cli.Control.Actor.Changes.{
  Has, HasNobody, validate-IsCurrent, Change, purges, touches, shares, gives_up, starts, shuts,
  replaces, Changes, run-Changes, expire_if_needed-Changes,
}
use jetkvm_cli.Control.Actor.Owners.{owned_by, view, Has-view}
use jetkvm_cli.Control.Actor.Fencing.{Changes-IsFenced, run-IsFenced, Has-generation}

-- The session of the actor's generation is open under a lock.
pub record IsOpen (s : ActorState) : Type 0 where
  pub own_session : s.session ≡ some s.generation
  pub locked : s.lock ≡ true
  pub is_ready_session : s.session_state ≡ SessionState.ready

abbrev pub IsBacked : ActorState → Type 0
IsBacked s = HasNobody s ⊎ IsOpen s

pub Has-IsOpen : {s : ActorState} {h : Handle} → Has s h → IsBacked s → IsOpen s
Has-IsOpen {s} {h} own (inr is_open) = is_open
Has-IsOpen {s} {h} (current, ready) (inl (inl nobody)) = absurd (grind arith)
Has-IsOpen {s} {h} (current, ready) (inl (inr (k, there, out))) = absurd (grind arith)

close_session-HasNobody :
    (s : ActorState) (a : Answers) (h : Handle) (terminal : HandleState)
    → HasNobody (close_session (drain s h) a (drained h) terminal).0
unfolding close_session
close_session-HasNobody s a h terminal = elim (Bool-cases (session_closes s a h)) [
  | inl shut ↦ elim (Bool-cases (lock_releases s a)) [
    | inl freed ↦ rw (shut, freed, close_session) (inl refl)
    | inr held ↦ rw (shut, held, close_session) (inr (drained h, refl, refl))
  ]
  | inr alive ↦ rw (alive, close_session) (inr (drained h, refl, refl))
]

replace_session-IsBacked :
    (s : ActorState) (a : Answers) (h : Handle) → s.lock ≡ true → IsBacked (replace_session s a h).0
unfolding replace_session reopen
replace_session-IsBacked s a h locked = elim (Bool-cases a.close) [
  | inl shut ↦ elim (OpenAnswer-cases a.open_session) [
    | inl failing ↦ rw (shut, failing, replace_session, reopen) (inl (inl refl))
    | inr (inl empty) ↦ rw (shut, empty, replace_session, reopen) (inl (inl refl))
    | inr (inr back) ↦
        rw (shut, back, replace_session, reopen)
          (inr record { own_session = refl; locked = locked; is_ready_session = refl })
  ]
  | inr alive ↦
      rw (alive, replace_session) (inl (inr (record h { state = HandleState.fenced }, refl, refl)))
]

Change-IsBacked : {s t : ActorState} → Change s t → IsBacked s → IsBacked t
unfolding touch
Change-IsBacked (purges now) (inl free) = inl free
Change-IsBacked (purges now) (inr o) =
    inr record {
      own_session = o.own_session;
      locked = o.locked;
      is_ready_session = o.is_ready_session;
    }
Change-IsBacked (touches h now own) b =
    let o = Has-IsOpen own b in
    inr record {
      own_session = o.own_session;
      locked = o.locked;
      is_ready_session = o.is_ready_session;
    }
Change-IsBacked (shares h a request own) b =
    let o = Has-IsOpen own b in
    inr record {
      own_session = o.own_session;
      locked = o.locked;
      is_ready_session = o.is_ready_session;
    }
Change-IsBacked (gives_up free) b = inl free
Change-IsBacked (starts a request free fresh) b =
    inr record { own_session = refl; locked = refl; is_ready_session = refl }
Change-IsBacked {s} (shuts h a terminal own) b = inl (close_session-HasNobody s a h terminal)
Change-IsBacked {s} (replaces h a own fresh) b =
    replace_session-IsBacked s a h (Has-IsOpen own b).locked

pub Changes-IsBacked : {s t : ActorState} → Changes s t → IsBacked s → IsBacked t
Changes-IsBacked Changes.here b = b
Changes-IsBacked (Changes.next cs c) b = Change-IsBacked c (Changes-IsBacked cs b)

-- After any commands, with any answers, either nobody holds a ready handle, or the session of the
-- actor's generation is ready and the lock is held.
pub run-IsBacked : (cs : List (Command × Answers)) → IsBacked (run new_state cs)
run-IsBacked cs = Changes-IsBacked (run-Changes new_state cs) (inl (inl refl))

-- The command of execute that runs its callback.
execute_in-valid :
    (s : ActorState) (a : Answers) (ref : Ref) (capability : String) (succeeds : Bool) (g : ℕ)
    (b : Bool)
    → (execute_in s a ref capability succeeds).1 ≡ ok (g, b)
    → ((h : Handle) × (validate (expire_if_needed s a) ref ≡ ok h))
      × ((expire_if_needed s a).session ≡ some g)
      × (b ≡ succeeds)
unfolding execute_in
execute_in-valid s a ref capability succeeds g b e =
    elim (Result-cases (validate (expire_if_needed s a) ref)) [
      | inl (refusal, bad) ↦ absurd (ground arith)
      | inr (h, good) ↦ ((h, good), ground arith, ground arith)
    ]

-- After any commands, a callback that execute runs gets the session that was opened for the
-- generation of the caller's reference; that generation owns the device, and the lock is held.
pub execute_in-own_session :
    (cs : List (Command × Answers)) (a : Answers) (ref : Ref) (capability : String)
    (succeeds : Bool) (g : ℕ) (b : Bool)
    → (execute_in (run new_state cs) a ref capability succeeds).1 ≡ ok (g, b)
    → let s = expire_if_needed (run new_state cs) a in
      (g ≡ ref.expected_generation) × (view s ≡ owned_by g) × (s.lock ≡ true) × (b ≡ succeeds)
execute_in-own_session cs a ref capability succeeds g b e =
    let s = run new_state cs in
    let t = expire_if_needed s a in
    let ((h, good), session, same) = execute_in-valid s a ref capability succeeds g b e in
    let c = validate-IsCurrent t ref h good in
    let own : Has t h = (c.current, c.is_ready_now) in
    let o = Has-IsOpen own (Changes-IsBacked (expire_if_needed-Changes s a) (run-IsBacked cs)) in
    let f = Changes-IsFenced (expire_if_needed-Changes s a) (run-IsFenced cs) in
    let generation = Has-generation t h own f in
    let is_g : t.generation ≡ g = ground arith in
    (
      sym is_g ∙ sym generation ∙ c.same_generation,
      Has-view t h own ∙ ap owned_by is_g,
      o.locked,
      same,
    )
