-- ===== src/Control/Actor/Fencing.antt =====
-- Handles of the actor of internal/control/actor.go that were closed or replaced.
use jetkvm_cli.Base.{
  ℕ, ◌+◌, ◌≤◌, ◌<◌, ◌≡◌, ◌⊎◌, inl, inr, refl, sym, subst, String, str_eq, Bool, Option, none, some,
  List, [], ◌∷◌, arith, All, keep_if-All, ok, err, Result-cases, Option-cases, Bool-cases,
}
use jetkvm_cli.Control.{
  ControlError, HandleState, Handle, Ref, ActorState, Answers, OpenAnswer-cases, new_state, touch,
  drain, drained, session_closes, lock_releases, put_handle, find_handle, validate, close_session,
  expire_if_needed, control_busy, cancelled,
}
use jetkvm_cli.Control.Actor.{
  Command, reconnects, closes, reopen, replace_session, reconnect, close_control, execute_in, step,
  run,
}
use jetkvm_cli.Control.Actor.Changes.{
  Has, validate-IsCurrent, Change, purges, touches, shares, gives_up, starts, shuts, replaces,
  Changes, step-Changes, run-Changes, expire_if_needed-Changes,
}
use jetkvm_cli.Control.Actor.Owners.{
  Owner, idle, owned_by, stuck, Move, start, restart, replace, stop, stick, Moves, view, Has-view,
  Change-Moves, Changes-Moves, run-Moves,
}

-- Generation g does not own the device, and never will again.
abbrev pub IsDead : ℕ → Owner → Type 0
IsDead g (idle n) = g ≤ n
IsDead g (stuck n) = g ≤ n
IsDead g (owned_by n) = g < n

Move-IsDead : (g : ℕ) {o p : Owner} → Move o p → IsDead g o → IsDead g p
Move-IsDead g (start n) d = omega arith
Move-IsDead g (restart n) d = omega arith
Move-IsDead g (replace n) d = omega arith
Move-IsDead g (stop n) d = omega arith
Move-IsDead g (stick n) d = omega arith

pub Moves-IsDead : (g : ℕ) {o p : Owner} → Moves o p → IsDead g o → IsDead g p
Moves-IsDead g Moves.here d = d
Moves-IsDead g (Moves.next ms m) d = Move-IsDead g m (Moves-IsDead g ms d)

abbrev CurrentIs : Option Handle → ℕ → Type 0
CurrentIs none n = Unit {0}
CurrentIs (some h) n = h.generation ≡ n

-- The current handle has the actor's generation, and the handles of the history are dead.
pub record IsFenced (s : ActorState) : Type 0 where
  pub current_generation : CurrentIs s.current s.generation
  pub history_dead : All (λ h. IsDead h.generation (view s)) s.history

All-IsDead :
    {o p : Owner} (hs : List Handle)
    → Moves o p
    → All (λ h. IsDead h.generation o) hs
    → All (λ h. IsDead h.generation p) hs
All-IsDead [] m d = tt
All-IsDead (h ∷ hs) m (d, ds) = (Moves-IsDead h.generation m d, All-IsDead hs m ds)

put_handle-IsDead :
    (o : Owner) (h : Handle) (hs : List Handle)
    → IsDead h.generation o
    → All (λ k. IsDead k.generation o) hs
    → All (λ k. IsDead k.generation o) (put_handle h hs)
unfolding put_handle
put_handle-IsDead o h hs d ds = (d, keep_if-All (λ k. IsDead k.generation o) _ hs ds)

pub Has-generation :
    (s : ActorState) (h : Handle) → Has s h → IsFenced s → h.generation ≡ s.generation
Has-generation s h (current, ready) f =
    subst (λ c. CurrentIs c s.generation) current f.current_generation

-- What a close leaves of the history.
pub close_session-history :
    (s : ActorState) (a : Answers) (h : Handle) (terminal : HandleState)
    → h.generation ≡ s.generation
    → let t = (close_session (drain s h) a (drained h) terminal).0 in
      CurrentIs t.current t.generation
      × IsDead s.generation (view t)
      × ((t.history ≡ s.history)
          ⊎ (t.history ≡ put_handle (record h { state = terminal }) s.history))
unfolding close_session
close_session-history s a h terminal e = elim (Bool-cases (session_closes s a h)) [
  | inl shut ↦ elim (Bool-cases (lock_releases s a)) [
    | inl freed ↦ rw (shut, freed, close_session) (tt, omega arith, inr refl)
    | inr held ↦ rw (shut, held, close_session) (e, omega arith, inl refl)
  ]
  | inr alive ↦ rw (alive, close_session) (e, omega arith, inl refl)
]

replace_session-history :
    (s : ActorState) (a : Answers) (h : Handle)
    → h.generation ≡ s.generation
    → let t = (replace_session s a h).0 in
      CurrentIs t.current t.generation
      × IsDead s.generation (view t)
      × (t.history ≡ put_handle (record h { state = HandleState.fenced }) s.history)
unfolding replace_session reopen
replace_session-history s a h e = elim (Bool-cases a.close) [
  | inl shut ↦ elim (OpenAnswer-cases a.open_session) [
    | inl failing ↦ rw (shut, failing, replace_session, reopen) (tt, omega arith, refl)
    | inr (inl empty) ↦ rw (shut, empty, replace_session, reopen) (tt, omega arith, refl)
    | inr (inr back) ↦ rw (shut, back, replace_session, reopen) (refl, omega arith, refl)
  ]
  | inr alive ↦ rw (alive, replace_session) (e, omega arith, refl)
]

-- The history of a change whose handles are dead in the view after it.
Change-IsFenced : {s t : ActorState} → Change s t → IsFenced s → IsFenced t
unfolding touch
Change-IsFenced {s} (purges now) f = record {
  current_generation = f.current_generation;
  history_dead = keep_if-All (λ h. IsDead h.generation (view s)) _ s.history f.history_dead;
}
Change-IsFenced {s} (touches h now own) f = record {
  current_generation = Has-generation s h own f;
  history_dead = All-IsDead s.history (Change-Moves {s = s} (touches h now own)) f.history_dead;
}
Change-IsFenced {s} (shares h a request own) f = record {
  current_generation = Has-generation s h own f;
  history_dead =
      All-IsDead s.history (Change-Moves {s = s} (shares h a request own)) f.history_dead;
}
Change-IsFenced (gives_up free) f = record {
  current_generation = f.current_generation;
  history_dead = f.history_dead;
}
Change-IsFenced {s} (starts a request free fresh) f = record {
  current_generation = refl;
  history_dead =
      All-IsDead s.history (Change-Moves {s = s} (starts a request free fresh)) f.history_dead;
}
Change-IsFenced {s} (shuts h a terminal own) f =
    let c : Change s (close_session (drain s h) a (drained h) terminal).0 =
      shuts h a terminal own in
    let e = Has-generation s h own f in
    let (now, dead, history) = close_session-history s a h terminal e in
    let o = view (close_session (drain s h) a (drained h) terminal).0 in
    let kept = All-IsDead s.history (Change-Moves c) f.history_dead in
    record {
      current_generation = now;
      history_dead = elim history [
        | inl same ↦ simp same kept
        | inr put ↦
            simp put (put_handle-IsDead o _ s.history (subst (λ g. IsDead g o) (sym e) dead) kept)
      ];
    }
Change-IsFenced {s} (replaces h a own fresh) f =
    let c : Change s (replace_session s a h).0 = replaces h a own fresh in
    let e = Has-generation s h own f in
    let (now, dead, history) = replace_session-history s a h e in
    let o = view (replace_session s a h).0 in
    let kept = All-IsDead s.history (Change-Moves c) f.history_dead in
    record {
      current_generation = now;
      history_dead =
          simp history
            (put_handle-IsDead o _ s.history (subst (λ g. IsDead g o) (sym e) dead) kept);
    }

pub Changes-IsFenced : {s t : ActorState} → Changes s t → IsFenced s → IsFenced t
Changes-IsFenced Changes.here f = f
Changes-IsFenced (Changes.next cs c) f = Change-IsFenced c (Changes-IsFenced cs f)

new_state-IsFenced : IsFenced new_state
new_state-IsFenced = record { current_generation = tt; history_dead = tt }

-- After any commands, with any answers, the current handle has the generation of the actor, and no
-- handle of the history has a generation that owns the device or will own it.
pub run-IsFenced : (cs : List (Command × Answers)) → IsFenced (run new_state cs)
run-IsFenced cs = Changes-IsFenced (run-Changes new_state cs) new_state-IsFenced

-- A handle of a dead generation passes no validation.
pub dead-validate :
    (s : ActorState) (ref : Ref)
    → IsFenced s
    → IsDead ref.expected_generation (view s)
    → (e : ControlError) × (validate s ref ≡ err e)
dead-validate s ref f dead = elim (Result-cases (validate s ref)) [
  | inl refused ↦ refused
  | inr (h, good) ↦
      let c = validate-IsCurrent s ref h good in
      let own : Has s h = (c.current, c.is_ready_now) in
      let same = Has-generation s h own f in
      let alive : IsDead ref.expected_generation (owned_by s.generation) =
        subst (λ o. IsDead ref.expected_generation o) (Has-view s h own) dead in
      absurd (omega (arith, alive, same, c.same_generation))
]

pub refused-execute_in :
    (s : ActorState) (a : Answers) (ref : Ref) (capability : String) (succeeds : Bool)
    (e : ControlError)
    → validate (expire_if_needed s a) ref ≡ err e
    → (e' : ControlError) × ((execute_in s a ref capability succeeds).1 ≡ err e')
unfolding execute_in
refused-execute_in s a ref capability succeeds e refused = elim (Bool-cases a.is_draining) [
  | inl never ↦ (control_busy, ground arith)
  | inr on ↦ elim (Bool-cases a.is_cancelled) [
    | inl never ↦ (cancelled, ground arith)
    | inr going ↦ (e, ground arith)
  ]
]

pub dead-execute_in :
    (s : ActorState) (a : Answers) (ref : Ref) (capability : String) (succeeds : Bool)
    → IsFenced s
    → IsDead ref.expected_generation (view s)
    → (e : ControlError) × ((execute_in s a ref capability succeeds).1 ≡ err e)
dead-execute_in s a ref capability succeeds f dead =
    let cs = expire_if_needed-Changes s a in
    let (e, refused) =
      dead-validate (expire_if_needed s a) ref (Changes-IsFenced cs f)
        (Moves-IsDead ref.expected_generation (Changes-Moves cs) dead) in
    refused-execute_in s a ref capability succeeds e refused

find_handle-All {ℓ} :
    (P : Handle → Type ℓ) (id : String) (hs : List Handle) (h : Handle)
    → All P hs
    → find_handle id hs ≡ some h
    → P h
unfolding find_handle
find_handle-All P id [] h ps e = cc
find_handle-All P id (k ∷ hs) h ps e = elim (Bool-cases (str_eq k.id id)) [
  | inl here ↦ subst P (ground arith) ps.0
  | inr later ↦ find_handle-All P id hs h ps.1 (ground arith)
]

-- A command that was answered without an error by closing, or replacing, the handle of a reference.
pub data Ended (s : ActorState) (a : Answers) (ref : Ref) : ActorState → Type 0 where
  replaced : (h : Handle) → (reconnect s a ref).1 ≡ ok h → Ended s a ref (reconnect s a ref).0
  shut_down :
      (terminal : HandleState) (h : Handle)
      → (close_control s a ref terminal).1 ≡ ok h
      → Ended s a ref (close_control s a ref terminal).0

close_session-ok :
    (s : ActorState) (a : Answers) (h k : Handle) (terminal : HandleState)
    → (close_session (drain s h) a (drained h) terminal).1 ≡ ok k
    → view (close_session (drain s h) a (drained h) terminal).0 ≡ idle s.generation
unfolding close_session
close_session-ok s a h k terminal e = ground arith

replace_session-ok :
    (s : ActorState) (a : Answers) (h k : Handle)
    → (replace_session s a h).1 ≡ ok k
    → view (replace_session s a h).0 ≡ owned_by (s.generation + 1)
unfolding replace_session reopen
replace_session-ok s a h k e = ground arith

reconnect-IsDead :
    (s : ActorState) (a : Answers) (ref : Ref) (h : Handle)
    → IsFenced s
    → (reconnect s a ref).1 ≡ ok h
    → IsDead ref.expected_generation (view (reconnect s a ref).0)
unfolding reconnect
reconnect-IsDead s a ref h f e = elim (Result-cases (validate s ref)) [
  | inl (refusal, bad) ↦ ground arith
  | inr (k, good) ↦
      let c = validate-IsCurrent s ref k good in
      let old = Has-generation s k (c.current, c.is_ready_now) f in
      let same : reconnect s a ref ≡ replace_session s a k = ground arith in
      let is_next = replace_session-ok s a k h (subst (λ r. r.1 ≡ ok h) same e) in
      let dead : IsDead ref.expected_generation (owned_by (s.generation + 1)) =
        omega (arith, old, c.same_generation) in
      simp (same, is_next) dead
]

close_control-IsDead :
    (s : ActorState) (a : Answers) (ref : Ref) (terminal : HandleState) (h : Handle)
    → IsFenced s
    → (close_control s a ref terminal).1 ≡ ok h
    → IsDead ref.expected_generation (view (close_control s a ref terminal).0)
unfolding close_control
close_control-IsDead s a ref terminal h f e = elim (Option-cases (find_handle ref.id s.history)) [
  | inl fresh ↦ elim (Result-cases (validate s ref)) [
    | inl (refusal, bad) ↦ ground arith
    | inr (k, good) ↦
        let c = validate-IsCurrent s ref k good in
        let old = Has-generation s k (c.current, c.is_ready_now) f in
        let same : close_control s a ref terminal
            ≡ close_session (drain s k) a (drained k) terminal =
          ground arith in
        let is_out = close_session-ok s a k h terminal (subst (λ r. r.1 ≡ ok h) same e) in
        let dead : IsDead ref.expected_generation (idle s.generation) =
          omega (arith, old, c.same_generation) in
        simp (same, is_out) dead
  ]
  | inr (k, past) ↦
      let dead =
        find_handle-All (λ x. IsDead x.generation (view s)) ref.id s.history k f.history_dead
          past in
      let same : close_control s a ref terminal ≡ (s, ok k) = ground arith in
      let named : k.generation ≡ ref.expected_generation = ground arith in
      simp same (subst (λ g. IsDead g (view s)) named dead)
]

Ended-IsDead :
    {s : ActorState} {a : Answers} {ref : Ref} {t : ActorState}
    → IsFenced s
    → Ended s a ref t
    → IsDead ref.expected_generation (view t)
Ended-IsDead {s} {a = a} {ref = ref} f (replaced h e) = reconnect-IsDead s a ref h f e
Ended-IsDead {s} {a = a} {ref = ref} f (shut_down terminal h e) =
    close_control-IsDead s a ref terminal h f e

Ended-Changes :
    {s : ActorState} {a : Answers} {ref : Ref} {t : ActorState} → Ended s a ref t → Changes s t
unfolding reconnect step
Ended-Changes {s} {a = a} {ref = ref} (replaced h e) = step-Changes s (reconnects ref) a
Ended-Changes {s} {a = a} {ref = ref} (shut_down terminal h e) =
    step-Changes s (closes ref terminal) a

-- Once close or reconnect answered without an error for a reference, no later execute runs a callback
-- for that reference: whatever commands ran before, whatever run in between, and whatever the clock,
-- the locker and the sessions answer.
pub Ended-never_runs :
    (before after : List (Command × Answers)) (a a' : Answers) (ref : Ref) (t : ActorState)
    → Ended (run new_state before) a ref t
    → (capability : String) (succeeds : Bool)
    → (e : ControlError) × ((execute_in (run t after) a' ref capability succeeds).1 ≡ err e)
Ended-never_runs before after a a' ref t ended capability succeeds =
    let f = run-IsFenced before in
    let g = Changes-IsFenced (Ended-Changes ended) f in
    dead-execute_in (run t after) a' ref capability succeeds
      (Changes-IsFenced (run-Changes t after) g)
      (Moves-IsDead ref.expected_generation (run-Moves t after) (Ended-IsDead f ended))
