-- ===== src/Control/Actor/Owners.antt =====
-- What the actor of internal/control/actor.go promises its callers, as an automaton that knows one
-- number: the generation that owns the device, or the last one that did.
use jetkvm_cli.Base.{
  ℕ, ◌+◌, ◌≡◌, ◌⊎◌, inl, inr, refl, sym, subst, ◌∙◌, true, Option, none, some, List, arith,
  if◌then◌else◌, Bool-cases,
}
use jetkvm_cli.Control.{
  HandleState, Handle, ActorState, Answers, is_ready, touch, drain, drained, session_closes,
  lock_releases, put_handle, close_session,
}
use jetkvm_cli.Control.Actor.{Command, reopen, replace_session, step, run}
use jetkvm_cli.Control.Actor.Changes.{
  Has, HasNobody, Change, purges, touches, shares, gives_up, starts, shuts, replaces, Changes,
  step-Changes, run-Changes,
}

-- `idle n`: nobody owns the device, and n was the last owner. `owned_by n`: generation n owns it.
-- `stuck n`: the session of n was given up, but could not be closed.
pub data Owner : Type 0 where
  idle owned_by stuck : ℕ → Owner

pub data Move : Owner → Owner → Type 0 where
  start : (n : ℕ) → Move (idle n) (owned_by (n + 1))
  restart : (n : ℕ) → Move (stuck n) (owned_by (n + 1))
  replace : (n : ℕ) → Move (owned_by n) (owned_by (n + 1))
  stop : (n : ℕ) → Move (owned_by n) (idle n)
  stick : (n : ℕ) → Move (owned_by n) (stuck n)

pub data Moves (o : Owner) : Owner → Type 0 where
  here : Moves o o
  next : {p q : Owner} → Moves o p → Move p q → Moves o q

-- The abstraction of a state.
abbrev pub owner_of : Option Handle → ℕ → Owner
owner_of none n = idle n
owner_of (some h) n = if is_ready h.state then owned_by n else stuck n

abbrev pub view : ActorState → Owner
view s = owner_of s.current s.generation

pub Moves-trans : {o p q : Owner} → Moves o p → Moves p q → Moves o q
Moves-trans a here = a
Moves-trans a (next b m) = next (Moves-trans a b) m

pub moved : {o p q : Owner} → Move o p → q ≡ p → Moves o q
moved {o} m e = subst (λ x. Moves o x) (sym e) (next here m)

unmoved : {o q : Owner} → q ≡ o → Moves o q
unmoved {o} e = subst (λ x. Moves o x) (sym e) here

from : {o p q : Owner} → o ≡ p → Moves p q → Moves o q
from {q = q} e m = subst (λ x. Moves x q) (sym e) m

ready_lem : (h : Handle) → h.state ≡ HandleState.ready → is_ready h.state ≡ true
ready_lem h e = simp e refl

pub Has-view : (s : ActorState) (h : Handle) → Has s h → view s ≡ owned_by s.generation
Has-view s h (current, ready) = simp (current, ready_lem h ready) refl

close_session-Moves :
    (s : ActorState) (a : Answers) (h : Handle) (terminal : HandleState)
    → Moves (owned_by s.generation) (view (close_session (drain s h) a (drained h) terminal).0)
unfolding close_session
close_session-Moves s a h terminal = elim (Bool-cases (session_closes s a h)) [
  | inl shut ↦ elim (Bool-cases (lock_releases s a)) [
    | inl freed ↦ rw (shut, freed, close_session) (next here (stop s.generation))
    | inr held ↦ rw (shut, held, close_session) (next here (stick s.generation))
  ]
  | inr alive ↦ rw (alive, close_session) (next here (stick s.generation))
]

reopen-view :
    (s : ActorState) (a : Answers) (h : Handle)
    → s.current ≡ none
    → (view (reopen s a h).0 ≡ idle s.generation)
      ⊎ (view (reopen s a h).0 ≡ owned_by (s.generation + 1))
unfolding reopen
reopen-view s a h current = ground arith

replace_session-Moves :
    (s : ActorState) (a : Answers) (h : Handle)
    → Moves (owned_by s.generation) (view (replace_session s a h).0)
unfolding replace_session
replace_session-Moves s a h = elim (Bool-cases a.close) [
  | inl shut ↦
      let old = record h { state = HandleState.fenced } in
      let s' = record s { history = put_handle old s.history; current = none; session = none } in
      let same : replace_session s a h ≡ reopen s' a old = ground arith in
      elim (reopen-view s' a old refl) [
        | inl out ↦ moved (stop s.generation) (simp same out)
        | inr back ↦ moved (replace s.generation) (simp same back)
      ]
  | inr alive ↦ rw (alive, replace_session) (next here (stick s.generation))
]

touch-view :
    (s : ActorState) (h : Handle) (now : ℕ)
    → h.state ≡ HandleState.ready
    → view (touch s h now) ≡ owned_by s.generation
unfolding touch
touch-view s h now ready = ground arith

HasNobody-view :
    (s : ActorState) → HasNobody s → (view s ≡ idle s.generation) ⊎ (view s ≡ stuck s.generation)
HasNobody-view s (inl nobody) = inl (simp nobody refl)
HasNobody-view s (inr (h, current, out)) = inr (simp (current, out) refl)

pub Change-Moves : {s t : ActorState} → Change s t → Moves (view s) (view t)
unfolding touch
Change-Moves (purges now) = here
Change-Moves {s} (touches h now own) = unmoved (touch-view s h now own.1 ∙ sym (Has-view s h own))
Change-Moves {s} (shares h a request own) = unmoved (simp own.1 (ground arith))
Change-Moves (gives_up free) = here
Change-Moves {s} (starts a request free fresh) = elim (HasNobody-view s free) [
  | inl out ↦ from out (next here (start s.generation))
  | inr out ↦ from out (next here (restart s.generation))
]
Change-Moves {s} (shuts h a terminal own) =
    from (Has-view s h own) (close_session-Moves s a h terminal)
Change-Moves {s} (replaces h a own fresh) = from (Has-view s h own) (replace_session-Moves s a h)

pub Changes-Moves : {s t : ActorState} → Changes s t → Moves (view s) (view t)
Changes-Moves Changes.here = here
Changes-Moves (Changes.next cs c) = Moves-trans (Changes-Moves cs) (Change-Moves c)

-- Whatever a command does, and whatever the clock, the locker and the sessions answer, the owner after
-- it is reached by moves of the automaton; how many moves a command makes is not stated.
pub step-Moves : (s : ActorState) (c : Command) (a : Answers) → Moves (view s) (view (step s c a))
step-Moves s c a = Changes-Moves (step-Changes s c a)

pub run-Moves : (s : ActorState) (cs : List (Command × Answers)) → Moves (view s) (view (run s cs))
run-Moves s cs = Changes-Moves (run-Changes s cs)
