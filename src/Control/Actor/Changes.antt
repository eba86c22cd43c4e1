-- ===== src/Control/Actor/Changes.antt =====
-- What the commands of the actor of internal/control/actor.go may do to its state: the changes that
-- every invariant is proved for.
use jetkvm_cli.Base.{
  ℕ, ◌≡◌, ◌⊎◌, inl, inr, refl, sym, subst, ap, ◌∙◌, Bool, true, false, ◌&&◌, ◌||◌, none, some, List,
  [], ◌∷◌, arith, str_eq, eq_iff, ok, Result-cases, Option-cases, Bool-cases,
}
use Prim.Native.String.{String}
use jetkvm_cli.Control.{
  HandleState, Handle, Ref, OpenRequest, ActorState, Answers, is_ready, validate, validate_current,
  touch, drain, drained, purge_history, is_expired, close_session, expire_if_needed,
}
use jetkvm_cli.Control.Actor.{
  Command, opens, snapshots, executes, reconnects, closes, expires, is_fresh_id, shared, started,
  without_session, open_shared, open_new, open_unexpired, open_control, snapshot, execute_in,
  replace_session, reconnect, close_control, step, run,
}

abbrev pub HasNobody : ActorState → Type 0
HasNobody s =
    (s.current ≡ none) ⊎ ((h : Handle) × (s.current ≡ some h) × (is_ready h.state ≡ false))

abbrev pub Has : ActorState → Handle → Type 0
Has s h = (s.current ≡ some h) × (h.state ≡ HandleState.ready)

pub data Change (s : ActorState) : ActorState → Type 0 where
  purges : (now : ℕ) → Change s (record s { history = purge_history now s.history })
  touches : (h : Handle) (now : ℕ) → Has s h → Change s (touch s h now)
  shares :
      (h : Handle) (a : Answers) (request : OpenRequest) → Has s h → Change s (shared s a request h)
  gives_up : HasNobody s → Change s (without_session s)
  starts :
      (a : Answers) (request : OpenRequest)
      → HasNobody s
      → is_fresh_id s a.handle_id ≡ true
      → Change s (started s a request)
  shuts :
      (h : Handle) (a : Answers) (terminal : HandleState)
      → Has s h
      → Change s (close_session (drain s h) a (drained h) terminal).0
  replaces :
      (h : Handle) (a : Answers)
      → Has s h
      → is_fresh_id s a.handle_id ≡ true
      → Change s (replace_session s a h).0

pub data Changes (s : ActorState) : ActorState → Type 0 where
  here : Changes s s
  next : {t u : ActorState} → Changes s t → Change t u → Changes s u

Changes-trans : {s t u : ActorState} → Changes s t → Changes t u → Changes s u
Changes-trans a here = a
Changes-trans a (next b c) = next (Changes-trans a b) c

changed : {s t u : ActorState} → Change s t → u ≡ t → Changes s u
changed {s} c e = subst (λ x. Changes s x) (sym e) (next here c)

unchanged : {s u : ActorState} → u ≡ s → Changes s u
unchanged {s} e = subst (λ x. Changes s x) (sym e) here

ready_state : (h : Handle) → is_ready h.state ≡ true → h.state ≡ HandleState.ready
ready_state h e = ground arith

abbrev pub purged : ActorState → Answers → ActorState
purged s a = record s { history = purge_history a.now s.history }

-- The two outcomes of expireIfNeeded: it purges the history, and may close a ready handle too.
pub expire_if_needed-cases :
    (s : ActorState) (a : Answers)
    → (expire_if_needed s a ≡ purged s a)
      ⊎ ((h : Handle) × (s.current ≡ some h)
          × (h.state ≡ HandleState.ready)
          × (is_expired h a.now ≡ true)
          × (expire_if_needed s a
              ≡ (close_session (drain (purged s a) h) a (drained h) HandleState.expired).0))
unfolding expire_if_needed
expire_if_needed-cases s a = elim (Option-cases s.current) [
  | inl nobody ↦ inl (simp (nobody, expire_if_needed) refl)
  | inr (h, current) ↦ elim (Bool-cases (is_ready h.state && is_expired h a.now)) [
    | inl due ↦ inr (
      h,
      current,
      ready_state h (ground arith),
      ground arith,
      simp (current, due, expire_if_needed) refl,
    )
    | inr not_due ↦ inl (simp (current, not_due, expire_if_needed) refl)
  ]
]

pub expire_if_needed-Changes : (s : ActorState) (a : Answers) → Changes s (expire_if_needed s a)
expire_if_needed-Changes s a = elim (expire_if_needed-cases s a) [
  | inl kept ↦ changed (purges a.now) kept
  | inr (h, current, ready, due, shut) ↦
      simp shut (next (next here (purges a.now)) (shuts h a HandleState.expired (current, ready)))
]

-- A handle that passes validation is the current one, ready, and of the generation that was named.
pub record IsCurrent (s : ActorState) (ref : Ref) (h : Handle) : Type 0 where
  pub current : s.current ≡ some h
  pub is_ready_now : h.state ≡ HandleState.ready
  pub same_id : h.id ≡ ref.id
  pub same_generation : h.generation ≡ ref.expected_generation

validate_current-ok :
    (h k : Handle) (ref : Ref)
    → validate_current h ref ≡ ok k
    → (h ≡ k) × (h.state ≡ HandleState.ready) × (h.generation ≡ ref.expected_generation)
unfolding validate_current
validate_current-ok h k ref e = ground arith

pub validate-IsCurrent :
    (s : ActorState) (ref : Ref) (h : Handle) → validate s ref ≡ ok h → IsCurrent s ref h
unfolding validate
validate-IsCurrent s ref h e = elim (Option-cases s.current) [
  | inl nobody ↦ ground arith
  | inr (k, current) ↦ elim (Bool-cases (str_eq k.id ref.id)) [
    | inl same ↦
        let (found, ready, generation) =
          validate_current-ok k h ref (rw (current, same, validate) at e) in
        (record {
          current = current ∙ ap some found;
          is_ready_now = subst (λ x. x.state ≡ HandleState.ready) found ready;
          same_id = subst (λ x. x.id ≡ ref.id) found ((eq_iff k.id ref.id).0 same);
          same_generation = subst (λ x. x.generation ≡ ref.expected_generation) found generation;
        })
    | inr other ↦ ground arith
  ]
]

open_new-Changes :
    (s : ActorState) (a : Answers) (request : OpenRequest)
    → HasNobody s
    → Changes s (open_new s a request).0
unfolding open_new
open_new-Changes s a request free = elim (Bool-cases (is_fresh_id s a.handle_id)) [
  | inl fresh ↦
      let cases : ((open_new s a request).0 ≡ without_session s)
          ⊎ ((open_new s a request).0 ≡ started s a request) =
        ground arith in
      elim cases [
        | inl given_up ↦ changed (gives_up free) given_up
        | inr begun ↦ changed (starts a request free fresh) begun
      ]
  | inr used ↦ unchanged (ground arith)
]

open_shared-Changes :
    (s : ActorState) (a : Answers) (request : OpenRequest) (h : Handle)
    → Has s h
    → Changes s (open_shared s a request h).0
unfolding open_shared
open_shared-Changes s a request h own =
    let cases : ((open_shared s a request h).0 ≡ s)
        ⊎ ((open_shared s a request h).0 ≡ shared s a request h) =
      ground arith in
    elim cases [ inl kept ↦ unchanged kept | inr joined ↦ changed (shares h a request own) joined ]

pub open_unexpired-Changes :
    (s : ActorState) (a : Answers) (request : OpenRequest)
    → Changes s (open_unexpired s a request).0
unfolding open_unexpired
open_unexpired-Changes s a request = elim (Option-cases s.current) [
  | inl nobody ↦
      let same : open_unexpired s a request ≡ open_new s a request =
        simp (nobody, open_unexpired) refl in
      simp same (open_new-Changes s a request (inl nobody))
  | inr (h, current) ↦ elim (Bool-cases (is_ready h.state)) [
    | inl is_open ↦
        let same : open_unexpired s a request ≡ open_shared s a request h =
          simp (current, is_open, open_unexpired) refl in
        simp same (open_shared-Changes s a request h (current, ready_state h is_open))
    | inr out ↦
        let same : open_unexpired s a request ≡ open_new s a request =
          simp (current, out, open_unexpired) refl in
        simp same (open_new-Changes s a request (inr (h, current, out)))
  ]
]

open_control-Changes :
    (s : ActorState) (a : Answers) (request : OpenRequest) → Changes s (open_control s a request).0
unfolding open_control
open_control-Changes s a request = elim (Bool-cases (a.is_draining || a.is_cancelled)) [
  | inl never ↦ unchanged (ground arith)
  | inr runs ↦
      let same : open_control s a request ≡ open_unexpired (expire_if_needed s a) a request =
        ground arith in
      simp same (
        Changes-trans (expire_if_needed-Changes s a)
          (open_unexpired-Changes (expire_if_needed s a) a request))
]

IsCurrent-Has : {s : ActorState} {ref : Ref} {h : Handle} → IsCurrent s ref h → Has s h
IsCurrent-Has c = (c.current, c.is_ready_now)

-- What a snapshot changes after its sweep.
pub snapshot-swept :
    (s : ActorState) (a : Answers) (ref : Ref) (touched : Bool)
    → Changes (expire_if_needed s a) (snapshot s a ref touched).0
unfolding snapshot
snapshot-swept s a ref touched =
    let s' = expire_if_needed s a in
    let m : Changes s' s' = here in
    elim (Result-cases (validate s' ref)) [
      | inl (e, bad) ↦ rw (bad, snapshot) m
      | inr (h, good) ↦ elim (Bool-cases (touched && is_ready h.state)) [
        | inl used ↦
            rw (good, used, snapshot)
              (next m (touches h a.now (IsCurrent-Has (validate-IsCurrent s' ref h good))))
        | inr seen ↦ rw (good, seen, snapshot) m
      ]
    ]

-- What an execute that is not refused at once changes after its sweep.
pub execute_in-swept :
    (s : ActorState) (a : Answers) (ref : Ref) (capability : String) (succeeds : Bool)
    → (a.is_draining || a.is_cancelled) ≡ false
    → Changes (expire_if_needed s a) (execute_in s a ref capability succeeds).0
unfolding execute_in
execute_in-swept s a ref capability succeeds runs =
    let s' = expire_if_needed s a in
    let after = (execute_in s a ref capability succeeds).0 in
    elim (Result-cases (validate s' ref)) [
      | inl (e, bad) ↦ unchanged (ground arith)
      | inr (h, good) ↦
          let cases : (after ≡ s') ⊎ (after ≡ touch s' h a.after_callback) = ground arith in
          elim cases [
            | inl kept ↦ unchanged kept
            | inr used ↦
                changed
                  (touches h a.after_callback (IsCurrent-Has (validate-IsCurrent s' ref h good)))
                  used
          ]
    ]

snapshot-Changes :
    (s : ActorState) (a : Answers) (ref : Ref) (touched : Bool)
    → Changes s (snapshot s a ref touched).0
snapshot-Changes s a ref touched =
    Changes-trans (expire_if_needed-Changes s a) (snapshot-swept s a ref touched)

execute_in-Changes :
    (s : ActorState) (a : Answers) (ref : Ref) (capability : String) (succeeds : Bool)
    → Changes s (execute_in s a ref capability succeeds).0
unfolding execute_in
execute_in-Changes s a ref capability succeeds =
    elim (Bool-cases (a.is_draining || a.is_cancelled)) [
      | inl never ↦ unchanged (ground arith)
      | inr runs ↦
          Changes-trans (expire_if_needed-Changes s a)
            (execute_in-swept s a ref capability succeeds runs)
    ]

reconnect-Changes : (s : ActorState) (a : Answers) (ref : Ref) → Changes s (reconnect s a ref).0
unfolding reconnect
reconnect-Changes s a ref = elim (Result-cases (validate s ref)) [
  | inl (e, bad) ↦ unchanged (ground arith)
  | inr (h, good) ↦
      let cases : ((reconnect s a ref).0 ≡ s)
          ⊎ ((is_fresh_id s a.handle_id ≡ true) × (reconnect s a ref ≡ replace_session s a h)) =
        ground arith in
      elim cases [
        | inl kept ↦ unchanged kept
        | inr (fresh, replaced) ↦
            simp replaced
              (next here (replaces h a (IsCurrent-Has (validate-IsCurrent s ref h good)) fresh))
      ]
]

close_control-Changes :
    (s : ActorState) (a : Answers) (ref : Ref) (terminal : HandleState)
    → Changes s (close_control s a ref terminal).0
unfolding close_control
close_control-Changes s a ref terminal = elim (Result-cases (validate s ref)) [
  | inl (e, bad) ↦ unchanged (ground arith)
  | inr (h, good) ↦
      let cases : ((close_control s a ref terminal).0 ≡ s)
          ⊎ (close_control s a ref terminal ≡ close_session (drain s h) a (drained h) terminal) =
        ground arith in
      elim cases [
        | inl kept ↦ unchanged kept
        | inr closing ↦
            simp closing
              (next here (shuts h a terminal (IsCurrent-Has (validate-IsCurrent s ref h good))))
      ]
]

pub step-Changes : (s : ActorState) (c : Command) (a : Answers) → Changes s (step s c a)
unfolding step
step-Changes s (opens request) a = open_control-Changes s a request
step-Changes s (snapshots ref touched) a = snapshot-Changes s a ref touched
step-Changes s (executes ref capability succeeds) a = execute_in-Changes s a ref capability succeeds
step-Changes s (reconnects ref) a = reconnect-Changes s a ref
step-Changes s (closes ref terminal) a = close_control-Changes s a ref terminal
step-Changes s expires a = expire_if_needed-Changes s a

pub run-Changes : (s : ActorState) (cs : List (Command × Answers)) → Changes s (run s cs)
unfolding run
run-Changes s [] = here
run-Changes s ((c, a) ∷ cs) = Changes-trans (step-Changes s c a) (run-Changes (step s c a) cs)
