-- ===== src/Control/Registry/Devices.antt =====
-- The registry of internal/control/control.go as a family of actors: what it adds to an actor, and what
-- keeps the devices apart.
use jetkvm_cli.Base.{
  ◌≤◌, ◌≡◌, ◌⊎◌, inl, inr, refl, sym, subst, ap, ◌∙◌, String, Bool, true, false, not, ◌||◌, some,
  List, [], ◌∷◌, ◌++◌, arith, if◌then◌else◌, str_eq, str_eq_refl, eq_iff, All, Result, ok,
  Bool-cases, Option-cases, Result-cases,
}
use jetkvm_cli.Control.{
  ControlError, HandleState, Ref, Ownership, OpenRequest, ActorState, new_state, Answers,
  expire_if_needed,
}
use jetkvm_cli.Control.Actor.{
  Command, opens, snapshots, executes, reconnects, closes, expires, step, run, snapshot, execute_in,
  reconnect, close_control,
}
use jetkvm_cli.Control.Registry.{
  Config, Registry, RawRequest, parse_ownership, prepare_lifetimes, prepare, is_running, is_stopped,
  find_actor, put_actor, actor_or_new, update, with_actor, open_device, get, execute_on,
  reconnect_device, close_device, sweep_actors, sweep, RegistryCall, opening, getting, executing,
  reconnecting, closing, sweeping, starting_drain, registry_step, registry_run, empty_registry,
}
use jetkvm_cli.Control.Registry.Capabilities.{normalize_capabilities}

-- A command whose request asks for an idle timeout within its lifetime.
abbrev pub IsPaced : Command → Type 0
IsPaced (opens request) = request.idle_timeout ≤ request.absolute_lifetime
IsPaced _ = Unit {0}

abbrev pub ArePaced : List (Command × Answers) → Type 0
ArePaced cs = All (λ c. IsPaced c.0) cs

prepare_lifetimes-IsPaced :
    (c : Config) (raw : RawRequest) (caps : List String) (o : Ownership) (request : OpenRequest)
    → prepare_lifetimes c raw caps o ≡ ok request
    → request.idle_timeout ≤ request.absolute_lifetime
unfolding prepare_lifetimes
prepare_lifetimes-IsPaced c raw caps o request e = ground arith

prepare-IsPaced :
    (r : Registry) (raw : RawRequest) (request : OpenRequest)
    → prepare r raw ≡ ok request
    → request.idle_timeout ≤ request.absolute_lifetime
unfolding prepare
prepare-IsPaced r raw request e = elim (Result-cases (parse_ownership raw.ownership)) [
  | inl (bad, refused) ↦ absurd (ground arith)
  | inr (o, parsed) ↦
      prepare_lifetimes-IsPaced r.config raw (normalize_capabilities raw.capabilities) o request
        (ground arith)
]

find_actor-put_actor :
    (id : String) (s : ActorState) (xs : List (String × ActorState))
    → find_actor id (put_actor id s xs) ≡ some s
unfolding find_actor put_actor
find_actor-put_actor id s [] = simp (str_eq_refl id) refl
find_actor-put_actor id s ((d, t) ∷ xs) = ground (arith, find_actor-put_actor id s xs)

find_actor-put_actor_other :
    (id other : String) (s : ActorState) (xs : List (String × ActorState))
    → str_eq other id ≡ false
    → find_actor id (put_actor other s xs) ≡ find_actor id xs
unfolding find_actor put_actor
find_actor-put_actor_other id other s [] e = simp e refl
find_actor-put_actor_other id other s ((d, t) ∷ xs) e = elim (Bool-cases (str_eq d other)) [
  | inl here ↦
      let same : str_eq d id ≡ false = rw ((eq_iff d other).0 here) e in
      rw (here, put_actor, find_actor, same) refl
  | inr there ↦
      rw (there, put_actor, find_actor)
        (ap (λ f. if str_eq d id then some t else f) (find_actor-put_actor_other id other s xs e))
]

find_actor-sweep_actors :
    (id : String) (answers : String → Answers) (xs : List (String × ActorState))
    → (find_actor id (sweep_actors answers xs) ≡ find_actor id xs)
      ⊎ (find_actor id (sweep_actors answers xs)
          ≡ some (expire_if_needed (actor_or_new (find_actor id xs)) (answers id)))
unfolding find_actor sweep_actors
find_actor-sweep_actors id answers [] = inl refl
find_actor-sweep_actors id answers ((d, s) ∷ xs) = elim (Bool-cases (str_eq d id)) [
  | inl here ↦ rw (here, find_actor, sweep_actors, (eq_iff d id).0 here) (inr refl)
  | inr there ↦ rw (there, find_actor, sweep_actors) (find_actor-sweep_actors id answers xs)
]

-- The actor of a device is not touched, or makes one step.
abbrev Stepped : String → Registry → Registry → Type 0
Stepped id r t =
    (find_actor id t.actors ≡ find_actor id r.actors)
    ⊎ ((c : Command) × (a : Answers) × IsPaced c
        × (find_actor id t.actors ≡ some (step (actor_or_new (find_actor id r.actors)) c a)))

update-Stepped :
    (id d : String) (r : Registry) (c : Command) (a : Answers)
    → IsPaced c
    → Stepped id r (update r d (step (actor_or_new (find_actor d r.actors)) c a))
update-Stepped id d r c a paced =
    let s = step (actor_or_new (find_actor d r.actors)) c a in
    elim (Bool-cases (str_eq d id)) [
      | inl same ↦
          subst (λ e. Stepped e r (update r d s)) ((eq_iff d id).0 same)
            (inr (c, a, paced, find_actor-put_actor d s r.actors))
      | inr other ↦ inl (find_actor-put_actor_other id d s r.actors other)
    ]

untouched : (id : String) (r t : Registry) → t ≡ r → Stepped id r t
untouched id r t e = inl (ap (λ x. find_actor id x.actors) e)

updated :
    (id d : String) (r t : Registry) (c : Command) (a : Answers)
    → IsPaced c
    → t ≡ update r d (step (actor_or_new (find_actor d r.actors)) c a)
    → Stepped id r t
updated id d r t c a paced e = subst (λ x. Stepped id r x) (sym e) (update-Stepped id d r c a paced)

-- A command on an actor that exists, run by the registry.
with_actor-Stepped {ℓ} :
    {A : Type ℓ} (id d : String) (r : Registry) (c : Command) (a : Answers)
    (command : ActorState → ActorState × Result ControlError A)
    → IsPaced c
    → ((s : ActorState) → step s c a ≡ (command s).0)
    → Stepped id r (with_actor r d command).0
with_actor-Stepped id d r c a command paced same =
    let t = (with_actor r d command).0 in
    elim (Option-cases (find_actor d r.actors)) [
      | inl unknown ↦ untouched id r t (simp (with_actor, unknown) refl)
      | inr (s, found) ↦ elim (Bool-cases (is_stopped r.phase)) [
        | inl over ↦ untouched id r t (simp (with_actor, found, over) refl)
        | inr on ↦
            let e : t ≡ update r d (command s).0 = simp (with_actor, found, on) refl in
            let back : step (actor_or_new (find_actor d r.actors)) c a ≡ (command s).0 =
              simp found (same s) in
            updated id d r t c a paced (e ∙ ap (λ x. update r d x) (sym back))
      ]
    ]

open_device-Stepped :
    (id : String) (r : Registry) (raw : RawRequest) (a : Answers)
    → Stepped id r (open_device r raw a).0
unfolding open_device step
open_device-Stepped id r raw a = elim (Result-cases (prepare r raw)) [
  | inl (e, refused) ↦ untouched id r (open_device r raw a).0 (simp (open_device, refused) refl)
  | inr (request, good) ↦
      updated id raw.device_id r (open_device r raw a).0 (opens request) a
        (prepare-IsPaced r raw request good) (simp (open_device, good) refl)
]

execute_on-Stepped :
    (id d : String) (r : Registry) (ref : Ref) (capability : String) (succeeds : Bool) (a : Answers)
    → Stepped id r (execute_on r d ref capability succeeds a).0
unfolding execute_on step
execute_on-Stepped id d r ref capability succeeds a =
    let t = (execute_on r d ref capability succeeds a).0 in
    elim (Bool-cases (str_eq capability "" || not (is_running r.phase))) [
      | inl never ↦ untouched id r t (ground arith)
      | inr runs ↦
          let same : execute_on r d ref capability succeeds a
              ≡ with_actor r d (λ s. execute_in s a ref capability succeeds) =
            ground arith in
          simp same (
            with_actor-Stepped id d r (executes ref capability succeeds) a
              (λ s. execute_in s a ref capability succeeds) tt (λ s. refl))
    ]

reconnect_device-Stepped :
    (id d : String) (r : Registry) (ref : Ref) (a : Answers)
    → Stepped id r (reconnect_device r d ref a).0
unfolding reconnect_device step
reconnect_device-Stepped id d r ref a = elim (Bool-cases (is_running r.phase)) [
  | inr never ↦ untouched id r (reconnect_device r d ref a).0 (ground arith)
  | inl runs ↦
      let same : reconnect_device r d ref a ≡ with_actor r d (λ s. reconnect s a ref) =
        ground arith in
      simp same
        (with_actor-Stepped id d r (reconnects ref) a (λ s. reconnect s a ref) tt (λ s. refl))
]

sweep-Stepped :
    (id : String) (r : Registry) (answers : String → Answers) → Stepped id r (sweep r answers)
unfolding sweep step
sweep-Stepped id r answers = elim (Bool-cases (is_running r.phase)) [
  | inr never ↦ untouched id r (sweep r answers) (ground arith)
  | inl runs ↦
      let same : sweep r answers ≡ record r { actors = sweep_actors answers r.actors } =
        ground arith in
      simp same (elim (find_actor-sweep_actors id answers r.actors) [
        | inl kept ↦ inl kept
        | inr swept ↦ inr (expires, answers id, tt, swept)
      ])
]

registry_step-Stepped :
    (id : String) (r : Registry) (c : RegistryCall) → Stepped id r (registry_step r c)
unfolding registry_step get close_device step
registry_step-Stepped id r (opening raw a) = open_device-Stepped id r raw a
registry_step-Stepped id r (getting d ref a) =
    with_actor-Stepped id d r (snapshots ref true) a (λ s. snapshot s a ref true) tt (λ s. refl)
registry_step-Stepped id r (executing d ref capability succeeds a) =
    execute_on-Stepped id d r ref capability succeeds a
registry_step-Stepped id r (reconnecting d ref a) = reconnect_device-Stepped id d r ref a
registry_step-Stepped id r (closing d ref a) =
    with_actor-Stepped id d r (closes ref HandleState.closed) a
      (λ s. close_control s a ref HandleState.closed) tt (λ s. refl)
registry_step-Stepped id r (sweeping answers) = sweep-Stepped id r answers
registry_step-Stepped id r starting_drain = inl refl

-- The state of an actor that paced commands reach from the start.
abbrev pub IsReached : ActorState → Type 0
IsReached s = (cs : List (Command × Answers)) × ArePaced cs × (s ≡ run new_state cs)

run-append :
    (s : ActorState) (cs ds : List (Command × Answers)) → run s (cs ++ ds) ≡ run (run s cs) ds
unfolding run
run-append s [] ds = refl
run-append s ((c, a) ∷ cs) ds = run-append (step s c a) cs ds

ArePaced-append :
    (cs : List (Command × Answers)) (c : Command × Answers)
    → ArePaced cs
    → IsPaced c.0
    → ArePaced (cs ++ (c ∷ []))
ArePaced-append [] c ps p = (p, tt)
ArePaced-append (d ∷ cs) c (q, qs) p = (q, ArePaced-append cs c qs p)

step-IsReached :
    (s : ActorState) (c : Command) (a : Answers) → IsPaced c → IsReached s → IsReached (step s c a)
unfolding run
step-IsReached s c a p (cs, ps, e) = (
  cs ++ ((c, a) ∷ []),
  ArePaced-append cs (c, a) ps p,
  ap (λ x. step x c a) e ∙ sym (run-append new_state cs ((c, a) ∷ [])),
)

registry_run-IsReached :
    (id : String) (r : Registry) (calls : List RegistryCall)
    → IsReached (actor_or_new (find_actor id r.actors))
    → IsReached (actor_or_new (find_actor id (registry_run r calls).actors))
unfolding registry_run
registry_run-IsReached id r [] h = h
registry_run-IsReached id r (c ∷ calls) h =
    registry_run-IsReached id (registry_step r c) calls (elim (registry_step-Stepped id r c) [
      | inl kept ↦ simp kept h
      | inr (d, a, paced, moved) ↦ simp moved (step-IsReached _ d a paced h)
    ])

-- After any calls, the state of a device's actor is one that some commands reach from the first state,
-- and every request among these asks for an idle timeout within its lifetime; which commands these are
-- is not stated.
pub registry_run-actors :
    (c : Config) (id : String) (calls : List RegistryCall)
    → IsReached (actor_or_new (find_actor id (registry_run (empty_registry c) calls).actors))
unfolding run find_actor
registry_run-actors c id calls = registry_run-IsReached id (empty_registry c) calls first
  where
    first : IsReached (actor_or_new (find_actor id []))
    first = ([], tt, refl)
