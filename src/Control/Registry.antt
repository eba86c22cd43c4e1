-- ===== src/Control/Registry.antt =====
-- internal/control/control.go: the registry of the actors, one for each device. A registry that was
-- asked to drain refuses new work; Get and Close still reach the actors that have not stopped.
pub mod Capabilities
pub mod Devices
pub mod Draining
use jetkvm_cli.Base.{
  ℕ, ◌*◌, ◌≡◌, String, Bool, true, false, not, ◌&&◌, ◌||◌, Option, none, some, List, [], ◌∷◌, ◌≤◌,
  if◌then◌else◌, str_eq, Result, ok, err, refuse_if, ◌>>=◌, ◌>>◌, is_empty, map,
}
use jetkvm_cli.Base.Int.{ℤ, pos, ltb_ℤ, leb_ℤ, eq_ℤ, pos_part}
use jetkvm_cli.Control.{
  ControlError, invalid_config, control_not_found, registry_closed, SessionState, HandleState,
  Handle, Ref, Ownership, owned, attached, OpenRequest, ActorState, new_state, Answers,
  expire_if_needed,
}
use jetkvm_cli.Control.Actor.{
  Reply, open_control, snapshot, execute_in, reconnect, close_control, shutdown, Command, opens,
  snapshots, executes, reconnects, closes, expires, step,
}
use jetkvm_cli.Control.Registry.Capabilities.{normalize_capabilities}

-- Config; whether there is a factory and a locker stands for these.
pub record Config : Type 0 where
  pub has_factory : Bool
  pub has_locker : Bool
  pub idle_timeout : ℤ
  pub absolute_lifetime : ℤ
  pub sweep_interval : ℤ
  pub cleanup_timeout : ℤ

pub data Phase : Type 0 where
  running draining closed : Phase

pub record Registry : Type 0 where
  pub config : Config
  pub phase : Phase
  pub actors : List (String × ActorState)

pub record RawRequest : Type 0 where
  pub device_id : String
  pub capabilities : List String
  pub ownership : String
  pub idle_timeout : ℤ
  pub absolute_lifetime : ℤ

-- if value == 0 { value = default }
abbrev pub or_default : ℤ → ℤ → ℤ
or_default value default = if eq_ℤ value (pos 0) then default else value

abbrev pub seconds : ℕ → ℤ
seconds n = pos (n * 1000000000)

abbrev pub with_defaults : Config → Config
with_defaults c = record c {
  idle_timeout = or_default c.idle_timeout (seconds 300);
  absolute_lifetime = or_default c.absolute_lifetime (seconds 1800);
  sweep_interval = or_default c.sweep_interval (seconds 1);
  cleanup_timeout = or_default c.cleanup_timeout (seconds 5);
}

abbrev pub empty_registry : Config → Registry
empty_registry c = record { config = c; phase = Phase.running; actors = [] }

unfoldable pub new_registry : Config → Result ControlError Registry
new_registry raw =
    let c = with_defaults raw in
    if not raw.has_factory || not raw.has_locker
    then err invalid_config
    else if leb_ℤ c.idle_timeout (pos 0)
        || leb_ℤ c.absolute_lifetime (pos 0)
        || ltb_ℤ c.absolute_lifetime c.idle_timeout
        || leb_ℤ c.sweep_interval (pos 0)
        || leb_ℤ c.cleanup_timeout (pos 0)
    then err invalid_config
    else ok (empty_registry c)

unfoldable pub parse_ownership : String → Result ControlError Ownership
parse_ownership text =
    if str_eq text "" || str_eq text "owned"
    then ok owned
    else if str_eq text "attached"
    then ok attached
    else err invalid_config

abbrev pub starts_empty : List String → Bool
starts_empty [] = true
starts_empty (c ∷ cs) = str_eq c ""

-- The checks of Open on the lifetimes of a request.
unfoldable pub prepare_lifetimes :
    Config → RawRequest → List String → Ownership → Result ControlError OpenRequest
prepare_lifetimes c raw capabilities ownership =
    let idle = or_default raw.idle_timeout c.idle_timeout in
    let lifetime = or_default raw.absolute_lifetime c.absolute_lifetime in
    if leb_ℤ idle (pos 0) || leb_ℤ lifetime (pos 0) || ltb_ℤ lifetime idle
    then err invalid_config
    else ok record {
      capabilities = capabilities;
      ownership = ownership;
      idle_timeout = pos_part idle;
      absolute_lifetime = pos_part lifetime;
    }

abbrev pub is_running : Phase → Bool
is_running running = true
is_running _ = false

-- Open, up to the actor.
unfoldable pub prepare : Registry → RawRequest → Result ControlError OpenRequest
unfolding normalize_capabilities
prepare r raw =
    let capabilities = normalize_capabilities raw.capabilities in
    refuse_if (str_eq raw.device_id "" || is_empty raw.capabilities) invalid_config
    >> refuse_if (not (is_running r.phase)) registry_closed
    >> refuse_if (starts_empty capabilities) invalid_config
    >> (parse_ownership raw.ownership >>= λ ownership.
        prepare_lifetimes r.config raw capabilities ownership)

unfoldable pub find_actor : String → List (String × ActorState) → Option ActorState
find_actor id [] = none
find_actor id ((d, s) ∷ rest) =
    let found = find_actor id rest in if str_eq d id then some s else found

unfoldable pub put_actor :
    String → ActorState → List (String × ActorState) → List (String × ActorState)
put_actor id s [] = (id, s) ∷ []
put_actor id s ((d, t) ∷ rest) =
    let others = put_actor id s rest in if str_eq d id then (d, s) ∷ rest else (d, t) ∷ others

-- Registry.actor: the actor of a device, a new one where it has none.
abbrev pub actor_or_new : Option ActorState → ActorState
actor_or_new none = new_state
actor_or_new (some s) = s

abbrev pub update : Registry → String → ActorState → Registry
update r id s = record r { actors = put_actor id s r.actors }

unfoldable pub open_device : Registry → RawRequest → Answers → Registry × Result ControlError Handle
open_device r raw a = elim (prepare r raw) [
  | err e ↦ (r, err e)
  | ok request ↦
      let reply = open_control (actor_or_new (find_actor raw.device_id r.actors)) a request in
      (update r raw.device_id reply.0, reply.1)
]

abbrev pub is_stopped : Phase → Bool
is_stopped closed = true
is_stopped _ = false

-- An actor that stopped answers no command.
abbrev pub with_actor {ℓ} :
    {A : Type ℓ}
    → Registry
    → String
    → (ActorState → ActorState × Result ControlError A)
    → Registry × Result ControlError A
with_actor r id command = elim (find_actor id r.actors) [
  | none ↦ (r, err control_not_found)
  | some s ↦
      if is_stopped r.phase
      then (r, err registry_closed)
      else (let reply = command s in (update r id reply.0, reply.1))
]

unfoldable pub get : Registry → String → Ref → Answers → Registry × Result ControlError Handle
get r id ref a = with_actor r id (λ s. snapshot s a ref true)

unfoldable pub execute_on :
    Registry → String → Ref → String → Bool → Answers → Registry × Result ControlError (ℕ × Bool)
execute_on r id ref capability succeeds a =
    if str_eq capability ""
    then (r, err invalid_config)
    else if not (is_running r.phase)
    then (r, err registry_closed)
    else with_actor r id (λ s. execute_in s a ref capability succeeds)

unfoldable pub reconnect_device :
    Registry → String → Ref → Answers → Registry × Result ControlError Handle
reconnect_device r id ref a =
    if not (is_running r.phase)
    then (r, err registry_closed)
    else with_actor r id (λ s. reconnect s a ref)

unfoldable pub close_device :
    Registry → String → Ref → Answers → Registry × Result ControlError Handle
close_device r id ref a = with_actor r id (λ s. close_control s a ref HandleState.closed)

-- One tick of sweep, with what the world answers each actor.
unfoldable pub sweep_actors :
    (String → Answers) → List (String × ActorState) → List (String × ActorState)
sweep_actors answers [] = []
sweep_actors answers ((d, s) ∷ rest) =
    (d, expire_if_needed s (answers d)) ∷ sweep_actors answers rest

unfoldable pub sweep : Registry → (String → Answers) → Registry
sweep r answers =
    if is_running r.phase then record r { actors = sweep_actors answers r.actors } else r

abbrev pub add_error : Option ControlError → List ControlError → List ControlError
add_error none errors = errors
add_error (some e) errors = e ∷ errors

-- performDrain: every actor shuts down; the errors are joined.
unfoldable pub shut_actors :
    (String → Answers) → List (String × ActorState) → List (String × ActorState) × List ControlError
shut_actors answers [] = ([], [])
shut_actors answers ((d, s) ∷ rest) =
    let (states, errors) = shut_actors answers rest in
    let stopped = shutdown s (answers d) in ((d, stopped.0) ∷ states, add_error stopped.1 errors)

abbrev pub start_drain : Registry → Registry
start_drain r = record r { phase = Phase.draining }

unfoldable pub perform_drain : Registry → (String → Answers) → Registry × List ControlError
perform_drain r answers =
    let (states, errors) = shut_actors answers r.actors in
    (record r { phase = Phase.closed; actors = states }, errors)

abbrev pub is_none {ℓ} : {A : Type ℓ} → Option A → Bool
is_none none = true
is_none (some a) = false

-- The query of Quiescent.
unfoldable pub is_quiet : ActorState → Bool
is_quiet s =
    is_none s.session
    && not s.lock
    && is_none s.current
    && elim s.session_state [ SessionState.absent ↦ true | SessionState.closed ↦ true | _ ↦ false ]

unfoldable pub quiescent : List (String × ActorState) → Bool
quiescent [] = true
quiescent ((d, s) ∷ rest) = is_quiet s && quiescent rest

pub data RegistryCall : Type 0 where
  opening : RawRequest → Answers → RegistryCall
  getting : String → Ref → Answers → RegistryCall
  executing : String → Ref → String → Bool → Answers → RegistryCall
  reconnecting : String → Ref → Answers → RegistryCall
  closing : String → Ref → Answers → RegistryCall
  sweeping : (String → Answers) → RegistryCall
  starting_drain : RegistryCall

unfoldable pub registry_step : Registry → RegistryCall → Registry
registry_step r (opening raw a) = (open_device r raw a).0
registry_step r (getting id ref a) = (get r id ref a).0
registry_step r (executing id ref capability succeeds a) =
    (execute_on r id ref capability succeeds a).0
registry_step r (reconnecting id ref a) = (reconnect_device r id ref a).0
registry_step r (closing id ref a) = (close_device r id ref a).0
registry_step r (sweeping answers) = sweep r answers
registry_step r starting_drain = start_drain r

unfoldable pub registry_run : Registry → List RegistryCall → Registry
registry_run r [] = r
registry_run r (c ∷ cs) = registry_run (registry_step r c) cs
