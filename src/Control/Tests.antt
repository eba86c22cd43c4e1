-- ===== src/Control/Tests.antt =====
-- Runs of the actor and the registry of internal/control at concrete inputs.
use jetkvm_cli.Base.{
  arith, ℕ, ◌+◌, ◌≡◌, inr, refl, String, true, false, none, some, List, [], ◌∷◌, ok, err,
}
use jetkvm_cli.Base.Int.{pos}
use jetkvm_cli.Control.{
  ControlError, close_failed, HandleState, Handle, Ref, owned, OpenRequest, ActorState, Answers,
  granted, opened, failed, new_state, validate, has_capabilities, find_handle, close_session,
  expire_if_needed, touch,
}
use jetkvm_cli.Control.Actor.{
  Command, opens, open_control, open_unexpired, open_new, started, first_handle, is_fresh_id,
  execute_in, reconnect, close_control, shutdown, step, run,
}
use jetkvm_cli.Control.Actor.Owners.{owned_by, view}
use jetkvm_cli.Control.Actor.Fencing.{Ended, shut_down, Ended-never_runs}
use jetkvm_cli.Control.Actor.Backing.{execute_in-own_session}
use jetkvm_cli.Control.Actor.Expiry.{
  IsClean, ref_of, IsStarted, live_handle_runs, expired_makes_way,
}
use jetkvm_cli.Control.Actor.Sweeps.{by_timer, expired_never_runs}
use jetkvm_cli.Control.Actor.Reconnects.{expired_reconnects, unclosed_reads_closed}
use jetkvm_cli.Control.Registry.{
  Config, Registry, RawRequest, opening, executing, sweeping, empty_registry, prepare,
  prepare_lifetimes, parse_ownership, perform_drain, quiescent, RegistryCall,
}
use jetkvm_cli.Control.Registry.Capabilities.{insert_text, normalize_capabilities}
use jetkvm_cli.Control.Registry.Draining.{perform_drain-quiescent, failed_reopen_keeps_lock}

abbrev request : OpenRequest
request = record {
  capabilities = "input" ∷ [];
  ownership = owned;
  idle_timeout = 100;
  absolute_lifetime = 1000;
}

abbrev at : ℕ → String → Answers
at now id = record {
  now = now;
  after_callback = now + 5;
  is_cancelled = false;
  is_draining = false;
  handle_id = id;
  acquire = granted;
  open_session = opened;
  close = true;
  disconnect = true;
  unlock = true;
}

abbrev opening_once : List (Command × Answers)
opening_once = (opens request, at 10 "ctl_a") ∷ []

abbrev ref_a : Ref
ref_a = record { id = "ctl_a"; expected_generation = 1 }

abbrev opened_once : ActorState
opened_once = started new_state (at 10 "ctl_a") request

abbrev handle_a : Handle
handle_a = first_handle new_state (at 10 "ctl_a") request

opened_once_lem : run new_state opening_once ≡ opened_once
unfolding run step open_control open_unexpired open_new expire_if_needed is_fresh_id find_handle
opened_once_lem = refl

closed_once :
    Ended
      (run new_state opening_once)
      (at 20 "ctl_x")
      ref_a
      (close_control (run new_state opening_once) (at 20 "ctl_x") ref_a HandleState.closed).0
unfolding run step open_control open_unexpired open_new expire_if_needed is_fresh_id find_handle
    close_control close_session validate
closed_once = shut_down HandleState.closed (record handle_a { state = HandleState.closed }) refl

Ended-never_runs_example :
    (e : ControlError) × ((execute_in
        (run
          (close_control (run new_state opening_once) (at 20 "ctl_x") ref_a HandleState.closed).0
          ((opens request, at 30 "ctl_b") ∷ []))
        (at 40 "ctl_y")
        ref_a
        "input"
        true).1
      ≡ err e)
Ended-never_runs_example =
    Ended-never_runs opening_once ((opens request, at 30 "ctl_b") ∷ []) (at 20 "ctl_x")
      (at 40 "ctl_y") ref_a
      (close_control (run new_state opening_once) (at 20 "ctl_x") ref_a HandleState.closed).0
      closed_once "input" true

ran_once :
    (execute_in (run new_state opening_once) (at 20 "ctl_x") ref_a "input" true).1 ≡ ok (1, true)
unfolding run step open_control open_unexpired open_new expire_if_needed is_fresh_id find_handle
    execute_in validate has_capabilities touch
ran_once = refl

execute_in-own_session_example :
    let s = expire_if_needed (run new_state opening_once) (at 20 "ctl_x") in
    (ref_a.expected_generation ≡ ref_a.expected_generation)
    × (view s ≡ owned_by 1)
    × (s.lock ≡ true)
    × (true ≡ true)
execute_in-own_session_example =
    execute_in-own_session opening_once (at 20 "ctl_x") ref_a "input" true 1 true ran_once

current_once : (run new_state opening_once).current ≡ some handle_a
unfolding run step open_control open_unexpired open_new expire_if_needed is_fresh_id find_handle
current_once = refl

may_input : has_capabilities handle_a.capabilities ("input" ∷ []) ≡ true
unfolding has_capabilities
may_input = refl

live_handle_runs_example :
    (execute_in (run new_state opening_once) (at 20 "ctl_x") (ref_of handle_a) "input" false).1
    ≡ ok (1, false)
live_handle_runs_example =
    live_handle_runs opening_once (at 20 "ctl_x") handle_a "input" false current_once refl refl refl
      refl may_input

at-IsClean : (now : ℕ) (id : String) → IsClean (at now id)
at-IsClean now id = record { closes_session = refl; disconnects = refl; unlocks = refl }

fresh_b : is_fresh_id opened_once "ctl_b" ≡ true
unfolding is_fresh_id find_handle
fresh_b = refl

fresh_after : is_fresh_id (run new_state opening_once) "ctl_b" ≡ true
unfolding run step open_control open_unexpired open_new expire_if_needed is_fresh_id find_handle
fresh_after = refl

idle_after : (run new_state opening_once).idle_timeout ≡ 100
unfolding run step open_control open_unexpired open_new expire_if_needed is_fresh_id find_handle
idle_after = refl

expired_makes_way_example :
    (t : ActorState) × (n : Handle) × (open_control
        (run new_state opening_once)
        (at 200 "ctl_b")
        request
      ≡ (t, ok n))
    × IsStarted 2 (at 200 "ctl_b") request t n
    × ((execute_in t (at 250 "ctl_x") (ref_of n) "input" true).1 ≡ ok (2, true))
    × ((e : ControlError) × ((execute_in t (at 250 "ctl_x") (ref_of handle_a) "input" true).1
          ≡ err e))
expired_makes_way_example =
    expired_makes_way opening_once (at 200 "ctl_b") (at 250 "ctl_x") handle_a request "input" true
      current_once refl refl (at-IsClean 200 "ctl_b") refl refl fresh_after refl refl (omega arith)
      (omega arith) refl refl may_input

-- The sweep of the timer closes the expired handle, and a later execute for it is refused.
expired_never_runs_example :
    ((e : ControlError) × ((execute_in
          (run new_state opening_once)
          (at 200 "ctl_x")
          (ref_of handle_a)
          "input"
          true).1
        ≡ err e))
    × ((e : ControlError) × ((execute_in
            (run
              (expire_if_needed (run new_state opening_once) (at 200 "ctl_x"))
              ((opens request, at 210 "ctl_b") ∷ []))
            (at 220 "ctl_y")
            (ref_of handle_a)
            "input"
            true).1
          ≡ err e))
expired_never_runs_example =
    expired_never_runs opening_once ((opens request, at 210 "ctl_b") ∷ []) (at 200 "ctl_x")
      (at 220 "ctl_y") handle_a (expire_if_needed (run new_state opening_once) (at 200 "ctl_x"))
      "input" true current_once refl refl by_timer

expired_reconnects_example :
    let t = (reconnect (run new_state opening_once) (at 200 "ctl_b") (ref_of handle_a)).0 in
    ((e : ControlError) × ((execute_in
          (run new_state opening_once)
          (at 200 "ctl_b")
          (ref_of handle_a)
          "input"
          true).1
        ≡ err e))
    × ((n : Handle) × ((reconnect (run new_state opening_once) (at 200 "ctl_b") (ref_of handle_a)).1
          ≡ ok n)
        × ((execute_in t (at 250 "ctl_x") (ref_of n) "input" true).1 ≡ ok (2, true)))
expired_reconnects_example =
    expired_reconnects opening_once (at 200 "ctl_b") (at 250 "ctl_x") handle_a "input" true
      current_once refl refl fresh_after refl refl refl refl (omega (arith, idle_after))
      (omega arith) refl refl may_input

abbrev close_fails : Answers
close_fails = record (at 20 "ctl_b") { close = false }

valid_a : validate opened_once ref_a ≡ ok handle_a
unfolding validate
valid_a = refl

unclosed_reads_closed_example :
    let t = (reconnect opened_once close_fails ref_a).0 in
    ((reconnect opened_once close_fails ref_a).1 ≡ err close_failed)
    × (close_control t (at 30 "ctl_x") ref_a HandleState.closed
        ≡ (t, ok (record handle_a { state = HandleState.fenced })))
    × (t.session ≡ some 1)
    × (t.lock ≡ true)
unclosed_reads_closed_example =
    unclosed_reads_closed opened_once close_fails (at 30 "ctl_x") ref_a handle_a HandleState.closed
      valid_a fresh_b refl refl refl refl

abbrev reopen_fails : Answers
reopen_fails = record (at 20 "ctl_b") { open_session = failed; unlock = false }

failed_reopen_keeps_lock_example :
    let t = (reconnect opened_once reopen_fails ref_a).0 in
    (t.lock ≡ true) × (t.current ≡ none) × (shutdown t (at 30 "ctl_x") ≡ (t, none))
failed_reopen_keeps_lock_example =
    failed_reopen_keeps_lock opened_once reopen_fails (at 30 "ctl_x") ref_a handle_a valid_a fresh_b
      refl refl refl refl refl refl

abbrev config : Config
config = record {
  has_factory = true;
  has_locker = true;
  idle_timeout = pos 100;
  absolute_lifetime = pos 1000;
  sweep_interval = pos 1;
  cleanup_timeout = pos 5;
}

abbrev raw_request : RawRequest
raw_request = record {
  device_id = "den";
  capabilities = "power" ∷ "input" ∷ "power" ∷ [];
  ownership = "";
  idle_timeout = pos 0;
  absolute_lifetime = pos 50;
}

abbrev calls : List RegistryCall
calls =
    opening (record raw_request { absolute_lifetime = pos 0 }) (at 10 "ctl_a")
    ∷ executing "den" ref_a "power" true (at 20 "")
    ∷ sweeping (λ d. at 400 "")
    ∷ []

-- The idle timeout of the configuration is longer than the lifetime that is asked for.
short_lifetime_refused :
    prepare (empty_registry config) raw_request ≡ err ControlError.invalid_config
unfolding prepare prepare_lifetimes parse_ownership normalize_capabilities insert_text
short_lifetime_refused = refl

abbrev one_device : Registry
one_device = record (empty_registry config) { actors = ("den", opened_once) ∷ [] }

perform_drain-quiescent_example :
    (quiescent (perform_drain one_device (λ d. at 50 "")).0.actors ≡ true)
    × ((perform_drain one_device (λ d. at 50 "")).1 ≡ [])
perform_drain-quiescent_example =
    perform_drain-quiescent one_device (λ d. at 50 "") (λ d. at-IsClean 50 "")
      (inr (handle_a, refl), tt)
