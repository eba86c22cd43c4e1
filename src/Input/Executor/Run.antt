-- ===== src/Input/Executor/Run.antt =====
-- internal/input/executor.go: Lease.RunActions and its receipts, with Lease.Release, Lease.abandon,
-- Manager.neutralize and Manager.RunActions of internal/input/lease.go. A panic of the transport is
-- left out.
use jetkvm_cli.Base.{
  ℕ, suc, Bool, true, false, ◌&&◌, Option, none, some, List, [], ◌∷◌, ◌++◌, ◌==◌, if◌then◌else◌, ok,
  err,
}
use jetkvm_cli.Base.Int.{pos}
use jetkvm_cli.Input.Types.{
  InputError, lease_released, neutralization, Batch, CompiledAction, Limits, Point, ActionType,
}
use jetkvm_cli.Input.Protocol.{keyboard_report, pointer_report, relative_mouse_report}
use jetkvm_cli.Input.Actions.{compile_batch}
use jetkvm_cli.Input.Lease.{
  Manager, acquire, mark_uncertain, begin_release, set_active_cancel, finish_release,
}
use jetkvm_cli.Input.Executor.{
  Env, Session, hid, flush, reliable, Observation, ActionStatus, not_started, accepted, ambiguous,
  attempted, look, check, frame_of, execute,
}

pub data BatchStatus : Type 0 where
  batch_accepted batch_partial batch_failed batch_ambiguous : BatchStatus

pub record ActionReceipt : Type 0 where
  pub index : ℕ
  pub kind : ActionType
  pub status : ActionStatus
  pub error : Option InputError

pub record BatchReceipt : Type 0 where
  pub generation : ℕ
  pub status : BatchStatus
  pub actions : List ActionReceipt
  pub observation : Option Observation
  pub neutralized : Bool

-- What RunActions returns: an error with an empty receipt, or a receipt with the errors joined.
pub data Returned : Type 0 where
  refused : InputError → Returned
  ran : BatchReceipt → List InputError → Returned

unfoldable pub neutral_frames : Point → List (List ℕ)
unfolding frame_of
neutral_frames p =
    frame_of (keyboard_report 0 [])
    ∷ frame_of (pointer_report p.x p.y 0)
    ∷ frame_of (relative_mouse_report (pos 0) (pos 0) 0)
    ∷ []

abbrev pub succeeded : Option InputError → Bool
succeeded none = true
succeeded (some e) = false

-- The frames of a neutralization are all sent, whatever becomes of the ones before.
unfoldable pub send_frames : Env → List (List ℕ) → Session → Session × Bool
send_frames env [] s = (s, true)
send_frames env (f ∷ fs) s =
    let rest = send_frames env fs (attempted (λ g. hid g reliable f) s) in
    (rest.0, succeeded (env.answer s.tick) && rest.1)

unfoldable pub neutralize : Env → Session → Session × Bool
unfolding neutral_frames send_frames
neutralize env s =
    let sent = send_frames env (neutral_frames s.manager.last_pointer) s in
    (attempted flush (sent.0), sent.1 && succeeded (env.answer (sent.0).tick))

-- The part of Lease.Release after beginRelease: the neutralization and finishRelease.
unfoldable pub finish_cleanup : Env → Session → Session × Option InputError
unfolding neutralize mark_uncertain finish_release
finish_cleanup env s =
    let (s', clean) = neutralize env s in
    let m = if clean then s'.manager else mark_uncertain s'.manager in
    (record s' { manager = finish_release m }, if clean then none else some neutralization)

unfoldable pub release : Env → Session → Session × Option InputError
unfolding begin_release
release env s =
    if s.released
    then (s, none)
    else let (m, taken) = begin_release s.manager s.token in
      let s' = record s { released = true; manager = m } in
      if taken then finish_cleanup env s' else (s', some lease_released)

unfoldable pub abandon : Session → Session
unfolding begin_release finish_release
abandon s =
    if s.released
    then s
    else let (m, taken) = begin_release s.manager s.token in
      record s { released = true; manager = if taken then finish_release m else m }

-- The receipts of actions that were not started, from an index on.
abbrev pub pending : ℕ → List CompiledAction → List ActionReceipt
pending index [] = []
pending index (c ∷ cs) =
    record { index = index; kind = c.kind; status = not_started; error = none }
    ∷ pending (suc index) cs

-- The status of a batch that stops at an action.
abbrev pub stopped_status : ActionStatus → ℕ → BatchStatus
stopped_status ambiguous index = batch_ambiguous
stopped_status _ index = if index == 0 then batch_failed else batch_partial

abbrev pub later_observation : Option Observation → Option Observation → Option Observation
later_observation (some o) previous = some o
later_observation none previous = previous

-- What the loop of RunActions leaves: the session, the receipts, the status of the batch, the
-- observation and the error.
pub record Progress : Type 0 where
  pub session : Session
  pub actions : List ActionReceipt
  pub status : BatchStatus
  pub observation : Option Observation
  pub errors : List InputError

unfoldable pub run_items :
    Env → Limits → ℕ → List CompiledAction → Option Observation → Session → Progress
run_items env limits index [] seen s = record {
  session = s;
  actions = [];
  status = batch_accepted;
  observation = seen;
  errors = [];
}
run_items env limits index (c ∷ cs) seen s =
    let rest = λ (o : Option Observation) (s' : Session).
      run_items env limits (suc index) cs (later_observation o seen) s' in
    elim (execute env limits c s).1 [
      | err f ↦ record {
        session = (execute env limits c s).0;
        actions =
            record { index = index; kind = c.kind; status = f.status; error = some f.error }
            ∷ pending (suc index) cs;
        status = stopped_status f.status index;
        observation = seen;
        errors = f.error ∷ [];
      }
      | ok o ↦
          let p = rest o (execute env limits c s).0 in
          record p {
            actions =
                record { index = index; kind = c.kind; status = accepted; error = none }
                ∷ p.actions;
          }
    ]

-- The deferred function of RunActions.
unfoldable pub close_batch : Env → Progress → Session × Returned
unfolding release
close_batch env p =
    let (s, cleanup) = release env p.session in
    let receipt : BatchReceipt = record {
      generation = s.token.generation;
      status = elim cleanup [ none ↦ p.status | some e ↦ batch_ambiguous ];
      actions = p.actions;
      observation = p.observation;
      neutralized = succeeded cleanup;
    } in
    (s, ran receipt (elim cleanup [ none ↦ p.errors | some e ↦ p.errors ++ e ∷ [] ]))

-- The batch from setActiveCancel on.
unfoldable pub start_items : Env → List CompiledAction → Session → Progress
unfolding look set_active_cancel
start_items env items s =
    let s' = look env s in
    elim (set_active_cancel s'.manager s'.token) [
      | err e ↦ record {
        session = s';
        actions = pending 0 items;
        status = batch_accepted;
        observation = none;
        errors = e ∷ [];
      }
      | ok m ↦ run_items env m.limits 0 items none (record s' { manager = m })
    ]

-- Lease.RunActions
unfoldable pub run_actions : Env → Batch → Session → Session × Returned
unfolding look check abandon
run_actions env batch s =
    let s' = look env s in
    elim (check s') [
      | err e ↦ (s', refused e)
      | ok v ↦ elim (compile_batch batch s'.manager.limits s'.token.generation (env.now s'.tick)) [
        | err e ↦ (abandon s', refused e)
        | ok items ↦ close_batch env (start_items env items s')
      ]
    ]

-- Manager.RunActions, from a tick on; the caller is not given the lease.
unfoldable pub manager_run_actions : Env → ℕ → ℕ → Option ℕ → Batch → Manager → Manager × Returned
unfolding acquire run_actions
manager_run_actions env tick expected random batch m = elim (acquire m expected random) [
  | err e ↦ (m, refused e)
  | ok (m', t) ↦
      let s : Session = record {
        manager = m';
        token = t;
        released = false;
        tick = tick;
        log = [];
      } in
      ((run_actions env batch s).0.manager, (run_actions env batch s).1)
]
