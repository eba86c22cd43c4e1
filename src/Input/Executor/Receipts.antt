-- ===== src/Input/Executor/Receipts.antt =====
-- The receipts of the loop of Lease.RunActions, internal/input/executor.go.
use jetkvm_cli.Base.{
  ℕ, suc, ◌≤◌, ◌≡◌, arith, ◌⊎◌, inl, inr, refl, Option, none, some, List, [], ◌∷◌, ok, err,
  Result-cases,
}
use jetkvm_cli.Input.Types.{InputError, CompiledAction, Limits}
use jetkvm_cli.Input.Executor.{
  Env, Session, Observation, ActionStatus, not_started, accepted, failed, ambiguous, Failure,
  execute,
}
use jetkvm_cli.Input.Executor.Safety.{IsStop, Keeps, Keeps-refl, Keeps-trans, execute-IsSafe}
use jetkvm_cli.Input.Executor.Run.{
  ActionReceipt, BatchStatus, batch_accepted, batch_partial, batch_failed, batch_ambiguous,
  Progress, pending, stopped_status, later_observation, run_items,
}

-- Receipts of actions that were not started, in order and under their indices.
abbrev pub NotStarted : ℕ → List CompiledAction → List ActionReceipt → Type 0
NotStarted i [] [] = Unit {0}
NotStarted i (c ∷ cs) (r ∷ rs) =
    (r.index ≡ i)
    × (r.kind ≡ c.kind)
    × (r.status ≡ not_started)
    × (r.error ≡ none)
    × NotStarted (suc i) cs rs
NotStarted i _ _ = ⊥

-- The status of a batch that an action stopped: ambiguous with the action, and otherwise failed at the
-- first action and partial at a later one.
abbrev pub StoppedAs : ActionStatus → ℕ → BatchStatus → Type 0
StoppedAs stopped i status =
    ((stopped ≡ ambiguous) × (status ≡ batch_ambiguous))
    ⊎ ((stopped ≡ failed) × (i ≡ 0) × (status ≡ batch_failed))
    ⊎ ((stopped ≡ failed) × (1 ≤ i) × (status ≡ batch_partial))

-- What the receipts of a list of actions say, from an index on, when these are executed one after the
-- other from session `s`: an action that went through is accepted, without an error, and the next one
-- is executed in the session that it left; the first one that did not bears the status and the error
-- of its execution, which decide the status and the error of the batch, and the rest is not started.
abbrev pub Reported :
    Env
    → Limits
    → ℕ
    → List CompiledAction
    → Session
    → List ActionReceipt
    → BatchStatus
    → List InputError
    → Session
    → Type 0
Reported env limits i [] s [] status errors last =
    (status ≡ batch_accepted) × (errors ≡ []) × (last ≡ s)
Reported env limits i (c ∷ cs) s (r ∷ rs) status errors last =
    (r.index ≡ i)
    × (r.kind ≡ c.kind)
    × (((o : Option Observation) × ((execute env limits c s).1 ≡ ok o)
          × (r.status ≡ accepted)
          × (r.error ≡ none)
          × Reported env limits (suc i) cs (execute env limits c s).0 rs status errors last)
        ⊎ ((f : Failure) × ((execute env limits c s).1 ≡ err f)
            × (r.status ≡ f.status)
            × (r.error ≡ some f.error)
            × (errors ≡ f.error ∷ [])
            × (last ≡ (execute env limits c s).0)
            × StoppedAs f.status i status
            × NotStarted (suc i) cs rs))
Reported env limits i _ s _ status errors last = ⊥

pending-NotStarted : (i : ℕ) (cs : List CompiledAction) → NotStarted i cs (pending i cs)
pending-NotStarted i [] = tt
pending-NotStarted i (c ∷ cs) = (refl, refl, refl, refl, pending-NotStarted (suc i) cs)

stopped_status-StoppedAs :
    (stopped : ActionStatus) (i : ℕ)
    → IsStop stopped
    → StoppedAs stopped i (stopped_status stopped i)
stopped_status-StoppedAs stopped i h = ground arith

abbrev pub IsReported : Env → Limits → ℕ → List CompiledAction → Session → Progress → Type 0
IsReported env limits i items s p =
    Reported env limits i items s p.actions p.status p.errors p.session

-- The loop executes the actions of a batch in order, each in the session that the one before left, up
-- to the first that does not go through, and reports every action, in order and under its index: those
-- whose execution went through as accepted, the one whose execution did not as failed or ambiguous, as
-- that execution says and with its error, and those after it as not started. The batch is accepted
-- when every execution went through, and otherwise ambiguous, failed or partial by the status and the
-- place of the action that stopped it; the session that the last execution left is the loop's.
pub run_items-IsReported :
    (env : Env) (limits : Limits) (i : ℕ) (items : List CompiledAction) (seen : Option Observation)
    (s : Session)
    → IsReported env limits i items s (run_items env limits i items seen s)
unfolding run_items
run_items-IsReported env limits i [] seen s = (refl, refl, refl)
run_items-IsReported env limits i (c ∷ cs) seen s = elim (Result-cases (execute env limits c s).1) [
  | inl (f, stopped) ↦
      let stop = (execute-IsSafe env limits c).stops s in
      rw (stopped, run_items)
        (
          refl,
          refl,
          inr (
            f,
            stopped,
            refl,
            refl,
            refl,
            refl,
            stopped_status-StoppedAs f.status i (rw stopped at stop),
            pending-NotStarted (suc i) cs,
          ),
        )
  | inr (o, passed) ↦
      rw (passed, run_items)
        (
          refl,
          refl,
          inl (
            o,
            passed,
            refl,
            refl,
            run_items-IsReported env limits (suc i) cs (later_observation o seen)
                (execute env limits c s).0,
          ),
        )
]

pub run_items-Keeps :
    (env : Env) (limits : Limits) (i : ℕ) (items : List CompiledAction) (seen : Option Observation)
    (s : Session)
    → Keeps s (run_items env limits i items seen s).session
unfolding run_items
run_items-Keeps env limits i [] seen s = Keeps-refl s
run_items-Keeps env limits i (c ∷ cs) seen s = elim (Result-cases (execute env limits c s).1) [
  | inl (f, stopped) ↦ rw (stopped, run_items) ((execute-IsSafe env limits c).keeps s)
  | inr (o, passed) ↦
      rw (passed, run_items)
        (Keeps-trans ((execute-IsSafe env limits c).keeps s) (
          run_items-Keeps env limits (suc i) cs (later_observation o seen)
            (execute env limits c s).0))
]
