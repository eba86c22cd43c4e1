-- ===== src/Input/RunTests.antt =====
-- Runs of a batch under a lease: one that fails in the middle, and one that is fenced at its start.
use jetkvm_cli.Base.{
  ℕ, ◌≡◌, ◌⊎◌, refl, true, false, none, some, [], ◌∷◌, arith, ◌==◌, if◌then◌else◌, ok, err,
}
use jetkvm_cli.Base.Int.{pos}
use jetkvm_cli.Input.Types.{
  InputError, input_uncertain, lease_busy, transport_failed, default_limits,
}
use jetkvm_cli.Input.Protocol.{pointer_report, put_uint32}
use jetkvm_cli.Input.Lease.{
  Manager, acquire, validate_token, fence, remember_pointer, mark_uncertain, begin_reconcile,
  begin_advance, finish_release, finish_reconcile, finish_advance,
}
use jetkvm_cli.Input.Lease.Latch.{here, next, finishes, fence_latches}
use jetkvm_cli.Input.Actions.Ready.{IsReady}
use jetkvm_cli.Input.Executor.{
  Env, Session, deadline, ambiguous, Failure, ◌>>◌, look, check, ensure_valid, interact, remember,
  send_hid, with_frame, send_pointer, click_at, check_expiry, execute_kind, execute,
}
use jetkvm_cli.Input.Executor.Receipts.{IsReported, run_items-IsReported}
use jetkvm_cli.Input.Executor.Leak.{Later, reconciles, advances, leaked, manager_run_actions-leaks}
use jetkvm_cli.Input.Executor.Retry.{input_of, execute_failed_sent_nothing}
use jetkvm_cli.Input.Executor.Run.{refused, run_items, manager_run_actions}
use jetkvm_cli.Input.Tests.{batch, click_item, wait_item}

-- The transport fails at one tick, and another goroutine fences the manager at another.
abbrev env_with : ℕ → ℕ → Env
env_with failing fenced = record {
  fences = λ tick. tick == fenced;
  answer = λ tick. if tick == failing then some transport_failed else none;
  now = λ tick. 2000;
  has_observer = false;
  observation = λ tick. record { id = ""; generation = 0 };
  hold_ticks = λ tick. [];
  hold_end = λ tick. deadline;
}

abbrev idle_manager : Manager
idle_manager = record {
  generation = 3;
  active = 0;
  has_cancel = false;
  lease_held = false;
  uncertain = false;
  limits = default_limits;
  last_pointer = record { x = pos 0; y = pos 0 };
}

abbrev leased : Session
leased = record {
  manager = record idle_manager { active = 77; lease_held = true };
  token = record { generation = 3; nonce = 77 };
  released = false;
  tick = 0;
  log = [];
}

run_items-IsReported_example :
    IsReported
      (env_with 6 100)
      default_limits
      0
      (click_item ∷ wait_item ∷ [])
      leased
      (run_items (env_with 6 100) default_limits 0 (click_item ∷ wait_item ∷ []) none leased)
run_items-IsReported_example =
    run_items-IsReported (env_with 6 100) default_limits 0 (click_item ∷ wait_item ∷ []) none leased

-- The manager advances to the next generation by a call that was under way, and is busy for good.
abbrev advanced : Manager
advanced = finish_advance (finish_reconcile (leaked idle_manager 77)) 4

manager_run_actions-leaks_example :
    (manager_run_actions (env_with 100 0) 0 3 (some 77) batch idle_manager
      ≡ (leaked idle_manager 77, refused input_uncertain))
    × (advanced.lease_held ≡ true)
    × ((e : InputError) × (acquire advanced 4 (some 78) ≡ err e))
    × (begin_reconcile advanced advanced.generation ≡ err lease_busy)
    × (begin_advance advanced 5 ≡ err lease_busy)
manager_run_actions-leaks_example =
    manager_run_actions-leaks (env_with 100 0) 0 77 4 5 (some 78) batch idle_manager advanced refl
      refl refl (advances 4 (reconciles Later.here))

abbrev fenced_manager : Manager
fenced_manager = record idle_manager { uncertain = true }

idle_fenced : fence idle_manager 3 ≡ ok (fenced_manager, false)
unfolding fence
idle_fenced = refl

fence_latches_example :
    (acquire (finish_release fenced_manager) 3 (some 5) ≡ err input_uncertain)
    × (validate_token (finish_release fenced_manager) (record { generation = 3; nonce = 5 })
        ≡ err input_uncertain)
fence_latches_example =
    fence_latches idle_manager fenced_manager (finish_release fenced_manager) false 3 3 (some 5)
      (record { generation = 3; nonce = 5 }) idle_fenced (next here finishes)

click-IsReady : IsReady click_item
click-IsReady = ((refl, refl), omega arith)

abbrev lost : Failure
lost = record { status = ambiguous; error = transport_failed }

click_lost : (execute (env_with 4 100) default_limits click_item leased).1 ≡ err lost
unfolding execute execute_kind click_at send_pointer with_frame send_hid ensure_valid interact
    remember look check check_expiry ◌>>◌ validate_token remember_pointer mark_uncertain
    pointer_report put_uint32
click_lost = refl

execute_failed_sent_nothing_example :
    (lost.status ≡ ambiguous)
    ⊎ (input_of (execute (env_with 4 100) default_limits click_item leased).0.log ≡ input_of [])
execute_failed_sent_nothing_example =
    execute_failed_sent_nothing (env_with 4 100) default_limits click_item leased lost click-IsReady
      click_lost
