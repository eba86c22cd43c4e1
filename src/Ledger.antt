-- ===== src/Ledger.antt =====
-- internal/store/store.go: the durable ledger of operations. The state is the table of operations
-- and the set of operations whose lock file this process holds. SQLite keeps a transaction that
-- fails out of the table; what else SQLite or the disk can refuse is not modelled, except the CHECK
-- constraints. What `flock` answers, which depends on other processes, is an argument.
pub mod Table
pub mod Commit
pub mod Begin
pub mod Invariant
pub mod Boundary
pub mod History
pub mod Service
pub mod Tests
use jetkvm_cli.Base.{
  ℕ, suc, ◌+◌, ◌-◌, ◌*◌, ◌/◌, ◌≡◌, refl, String, Bool, true, false, not, ◌&&◌, ◌||◌, Option, none,
  some, List, [], ◌∷◌, arith, ltb, leb, ◌==◌, any, length, if◌then◌else◌, keep_if, Result, ok, err,
  ◌>>=◌, ◌>>◌, refuse_if,
}
use jetkvm_cli.Operation.{
  OperationError, conflict, not_found, invalid_transition, Stage, Request, Receipt, Patch, not_sent,
  send_started, ambiguous, unsent, possibly_sent, not_requested, not_observed, is_terminal,
  same_stage, validate_request, validate_patch,
}
use Table.{row_check, find, update_row, ids_in_stage, is_purged}

pub data LedgerError : Type 0 where
  operation : OperationError → LedgerError
  constraint lock_failed : LedgerError

-- What `flock.TryLock` answers for the lock file of an operation.
pub data LockAnswer : Type 0 where
  acquired busy lock_error : LockAnswer

pub record Store : Type 0 where
  pub rows : List Receipt
  pub owners : List ℕ

abbrev pub empty_store : Store
empty_store = record { rows = []; owners = [] }

abbrev pub lift {ℓ} : {A : Type ℓ} → Result OperationError A → Result LedgerError A
lift (ok a) = ok a
lift (err e) = err (operation e)

abbrev pub or_not_found : Option Receipt → Result LedgerError Receipt
or_not_found none = err (operation not_found)
or_not_found (some r) = ok r

-- toMillis: nanoseconds since 1970 as whole milliseconds.
unfoldable pub to_millis : ℕ → ℕ
to_millis now = now / 1000000

abbrev pub terminal_claim_not_proven : String
terminal_claim_not_proven = "not_proven"

-- The row that Begin inserts.
unfoldable pub new_row : Request → ℕ → Receipt
new_row request now = record {
  request = request;
  stage = not_sent;
  delivery = unsent;
  verification = record { status = not_requested; signals = []; observation_id = "" };
  terminal_claim = terminal_claim_not_proven;
  retry_safe = true;
  error_kind = "";
  warnings = [];
  created_at = to_millis now;
  updated_at = to_millis now;
  send_started_at = none;
  terminal_at = none;
}

-- INSERT … ON CONFLICT(operation_id) DO NOTHING: the rows after it, and the count of new rows.
unfoldable pub insert_row : Receipt → List Receipt → Result LedgerError (List Receipt × ℕ)
insert_row new rows = elim (find new.id rows) [
  | some r ↦ ok (rows, 0)
  | none ↦ if row_check new then ok (new ∷ rows, 1) else err constraint
]

-- The transaction of Store.Begin: the rows to commit, the receipt and whether it existed.
unfoldable pub begin_rows :
    List Receipt → Request → ℕ → Result LedgerError (List Receipt × Receipt × Bool)
unfolding insert_row
begin_rows rows request now = do
  lift (validate_request request)
  (inserted, count) ← insert_row (new_row request now) rows
  receipt ← or_not_found (find request.id inserted)
  refuse_if (not (receipt.digest == request.digest)) (operation conflict)
  ok (inserted, receipt, count == 0)

unfoldable pub begin : Store → Request → ℕ → Store × Result LedgerError (Receipt × Bool)
begin s request now = elim (begin_rows s.rows request now) [
  | ok (rows, receipt, existing) ↦ (record s { rows = rows }, ok (receipt, existing))
  | err e ↦ (s, err e)
]

-- Store.Get
unfoldable pub get : Store → ℕ → Result LedgerError Receipt
get s id = or_not_found (find id s.rows)

-- The row that Transition writes.
unfoldable pub patched_row : Receipt → Stage → Patch → ℕ → Receipt
patched_row current to patch now = record current {
  stage = to;
  delivery = patch.delivery;
  verification = patch.verification;
  terminal_claim = patch.terminal_claim;
  retry_safe = patch.retry_safe;
  error_kind = patch.error_kind;
  warnings = patch.warnings;
  updated_at = to_millis now;
  send_started_at =
      if same_stage to send_started then some (to_millis now) else current.send_started_at;
  terminal_at = if is_terminal to then some (to_millis now) else none;
}

-- The transaction of Store.Transition: the rows to commit and the receipt.
unfoldable pub transition_rows :
    List Receipt → ℕ → Stage → Patch → ℕ → Result LedgerError (List Receipt × Receipt)
transition_rows rows id to patch now = do
  current ← or_not_found (find id rows)
  lift (validate_patch current.stage to patch)
  let new = patched_row current to patch now
  refuse_if (not (row_check new)) constraint
  let updated = update_row id current.stage new rows
  refuse_if (not (updated.1 == 1)) (operation invalid_transition)
  receipt ← or_not_found (find id updated.0)
  ok (updated.0, receipt)

abbrev pub holds : List ℕ → ℕ → Bool
holds owners id = any (λ o. o == id) owners

abbrev pub disown : ℕ → List ℕ → List ℕ
disown id owners = keep_if (λ o. not (o == id)) owners

-- The first part of Transition: the owners with the lock of an operation about to be sent, and
-- whether this call acquired it.
unfoldable pub take_lock : List ℕ → ℕ → Stage → LockAnswer → Result LedgerError (List ℕ × Bool)
take_lock owners id to answer =
    if same_stage to send_started && not (holds owners id)
    then elim answer [
      | acquired ↦ ok (id ∷ owners, true)
      | busy ↦ err (operation invalid_transition)
      | lock_error ↦ err lock_failed
    ]
    else ok (owners, false)

-- Store.Transition, with the deferred release of the lock.
unfoldable pub transition :
    Store → ℕ → Stage → Patch → ℕ → LockAnswer → Store × Result LedgerError Receipt
transition s id to patch now answer = elim (take_lock s.owners id to answer) [
  | err e ↦ (s, err e)
  | ok (owners, fresh) ↦ elim (transition_rows s.rows id to patch now) [
    | err e ↦ (record s { owners = if fresh then disown id owners else owners }, err e)
    | ok (rows, receipt) ↦ (
      record { rows = rows; owners = if is_terminal to then disown id owners else owners },
      ok receipt,
    )
  ]
]

-- The row that RecoverInterrupted writes.
unfoldable pub recovered_row : Receipt → ℕ → Receipt
recovered_row r now = record r {
  stage = ambiguous;
  delivery = possibly_sent;
  verification = record (r.verification) { status = not_observed };
  terminal_claim = terminal_claim_not_proven;
  retry_safe = false;
  error_kind = "process_interrupted_after_send_started";
  updated_at = to_millis now;
  terminal_at = some (to_millis now);
}

-- One UPDATE of RecoverInterrupted: the rows after it and the count of affected rows.
unfoldable pub recover_row : List Receipt → ℕ → ℕ → Result LedgerError (List Receipt × ℕ)
recover_row rows id now = elim (find id rows) [
  | none ↦ ok (rows, 0)
  | some r ↦
      if same_stage r.stage send_started
      then (if row_check (recovered_row r now)
          then ok (update_row id send_started (recovered_row r now) rows)
          else err constraint)
      else ok (rows, 0)
]

-- One round of the loop of RecoverInterrupted: an operation whose lock another process holds is
-- passed over.
unfoldable pub recover_one :
    List Receipt → ℕ → ℕ → LockAnswer → Result LedgerError (List Receipt × ℕ)
unfolding recover_row
recover_one rows id now lock_error = err lock_failed
recover_one rows id now busy = ok (rows, 0)
recover_one rows id now acquired = recover_row rows id now

-- The loop of RecoverInterrupted over the interrupted IDs, and how many rows it recovered.
unfoldable pub recover_rows :
    List ℕ → List Receipt → ℕ → ℕ → (ℕ → LockAnswer) → List Receipt × ℕ × Option LedgerError
recover_rows [] rows n now answers = (rows, n, none)
recover_rows (id ∷ ids) rows n now answers = elim (recover_one rows id now (answers id)) [
  | err e ↦ (rows, n, some e)
  | ok (rows', count) ↦ recover_rows ids rows' (n + count) now answers
]

unfoldable pub recover_interrupted : Store → ℕ → (ℕ → LockAnswer) → Store × ℕ × Option LedgerError
recover_interrupted s now answers =
    let (rows, n, e) = recover_rows (ids_in_stage send_started s.rows) s.rows 0 now answers in
    (record s { rows = rows }, n, e)

-- Store.PurgeTerminalBefore, with the count of rows that it removed.
unfoldable pub purge_terminal_before : Store → ℕ → Store × ℕ
purge_terminal_before s cutoff =
    let kept = keep_if (λ r. not (is_purged (to_millis cutoff) r)) s.rows in
    (record s { rows = kept }, length s.rows - length kept)

-- A call of the ledger with what the clock and the lock files say.
pub data Call : Type 0 where
  begins : Request → ℕ → Call
  transitions : ℕ → Stage → Patch → ℕ → LockAnswer → Call
  recovers : ℕ → (ℕ → LockAnswer) → Call
  purges : ℕ → Call

unfoldable pub step : Store → Call → Store
step s (begins request now) = (begin s request now).0
step s (transitions id to patch now answer) = (transition s id to patch now answer).0
step s (recovers now answers) = (recover_interrupted s now answers).0
step s (purges cutoff) = (purge_terminal_before s cutoff).0

unfoldable pub run : Store → List Call → Store
run s [] = s
run s (c ∷ cs) = run (step s c) cs
