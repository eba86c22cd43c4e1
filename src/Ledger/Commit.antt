-- ===== src/Ledger/Commit.antt =====
-- What a committed transaction of Store.Transition (internal/store/store.go) consists of.
use jetkvm_cli.Base.{ℕ, ◌≡◌, ◌⊎◌, inl, inr, true, some, List, arith, ok, Bool-cases, Option-cases}
use jetkvm_cli.Operation.{Stage, Receipt, Patch, send_started, same_stage, validate_patch}
use jetkvm_cli.Ledger.Table.{row_check, find, update_row}
use jetkvm_cli.Ledger.{
  LockAnswer, acquired, busy, lock_error, patched_row, transition_rows, recovered_row, recover_one,
}

pub transition_rows-ok :
    (rows : List Receipt) (id : ℕ) (to : Stage) (p : Patch) (now : ℕ) (new : List Receipt)
    (r : Receipt)
    → transition_rows rows id to p now ≡ ok (new, r)
    → (current : Receipt) × (find id rows ≡ some current)
      × (validate_patch current.stage to p ≡ ok tt)
      × (row_check (patched_row current to p now) ≡ true)
      × (new ≡ (update_row id current.stage (patched_row current to p now) rows).0)
      × (find id new ≡ some r)
unfolding transition_rows
transition_rows-ok rows id to p now new r e = elim (Option-cases (find id rows)) [
  | inl missing ↦ ground arith
  | inr (current, found) ↦ (current, found, ground arith, ground arith, ground arith, ground arith)
]

-- A round of the recovery loop either leaves the table as it was or rewrites one interrupted row.
pub recover_one-ok :
    (rows : List Receipt) (id now : ℕ) (answer : LockAnswer) (new : List Receipt) (n : ℕ)
    → recover_one rows id now answer ≡ ok (new, n)
    → (new ≡ rows)
      ⊎ ((old : Receipt) × (find id rows ≡ some old)
          × (old.stage ≡ send_started)
          × (new ≡ (update_row id send_started (recovered_row old now) rows).0))
unfolding recover_one
recover_one-ok rows id now lock_error new n e = cc
recover_one-ok rows id now busy new n e = inl (ground arith)
recover_one-ok rows id now acquired new n e = elim (Option-cases (find id rows)) [
  | inl missing ↦ inl (ground arith)
  | inr (old, found) ↦ elim (Bool-cases (same_stage old.stage send_started)) [
    | inl interrupted ↦ inr (old, found, ground arith, ground arith)
    | inr other ↦ inl (ground arith)
  ]
]
