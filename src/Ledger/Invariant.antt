-- ===== src/Ledger/Invariant.antt =====
-- What every row of the ledger of internal/store/store.go satisfies, after any calls.
use jetkvm_cli.Base.{
  keep_if-All, ℕ, ◌+◌, ◌≡◌, ◌↔◌, inl, inr, true, none, some, List, [], ◌∷◌, arith, All, ok,
  Option-cases, Result-cases,
}
use jetkvm_cli.Operation.{
  Stage, Receipt, Patch, Request, not_sent, send_started, unsent, validate_patch,
}
use jetkvm_cli.Operation.Patches.{validate_patch-retry_safe, validate_patch-delivery}
use jetkvm_cli.Ledger.Table.{
  row_check, times_check, find, find-All, update_row-All, needs_send_time, is_some,
}
use jetkvm_cli.Ledger.Commit.{transition_rows-ok}
use jetkvm_cli.Ledger.{
  Store, Call, LockAnswer, new_row, patched_row, recovered_row, insert_row, begin_rows,
  transition_rows, recover_one, recover_rows, step, run, begin, transition, recover_interrupted,
  purge_terminal_before, take_lock, begins, transitions, recovers, purges, empty_store,
}

-- A row passes the table's constraints; it is safe to retry exactly when nothing of it was sent,
-- which is exactly when it has no send time.
pub record IsSound (r : Receipt) : Type 0 where
  pub checked : row_check r ≡ true
  pub retry_unsent : (r.retry_safe ≡ true) ↔ (r.delivery ≡ unsent)
  pub unsent_untimed : (r.delivery ≡ unsent) ↔ (r.send_started_at ≡ none)

row_check-times :
    (r : Receipt)
    → row_check r ≡ true
    → (needs_send_time r.stage ≡ true → is_some r.send_started_at ≡ true)
      × (r.stage ≡ not_sent → r.send_started_at ≡ none)
unfolding row_check times_check
row_check-times r h = ground arith

new_row-IsSound :
    (request : Request) (now : ℕ)
    → row_check (new_row request now) ≡ true
    → IsSound (new_row request now)
unfolding new_row
new_row-IsSound request now h = record {
  checked = h;
  retry_unsent = ground arith;
  unsent_untimed = ground arith;
}

recovered_row-IsSound :
    (r : Receipt) (now : ℕ)
    → r.stage ≡ send_started
    → IsSound r
    → row_check (recovered_row r now) ≡ true
    → IsSound (recovered_row r now)
unfolding recovered_row
recovered_row-IsSound r now s v h = record {
  checked = h;
  retry_unsent = ground arith;
  unsent_untimed = ground (arith, row_check-times r v.checked);
}

patched-untimed :
    (r : Receipt) (to : Stage) (p : Patch) (now : ℕ)
    → IsSound r
    → validate_patch r.stage to p ≡ ok tt
    → (p.delivery ≡ unsent) ↔ ((patched_row r to p now).send_started_at ≡ none)
unfolding patched_row validate_patch
patched-untimed r to p now v valid =
    ground (arith, row_check-times r v.checked, validate_patch-delivery r.stage to p valid)

patched_row-IsSound :
    (r : Receipt) (to : Stage) (p : Patch) (now : ℕ)
    → IsSound r
    → validate_patch r.stage to p ≡ ok tt
    → row_check (patched_row r to p now) ≡ true
    → IsSound (patched_row r to p now)
unfolding patched_row
patched_row-IsSound r to p now v valid h = record {
  checked = h;
  retry_unsent = (validate_patch-retry_safe r.stage to p valid).0;
  unsent_untimed = patched-untimed r to p now v valid;
}

abbrev pub AllSound : Store → Type 0
AllSound s = All IsSound s.rows

begin-AllSound :
    (s : Store) (request : Request) (now : ℕ) → AllSound s → AllSound (begin s request now).0
unfolding begin begin_rows insert_row
begin-AllSound s request now h = ground (arith, new_row-IsSound request now)

transition_rows-AllSound :
    (rows : List Receipt) (id : ℕ) (to : Stage) (p : Patch) (now : ℕ) (new : List Receipt)
    (r : Receipt)
    → All IsSound rows
    → transition_rows rows id to p now ≡ ok (new, r)
    → All IsSound new
transition_rows-AllSound rows id to p now new r h e =
    let (current, found, valid, checked, written, result) =
      transition_rows-ok rows id to p now new r e in
    rw written (
      update_row-All IsSound id current.stage (patched_row current to p now) rows h (
        patched_row-IsSound current to p now (find-All IsSound id rows current h found) valid
          checked))

transition-AllSound :
    (s : Store) (id : ℕ) (to : Stage) (p : Patch) (now : ℕ) (answer : LockAnswer)
    → AllSound s
    → AllSound (transition s id to p now answer).0
unfolding transition
transition-AllSound s id to p now answer h = elim (Result-cases (take_lock s.owners id to answer)) [
  | inl (e, refused) ↦ rw (refused, transition) h
  | inr ((owners, fresh), taken) ↦ elim (Result-cases (transition_rows s.rows id to p now)) [
    | inl (e, refused) ↦ rw (taken, transition, refused) h
    | inr ((new, r), done) ↦
        rw (taken, transition, done) (transition_rows-AllSound s.rows id to p now new r h done)
  ]
]

recover_one-AllSound :
    (rows : List Receipt) (id now : ℕ) (answer : LockAnswer) (new : List Receipt) (n : ℕ)
    → All IsSound rows
    → recover_one rows id now answer ≡ ok (new, n)
    → All IsSound new
unfolding recover_one
recover_one-AllSound rows id now answer new n h e = elim (Option-cases (find id rows)) [
  | inl missing ↦ ground arith
  | inr (r, found) ↦ ground (
    arith,
    update_row-All IsSound id send_started (recovered_row r now) rows,
    recovered_row-IsSound r now,
    find-All IsSound id rows r,
  )
]

recover_rows-AllSound :
    (ids : List ℕ) (rows : List Receipt) (n now : ℕ) (answers : ℕ → LockAnswer)
    → All IsSound rows
    → All IsSound (recover_rows ids rows n now answers).0
unfolding recover_rows
recover_rows-AllSound [] rows n now answers h = h
recover_rows-AllSound (id ∷ ids) rows n now answers h =
    elim (Result-cases (recover_one rows id now (answers id))) [
      | inl (e, refused) ↦ rw (refused, recover_rows) h
      | inr ((new, count), done) ↦
          rw (done, recover_rows)
            (recover_rows-AllSound ids new (n + count) now answers
              (recover_one-AllSound rows id now (answers id) new count h done))
    ]

step-AllSound : (s : Store) (c : Call) → AllSound s → AllSound (step s c)
unfolding step recover_interrupted purge_terminal_before
step-AllSound s (begins request now) h = begin-AllSound s request now h
step-AllSound s (transitions id to p now answer) h = transition-AllSound s id to p now answer h
step-AllSound s (recovers now answers) h = recover_rows-AllSound _ s.rows 0 now answers h
step-AllSound s (purges cutoff) h = keep_if-All IsSound _ s.rows h

run-AllSound : (s : Store) (cs : List Call) → AllSound s → AllSound (run s cs)
unfolding run
run-AllSound s [] h = h
run-AllSound s (c ∷ cs) h = run-AllSound (step s c) cs (step-AllSound s c h)

-- Whatever calls the ledger of a new database has served, every row passes the table's constraints,
-- is marked safe to retry exactly when its delivery is `unsent`, and has a send time exactly when
-- its delivery is not `unsent`.
pub run-IsSound :
    (cs : List Call) (id : ℕ) (r : Receipt) → find id (run empty_store cs).rows ≡ some r → IsSound r
run-IsSound cs id r h = find-All IsSound id _ r (run-AllSound empty_store cs tt) h
