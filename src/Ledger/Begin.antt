-- ===== src/Ledger/Begin.antt =====
-- Registration of a request, Store.Begin of internal/store/store.go, on each of its branches.
use jetkvm_cli.Base.{
  ℕ, ◌≡◌, ◌≢◌, ◌⊎◌, refl, inl, inr, true, false, none, some, List, ◌∷◌, arith, ok, err,
}
use jetkvm_cli.Operation.{Request, Receipt, conflict, validate_request}
use jetkvm_cli.Ledger.Table.{row_check, columns_check, times_check, find}
use jetkvm_cli.Ledger.{Store, operation, new_row, insert_row, begin_rows, begin}

-- A valid request never meets the constraints of the table: its row can be inserted.
row_check-new_row :
    (request : Request) (now : ℕ)
    → validate_request request ≡ ok tt
    → row_check (new_row request now) ≡ true
unfolding row_check columns_check times_check new_row validate_request
row_check-new_row request now h = ground arith

-- Begin of a valid request under an ID that the ledger does not know inserts its `not_sent` row, in
-- front, and returns it as new.
pub begin_fresh :
    (s : Store) (request : Request) (now : ℕ)
    → validate_request request ≡ ok tt
    → find request.id s.rows ≡ none
    → begin s request now
      ≡ (record s { rows = new_row request now ∷ s.rows }, ok (new_row request now, false))
unfolding begin begin_rows insert_row find new_row
begin_fresh s request now valid missing = ground (arith, row_check-new_row request now)

-- Begin of a valid request under a known ID changes nothing: it returns the stored receipt as
-- existing where the digests agree, and a conflict where they do not.
pub begin_known :
    (s : Store) (request : Request) (now : ℕ) (r : Receipt)
    → validate_request request ≡ ok tt
    → find request.id s.rows ≡ some r
    → ((r.digest ≡ request.digest) × (begin s request now ≡ (s, ok (r, true))))
      ⊎ ((r.digest ≢ request.digest) × (begin s request now ≡ (s, err (operation conflict))))
unfolding begin begin_rows insert_row new_row
begin_known s request now r valid known = ground arith

new_row_found :
    (request : Request) (now : ℕ) (rows : List Receipt)
    → find request.id (new_row request now ∷ rows) ≡ some (new_row request now)
unfolding find new_row
new_row_found request now rows = ground arith

new_row-digest : (request : Request) (now : ℕ) → (new_row request now).digest ≡ request.digest
unfolding new_row
new_row-digest request now = refl

-- Registering one valid request twice registers it once: the second call, at any later time, finds
-- the receipt of the first as existing and leaves the ledger as the first left it.
pub begin_twice :
    (s : Store) (request : Request) (now later : ℕ)
    → validate_request request ≡ ok tt
    → find request.id s.rows ≡ none
    → begin (begin s request now).0 request later
      ≡ ((begin s request now).0, ok (new_row request now, true))
begin_twice s request now later valid missing =
    rw (begin_fresh s request now valid missing) (again (new_row_found request now s.rows))
  where
    stored : Store
    stored = record s { rows = new_row request now ∷ s.rows }

    again :
        find request.id stored.rows ≡ some (new_row request now)
        → begin stored request later ≡ (stored, ok (new_row request now, true))
    again e = elim (begin_known stored request later (new_row request now) valid e) [
      | inl (same, found) ↦ found
      | inr (differ, refused) ↦ absurd (differ (new_row-digest request now))
    ]
