-- ===== src/Ledger/Boundary.antt =====
-- How a row of the ledger of internal/store/store.go changes over calls: only along the legal
-- transitions, and never back over the send boundary.
use jetkvm_cli.Base.{
  ℕ, ◌+◌, ◌≡◌, refl, subst, str_eq_refl, inl, inr, true, some, List, [], ◌∷◌, arith, ◌==◌, ok,
  if◌then◌else◌, Bool-cases, Result-cases,
}
use jetkvm_cli.Operation.{
  Stage, Receipt, Patch, Request, not_sent, send_started, unknown_stage, same_stage, validate_patch,
}
use jetkvm_cli.Ledger.Table.{find, find-id, find-update_row, update_row}
use jetkvm_cli.Ledger.Commit.{transition_rows-ok, recover_one-ok}
use jetkvm_cli.Ledger.{
  Store, Call, LockAnswer, begins, transitions, recovers, purges, new_row, patched_row,
  recovered_row, insert_row, begin_rows, transition_rows, recover_one, recover_rows, step, begin,
  transition, recover_interrupted, take_lock,
}

-- What one call may do to a row.
pub data Change (r : Receipt) (r' : Receipt) : Type 0 where
  moved :
      (to : Stage) (p : Patch) (now : ℕ)
      → validate_patch r.stage to p ≡ ok tt
      → r' ≡ patched_row r to p now
      → Change r r'
  recovered : (now : ℕ) → r.stage ≡ send_started → r' ≡ recovered_row r now → Change r r'

pub data Evolution (r : Receipt) : Receipt → Type 0 where
  here : Evolution r r
  next : {m r' : Receipt} → Evolution r m → Change m r' → Evolution r r'

-- The row of an ID after a call, as an evolution of the row before.
abbrev pub Kept : ℕ → Receipt → List Receipt → Type 0
Kept id r rows = (r' : Receipt) × (find id rows ≡ some r') × Evolution r r'

same_stage_refl : (s : Stage) → same_stage s s ≡ true
same_stage_refl (unknown_stage t) = str_eq_refl t
same_stage_refl not_sent = refl
same_stage_refl _ = refl

update_row-Kept :
    (id j : ℕ) (old new r : Receipt) (rs : List Receipt)
    → find id rs ≡ some old
    → new.id ≡ id
    → Change old new
    → find j rs ≡ some r
    → Kept j r (update_row id old.stage new rs).0
update_row-Kept id j old new r rs h same change e = elim (Bool-cases (id == j)) [
  | inl own ↦
      (new, ground (arith, written.0), next here (subst (λ x. Change x new) (ground arith) change))
  | inr other ↦ (r, ground (arith, written.0), here)
]
  where
    written :
        (find j (update_row id old.stage new rs).0 ≡ (if id == j then some new else find j rs))
        × ((update_row id old.stage new rs).1 ≡ 1)
    written = find-update_row id j old.stage old new rs h (same_stage_refl old.stage) same

transition_rows-Kept :
    (rows : List Receipt) (id j : ℕ) (to : Stage) (p : Patch) (now : ℕ) (new : List Receipt)
    (x r : Receipt)
    → transition_rows rows id to p now ≡ ok (new, x)
    → find j rows ≡ some r
    → Kept j r new
unfolding patched_row
transition_rows-Kept rows id j to p now new x r e h =
    let (current, found, valid, checked, written, result) =
      transition_rows-ok rows id to p now new x e in
    rw written (
      update_row-Kept id j current (patched_row current to p now) r rows found
        (find-id id rows current found) (moved to p now valid refl) h)

begin-Kept :
    (s : Store) (request : Request) (now j : ℕ) (r : Receipt)
    → find j s.rows ≡ some r
    → find j (begin s request now).0.rows ≡ some r
unfolding begin begin_rows insert_row find new_row
begin-Kept s request now j r h = ground arith

transition-Kept :
    (s : Store) (id j : ℕ) (to : Stage) (p : Patch) (now : ℕ) (answer : LockAnswer) (r : Receipt)
    → find j s.rows ≡ some r
    → Kept j r (transition s id to p now answer).0.rows
unfolding transition
transition-Kept s id j to p now answer r h = elim (Result-cases (take_lock s.owners id to answer)) [
  | inl (e, refused) ↦ rw (refused, transition) (r, h, here)
  | inr ((owners, fresh), taken) ↦ elim (Result-cases (transition_rows s.rows id to p now)) [
    | inl (e, refused) ↦ rw (taken, transition, refused) (r, h, here)
    | inr ((new, x), done) ↦
        rw (taken, transition, done) (transition_rows-Kept s.rows id j to p now new x r done h)
  ]
]

recover_one-Kept :
    (rows : List Receipt) (id now : ℕ) (answer : LockAnswer) (new : List Receipt) (n j : ℕ)
    (r : Receipt)
    → recover_one rows id now answer ≡ ok (new, n)
    → find j rows ≡ some r
    → Kept j r new
unfolding recovered_row
recover_one-Kept rows id now answer new n j r e h =
    elim (recover_one-ok rows id now answer new n e) [
      | inl same ↦ rw same (r, h, here)
      | inr (old, found, interrupted, written) ↦
          rw (written, ← interrupted)
            (update_row-Kept id j old (recovered_row old now) r rows found
              (find-id id rows old found) (recovered now interrupted refl) h)
    ]

pub Evolution-trans : {a b c : Receipt} → Evolution a b → Evolution b c → Evolution a c
Evolution-trans e here = e
Evolution-trans e (next f change) = next (Evolution-trans e f) change

recover_rows-Kept :
    (ids : List ℕ) (rows : List Receipt) (n now : ℕ) (answers : ℕ → LockAnswer) (j : ℕ)
    (r : Receipt)
    → find j rows ≡ some r
    → Kept j r (recover_rows ids rows n now answers).0
unfolding recover_rows
recover_rows-Kept [] rows n now answers j r h = (r, h, here)
recover_rows-Kept (id ∷ ids) rows n now answers j r h =
    elim (Result-cases (recover_one rows id now (answers id))) [
      | inl (e, refused) ↦ rw (refused, recover_rows) (r, h, here)
      | inr ((new, count), done) ↦
          let (m, found, before) = recover_one-Kept rows id now (answers id) new count j r done h in
          let (r', found', after) = recover_rows-Kept ids new (n + count) now answers j m found in
          rw (done, recover_rows) (r', found', Evolution-trans before after)
    ]

abbrev pub IsPurge : Call → Type 0
IsPurge (purges cutoff) = Unit {0}
IsPurge _ = ⊥

pub step-Kept :
    (s : Store) (c : Call) (j : ℕ) (r : Receipt)
    → (¬ IsPurge c)
    → find j s.rows ≡ some r
    → Kept j r (step s c).rows
unfolding step recover_interrupted
step-Kept s (begins request now) j r k h = (r, begin-Kept s request now j r h, here)
step-Kept s (transitions id to p now answer) j r k h = transition-Kept s id j to p now answer r h
step-Kept s (recovers now answers) j r k h = recover_rows-Kept _ s.rows 0 now answers j r h
step-Kept s (purges cutoff) j r k h = absurd (k tt)
