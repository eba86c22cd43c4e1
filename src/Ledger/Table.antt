-- ===== src/Ledger/Table.antt =====
-- The `operations` table of internal/store: the rows, the CHECK constraints of
-- internal/store/migrate.go, and the SQL statements of internal/store/store.go as functions on it.
-- The tables of signals and warnings are lists inside the row. A row is found by its primary key.
use jetkvm_cli.Base.{
  ◌≡◌, Bool, true, false, not, ◌&&◌, ◌||◌, Option, none, some, List, [], ◌∷◌, ℕ, inl, inr, subst,
  Bool-cases, arith, ltb, leb, ◌==◌, str_eq, any, if◌then◌else◌, All,
}
use jetkvm_cli.Operation.{
  Stage, Delivery, Receipt, not_sent, send_started, transport_accepted, observation_started,
  state_observed, completed, ambiguous, unknown_stage, unknown_delivery, is_ledger_effect,
  is_known_status, is_terminal, same_stage,
}

abbrev pub is_some {ℓ} : {A : Type ℓ} → Option A → Bool
is_some none = false
is_some (some a) = true

abbrev pub is_known_stage : Stage → Bool
is_known_stage (unknown_stage s) = false
is_known_stage _ = true

abbrev pub is_known_delivery : Delivery → Bool
is_known_delivery (unknown_delivery s) = false
is_known_delivery _ = true

-- The stages that the table wants a send time for.
abbrev pub needs_send_time : Stage → Bool
needs_send_time send_started = true
needs_send_time transport_accepted = true
needs_send_time observation_started = true
needs_send_time state_observed = true
needs_send_time completed = true
needs_send_time ambiguous = true
needs_send_time _ = false

abbrev pub same_bool : Bool → Bool → Bool
same_bool true b = b
same_bool false b = not b

-- The CHECK constraints on one column each, and on the two child tables.
unfoldable pub columns_check : Receipt → Bool
columns_check r =
    not (str_eq r.device_id "")
    && is_ledger_effect r.effect
    && not (str_eq r.action "")
    && not (str_eq r.policy_revision "")
    && is_known_stage r.stage
    && is_known_delivery r.delivery
    && is_known_status r.verification.status
    && not (any (λ s. str_eq s "") r.verification.signals)
    && not (any (λ s. str_eq s "") r.warnings)

-- The CHECK constraints on the times of a row.
unfoldable pub times_check : Receipt → Bool
times_check r =
    leb r.created_at r.updated_at
    && (not (needs_send_time r.stage) || is_some r.send_started_at)
    && (not (same_stage r.stage not_sent) || not (is_some r.send_started_at))
    && same_bool (is_terminal r.stage) (is_some r.terminal_at)

unfoldable pub row_check : Receipt → Bool
row_check r = columns_check r && times_check r

-- SELECT … WHERE operation_id = ?
unfoldable pub find : ℕ → List Receipt → Option Receipt
find id [] = none
find id (r ∷ rs) = if r.id == id then some r else find id rs

-- UPDATE … WHERE operation_id = ? AND stage = ?, with the count of affected rows.
unfoldable pub update_row : ℕ → Stage → Receipt → List Receipt → List Receipt × ℕ
update_row id from new [] = ([], 0)
update_row id from new (r ∷ rs) =
    let rest = update_row id from new rs in
    if r.id == id
    then (if same_stage r.stage from then (new ∷ rs, 1) else (r ∷ rs, 0))
    else (r ∷ rest.0, rest.1)

-- DELETE … WHERE terminal_at_ms IS NOT NULL AND terminal_at_ms < ?
unfoldable pub is_purged : ℕ → Receipt → Bool
is_purged cutoff r = elim r.terminal_at [ none ↦ false | some t ↦ ltb t cutoff ]

-- SELECT operation_id … WHERE stage = ?
unfoldable pub ids_in_stage : Stage → List Receipt → List ℕ
ids_in_stage s [] = []
ids_in_stage s (r ∷ rs) =
    let rest = ids_in_stage s rs in if same_stage r.stage s then r.id ∷ rest else rest

pub find-id : (id : ℕ) (rs : List Receipt) (r : Receipt) → find id rs ≡ some r → r.id ≡ id
unfolding find
find-id id [] r h = cc
find-id id (x ∷ rs) r h = ground (arith, find-id id rs r)

-- A row that an update replaces is found again as the new row, and all others as they were.
pub find-update_row :
    (id j : ℕ) (from : Stage) (old new : Receipt) (rs : List Receipt)
    → find id rs ≡ some old
    → same_stage old.stage from ≡ true
    → new.id ≡ id
    → (find j (update_row id from new rs).0 ≡ (if id == j then some new else find j rs))
      × ((update_row id from new rs).1 ≡ 1)
unfolding find update_row
find-update_row id j from old new [] h s n = cc
find-update_row id j from old new (x ∷ rs) h s n =
    ground (arith, find-update_row id j from old new rs)

module _ {ℓ} (P : Receipt → Type ℓ) where
  pub find-All : (id : ℕ) (rs : List Receipt) (r : Receipt) → All P rs → find id rs ≡ some r → P r
  unfolding find
  find-All id [] r h e = cc
  find-All id (x ∷ rs) r h e = elim (Bool-cases (x.id == id)) [
    | inl here ↦ subst P (ground arith) h.0
    | inr later ↦ find-All id rs r h.1 (ground arith)
  ]

  pub update_row-All :
      (id : ℕ) (from : Stage) (new : Receipt) (rs : List Receipt)
      → All P rs
      → P new
      → All P (update_row id from new rs).0
  unfolding update_row
  update_row-All id from new [] h n = tt
  update_row-All id from new (x ∷ rs) h n = elim (Bool-cases (x.id == id)) [
    | inl here ↦ elim (Bool-cases (same_stage x.stage from)) [
      | inl same ↦ rw (here, same) (n, h.1)
      | inr other ↦ rw (here, other) h
    ]
    | inr later ↦ rw later (h.0, update_row-All id from new rs h.1 n)
  ]
