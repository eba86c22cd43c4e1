-- ===== src/Ledger/History.antt =====
-- What histories of the ledger of internal/store/store.go keep: the identity of an operation, its
-- end, the send boundary, and what a purge may remove.
use jetkvm_cli.Base.{
  ℕ, ◌≡◌, ◌≢◌, ◌≤◌, ◌⊎◌, ◌++◌, refl, ◌∙◌, Bool, true, false, not, some, List, [], ◌∷◌, arith,
  keep_if, All,
}
use jetkvm_cli.Operation.{Receipt, not_sent, unsent, is_terminal, validate_patch}
use jetkvm_cli.Ledger.Table.{row_check, times_check, find, is_purged}
use jetkvm_cli.Ledger.{
  Store, Call, empty_store, patched_row, recovered_row, step, run, purge_terminal_before, to_millis,
}
use jetkvm_cli.Ledger.Invariant.{IsSound, run-IsSound}
use jetkvm_cli.Ledger.Boundary.{
  Change, moved, recovered, Evolution, here, next, Evolution-trans, Kept, IsPurge, step-Kept,
}

abbrev pub NoPurge : List Call → Type 0
NoPurge = All (λ c. ¬ IsPurge c)

run-Kept :
    (s : Store) (cs : List Call) (j : ℕ) (r : Receipt)
    → NoPurge cs
    → find j s.rows ≡ some r
    → Kept j r (run s cs).rows
unfolding run
run-Kept s [] j r k h = (r, h, here)
run-Kept s (c ∷ cs) j r k h =
    let (m, found, before) = step-Kept s c j r k.0 h in
    let (r', found', after) = run-Kept (step s c) cs j m k.1 found in
    (r', found', Evolution-trans before after)

Change-identity :
    {a b : Receipt} → Change a b → (b.request ≡ a.request) × (b.created_at ≡ a.created_at)
unfolding patched_row recovered_row
Change-identity (moved to p now valid e) = ground arith
Change-identity (recovered now s e) = ground arith

Change-sent :
    {a b : Receipt} (t : ℕ)
    → Change a b
    → a.stage ≢ not_sent
    → a.send_started_at ≡ some t
    → (b.stage ≢ not_sent) × (b.send_started_at ≡ some t)
unfolding patched_row recovered_row validate_patch
Change-sent t (moved to p now valid e) k h = ground arith
Change-sent t (recovered now s e) k h = ground arith

Change-live : {a b : Receipt} → Change a b → is_terminal a.stage ≡ false
unfolding validate_patch
Change-live (moved to p now valid e) = ground arith
Change-live (recovered now s e) = ground arith

Evolution-terminal : {a b : Receipt} → is_terminal a.stage ≡ true → Evolution a b → b ≡ a
Evolution-terminal t here = refl
Evolution-terminal {a} t (next {m = m} e change) =
    let same : m ≡ a = Evolution-terminal t e in cc (Change-live change)

Evolution-identity :
    {a b : Receipt} → Evolution a b → (b.request ≡ a.request) × (b.created_at ≡ a.created_at)
Evolution-identity here = (refl, refl)
Evolution-identity (next e change) =
    let before = Evolution-identity e in
    let last = Change-identity change in (last.0 ∙ before.0, last.1 ∙ before.1)

Evolution-sent :
    {a b : Receipt} (t : ℕ)
    → Evolution a b
    → a.stage ≢ not_sent
    → a.send_started_at ≡ some t
    → (b.stage ≢ not_sent) × (b.send_started_at ≡ some t)
Evolution-sent t here k h = (k, h)
Evolution-sent t (next e change) k h =
    let before = Evolution-sent t e k h in Change-sent t change before.0 before.1

run-append : (s : Store) (cs ds : List Call) → run s (cs ++ ds) ≡ run (run s cs) ds
unfolding run
run-append s [] ds = refl
run-append s (c ∷ cs) ds = run-append (step s c) cs ds

timed-stage : (r : Receipt) (t : ℕ) → IsSound r → r.send_started_at ≡ some t → r.stage ≢ not_sent
unfolding row_check times_check
timed-stage r t v h = ground (arith, v.checked)

sound-sent :
    (r : Receipt) (t : ℕ)
    → IsSound r
    → r.send_started_at ≡ some t
    → (r.retry_safe ≡ false) × (r.delivery ≢ unsent)
sound-sent r t v h = ground (arith, v.retry_unsent, v.unsent_untimed)

-- No history without a purge loses an operation or changes what it is: its row is found again with
-- the same request (digest, device, generation, effect, action, policy revision) and creation time.
pub history_keeps_identity :
    (before after : List Call) (id : ℕ) (r : Receipt)
    → NoPurge after
    → find id (run empty_store before).rows ≡ some r
    → (r' : Receipt) × (find id (run empty_store (before ++ after)).rows ≡ some r')
      × (r'.request ≡ r.request)
      × (r'.created_at ≡ r.created_at)
history_keeps_identity before after id r k h =
    let (r', found, e) = run-Kept (run empty_store before) after id r k h in
    let same = Evolution-identity e in
    (r', rw (run-append empty_store before after) found, same.0, same.1)

-- The durable no-replay boundary: once a send time is recorded for an operation, every later history
-- without a purge finds it with that same send time, not safe to retry and not reported as unsent,
-- crash recovery by any process included.
pub sent_is_never_retry_safe :
    (before after : List Call) (id : ℕ) (r : Receipt) (t : ℕ)
    → NoPurge after
    → find id (run empty_store before).rows ≡ some r
    → r.send_started_at ≡ some t
    → (r' : Receipt) × (find id (run empty_store (before ++ after)).rows ≡ some r')
      × (r'.send_started_at ≡ some t)
      × (r'.retry_safe ≡ false)
      × (r'.delivery ≢ unsent)
sent_is_never_retry_safe before after id r t k h sent =
    let (r', found, e) = run-Kept (run empty_store before) after id r k h in
    let kept = Evolution-sent t e (timed-stage r t (run-IsSound before id r h) sent) sent in
    let later : find id (run empty_store (before ++ after)).rows ≡ some r' =
      rw (run-append empty_store before after) found in
    let claims = sound-sent r' t (run-IsSound (before ++ after) id r' later) kept.1 in
    (r', later, kept.1, claims.0, claims.1)

-- A terminal receipt is final: no history without a purge changes anything in it.
pub terminal_is_final :
    (before after : List Call) (id : ℕ) (r : Receipt)
    → NoPurge after
    → find id (run empty_store before).rows ≡ some r
    → is_terminal r.stage ≡ true
    → find id (run empty_store (before ++ after)).rows ≡ some r
terminal_is_final before after id r k h t =
    let (r', found, e) = run-Kept (run empty_store before) after id r k h in
    rw (run-append empty_store before after, ← Evolution-terminal t e) found

find-keep_if :
    (p : Receipt → Bool) (id : ℕ) (rs : List Receipt) (r : Receipt)
    → find id rs ≡ some r
    → p r ≡ true
    → find id (keep_if p rs) ≡ some r
unfolding find
find-keep_if p id [] r h keep = cc
find-keep_if p id (x ∷ rs) r h keep = ground (arith, find-keep_if p id rs r)

abbrev pub IsLate : ℕ → Receipt → Type 0
IsLate cutoff r =
    (is_terminal r.stage ≡ false) ⊎ ((t : ℕ) × (r.terminal_at ≡ some t) × (to_millis cutoff ≤ t))

late-spared :
    (cutoff : ℕ) (r : Receipt)
    → IsSound r
    → IsLate cutoff r
    → not (is_purged (to_millis cutoff) r) ≡ true
unfolding is_purged row_check times_check
late-spared cutoff r v late = ground (arith, v.checked)

-- A purge keeps every operation that has not ended, and every one that ended at its cutoff or later.
pub purge_keeps :
    (before : List Call) (cutoff id : ℕ) (r : Receipt)
    → find id (run empty_store before).rows ≡ some r
    → IsLate cutoff r
    → find id (purge_terminal_before (run empty_store before) cutoff).0.rows ≡ some r
unfolding purge_terminal_before
purge_keeps before cutoff id r h late =
    find-keep_if (λ x. not (is_purged (to_millis cutoff) x)) id _ r h
      (late-spared cutoff r (run-IsSound before id r h) late)
