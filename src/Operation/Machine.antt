-- ===== src/Operation/Machine.antt =====
-- What the transition table of internal/operation/operation.go guarantees of whole runs.
use jetkvm_cli.Base.{ℕ, suc, ◌+◌, ◌≤◌, ◌<◌, ◌≡◌, ◌≢◌, ◌↔◌, refl, String, false, arith, ok}
use jetkvm_cli.Operation.{
  Stage, not_sent, send_started, transport_accepted, observation_started, state_observed, completed,
  failed, ambiguous, cancelled, unknown_stage, is_terminal, validate_transition,
}

-- The life of an operation as the table of ValidateTransition has it, as a relation. It is not the one
-- that docs/design.md, section 12, draws.
infix 40 ◌⟶◌
pub data ◌⟶◌ : Stage → Stage → Type 0 where
  begin_send : not_sent ⟶ send_started
  refuse_send : not_sent ⟶ failed
  cancel : not_sent ⟶ cancelled
  accept : send_started ⟶ transport_accepted
  lose : send_started ⟶ ambiguous
  observe : transport_accepted ⟶ observation_started
  finish_unobserved : transport_accepted ⟶ completed
  fail_accepted : transport_accepted ⟶ failed
  see : observation_started ⟶ state_observed
  finish_unseen : observation_started ⟶ completed
  fail_observing : observation_started ⟶ failed
  finish : state_observed ⟶ completed
  fail_observed : state_observed ⟶ failed

ruleset edges = (
  begin_send, refuse_send, cancel, accept, lose, observe, finish_unobserved, fail_accepted, see,
  finish_unseen, fail_observing, finish, fail_observed,
)

allows : {from to : Stage} → from ⟶ to → validate_transition from to ≡ ok tt
unfolding validate_transition
allows begin_send = refl
allows refuse_send = refl
allows cancel = refl
allows accept = refl
allows lose = refl
allows observe = refl
allows finish_unobserved = refl
allows fail_accepted = refl
allows see = refl
allows finish_unseen = refl
allows fail_observing = refl
allows finish = refl
allows fail_observed = refl

permits : (from to : Stage) → validate_transition from to ≡ ok tt → from ⟶ to
unfolding validate_transition
permits from to h = grind (arith, edges)

-- ValidateTransition accepts exactly the thirteen edges of this table, whatever texts the two stages
-- are.
pub validate_transition_iff :
    (from to : Stage) → (validate_transition from to ≡ ok tt) ↔ (from ⟶ to)
validate_transition_iff from to = (permits from to, allows)

-- `Life n from to`: n accepted transitions lead from one stage to the other.
pub data Life (from : Stage) : ℕ → Stage → Type 0 where
  here : Life from 0 from
  next :
      {n : ℕ} {mid to : Stage}
      → Life from n mid
      → validate_transition mid to ≡ ok tt
      → Life from (suc n) to

abbrev rank : Stage → ℕ
rank not_sent = 0
rank send_started = 1
rank transport_accepted = 2
rank observation_started = 3
rank state_observed = 4
rank _ = 5

edge-rank-lt : {from to : Stage} → from ⟶ to → rank from < rank to
edge-rank-lt begin_send = omega arith
edge-rank-lt refuse_send = omega arith
edge-rank-lt cancel = omega arith
edge-rank-lt accept = omega arith
edge-rank-lt lose = omega arith
edge-rank-lt observe = omega arith
edge-rank-lt finish_unobserved = omega arith
edge-rank-lt fail_accepted = omega arith
edge-rank-lt see = omega arith
edge-rank-lt finish_unseen = omega arith
edge-rank-lt fail_observing = omega arith
edge-rank-lt finish = omega arith
edge-rank-lt fail_observed = omega arith

rank-le : (s : Stage) → rank s ≤ 5
rank-le s = ground arith

Life-rank : {from to : Stage} {n : ℕ} → Life from n to → rank from + n ≤ rank to
Life-rank here = omega arith
Life-rank (next {mid = mid} {to = to} life h) =
    omega (arith, Life-rank life, edge-rank-lt (permits mid to h))

-- Every operation ends: no run of accepted transitions, from any stage, has more than five steps.
pub Life-length-le : {from to : Stage} {n : ℕ} → Life from n to → n ≤ 5
Life-length-le {to = to} life = omega (arith, Life-rank life, rank-le to)

abbrev pub CrossedBoundary : Stage → Type 0
CrossedBoundary not_sent = ⊥
CrossedBoundary cancelled = ⊥
CrossedBoundary _ = Unit {0}

edge-CrossedBoundary : {from to : Stage} → from ⟶ to → CrossedBoundary from → CrossedBoundary to
edge-CrossedBoundary begin_send c = tt
edge-CrossedBoundary refuse_send c = tt
edge-CrossedBoundary cancel c = c
edge-CrossedBoundary accept c = tt
edge-CrossedBoundary lose c = tt
edge-CrossedBoundary observe c = tt
edge-CrossedBoundary finish_unobserved c = tt
edge-CrossedBoundary fail_accepted c = tt
edge-CrossedBoundary see c = tt
edge-CrossedBoundary finish_unseen c = tt
edge-CrossedBoundary fail_observing c = tt
edge-CrossedBoundary finish c = tt
edge-CrossedBoundary fail_observed c = tt

Life-CrossedBoundary :
    {from to : Stage} {n : ℕ} → CrossedBoundary from → Life from n to → CrossedBoundary to
Life-CrossedBoundary c here = c
Life-CrossedBoundary c (next {mid = mid} {to = to} life h) =
    edge-CrossedBoundary (permits mid to h) (Life-CrossedBoundary c life)

-- The no-replay boundary: from `send_started` no run of accepted transitions, however long, leads
-- back to `not_sent` or to `cancelled`.
pub send_started_never_unsent :
    (n : ℕ) → (¬ Life send_started n not_sent) × (¬ Life send_started n cancelled)
send_started_never_unsent n = (Life-CrossedBoundary tt, Life-CrossedBoundary tt)

-- A named stage has a legal successor exactly when it is not terminal.
pub successor_iff_not_terminal :
    (s : Stage)
    → ((r : String) → s ≢ unknown_stage r)
    → ((to : Stage) × (validate_transition s to ≡ ok tt)) ↔ (is_terminal s ≡ false)
unfolding validate_transition
successor_iff_not_terminal s known = (λ e. ground (arith, e.1), back s known)
  where
    back :
        (s : Stage)
        → ((r : String) → s ≢ unknown_stage r)
        → is_terminal s ≡ false
        → (to : Stage) × (validate_transition s to ≡ ok tt)
    back not_sent k t = (send_started, refl)
    back send_started k t = (ambiguous, refl)
    back transport_accepted k t = (completed, refl)
    back observation_started k t = (completed, refl)
    back state_observed k t = (completed, refl)
    back (unknown_stage r) k t = absurd (k r refl)
    back completed k t = cc
    back failed k t = cc
    back ambiguous k t = cc
    back cancelled k t = cc
