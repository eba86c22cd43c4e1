-- ===== src/Operation/Patches.antt =====
-- What internal/operation/operation.go guarantees of the patches that it accepts.
use jetkvm_cli.Base.{◌≡◌, ◌≢◌, ◌↔◌, ◌⊎◌, true, false, arith, ok, eq_iff}
use jetkvm_cli.Operation.{
  Stage, Delivery, Patch, not_sent, send_started, observation_started, state_observed, failed,
  ambiguous, cancelled, unsent, possibly_sent, accepted, pending, observed, validate_patch,
}

-- An accepted patch reports `retry_safe` exactly when it reports that nothing was sent, and then
-- only as the end, by failure or cancellation, of an operation that was not sent.
pub validate_patch-retry_safe :
    (from to : Stage) (p : Patch)
    → validate_patch from to p ≡ ok tt
    → ((p.retry_safe ≡ true) ↔ (p.delivery ≡ unsent))
      × ((p.retry_safe ≡ false) ⊎ ((from ≡ not_sent) × ((to ≡ failed) ⊎ (to ≡ cancelled))))
unfolding validate_patch
validate_patch-retry_safe from to p h = ground arith

-- The delivery that a transition has to report.
abbrev pub owed_delivery : Stage → Stage → Delivery
owed_delivery not_sent send_started = possibly_sent
owed_delivery not_sent to = unsent
owed_delivery from ambiguous = possibly_sent
owed_delivery from to = accepted

-- An accepted patch reports the delivery that the edge owes: `possibly_sent` on the way into
-- `send_started` and `ambiguous`, `unsent` on every other edge out of `not_sent`, and `accepted` on
-- all others; it always carries a terminal claim.
pub validate_patch-delivery :
    (from to : Stage) (p : Patch)
    → validate_patch from to p ≡ ok tt
    → (p.delivery ≡ owed_delivery from to) × (p.terminal_claim ≢ "")
unfolding validate_patch
validate_patch-delivery from to p h = ground (arith, eq_iff p.terminal_claim "")

-- An accepted patch into `state_observed` carries an observed verification with an observation ID,
-- and one into `observation_started` a pending verification.
pub validate_patch-evidence :
    (from to : Stage) (p : Patch)
    → validate_patch from to p ≡ ok tt
    → (to ≡ state_observed
        → (p.verification.status ≡ observed) × (p.verification.observation_id ≢ ""))
      × (to ≡ observation_started → p.verification.status ≡ pending)
unfolding validate_patch
validate_patch-evidence from to p h = ground (arith, eq_iff p.verification.observation_id "")
