-- ===== src/Ledger/Service.antt =====
-- internal/operation/service.go: the front of the ledger that stamps its calls with a clock.
use jetkvm_cli.Base.{ℕ, ◌-◌, ◌≡◌, refl, false, [], if◌then◌else◌, Result, ok, err}
use jetkvm_cli.Base.Int.{ℤ, pos, leb_ℤ, pos_part}
use jetkvm_cli.Operation.{
  OperationError, invalid_request, not_sent, send_started, Patch, possibly_sent, not_requested,
  Receipt, validate_patch,
}
use jetkvm_cli.Ledger.{LedgerError, LockAnswer, Store, transition, purge_terminal_before}

-- The patch of MarkSendStarted.
abbrev pub send_patch : Patch
send_patch = record {
  delivery = possibly_sent;
  verification = record { status = not_requested; signals = []; observation_id = "" };
  terminal_claim = "not_proven";
  retry_safe = false;
  error_kind = "";
  warnings = [];
}

-- MarkSendStarted
unfoldable pub mark_send_started : Store → ℕ → ℕ → LockAnswer → Store × Result LedgerError Receipt
mark_send_started s id now answer = transition s id send_started send_patch now answer

-- PurgeRetainedReceipts, at a time after the retention.
unfoldable pub purge_retained_receipts : Store → ℤ → ℕ → Store × Result OperationError ℕ
purge_retained_receipts s retention now =
    if leb_ℤ retention (pos 0)
    then (s, err invalid_request)
    else (let purged = purge_terminal_before s (now - pos_part retention) in
        (purged.0, ok purged.1))

-- The patch of MarkSendStarted is one that an operation may get which was not sent.
send_patch-validate_patch : validate_patch not_sent send_started send_patch ≡ ok tt
unfolding validate_patch
send_patch-validate_patch = refl
