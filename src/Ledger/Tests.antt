-- ===== src/Ledger/Tests.antt =====
-- A history of the ledger: an operation is registered and sent, the process dies, and another one
-- recovers it; a second operation is cancelled before it is sent.
use jetkvm_cli.Base.{ℕ, ◌≡◌, ◌≢◌, inl, refl, true, false, none, some, List, [], ◌∷◌, ◌++◌, ok}
use jetkvm_cli.Domain.{power, effect_text}
use jetkvm_cli.Operation.{
  send_started, cancelled, unsent, possibly_sent, Patch, Request, Receipt, pending, is_terminal,
  validate_transition, validate_patch, validate_request,
}
use jetkvm_cli.Ledger.{
  Call, begins, transitions, recovers, acquired, empty_store, run, step, begin, begin_rows,
  insert_row, new_row, transition, transition_rows, take_lock, patched_row, to_millis,
}
use jetkvm_cli.Ledger.Table.{find, update_row, row_check, columns_check, times_check}
use jetkvm_cli.Ledger.Invariant.{IsSound, run-IsSound}
use jetkvm_cli.Ledger.Begin.{begin_twice}
use jetkvm_cli.Ledger.History.{
  NoPurge, IsLate, history_keeps_identity, sent_is_never_retry_safe, terminal_is_final,
}

abbrev request_of : ℕ → Request
request_of id = record {
  id = id;
  digest = 99;
  device_id = "kvm-1";
  control_generation = 3;
  effect = power;
  action = "power_action";
  policy_revision = "sha256:0";
}

abbrev send_patch : Patch
send_patch = record {
  delivery = possibly_sent;
  verification = record { status = pending; signals = []; observation_id = "" };
  terminal_claim = "send_started";
  retry_safe = false;
  error_kind = "";
  warnings = [];
}

abbrev cancel_patch : Patch
cancel_patch = record send_patch {
  delivery = unsent;
  terminal_claim = "cancelled";
  retry_safe = true;
}

abbrev sending : List Call
sending =
    begins (request_of 7) 1000000
    ∷ transitions 7 send_started send_patch 2000000 acquired
    ∷ begins (request_of 8) 3000000
    ∷ transitions 8 cancelled cancel_patch 4000000 acquired
    ∷ []

abbrev after_crash : List Call
after_crash = recovers 9000000 (λ id. acquired) ∷ begins (request_of 7) 9500000 ∷ []

abbrev sent_row : Receipt
sent_row = patched_row (new_row (request_of 7) 1000000) send_started send_patch 2000000

sent_found : find 7 (run empty_store sending).rows ≡ some sent_row
unfolding find run step begin begin_rows insert_row new_row transition transition_rows take_lock
    patched_row to_millis update_row row_check columns_check times_check validate_request
    validate_patch validate_transition effect_text
sent_found = refl

abbrev cancelled_row : Receipt
cancelled_row = patched_row (new_row (request_of 8) 3000000) cancelled cancel_patch 4000000

cancelled_found : find 8 (run empty_store sending).rows ≡ some cancelled_row
unfolding find run step begin begin_rows insert_row new_row transition transition_rows take_lock
    patched_row to_millis update_row row_check columns_check times_check validate_request
    validate_patch validate_transition effect_text
cancelled_found = refl

run-IsSound_example : IsSound sent_row
run-IsSound_example = run-IsSound sending 7 sent_row sent_found

no_purge : NoPurge after_crash
no_purge = (λ h. h, (λ h. h, tt))

sent_row_timed : sent_row.send_started_at ≡ some 2
unfolding patched_row new_row to_millis
sent_row_timed = refl

sent_is_never_retry_safe_example :
    (r' : Receipt) × (find 7 (run empty_store (sending ++ after_crash)).rows ≡ some r')
    × (r'.send_started_at ≡ some 2)
    × (r'.retry_safe ≡ false)
    × (r'.delivery ≢ unsent)
sent_is_never_retry_safe_example =
    sent_is_never_retry_safe sending after_crash 7 sent_row 2 no_purge sent_found sent_row_timed

history_keeps_identity_example :
    (r' : Receipt) × (find 7 (run empty_store (sending ++ after_crash)).rows ≡ some r')
    × (r'.request ≡ sent_row.request)
    × (r'.created_at ≡ sent_row.created_at)
history_keeps_identity_example =
    history_keeps_identity sending after_crash 7 sent_row no_purge sent_found

cancelled_row_terminal : is_terminal cancelled_row.stage ≡ true
unfolding patched_row
cancelled_row_terminal = refl

terminal_is_final_example :
    find 8 (run empty_store (sending ++ after_crash)).rows ≡ some cancelled_row
terminal_is_final_example =
    terminal_is_final sending after_crash 8 cancelled_row no_purge cancelled_found
      cancelled_row_terminal

sent_row-IsLate : IsLate 50000000 sent_row
unfolding patched_row
sent_row-IsLate = inl refl

request_valid : validate_request (request_of 7) ≡ ok tt
unfolding validate_request
request_valid = refl

empty_missing : find 7 [] ≡ none
unfolding find
empty_missing = refl

begin_twice_example :
    begin (begin empty_store (request_of 7) 1000000).0 (request_of 7) 5000000
    ≡ ((begin empty_store (request_of 7) 1000000).0, ok (new_row (request_of 7) 1000000, true))
begin_twice_example =
    begin_twice empty_store (request_of 7) 1000000 5000000 request_valid empty_missing
