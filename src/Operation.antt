-- ===== src/Operation.antt =====
-- internal/operation/operation.go: stages, deliveries, requests, patches and receipts of an
-- operation, and the one authority on its state transitions. A wrapped error is its sentinel; a
-- 16-byte UUID and a 32-byte digest are the numbers that they spell, so their zero value is 0.
pub mod Machine
pub mod Patches
pub mod Digest
pub mod Tests
use jetkvm_cli.Base.{
  ℕ, ◌-◌, ◌^◌, String, Bool, true, false, not, ◌||◌, ◌&&◌, Option, none, some, List, ltb, ◌==◌,
  str_eq, if◌then◌else◌, Result, ok, err, ◌>>=◌, ◌>>◌, refuse_if,
}
use jetkvm_cli.Domain.{EffectClass}

pub data OperationError : Type 0 where
  conflict not_found invalid_digest_key invalid_request invalid_transition : OperationError

pub data Stage : Type 0 where
  not_sent send_started transport_accepted observation_started state_observed : Stage
  completed failed ambiguous cancelled : Stage
  unknown_stage : String → Stage

pub data Delivery : Type 0 where
  unsent possibly_sent accepted : Delivery
  unknown_delivery : String → Delivery

pub data VerificationStatus : Type 0 where
  not_requested pending observed not_observed : VerificationStatus
  unknown_status : String → VerificationStatus

abbrev pub stage_tag : Stage → ℕ
stage_tag not_sent = 0
stage_tag send_started = 1
stage_tag transport_accepted = 2
stage_tag observation_started = 3
stage_tag state_observed = 4
stage_tag completed = 5
stage_tag failed = 6
stage_tag ambiguous = 7
stage_tag cancelled = 8
stage_tag (unknown_stage s) = 9

-- `==` on stages.
abbrev pub same_stage : Stage → Stage → Bool
same_stage (unknown_stage s) (unknown_stage t) = str_eq s t
same_stage a b = stage_tag a == stage_tag b

abbrev pub is_unsent : Delivery → Bool
is_unsent unsent = true
is_unsent _ = false

abbrev pub is_possibly_sent : Delivery → Bool
is_possibly_sent possibly_sent = true
is_possibly_sent _ = false

abbrev pub is_accepted : Delivery → Bool
is_accepted accepted = true
is_accepted _ = false

abbrev pub is_known_status : VerificationStatus → Bool
is_known_status (unknown_status s) = false
is_known_status _ = true

abbrev pub is_pending : VerificationStatus → Bool
is_pending pending = true
is_pending _ = false

abbrev pub is_observed : VerificationStatus → Bool
is_observed observed = true
is_observed _ = false

pub record Request : Type 0 where
  pub id : ℕ
  pub digest : ℕ
  pub device_id : String
  pub control_generation : ℕ
  pub effect : EffectClass
  pub action : String
  pub policy_revision : String

pub record Verification : Type 0 where
  pub status : VerificationStatus
  pub signals : List String
  pub observation_id : String

-- A time is the count of milliseconds since 1970, and the zero `time.Time` is `none`.
pub record Receipt : Type 0 where
  pub request : Request
  pub open request use *
  pub stage : Stage
  pub delivery : Delivery
  pub verification : Verification
  pub terminal_claim : String
  pub retry_safe : Bool
  pub error_kind : String
  pub warnings : List String
  pub created_at : ℕ
  pub updated_at : ℕ
  pub send_started_at : Option ℕ
  pub terminal_at : Option ℕ

pub record Patch : Type 0 where
  pub delivery : Delivery
  pub verification : Verification
  pub terminal_claim : String
  pub retry_safe : Bool
  pub error_kind : String
  pub warnings : List String

abbrev pub is_ledger_effect : EffectClass → Bool
is_ledger_effect EffectClass.input = true
is_ledger_effect EffectClass.power = true
is_ledger_effect EffectClass.media = true
is_ledger_effect EffectClass.admin = true
is_ledger_effect _ = false

-- math.MaxInt64
abbrev pub max_int64 : ℕ
max_int64 = 2 ^ 63 - 1

-- Request.Validate
unfoldable pub validate_request : Request → Result OperationError (Unit {0})
validate_request r = do
  refuse_if (r.id == 0) invalid_request
  refuse_if (str_eq r.device_id "" || str_eq r.action "" || str_eq r.policy_revision "")
      invalid_request
  refuse_if (ltb max_int64 r.control_generation) invalid_request
  refuse_if (not (is_ledger_effect r.effect)) invalid_request
  refuse_if (r.digest == 0) invalid_request

-- Stage.IsTerminal
abbrev pub is_terminal : Stage → Bool
is_terminal completed = true
is_terminal failed = true
is_terminal ambiguous = true
is_terminal cancelled = true
is_terminal _ = false

-- The `switch from` of ValidateTransition.
abbrev pub is_allowed : Stage → Stage → Bool
is_allowed not_sent to =
    same_stage to send_started || same_stage to failed || same_stage to cancelled
is_allowed send_started to = same_stage to transport_accepted || same_stage to ambiguous
is_allowed transport_accepted to =
    same_stage to observation_started || same_stage to completed || same_stage to failed
is_allowed observation_started to =
    same_stage to state_observed || same_stage to completed || same_stage to failed
is_allowed state_observed to = same_stage to completed || same_stage to failed
is_allowed _ to = false

unfoldable pub validate_transition : Stage → Stage → Result OperationError (Unit {0})
validate_transition from to = do
  refuse_if (is_terminal from || same_stage from to) invalid_transition
  refuse_if (not (is_allowed from to)) invalid_transition

-- The `switch to` of ValidatePatch: the delivery and retry flag that the stage `to` refuses.
abbrev pub refuses_delivery : Stage → Stage → Patch → Bool
refuses_delivery from send_started p = not (is_possibly_sent p.delivery) || p.retry_safe
refuses_delivery from transport_accepted p = not (is_accepted p.delivery) || p.retry_safe
refuses_delivery from observation_started p = not (is_accepted p.delivery) || p.retry_safe
refuses_delivery from state_observed p = not (is_accepted p.delivery) || p.retry_safe
refuses_delivery from completed p = not (is_accepted p.delivery) || p.retry_safe
refuses_delivery from ambiguous p = not (is_possibly_sent p.delivery) || p.retry_safe
refuses_delivery from cancelled p = not (is_unsent p.delivery) || not p.retry_safe
refuses_delivery from failed p =
    if same_stage from not_sent
    then not (is_unsent p.delivery) || not p.retry_safe
    else not (is_accepted p.delivery) || p.retry_safe
refuses_delivery from _ p = false

unfoldable pub validate_patch : Stage → Stage → Patch → Result OperationError (Unit {0})
unfolding validate_transition
validate_patch from to p = do
  validate_transition from to
  refuse_if (str_eq p.terminal_claim "") invalid_transition
  refuse_if (not (is_known_status p.verification.status)) invalid_transition
  refuse_if (refuses_delivery from to p) invalid_transition
  refuse_if (same_stage to observation_started && not (is_pending p.verification.status))
      invalid_transition
  refuse_if
      (same_stage to state_observed
        && (not (is_observed p.verification.status) || str_eq p.verification.observation_id ""))
      invalid_transition
