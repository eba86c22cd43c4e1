-- ===== src/Operation/Tests.antt =====
-- Runs of the operation model on concrete requests, stages and patches.
use jetkvm_cli.Base.{
  ℕ, ◌+◌, ◌≤◌, ◌≡◌, ◌↔◌, refl, String, true, List, [], ◌∷◌, arith, replicate, length, ok,
}
use jetkvm_cli.Domain.{power, effect_text}
use jetkvm_cli.Operation.{
  not_sent, send_started, cancelled, transport_accepted, unsent, Patch, Request, pending,
  validate_transition, validate_patch, validate_request,
}
use jetkvm_cli.Operation.Machine.{
  ◌⟶◌, begin_send, accept, Life, here, next, validate_transition_iff, Life-length-le,
}
use jetkvm_cli.Input.Keys.Tables.{codes}
use text.Mathlib.TextEquality.{Char-path}
use jetkvm_cli.Operation.Digest.Framing.{
  IsFramable, frames, write_digest_field, put_uint64, put_uuid,
}
use jetkvm_cli.Operation.Digest.{
  Digester, Arguments, IsEncodable, new_request, digest_message, digest_message-injective,
}

validate_transition_iff_example :
    (validate_transition not_sent send_started ≡ ok tt) ↔ (not_sent ⟶ send_started)
validate_transition_iff_example = validate_transition_iff not_sent send_started

abbrev accepted_run : Life not_sent 2 transport_accepted
accepted_run =
    next (next here (validate_transition_iff_example.1 begin_send))
      ((validate_transition_iff send_started transport_accepted).1 accept)

Life-length-le_example : 2 ≤ 5
Life-length-le_example = Life-length-le accepted_run

abbrev cancel_patch : Patch
cancel_patch = record {
  delivery = unsent;
  verification = record { status = pending; signals = []; observation_id = "" };
  terminal_claim = "cancelled_before_send";
  retry_safe = true;
  error_kind = "";
  warnings = [];
}

cancel_patch_valid : validate_patch not_sent cancelled cancel_patch ≡ ok tt
unfolding validate_patch validate_transition
cancel_patch_valid = refl

abbrev digester : Digester
digester = record { key = replicate 32 7 }

abbrev press_power : Arguments
press_power = record {
  id = 7;
  device_id = "kvm-1";
  generation = 3;
  effect = power;
  action = "power_action";
  policy_revision = "sha256:0";
  canonical = 1 ∷ 2 ∷ [];
}

-- A stand-in for the hash: the sum of the key and the length of the message.
abbrev toy_hmac : List ℕ → List ℕ → ℕ
toy_hmac key message = length key + length message

abbrev toy_request : Request
toy_request = record {
  id = 7;
  digest = toy_hmac (replicate 32 7) (digest_message codes press_power);
  device_id = "kvm-1";
  control_generation = 3;
  effect = power;
  action = "power_action";
  policy_revision = "sha256:0";
}

toy_request_made : new_request codes toy_hmac digester press_power ≡ ok toy_request
unfolding codes new_request validate_request digest_message frames write_digest_field put_uint64
    put_uuid effect_text
toy_request_made = refl

codes-injective : (s t : String) → codes s ≡ codes t → s ≡ t
unfolding codes
codes-injective String.[] String.[] h = refl
codes-injective String.[] (String.◌∷◌ c t) h = cc
codes-injective (String.◌∷◌ c s) String.[] h = cc
codes-injective (String.◌∷◌ c s) (String.◌∷◌ d t) h =
    let same = Char-path c d (cc h) in let rest = codes-injective s t (cc h) in cc

tag_fits : IsFramable (codes "jetkvm-operation-v1")
unfolding codes
tag_fits = omega arith

press_power-IsEncodable : IsEncodable codes press_power
unfolding codes effect_text
press_power-IsEncodable = record {
  id_fits = omega arith;
  generation_fits = omega arith;
  device_id_fits = omega arith;
  effect_fits = omega arith;
  action_fits = omega arith;
  policy_revision_fits = omega arith;
  canonical_fits = omega arith;
}

digest_message-injective_example :
    (press_power.id ≡ press_power.id)
    × (press_power.device_id ≡ press_power.device_id)
    × (press_power.generation ≡ press_power.generation)
    × (effect_text press_power.effect ≡ effect_text press_power.effect)
    × (press_power.action ≡ press_power.action)
    × (press_power.policy_revision ≡ press_power.policy_revision)
    × (press_power.canonical ≡ press_power.canonical)
digest_message-injective_example =
    digest_message-injective codes codes-injective tag_fits press_power press_power
      press_power-IsEncodable press_power-IsEncodable refl
