-- ===== src/Operation/Digest.antt =====
-- The keyed digest of a request, NewDigester and NewRequest of internal/operation/operation.go.
-- HMAC-SHA256 and Go's conversion of a string to its bytes are parameters.
pub mod Framing
use jetkvm_cli.Base.{
  ℕ, ◌^◌, ◌<◌, ◌≤◌, ◌≡◌, All, String, List, [], ◌∷◌, ◌++◌, arith, length, ltb, Result, ok, err,
  ◌>>=◌, ◌>>◌, refuse_if,
}
use jetkvm_cli.Domain.{EffectClass, effect_text}
use jetkvm_cli.Operation.{OperationError, invalid_digest_key, Request, validate_request}
use Framing.{
  IsFramable, put_uint64, put_uuid, frames, put_uint64-injective, put_uuid-injective,
  frames-injective,
}

pub record Digester : Type 0 where
  pub key : List ℕ

-- sha256.Size
abbrev pub digest_size : ℕ
digest_size = 32

unfoldable pub new_digester : List ℕ → Result OperationError Digester
new_digester key =
    refuse_if (ltb (length key) digest_size) invalid_digest_key >> ok (record { key = key })

-- The arguments of NewRequest.
pub record Arguments : Type 0 where
  pub id : ℕ
  pub device_id : String
  pub generation : ℕ
  pub effect : EffectClass
  pub action : String
  pub policy_revision : String
  pub canonical : List ℕ

-- The conversion `[]byte(s)`.
module _ (bytes : String → List ℕ) where
  -- The fields that NewRequest writes into the hash.
  abbrev pub digest_fields : Arguments → List (List ℕ)
  digest_fields a =
      bytes "jetkvm-operation-v1"
      ∷ put_uuid a.id
      ∷ bytes a.device_id
      ∷ put_uint64 a.generation
      ∷ bytes (effect_text a.effect)
      ∷ bytes a.action
      ∷ bytes a.policy_revision
      ∷ a.canonical
      ∷ []

  unfoldable pub digest_message : Arguments → List ℕ
  digest_message a = frames (digest_fields a)

  unfoldable pub new_request :
      (List ℕ → List ℕ → ℕ) → Digester → Arguments → Result OperationError Request
  new_request hmac d a = do
    refuse_if (ltb (length d.key) digest_size) invalid_digest_key
    let request : Request = record {
      id = a.id;
      digest = hmac d.key (digest_message a);
      device_id = a.device_id;
      control_generation = a.generation;
      effect = a.effect;
      action = a.action;
      policy_revision = a.policy_revision;
    }
    validate_request request
    ok request

  -- A request that NewRequest returns passes Validate, carries the identity that it was asked for,
  -- and has for its digest the hash of the framed message under the digester's key, which has at
  -- least 32 bytes.
  pub new_request-IsValid :
      (hmac : List ℕ → List ℕ → ℕ) (d : Digester) (a : Arguments) (r : Request)
      → new_request hmac d a ≡ ok r
      → (validate_request r ≡ ok tt)
        × (r.id ≡ a.id)
        × (r.device_id ≡ a.device_id)
        × (r.control_generation ≡ a.generation)
        × (r.digest ≡ hmac d.key (digest_message a))
        × (digest_size ≤ length d.key)
  unfolding new_request
  new_request-IsValid hmac d a r h = ground arith

  -- What fits the program's machine words and Go's lengths.
  pub record IsEncodable (a : Arguments) : Type 0 where
    pub id_fits : a.id < 2 ^ 128
    pub generation_fits : a.generation < 2 ^ 64
    pub device_id_fits : IsFramable (bytes a.device_id)
    pub effect_fits : IsFramable (bytes (effect_text a.effect))
    pub action_fits : IsFramable (bytes a.action)
    pub policy_revision_fits : IsFramable (bytes a.policy_revision)
    pub canonical_fits : IsFramable a.canonical

  fields-IsFramable :
      (a : Arguments)
      → IsFramable (bytes "jetkvm-operation-v1")
      → IsEncodable a
      → All IsFramable (digest_fields a)
  unfolding put_uint64 put_uuid
  fields-IsFramable a t e = omega arith

  -- The digest covers the whole request: where two encodable sets of arguments give the hash one
  -- message, they agree in ID, device, generation, effect text, action, policy revision and
  -- canonical arguments, provided that different strings have different bytes and the domain tag is
  -- shorter than 2^64 bytes.
  pub digest_message-injective :
      ((s t : String) → bytes s ≡ bytes t → s ≡ t)
      → IsFramable (bytes "jetkvm-operation-v1")
      → (a b : Arguments) → IsEncodable a
      → IsEncodable b
      → digest_message a ≡ digest_message b
      → (a.id ≡ b.id)
        × (a.device_id ≡ b.device_id)
        × (a.generation ≡ b.generation)
        × (effect_text a.effect ≡ effect_text b.effect)
        × (a.action ≡ b.action)
        × (a.policy_revision ≡ b.policy_revision)
        × (a.canonical ≡ b.canonical)
  unfolding digest_message
  digest_message-injective inj tag a b ha hb e = (
    put_uuid-injective a.id b.id ha.id_fits hb.id_fits (cc same),
    inj _ _ (cc same),
    put_uint64-injective a.generation b.generation ha.generation_fits hb.generation_fits (cc same),
    inj _ _ (cc same),
    inj _ _ (cc same),
    inj _ _ (cc same),
    cc same,
  )
    where
      same : digest_fields a ≡ digest_fields b
      same =
          frames-injective (digest_fields a) (digest_fields b) (fields-IsFramable a tag ha)
            (fields-IsFramable b tag hb) e
