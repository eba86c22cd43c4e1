-- ===== src/Confirmation.antt =====
-- internal/confirmation/confirmation.go: short-lived proofs that a person confirmed one operation, each
-- of which may be used once. HMAC, base64 and JSON are parameters; a token is the list of its bytes.
pub mod Tokens
pub mod Minted
pub mod Once
mod Tests
use jetkvm_cli.Base.{
  ℕ, ◌+◌, ◌/◌, ◌%◌, ◌≡◌, ◌++◌, String, Bool, true, false, not, ◌&&◌, ◌||◌, Option, none, some, List,
  [], ◌∷◌, if◌then◌else◌, ltb, leb, ◌==◌, str_eq, contains, any, keep_if, length, is_empty, Result,
  ok, err, refuse_if, ◌>>=◌, ◌>>◌,
}
use jetkvm_cli.Base.Int.{ℤ, pos, leb_ℤ, eq_ℤ, pos_part}

pub data ConfirmationError : Type 0 where
  invalid_configuration principal_required proof_required proof_invalid : ConfirmationError
  proof_expired proof_mismatch proof_replayed encode_failed : ConfirmationError

pub record Principal : Type 0 where
  pub id : String
  pub transport : String

-- `arguments_digest` is the array of its bytes.
pub record Binding : Type 0 where
  pub device_id : String
  pub generation : ℕ
  pub effect : String
  pub action : String
  pub arguments_digest : List ℕ
  pub policy_revision : String

-- tokenPayload; the nonce is the number of its bytes, 0 for the nil UUID.
pub record Payload : Type 0 where
  pub version : ℕ
  pub nonce : ℕ
  pub principal_id : String
  pub transport : String
  pub device_id : String
  pub generation : ℕ
  pub effect : String
  pub action : String
  pub arguments_digest : List ℕ
  pub policy_revision : String
  pub issued_at : ℕ
  pub expires_at : ℕ

-- The packages that a token is made with: hmac.New(sha256.New, key), base64.RawURLEncoding and
-- encoding/json.
pub record Codec : Type 0 where
  pub mac : List ℕ → List ℕ → List ℕ
  pub encode : List ℕ → List ℕ
  pub decode : List ℕ → Option (List ℕ)
  pub marshal : Payload → Option (List ℕ)
  pub unmarshal : List ℕ → Option Payload

pub record Authority : Type 0 where
  pub key : List ℕ
  pub ttl : ℕ

abbrev pub token_version : ℕ
token_version = 1

-- NewAuthority: `has_nonces` says that a nonce store is given.
unfoldable pub new_authority : List ℕ → ℤ → Bool → Result ConfirmationError Authority
new_authority key ttl has_nonces =
    let ttl' = if eq_ℤ ttl (pos 0) then pos 120000000000 else ttl in
    if ltb (length key) 32
    then err invalid_configuration
    else if leb_ℤ ttl' (pos 0) || not has_nonces
    then err invalid_configuration
    else ok record { key = key; ttl = pos_part ttl' }

-- PrincipalFromContext
unfoldable pub principal_from : Option Principal → Option Principal
principal_from none = none
principal_from (some p) = if str_eq p.id "" || str_eq p.transport "" then none else some p

abbrev pub known_effects : List String
known_effects = "observe" ∷ "input" ∷ "power" ∷ "media" ∷ "admin" ∷ "irreversible" ∷ []

-- validateBinding
unfoldable pub validate_binding : Binding → Result ConfirmationError (Unit {0})
validate_binding b =
    refuse_if
      (str_eq b.device_id ""
        || str_eq b.action ""
        || str_eq b.policy_revision ""
        || not (any (λ x. not (x == 0)) b.arguments_digest))
      proof_mismatch
    >> refuse_if (not (contains known_effects b.effect)) proof_mismatch

-- bytes.Equal and hmac.Equal
unfoldable pub bytes_eq : List ℕ → List ℕ → Bool
bytes_eq [] [] = true
bytes_eq [] (y ∷ ys) = false
bytes_eq (x ∷ xs) [] = false
bytes_eq (x ∷ xs) (y ∷ ys) = (x == y) && bytes_eq xs ys

-- hex.EncodeToString
abbrev pub hex_digit : ℕ → ℕ
hex_digit n = if ltb n 10 then 48 + n else 87 + n

unfoldable pub hex : List ℕ → List ℕ
hex [] = []
hex (b ∷ bs) = hex_digit (b / 16) ∷ hex_digit (b % 16) ∷ hex bs

abbrev pub dot : ℕ
dot = 46

-- The bytes before and after the first dot.
unfoldable pub cut : List ℕ → Option (List ℕ × List ℕ)
cut [] = none
cut (b ∷ bs) =
    let rest = cut bs in
    if b == dot then some ([], bs) else elim rest [ none ↦ none | some (l, r) ↦ some (b ∷ l, r) ]

unfoldable pub split_token : List ℕ → Option (List ℕ × List ℕ)
split_token token = elim (cut token) [
  | none ↦ none
  | some (l, r) ↦ if is_empty l || is_empty r then none else some (l, r)
]

abbrev pub seal : Codec → Authority → List ℕ → List ℕ
seal c a encoded = c.encode encoded ++ (dot ∷ c.encode (c.mac a.key encoded))

-- The payload that Mint seals.
abbrev pub payload_of : Authority → Principal → Binding → ℕ → ℕ → Payload
payload_of a p b now nonce = record {
  version = token_version;
  nonce = nonce;
  principal_id = p.id;
  transport = p.transport;
  device_id = b.device_id;
  generation = b.generation;
  effect = b.effect;
  action = b.action;
  arguments_digest = hex b.arguments_digest;
  policy_revision = b.policy_revision;
  issued_at = now;
  expires_at = now + a.ttl;
}

-- Mint, with the clock and a fresh UUID.
unfoldable pub mint :
    Codec → Authority → Option Principal → Binding → ℕ → ℕ → Result ConfirmationError (List ℕ)
mint c a caller b now nonce = elim (principal_from caller) [
  | none ↦ err principal_required
  | some p ↦ validate_binding b >>= λ valid. elim (c.marshal (payload_of a p b now nonce)) [
    | none ↦ err encode_failed
    | some encoded ↦ ok (seal c a encoded)
  ]
]

abbrev pub read_payload : Option Payload → Result ConfirmationError Payload
read_payload none = err proof_invalid
read_payload (some p) =
    if not (p.version == token_version) || (p.nonce == 0) then err proof_invalid else ok p

-- open
unfoldable pub open_proof : Codec → Authority → List ℕ → Result ConfirmationError Payload
open_proof c a sealed = elim (split_token sealed) [
  | none ↦ err proof_invalid
  | some (l, r) ↦ elim (c.decode l) [
    | none ↦ err proof_invalid
    | some encoded ↦ elim (c.decode r) [
      | none ↦ err proof_invalid
      | some provided ↦
          if not (bytes_eq provided (c.mac a.key encoded))
          then err proof_invalid
          else read_payload (c.unmarshal encoded)
    ]
  ]
]

-- The comparison of every bound field.
unfoldable pub matches : Payload → Principal → Binding → Bool
matches x p b =
    str_eq x.principal_id p.id
    && str_eq x.transport p.transport
    && str_eq x.device_id b.device_id
    && (x.generation == b.generation)
    && str_eq x.effect b.effect
    && str_eq x.action b.action
    && bytes_eq x.arguments_digest (hex b.arguments_digest)
    && str_eq x.policy_revision b.policy_revision

unfoldable pub check_payload : Payload → Principal → Binding → ℕ → Result ConfirmationError Payload
check_payload x p b now =
    if leb x.expires_at now || ltb now x.issued_at
    then err proof_expired
    else if not (matches x p b)
    then err proof_mismatch
    else ok x

-- VerifyAndConsume up to the nonce store; `none` is a context without a proof.
unfoldable pub check_proof :
    Codec
    → Authority
    → Option Principal
    → Binding
    → Option (List ℕ)
    → ℕ
    → Result ConfirmationError Payload
check_proof c a caller b proof now = elim (principal_from caller) [
  | none ↦ err principal_required
  | some p ↦ validate_binding b >>= λ valid. elim proof [
    | none ↦ err proof_required
    | some sealed ↦
        if is_empty sealed
        then err proof_required
        else open_proof c a sealed >>= λ x. check_payload x p b now
  ]
]

-- MemoryNonceStore: the consumed nonces, each with its expiry.
abbrev pub Nonces : Type 0
Nonces = List (ℕ × ℕ)

abbrev pub purge : ℕ → Nonces → Nonces
purge now ns = keep_if (λ n. ltb now n.1) ns

abbrev pub is_consumed : ℕ → Nonces → Bool
is_consumed nonce ns = any (λ n. n.0 == nonce) ns

-- Consume, at a time of its own: the store reads time.Now().
unfoldable pub consume : Nonces → ℕ → ℕ → ℕ → Nonces × Result ConfirmationError (Unit {0})
consume ns nonce expires_at now =
    let ns' = purge now ns in
    if is_consumed nonce ns' then (ns', err proof_replayed) else ((nonce, expires_at) ∷ ns', ok tt)

unfoldable pub verify_and_consume :
    Codec
    → Authority
    → Nonces
    → Option Principal
    → Binding
    → Option (List ℕ)
    → ℕ
    → ℕ
    → Nonces × Result ConfirmationError (Unit {0})
verify_and_consume c a ns caller b proof now store_now = elim (check_proof c a caller b proof now) [
  | err e ↦ (ns, err e)
  | ok x ↦ consume ns x.nonce x.expires_at store_now
]
