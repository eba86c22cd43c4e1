-- ===== src/Confirmation/Minted.antt =====
-- What a proof of internal/confirmation/confirmation.go is good for: the operation that it was minted
-- for, by its principal, in its time, and nothing else.
use jetkvm_cli.Base.{
  ok_injective, ℕ, ◌+◌, ◌≤◌, ◌<◌, ◌≡◌, inl, inr, refl, sym, ap, ◌∙◌, true, false, ◌||◌, Option,
  some, List, All, arith, ltb, leb, ◌==◌, ==_iff, str_eq_refl, eq_iff, is_empty, ok, Option-cases,
  Result-cases,
}
use jetkvm_cli.Confirmation.{
  Principal, Binding, Codec, Authority, Payload, Nonces, payload_of, seal, mint, principal_from,
  validate_binding, hex, open_proof, read_payload, matches, check_payload, check_proof, purge,
  is_consumed, consume, verify_and_consume,
}
use jetkvm_cli.Confirmation.Tokens.{
  IsTransparent, bytes_eq_refl, bytes_eq-path, hex_injective, open_proof-seal, seal-full,
}

-- JSON reads back the payload that it wrote.
abbrev pub ReadsBack : Codec → Payload → Type 0
ReadsBack c p = (encoded : List ℕ) → c.marshal p ≡ some encoded → c.unmarshal encoded ≡ some p

-- What a successful Mint says.
pub record IsMinted (c : Codec) (a : Authority) (p : Principal) (b : Binding) (now nonce : ℕ)
    (sealed : List ℕ) : Type 0 where
  pub valid : validate_binding b ≡ ok tt
  pub encoded : List ℕ
  pub marshalled : c.marshal (payload_of a p b now nonce) ≡ some encoded
  pub is_sealed : sealed ≡ seal c a encoded

pub mint-IsMinted :
    (c : Codec) (a : Authority) (caller : Option Principal) (p : Principal) (b : Binding)
    (now nonce : ℕ) (sealed : List ℕ)
    → principal_from caller ≡ some p
    → mint c a caller b now nonce ≡ ok sealed
    → IsMinted c a p b now nonce sealed
unfolding mint
mint-IsMinted c a caller p b now nonce sealed known e = elim (Result-cases (validate_binding b)) [
  | inl (refusal, bad) ↦ absurd (ground arith)
  | inr (done, good) ↦ elim (Option-cases (c.marshal (payload_of a p b now nonce))) [
    | inl failing ↦ absurd (ground arith)
    | inr (encoded, written) ↦
        let minted : mint c a caller b now nonce ≡ ok (seal c a encoded) =
          simp (known, good, written, mint) refl in
        record {
          valid = good;
          encoded = encoded;
          marshalled = written;
          is_sealed = ok_injective sealed (seal c a encoded) e minted;
        }
  ]
]

open_proof-minted :
    (c : Codec) (a : Authority) (p : Principal) (b : Binding) (now nonce : ℕ) (sealed : List ℕ)
    → IsTransparent c
    → ReadsBack c (payload_of a p b now nonce)
    → (nonce == 0) ≡ false
    → IsMinted c a p b now nonce sealed
    → (open_proof c a sealed ≡ ok (payload_of a p b now nonce)) × (is_empty sealed ≡ false)
open_proof-minted c a p b now nonce sealed t reads real m =
    let full = t.marshal_full (payload_of a p b now nonce) m.encoded m.marshalled in
    let opened = open_proof-seal c a m.encoded t full in
    let x = reads m.encoded m.marshalled in
    let read : read_payload (c.unmarshal m.encoded) ≡ ok (payload_of a p b now nonce) =
      simp (x, real) refl in
    let e = m.is_sealed in (simp e (opened ∙ read), simp e (seal-full c a m.encoded t full))

payload_of-matches :
    (a : Authority) (p : Principal) (b : Binding) (now nonce : ℕ)
    → matches (payload_of a p b now nonce) p b ≡ true
unfolding matches
payload_of-matches a p b now nonce =
    let same : (b.generation == b.generation) ≡ true = (==_iff b.generation b.generation).1 refl in
    simp
      (
        str_eq_refl p.id,
        str_eq_refl p.transport,
        str_eq_refl b.device_id,
        same,
        str_eq_refl b.effect,
        str_eq_refl b.action,
        bytes_eq_refl (hex b.arguments_digest),
        str_eq_refl b.policy_revision,
      )
      refl

abbrev pub IsDigest : List ℕ → Type 0
IsDigest d = All (λ x. x < 256) d

matches-path :
    (a : Authority) (p p' : Principal) (b b' : Binding) (now nonce : ℕ)
    → IsDigest b.arguments_digest
    → IsDigest b'.arguments_digest
    → matches (payload_of a p b now nonce) p' b' ≡ true
    → (p ≡ p') × (b ≡ b')
unfolding matches
matches-path a p p' b b' now nonce d d' e =
    let id : p.id ≡ p'.id = (eq_iff p.id p'.id).0 (ground arith) in
    let transport : p.transport ≡ p'.transport =
      (eq_iff p.transport p'.transport).0 (ground arith) in
    let device_id : b.device_id ≡ b'.device_id =
      (eq_iff b.device_id b'.device_id).0 (ground arith) in
    let generation : b.generation ≡ b'.generation =
      (==_iff b.generation b'.generation).0 (ground arith) in
    let effect : b.effect ≡ b'.effect = (eq_iff b.effect b'.effect).0 (ground arith) in
    let action : b.action ≡ b'.action = (eq_iff b.action b'.action).0 (ground arith) in
    let digest : b.arguments_digest ≡ b'.arguments_digest =
      hex_injective b.arguments_digest b'.arguments_digest d d'
        (bytes_eq-path (hex b.arguments_digest) (hex b'.arguments_digest) (ground arith)) in
    let revision : b.policy_revision ≡ b'.policy_revision =
      (eq_iff b.policy_revision b'.policy_revision).0 (ground arith) in
    (cc, cc)

-- A proof that was minted is accepted once: for the same principal and operation, from the moment it
-- was minted and before its time is over, if its nonce is not among those consumed, the verification
-- succeeds. JSON reads back the payload, the nonce is not nil, and base64 is read back without a dot.
pub mint-verify_and_consume :
    (c : Codec) (a : Authority) (ns : Nonces) (caller : Option Principal) (p : Principal)
    (b : Binding) (now nonce later store_now : ℕ) (sealed : List ℕ)
    → IsTransparent c
    → ReadsBack c (payload_of a p b now nonce)
    → principal_from caller ≡ some p
    → (nonce == 0) ≡ false
    → mint c a caller b now nonce ≡ ok sealed
    → now ≤ later
    → later < now + a.ttl
    → is_consumed nonce (purge store_now ns) ≡ false
    → (verify_and_consume c a ns caller b (some sealed) later store_now).1 ≡ ok tt
unfolding verify_and_consume check_proof check_payload consume
mint-verify_and_consume c a ns caller p b now nonce later store_now sealed t reads known real e
      after before fresh =
    let m = mint-IsMinted c a caller p b now nonce sealed known e in
    let (opened, full) = open_proof-minted c a p b now nonce sealed t reads real m in
    let bound = payload_of-matches a p b now nonce in
    let alive : (leb (now + a.ttl) later || ltb later now) ≡ false = ground arith in
    simp
      (
        known, m.valid, full, opened, alive, bound, fresh, verify_and_consume, check_proof,
        check_payload, consume,
      )
      refl

check_payload-ok :
    (x y : Payload) (p : Principal) (b : Binding) (now : ℕ)
    → check_payload x p b now ≡ ok y
    → (x.issued_at ≤ now) × (now < x.expires_at) × (matches x p b ≡ true)
unfolding check_payload
check_payload-ok x y p b now e = (ground arith, ground arith, ground arith)

-- A verification that succeeds has a caller, and its payload passes every check.
verify_and_consume-checked :
    (c : Codec) (a : Authority) (ns : Nonces) (caller : Option Principal) (b : Binding)
    (later store_now : ℕ) (sealed : List ℕ) (x : Payload)
    → open_proof c a sealed ≡ ok x
    → (verify_and_consume c a ns caller b (some sealed) later store_now).1 ≡ ok tt
    → (p : Principal) × (principal_from caller ≡ some p)
      × (y : Payload) × (check_payload x p b later ≡ ok y)
unfolding verify_and_consume check_proof
verify_and_consume-checked c a ns caller b later store_now sealed x opened good =
    elim (Option-cases (principal_from caller)) [
      | inl unknown ↦ absurd (ground arith)
      | inr (p, known) ↦ elim (Result-cases (check_payload x p b later)) [
        | inr (y, passed) ↦ (p, known, y, passed)
        | inl (e, refused) ↦ elim (Result-cases (validate_binding b)) [
          | inl (e', bad) ↦ absurd (ground arith)
          | inr (done, valid) ↦ absurd (ground arith)
        ]
      ]
    ]

-- A proof is good for nothing but the operation it was minted for: when a verification of it succeeds,
-- the caller is the principal that minted it, every field of the operation is the one confirmed, and
-- the time is not before the minting and not past its lifetime.
pub verified_as_minted :
    (c : Codec) (a : Authority) (ns : Nonces) (caller caller' : Option Principal) (p : Principal)
    (b b' : Binding) (now nonce later store_now : ℕ) (sealed : List ℕ)
    → IsTransparent c
    → ReadsBack c (payload_of a p b now nonce)
    → principal_from caller ≡ some p
    → (nonce == 0) ≡ false
    → mint c a caller b now nonce ≡ ok sealed
    → IsDigest b.arguments_digest
    → IsDigest b'.arguments_digest
    → (verify_and_consume c a ns caller' b' (some sealed) later store_now).1 ≡ ok tt
    → (principal_from caller' ≡ some p) × (b' ≡ b) × (now ≤ later) × (later < now + a.ttl)
verified_as_minted c a ns caller caller' p b b' now nonce later store_now sealed t reads known real
      e d d' good =
    let m = mint-IsMinted c a caller p b now nonce sealed known e in
    let (opened, full) = open_proof-minted c a p b now nonce sealed t reads real m in
    let (p', known', y, passed) =
      verify_and_consume-checked c a ns caller' b' later store_now sealed
        (payload_of a p b now nonce) opened good in
    let (after, before, bound) =
      check_payload-ok (payload_of a p b now nonce) y p' b' later passed in
    let (same, whole) = matches-path a p p' b b' now nonce d d' bound in
    (known' ∙ ap some (sym same), sym whole, after, before)
