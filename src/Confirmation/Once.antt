-- ===== src/Confirmation/Once.antt =====
-- How often a proof of internal/confirmation/confirmation.go is accepted by an authority with a
-- MemoryNonceStore. The authority and the store read the clock one after the other.
use jetkvm_cli.Base.{
  ℕ, ◌≤◌, ◌<◌, ◌≡◌, ◌≢◌, ◌⊎◌, inl, inr, refl, subst, ap, ◌∙◌, Bool, true, false, ◌&&◌, Option, some,
  List, [], ◌∷◌, All, arith, ◌==◌, any, Result, ok, Bool-cases, Result-cases,
}
use jetkvm_cli.Confirmation.{
  ConfirmationError, Principal, Binding, Codec, Authority, Payload, Nonces, open_proof,
  check_payload, check_proof, validate_binding, purge, is_consumed, consume, verify_and_consume,
}

pub record Attempt : Type 0 where
  pub caller : Option Principal
  pub binding : Binding
  pub proof : Option (List ℕ)
  pub now : ℕ
  pub store_now : ℕ

abbrev pub attempt :
    Codec → Authority → Nonces → Attempt → Nonces × Result ConfirmationError (Unit {0})
attempt c a ns t = verify_and_consume c a ns t.caller t.binding t.proof t.now t.store_now

unfoldable pub attempts : Codec → Authority → Nonces → List Attempt → Nonces
attempts c a ns [] = ns
attempts c a ns (t ∷ ts) = attempts c a (attempt c a ns t).0 ts

-- The store has the nonce with this expiry.
abbrev pub has_nonce : ℕ → ℕ → Nonces → Bool
has_nonce nonce expires_at ns = any (λ n. (n.0 == nonce) && (n.1 == expires_at)) ns

purge-has_nonce :
    (nonce expires_at now : ℕ) (ns : Nonces)
    → now < expires_at
    → has_nonce nonce expires_at ns ≡ true
    → has_nonce nonce expires_at (purge now ns) ≡ true
purge-has_nonce nonce expires_at now [] early h = h
purge-has_nonce nonce expires_at now ((n, e) ∷ ns) early h =
    ground (arith, purge-has_nonce nonce expires_at now ns early)

has_nonce-is_consumed :
    (nonce expires_at : ℕ) (ns : Nonces)
    → has_nonce nonce expires_at ns ≡ true
    → is_consumed nonce ns ≡ true
has_nonce-is_consumed nonce expires_at [] h = h
has_nonce-is_consumed nonce expires_at ((n, e) ∷ ns) h =
    ground (arith, has_nonce-is_consumed nonce expires_at ns)

consume-has_nonce :
    (nonce expires_at : ℕ) (ns : Nonces) (n e now : ℕ)
    → now < expires_at
    → has_nonce nonce expires_at ns ≡ true
    → has_nonce nonce expires_at (consume ns n e now).0 ≡ true
unfolding consume
consume-has_nonce nonce expires_at ns n e now early h =
    let kept = purge-has_nonce nonce expires_at now ns early h in
    elim (Bool-cases (is_consumed n (purge now ns))) [
      | inl used ↦ rw (used, consume) kept
      | inr free ↦ rw (free, consume) (ground (arith, kept))
    ]

attempt-has_nonce :
    (c : Codec) (a : Authority) (nonce expires_at : ℕ) (ns : Nonces) (t : Attempt)
    → t.store_now < expires_at
    → has_nonce nonce expires_at ns ≡ true
    → has_nonce nonce expires_at (attempt c a ns t).0 ≡ true
unfolding verify_and_consume
attempt-has_nonce c a nonce expires_at ns t early h =
    elim (Result-cases (check_proof c a t.caller t.binding t.proof t.now)) [
      | inl (e, refused) ↦ rw (refused, verify_and_consume) h
      | inr (x, passed) ↦
          rw (passed, verify_and_consume)
            (consume-has_nonce nonce expires_at ns x.nonce x.expires_at t.store_now early h)
    ]

attempts-has_nonce :
    (c : Codec) (a : Authority) (nonce expires_at : ℕ) (ns : Nonces) (ts : List Attempt)
    → All (λ t. t.store_now < expires_at) ts
    → has_nonce nonce expires_at ns ≡ true
    → has_nonce nonce expires_at (attempts c a ns ts) ≡ true
unfolding attempts
attempts-has_nonce c a nonce expires_at ns [] early h = h
attempts-has_nonce c a nonce expires_at ns (t ∷ ts) (early, rest) h =
    attempts-has_nonce c a nonce expires_at (attempt c a ns t).0 ts rest
      (attempt-has_nonce c a nonce expires_at ns t early h)

-- A check that passes is one of the payload that the proof opens to, before its expiry.
check_proof-ok :
    (c : Codec) (a : Authority) (caller : Option Principal) (b : Binding) (sealed : List ℕ)
    (now : ℕ) (x y : Payload)
    → open_proof c a sealed ≡ ok x
    → check_proof c a caller b (some sealed) now ≡ ok y
    → (y ≡ x) × (now < x.expires_at)
unfolding check_proof check_payload
check_proof-ok c a caller b sealed now x y opened passed =
    elim (Result-cases (validate_binding b)) [
      | inl (e, bad) ↦ absurd (ground arith)
      | inr (done, valid) ↦ (ground arith, ground arith)
    ]

consume-ok :
    (ns : Nonces) (n e now : ℕ)
    → (consume ns n e now).1 ≡ ok tt
    → (is_consumed n (purge now ns) ≡ false) × ((consume ns n e now).0 ≡ (n, e) ∷ purge now ns)
unfolding consume
consume-ok ns n e now good = elim (Bool-cases (is_consumed n (purge now ns))) [
  | inl used ↦ absurd (ground arith)
  | inr free ↦ (free, rw (free, consume) refl)
]

-- An attempt that succeeds is a check and a new entry of the store.
attempt-ok :
    (c : Codec) (a : Authority) (ns : Nonces) (t : Attempt) (sealed : List ℕ) (x : Payload)
    → t.proof ≡ some sealed
    → open_proof c a sealed ≡ ok x
    → (attempt c a ns t).1 ≡ ok tt
    → (is_consumed x.nonce (purge t.store_now ns) ≡ false)
      × ((attempt c a ns t).0 ≡ (x.nonce, x.expires_at) ∷ purge t.store_now ns)
      × (t.now < x.expires_at)
unfolding verify_and_consume
attempt-ok c a ns t sealed x given opened good =
    elim (Result-cases (check_proof c a t.caller t.binding t.proof t.now)) [
      | inl (e, refused) ↦ absurd (ground arith)
      | inr (y, passed) ↦
          let (same, early) =
            check_proof-ok c a t.caller t.binding sealed t.now x y opened
              (subst (λ p. check_proof c a t.caller t.binding p t.now ≡ ok y) given passed) in
          let e : attempt c a ns t ≡ consume ns x.nonce x.expires_at t.store_now =
            simp (passed, same, verify_and_consume) refl in
          let (free, after) =
            consume-ok ns x.nonce x.expires_at t.store_now (subst (λ r. r.1 ≡ ok tt) e good) in
          (free, ap (λ r. r.0) e ∙ after, early)
    ]

has_nonce_here : (n e : ℕ) (rest : Nonces) → has_nonce n e ((n, e) ∷ rest) ≡ true
has_nonce_here n e rest = ground arith

-- An attempt does not straddle the expiry of a payload: it is over when the authority reads the clock,
-- or not yet over when the store does.
abbrev pub IsPrompt : Payload → Attempt → Type 0
IsPrompt x t = (x.expires_at ≤ t.now) ⊎ (t.store_now < x.expires_at)

-- A proof is accepted once: after an attempt that succeeded with it, and any attempts in between, no
-- attempt succeeds with it, for any caller and operation, if the last one does not straddle the expiry
-- of its payload and the store's clock in between was not past that expiry.
pub accepted_once :
    (c : Codec) (a : Authority) (ns : Nonces) (first last : Attempt) (between : List Attempt)
    (sealed : List ℕ) (x : Payload)
    → open_proof c a sealed ≡ ok x
    → first.proof ≡ some sealed
    → last.proof ≡ some sealed
    → (attempt c a ns first).1 ≡ ok tt
    → All (λ t. t.store_now < x.expires_at) between
    → IsPrompt x last
    → (attempt c a (attempts c a (attempt c a ns first).0 between) last).1 ≢ ok tt
accepted_once c a ns first last between sealed x opened given given' good early prompt again =
    let ns' = attempts c a (attempt c a ns first).0 between in
    let (free, after, first_in_time) = attempt-ok c a ns first sealed x given opened good in
    let here : has_nonce x.nonce x.expires_at (attempt c a ns first).0 ≡ true =
      simp after (has_nonce_here x.nonce x.expires_at (purge first.store_now ns)) in
    let kept =
      attempts-has_nonce c a x.nonce x.expires_at (attempt c a ns first).0 between early here in
    let (free', after', in_time) = attempt-ok c a ns' last sealed x given' opened again in
    elim prompt [
      | inl over ↦ absurd (omega (arith, over, in_time))
      | inr live ↦
          let there = purge-has_nonce x.nonce x.expires_at last.store_now ns' live kept in
          let used = has_nonce-is_consumed x.nonce x.expires_at (purge last.store_now ns') there in
          absurd (grind (arith, used, free'))
    ]

purge-is_consumed :
    (n now : ℕ) (ns : Nonces) → is_consumed n ns ≡ false → is_consumed n (purge now ns) ≡ false
purge-is_consumed n now [] h = h
purge-is_consumed n now ((m, e) ∷ ns) h = ground (arith, purge-is_consumed n now ns)

-- A proof can be accepted twice: when an attempt succeeded with it, and a second one passes the check
-- of the authority before the expiry of its payload, but reaches the store after that expiry, then the
-- second succeeds as well, since the store has dropped the nonce by then.
pub straddling_accepted_twice :
    (c : Codec) (a : Authority) (ns : Nonces) (first second : Attempt) (sealed : List ℕ)
    (x : Payload)
    → open_proof c a sealed ≡ ok x
    → first.proof ≡ some sealed
    → (attempt c a ns first).1 ≡ ok tt
    → check_proof c a second.caller second.binding second.proof second.now ≡ ok x
    → x.expires_at ≤ second.store_now
    → (attempt c a (attempt c a ns first).0 second).1 ≡ ok tt
unfolding verify_and_consume consume
straddling_accepted_twice c a ns first second sealed x opened given good passed late =
    let (free, after, in_time) = attempt-ok c a ns first sealed x given opened good in
    let gone : purge second.store_now ((x.nonce, x.expires_at) ∷ purge first.store_now ns)
        ≡ purge second.store_now (purge first.store_now ns) =
      ground arith in
    let unused = purge-is_consumed x.nonce second.store_now (purge first.store_now ns) free in
    let unseen : is_consumed x.nonce (purge second.store_now (attempt c a ns first).0) ≡ false =
      simp (after, gone) unused in
    simp (passed, unseen, verify_and_consume, consume) refl
