-- ===== src/Identity.antt =====
-- The pins of device identities: PinIdentity and VerifyIdentity of internal/store/store.go over the
-- table device_identities of internal/store/migrate.go. A time is a count of milliseconds.
mod Tests
use jetkvm_cli.Base.{
  ℕ, ◌≡◌, ◌⊎◌, inl, inr, refl, sym, subst, ◌∙◌, ◌≢◌, String, Bool, true, false, not, ◌&&◌, ◌||◌,
  Option, none, some, List, [], ◌∷◌, arith, any, str_eq, str_eq_refl, if◌then◌else◌, Result, ok,
  err, Bool-cases, Option-cases, eq_iff,
}

pub data IdentityError : Type 0 where
  identity_conflict identity_not_found identity_mismatch : IdentityError

pub record IdentityPin : Type 0 where
  pub alias : String
  pub origin : String
  pub device_id : String
  pub created_at : ℕ
  pub updated_at : ℕ

unfoldable pub find_pin : String → List IdentityPin → Option IdentityPin
find_pin alias [] = none
find_pin alias (p ∷ ps) =
    let rest = find_pin alias ps in if str_eq p.alias alias then some p else rest

-- The UNIQUE constraints of the table, on the alias, the origin and the device ID.
abbrev pub clashes : IdentityPin → IdentityPin → Bool
clashes p q = str_eq q.alias p.alias || str_eq q.origin p.origin || str_eq q.device_id p.device_id

-- INSERT … ON CONFLICT DO NOTHING
unfoldable pub insert_pin : IdentityPin → List IdentityPin → List IdentityPin
insert_pin p ps = if any (clashes p) ps then ps else p ∷ ps

abbrev pub same_pin : IdentityPin → IdentityPin → Bool
same_pin p q = str_eq p.origin q.origin && str_eq p.device_id q.device_id

-- The rows to commit, with the stored pin, and whether it was there before.
unfoldable pub pin_identity :
    List IdentityPin
    → IdentityPin
    → ℕ
    → List IdentityPin × Result IdentityError (IdentityPin × Bool)
pin_identity ps pin now =
    if str_eq pin.alias "" || str_eq pin.origin "" || str_eq pin.device_id ""
    then (ps, err identity_conflict)
    else let row : IdentityPin = record pin { created_at = now; updated_at = now } in
      elim (find_pin pin.alias (insert_pin row ps)) [
        | none ↦ (ps, err identity_conflict)
        | some stored ↦
            if not (same_pin stored pin)
            then (ps, err identity_conflict)
            else (insert_pin row ps, ok (stored, any (clashes row) ps))
      ]

unfoldable pub verify_identity :
    List IdentityPin → String → String → String → Result IdentityError IdentityPin
verify_identity ps alias origin observed = elim (find_pin alias ps) [
  | none ↦ err identity_not_found
  | some p ↦
      if not (str_eq p.origin origin) || not (str_eq p.device_id observed)
      then err identity_mismatch
      else ok p
]

-- The pins after a history of calls of PinIdentity.
unfoldable pub pin_all : List IdentityPin → List (IdentityPin × ℕ) → List IdentityPin
pin_all ps [] = ps
pin_all ps ((pin, now) ∷ calls) = pin_all (pin_identity ps pin now).0 calls

find_pin-any :
    (alias : String) (ps : List IdentityPin) (p row : IdentityPin)
    → find_pin alias ps ≡ some p
    → str_eq row.alias alias ≡ true
    → any (clashes row) ps ≡ true
unfolding find_pin
find_pin-any alias [] p row h same = cc
find_pin-any alias (q ∷ ps) p row h same = elim (Bool-cases (str_eq q.alias alias)) [
  | inl here ↦
      let e : str_eq q.alias row.alias ≡ true =
        (eq_iff q.alias row.alias).1
          ((eq_iff q.alias alias).0 here ∙ sym ((eq_iff row.alias alias).0 same)) in
      ground arith
  | inr other ↦ ground (arith, find_pin-any alias ps p row (ground arith) same)
]

insert_pin-find_pin :
    (alias : String) (ps : List IdentityPin) (p row : IdentityPin)
    → find_pin alias ps ≡ some p
    → find_pin alias (insert_pin row ps) ≡ some p
unfolding insert_pin find_pin
insert_pin-find_pin alias ps p row h = elim (Bool-cases (str_eq row.alias alias)) [
  | inl same ↦ ground (arith, find_pin-any alias ps p row h same)
  | inr other ↦ ground arith
]

pin_identity-find_pin :
    (alias : String) (ps : List IdentityPin) (p pin : IdentityPin) (now : ℕ)
    → find_pin alias ps ≡ some p
    → find_pin alias (pin_identity ps pin now).0 ≡ some p
unfolding pin_identity
pin_identity-find_pin alias ps p pin now h =
    ground
      (arith, insert_pin-find_pin alias ps p (record pin { created_at = now; updated_at = now }) h)

pin_all-find_pin :
    (alias : String) (ps : List IdentityPin) (p : IdentityPin) (calls : List (IdentityPin × ℕ))
    → find_pin alias ps ≡ some p
    → find_pin alias (pin_all ps calls) ≡ some p
unfolding pin_all
pin_all-find_pin alias ps p [] h = h
pin_all-find_pin alias ps p ((pin, now) ∷ calls) h =
    pin_all-find_pin alias (pin_identity ps pin now).0 p calls
      (pin_identity-find_pin alias ps p pin now h)

verify_found :
    (ps : List IdentityPin) (alias origin observed : String) (p : IdentityPin)
    → find_pin alias ps ≡ some p
    → ((origin ≡ p.origin)
        × (observed ≡ p.device_id)
        × (verify_identity ps alias origin observed ≡ ok p))
      ⊎ (((origin ≢ p.origin) ⊎ (observed ≢ p.device_id))
          × (verify_identity ps alias origin observed ≡ err identity_mismatch))
unfolding verify_identity
verify_found ps alias origin observed p h =
    ground (arith, eq_iff p.origin origin, eq_iff p.device_id observed)

-- A pin is immutable: once an alias is pinned, no history of calls, for this alias or others, changes
-- what verification under the alias says. It accepts the pinned origin with the pinned device and
-- returns the pin, and any other origin or device is a mismatch.
pub pinned_identity_is_final :
    (ps : List IdentityPin) (calls : List (IdentityPin × ℕ)) (alias origin observed : String)
    (p : IdentityPin)
    → find_pin alias ps ≡ some p
    → ((origin ≡ p.origin)
        × (observed ≡ p.device_id)
        × (verify_identity (pin_all ps calls) alias origin observed ≡ ok p))
      ⊎ (((origin ≢ p.origin) ⊎ (observed ≢ p.device_id))
          × (verify_identity (pin_all ps calls) alias origin observed ≡ err identity_mismatch))
pinned_identity_is_final ps calls alias origin observed p h =
    verify_found (pin_all ps calls) alias origin observed p (pin_all-find_pin alias ps p calls h)

pin_identity-done :
    (ps ps' : List IdentityPin) (pin stored : IdentityPin) (now : ℕ) (existing : Bool)
    → pin_identity ps pin now ≡ (ps', ok (stored, existing))
    → (find_pin pin.alias ps' ≡ some stored) × (same_pin stored pin ≡ true)
unfolding pin_identity
pin_identity-done ps ps' pin stored now existing h =
    let row : IdentityPin = record pin { created_at = now; updated_at = now } in
    elim (Option-cases (find_pin pin.alias (insert_pin row ps))) [
      | inl missing ↦ ground arith
      | inr (p, found) ↦
          let same : p ≡ stored = ground arith in
          let rows : insert_pin row ps ≡ ps' = ground arith in
          let agrees : same_pin p pin ≡ true = ground arith in
          (
            subst (λ x. find_pin pin.alias x ≡ some stored) rows
                (subst (λ x. find_pin pin.alias (insert_pin row ps) ≡ some x) same found),
            subst (λ x. same_pin x pin ≡ true) same agrees,
          )
    ]

-- What PinIdentity accepts is what VerifyIdentity accepts: after a call that succeeded, verification of
-- the same alias, origin and device returns the pin that the call returned.
pub pin_identity-verify_identity :
    (ps ps' : List IdentityPin) (pin stored : IdentityPin) (now : ℕ) (existing : Bool)
    → pin_identity ps pin now ≡ (ps', ok (stored, existing))
    → verify_identity ps' pin.alias pin.origin pin.device_id ≡ ok stored
unfolding verify_identity
pin_identity-verify_identity ps ps' pin stored now existing h =
    let (found, agrees) = pin_identity-done ps ps' pin stored now existing h in
    ground (arith, found, agrees)
