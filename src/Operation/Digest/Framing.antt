-- ===== src/Operation/Digest/Framing.antt =====
-- writeDigestField of internal/operation/operation.go, and the big-endian integers that it frames.
use mathlib.Core.List.{append_assoc}
use jetkvm_cli.Base.{
  ℕ, ◌/◌, ◌%◌, ◌^◌, ◌<◌, ◌≡◌, ◌≢◌, refl, sym, ◌∙◌, List, [], ◌∷◌, ◌++◌, arith, length, All,
}

-- binary.BigEndian.PutUint64
unfoldable pub put_uint64 : ℕ → List ℕ
put_uint64 v =
    v / 2 ^ 56 % 256
    ∷ v / 2 ^ 48 % 256
    ∷ v / 2 ^ 40 % 256
    ∷ v / 2 ^ 32 % 256
    ∷ v / 2 ^ 24 % 256
    ∷ v / 2 ^ 16 % 256
    ∷ v / 2 ^ 8 % 256
    ∷ v % 256
    ∷ []

-- The sixteen bytes `id[:]` of a UUID, for the number that they spell.
unfoldable pub put_uuid : ℕ → List ℕ
unfolding put_uint64
put_uuid id = put_uint64 (id / 2 ^ 64) ++ put_uint64 (id % 2 ^ 64)

unfoldable pub write_digest_field : List ℕ → List ℕ
write_digest_field value = put_uint64 (length value) ++ value

unfoldable pub frames : List (List ℕ) → List ℕ
unfolding write_digest_field
frames [] = []
frames (f ∷ fs) = write_digest_field f ++ frames fs

pub put_uint64-injective : (a b : ℕ) → a < 2 ^ 64 → b < 2 ^ 64 → put_uint64 a ≡ put_uint64 b → a ≡ b
unfolding put_uint64
put_uint64-injective a b ha hb e = ground arith

append_split {ℓ} :
    {A : Type ℓ} (xs ys : List A) {us vs : List A}
    → length xs ≡ length ys
    → xs ++ us ≡ ys ++ vs
    → (xs ≡ ys) × (us ≡ vs)
append_split [] [] l e = (refl, e)
append_split [] (y ∷ ys) l e = absurd (omega arith)
append_split (x ∷ xs) [] l e = absurd (omega arith)
append_split (x ∷ xs) (y ∷ ys) {us} {vs} l e =
    let tails = append_split xs ys {us = us} {vs = vs} (omega arith) (cc) in (cc tails.0, tails.1)

length-put_uint64 : (a b : ℕ) → length (put_uint64 a) ≡ length (put_uint64 b)
unfolding put_uint64
length-put_uint64 a b = refl

put_uint64-split :
    (a b : ℕ) {us vs : List ℕ}
    → a < 2 ^ 64
    → b < 2 ^ 64
    → put_uint64 a ++ us ≡ put_uint64 b ++ vs
    → (a ≡ b) × (us ≡ vs)
put_uint64-split a b ha hb e =
    let parts = append_split (put_uint64 a) (put_uint64 b) (length-put_uint64 a b) e in
    (put_uint64-injective a b ha hb parts.0, parts.1)

pub put_uuid-injective : (a b : ℕ) → a < 2 ^ 128 → b < 2 ^ 128 → put_uuid a ≡ put_uuid b → a ≡ b
unfolding put_uuid
put_uuid-injective a b ha hb e =
    let parts =
      append_split (put_uint64 (a / 2 ^ 64)) (put_uint64 (b / 2 ^ 64))
        (length-put_uint64 (a / 2 ^ 64) (b / 2 ^ 64)) e in
    omega (
      arith,
      put_uint64-injective (a / 2 ^ 64) (b / 2 ^ 64) (omega arith) (omega arith) parts.0,
      put_uint64-injective (a % 2 ^ 64) (b % 2 ^ 64) (omega arith) (omega arith) parts.1,
    )

write_digest_field-split :
    (f g : List ℕ) {us vs : List ℕ}
    → length f < 2 ^ 64
    → length g < 2 ^ 64
    → write_digest_field f ++ us ≡ write_digest_field g ++ vs
    → (f ≡ g) × (us ≡ vs)
unfolding write_digest_field
write_digest_field-split f g {us} {vs} hf hg e =
    let outer =
      put_uint64-split (length f) (length g) hf hg
        (sym (append_assoc _ f us) ∙ e ∙ append_assoc _ g vs) in
    append_split f g outer.0 outer.1

abbrev pub IsFramable : List ℕ → Type 0
IsFramable f = length f < 2 ^ 64

write_digest_field-ne-nil : (f us : List ℕ) → write_digest_field f ++ us ≢ []
unfolding write_digest_field put_uint64
write_digest_field-ne-nil f us e = cc

-- The framing is unambiguous: two sequences of fields that give the hash the same bytes are the
-- same sequence, as long as no field has 2^64 bytes or more.
pub frames-injective :
    (fs gs : List (List ℕ))
    → All IsFramable fs
    → All IsFramable gs
    → frames fs ≡ frames gs
    → fs ≡ gs
unfolding frames
frames-injective [] [] hf hg e = refl
frames-injective [] (g ∷ gs) hf hg e = absurd (write_digest_field-ne-nil g (frames gs) (sym e))
frames-injective (f ∷ fs) [] hf hg e = absurd (write_digest_field-ne-nil f (frames fs) e)
frames-injective (f ∷ fs) (g ∷ gs) hf hg e =
    let parts = write_digest_field-split f g hf.0 hg.0 e in
    cc (parts.0, frames-injective fs gs hf.1 hg.1 parts.1)
