-- ===== src/Confirmation/Tokens.antt =====
-- Tokens of internal/confirmation/confirmation.go sealed and opened again.
use jetkvm_cli.Base.{
  ℕ, ◌/◌, ◌%◌, ◌<◌, ◌≡◌, ◌⊎◌, inl, inr, refl, ap, ◌∙◌, true, false, some, List, [], ◌∷◌, ◌++◌, All,
  arith, ◌==◌, ==_iff, any, get_or, drop, is_empty,
}
use jetkvm_cli.Confirmation.{
  Codec, Authority, Payload, dot, bytes_eq, hex, hex_digit, cut, split_token, seal, open_proof,
  read_payload,
}

-- What the code relies on of the packages: base64 is read back, has no dot, and is not empty for what is
-- not empty, as no MAC and no JSON text is.
pub record IsTransparent (c : Codec) : Type 0 where
  pub decodes : (b : List ℕ) → c.decode (c.encode b) ≡ some b
  pub no_dot : (b : List ℕ) → any (λ x. x == dot) (c.encode b) ≡ false
  pub encodes_full : (b : List ℕ) → is_empty b ≡ false → is_empty (c.encode b) ≡ false
  pub mac_full : (key b : List ℕ) → is_empty (c.mac key b) ≡ false
  pub marshal_full : (p : Payload) (b : List ℕ) → c.marshal p ≡ some b → is_empty b ≡ false

pub bytes_eq_refl : (xs : List ℕ) → bytes_eq xs xs ≡ true
unfolding bytes_eq
bytes_eq_refl [] = refl
bytes_eq_refl (x ∷ xs) = ground (arith, bytes_eq_refl xs)

pub bytes_eq-path : (xs ys : List ℕ) → bytes_eq xs ys ≡ true → xs ≡ ys
unfolding bytes_eq
bytes_eq-path [] [] e = refl
bytes_eq-path [] (y ∷ ys) e = absurd (ground arith)
bytes_eq-path (x ∷ xs) [] e = absurd (ground arith)
bytes_eq-path (x ∷ xs) (y ∷ ys) e =
    let rest = bytes_eq-path xs ys (ground arith) in
    let first : x ≡ y = (==_iff x y).0 (ground arith) in
    ap (λ z. z ∷ xs) first ∙ ap (λ zs. y ∷ zs) rest

hex_digit_injective : (m n : ℕ) → m < 16 → n < 16 → hex_digit m ≡ hex_digit n → m ≡ n
hex_digit_injective m n small small' e = ground arith

byte_injective : (x y : ℕ) → x / 16 ≡ y / 16 → x % 16 ≡ y % 16 → x ≡ y
byte_injective x y high low = omega arith

pub hex_injective :
    (xs ys : List ℕ) → All (λ b. b < 256) xs → All (λ b. b < 256) ys → hex xs ≡ hex ys → xs ≡ ys
unfolding hex
hex_injective [] [] s t e = refl
hex_injective [] (y ∷ ys) s t e = absurd (ground arith)
hex_injective (x ∷ xs) [] s t e = absurd (ground arith)
hex_injective (x ∷ xs) (y ∷ ys) (p, ps) (q, qs) e =
    let high : hex_digit (x / 16) ≡ hex_digit (y / 16) = ap (λ l. get_or l 0 0) e in
    let low : hex_digit (x % 16) ≡ hex_digit (y % 16) = ap (λ l. get_or l 1 0) e in
    let rest : hex xs ≡ hex ys = ap (drop 2) e in
    let first =
      byte_injective x y (hex_digit_injective (x / 16) (y / 16) (omega arith) (omega arith) high)
        (hex_digit_injective (x % 16) (y % 16) (omega arith) (omega arith) low) in
    ap (λ z. z ∷ xs) first ∙ ap (λ zs. y ∷ zs) (hex_injective xs ys ps qs rest)

cut-append : (l r : List ℕ) → any (λ x. x == dot) l ≡ false → cut (l ++ (dot ∷ r)) ≡ some (l, r)
unfolding cut
cut-append [] r e = refl
cut-append (x ∷ l) r e =
    let rest = cut-append l r (ground arith) in
    let other : (x == dot) ≡ false = ground arith in simp (other, rest) refl

-- What open reads of a token that was sealed with the same key.
pub open_proof-seal :
    (c : Codec) (a : Authority) (encoded : List ℕ)
    → IsTransparent c
    → is_empty encoded ≡ false
    → open_proof c a (seal c a encoded) ≡ read_payload (c.unmarshal encoded)
unfolding open_proof split_token
open_proof-seal c a encoded t full =
    let m = c.mac a.key encoded in
    let split = cut-append (c.encode encoded) (c.encode m) (t.no_dot encoded) in
    let left = t.encodes_full encoded full in
    let right = t.encodes_full m (t.mac_full a.key encoded) in
    simp
      (split, left, right, t.decodes encoded, t.decodes m, bytes_eq_refl m, open_proof, split_token)
      refl

pub seal-full :
    (c : Codec) (a : Authority) (encoded : List ℕ)
    → IsTransparent c
    → is_empty encoded ≡ false
    → is_empty (seal c a encoded) ≡ false
seal-full c a encoded t full = elim (List-cases (c.encode encoded)) [
  | inl empty ↦ simp empty refl
  | inr (x, xs, e) ↦ simp e refl
]
  where
    List-cases : (l : List ℕ) → (l ≡ []) ⊎ ((x : ℕ) × (xs : List ℕ) × (l ≡ x ∷ xs))
    List-cases [] = inl refl
    List-cases (x ∷ xs) = inr (x, xs, refl)
