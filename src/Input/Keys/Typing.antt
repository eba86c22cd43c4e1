-- ===== src/Input/Keys/Typing.antt =====
-- Typed text of internal/input/keys.go: what the keystrokes of a text say on a US keyboard.
use jetkvm_cli.Base.{
  ℕ, suc, ◌+◌, ◌-◌, ◌≤◌, ◌<◌, ◌≡◌, ◌⊎◌, refl, ap, String, Bool, true, false, ◌&&◌, ◌||◌, Option,
  none, some, List, [], ◌∷◌, arith, length, All, map, leb, ◌==◌, if◌then◌else◌, ok, Option-cases,
  Result-cases, inl, inr, passes_until, passes_until-lt,
}
use jetkvm_cli.Input.Types.{Keystroke}
use jetkvm_cli.Input.Keys.Tables.{codes, us_rune, us_punctuation, punctuation_of}
use jetkvm_cli.Input.Keys.{max_text_runes, strokes_of, compile_text}

abbrev mark_of : List (ℕ × ℕ × ℕ) → Keystroke → Option ℕ
mark_of [] k = none
mark_of ((v, modifier, key) ∷ rest) k =
    if modifier == k.modifier && key == k.key then some v else mark_of rest k

-- The character that a keystroke types on a US keyboard.
unfoldable pub typed : Keystroke → Option ℕ
unfolding us_punctuation
typed k =
    if leb 0x04 k.key && leb k.key 0x1d
    then some (if k.modifier == 0 then b'a' + k.key - 4 else b'A' + k.key - 4)
    else if k.modifier == 0 && leb 0x1e k.key && leb k.key 0x26
    then some (b'1' + k.key - 0x1e)
    else if k.modifier == 0 && k.key == 0x27
    then some b'0'
    else mark_of us_punctuation k

abbrev says : Option ℕ → ℕ → Bool
says none v = false
says (some w) v = w == v

abbrev types_back : Option Keystroke → ℕ → Bool
types_back none v = true
types_back (some k) v = says (typed k) v && leb k.key 0x38 && (k.modifier == 0 || k.modifier == 2)

ascii_table : passes_until (λ v. types_back (us_rune v) v) 128 ≡ true
unfolding passes_until us_rune typed
ascii_table = refl

abbrev BelowAscii : List (ℕ × ℕ × ℕ) → Type 0
BelowAscii = All (λ e. e.0 < 128)

marks_are_ascii : BelowAscii us_punctuation
unfolding us_punctuation
marks_are_ascii = omega arith

punctuation_of-lt :
    (l : List (ℕ × ℕ × ℕ)) (v : ℕ) (k : Keystroke)
    → BelowAscii l
    → punctuation_of l v ≡ some k
    → v < 128
unfolding punctuation_of
punctuation_of-lt [] v k b h = cc
punctuation_of-lt ((w, modifier, key) ∷ rest) v k b h = ground (arith, punctuation_of-lt rest v k)

us_rune-lt : (v : ℕ) (k : Keystroke) → us_rune v ≡ some k → v < 128
unfolding us_rune
us_rune-lt v k h = ground (arith, punctuation_of-lt us_punctuation v k marks_are_ascii)

-- A supported character is typed back by its keystroke, which holds at most the left shift.
typed-us_rune :
    (v : ℕ) (k : Keystroke)
    → us_rune v ≡ some k
    → (typed k ≡ some v) × (k.key ≤ 0x38) × ((k.modifier ≡ 0) ⊎ (k.modifier ≡ 2))
typed-us_rune v k h =
    let checked =
      passes_until-lt (λ v. types_back (us_rune v) v) 128 v (us_rune-lt v k h) ascii_table in
    ground (arith, checked)

abbrev pub IsTypable : Keystroke → Type 0
IsTypable k = (k.key ≤ 0x38) × ((k.modifier ≡ 0) ⊎ (k.modifier ≡ 2))

strokes_of-nil :
    (ks : List Keystroke)
    → strokes_of [] ≡ ok ks
    → (map typed ks ≡ map some []) × (length ks ≡ 0) × All IsTypable ks
unfolding strokes_of
strokes_of-nil [] h = (refl, refl, tt)
strokes_of-nil (k ∷ ks) h = cc

-- What strokes_of returns on a list whose first rune is supported.
strokes_of-cons :
    (v : ℕ) (rest : List ℕ) (ks : List Keystroke)
    → strokes_of (v ∷ rest) ≡ ok ks
    → (k : Keystroke) × (tail : List Keystroke) × (us_rune v ≡ some k)
      × (strokes_of rest ≡ ok tail)
      × (ks ≡ k ∷ tail)
unfolding strokes_of
strokes_of-cons v rest ks h = elim (Option-cases (us_rune v)) [
  | inl none_of ↦ ground arith
  | inr (k, found) ↦ elim (Result-cases (strokes_of rest)) [
    | inl (e, refused) ↦ ground arith
    | inr (tail, done) ↦ (k, tail, found, done, ground arith)
  ]
]

typed-strokes_of :
    (s : List ℕ) (ks : List Keystroke)
    → strokes_of s ≡ ok ks
    → (map typed ks ≡ map some s) × (length ks ≡ length s) × All IsTypable ks
typed-strokes_of [] ks h = strokes_of-nil ks h
typed-strokes_of (v ∷ rest) ks h =
    let (k, tail, found, done, split) = strokes_of-cons v rest ks h in
    let one = typed-us_rune v k found in
    let more = typed-strokes_of rest tail done in
    rw split (cc (one.0, more.0), ap suc more.1, ((one.1, one.2), more.2))

-- CompileText types the text and nothing else: read on a US keyboard, the keystrokes spell the text
-- rune by rune, there are 1 to 4096 of them, and each is one known key with at most the left shift.
pub compile_text-types :
    (text : String) (ks : List Keystroke)
    → compile_text text ≡ ok ks
    → (map typed ks ≡ map some (codes text))
      × (1 ≤ length ks)
      × (length ks ≤ max_text_runes)
      × All IsTypable ks
unfolding compile_text
compile_text-types text ks h =
    let spelled = typed-strokes_of (codes text) ks (ground arith) in
    (spelled.0, ground arith, ground arith, spelled.2)
