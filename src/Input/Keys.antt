-- ===== src/Input/Keys.antt =====
-- internal/input/keys.go: key combinations and typed text. A name or text is its code points; of
-- Unicode, strings.ToUpper matters only for the two letters whose upper case is ASCII, and
-- strings.TrimSpace for the spaces of unicode.IsSpace. Strings that are not UTF-8 are not modelled.
pub mod Tables
pub mod Typing
pub mod Combos
use Prim.Native.Nat.{bit_and, bit_or}
use mathlib.Core.List.{reverse}
use jetkvm_cli.Base.{
  ℕ, suc, ◌+◌, ◌-◌, ◌≡◌, refl, String, Bool, true, false, not, ◌&&◌, ◌||◌, Option, none, some, List,
  [], ◌∷◌, ◌++◌, arith, length, any, is_empty, keep_if, map, ltb, leb, ◌==◌, if◌then◌else◌, Result,
  ok, err, ◌>>=◌, ◌>>◌, refuse_if,
}
use jetkvm_cli.Input.Types.{InputError, unknown_key, unsupported_text, Keystroke}
use jetkvm_cli.Input.Protocol.{keyboard_slots}
use Tables.{codes, usage_of, modifier_usages, key_usages, us_rune}

abbrev pub max_text_runes : ℕ
max_text_runes = 4096

-- unicode.IsSpace
unfoldable pub is_space : ℕ → Bool
is_space c =
    (leb 9 c && leb c 13)
    || c == 32
    || c == 0x85
    || c == 0xa0
    || c == 0x1680
    || (leb 0x2000 c && leb c 0x200a)
    || c == 0x2028
    || c == 0x2029
    || c == 0x202f
    || c == 0x205f
    || c == 0x3000

unfoldable pub trim_left : List ℕ → List ℕ
unfolding is_space
trim_left [] = []
trim_left (c ∷ s) = if is_space c then trim_left s else c ∷ s

-- unicode.ToUpper, where its value is ASCII.
unfoldable pub to_upper : ℕ → ℕ
to_upper c =
    if leb b'a' c && leb c b'z'
    then c - 32
    else if c == 0x131
    then b'I'
    else if c == 0x17f
    then b'S'
    else c

unfoldable pub normalize_key_name : String → List ℕ
unfolding codes trim_left to_upper
normalize_key_name name =
    keep_if (λ c. not (c == b'-' || c == b'_' || c == b' '))
      (map to_upper (reverse (trim_left (reverse (trim_left (codes name))))))

-- The chord that the names read so far have built.
pub record Chord : Type 0 where
  pub modifier : ℕ
  pub keys : List ℕ

-- One round of the loop of CompileKeyCombo, on a normalized name; `keys` serves as `seenKeys` too.
unfoldable pub add_key : Chord → List ℕ → Result InputError Chord
unfolding usage_of
add_key c [] = err unknown_key
add_key c (n ∷ name) = elim (usage_of modifier_usages (n ∷ name)) [
  | some mask ↦
      if not (bit_and c.modifier mask == 0)
      then err unknown_key
      else ok (record c { modifier = bit_or c.modifier mask })
  | none ↦ elim (usage_of key_usages (n ∷ name)) [
    | none ↦ err unknown_key
    | some usage ↦
        if any (λ k. k == usage) c.keys
        then err unknown_key
        else ok (record c { keys = c.keys ++ usage ∷ [] })
  ]
]

unfoldable pub add_keys : Chord → List String → Result InputError Chord
unfolding add_key normalize_key_name
add_keys c [] = ok c
add_keys c (name ∷ names) = do c' ← add_key c (normalize_key_name name); add_keys c' names

unfoldable pub compile_key_combo : List String → Result InputError (ℕ × List ℕ)
unfolding add_keys
compile_key_combo names = do
  refuse_if (is_empty names) unknown_key
  c ← add_keys (record { modifier = 0; keys = [] }) names
  refuse_if (ltb keyboard_slots (length c.keys)) unknown_key
  refuse_if (c.modifier == 0 && is_empty c.keys) unknown_key
  ok (c.modifier, c.keys)

-- The loop of CompileText over the runes.
unfoldable pub strokes_of : List ℕ → Result InputError (List Keystroke)
unfolding us_rune
strokes_of [] = ok []
strokes_of (value ∷ rest) = elim (us_rune value) [
  | none ↦ err unsupported_text
  | some stroke ↦ strokes_of rest >>= λ strokes. ok (stroke ∷ strokes)
]

unfoldable pub compile_text : String → Result InputError (List Keystroke)
unfolding codes strokes_of
compile_text text = do
  refuse_if (length (codes text) == 0 || ltb max_text_runes (length (codes text))) unsupported_text
  strokes_of (codes text)
