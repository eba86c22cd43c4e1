-- ===== src/Input/Keys/Tables.antt =====
-- The tables of internal/input/keys.go. A key name is the list of the code points of a text.
use Prim.Native.Char.{code}
use jetkvm_cli.Base.{
  ℕ, zero, suc, ◌+◌, ◌-◌, ◌/◌, ◌%◌, String, Bool, true, false, ◌&&◌, Option, none, some, List, [],
  ◌∷◌, ◌++◌, ltb, leb, ◌==◌, if◌then◌else◌,
}
use jetkvm_cli.Input.Types.{Keystroke}

unfoldable pub codes : String → List ℕ
codes String.[] = []
codes (String.◌∷◌ c s) = code c ∷ codes s

unfoldable pub same_codes : List ℕ → List ℕ → Bool
same_codes [] [] = true
same_codes (a ∷ s) (b ∷ t) = a == b && same_codes s t
same_codes _ _ = false

-- A lookup in a Go map with text keys.
unfoldable pub usage_of : List (List ℕ × ℕ) → List ℕ → Option ℕ
unfolding same_codes
usage_of [] name = none
usage_of ((k, usage) ∷ rest) name = if same_codes k name then some usage else usage_of rest name

unfoldable pub named : List (String × ℕ) → List (List ℕ × ℕ)
unfolding codes
named [] = []
named ((k, usage) ∷ rest) = (codes k, usage) ∷ named rest

unfoldable pub modifier_usages : List (List ℕ × ℕ)
unfolding named
modifier_usages = named (
    ("CTRL", 0x01)
    ∷ ("CONTROL", 0x01)
    ∷ ("CTRLLEFT", 0x01)
    ∷ ("CONTROLLEFT", 0x01)
    ∷ ("SHIFT", 0x02)
    ∷ ("SHIFTLEFT", 0x02)
    ∷ ("ALT", 0x04)
    ∷ ("ALTLEFT", 0x04)
    ∷ ("META", 0x08)
    ∷ ("SUPER", 0x08)
    ∷ ("COMMAND", 0x08)
    ∷ ("CMD", 0x08)
    ∷ ("METALEFT", 0x08)
    ∷ ("SUPERLEFT", 0x08)
    ∷ ("CONTROLRIGHT", 0x10)
    ∷ ("CTRLRIGHT", 0x10)
    ∷ ("SHIFTRIGHT", 0x20)
    ∷ ("ALTRIGHT", 0x40)
    ∷ ("ALTGR", 0x40)
    ∷ ("METARIGHT", 0x80)
    ∷ ("SUPERRIGHT", 0x80)
    ∷ ("COMMANDRIGHT", 0x80)
    ∷ [])

-- fmt.Sprintf("%d", n) for n below 100.
unfoldable pub decimal : ℕ → List ℕ
decimal n = if ltb n 10 then (48 + n) ∷ [] else (48 + n / 10) ∷ (48 + n % 10) ∷ []

-- `for index := range n`: what each index adds to the map, the last index first.
unfoldable pub entries : ℕ → (ℕ → List (List ℕ × ℕ)) → List (List ℕ × ℕ)
entries zero f = []
entries (suc n) f = f n ++ entries n f

letter_entries : ℕ → List (List ℕ × ℕ)
unfolding codes
letter_entries index =
    ((65 + index) ∷ [], 0x04 + index) ∷ (codes "KEY" ++ (65 + index) ∷ [], 0x04 + index) ∷ []

digit_usage : ℕ → ℕ → ℕ → ℕ
digit_usage digit first last = if digit == 0 then last else first + digit

digit_entries : ℕ → List (List ℕ × ℕ)
unfolding codes decimal digit_usage
digit_entries digit =
    (decimal digit, digit_usage digit 0x1d 0x27)
    ∷ (codes "DIGIT" ++ decimal digit, digit_usage digit 0x1d 0x27)
    ∷ []

function_entries : ℕ → List (List ℕ × ℕ)
unfolding codes decimal
function_entries index =
    (codes "F" ++ decimal (index + 1), if leb 12 index then 0x68 + index - 12 else 0x3a + index)
    ∷ []

numpad_entries : ℕ → List (List ℕ × ℕ)
unfolding codes decimal digit_usage
numpad_entries digit = (codes "NUMPAD" ++ decimal digit, digit_usage digit 0x58 0x62) ∷ []

-- buildKeyUsages
unfoldable pub key_usages : List (List ℕ × ℕ)
unfolding named entries letter_entries digit_entries function_entries numpad_entries
key_usages =
    entries 10 numpad_entries
    ++ entries 24 function_entries
    ++ entries 10 digit_entries
    ++ entries 26 letter_entries
    ++ named (
        ("ENTER", 0x28)
        ∷ ("RETURN", 0x28)
        ∷ ("ESCAPE", 0x29)
        ∷ ("ESC", 0x29)
        ∷ ("BACKSPACE", 0x2a)
        ∷ ("TAB", 0x2b)
        ∷ ("SPACE", 0x2c)
        ∷ ("MINUS", 0x2d)
        ∷ ("EQUAL", 0x2e)
        ∷ ("BRACKETLEFT", 0x2f)
        ∷ ("BRACKETRIGHT", 0x30)
        ∷ ("BACKSLASH", 0x31)
        ∷ ("SEMICOLON", 0x33)
        ∷ ("QUOTE", 0x34)
        ∷ ("BACKQUOTE", 0x35)
        ∷ ("COMMA", 0x36)
        ∷ ("PERIOD", 0x37)
        ∷ ("SLASH", 0x38)
        ∷ ("CAPSLOCK", 0x39)
        ∷ ("PRINTSCREEN", 0x46)
        ∷ ("SCROLLLOCK", 0x47)
        ∷ ("PAUSE", 0x48)
        ∷ ("INSERT", 0x49)
        ∷ ("HOME", 0x4a)
        ∷ ("PAGEUP", 0x4b)
        ∷ ("DELETE", 0x4c)
        ∷ ("END", 0x4d)
        ∷ ("PAGEDOWN", 0x4e)
        ∷ ("ARROWRIGHT", 0x4f)
        ∷ ("RIGHT", 0x4f)
        ∷ ("ARROWLEFT", 0x50)
        ∷ ("LEFT", 0x50)
        ∷ ("ARROWDOWN", 0x51)
        ∷ ("DOWN", 0x51)
        ∷ ("ARROWUP", 0x52)
        ∷ ("UP", 0x52)
        ∷ ("NUMLOCK", 0x53)
        ∷ ("NUMPADDIVIDE", 0x54)
        ∷ ("NUMPADMULTIPLY", 0x55)
        ∷ ("NUMPADSUBTRACT", 0x56)
        ∷ ("NUMPADADD", 0x57)
        ∷ ("NUMPADENTER", 0x58)
        ∷ ("NUMPADDECIMAL", 0x63)
        ∷ ("APPLICATION", 0x65)
        ∷ ("CONTEXTMENU", 0x65)
        ∷ [])

abbrev stroke : ℕ → ℕ → Keystroke
stroke modifier key = record { modifier = modifier; key = key }

-- usPunctuation, as the code point, the modifier and the key.
unfoldable pub us_punctuation : List (ℕ × ℕ × ℕ)
us_punctuation =
    (b' ', 0, 0x2c)
    ∷ (b'-', 0, 0x2d)
    ∷ (b'_', 2, 0x2d)
    ∷ (b'=', 0, 0x2e)
    ∷ (b'+', 2, 0x2e)
    ∷ (b'[', 0, 0x2f)
    ∷ (b'{', 2, 0x2f)
    ∷ (b']', 0, 0x30)
    ∷ (b'}', 2, 0x30)
    ∷ (0x5c, 0, 0x31)
    ∷ (b'|', 2, 0x31)
    ∷ (b';', 0, 0x33)
    ∷ (b':', 2, 0x33)
    ∷ (0x27, 0, 0x34)
    ∷ (0x22, 2, 0x34)
    ∷ (0x60, 0, 0x35)
    ∷ (b'~', 2, 0x35)
    ∷ (b',', 0, 0x36)
    ∷ (b'<', 2, 0x36)
    ∷ (b'.', 0, 0x37)
    ∷ (b'>', 2, 0x37)
    ∷ (b'/', 0, 0x38)
    ∷ (b'?', 2, 0x38)
    ∷ (b'!', 2, 0x1e)
    ∷ (b'@', 2, 0x1f)
    ∷ (b'#', 2, 0x20)
    ∷ (b'$', 2, 0x21)
    ∷ (b'%', 2, 0x22)
    ∷ (b'^', 2, 0x23)
    ∷ (b'&', 2, 0x24)
    ∷ (b'*', 2, 0x25)
    ∷ (b'(', 2, 0x26)
    ∷ (b')', 2, 0x27)
    ∷ []

unfoldable pub punctuation_of : List (ℕ × ℕ × ℕ) → ℕ → Option Keystroke
punctuation_of [] value = none
punctuation_of ((v, modifier, key) ∷ rest) value =
    if v == value then some (stroke modifier key) else punctuation_of rest value

unfoldable pub us_rune : ℕ → Option Keystroke
unfolding punctuation_of us_punctuation
us_rune value =
    if leb b'a' value && leb value b'z'
    then some (stroke 0 (0x04 + value - b'a'))
    else if leb b'A' value && leb value b'Z'
    then some (stroke 2 (0x04 + value - b'A'))
    else if leb b'1' value && leb value b'9'
    then some (stroke 0 (0x1e + value - b'1'))
    else if value == b'0'
    then some (stroke 0 0x27)
    else punctuation_of us_punctuation value
