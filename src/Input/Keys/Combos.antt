-- ===== src/Input/Keys/Combos.antt =====
-- Key combinations of internal/input/keys.go: every compiled chord is a keyboard report.
use jetkvm_cli.Base.{
  ℕ, ◌≤◌, ◌≡◌, ◌≢◌, ◌⊎◌, refl, subst, inl, inr, String, false, ◌||◌, some, List, [], ◌∷◌, ◌++◌,
  arith, length, any, All, ◌==◌, ok, Option-cases, Result-cases,
}
use jetkvm_cli.Input.Protocol.{keyboard_report, message_keyboard_report, slots_of}
use jetkvm_cli.Input.Keys.Tables.{usage_of, key_usages, modifier_usages}
use jetkvm_cli.Input.Keys.{Chord, add_key, add_keys, compile_key_combo, normalize_key_name}

-- A key usage that a keyboard report can carry in a slot: not the empty slot 0.
abbrev pub IsUsage : ℕ → Type 0
IsUsage k = (0x04 ≤ k) × (k ≤ 0x73)

abbrev UsagesIn : List (List ℕ × ℕ) → Type 0
UsagesIn = All (λ e. IsUsage e.1)

key_usages-IsUsage : UsagesIn key_usages
unfolding key_usages
key_usages-IsUsage = omega arith

usage_of-IsUsage :
    (table : List (List ℕ × ℕ)) (name : List ℕ) (usage : ℕ)
    → UsagesIn table
    → usage_of table name ≡ some usage
    → IsUsage usage
unfolding usage_of
usage_of-IsUsage [] name usage u h = cc
usage_of-IsUsage ((k, v) ∷ rest) name usage u h = ground (arith, usage_of-IsUsage rest name usage)

-- Every key stands in the list once.
abbrev pub IsDistinct : List ℕ → Type 0
IsDistinct [] = Unit {0}
IsDistinct (k ∷ ks) = (any (λ j. j == k) ks ≡ false) × IsDistinct ks

any-append :
    (ks : List ℕ) (j k : ℕ) → any (λ x. x == j) (ks ++ k ∷ []) ≡ any (λ x. x == j) ks || k == j
any-append [] j k = ground arith
any-append (x ∷ ks) j k = ground (arith, any-append ks j k)

IsDistinct-append :
    (ks : List ℕ) (k : ℕ) → IsDistinct ks → any (λ j. j == k) ks ≡ false → IsDistinct (ks ++ k ∷ [])
IsDistinct-append [] k d n = (refl, tt)
IsDistinct-append (x ∷ ks) k d n =
    (ground (arith, any-append ks x k), IsDistinct-append ks k d.1 (ground arith))

All-append : (ks : List ℕ) (k : ℕ) → All IsUsage ks → IsUsage k → All IsUsage (ks ++ k ∷ [])
All-append [] k a u = (u, tt)
All-append (x ∷ ks) k a u = (a.0, All-append ks k a.1 u)

pub record IsChord (c : Chord) : Type 0 where
  pub usable : All IsUsage c.keys
  pub distinct : IsDistinct c.keys

add_key-IsChord : (c c' : Chord) (name : List ℕ) → IsChord c → add_key c name ≡ ok c' → IsChord c'
unfolding add_key
add_key-IsChord c c' [] v h = cc
add_key-IsChord c c' (n ∷ name) v h = elim (Option-cases (usage_of modifier_usages (n ∷ name))) [
  | inr (mask, found) ↦ ground arith
  | inl missing ↦ elim (Option-cases (usage_of key_usages (n ∷ name))) [
    | inl unknown ↦ ground arith
    | inr (usage, known) ↦ ground (
      arith,
      All-append c.keys usage,
      IsDistinct-append c.keys usage,
      usage_of-IsUsage key_usages (n ∷ name) usage key_usages-IsUsage known,
    )
  ]
]

add_keys-IsChord :
    (names : List String) (c c' : Chord) → IsChord c → add_keys c names ≡ ok c' → IsChord c'
unfolding add_keys
add_keys-IsChord [] c c' v h = ground arith
add_keys-IsChord (name ∷ names) c c' v h =
    elim (Result-cases (add_key c (normalize_key_name name))) [
      | inl (e, refused) ↦ ground arith
      | inr (mid, done) ↦
          add_keys-IsChord names mid c' (add_key-IsChord c mid (normalize_key_name name) v done)
            (ground arith)
    ]

-- A compiled chord is never empty and always fits one keyboard report: it has at most six keys, all
-- different and each a usage from 4 to 115, so KeyboardReport accepts it with its keys in the slots.
pub compile_key_combo-reports :
    (names : List String) (modifier : ℕ) (keys : List ℕ)
    → compile_key_combo names ≡ ok (modifier, keys)
    → All IsUsage keys
      × IsDistinct keys
      × (length keys ≤ 6)
      × ((modifier ≢ 0) ⊎ (keys ≢ []))
      × (keyboard_report modifier keys ≡ ok (message_keyboard_report ∷ modifier ∷ slots_of keys))
unfolding compile_key_combo keyboard_report
compile_key_combo-reports names modifier keys h =
    elim (Result-cases (add_keys (record { modifier = 0; keys = [] }) names)) [
      | inl (e, refused) ↦ ground arith
      | inr (c, done) ↦
          let v = add_keys-IsChord names _ c (record { usable = tt; distinct = tt }) done in
          let same : c.keys ≡ keys = ground arith in
          (
            subst (All IsUsage) same v.usable,
            subst IsDistinct same v.distinct,
            ground arith,
            ground arith,
            ground arith,
          )
    ]
