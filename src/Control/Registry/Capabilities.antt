-- ===== src/Control/Registry/Capabilities.antt =====
-- normalizeCapabilities of internal/control/control.go: a sorted list without repetitions.
use Prim.Native.String.{compare}
use Prim.Native.Nat.{Ordering}
use jetkvm_cli.Base.{
  ◌≡◌, inl, inr, refl, ap, ◌∙◌, String, Bool, true, false, ◌||◌, List, [], ◌∷◌, arith,
  if◌then◌else◌, str_eq, eq_iff, contains, Bool-cases,
}
use jetkvm_cli.Control.{has_capabilities}

-- s <= t for Go strings.
abbrev pub str_leb : String → String → Bool
str_leb s t = elim (compare s t) [ Ordering.gt ↦ false | _ ↦ true ]

unfoldable pub insert_text : String → List String → List String
insert_text s [] = s ∷ []
insert_text s (t ∷ ts) = let rest = insert_text s ts in if str_leb s t then s ∷ t ∷ ts else t ∷ rest

-- slices.Sort
unfoldable pub sort_texts : List String → List String
sort_texts [] = []
sort_texts (t ∷ ts) = insert_text t (sort_texts ts)

-- slices.Compact, where `s` is the last one kept.
unfoldable pub compact_after : String → List String → List String
compact_after s [] = []
compact_after s (t ∷ ts) =
    let dropped = compact_after s ts in
    let kept = compact_after t ts in if str_eq s t then dropped else t ∷ kept

unfoldable pub compact : List String → List String
compact [] = []
compact (t ∷ ts) = t ∷ compact_after t ts

unfoldable pub normalize_capabilities : List String → List String
unfolding sort_texts compact
normalize_capabilities cs = compact (sort_texts cs)

insert_text-contains :
    (s c : String) (ts : List String)
    → contains (insert_text s ts) c ≡ (str_eq s c || contains ts c)
unfolding insert_text
insert_text-contains s c [] = refl
insert_text-contains s c (t ∷ ts) = ground (arith, insert_text-contains s c ts)

sort_texts-contains : (c : String) (ts : List String) → contains (sort_texts ts) c ≡ contains ts c
unfolding sort_texts
sort_texts-contains c [] = refl
sort_texts-contains c (t ∷ ts) =
    insert_text-contains t c (sort_texts ts) ∙ ap (λ b. str_eq t c || b) (sort_texts-contains c ts)

compact_after-contains :
    (s c : String) (ts : List String)
    → (str_eq s c || contains (compact_after s ts) c) ≡ (str_eq s c || contains ts c)
unfolding compact_after
compact_after-contains s c [] = refl
compact_after-contains s c (t ∷ ts) = elim (Bool-cases (str_eq s t)) [
  | inl same ↦
      let e : s ≡ t = (eq_iff s t).0 same in
      rw (same, compact_after) (compact_after-contains s c ts ∙ again e)
  | inr other ↦
      rw (other, compact_after) (ap (λ b. str_eq s c || b) (compact_after-contains t c ts))
]
  where
    again : s ≡ t → (str_eq s c || contains ts c) ≡ (str_eq s c || (str_eq t c || contains ts c))
    again e = ground (arith, ap (λ x. str_eq x c) e)

compact-contains : (c : String) (ts : List String) → contains (compact ts) c ≡ contains ts c
unfolding compact
compact-contains c [] = refl
compact-contains c (t ∷ ts) = compact_after-contains t c ts

normalize_capabilities-contains :
    (c : String) (cs : List String) → contains (normalize_capabilities cs) c ≡ contains cs c
unfolding normalize_capabilities
normalize_capabilities-contains c cs = compact-contains c (sort_texts cs) ∙ sort_texts-contains c cs

-- Sorting the capabilities of a request and dropping its repetitions grants the same ones.
pub normalize_capabilities-has :
    (cs wanted : List String)
    → has_capabilities (normalize_capabilities cs) wanted ≡ has_capabilities cs wanted
unfolding has_capabilities
normalize_capabilities-has cs [] = refl
normalize_capabilities-has cs (c ∷ wanted) =
    grind (arith, normalize_capabilities-contains c cs, normalize_capabilities-has cs wanted)
