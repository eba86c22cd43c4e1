-- ===== src/Video/Bounds.antt =====
-- The bounds of the receiver of internal/video/depacketizer.go: what it holds and what it emits.
use jetkvm_cli.Base.{
  ℕ, zero, suc, ◌+◌, ◌*◌, ◌-◌, ◌≤◌, ◌≡◌, inl, inr, refl, ap, Bool, true, false, not, ◌&&◌, ◌||◌,
  none, some, List, [], ◌∷◌, ◌++◌, map, arith, if◌then◌else◌, ltb, ◌==◌, length, length-append,
  length-drop, get_or, take, drop, is_empty, Result, ok, err, Bool-cases,
}
use jetkvm_cli.Video.{invalid_packet, VideoError, RtpPacket, AccessUnit}
use jetkvm_cli.Video.Assembly.{
  Assembly, Outcome, nal_type, append_nal, append_aggregated, begin_fragment, end_fragment,
  continue_fragment, append_fragment, append_payload, append_payloads, is_end, is_start,
  is_reserved,
}
use jetkvm_cli.Video.Depacketizer.{
  PendingUnit, Depacketizer, max_bytes, finish_unit, assemble, unit_of, start_assembly,
}

-- What an outcome without an error has written.
abbrev Fits : ℕ → Outcome → Type 0
Fits max (a, none) = length a.annex_b ≤ max
Fits max (a, some e) = Unit {0}

pub if-elim {ℓ κ} :
    {A : Type ℓ} (P : A → Type κ) (b : Bool) (x y : A) → P x → P y → P (if b then x else y)
if-elim P true x y p q = p
if-elim P false x y p q = q

pub not_ltb→le : (m n : ℕ) → ltb m n ≡ false → n ≤ m
not_ltb→le m n h = ground arith

pub or_false : (b c : Bool) → (b || c) ≡ false → c ≡ false
or_false b c h = ground arith

append_nal-Fits : (max : ℕ) (a : Assembly) (nalu : List ℕ) → Fits max (append_nal max a nalu)
unfolding append_nal
append_nal-Fits max a nalu =
    let size = length a.annex_b + 4 + length nalu in
    elim (Bool-cases (is_empty nalu || ltb max size)) [
      | inl bad ↦ rw (bad, append_nal) tt
      | inr good ↦
          let small = not_ltb→le max size (or_false (is_empty nalu) (ltb max size) good) in
          rw (good, append_nal)
            (omega (arith, small, length-append a.annex_b (0 ∷ 0 ∷ 0 ∷ 1 ∷ nalu)))
    ]

-- A loop that goes on with `rest` after an outcome without an error.
then-Fits :
    (max : ℕ) (o rest : Outcome)
    → Fits max o
    → (length o.0.annex_b ≤ max → Fits max rest)
    → Fits max (elim o.1 [ some e ↦ o | none ↦ rest ])
then-Fits max (a, none) rest h next = next h
then-Fits max (a, some e) rest h next = tt

append_aggregated-Fits :
    (max fuel : ℕ) (a : Assembly) (rest : List ℕ)
    → length a.annex_b ≤ max
    → Fits max (append_aggregated max fuel a rest)
unfolding append_aggregated
append_aggregated-Fits max zero a rest h = h
append_aggregated-Fits max (suc fuel) a rest h =
    let size = get_or rest 0 0 * 256 + get_or rest 1 0 in
    let added = append_nal max a (take size (drop 2 rest)) in
    let later = append_aggregated max fuel added.0 (drop size (drop 2 rest)) in
    let goes_on =
      then-Fits max added later (append_nal-Fits max a (take size (drop 2 rest)))
        (λ small. append_aggregated-Fits max fuel added.0 (drop size (drop 2 rest)) small) in
    if-elim (Fits max) (is_empty rest) _ _ h (
      if-elim (Fits max) (ltb (length rest) 2) _ _ tt
        (if-elim (Fits max) (size == 0 || ltb (length rest - 2) size) _ _ tt goes_on))

continue_fragment-Fits :
    (max : ℕ) (a : Assembly) (payload : List ℕ)
    → 3 ≤ length payload
    → Fits max (continue_fragment max a payload)
unfolding continue_fragment
continue_fragment-Fits max a payload enough =
    let size = length a.annex_b + length payload - 2 in
    let b = record a { annex_b = a.annex_b ++ drop 2 payload } in
    elim (Bool-cases (ltb max size)) [
      | inl large ↦ rw (large, continue_fragment) tt
      | inr good ↦
          let small = not_ltb→le max size good in
          let written : length b.annex_b ≤ max = omega (
            arith,
            small,
            enough,
            length-append a.annex_b (drop 2 payload),
            length-drop 2 payload,
          ) in
          rw (good, continue_fragment)
            (if-elim (λ x. length x.annex_b ≤ max) (is_end (get_or payload 1 0)) (end_fragment b) b
              written written)
    ]

append_fragment-Fits :
    (max : ℕ) (a : Assembly) (payload : List ℕ) → Fits max (append_fragment max a payload)
unfolding append_fragment
append_fragment-Fits max a payload =
    let header = get_or payload 1 0 in
    elim (Bool-cases (ltb (length payload) 3 || is_reserved header)) [
      | inl bad ↦ rw (bad, append_fragment) tt
      | inr good ↦
          let enough = long_enough (length payload) (is_reserved header) good in
          rw (good, append_fragment)
            (if-elim (Fits max) (is_start header) _ _
              (if-elim (Fits max) (a.fragmented || is_end header) _ _ tt
                (continue_fragment-Fits max (begin_fragment a payload) payload enough))
              (if-elim (Fits max) (not a.fragmented || not (a.fragment_type == nal_type header)) _ _
                tt (continue_fragment-Fits max a payload enough)))
    ]
  where
    long_enough : (n : ℕ) (b : Bool) → (ltb n 3 || b) ≡ false → 3 ≤ n
    long_enough n b h = ground arith

append_payload-Fits :
    (max : ℕ) (a : Assembly) (payload : List ℕ)
    → length a.annex_b ≤ max
    → Fits max (append_payload max a payload)
unfolding append_payload
append_payload-Fits max a payload h =
    let kind = nal_type (get_or payload 0 0) in
    if-elim (Fits max) (ltb 0 kind && ltb kind 24) _ _
      (if-elim (Fits max) a.fragmented _ _ tt (append_nal-Fits max a payload))
      (if-elim (Fits max) (kind == 24) _ _
        (if-elim (Fits max) a.fragmented _ _ tt
          (append_aggregated-Fits max (length payload) a (drop 1 payload) h))
        (if-elim (Fits max) (kind == 28) _ _ (append_fragment-Fits max a payload) tt))

append_payloads-Fits :
    (max : ℕ) (a : Assembly) (ps : List (List ℕ))
    → length a.annex_b ≤ max
    → Fits max (append_payloads max a ps)
unfolding append_payloads
append_payloads-Fits max a [] h = elim (Bool-cases a.fragmented) [
  | inl open_end ↦ rw (open_end, append_payloads) tt
  | inr whole ↦ rw (whole, append_payloads) h
]
append_payloads-Fits max a (p ∷ ps) h =
    let first = append_payload max a p in
    then-Fits max first (append_payloads max first.0 ps) (append_payload-Fits max a p h)
      (λ small. append_payloads-Fits max first.0 ps small)

-- What a unit that is returned has written, if one is.
abbrev pub UnitFits : ℕ → ℕ → Result VideoError AccessUnit → Type 0
UnitFits max generation (err e) = Unit {0}
UnitFits max generation (ok u) = (length u.annex_b ≤ max) × (u.generation ≡ generation)

finish_unit-UnitFits :
    (max : ℕ) (u : AccessUnit) (a : Assembly)
    → length a.annex_b ≤ max
    → u.annex_b ≡ a.annex_b
    → UnitFits max u.generation (finish_unit max u a)
unfolding finish_unit
finish_unit-UnitFits max u a h same =
    let own : length u.annex_b ≤ max = simp same h in
    let size = length a.sps + length a.pps + 8 + length a.annex_b in
    if-elim (UnitFits max u.generation) (a.keyframe && (not a.has_sps || not a.has_pps)) _ _
      (if-elim (UnitFits max u.generation) (is_empty a.sps || is_empty a.pps) _ _ (own, refl)
        (elim (Bool-cases (ltb max size)) [
          | inl large ↦ rw large tt
          | inr good ↦
              let small = not_ltb→le max size good in
              rw good (
                omega (
                  arith,
                  small,
                  length-append (0 ∷ 0 ∷ 0 ∷ 1 ∷ a.sps) ((0 ∷ 0 ∷ 0 ∷ 1 ∷ a.pps) ++ a.annex_b),
                  length-append (0 ∷ 0 ∷ 0 ∷ 1 ∷ a.pps) a.annex_b,
                ),
                refl,
              )
        ]))
      (own, refl)

pub assemble-UnitFits :
    (d : Depacketizer) (u : PendingUnit) (p : RtpPacket) (ps : List RtpPacket)
    → UnitFits (max_bytes d) u.generation (assemble d u p ps).1
unfolding assemble
assemble-UnitFits d u p ps =
    done (append_payloads (max_bytes d) (start_assembly d) (map (λ q. q.payload) (p ∷ ps))) (
      append_payloads-Fits (max_bytes d) (start_assembly d) (map (λ q. q.payload) (p ∷ ps))
        (omega arith))
  where
    done :
        (o : Outcome)
        → Fits (max_bytes d) o
        → UnitFits (max_bytes d) u.generation (elim o.1 [
          | some e ↦ err e
          | none ↦ finish_unit (max_bytes d) (unit_of u p ps o.0) o.0
        ])
    done (a, none) h = finish_unit-UnitFits (max_bytes d) (unit_of u p ps a) a h refl
    done (a, some e) h = tt

-- Fuel beyond the number of bytes changes nothing in the loop over an aggregated payload.
append_aggregated-fuel :
    (max m n : ℕ) (a : Assembly) (rest : List ℕ)
    → length rest ≤ m
    → length rest ≤ n
    → append_aggregated max m a rest ≡ append_aggregated max n a rest
unfolding append_aggregated
append_aggregated-fuel max zero zero a rest s t = refl
append_aggregated-fuel max zero (suc n) a [] s t = refl
append_aggregated-fuel max zero (suc n) a (x ∷ rest) s t = absurd (omega (arith, s))
append_aggregated-fuel max (suc m) zero a [] s t = refl
append_aggregated-fuel max (suc m) zero a (x ∷ rest) s t = absurd (omega (arith, t))
append_aggregated-fuel max (suc m) (suc n) a [] s t = refl
append_aggregated-fuel max (suc m) (suc n) a (x ∷ rest) s t =
    let bytes = x ∷ rest in
    let size = get_or bytes 0 0 * 256 + get_or bytes 1 0 in
    let left = drop size (drop 2 bytes) in
    let added = append_nal max a (take size (drop 2 bytes)) in
    let shorter = length-drop size (drop 2 bytes) in
    let shorter' = length-drop 2 bytes in
    let same =
      append_aggregated-fuel max m n added.0 left (omega (arith, shorter, shorter', s))
        (omega (arith, shorter, shorter', t)) in
    ap
      (λ later.
        if ltb (length bytes) 2
        then (a, some invalid_packet)
        else if size == 0 || ltb (length bytes - 2) size
        then (a, some invalid_packet)
        else elim added.1 [ some e ↦ added | none ↦ later ])
      same
