-- ===== src/Video/Assembly.antt =====
-- The loop of assemble in internal/video/depacketizer.go: the NAL units of a row of packets, single,
-- aggregated (STAP-A) or fragmented (FU-A), written one after the other.
use jetkvm_cli.Base.{
  ℕ, zero, suc, ◌+◌, ◌*◌, ◌-◌, ◌/◌, ◌%◌, Bool, true, false, not, ◌&&◌, ◌||◌, Option, none, some,
  List, [], ◌∷◌, ◌++◌, if◌then◌else◌, ltb, ◌==◌, length, get_or, take, drop, is_empty,
}
use jetkvm_cli.Video.{
  VideoError, invalid_packet, unsupported_packet, packet_loss, access_unit_too_large,
}

-- The locals of assemble, and the parameter sets of the receiver, which it updates at once.
pub record Assembly : Type 0 where
  pub annex_b : List ℕ
  pub sps : List ℕ
  pub pps : List ℕ
  pub has_sps : Bool
  pub has_pps : Bool
  pub keyframe : Bool
  pub picture : Bool
  pub fragmented : Bool
  pub fragment_type : ℕ

-- What a step leaves, with the error that ends the loop.
abbrev pub Outcome : Type 0
Outcome = Assembly × Option VideoError

abbrev pub nal_type : ℕ → ℕ
nal_type b = b % 32

abbrev pub is_start : ℕ → Bool
is_start b = (b / 128) % 2 == 1

abbrev pub is_end : ℕ → Bool
is_end b = (b / 64) % 2 == 1

abbrev pub is_reserved : ℕ → Bool
is_reserved b = (b / 32) % 2 == 1

abbrev pub annex_b_start_code : List ℕ
annex_b_start_code = 0 ∷ 0 ∷ 0 ∷ 1 ∷ []

-- The `switch` of appendNAL.
unfoldable pub note_nal : Assembly → ℕ → List ℕ → Assembly
note_nal a kind nalu =
    if kind == 7
    then record a { sps = nalu; has_sps = true }
    else if kind == 8
    then record a { pps = nalu; has_pps = true }
    else if kind == 5
    then record a { keyframe = true; picture = true }
    else if kind == 1
    then record a { picture = true }
    else a

unfoldable pub append_nal : ℕ → Assembly → List ℕ → Outcome
append_nal max a nalu =
    if is_empty nalu || ltb max (length a.annex_b + 4 + length nalu)
    then (a, some access_unit_too_large)
    else (
      record (note_nal a (nal_type (get_or nalu 0 0)) nalu) {
        annex_b = a.annex_b ++ (annex_b_start_code ++ nalu);
      },
      none,
    )

-- The loop over an aggregated payload, from an offset on. Each turn takes three bytes at least, so the
-- number of bytes is fuel enough.
unfoldable pub append_aggregated : ℕ → ℕ → Assembly → List ℕ → Outcome
append_aggregated max zero a rest = (a, none)
append_aggregated max (suc fuel) a rest =
    let size = get_or rest 0 0 * 256 + get_or rest 1 0 in
    let added = append_nal max a (take size (drop 2 rest)) in
    let later = append_aggregated max fuel added.0 (drop size (drop 2 rest)) in
    if is_empty rest
    then (a, none)
    else if ltb (length rest) 2
    then (a, some invalid_packet)
    else if size == 0 || ltb (length rest - 2) size
    then (a, some invalid_packet)
    else elim added.1 [ some e ↦ added | none ↦ later ]

abbrev pub begin_fragment : Assembly → List ℕ → Assembly
begin_fragment a payload = record a {
  fragmented = true;
  fragment_type = nal_type (get_or payload 1 0);
  annex_b =
      a.annex_b
      ++ (annex_b_start_code
          ++ (((get_or payload 0 0 / 32) * 32 + nal_type (get_or payload 1 0)) ∷ []));
}

abbrev pub end_fragment : Assembly → Assembly
end_fragment a = record a {
  fragmented = false;
  picture = a.picture || a.fragment_type == 1 || a.fragment_type == 5;
  keyframe = a.keyframe || a.fragment_type == 5;
}

unfoldable pub continue_fragment : ℕ → Assembly → List ℕ → Outcome
continue_fragment max a payload =
    if ltb max (length a.annex_b + length payload - 2) then (a, some access_unit_too_large) else (
      (let b = record a { annex_b = a.annex_b ++ drop 2 payload } in
          if is_end (get_or payload 1 0) then end_fragment b else b),
      none,
    )

unfoldable pub append_fragment : ℕ → Assembly → List ℕ → Outcome
unfolding continue_fragment
append_fragment max a payload =
    let header = get_or payload 1 0 in
    if ltb (length payload) 3 || is_reserved header
    then (a, some invalid_packet)
    else if is_start header
    then if a.fragmented || is_end header
      then (a, some invalid_packet)
      else continue_fragment max (begin_fragment a payload) payload
    else if not a.fragmented || not (a.fragment_type == nal_type header)
    then (a, some packet_loss)
    else continue_fragment max a payload

unfoldable pub append_payload : ℕ → Assembly → List ℕ → Outcome
unfolding append_nal append_aggregated append_fragment
append_payload max a payload =
    let kind = nal_type (get_or payload 0 0) in
    if ltb 0 kind && ltb kind 24
    then if a.fragmented then (a, some invalid_packet) else append_nal max a payload
    else if kind == 24
    then if a.fragmented
      then (a, some invalid_packet)
      else append_aggregated max (length payload) a (drop 1 payload)
    else if kind == 28
    then append_fragment max a payload
    else (a, some unsupported_packet)

unfoldable pub append_payloads : ℕ → Assembly → List (List ℕ) → Outcome
append_payloads max a [] = (a, if a.fragmented then some packet_loss else none)
append_payloads max a (p ∷ ps) =
    let first = append_payload max a p in
    let rest = append_payloads max first.0 ps in elim first.1 [ some e ↦ first | none ↦ rest ]
