-- ===== src/Video/Depacketizer.antt =====
-- The Depacketizer of internal/video/depacketizer.go: packets are held, in any order, until those of
-- one picture are contiguous up to the marked one.
use jetkvm_cli.Base.{
  ℕ, ◌+◌, ◌-◌, ◌%◌, ◌^◌, Bool, true, false, not, ◌&&◌, ◌||◌, Option, none, some, List, [], ◌∷◌,
  ◌++◌, map, if◌then◌else◌, ltb, leb, ◌==◌, length, get_or, any, keep_if, is_empty, Result, ok, err,
}
use jetkvm_cli.Base.Int.{pos_part}
use jetkvm_cli.Video.{
  VideoError, invalid_config, invalid_packet, packet_loss, packet_too_large, access_unit_too_large,
  generation_mismatch, Limits, with_defaults, is_valid_limits, RtpPacket, AccessUnit,
}
use jetkvm_cli.Video.Assembly.{Assembly, nal_type, is_start, append_payloads}

-- pendingUnit; `packets` is the map by sequence number.
pub record PendingUnit : Type 0 where
  pub generation : ℕ
  pub timestamp : ℕ
  pub packets : List RtpPacket
  pub marker : Option ℕ
  pub bytes : ℕ

pub record Depacketizer : Type 0 where
  pub generation : ℕ
  pub limits : Limits
  pub pending : Option PendingUnit
  pub sps : List ℕ
  pub pps : List ℕ
  pub last_sequence : ℕ
  pub last_timestamp : ℕ
  pub have_last : Bool
  pub discontinuity : Bool

-- What Push returns: neither, a unit, or an error.
pub data PushAnswer : Type 0 where
  waits : PushAnswer
  emits : AccessUnit → PushAnswer
  fails : VideoError → PushAnswer

unfoldable pub new_depacketizer : ℕ → Limits → Result VideoError Depacketizer
new_depacketizer generation limits =
    if generation == 0 || not (is_valid_limits (with_defaults limits))
    then err invalid_config
    else ok record {
      generation = generation;
      limits = with_defaults limits;
      pending = none;
      sps = [];
      pps = [];
      last_sequence = 0;
      last_timestamp = 0;
      have_last = false;
      discontinuity = false;
    }

unfoldable pub reset : Depacketizer → ℕ → Result VideoError Depacketizer
reset d generation =
    if generation == 0
    then err invalid_config
    else ok (record d {
      generation = generation;
      pending = none;
      sps = [];
      pps = [];
      have_last = false;
      discontinuity = false;
    })

-- uint16(a - b)
abbrev pub sub16 : ℕ → ℕ → ℕ
sub16 a b = (a + 2 ^ 16 - b) % 2 ^ 16

-- int32(a - b), of uint32 values: whether it is negative, and whether it is at most 0.
abbrev pub is_before32 : ℕ → ℕ → Bool
is_before32 a b = leb (2 ^ 31) ((a + 2 ^ 32 - b) % 2 ^ 32)

abbrev pub is_after32 : ℕ → ℕ → Bool
is_after32 a b = not (is_before32 a b) && not ((a + 2 ^ 32 - b) % 2 ^ 32 == 0)

abbrev pub is_fua_payload : List ℕ → Bool
is_fua_payload payload = leb 2 (length payload) && (nal_type (get_or payload 0 0) == 28)

-- slices.SortFunc, the farthest before the marker first.
unfoldable pub insert_packet : ℕ → RtpPacket → List RtpPacket → List RtpPacket
insert_packet marker p [] = p ∷ []
insert_packet marker p (q ∷ qs) =
    let rest = insert_packet marker p qs in
    if ltb (sub16 marker p.sequence_number) (sub16 marker q.sequence_number)
    then q ∷ rest
    else p ∷ q ∷ qs

unfoldable pub sort_packets : ℕ → List RtpPacket → List RtpPacket
sort_packets marker [] = []
sort_packets marker (p ∷ ps) = insert_packet marker p (sort_packets marker ps)

-- Whether the packets after one with this sequence number follow it one by one, up to the marker.
unfoldable pub is_contiguous : ℕ → ℕ → List RtpPacket → Bool
is_contiguous marker last [] = last == marker
is_contiguous marker last (p ∷ ps) =
    (p.sequence_number == (last + 1) % 2 ^ 16) && is_contiguous marker p.sequence_number ps

unfoldable pub ordered_packets : List RtpPacket → ℕ → ℕ → Option (List RtpPacket)
ordered_packets packets marker max_packets =
    elim (sort_packets marker
      (keep_if (λ p. ltb (sub16 marker p.sequence_number) max_packets) packets)) [
        | [] ↦ none
        | p ∷ ps ↦
            if not (is_contiguous marker p.sequence_number ps)
            then none
            else if is_fua_payload p.payload && not (is_start (get_or p.payload 1 0))
            then none
            else some (p ∷ ps)
      ]

abbrev pub max_bytes : Depacketizer → ℕ
max_bytes d = pos_part d.limits.max_access_unit_bytes

unfoldable pub first_received : ℕ → List RtpPacket → ℕ
first_received t [] = t
first_received t (p ∷ ps) = first_received (if ltb p.received_at t then p.received_at else t) ps

unfoldable pub last_sequence_of : ℕ → List RtpPacket → ℕ
last_sequence_of n [] = n
last_sequence_of n (p ∷ ps) = last_sequence_of p.sequence_number ps

abbrev pub start_assembly : Depacketizer → Assembly
start_assembly d = record {
  annex_b = [];
  sps = d.sps;
  pps = d.pps;
  has_sps = false;
  has_pps = false;
  keyframe = false;
  picture = false;
  fragmented = false;
  fragment_type = 0;
}

-- The unit that assemble makes of its locals.
abbrev pub unit_of : PendingUnit → RtpPacket → List RtpPacket → Assembly → AccessUnit
unit_of u p ps a = record {
  generation = u.generation;
  rtp_time = u.timestamp;
  first_sequence = p.sequence_number;
  last_sequence = last_sequence_of p.sequence_number ps;
  received_at = first_received p.received_at ps;
  annex_b = a.annex_b;
  has_sps = a.has_sps;
  has_pps = a.has_pps;
  keyframe = a.keyframe;
  decodable =
      a.picture
      && ((a.keyframe && a.has_sps && a.has_pps)
          || (not a.keyframe && not (is_empty a.sps) && not (is_empty a.pps)));
  parameter_sets_reused = false;
  discontinuity = false;
}

abbrev pub with_parameter_sets : AccessUnit → Assembly → AccessUnit
with_parameter_sets u a = record u {
  annex_b = (0 ∷ 0 ∷ 0 ∷ 1 ∷ a.sps) ++ ((0 ∷ 0 ∷ 0 ∷ 1 ∷ a.pps) ++ a.annex_b);
  has_sps = true;
  has_pps = true;
  decodable = a.picture;
  parameter_sets_reused = true;
}

-- The end of assemble: a key frame without parameter sets gets the last ones.
unfoldable pub finish_unit : ℕ → AccessUnit → Assembly → Result VideoError AccessUnit
finish_unit max u a =
    if a.keyframe && (not a.has_sps || not a.has_pps)
    then if is_empty a.sps || is_empty a.pps
      then ok (record u { keyframe = true; decodable = false })
      else if ltb max (length a.sps + length a.pps + 8 + length a.annex_b)
      then err access_unit_too_large
      else ok (with_parameter_sets u a)
    else ok u

unfoldable pub assemble :
    Depacketizer
    → PendingUnit
    → RtpPacket
    → List RtpPacket
    → Depacketizer × Result VideoError AccessUnit
assemble d u p ps =
    let (a, failure) =
      append_payloads (max_bytes d) (start_assembly d) (map (λ q. q.payload) (p ∷ ps)) in
    (
      record d { sps = a.sps; pps = a.pps },
      elim failure [ some e ↦ err e | none ↦ finish_unit (max_bytes d) (unit_of u p ps a) a ],
    )

-- The unit that a packet belongs to, and whether one was given up for it.
abbrev pub fresh_unit : RtpPacket → PendingUnit
fresh_unit packet = record {
  generation = packet.generation;
  timestamp = packet.timestamp;
  packets = [];
  marker = none;
  bytes = 0;
}

unfoldable pub unit_for : Option PendingUnit → RtpPacket → PendingUnit × Bool
unit_for none packet = (fresh_unit packet, false)
unit_for (some u) packet =
    if u.timestamp == packet.timestamp then (u, false) else (fresh_unit packet, true)

abbrev pub with_packet : PendingUnit → RtpPacket → PendingUnit
with_packet u packet = record u {
  packets = packet ∷ u.packets;
  marker = if packet.marker then some packet.sequence_number else u.marker;
  bytes = u.bytes + length packet.payload;
}

abbrev pub give_up : Depacketizer → Depacketizer
give_up d = record d { pending = none; discontinuity = true }

-- The end of Push, with an access unit.
abbrev pub emitted : Depacketizer → AccessUnit → Depacketizer × PushAnswer
emitted d unit = (
  record d {
    pending = none;
    last_sequence = unit.last_sequence;
    last_timestamp = unit.rtp_time;
    have_last = true;
    discontinuity = false;
  },
  emits (record unit {
    discontinuity =
        d.discontinuity
        || (d.have_last && not (unit.first_sequence == (d.last_sequence + 1) % 2 ^ 16));
  }),
)

unfoldable pub complete :
    Depacketizer → PendingUnit → RtpPacket → List RtpPacket → Depacketizer × PushAnswer
unfolding assemble
complete d u p ps =
    let (d', answer) = assemble d u p ps in
    elim answer [ err e ↦ (give_up d', fails e) | ok unit ↦ emitted d' unit ]

-- The part of Push after the packet was added to the unit, which has this marker.
unfoldable pub complete_row :
    Depacketizer → PendingUnit → Option (List RtpPacket) → Depacketizer × PushAnswer
complete_row d u none = (d, waits)
complete_row d u (some []) = (d, waits)
complete_row d u (some (p ∷ ps)) = complete d u p ps

unfoldable pub try_complete :
    Depacketizer → PendingUnit → Bool → Option ℕ → Depacketizer × PushAnswer
unfolding ordered_packets complete_row
try_complete d u prior_loss none = (d, if prior_loss then fails packet_loss else waits)
try_complete d u prior_loss (some marker) =
    complete_row d u (ordered_packets u.packets marker (pos_part d.limits.max_packets_per_unit))

-- The part of Push that adds a packet to its unit.
unfoldable pub add_packet :
    Depacketizer → PendingUnit → Bool → RtpPacket → Depacketizer × PushAnswer
unfolding try_complete
add_packet d u prior_loss packet =
    let u' = with_packet u packet in
    let d' = record d { pending = some u' } in
    if any (λ q. q.sequence_number == packet.sequence_number) u.packets
    then (record d { pending = some u }, waits)
    else if ltb (max_bytes d) u'.bytes
        || leb (pos_part d.limits.max_packets_per_unit) (length u.packets)
    then (give_up d, fails access_unit_too_large)
    else try_complete d' u' prior_loss u'.marker

unfoldable pub push : Depacketizer → RtpPacket → Depacketizer × PushAnswer
unfolding unit_for add_packet
push d packet =
    let (u, prior_loss) = unit_for d.pending packet in
    if not (packet.generation == d.generation)
    then (d, fails generation_mismatch)
    else if (packet.received_at == 0) || is_empty packet.payload
    then (d, fails invalid_packet)
    else if ltb (pos_part d.limits.max_packet_bytes) (length packet.payload)
    then (d, fails packet_too_large)
    else if d.have_last && not (is_after32 packet.timestamp d.last_timestamp)
    then (d, waits)
    else if elim d.pending [ none ↦ false | some p ↦ is_before32 packet.timestamp p.timestamp ]
    then (d, waits)
    else add_packet (if prior_loss then record d { discontinuity = true } else d) u prior_loss
        packet
