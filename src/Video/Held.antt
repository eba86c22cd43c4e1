-- ===== src/Video/Held.antt =====
-- What the receiver of internal/video/depacketizer.go holds and emits, packet by packet.
use jetkvm_cli.Base.{
  ℕ, suc, ◌+◌, ◌≤◌, ◌≡◌, inl, inr, refl, subst, ◌∙◌, Bool, true, false, not, ◌&&◌, ◌||◌, Option,
  none, some, List, [], ◌∷◌, arith, if◌then◌else◌, ltb, leb, ◌==◌, ==_iff, length, is_empty, any,
  Bool-cases, Option-cases, Result-cases,
}
use jetkvm_cli.Base.Int.{pos_part}
use jetkvm_cli.Video.{RtpPacket}
use jetkvm_cli.Video.Depacketizer.{
  PendingUnit, Depacketizer, PushAnswer, waits, emits, fails, max_bytes, assemble, fresh_unit,
  unit_for, with_packet, complete, complete_row, try_complete, add_packet, ordered_packets,
  is_after32, is_before32, push,
}
use jetkvm_cli.Video.Bounds.{if-elim, not_ltb→le, or_false, UnitFits, assemble-UnitFits}

-- An answer of the receiver emits nothing but units within its limit, of its generation.
abbrev pub AnswerFits : Depacketizer → PushAnswer → Type 0
AnswerFits d waits = Unit {0}
AnswerFits d (fails e) = Unit {0}
AnswerFits d (emits u) = (length u.annex_b ≤ max_bytes d) × (u.generation ≡ d.generation)

-- The bytes that packets carry, counted anew.
unfoldable pub payload_bytes : List RtpPacket → ℕ
payload_bytes [] = 0
payload_bytes (p ∷ ps) = length p.payload + payload_bytes ps

abbrev HeldUnit : Depacketizer → Option PendingUnit → Type 0
HeldUnit d none = Unit {0}
HeldUnit d (some u) =
    (u.generation ≡ d.generation)
    × (u.bytes ≡ payload_bytes u.packets)
    × (payload_bytes u.packets ≤ max_bytes d)
    × (length u.packets ≤ pos_part d.limits.max_packets_per_unit)

-- The unit that the receiver holds is one of its generation, within its limits.
abbrev pub IsHeld : Depacketizer → Type 0
IsHeld d = HeldUnit d d.pending

-- What a command leaves and answers.
abbrev Keeps : Depacketizer → Depacketizer × PushAnswer → Type 0
Keeps d (d', answer) =
    (d'.generation ≡ d.generation) × (d'.limits ≡ d.limits) × IsHeld d' × AnswerFits d answer

complete-Keeps :
    (d : Depacketizer) (u : PendingUnit) (p : RtpPacket) (ps : List RtpPacket)
    → u.generation ≡ d.generation
    → Keeps d (complete d u p ps)
unfolding complete assemble
complete-Keeps d u p ps same = elim (Result-cases (assemble d u p ps).1) [
  | inl (e, bad) ↦ rw (bad, complete) (refl, refl, tt, tt)
  | inr (unit, good) ↦
      let (small, own) =
        subst (λ r. UnitFits (max_bytes d) u.generation r) good (assemble-UnitFits d u p ps) in
      rw (good, complete) (refl, refl, tt, (small, own ∙ same))
]

try_complete-Keeps :
    (d : Depacketizer) (u : PendingUnit) (prior_loss : Bool) (marker : Option ℕ)
    → IsHeld d
    → u.generation ≡ d.generation
    → Keeps d (try_complete d u prior_loss marker)
unfolding try_complete complete_row
try_complete-Keeps d u true none held same = (refl, refl, held, tt)
try_complete-Keeps d u false none held same = (refl, refl, held, tt)
try_complete-Keeps d u prior_loss (some marker) held same =
    rows (ordered_packets u.packets marker (pos_part d.limits.max_packets_per_unit))
  where
    rows : (o : Option (List RtpPacket)) → Keeps d (complete_row d u o)
    rows none = (refl, refl, held, tt)
    rows (some []) = (refl, refl, held, tt)
    rows (some (p ∷ ps)) = complete-Keeps d u p ps same

with_packet-bytes :
    (u : PendingUnit) (packet : RtpPacket)
    → u.bytes ≡ payload_bytes u.packets
    → (with_packet u packet).bytes ≡ payload_bytes (with_packet u packet).packets
unfolding payload_bytes
with_packet-bytes u packet counted = omega (arith, counted)

add_packet-Keeps :
    (d : Depacketizer) (u : PendingUnit) (prior_loss : Bool) (packet : RtpPacket)
    → HeldUnit d (some u)
    → u.generation ≡ d.generation
    → Keeps d (add_packet d u prior_loss packet)
unfolding add_packet
add_packet-Keeps d u prior_loss packet held same =
    let u' = with_packet u packet in
    let d' = record d { pending = some u' } in
    let most = pos_part d.limits.max_packets_per_unit in
    let over = ltb (max_bytes d) u'.bytes in
    elim (Bool-cases (any (λ q. q.sequence_number == packet.sequence_number) u.packets)) [
      | inl again ↦ rw (again, add_packet) (refl, refl, held, tt)
      | inr new ↦ elim (Bool-cases (over || leb most (length u.packets))) [
        | inl full ↦ rw (new, full, add_packet) (refl, refl, tt, tt)
        | inr room ↦
            let bytes =
              not_ltb→le (max_bytes d) u'.bytes
                (or_false' over (leb most (length u.packets)) room) in
            let count =
              below most (length u.packets) (or_false over (leb most (length u.packets)) room) in
            let counted = with_packet-bytes u packet held.1 in
            let held' : HeldUnit d (some u') =
              (same, counted, subst (λ b. b ≤ max_bytes d) counted bytes, count) in
            rw (new, room, add_packet) (try_complete-Keeps d' u' prior_loss u'.marker held' same)
      ]
    ]
  where
    or_false' : (b c : Bool) → (b || c) ≡ false → b ≡ false
    or_false' b c h = ground arith

    below : (m n : ℕ) → leb m n ≡ false → suc n ≤ m
    below m n h = ground arith

unit_for-Held :
    (d : Depacketizer) (packet : RtpPacket)
    → IsHeld d
    → packet.generation ≡ d.generation
    → HeldUnit d (some (unit_for d.pending packet).0)
unfolding unit_for payload_bytes
unit_for-Held d packet held same = elim (Option-cases d.pending) [
  | inl nothing ↦ rw (nothing, unit_for) (same, refl, omega arith, omega arith)
  | inr (u, pending) ↦
      let h : HeldUnit d (some u) = subst (λ o. HeldUnit d o) pending held in
      rw (pending, unit_for)
        (if-elim (λ (x : PendingUnit × Bool). HeldUnit d (some x.0))
          (u.timestamp == packet.timestamp) (u, false) (fresh_unit packet, true) h
          (same, refl, omega arith, omega arith))
]

-- A packet leaves the receiver's generation and limits alone. The unit that it then holds is of this
-- generation, its packets are no more than the limit, their payloads together are no longer than the
-- limit on bytes, and its counter of bytes is exactly their sum; a unit that it emits is of this
-- generation and no longer than the limit, if what it held before was so.
pub push-IsHeld :
    (d : Depacketizer) (packet : RtpPacket)
    → IsHeld d
    → ((push d packet).0.generation ≡ d.generation)
      × ((push d packet).0.limits ≡ d.limits)
      × IsHeld (push d packet).0
      × AnswerFits d (push d packet).1
unfolding push
push-IsHeld d packet held = elim (Bool-cases (packet.generation == d.generation)) [
  | inr other ↦ rw (other, push) (refl, refl, held, tt)
  | inl own ↦
      let same = (==_iff packet.generation d.generation).0 own in
      let (u, prior_loss) = unit_for d.pending packet in
      let h = unit_for-Held d packet held same in
      rw (own, push)
        (if-elim (Keeps d) (packet.received_at == 0 || is_empty packet.payload) _ _
          (refl, refl, held, tt)
          (if-elim (Keeps d) (ltb (pos_part d.limits.max_packet_bytes) (length packet.payload)) _ _
            (refl, refl, held, tt)
            (if-elim (Keeps d) (d.have_last && not (is_after32 packet.timestamp d.last_timestamp)) _
              _ (refl, refl, held, tt)
              (if-elim (Keeps d)
                (elim d.pending [
                  | none ↦ false
                  | some p ↦ is_before32 packet.timestamp p.timestamp
                ])
                _ _ (refl, refl, held, tt) (added u prior_loss h prior_loss)))))
]
  where
    added :
        (u : PendingUnit) (prior_loss : Bool)
        → HeldUnit d (some u)
        → (b : Bool)
        → Keeps d
            (add_packet (if b then record d { discontinuity = true } else d) u prior_loss packet)
    added u prior_loss h true =
        add_packet-Keeps (record d { discontinuity = true }) u prior_loss packet h h.0
    added u prior_loss h false = add_packet-Keeps d u prior_loss packet h h.0

-- Packets received one after the other.
unfoldable pub receive : Depacketizer → List RtpPacket → Depacketizer
receive d [] = d
receive d (p ∷ ps) = receive (push d p).0 ps

pub receive-IsHeld : (d : Depacketizer) (ps : List RtpPacket) → IsHeld d → IsHeld (receive d ps)
unfolding receive
receive-IsHeld d [] held = held
receive-IsHeld d (p ∷ ps) held =
    let (g, l, held', answer) = push-IsHeld d p held in receive-IsHeld (push d p).0 ps held'
