-- ===== src/Video/Tests.antt =====
-- Packets received at concrete inputs.
use jetkvm_cli.Base.{◌≡◌, refl, true, false, none, [], ◌∷◌, ok}
use jetkvm_cli.Base.Int.{pos}
use jetkvm_cli.Video.{Limits, RtpPacket, with_defaults, is_valid_limits}
use jetkvm_cli.Video.Assembly.{
  append_payloads, append_payload, append_nal, append_aggregated, note_nal,
}
use jetkvm_cli.Video.Depacketizer.{
  Depacketizer, emits, new_depacketizer, push, unit_for, add_packet, try_complete, complete_row,
  complete, assemble, finish_unit, ordered_packets, sort_packets, insert_packet, is_contiguous,
  first_received, last_sequence_of,
}
use jetkvm_cli.Video.Held.{IsHeld, AnswerFits, receive, receive-IsHeld, push-IsHeld}

abbrev limits : Limits
limits = record {
  max_packet_bytes = pos 100;
  max_access_unit_bytes = pos 64;
  max_packets_per_unit = pos 4;
  max_width = pos 10;
  max_height = pos 10;
  max_pixels = pos 100;
  default_freshness = pos 1;
  min_pli_interval = pos 1;
}

abbrev receiver : Depacketizer
receiver = record {
  generation = 7;
  limits = limits;
  pending = none;
  sps = [];
  pps = [];
  last_sequence = 0;
  last_timestamp = 0;
  have_last = false;
  discontinuity = false;
}

receiver_lem : new_depacketizer 7 limits ≡ ok receiver
unfolding new_depacketizer with_defaults is_valid_limits
receiver_lem = refl

-- The parameter sets, aggregated, and a key frame.
abbrev parameter_sets : RtpPacket
parameter_sets = record {
  generation = 7;
  sequence_number = 65535;
  timestamp = 90;
  marker = false;
  received_at = 1;
  payload = 24 ∷ 0 ∷ 2 ∷ 103 ∷ 1 ∷ 0 ∷ 2 ∷ 104 ∷ 2 ∷ [];
}

abbrev key_frame : RtpPacket
key_frame = record {
  generation = 7;
  sequence_number = 0;
  timestamp = 90;
  marker = true;
  received_at = 2;
  payload = 101 ∷ 9 ∷ [];
}

push-IsHeld_example :
    ((push (receive receiver (parameter_sets ∷ [])) key_frame).0.generation
      ≡ (receive receiver (parameter_sets ∷ [])).generation)
    × ((push (receive receiver (parameter_sets ∷ [])) key_frame).0.limits
        ≡ (receive receiver (parameter_sets ∷ [])).limits)
    × IsHeld (push (receive receiver (parameter_sets ∷ [])) key_frame).0
    × AnswerFits
        (receive receiver (parameter_sets ∷ []))
        (push (receive receiver (parameter_sets ∷ [])) key_frame).1
push-IsHeld_example =
    push-IsHeld (receive receiver (parameter_sets ∷ [])) key_frame
      (receive-IsHeld receiver (parameter_sets ∷ []) tt)

-- The sequence wraps, and the unit is complete.
key_frame_emitted :
    (push (receive receiver (parameter_sets ∷ [])) key_frame).1
    ≡ emits record {
      generation = 7;
      rtp_time = 90;
      first_sequence = 65535;
      last_sequence = 0;
      received_at = 1;
      annex_b = 0 ∷ 0 ∷ 0 ∷ 1 ∷ 103 ∷ 1 ∷ 0 ∷ 0 ∷ 0 ∷ 1 ∷ 104 ∷ 2 ∷ 0 ∷ 0 ∷ 0 ∷ 1 ∷ 101 ∷ 9 ∷ [];
      has_sps = true;
      has_pps = true;
      keyframe = true;
      decodable = true;
      parameter_sets_reused = false;
      discontinuity = false;
    }
unfolding receive push unit_for add_packet try_complete complete_row complete assemble finish_unit
    ordered_packets sort_packets insert_packet is_contiguous first_received last_sequence_of
    append_payloads append_payload append_nal append_aggregated note_nal
key_frame_emitted = refl
