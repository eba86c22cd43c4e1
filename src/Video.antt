-- ===== src/Video.antt =====
-- internal/video: the H.264 receiver, from RTP packets to access units in Annex B (depacketizer.go, with
-- the types of types.go). A payload is a list of bytes, each a number below 256; a bit is read off by
-- division. A time is a number, 0 for the zero time.
pub mod Assembly
pub mod Depacketizer
pub mod Bounds
pub mod Held
mod Tests
use jetkvm_cli.Base.{ℕ, ◌*◌, Bool, not, ◌||◌, List, if◌then◌else◌}
use jetkvm_cli.Base.Int.{ℤ, pos, leb_ℤ, eq_ℤ}

pub data VideoError : Type 0 where
  invalid_config invalid_packet unsupported_packet packet_loss packet_too_large : VideoError
  access_unit_too_large generation_mismatch : VideoError

pub record Limits : Type 0 where
  pub max_packet_bytes : ℤ
  pub max_access_unit_bytes : ℤ
  pub max_packets_per_unit : ℤ
  pub max_width : ℤ
  pub max_height : ℤ
  pub max_pixels : ℤ
  pub default_freshness : ℤ
  pub min_pli_interval : ℤ

abbrev pub or_default : ℤ → ℕ → ℤ
or_default value default = if eq_ℤ value (pos 0) then pos default else value

unfoldable pub with_defaults : Limits → Limits
with_defaults l = record {
  max_packet_bytes = or_default l.max_packet_bytes 65536;
  max_access_unit_bytes = or_default l.max_access_unit_bytes 8388608;
  max_packets_per_unit = or_default l.max_packets_per_unit 8192;
  max_width = or_default l.max_width 4096;
  max_height = or_default l.max_height 2160;
  max_pixels = or_default l.max_pixels (4096 * 2160);
  default_freshness = or_default l.default_freshness 5000000000;
  min_pli_interval = or_default l.min_pli_interval 250000000;
}

unfoldable pub is_valid_limits : Limits → Bool
is_valid_limits l = not (
    leb_ℤ l.max_packet_bytes (pos 0)
    || leb_ℤ l.max_access_unit_bytes (pos 0)
    || leb_ℤ l.max_packets_per_unit (pos 0)
    || leb_ℤ l.max_width (pos 0)
    || leb_ℤ l.max_height (pos 0)
    || leb_ℤ l.max_pixels (pos 0)
    || leb_ℤ l.default_freshness (pos 0)
    || leb_ℤ l.min_pli_interval (pos 0))

pub record RtpPacket : Type 0 where
  pub generation : ℕ
  pub sequence_number : ℕ
  pub timestamp : ℕ
  pub marker : Bool
  pub received_at : ℕ
  pub payload : List ℕ

pub record AccessUnit : Type 0 where
  pub generation : ℕ
  pub rtp_time : ℕ
  pub first_sequence : ℕ
  pub last_sequence : ℕ
  pub received_at : ℕ
  pub annex_b : List ℕ
  pub has_sps : Bool
  pub has_pps : Bool
  pub keyframe : Bool
  pub decodable : Bool
  pub parameter_sets_reused : Bool
  pub discontinuity : Bool
