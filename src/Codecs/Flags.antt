-- ===== src/Codecs/Flags.antt =====
-- codecs/codecs.go: `PacketFlags`, what the forwarding of a packet depends on. The parsers of pion/rtp
-- are parameters.
use galene.Base.Word.{has_bit, shr, low_bits}
use galene.Base.{
  ℕ, ◌+◌, ◌*◌, ◌^◌, Bool, true, false, not, ◌&&◌, ◌||◌, Option, none, some, List, [], ◌∷◌,
  if◌then◌else◌, ltb, ◌==◌, length, get_elem?, ◌>>=◌,
}

-- The codec's name, compared without regard to case.
pub data Codec : Type 0 where
  vp8 : Codec
  vp9 : Codec
  av1 : Codec
  h264 : Codec
  other : Codec

-- The fields of `VP8Packet` and `VP9Packet` that the source reads.
pub record Vp8Packet : Type 0 where
  pub s : ℕ
  pub pid : ℕ
  pub picture_id : ℕ
  pub tid : ℕ
  pub y : ℕ
  pub n : ℕ
  pub payload : List ℕ

pub record Vp9Packet : Type 0 where
  pub p : Bool
  pub b : Bool
  pub e : Bool
  pub v : Bool
  pub u : Bool
  pub tid : ℕ
  pub sid : ℕ
  pub width : List ℕ
  pub height : List ℕ
  pub payload : List ℕ

-- `rtp` gives the payload and the marker; none is an error.
pub record Parsers : Type 0 where
  pub rtp : List ℕ → Option (List ℕ × Bool)
  pub parse_vp8 : List ℕ → Option Vp8Packet
  pub parse_vp9 : List ℕ → Option Vp9Packet

pub record Flags : Type 0 where
  pub seqno : ℕ
  pub marker : Bool
  pub start : Bool
  pub end : Bool
  pub keyframe : Bool
  pub pid : ℕ
  pub tid : ℕ
  pub sid : ℕ
  pub tid_up_sync : Bool
  pub sid_up_sync : Bool
  pub sid_non_reference : Bool
  pub discardable : Bool

abbrev pub no_flags : Flags
no_flags = record {
  seqno = 0;
  marker = false;
  start = false;
  end = false;
  keyframe = false;
  pid = 0;
  tid = 0;
  sid = 0;
  tid_up_sync = false;
  sid_up_sync = false;
  sid_non_reference = false;
  discardable = false;
}

-- `len(payload) > 0 && (payload[0] & 0x1) == 0`
abbrev pub is_vp8_key : List ℕ → Bool
is_vp8_key [] = false
is_vp8_key (b ∷ payload) = not (has_bit b 0)

-- The test of the frame's header, by its profile.
abbrev pub is_vp9_key : ℕ → Bool
is_vp9_key b =
    if low_bits (shr b 4) 2 == 3 then low_bits (shr b 1) 2 == 0 else low_bits (shr b 2) 2 == 0

abbrev pub starts_vp9_key : Bool → List ℕ → Bool
starts_vp9_key b [] = false
starts_vp9_key b (c ∷ payload) = b && ((low_bits (shr c 6) 2 == 2) && is_vp9_key c)

abbrev pub vp8_flags : Flags → Bool → Vp8Packet → Flags
vp8_flags f marker q =
    let starts = not (q.s == 0) && q.pid == 0 in
    let key = starts && is_vp8_key q.payload in
    record f {
      start = starts;
      end = marker;
      keyframe = key;
      pid = q.picture_id;
      tid = q.tid;
      tid_up_sync = key || q.y == 1;
      sid_up_sync = key;
      discardable = q.n == 1;
    }

-- `first` is the first byte of the RTP payload.
abbrev pub vp9_flags : Flags → ℕ → Vp9Packet → Flags
vp9_flags f first q =
    let key = starts_vp9_key q.b q.payload in
    record f {
      start = q.b;
      end = q.e;
      keyframe = key;
      tid = q.tid;
      sid = q.sid;
      tid_up_sync = key || q.u;
      sid_up_sync = key || not q.p;
      sid_non_reference = has_bit first 0;
    }

-- The flags, and whether there is an error.
abbrev pub vp8_parsed : Flags → Bool → Option Vp8Packet → Option (Flags × Bool)
vp8_parsed f marker none = some (f, true)
vp8_parsed f marker (some q) = some (vp8_flags f marker q, false)

abbrev pub vp9_parsed : Flags → List ℕ → Option Vp9Packet → Option (Flags × Bool)
vp9_parsed f payload none = some (f, true)
vp9_parsed f payload (some q) = get_elem? payload 0 >>= λ first. some (vp9_flags f first q, false)

abbrev pub codec_flags : Parsers → Codec → Flags → Option (List ℕ × Bool) → Option (Flags × Bool)
codec_flags p vp8 f none = some (f, true)
codec_flags p vp8 f (some (payload, marker)) = vp8_parsed f marker (p.parse_vp8 payload)
codec_flags p vp9 f none = some (f, true)
codec_flags p vp9 f (some (payload, marker)) = vp9_parsed f payload (p.parse_vp9 payload)
codec_flags p av1 f r = some (f, false)
codec_flags p h264 f r = some (f, false)
codec_flags p other f r = some (f, false)

-- `PacketFlags`; none is a panic.
unfoldable pub packet_flags : Parsers → Codec → List ℕ → Option (Flags × Bool)
packet_flags p codec buf =
    if ltb (length buf) 4
    then some (no_flags, true)
    else get_elem? buf 1 >>= λ b1. get_elem? buf 2 >>= λ b2. get_elem? buf 3 >>= λ b3.
        codec_flags p codec (record no_flags { seqno = b2 * 2 ^ 8 + b3; marker = has_bit b1 7 })
          (p.rtp buf)
