-- ===== src/DownTrack/Tests.antt =====
-- The theorems about rtpconn/rtpconn.go and about `Keyframe` at small packets, with toy parsers.
use galene.Base.{
  ℕ, ◌≡◌, refl, ◌<◌, ◌^◌, ◌++◌, true, false, Option, none, some, List, [], ◌∷◌, arith, Returns,
  replicate, length, drop, All,
}
use galene.PacketMap
use galene.PacketMap.Bounds
use galene.PacketMap.Bounds.{empty-IsValid}
use galene.Codecs.Flags.{Parsers, Flags, vp8, packet_flags, no_flags, h264}
use galene.Codecs.Keyframe.{keyframe}
use galene.Codecs.Keyframe.Total.{Total, keyframe-Total}
use galene.DownTrack.{DownTrack, LayerInfo, Outcome, write, unpack}
use galene.DownTrack.Layers.{IsValid, Switches, write-Switches}
use galene.DownTrack.Forward.{Done, write-Done}

abbrev two_layers : LayerInfo
two_layers = record {
  sid = 0;
  wanted_sid = 1;
  max_sid = 1;
  tid = 2;
  wanted_tid = 2;
  max_tid = 3;
  limit_sid = true;
}

abbrev parsers : Parsers
parsers = record {
  rtp = λ buf. some (drop 12 buf, false);
  parse_vp8 = λ payload.
      some (record {
        s = 1;
        pid = 0;
        picture_id = 7;
        tid = 3;
        y = 0;
        n = 0;
        payload = drop 1 payload;
      });
  parse_vp9 = λ payload. none;
}

-- Packet 700, the start of a keyframe.
abbrev packet : List ℕ
packet = 128 ∷ 0 ∷ 2 ∷ 188 ∷ replicate 8 0 ++ 16 ∷ 0 ∷ []

abbrev flags : Flags
flags = record no_flags {
  seqno = 700;
  start = true;
  keyframe = true;
  pid = 7;
  tid = 3;
  tid_up_sync = true;
  sid_up_sync = true;
}

packet_start : packet_flags parsers vp8 packet ≡ some (flags, false)
unfolding packet_flags
packet_start = refl

abbrev track : DownTrack
track = record {
  layer_info = 0;
  packetmap = PacketMap.empty;
  max_bitrate = record { bitrate = 100000; jiffies = 4 };
  max_remb_bitrate = record { bitrate = 0; jiffies = 4 };
  rate = record {
    interval = 10;
    time = 3;
    bytes = 0;
    packets = 0;
    total_bytes = 0;
    total_packets = 0;
    rate = 0;
    packet_rate = 0;
  };
  requests = 0;
}

abbrev bytes_small : All (λ b. b < 2 ^ 8) packet
bytes_small = omega arith

write-Done_example :
    Returns
      (λ r. PacketMap.Bounds.IsValid r.0.packetmap × Done track.packetmap flags (length packet) r)
      (write parsers vp8 track packet 5)
write-Done_example =
    write-Done parsers vp8 track packet 5 128 flags packet_start bytes_small (omega arith)
      empty-IsValid (omega arith) (omega arith) refl refl

-- The result of a call that returns.
returned {ℓ} : {A : Type ℓ} (P : A → Type 0) (o : Option A) → Returns P o → (a : A) × (o ≡ some a)
returned P none h = absurd h
returned P (some a) h = (a, refl)

abbrev result : (r : DownTrack × Outcome) × (write parsers vp8 track packet 5 ≡ some r)
result = returned _ (write parsers vp8 track packet 5) write-Done_example

no_layers : IsValid (unpack 0)
unfolding unpack
no_layers = omega arith

write-Switches_example :
    IsValid (unpack result.0.0.layer_info)
    × Switches (unpack 0) flags (unpack result.0.0.layer_info)
write-Switches_example =
    write-Switches parsers vp8 track packet 5 flags result.0.0 result.0.1 packet_start (omega arith)
      (omega arith) no_layers result.1

keyframe-Total_example : Total (keyframe parsers h264 (0x78 ∷ 0 ∷ 2 ∷ 0x67 ∷ 0 ∷ 0 ∷ []))
keyframe-Total_example = keyframe-Total parsers h264 (0x78 ∷ 0 ∷ 2 ∷ 0x67 ∷ 0 ∷ 0 ∷ [])
