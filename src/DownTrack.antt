-- ===== src/DownTrack.antt =====
-- rtpconn/rtpconn.go: a track on its way to a receiver. `Write` chooses the layers to forward, drops
-- the packets of others, renumbers the rest and rewrites their bytes. The clock is an argument.
pub mod Layers
pub mod Forward
pub mod Kept
mod Tests
use galene.Base.Word.{has_bit, shr, low_bits, u64}
use galene.Base.{
  ℕ, ◌+◌, ◌-◌, ◌*◌, ◌/◌, ◌^◌, Bool, true, false, not, ◌&&◌, ◌||◌, Option, none, some, List,
  if◌then◌else◌, ltb, leb, ◌==◌, ◌>>=◌,
}
use galene.Estimator.{Estimator, accumulate, estimate, jiffies_per_sec}
use galene.PacketCache.{buf_size}
use galene.Base.{length, take}
use galene.Codecs.{rewrite_packet}
use galene.Codecs.Flags.{Codec, vp8, vp9, av1, h264, other, Parsers, Flags, packet_flags}
use galene.PacketMap
use galene.PacketMap.{Map}

-- `bitrate`
pub record Bitrate : Type 0 where
  pub bitrate : ℕ
  pub jiffies : ℕ

-- `receiverReportTimeout`
abbrev receiver_report_timeout : ℕ
receiver_report_timeout = 30 * jiffies_per_sec

-- `bitrate.Get`: the greatest number if there is no recent report.
unfoldable pub get_bitrate : Bitrate → ℕ → ℕ
get_bitrate br now =
    if ltb now br.jiffies || ltb receiver_report_timeout (now - br.jiffies)
    then 2 ^ 64 - 1
    else br.bitrate

-- `layerInfo`
pub record LayerInfo : Type 0 where
  pub sid : ℕ
  pub wanted_sid : ℕ
  pub max_sid : ℕ
  pub tid : ℕ
  pub wanted_tid : ℕ
  pub max_tid : ℕ
  pub limit_sid : Bool

-- `getLayerInfo`, from the word that holds the fields.
pub unpack : ℕ → LayerInfo
unpack info = record {
  sid = low_bits info 4;
  wanted_sid = low_bits (shr info 4) 4;
  max_sid = low_bits (shr info 8) 4;
  limit_sid = not (low_bits (shr info 12) 1 == 0);
  tid = low_bits (shr info 16) 4;
  wanted_tid = low_bits (shr info 20) 4;
  max_tid = low_bits (shr info 24) 4;
}

-- `setLayerInfo`, which is also called here where nothing has changed: the fields do not overlap, so `|` is a sum.
pub pack : LayerInfo → ℕ
pack l =
    low_bits l.sid 4
    + low_bits l.wanted_sid 4 * 2 ^ 4
    + low_bits l.max_sid 4 * 2 ^ 8
    + (if l.limit_sid then 1 else 0) * 2 ^ 12
    + low_bits l.tid 4 * 2 ^ 16
    + low_bits l.wanted_tid 4 * 2 ^ 20
    + low_bits l.max_tid 4 * 2 ^ 24

-- `rtpDownTrack`; `requests` counts the calls of `RequestKeyframe`, which go to the sender.
pub record DownTrack : Type 0 where
  pub layer_info : ℕ
  pub packetmap : Map
  pub max_bitrate : Bitrate
  pub max_remb_bitrate : Bitrate
  pub rate : Estimator
  pub requests : ℕ

-- `GetMaxBitrate`, less the layers, which it only reports.
unfoldable pub get_max_bitrate : DownTrack → ℕ → ℕ
get_max_bitrate t now =
    let reported = get_bitrate t.max_bitrate now in
    let r = if reported == 2 ^ 64 - 1 then 512 * 1024 else reported in
    let rr = get_bitrate t.max_remb_bitrate now in if not (rr == 0) && ltb rr r then rr else r

-- The branches of `adjustLayer`.
pub switch_up : LayerInfo → LayerInfo
switch_up l =
    if l.limit_sid && not (l.wanted_sid == 0)
    then record l { wanted_sid = 0 }
    else if not l.limit_sid && ltb l.sid l.max_sid
    then record l { wanted_sid = l.sid + 1 }
    else if ltb l.tid l.max_tid
    then record l { wanted_tid = l.tid + 1 }
    else l

pub switch_down : LayerInfo → LayerInfo
switch_down l =
    if ltb 0 l.tid
    then record l { wanted_tid = l.tid - 1 }
    else if ltb 0 l.sid
    then (if l.limit_sid then record l { wanted_sid = 0 } else record l { wanted_sid = l.sid - 1 })
    else l

pub adjusted : LayerInfo → ℕ → ℕ → LayerInfo
adjusted l rate most =
    if ltb rate (u64 (most * 7) / 8)
    then switch_up l
    else if ltb (u64 (most * 3) / 2) rate
    then switch_down l
    else l

-- `adjustLayer` at the time `now`.
pub adjust_layer : DownTrack → ℕ → DownTrack
adjust_layer t now =
    let e = estimate t.rate now in
    record t {
      rate = e;
      layer_info = pack (adjusted (unpack t.layer_info) (u64 (e.rate * 8)) (get_max_bitrate t now));
    }

-- The first steps of `Write`: a layer that is seen for the first time is chosen at once, if the
-- highest one so far is.
pub see_tid : LayerInfo → Flags → LayerInfo
see_tid l f =
    if ltb l.max_tid f.tid
    then (if l.tid == l.max_tid
        then record l { wanted_tid = f.tid; tid = f.tid; max_tid = f.tid }
        else record l { max_tid = f.tid })
    else l

pub see_sid : LayerInfo → Flags → LayerInfo
see_sid l f =
    if ltb l.max_sid f.sid
    then (if l.sid == l.max_sid && not l.limit_sid
        then record l { wanted_sid = f.sid; sid = f.sid; max_sid = f.sid }
        else record l { max_sid = f.sid })
    else l

pub see_layer : DownTrack → Flags → ℕ → DownTrack
see_layer t f now =
    let l = unpack t.layer_info in
    if ltb l.max_tid f.tid || ltb l.max_sid f.sid
    then adjust_layer (record t { layer_info = pack (see_sid (see_tid l f) f) }) now
    else t

-- At the start of a frame the chosen layers may become the wanted ones.
pub choose_tid : LayerInfo → Flags → LayerInfo
choose_tid l f =
    if f.start && not (l.tid == l.wanted_tid)
    then if f.keyframe
      then record l { tid = l.wanted_tid }
      else if ltb l.wanted_tid l.tid
      then record l { tid = l.wanted_tid }
      else if f.tid_up_sync && leb f.tid l.wanted_tid
      then record l { tid = f.tid }
      else l
    else l

pub choose_sid : LayerInfo → Flags → LayerInfo
choose_sid l f =
    if f.start && (not (l.sid == l.wanted_sid) && f.keyframe)
    then record l { sid = l.wanted_sid }
    else l

-- Whether `RequestKeyframe` is called.
pub requests_keyframe : LayerInfo → Flags → Bool
requests_keyframe l f = f.start && (not (l.sid == l.wanted_sid) && not f.keyframe)

-- The packet is not of a chosen layer.
pub is_unwanted : LayerInfo → Flags → Bool
is_unwanted l f = ltb l.tid f.tid || (ltb l.sid f.sid || (ltb f.sid l.sid && f.sid_non_reference))

-- What becomes of a packet: an error, nothing, or bytes that are written to the receiver.
pub data Outcome : Type 0 where
  failed : Outcome
  dropped : Outcome
  unmapped : Outcome
  sent : List ℕ → Outcome

abbrev pub is_vp8 : Codec → Bool
is_vp8 vp8 = true
is_vp8 vp9 = false
is_vp8 av1 = false
is_vp8 h264 = false
is_vp8 other = false

-- `rtpDownTrack.write`, where the library writes all of the bytes.
abbrev pub deliver : DownTrack → List ℕ → DownTrack × Outcome
deliver t buf = (record t { rate = accumulate t.rate (length buf) }, sent buf)

abbrev pub rewritten : DownTrack → List ℕ × Bool → DownTrack × Outcome
rewritten t (buf, true) = (t, failed)
rewritten t (buf, false) = deliver t buf

-- The end of `Write`, from `Map` on; a packet is rewritten in a buffer of `BufSize` bytes.
pub forward : Codec → DownTrack → LayerInfo → Flags → List ℕ → Option (DownTrack × Outcome)
forward codec t l f buf =
    PacketMap.map t.packetmap f.seqno f.pid >>= λ (m, (mapped, newseqno, piddelta)).
    let t' = record t { packetmap = m } in
    let set_marker = f.sid == l.sid && (f.end && not f.marker) in
    if not mapped
    then some (t', unmapped)
    else if not set_marker && (newseqno == f.seqno && piddelta == 0)
    then some (deliver t' buf)
    else rewrite_packet (is_vp8 codec) (take buf_size buf) set_marker newseqno piddelta >>= λ r.
        some (rewritten t' r)

-- `Write` of a packet with these flags.
pub forward_layers : Codec → DownTrack → Flags → List ℕ → ℕ → Option (DownTrack × Outcome)
forward_layers codec t f buf now =
    let seen = see_layer t f now in
    let before = choose_tid (unpack seen.layer_info) f in
    let l = choose_sid before f in
    let chosen = record seen {
      layer_info = pack l;
      requests = seen.requests + (if requests_keyframe before f then 1 else 0);
    } in
    let (m, ok) = PacketMap.drop chosen.packetmap f.seqno f.pid in
    if is_unwanted l f && ok
    then some (record chosen { packetmap = m }, dropped)
    else forward codec chosen l f buf

-- `Write`
pub write : Parsers → Codec → DownTrack → List ℕ → ℕ → Option (DownTrack × Outcome)
write p codec t buf now = packet_flags p codec buf >>= λ (f, error).
    if error then some (t, failed) else forward_layers codec t f buf now
