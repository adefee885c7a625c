-- ===== src/Feedback.antt =====
-- rtpconn/rtpconn.go: what a receiver tells by RTCP about a track that is sent to it. Its reports
-- change the rate at which the track may be sent, its NACKs make the server send packets again, and
-- it may ask for a keyframe. The packets are those that the library has parsed.
pub mod Rates
pub mod Limits
pub mod Keyframes
mod Tests
use galene.Base.{
  ℕ, ◌+◌, ◌-◌, ◌*◌, ◌/◌, ◌^◌, Bool, true, false, not, ◌&&◌, ◌||◌, Option, none, some, List, [], ◌∷◌,
  ◌++◌, take, replicate, if◌then◌else◌, ltb, leb, ◌==◌, ◌>>=◌, min, max,
}
use galene.Base.Word.{sub64, shr, u32, u64}
use galene.Estimator.{estimate, jiffies_per_sec}
use galene.PacketCache.{buf_size}
use galene.PacketMap
use galene.Codecs.Flags.{Codec, Parsers}
use galene.DownTrack
use galene.DownTrack.{
  DownTrack, Bitrate, get_bitrate, Outcome, failed, dropped, unmapped, sent, adjust_layer,
}
use galene.UpTrack.{UpTrack, get_packet}

-- `receiverStats`
pub record ReceiverStats : Type 0 where
  pub loss : ℕ
  pub jitter : ℕ
  pub jiffies : ℕ

-- `rtpDownTrack` with the fields that RTCP uses: `sr_time` and `sr_ntp` are the times of the last
-- sender report, and `remote` is the track that it comes from.
pub record Receiver : Type 0 where
  pub down : DownTrack
  pub remote : UpTrack
  pub ssrc : ℕ
  pub stats : ReceiverStats
  pub rtt : ℕ
  pub sr_time : ℕ
  pub sr_ntp : ℕ

-- `rtcp.ReceptionReport`
pub record Report : Type 0 where
  pub ssrc : ℕ
  pub fraction_lost : ℕ
  pub jitter : ℕ
  pub last_sender_report : ℕ
  pub delay : ℕ

-- The packets: a request has pairs of an SSRC and a number, an estimate is `uint64(p.Bitrate + 0.5)`,
-- and a NACK has for each of its pairs the numbers that `Range` goes through.
pub data Packet : Type 0 where
  picture_loss : Packet
  full_intra : List (ℕ × ℕ) → Packet
  max_bitrate : ℕ → Packet
  receiver_report : List Report → Packet
  sender_report : List Report → Packet
  nack : List (List ℕ) → Packet
  other : Packet

abbrev pub min_loss_rate : ℕ
min_loss_rate = 9600

abbrev init_loss_rate : ℕ
init_loss_rate = 512 * 1000

abbrev pub max_loss_rate : ℕ
max_loss_rate = 2 ^ 30

-- The rate that `updateRate` starts from: without a recent one in the range, it starts anew.
abbrev pub last_rate : DownTrack → ℕ → ℕ
last_rate t now =
    let rate = get_bitrate t.max_bitrate now in
    if ltb rate min_loss_rate || ltb max_loss_rate rate then init_loss_rate else rate

abbrev pub raised : ℕ → ℕ → ℕ
raised rate actual =
    if leb (u64 (rate * 3) / 4) actual then min (u64 (rate * 269) / 256) max_loss_rate else rate

abbrev pub lowered : ℕ → ℕ → ℕ
lowered rate loss = max (u64 (rate * (512 - loss)) / 512) min_loss_rate

-- `bitrate.Set` of the track's `maxBitrate`.
abbrev pub set_rate : DownTrack → ℕ → ℕ → DownTrack
set_rate t rate now = record t { max_bitrate = record { bitrate = rate; jiffies = now } }

-- `updateRate`, where `clock` is the time that `Estimate` reads.
pub update_rate : DownTrack → ℕ → ℕ → ℕ → DownTrack
update_rate t loss now clock =
    let rate = last_rate t now in
    if ltb loss 5
    then (let e = estimate t.rate clock in
        set_rate (record t { rate = e }) (raised rate (u64 (8 * e.rate))) now)
    else set_rate t (if ltb 25 loss then lowered rate loss else rate) now

-- The end of `handleReport`: the round-trip time, if the report answers the last sender report.
abbrev pub smoothed : ℕ → ℕ → ℕ
smoothed old rtt = if ltb 0 old then u64 (u64 (3 * old) + rtt) / 4 else rtt

pub update_rtt : Receiver → Report → ℕ → Receiver
update_rtt r report clock =
    let since = sub64 clock r.sr_time in
    let delay = u64 (report.delay * (jiffies_per_sec / 2 ^ 16)) in
    if ltb clock r.sr_time || ltb (8 * jiffies_per_sec) since
    then r
    else if not (report.last_sender_report == u32 (shr r.sr_ntp 16))
    then r
    else if ltb since delay
    then r
    else record r { rtt = smoothed r.rtt (sub64 since delay) }

-- `handleReport`
pub handle_report : Receiver → Report → ℕ → ℕ → Receiver
handle_report r report jiffies clock =
    let r' = record r {
      stats = record { loss = report.fraction_lost; jitter = report.jitter; jiffies = jiffies };
      down = update_rate r.down report.fraction_lost jiffies clock;
    } in
    if report.last_sender_report == 0 then r' else update_rtt r' report clock

abbrev request_keyframe : DownTrack → DownTrack
request_keyframe t = record t { requests = t.requests + 1 }

-- The reports about this track, and whether there is one.
pub handle_reports : Receiver → List Report → ℕ → ℕ → Receiver × Bool
handle_reports r [] jiffies clock = (r, false)
handle_reports r (report ∷ reports) jiffies clock =
    let mine = report.ssrc == r.ssrc in
    let r' = if mine then handle_report r report jiffies clock else r in
    let (r'', found) = handle_reports r' reports jiffies clock in (r'', mine || found)

-- The number of the first entry for this track.
pub find_entry : List (ℕ × ℕ) → ℕ → Option ℕ
find_entry [] ssrc = none
find_entry ((s, number) ∷ entries) ssrc = if s == ssrc then some number else find_entry entries ssrc

-- `lastFirSeqno`, which is 0 and is never set.
abbrev last_fir_seqno : ℕ
last_fir_seqno = 0

abbrev pub full_intra_asked : Receiver → Option ℕ → Receiver
full_intra_asked r none = r
full_intra_asked r (some number) =
    if number == last_fir_seqno then r else record r { down = request_keyframe r.down }

abbrev has_failed : Outcome → Bool
has_failed failed = true
has_failed dropped = false
has_failed unmapped = false
has_failed (sent bytes) = false

-- `gotNACK` for one number: the receiver, the buffer, and whether `Range` goes on.
pub nack_one : Parsers → Codec → Receiver → List ℕ → ℕ → ℕ → Option (Receiver × List ℕ × Bool)
nack_one p codec r buf s clock = PacketMap.reverse r.down.packetmap s >>= λ (ok, seqno, piddelta).
    if not ok
    then some (r, buf, true)
    else (get_packet r.remote seqno buf true >>= λ (remote, out, l).
        let r' = record r { remote = remote } in
        if l == 0
        then some (r', out, true)
        else (DownTrack.write p codec r.down (take l out) clock >>= λ (down, outcome).
            some (record r' { down = down }, out, not (has_failed outcome))))

pub nack_range : Parsers → Codec → Receiver → List ℕ → List ℕ → ℕ → Option (Receiver × List ℕ)
nack_range p codec r buf [] clock = some (r, buf)
nack_range p codec r buf (s ∷ ss) clock = nack_one p codec r buf s clock >>= λ (r', out, more).
    let rest = nack_range p codec r' out ss clock in if more then rest else some (r', out)

pub nack_all : Parsers → Codec → Receiver → List ℕ → List (List ℕ) → ℕ → Option (Receiver × List ℕ)
nack_all p codec r buf [] clock = some (r, buf)
nack_all p codec r buf (ss ∷ pairs) clock =
    nack_range p codec r buf ss clock >>= λ (r', out). nack_all p codec r' out pairs clock

-- `gotNACK`
pub got_nack : Parsers → Codec → Receiver → List (List ℕ) → ℕ → Option Receiver
got_nack p codec r pairs clock =
    nack_all p codec r (replicate buf_size 0) pairs clock >>= λ (r', out). some r'

-- One packet of `rtcpDownListener`: the receiver, and whether to adjust its layers.
pub handle_packet : Parsers → Codec → Receiver → Packet → ℕ → ℕ → Option (Receiver × Bool)
handle_packet p codec r picture_loss jiffies clock =
    some (record r { down = request_keyframe r.down }, false)
handle_packet p codec r (full_intra entries) jiffies clock =
    some (full_intra_asked r (find_entry entries r.ssrc), false)
handle_packet p codec r (max_bitrate rate) jiffies clock = some (
  record r {
    down = record r.down { max_remb_bitrate = record { bitrate = rate; jiffies = jiffies } };
  },
  true,
)
handle_packet p codec r (receiver_report reports) jiffies clock =
    some (handle_reports r reports jiffies clock)
handle_packet p codec r (sender_report reports) jiffies clock =
    some ((handle_reports r reports jiffies clock).0, false)
handle_packet p codec r (nack pairs) jiffies clock =
    got_nack p codec r pairs clock >>= λ r'. some (r', false)
handle_packet p codec r other jiffies clock = some (r, false)

pub handle_packets : Parsers → Codec → Receiver → List Packet → ℕ → ℕ → Option (Receiver × Bool)
handle_packets p codec r [] jiffies clock = some (r, false)
handle_packets p codec r (x ∷ xs) jiffies clock =
    handle_packet p codec r x jiffies clock >>= λ (r', adjust).
    handle_packets p codec r' xs jiffies clock >>= λ (r'', adjust'). some (r'', adjust || adjust')

-- One round of the loop of `rtcpDownListener`.
pub listen : Parsers → Codec → Receiver → List Packet → ℕ → ℕ → Option Receiver
listen p codec r packets jiffies clock =
    handle_packets p codec r packets jiffies clock >>= λ (r', adjust).
    some (if adjust then record r' { down = adjust_layer r'.down clock } else r')
