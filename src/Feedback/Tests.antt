-- ===== src/Feedback/Tests.antt =====
-- The theorems about feedback at concrete receivers.
use galene.Base.{ℕ, ◌*◌, ◌^◌, ◌≤◌, ◌≡◌, refl, true, false, none, [], ◌∷◌, arith, Returns, Unless}
use galene.Base.Word.{u64}
use galene.Estimator.{estimate}
use galene.PacketMap
use galene.Codecs.Flags.{Parsers, vp8}
use galene.DownTrack.{get_bitrate, DownTrack, get_max_bitrate}
use galene.Feedback.{
  handle_report, update_rtt, Receiver, Report, picture_loss, receiver_report, handle_packets,
  update_rate, listen,
}
use galene.Feedback.Rates.{Before, Changes, update_rate-Changes}
use galene.Feedback.Limits.{IsBounded, has_nack, listen-IsBounded}
use galene.Feedback.Keyframes.{requests_for, handle_packets-requests}

abbrev down : DownTrack
down = record {
  layer_info = 0;
  packetmap = PacketMap.empty;
  max_bitrate = record { bitrate = 100000; jiffies = 4 };
  max_remb_bitrate = record { bitrate = 0; jiffies = 4 };
  rate = record {
    interval = 10;
    time = 3;
    bytes = 0;
    packets = 0;
    total_bytes = 0;
    total_packets = 0;
    rate = 0;
    packet_rate = 0;
  };
  requests = 0;
}

abbrev receiver : Receiver
receiver = record {
  down = down;
  remote = record {
    cache = record {
      last = 0;
      cycle = 0;
      last_valid = false;
      expected = 0;
      total_expected = 0;
      received = 0;
      total_received = 0;
      keyframe = 0;
      keyframe_valid = false;
      bitmap = record { valid = false; first = 0; bitmap = 0 };
      tail = 0;
      entries = [];
    };
    buffered_nacks = [];
    supports_nack = true;
    writers = 0;
    sent = [];
  };
  ssrc = 77;
  stats = record { loss = 0; jitter = 0; jiffies = 0 };
  rtt = 0;
  sr_time = 1000;
  sr_ntp = 5 * 2 ^ 16;
}

abbrev parsers : Parsers
parsers = record { rtp = λ buf. none; parse_vp8 = λ payload. none; parse_vp9 = λ payload. none }

-- A loss of one packet in two.
abbrev report : Report
report = record { ssrc = 77; fraction_lost = 128; jitter = 3; last_sender_report = 5; delay = 1 }

lowered_rate : (update_rate down 128 10 10).max_bitrate.bitrate ≡ 75000
unfolding update_rate get_bitrate
lowered_rate = refl

-- The report answers the sender report of the time 1000.
round_trip : (handle_report receiver report 10 2000).rtt ≡ 625
unfolding handle_report update_rtt
round_trip = refl

update_rate-Changes_example :
    let b = (update_rate down 128 10 10).max_bitrate in
    (b.jiffies ≡ 10)
    × (9600 ≤ b.bitrate)
    × (b.bitrate ≤ 2 ^ 30)
    × ((rate : ℕ) × Before down 10 rate
        × Changes 128 rate (u64 (8 * (estimate down.rate 10).rate)) b.bitrate)
update_rate-Changes_example = update_rate-Changes down 128 10 10

listen-IsBounded_example :
    Unless
      (has_nack (receiver_report (report ∷ []) ∷ picture_loss ∷ []))
      (λ r'. IsBounded r' × (get_max_bitrate r'.down 3000 ≤ 2 ^ 30))
      (listen parsers vp8 receiver (receiver_report (report ∷ []) ∷ picture_loss ∷ []) 10 2000)
listen-IsBounded_example =
    listen-IsBounded parsers vp8 receiver (receiver_report (report ∷ []) ∷ picture_loss ∷ []) 10
      2000 3000 (omega arith, omega arith)

-- A request, its repetition, and a request with the number 0.
handle_packets-requests_example :
    Returns
      (λ x. x.0.down.requests ≡ 2)
      (handle_packets parsers vp8 receiver (requests_for 77 (7 ∷ 7 ∷ 0 ∷ [])) 10 2000)
handle_packets-requests_example =
    handle_packets-requests parsers vp8 receiver (7 ∷ 7 ∷ 0 ∷ []) 10 2000
