-- ===== src/Feedback/Limits.antt =====
-- What holds of a receiver after any feedback, requests to send packets again included.
use mathlib.Core.Path.{subst}
use galene.Base.{
  Unless, Unless-map, Unless->>=, Unless-Every, ℕ, ◌+◌, ◌*◌, ◌/◌, ◌^◌, ◌≤◌, ◌≡◌, refl, sym, Bool,
  true, false, not, ◌||◌, Option, none, some, List, [], ◌∷◌, arith, ltb, ◌==◌, if◌then◌else◌, Every,
  Every->>=, Every-branch, Every-some, take, replicate,
}
use galene.Base.Word.{sub64, shr, u32, u64}
use galene.Estimator.{jiffies_per_sec}
use galene.PacketMap
use galene.Codecs.Flags.{Codec, Parsers}
use galene.DownTrack
use galene.DownTrack.{DownTrack, get_bitrate, get_max_bitrate, adjust_layer}
use galene.DownTrack.Kept.{write-SameRate, max_bitrate-adjust_layer}
use galene.UpTrack.{get_packet}
use galene.Feedback.{
  buf_size, Receiver, Report, Packet, picture_loss, full_intra, max_bitrate, receiver_report,
  sender_report, nack, other, update_rtt, smoothed, handle_report, handle_reports, find_entry,
  full_intra_asked, nack_one, nack_range, nack_all, got_nack, handle_packet, handle_packets, listen,
}
use galene.Feedback.Rates.{update_rate-Changes}

-- The round-trip time is 8 seconds at most, and the rate of the reports 2^30 bits per second.
abbrev pub IsBounded : Receiver → Type 0
IsBounded r = (r.rtt ≤ 196608000) × (r.down.max_bitrate.bitrate ≤ 2 ^ 30)

smoothed-le : (old rtt : ℕ) → old ≤ 196608000 → rtt ≤ 196608000 → smoothed old rtt ≤ 196608000
smoothed-le old rtt h k = ground arith

IsBounded-if :
    (b : Bool) (x y : Receiver)
    → (b ≡ true → IsBounded x)
    → (b ≡ false → IsBounded y)
    → IsBounded (if b then x else y)
IsBounded-if true x y h k = h refl
IsBounded-if false x y h k = k refl

-- The guards keep the difference from wrapping around.
elapsed :
    (since delay : ℕ)
    → ltb 196608000 since ≡ false
    → ltb since delay ≡ false
    → sub64 since delay ≤ 196608000
elapsed since delay h k = ground arith

second_false : (a b : Bool) → (a || b) ≡ false → b ≡ false
second_false true b h = cc
second_false false b h = h

update_rtt-IsBounded :
    (r : Receiver) (report : Report) (clock : ℕ)
    → IsBounded r
    → IsBounded (update_rtt r report clock)
unfolding update_rtt
update_rtt-IsBounded r report clock (t, b) =
    let since = sub64 clock r.sr_time in
    let delay = u64 (report.delay * (jiffies_per_sec / 2 ^ 16)) in
    let rtt = sub64 since delay in
    IsBounded-if (ltb clock r.sr_time || ltb (8 * jiffies_per_sec) since) r _ (λ _. (t, b))
      (λ recent.
        let short = second_false (ltb clock r.sr_time) (ltb (8 * jiffies_per_sec) since) recent in
        IsBounded-if (not (report.last_sender_report == u32 (shr r.sr_ntp 16))) r _ (λ _. (t, b))
          (λ _.
            IsBounded-if (ltb since delay) r (record r { rtt = smoothed r.rtt rtt }) (λ _. (t, b))
              (λ late. (smoothed-le r.rtt rtt t (elapsed since delay short late), b))))

handle_report-IsBounded :
    (r : Receiver) (report : Report) (jiffies clock : ℕ)
    → IsBounded r
    → IsBounded (handle_report r report jiffies clock)
unfolding handle_report
handle_report-IsBounded r report jiffies clock (t, b) =
    let changed = update_rate-Changes r.down report.fraction_lost jiffies clock in
    IsBounded-if (report.last_sender_report == 0) _ _ (λ _. (t, changed.2))
      (λ _. update_rtt-IsBounded _ report clock (t, changed.2))

handle_reports-IsBounded :
    (r : Receiver) (reports : List Report) (jiffies clock : ℕ)
    → IsBounded r
    → IsBounded (handle_reports r reports jiffies clock).0
unfolding handle_reports
handle_reports-IsBounded r [] jiffies clock h = h
handle_reports-IsBounded r (report ∷ reports) jiffies clock h =
    let mine = report.ssrc == r.ssrc in
    let r' = if mine then handle_report r report jiffies clock else r in
    handle_reports-IsBounded r' reports jiffies clock (
      IsBounded-if mine (handle_report r report jiffies clock) r
        (λ _. handle_report-IsBounded r report jiffies clock h) (λ _. h))

nack_one-IsBounded :
    (p : Parsers) (codec : Codec) (r : Receiver) (buf : List ℕ) (s clock : ℕ)
    → IsBounded r
    → Every (λ x. IsBounded x.0) (nack_one p codec r buf s clock)
unfolding nack_one
nack_one-IsBounded p codec r buf s clock (t, b) =
    Every->>= _ (PacketMap.reverse r.down.packetmap s) _ (λ (ok, seqno, pid) _.
      Every-branch _ (not ok) _ _ (λ _. (t, b))
        (λ _. Every->>= _ (get_packet r.remote seqno buf true) _ (λ (remote, out, l) _.
          Every-branch _ (l == 0) _ _ (λ _. (t, b))
            (λ _.
              Every->>= _ (DownTrack.write p codec r.down (take l out) clock) _
                (λ (down, outcome) e. (
                  t,
                  let kept =
                        Every-some
                          (λ (x : DownTrack × DownTrack.Outcome).
                            x.0.max_bitrate ≡ r.down.max_bitrate)
                          (DownTrack.write p codec r.down (take l out) clock) (down, outcome) e
                          (write-SameRate p codec r.down (take l out) clock) in
                      subst (λ (m : DownTrack.Bitrate). m.bitrate ≤ 2 ^ 30) (sym kept) b,
                ))))))

nack_range-IsBounded :
    (p : Parsers) (codec : Codec) (r : Receiver) (buf ss : List ℕ) (clock : ℕ)
    → IsBounded r
    → Every (λ x. IsBounded x.0) (nack_range p codec r buf ss clock)
unfolding nack_range
nack_range-IsBounded p codec r buf [] clock h = h
nack_range-IsBounded p codec r buf (s ∷ ss) clock h =
    Every->>= _ (nack_one p codec r buf s clock) _ (λ (r', out, more) e.
      let h' =
        Every-some (λ (x : Receiver × List ℕ × Bool). IsBounded x.0)
          (nack_one p codec r buf s clock) (r', out, more) e
          (nack_one-IsBounded p codec r buf s clock h) in
      Every-branch _ more _ _ (λ _. nack_range-IsBounded p codec r' out ss clock h') (λ _. h'))

nack_all-IsBounded :
    (p : Parsers) (codec : Codec) (r : Receiver) (buf : List ℕ) (pairs : List (List ℕ)) (clock : ℕ)
    → IsBounded r
    → Every (λ x. IsBounded x.0) (nack_all p codec r buf pairs clock)
unfolding nack_all
nack_all-IsBounded p codec r buf [] clock h = h
nack_all-IsBounded p codec r buf (ss ∷ pairs) clock h =
    Every->>= _ (nack_range p codec r buf ss clock) _ (λ (r', out) e.
      let h' =
        Every-some (λ (x : Receiver × List ℕ). IsBounded x.0) (nack_range p codec r buf ss clock)
          (r', out) e (nack_range-IsBounded p codec r buf ss clock h) in
      nack_all-IsBounded p codec r' out pairs clock h')

full_intra-IsBounded :
    (r : Receiver) (number : Option ℕ) → IsBounded r → IsBounded (full_intra_asked r number)
full_intra-IsBounded r none h = h
full_intra-IsBounded r (some n) h =
    let asked = record r { down = record r.down { requests = r.down.requests + 1 } } in
    IsBounded-if (n == 0) r asked (λ _. h) (λ _. h)

got_nack-IsBounded :
    (p : Parsers) (codec : Codec) (r : Receiver) (pairs : List (List ℕ)) (clock : ℕ)
    → IsBounded r
    → Every IsBounded (got_nack p codec r pairs clock)
unfolding got_nack
got_nack-IsBounded p codec r pairs clock h =
    let buf = replicate buf_size 0 in
    Every->>= _ (nack_all p codec r buf pairs clock) _ (λ (r', out) e.
      Every-some (λ (x : Receiver × List ℕ). IsBounded x.0) (nack_all p codec r buf pairs clock)
        (r', out) e (nack_all-IsBounded p codec r buf pairs clock h))

abbrev pub is_nack : Packet → Bool
is_nack picture_loss = false
is_nack (full_intra entries) = false
is_nack (max_bitrate rate) = false
is_nack (receiver_report reports) = false
is_nack (sender_report reports) = false
is_nack (nack pairs) = true
is_nack other = false

abbrev pub has_nack : List Packet → Bool
has_nack [] = false
has_nack (x ∷ xs) = is_nack x || has_nack xs

abbrev BoundedFirst : Receiver × Bool → Type 0
BoundedFirst x = IsBounded x.0

handle_packet-IsBounded :
    (p : Parsers) (codec : Codec) (r : Receiver) (x : Packet) (jiffies clock : ℕ)
    → IsBounded r
    → Unless (is_nack x) BoundedFirst (handle_packet p codec r x jiffies clock)
unfolding handle_packet
handle_packet-IsBounded p codec r picture_loss jiffies clock h = h
handle_packet-IsBounded p codec r (full_intra entries) jiffies clock h =
    full_intra-IsBounded r (find_entry entries r.ssrc) h
handle_packet-IsBounded p codec r (max_bitrate rate) jiffies clock h = h
handle_packet-IsBounded p codec r (receiver_report reports) jiffies clock h =
    handle_reports-IsBounded r reports jiffies clock h
handle_packet-IsBounded p codec r (sender_report reports) jiffies clock h =
    handle_reports-IsBounded r reports jiffies clock h
handle_packet-IsBounded p codec r (nack pairs) jiffies clock h =
    Unless-map true IsBounded BoundedFirst (got_nack p codec r pairs clock) (λ r'. (r', false))
      (Unless-Every IsBounded (got_nack p codec r pairs clock)
        (got_nack-IsBounded p codec r pairs clock h))
      (λ r' h'. h')
handle_packet-IsBounded p codec r other jiffies clock h = h

handle_packets-IsBounded :
    (p : Parsers) (codec : Codec) (r : Receiver) (xs : List Packet) (jiffies clock : ℕ)
    → IsBounded r
    → Unless (has_nack xs) BoundedFirst (handle_packets p codec r xs jiffies clock)
unfolding handle_packets
handle_packets-IsBounded p codec r [] jiffies clock h = h
handle_packets-IsBounded p codec r (x ∷ xs) jiffies clock h =
    Unless->>= (is_nack x) (has_nack xs) BoundedFirst BoundedFirst
      (handle_packet p codec r x jiffies clock) _
      (handle_packet-IsBounded p codec r x jiffies clock h)
      (λ (r', a) h'.
        Unless-map (has_nack xs) BoundedFirst BoundedFirst
          (handle_packets p codec r' xs jiffies clock) (λ (y : Receiver × Bool). (y.0, a || y.1))
          (handle_packets-IsBounded p codec r' xs jiffies clock h') (λ y h''. h''))

get_max_bitrate-le :
    (t : DownTrack) (now : ℕ) → t.max_bitrate.bitrate ≤ 2 ^ 30 → get_max_bitrate t now ≤ 2 ^ 30
unfolding get_max_bitrate get_bitrate
get_max_bitrate-le t now h = ground arith

-- A round of `rtcpDownListener` returns, unless there is a NACK among the packets. If it returns,
-- then whatever the packets, the round-trip time stays at most 8 seconds, if it was, and the rate of
-- the reports at most 2^30 bits per second; and then `GetMaxBitrate`, at any time, gives no more
-- than this.
pub listen-IsBounded :
    (p : Parsers) (codec : Codec) (r : Receiver) (packets : List Packet) (jiffies clock now : ℕ)
    → IsBounded r
    → Unless
        (has_nack packets)
        (λ r'. IsBounded r' × (get_max_bitrate r'.down now ≤ 2 ^ 30))
        (listen p codec r packets jiffies clock)
unfolding listen
listen-IsBounded p codec r packets jiffies clock now h =
    Unless-map (has_nack packets) BoundedFirst _ (handle_packets p codec r packets jiffies clock) _
      (handle_packets-IsBounded p codec r packets jiffies clock h)
      (λ (r', adjust) h'.
        let adjusted = record r' { down = adjust_layer r'.down clock } in
        let h'' : IsBounded (if adjust then adjusted else r') =
          IsBounded-if adjust adjusted r'
            (λ _. (
              h'.0,
              subst (λ (m : DownTrack.Bitrate). m.bitrate ≤ 2 ^ 30)
                  (sym (max_bitrate-adjust_layer r'.down clock)) h'.1,
            ))
            (λ _. h') in
        (h'', get_max_bitrate-le _ now h''.1))
