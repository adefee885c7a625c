-- ===== src/Estimator.antt =====
-- estimator/estimator.go: byte and packet rates over intervals. The clock `rtptime.Now` is outside
-- the model: each call takes the time that it reads, in jiffies, as an argument.
pub mod Totals
mod Tests
use galene.Base.{ℕ, ◌+◌, ◌-◌, ◌*◌, ◌/◌, ◌^◌, Bool, ltb, leb, if◌then◌else◌}
use galene.Base.Word.{u32, u64, sub64}

-- `rtptime.JiffiesPerSec`
abbrev pub jiffies_per_sec : ℕ
jiffies_per_sec = 24576000

pub record Estimator : Type 0 where
  pub interval : ℕ
  pub time : ℕ
  pub bytes : ℕ
  pub packets : ℕ
  pub total_bytes : ℕ
  pub total_packets : ℕ
  pub rate : ℕ
  pub packet_rate : ℕ

-- `new`, with the interval in jiffies
pub new : ℕ → ℕ → Estimator
new now interval = record {
  interval = interval;
  time = now;
  bytes = 0;
  packets = 0;
  total_bytes = 0;
  total_packets = 0;
  rate = 0;
  packet_rate = 0;
}

-- A count over an interval, per second, to the nearest integer; 0 if the interval is too short.
abbrev pub rate_of : ℕ → ℕ → ℕ
rate_of count jiffies =
    if leb (jiffies_per_sec / 1000) jiffies
    then u32 (u64 (u64 (count * jiffies_per_sec) + jiffies / 2) / jiffies)
    else 0

pub swap : Estimator → ℕ → Estimator
swap e now =
    let jiffies = sub64 now e.time in
    record e {
      bytes = 0;
      packets = 0;
      total_bytes = u64 (e.total_bytes + e.bytes);
      total_packets = u64 (e.total_packets + e.packets);
      rate = rate_of e.bytes jiffies;
      packet_rate = rate_of e.packets jiffies;
      time = now;
    }

-- `Accumulate`: a counter that would overflow stays as it is.
pub accumulate : Estimator → ℕ → Estimator
accumulate e bytes = record e {
  bytes = if ltb e.bytes (2 ^ 32 - 1 - bytes) then u32 (e.bytes + bytes) else e.bytes;
  packets = if ltb e.packets (2 ^ 32 - 1 - 1) then u32 (e.packets + 1) else e.packets;
}

-- `estimate`: the state afterwards has the two rates that it returns.
pub estimate : Estimator → ℕ → Estimator
unfolding swap
estimate e now =
    if ltb now e.time
    then (if ltb e.interval (e.time - now)
        then record e { time = now; packets = 0; bytes = 0 }
        else e)
    else if leb e.interval (now - e.time)
    then swap e now
    else e

-- `Totals`: packets, then bytes
pub totals : Estimator → ℕ × ℕ
totals e = (u64 (e.total_packets + e.packets), u64 (e.total_bytes + e.bytes))
