-- ===== src/Jitter.antt =====
-- jitter/jitter.go: the interarrival jitter of RFC 3550. The clock is outside the model: `accumulate`
-- takes the time that `Accumulate` reads from it.
pub mod Bounds
use galene.Base.{ℕ, ◌+◌, ◌-◌, ◌*◌, ◌/◌, ◌^◌, Bool, ◌==◌, if◌then◌else◌}
use galene.Base.Word.{u32, sub32, has_bit}

pub record Estimator : Type 0 where
  pub hz : ℕ
  pub timestamp : ℕ
  pub time : ℕ
  pub jitter : ℕ

pub new : ℕ → Estimator
new hz = record { hz = hz; timestamp = 0; time = 0; jitter = 0 }

-- The difference in transit time as an int32, and its absolute value: `uint32(-int32(d))` is the
-- complement to 2^32.
abbrev pub deviation : ℕ → ℕ → ℕ → ℕ → ℕ
deviation time now timestamp0 timestamp =
    let d = sub32 (sub32 time now) (sub32 timestamp0 timestamp) in
    if has_bit d 31 then sub32 0 d else d

pub accumulate : Estimator → ℕ → ℕ → Estimator
accumulate e timestamp now =
    let timestamp0 = if e.time == 0 then timestamp else e.timestamp in
    let time = if e.time == 0 then now else e.time in
    record e {
      jitter = u32 (e.jitter * 15 + deviation time now timestamp0 timestamp) / 16;
      timestamp = timestamp;
      time = now;
    }
