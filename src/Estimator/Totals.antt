-- ===== src/Estimator/Totals.antt =====
-- estimator/estimator.go: the totals against the intervals, and the rounding of a rate.
use galene.Base.{true, false, ℕ, ◌+◌, ◌-◌, ◌*◌, ◌/◌, ◌^◌, ◌≤◌, ◌<◌, ◌≡◌, arith, leb, ltb}
use native.Mathlib.Nat.{div-add-mod, div-lt_iff_lt-mul, mod-lt}
use galene.Base.Word.{u32, u64, sub64}
use galene.Estimator.{Estimator, jiffies_per_sec, rate_of, accumulate, estimate, totals}

-- The counters of the interval are uint32, the totals uint64.
pub record IsWords (e : Estimator) : Type 0 where
  pub bytes_word : e.bytes < 2 ^ 32
  pub packets_word : e.packets < 2 ^ 32
  pub total_bytes_word : e.total_bytes < 2 ^ 64
  pub total_packets_word : e.total_packets < 2 ^ 64

-- Counting a packet keeps the counters in range, and adds it to the totals while the counters of
-- the interval have room for it.
totals-accumulate :
    (e : Estimator) (bytes : ℕ)
    → IsWords e
    → e.bytes + bytes + 1 < 2 ^ 32
    → e.packets + 2 < 2 ^ 32
    → IsWords (accumulate e bytes)
      × (totals (accumulate e bytes) ≡ (u64 ((totals e).0 + 1), u64 ((totals e).1 + bytes)))
unfolding accumulate totals
totals-accumulate e bytes w hb hp = ground arith

-- An estimate at a time that has not gone backwards changes no total: what the new interval no
-- longer counts has been added to them.
totals-estimate :
    (e : Estimator) (now : ℕ)
    → IsWords e
    → e.time ≤ now
    → IsWords (estimate e now) × (totals (estimate e now) ≡ totals e)
unfolding estimate totals
totals-estimate e now w h = ground arith

-- A quotient to the nearest integer.
rounded :
    (x j : ℕ)
    → 0 < j
    → let q = (x + j / 2) / j in (2 * (q * j) ≤ 2 * x + j) × (2 * x < 2 * (q * j) + j + 2)
rounded x j h =
    let parts = div-add-mod (x + j / 2) j in
    let small = mod-lt (x + j / 2) h in omega (arith, parts, small)

rate_of-eq-div :
    (count j : ℕ)
    → count < 2 ^ 32
    → j < 2 ^ 62
    → jiffies_per_sec / 1000 ≤ j
    → count * jiffies_per_sec < (2 ^ 32 - 1) * j
    → rate_of count j ≡ (count * jiffies_per_sec + j / 2) / j
rate_of-eq-div count j hc hj long fits =
    let x = count * jiffies_per_sec in
    let enough : leb (jiffies_per_sec / 1000) j ≡ true = ground arith in
    let product : u64 x ≡ x = omega arith in
    let sum : u64 (x + j / 2) ≡ x + j / 2 = omega arith in
    let quotient : u32 ((x + j / 2) / j) ≡ (x + j / 2) / j = omega (
      arith,
      (div-lt_iff_lt-mul {k = j} {x = x + j / 2} {y = 2 ^ 32} (omega arith)).1 (omega arith),
    ) in
    rw (enough, product, sum) quotient

-- Once an interval has ended, the rate is the number of bytes per second to the nearest integer,
-- if that fits a uint32: times the length of the interval it is within half of that of the bytes.
rate-estimate :
    (e : Estimator) (now : ℕ)
    → IsWords e
    → now < 2 ^ 62
    → e.time + e.interval ≤ now
    → e.time + jiffies_per_sec / 1000 ≤ now
    → e.bytes * jiffies_per_sec < (2 ^ 32 - 1) * (now - e.time)
    → let j = now - e.time in
      let r = (estimate e now).rate in
      (2 * (r * j) ≤ 2 * (e.bytes * jiffies_per_sec) + j)
      × (2 * (e.bytes * jiffies_per_sec) < 2 * (r * j) + j + 2)
unfolding estimate
rate-estimate e now w small ended long fits =
    let j = now - e.time in
    let forward : ltb now e.time ≡ false = ground arith in
    let over : leb e.interval (now - e.time) ≡ true = ground arith in
    let jiffies : sub64 now e.time ≡ now - e.time = omega arith in
    rw
      (
        forward,
        over,
        jiffies,
        rate_of-eq-div e.bytes j w.bytes_word (omega arith) (omega arith) fits,
      )
      (rounded (e.bytes * jiffies_per_sec) j (omega arith))
