-- ===== src/Jitter/Bounds.antt =====
-- jitter/jitter.go: the estimate is a weighted mean that stays in the range of what it has seen.
use galene.Base.{◌==◌, false, ℕ, ◌+◌, ◌*◌, ◌^◌, ◌≤◌, ◌<◌, ◌≡◌, ◌≢◌, arith}
use galene.Base.Word.{u32, sub32}
use galene.Jitter.{Estimator, deviation, accumulate}

-- The deviation is symmetric: a packet that is `k` late and one that is `k` early count the same.
deviation_lem :
    (time now timestamp0 timestamp k : ℕ)
    → time < 2 ^ 32
    → now < 2 ^ 32
    → timestamp0 < 2 ^ 32
    → timestamp < 2 ^ 32
    → k < 2 ^ 31
    → sub32 now time ≡ u32 (sub32 timestamp timestamp0 + k)
    → (deviation time now timestamp0 timestamp ≡ k) × (deviation timestamp0 timestamp time now ≡ k)
deviation_lem time now timestamp0 timestamp k ht hn hs hs' hk e = ground arith

-- Jitter that stays below a bound of 2^28 stays below it, after a sample that is within the bound
-- too; and the estimate moves by at most a sixteenth of the difference, rounded down.
accumulate_bounds :
    (e : Estimator) (timestamp now b : ℕ)
    → e.time ≢ 0
    → b < 2 ^ 28
    → e.jitter ≤ b
    → deviation e.time now e.timestamp timestamp ≤ b
    → let j = (accumulate e timestamp now).jitter in
      let d = deviation e.time now e.timestamp timestamp in
      (j ≤ b) × (16 * j ≤ e.jitter * 15 + d) × (e.jitter * 15 + d < 16 * j + 16)
unfolding accumulate
accumulate_bounds e timestamp now b started small hj hd =
    let running : (e.time == 0) ≡ false = ground arith in rw running (omega arith)
