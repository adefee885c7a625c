-- ===== src/Feedback/Rates.antt =====
-- The rate at which a track may be sent, and the round-trip time, after any feedback.
use galene.Base.{
  ltb→lt, Bool-cases, ℕ, ◌+◌, ◌-◌, ◌*◌, ◌^◌, ◌≤◌, ◌<◌, ◌≡◌, refl, ap, inl, inr, ◌||◌, ◌⊎◌, leb, ◌/◌,
  arith, ltb,
}
use galene.Base.Word.{u64}
use galene.Estimator.{jiffies_per_sec, estimate}
use galene.DownTrack.{DownTrack, get_bitrate}
use galene.Feedback.{last_rate, raised, lowered, update_rate}

-- The rate before a report: the last one, if it is at most 30 seconds old and in the range.
pub data Before (t : DownTrack) (now : ℕ) : ℕ → Type 0 where
  recent :
      t.max_bitrate.jiffies ≤ now
      → now ≤ t.max_bitrate.jiffies + 30 * jiffies_per_sec
      → 9600 ≤ t.max_bitrate.bitrate
      → t.max_bitrate.bitrate ≤ 2 ^ 30
      → Before t now t.max_bitrate.bitrate
  stale :
      ((now < t.max_bitrate.jiffies)
        ⊎ ((t.max_bitrate.jiffies + 30 * jiffies_per_sec < now)
            ⊎ ((t.max_bitrate.bitrate < 9600) ⊎ (2 ^ 30 < t.max_bitrate.bitrate))))
      → Before t now 512000

Before-bounds : (t : DownTrack) (now rate : ℕ) → Before t now rate → (9600 ≤ rate) × (rate ≤ 2 ^ 30)
Before-bounds t now rate (recent a b c d) = (c, d)
Before-bounds t now rate (stale h) = omega arith

last_rate-Before : (t : DownTrack) (now : ℕ) → Before t now (last_rate t now)
unfolding get_bitrate
last_rate-Before t now =
    let old = ltb now t.max_bitrate.jiffies || ltb 737280000 (now - t.max_bitrate.jiffies) in
    let rate = t.max_bitrate.bitrate in
    elim (Bool-cases old) [
      | inl e ↦ rw e (stale (ground arith))
      | inr e ↦ elim (Bool-cases (ltb rate 9600 || ltb (2 ^ 30) rate)) [
        | inl f ↦ rw (e, f) (stale (ground arith))
        | inr f ↦ rw (e, f) (recent (ground arith) (ground arith) (ground arith) (ground arith))
      ]
    ]

-- How a loss, in 256ths, changes a rate: it grows by 13 in 256 if the loss is below 5 and the actual
-- rate is at least 3 quarters of it, and shrinks by half of the loss if this is above 25, both
-- rounded down and kept in the range.
pub data Changes (loss rate actual : ℕ) : ℕ → Type 0 where
  gains :
      (r : ℕ)
      → loss < 5
      → 3 * rate < 4 * (actual + 1)
      → 256 * r ≤ 269 * rate
      → (r ≡ 2 ^ 30) ⊎ (269 * rate < 256 * (r + 1))
      → Changes loss rate actual r
  idles : loss < 5 → 4 * (actual + 1) ≤ 3 * rate → Changes loss rate actual rate
  keeps : 5 ≤ loss → loss ≤ 25 → Changes loss rate actual rate
  loses :
      (r : ℕ)
      → 25 < loss
      → r ≤ rate
      → rate * (512 - loss) < 512 * (r + 1)
      → (r ≡ 9600) ⊎ (512 * r ≤ rate * (512 - loss))
      → Changes loss rate actual r

raised-Changes :
    (loss rate actual : ℕ)
    → loss < 5
    → rate ≤ 2 ^ 30
    → (rate ≤ raised rate actual)
      × (raised rate actual ≤ 2 ^ 30)
      × Changes loss rate actual (raised rate actual)
raised-Changes loss rate actual l h = elim (Bool-cases (leb (u64 (rate * 3) / 4) actual)) [
  | inl e ↦ rw e (omega arith, omega arith, gains _ l (ground arith) (omega arith) (ground arith))
  | inr e ↦ rw e (omega arith, h, idles l (ground arith))
]

scaled-le : (rate k d : ℕ) → k + d ≡ 512 → rate * k ≤ rate * 512
scaled-le rate k d e = let whole : rate * (k + d) ≡ rate * 512 = ap (λ x. rate * x) e in omega arith

lowered-Changes :
    (loss rate actual : ℕ)
    → 25 < loss
    → 9600 ≤ rate
    → rate ≤ 2 ^ 30
    → (9600 ≤ lowered rate loss)
      × (lowered rate loss ≤ 2 ^ 30)
      × Changes loss rate actual (lowered rate loss)
lowered-Changes loss rate actual k l h =
    let product = scaled-le rate (512 - loss) (512 - (512 - loss)) (omega arith) in
    (omega arith, omega arith, loses _ k (omega arith) (omega arith) (ground arith))

-- After a report the rate lies between 9600 bits per second and 2^30, and its time is that of the
-- report. Where the loss is below 5 in 256, and the rate at which the track was sent is at least 3
-- quarters of the rate before, the rate grows by 13 in 256, up to 2^30, and where it is less it
-- stays; where the loss is above 25 the rate shrinks by half of the loss, down to 9600; and for a
-- loss between these it stays. The rate before is the last one, or 512000 if that is out of the
-- range or older than 30 seconds.
pub update_rate-Changes :
    (t : DownTrack) (loss now clock : ℕ)
    → let b = (update_rate t loss now clock).max_bitrate in
      (b.jiffies ≡ now)
      × (9600 ≤ b.bitrate)
      × (b.bitrate ≤ 2 ^ 30)
      × ((rate : ℕ) × Before t now rate
          × Changes loss rate (u64 (8 * (estimate t.rate clock).rate)) b.bitrate)
unfolding update_rate
update_rate-Changes t loss now clock =
    let rate = last_rate t now in
    let before = last_rate-Before t now in
    let (low, high) = Before-bounds t now rate before in
    let actual = u64 (8 * (estimate t.rate clock).rate) in
    elim (Bool-cases (ltb loss 5)) [
      | inl q ↦
          let (up, top, change) = raised-Changes loss rate actual (ltb→lt loss 5 q) high in
          rw (q, update_rate) (refl, omega arith, top, (rate, before, change))
      | inr q ↦ elim (Bool-cases (ltb 25 loss)) [
        | inl z ↦
            let (bottom, top, change) =
              lowered-Changes loss rate actual (ltb→lt 25 loss z) low high in
            rw (q, z, update_rate) (refl, bottom, top, (rate, before, change))
        | inr z ↦
            rw (q, z, update_rate)
              (refl, low, high, (rate, before, keeps (ground arith) (ground arith)))
      ]
    ]
