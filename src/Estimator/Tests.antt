-- ===== src/Estimator/Tests.antt =====
-- A run of estimator/estimator.go, and an estimator whose counters are words.
use galene.Base.{◌+◌, ◌*◌, ◌≡◌, arith, refl}
use galene.Estimator.{Estimator, jiffies_per_sec, estimate}
use galene.Estimator.Totals.{IsWords}

abbrev sample : Estimator
sample = record {
  interval = 1000;
  time = 5;
  bytes = 1500;
  packets = 2;
  total_bytes = 100;
  total_packets = 1;
  rate = 0;
  packet_rate = 0;
}

sample-IsWords : IsWords sample
sample-IsWords = ground arith

-- 1500 bytes in two seconds.
two_seconds : (estimate sample (5 + 2 * jiffies_per_sec)).rate ≡ 750
unfolding estimate
two_seconds = refl
