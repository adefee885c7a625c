-- ===== src/PacketMap/LongRun.antt =====
-- packetmap/packetmap.go: an entry whose run of packets is longer than half the sequence space.
use galene.Base.{
  Returns->>=, Returns, ℕ, zero, suc, ◌+◌, ◌^◌, ◌*◌, ◌<◌, ◌≡◌, true, some, List, [], ◌∷◌, arith,
  replicate, ◌∙◌, ap,
}
use galene.Base.Word.{u16, sub16}
use galene.Seqno.{compare16}
use galene.PacketMap.{Entry, Map, refused, map, drop, reverse, add_mapping}
use galene.PacketMap.InOrder.{next_target, sent, run}

-- A map that has renumbered nothing so far.
abbrev pub plain : ℕ → ℕ → Map
plain s next_pid = record {
  next = s;
  next_pid = next_pid;
  delta = 0;
  pid_delta = 0;
  last_entry = 0;
  entries = [];
}

abbrev before_drop : ℕ → Entry
before_drop s = record { first = sub16 s 8192; count = 8192; delta = 0; pid_delta = 0 }

abbrev run_entry : ℕ → ℕ → ℕ → Entry
run_entry s n pd = record { first = u16 (s + 1); count = n; delta = 65535; pid_delta = pd }

-- The map after the packet `s` is dropped and the next `n` packets are sent.
abbrev after_run : ℕ → ℕ → ℕ → ℕ → Map
after_run s pid pd n = record {
  next = u16 (s + n + 1);
  next_pid = pid;
  delta = 65535;
  pid_delta = pd;
  last_entry = 1;
  entries = before_drop s ∷ run_entry s n pd ∷ [];
}

module _ (s pid pd : ℕ) (hs : s < 2 ^ 16) (hp : pid < 2 ^ 16) (hpd : pd < 2 ^ 16) where
  map-after_run :
      (n : ℕ)
      → 0 < n
      → n + 1 < 2 ^ 16
      → map (after_run s pid pd n) (u16 (s + n + 1)) pid
        ≡ some (after_run s pid pd (suc n), (true, u16 (s + n), pd))
  unfolding map compare16 add_mapping
  map-after_run n h0 h = ground arith

  reverse-after_run :
      (n : ℕ)
      → 2 ^ 15 + 1 < n
      → n < 7 * 2 ^ 13
      → reverse (after_run s pid pd n) (sub16 (u16 (s + n)) 1) ≡ some refused
  unfolding reverse compare16
  reverse-after_run n h0 h = ground arith

  -- The run from the packet `n` on to the packet `t`.
  run-after_run :
      (k n t : ℕ)
      → 0 < n
      → n + k ≡ t
      → t < 2 ^ 16
      → Returns
          (λ (x : Map × List ℕ). x.0 ≡ after_run s pid pd t)
          (run (after_run s pid pd n) (replicate k (sent pid)))
  unfolding run
  run-after_run zero n t h0 e h = ap (after_run s pid pd) (omega arith)
  run-after_run (suc k) n t h0 e h = rw (map-after_run n h0 (omega arith)) (
      Returns->>= (λ (x : Map × List ℕ). x.0 ≡ after_run s pid pd t) _
        (run (after_run s pid pd (suc n)) (replicate k (sent pid))) _
        (run-after_run k (suc n) t (omega arith) (omega arith) h) (λ x h. h))

first_sent :
    (s next_pid pid : ℕ)
    → s < 2 ^ 16
    → next_pid < 2 ^ 16
    → pid < 2 ^ 16
    → map (drop (plain s next_pid) s pid).0 (drop (plain s next_pid) s pid).0.next pid
      ≡ some (after_run s pid (sub16 pid next_pid) 1, (true, s, sub16 pid next_pid))
unfolding map drop add_mapping compare16
first_sent s next_pid pid hs hn hp = ground arith

-- Once a packet `s` is dropped and more than 2^15 + 1 packets (and fewer than 7 * 2^13) are sent
-- after it with none dropped, `Reverse` refuses the number of the packet that was sent last: a
-- receiver that reports it lost is not served.
pub reverse-run :
    (s next_pid pid n : ℕ)
    → s < 2 ^ 16
    → next_pid < 2 ^ 16
    → pid < 2 ^ 16
    → 2 ^ 15 + 1 < n
    → n < 7 * 2 ^ 13
    → Returns
        (λ (x : Map × List ℕ). reverse x.0 (sub16 (next_target x.0) 1) ≡ some refused)
        (run (drop (plain s next_pid) s pid).0 (replicate n (sent pid)))
unfolding run
reverse-run s next_pid pid zero hs hn hp h0 h = absurd (omega arith)
reverse-run s next_pid pid (suc k) hs hn hp h0 h =
    let pd = sub16 pid next_pid in
    rw (first_sent s next_pid pid hs hn hp) (
      Returns->>= (λ (x : Map × List ℕ). x.0 ≡ after_run s pid pd (suc k)) _
        (run (after_run s pid pd 1) (replicate k (sent pid))) _
        (run-after_run s pid pd hs hp (omega arith) k 1 (suc k) (omega arith) (omega arith)
          (omega arith))
        (λ x e. rw e (
          ap (reverse (after_run s pid pd (suc k))) (omega arith)
          ∙ reverse-after_run s pid pd hs hp (omega arith) (suc k) h0 h)))
