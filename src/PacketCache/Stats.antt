-- ===== src/PacketCache/Stats.antt =====
-- packetcache/packetcache.go: the counters behind receiver reports.
use galene.Base.{
  Returns-every, >>=-eq-some, ℕ, ◌+◌, ◌*◌, ◌^◌, ◌≤◌, ◌<◌, ◌≡◌, refl, Bool, true, false, List, arith,
  Returns, some,
}
use galene.Seqno.{compare16}
use galene.PacketCache.LossBitmap.{seqno_invalid}
use galene.PacketCache.{Cache, count_packet, prepare, put, store, get_stats}
use galene.PacketCache.Ring.{IsValid, store-Queued}

-- No more packets were received than expected.
pub record IsCounted (c : Cache) : Type 0 where
  pub last_word : c.last < 2 ^ 16
  pub received_le : c.received ≤ c.expected
  pub expected_word : c.expected < 2 ^ 32

pub count_packet-IsCounted :
    (c : Cache) (seqno : ℕ)
    → IsCounted c
    → seqno < 2 ^ 16
    → c.expected + 2 ^ 16 ≤ 2 ^ 32
    → IsCounted (count_packet c seqno)
unfolding count_packet compare16
count_packet-IsCounted c seqno v hs room = ground arith

-- `put` leaves the counters alone.
abbrev Counters : Cache → Cache → Type 0
Counters c c' =
    (c'.last ≡ c.last)
    × (c'.cycle ≡ c.cycle)
    × (c'.received ≡ c.received)
    × (c'.expected ≡ c.expected)

put-Counters :
    (c : Cache) (seqno timestamp : ℕ) (marker : Bool) (buf : List ℕ) (x : Cache × ℕ)
    → put c seqno timestamp marker buf ≡ some x
    → Counters c x.0
unfolding put
put-Counters c seqno timestamp marker buf x h = ground arith

prepare-Counters :
    (c : Cache) (seqno : ℕ) (keyframe : Bool)
    → Counters (count_packet c seqno) (prepare c seqno keyframe)
unfolding prepare
prepare-Counters c seqno true = (refl, refl, refl, refl)
prepare-Counters c seqno false = (refl, refl, refl, refl)

store-Counters :
    (c : Cache) (seqno timestamp : ℕ) (keyframe marker : Bool) (buf : List ℕ) (x : Cache × (ℕ × ℕ))
    → store c seqno timestamp keyframe marker buf ≡ some x
    → Counters (count_packet c seqno) x.0
unfolding store
store-Counters c seqno timestamp keyframe marker buf x h =
    let k = prepare c seqno keyframe in
    let (y, e, r) = >>=-eq-some (put k seqno timestamp marker buf) _ h in
    ground
      (arith, put-Counters k seqno timestamp marker buf y e, prepare-Counters c seqno keyframe, r)

-- The extended sequence number that `GetStats` reports.
abbrev pub eseqno_of : Cache → ℕ
eseqno_of c = c.cycle * 2 ^ 16 + c.last

-- A packet that does not restart the stream moves the extended number as far as the count of
-- expected packets, and never back.
count_packet-eseqno :
    (c : Cache) (seqno : ℕ)
    → IsCounted c
    → seqno < 2 ^ 16
    → c.last_valid ≡ true
    → seqno_invalid seqno c.last ≡ false
    → c.expected + 2 ^ 16 ≤ 2 ^ 32
    → c.cycle + 1 < 2 ^ 16
    → let c' = count_packet c seqno in
      (eseqno_of c' + c.expected ≡ eseqno_of c + c'.expected) × (eseqno_of c ≤ eseqno_of c')
unfolding count_packet compare16
count_packet-eseqno c seqno v hs started near room cycles = ground arith

module _ (c : Cache) (seqno timestamp : ℕ) (keyframe marker : Bool) (buf : List ℕ) (v : IsValid c)
    (counted : IsCounted c) (hs : seqno < 2 ^ 16) (room : c.expected + 2 ^ 16 ≤ 2 ^ 32) where
  -- `Store` never counts more packets received than expected, while the counter has room.
  pub store-IsCounted :
      Returns (λ (x : Cache × (ℕ × ℕ)). IsCounted x.0) (store c seqno timestamp keyframe marker buf)
  store-IsCounted =
      Returns-every _ _ (store c seqno timestamp keyframe marker buf)
        (store-Queued c seqno timestamp keyframe marker buf v)
        (λ x e. ground (
          arith,
          count_packet-IsCounted c seqno counted hs room,
          store-Counters c seqno timestamp keyframe marker buf x e,
        ))

  -- On a started stream, a packet that is not unreasonably late moves the extended sequence number
  -- forward by as much as the count of expected packets, and never back.
  store-eseqno :
      c.last_valid ≡ true
      → seqno_invalid seqno c.last ≡ false
      → c.cycle + 1 < 2 ^ 16
      → Returns
          (λ (x : Cache × (ℕ × ℕ)).
            (eseqno_of x.0 + c.expected ≡ eseqno_of c + x.0.expected)
            × (eseqno_of c ≤ eseqno_of x.0))
          (store c seqno timestamp keyframe marker buf)
  store-eseqno started near cycles =
      Returns-every _ _ (store c seqno timestamp keyframe marker buf)
        (store-Queued c seqno timestamp keyframe marker buf v)
        (λ x e. ground (
          arith,
          count_packet-eseqno c seqno counted hs started near room cycles,
          store-Counters c seqno timestamp keyframe marker buf x e,
        ))

-- Reading the statistics with a reset changes neither total nor the extended number that the next
-- reading reports, and starts the counters again; without a reset it changes nothing.
get_stats-reset :
    (c : Cache) (again : Bool)
    → c.total_received < 2 ^ 32
    → c.total_expected < 2 ^ 32
    → let (c', first) = get_stats c true in
      let second = (get_stats c' again).1 in
      (second.received_in_all ≡ first.received_in_all)
      × (second.expected_in_all ≡ first.expected_in_all)
      × (second.eseqno ≡ first.eseqno)
      × (second.received_now ≡ 0)
      × (second.expected_now ≡ 0)
      × ((get_stats c false).0 ≡ c)
      × ((get_stats c false).1 ≡ first)
unfolding get_stats
get_stats-reset c again hr he = ground arith
