-- ===== src/PacketMap/InOrder.antt =====
-- packetmap/packetmap.go: a stream that arrives in order leaves renumbered without a gap, whatever
-- is dropped from it. The run is that of `rtpconn.WriteRTP` (rtpconn/rtpconn.go): a packet that
-- the layer selection discards goes to `Drop`, any other to `Map`.
use galene.Base.{
  ap, ◌∙◌, Returns-mono, refl, ℕ, zero, suc, ◌+◌, ◌^◌, ◌≤◌, ◌<◌, ◌≡◌, true, Option, some, List, [],
  ◌∷◌, arith, Returns, Returns->>=, All, ◌>>=◌,
}
use galene.Base.Word.{u16, sub16}
use galene.Seqno.{compare16}
use galene.PacketMap.{Map, Reply, map, drop}
use galene.PacketMap.Bounds.{IsValid, add_mapping-Extends, direct-Answers, drop-IsValid}

-- What happens next on a stream: its next packet is sent on, or discarded, or a packet that is
-- `k` behind the next one arrives late. The numbers are picture ids.
pub data Event : Type 0 where
  sent discarded : ℕ → Event
  late : ℕ → ℕ → Event

abbrev pub WellTimed : Event → Type 0
WellTimed (sent pid) = pid < 2 ^ 16
WellTimed (discarded pid) = pid < 2 ^ 16
WellTimed (late k pid) = (0 < k) × (k ≤ 8192) × (pid < 2 ^ 16)

-- The number that the next packet will be sent under.
abbrev pub next_target : Map → ℕ
next_target m = u16 (m.next + m.delta)

-- The numbers under which the packets that arrive in order are sent; a late packet is answered
-- from the table, and not listed.
unfoldable pub run : Map → List Event → Option (Map × List ℕ)
run m [] = some (m, [])
run m (sent pid ∷ es) =
    map m m.next pid >>= λ (m', r). run m' es >>= λ (m'', out). some (m'', r.1 ∷ out)
run m (discarded pid ∷ es) = run (drop m m.next pid).0 es
run m (late k pid ∷ es) = map m (sub16 m.next k) pid >>= λ (m', r). run m' es

-- t, t + 1, …, n numbers modulo 2^16
pub consecutive : ℕ → ℕ → List ℕ
consecutive t zero = []
consecutive t (suc n) = t ∷ consecutive (u16 (t + 1)) n

pub count_sent : List Event → ℕ
count_sent [] = 0
count_sent (sent pid ∷ es) = suc (count_sent es)
count_sent (discarded pid ∷ es) = count_sent es
count_sent (late k pid ∷ es) = count_sent es

-- `Map` on the next packet.
abbrev pub Sends : Map → Map × Reply → Type 0
Sends m (m', r) =
    IsValid m' × (r.0 ≡ true) × (r.1 ≡ next_target m) × (next_target m' ≡ u16 (next_target m + 1))

pub map-Sends :
    (m : Map) (pid : ℕ) → IsValid m → pid < 2 ^ 16 → Returns (Sends m) (map m m.next pid)
unfolding map compare16
map-Sends m pid v hp = ground (
  arith,
  add_mapping-Extends m m.next m.delta m.pid_delta v v.next_word v.delta_word v.pid_delta_word,
)

-- `Map` on a packet that is late by at most 8192 changes nothing.
pub map-late :
    (m : Map) (k pid : ℕ)
    → IsValid m
    → 0 < k
    → k ≤ 8192
    → Returns (λ (x : Map × Reply). x.0 ≡ m) (map m (sub16 m.next k) pid)
unfolding map compare16
map-late m k pid v h0 h1 = ground (arith, direct-Answers m (sub16 m.next k) v)

pub next_target-drop :
    (m : Map) (pid : ℕ)
    → IsValid m
    → ((drop m m.next pid).1 ≡ true) × (next_target (drop m m.next pid).0 ≡ next_target m)
unfolding drop
next_target-drop m pid v = ground arith

abbrev pub Renumbered : Map → List Event → Map × List ℕ → Type 0
Renumbered m es (m', out) = IsValid m' × (out ≡ consecutive (next_target m) (count_sent es))

-- The packets sent from a valid map carry consecutive numbers modulo 2^16, from the one that the
-- map had for the next packet on, with none left out for the packets discarded in between and
-- whatever late packets (by 1 to 8192) come in between. No call panics.
pub run-Renumbered :
    (es : List Event) (m : Map)
    → IsValid m
    → All WellTimed es
    → Returns (Renumbered m es) (run m es)
unfolding run consecutive count_sent
run-Renumbered [] m v timed = (v, refl)
run-Renumbered (sent pid ∷ es) m v timed =
    Returns->>= (Sends m) (Renumbered m (sent pid ∷ es)) (map m m.next pid) _
      (map-Sends m pid v timed.0)
      (λ x h.
        Returns->>= (Renumbered x.0 es) (Renumbered m (sent pid ∷ es)) (run x.0 es) _
          (run-Renumbered es x.0 h.0 timed.1) (λ y k. (k.0, cc)))
run-Renumbered (discarded pid ∷ es) m v timed =
    let m' = (drop m m.next pid).0 in
    Returns-mono (Renumbered m' es) (Renumbered m (discarded pid ∷ es)) (run m' es)
      (λ x k. (k.0, k.1 ∙ ap (λ t. consecutive t (count_sent es)) (next_target-drop m pid v).1))
      (run-Renumbered es m' (drop-IsValid m m.next pid v v.next_word timed.0) timed.1)
run-Renumbered (late k pid ∷ es) m v timed =
    Returns->>= (λ x. x.0 ≡ m) (Renumbered m (late k pid ∷ es)) (map m (sub16 m.next k) pid) _
      (map-late m k pid v timed.0.0 timed.0.1) (λ x h. rw h (run-Renumbered es m v timed.1))
