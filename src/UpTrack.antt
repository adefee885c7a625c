-- ===== src/UpTrack.antt =====
-- rtpconn/rtpconn.go and rtpconn/rtpwriter.go: how a track that comes from a sender asks it for the
-- packets that were lost. The NACKs of receivers are buffered, and a goroutine, `nackWriter`, sends
-- them on after 50 ms. Whether a packet of RTCP could be written is an argument, and so is the sort.
pub mod Nacks
pub mod Writers
mod Tests
use galene.Base.{
  ℕ, zero, suc, ◌+◌, ◌-◌, Bool, true, false, not, ◌||◌, Option, none, some, List, [], ◌∷◌, ◌++◌,
  length, non_empty, ltb, ◌==◌, if◌then◌else◌, ◌>>=◌,
}
use galene.Base.Word.{sub16, has_bit}
use galene.PacketCache
use galene.PacketCache.{Cache, to_bitmap, expect}

-- `rtpUpTrack`, less what it measures; `supports_nack` is `hasRtcpFb("nack", "")`, `writers` counts the
-- goroutines that have been started and have not yet taken the buffer, and `sent` has the NACKs that
-- were written to the sender, the last one first.
pub record UpTrack : Type 0 where
  pub cache : Cache
  pub buffered_nacks : List ℕ
  pub supports_nack : Bool
  pub writers : ℕ
  pub sent : List (List (ℕ × ℕ))

-- The loop of `sendNACKs`, which makes at most so many pairs.
pub nack_pairs : ℕ → List ℕ → List (ℕ × ℕ)
nack_pairs zero seqnos = []
nack_pairs (suc n) seqnos = elim (to_bitmap seqnos) [
  | none ↦ []
  | some (first, bitmap, rest) ↦ (first, bitmap) ∷ nack_pairs n rest
]

-- `rtpUpTrack.sendNACKs`
pub send_nacks : Bool → UpTrack → List ℕ → UpTrack
send_nacks written t seqnos =
    if not (non_empty seqnos)
    then t
    else if not t.supports_nack
    then t
    else if written
    then record t { sent = nack_pairs 240 seqnos ∷ t.sent; cache = expect t.cache (length seqnos) }
    else t

abbrev pub includes : List ℕ → ℕ → Bool
includes [] n = false
includes (s ∷ ss) n = (s == n) || includes ss n

-- `GetPacket` where the packet is not in the cache.
abbrev pub buffer_nack : UpTrack → ℕ → UpTrack
buffer_nack t seqno = if includes t.buffered_nacks seqno then t else record t {
  buffered_nacks = t.buffered_nacks ++ seqno ∷ [];
  writers = if not (non_empty t.buffered_nacks) then t.writers + 1 else t.writers;
}

-- `GetPacket`: the track, the caller's buffer, and the number of bytes.
pub get_packet : UpTrack → ℕ → List ℕ → Bool → Option (UpTrack × List ℕ × ℕ)
get_packet t seqno result nack = PacketCache.get t.cache seqno result >>= λ (out, n).
    if ltb 0 n || not nack then some (t, out, n) else some (buffer_nack t seqno, out, 0)

-- `nackWriter` under the lock.
pub take_nacks : UpTrack → UpTrack × List ℕ
take_nacks t = (record t { buffered_nacks = []; writers = t.writers - 1 }, t.buffered_nacks)

-- The number before which `nackWriter` gives up.
pub cutoff_of : Option ℕ → Option ℕ → Option ℕ
cutoff_of (some keyframe) last = some keyframe
cutoff_of none (some last) = some (sub16 last 256)
cutoff_of none none = none

-- The loop of `nackWriter`.
abbrev pub is_before : ℕ → ℕ → Bool
is_before cutoff n = has_bit (sub16 n cutoff) 15

pub still_lost : Cache → ℕ → List ℕ → Option (List ℕ)
still_lost c cutoff [] = some []
still_lost c cutoff (n ∷ ns) = still_lost c cutoff ns >>= λ rest.
    if is_before cutoff n
    then some rest
    else PacketCache.get c n [] >>= λ (out, l). some (if ltb 0 l then rest else n ∷ rest)

-- `nackWriter` after the lock; `sort` is `sort.Slice` by the distance from the cutoff.
pub write_nacks :
    (sort : ℕ → List ℕ → List ℕ) (written : Bool) → UpTrack → List ℕ → Option ℕ → Option UpTrack
write_nacks sort written t nacks none = some t
write_nacks sort written t nacks (some cutoff) =
    still_lost t.cache cutoff nacks >>= λ lost. some (send_nacks written t (sort cutoff lost))

pub nack_writer : (sort : ℕ → List ℕ → List ℕ) (written : Bool) → UpTrack → List ℕ → Option UpTrack
nack_writer sort written t nacks =
    if not (non_empty nacks) || not t.supports_nack
    then some t
    else write_nacks sort written t nacks
        (cutoff_of (PacketCache.get_keyframe t.cache) (PacketCache.get_last t.cache))
