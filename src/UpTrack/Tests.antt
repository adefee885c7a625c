-- ===== src/UpTrack/Tests.antt =====
-- The theorems about lost packets at a track with a keyframe and an empty cache.
use galene.Base.{ℕ, ◌≡◌, refl, true, false, some, List, [], ◌∷◌, arith}
use galene.PacketCache
use galene.PacketCache.{Cache}
use galene.UpTrack.{UpTrack, get_packet, take_nacks}
use galene.UpTrack.Writers.{requested, Run, start, next, taken, IsServed, Run-IsServed}

abbrev cache : Cache
cache = record {
  last = 1000;
  cycle = 0;
  last_valid = true;
  expected = 0;
  total_expected = 0;
  received = 0;
  total_received = 0;
  keyframe = 980;
  keyframe_valid = true;
  bitmap = record { valid = false; first = 0; bitmap = 0 };
  tail = 0;
  entries = [];
}

abbrev track : UpTrack
track = record { cache = cache; buffered_nacks = []; supports_nack = true; writers = 0; sent = [] }

abbrev keep_order : ℕ → List ℕ → List ℕ
keep_order cutoff nacks = nacks

-- Two receivers ask for packet 993, and a goroutine takes the number.
abbrev buffered : UpTrack
buffered = record track { buffered_nacks = 993 ∷ []; writers = 1 }

first_asked : get_packet track 993 [] true ≡ some (buffered, [], 0)
unfolding get_packet PacketCache.get PacketCache.find
first_asked = refl

second_asked : get_packet buffered 993 [] true ≡ some (buffered, [], 0)
unfolding get_packet PacketCache.get PacketCache.find
second_asked = refl

abbrev both_asked : Run keep_order track buffered
both_asked =
    next buffered buffered
      (next track buffered start (requested 993 [] true buffered ([], 0) first_asked))
      (requested 993 [] true buffered ([], 0) second_asked)

Run-IsServed_example : IsServed (take_nacks buffered).0
Run-IsServed_example =
    Run-IsServed keep_order track (take_nacks buffered).0 refl refl
      (next buffered (take_nacks buffered).0 both_asked (taken (omega arith)))
