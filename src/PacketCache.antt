-- ===== src/PacketCache.antt =====
-- packetcache/packetcache.go: the history of recent packets, and the statistics of a stream.
-- `none` is a panic: an index or a slice out of range, or a remainder by zero. The mutex makes each
-- method one step. A caller's buffer is a list of bytes whose capacity is its length.
pub mod LossBitmap
pub mod Ring
pub mod Retrieve
pub mod Resize
pub mod Stats
pub mod Nack
mod Tests
use Prim.Native.Nat.{Ordering, bit_or}
use galene.Base.{
  ℕ, zero, suc, ◌+◌, ◌-◌, ◌*◌, ◌/◌, ◌%◌, ◌^◌, Bool, true, false, ◌&&◌, ◌||◌, not, Option, none,
  some, List, [], ◌∷◌, ◌++◌, length, non_empty, get_elem?, set, take, drop, replicate, copy, ltb,
  leb, ◌==◌, if◌then◌else◌, ◌>>=◌, min,
}
use galene.Base.Word.{u16, u32, sub16, has_bit, low_bits}
use galene.Seqno.{compare16, is_lt, is_gt}
use LossBitmap.{Bitmap, Losses, seqno_invalid, set_bit, get_bits}

abbrev pub buf_size : ℕ
buf_size = 1504

pub record Entry : Type 0 where
  pub seqno : ℕ
  pub length_and_marker : ℕ
  pub timestamp : ℕ
  pub buf : List ℕ

-- `length` and `marker` of an entry
abbrev pub entry_length : Entry → ℕ
entry_length e = low_bits e.length_and_marker 15

abbrev pub entry_marker : Entry → Bool
entry_marker e = has_bit e.length_and_marker 15

pub record Cache : Type 0 where
  pub last : ℕ
  pub cycle : ℕ
  pub last_valid : Bool
  pub expected : ℕ
  pub total_expected : ℕ
  pub received : ℕ
  pub total_received : ℕ
  pub keyframe : ℕ
  pub keyframe_valid : Bool
  pub bitmap : Bitmap
  pub tail : ℕ
  pub entries : List Entry

-- the zero value of an entry
pub no_entry : Entry
no_entry = record { seqno = 0; length_and_marker = 0; timestamp = 0; buf = replicate buf_size 0 }

-- `New`: nil for a capacity that a uint16 cannot hold.
pub new : ℕ → Option Cache
new capacity =
    if ltb (2 ^ 16 - 1) capacity
    then none
    else some (record {
      last = 0;
      cycle = 0;
      last_valid = false;
      expected = 0;
      total_expected = 0;
      received = 0;
      total_received = 0;
      keyframe = 0;
      keyframe_valid = false;
      bitmap = record { valid = false; first = 0; bitmap = 0 };
      tail = 0;
      entries = replicate capacity no_entry;
    })

-- The counters of `Store`, and the last sequence number.
pub count_packet : Cache → ℕ → Cache
unfolding seqno_invalid
count_packet c seqno =
    let cmp = compare16 c.last seqno in
    if not c.last_valid || seqno_invalid seqno c.last
    then record c {
      last = seqno;
      last_valid = true;
      expected = u32 (c.expected + 1);
      received = u32 (c.received + 1);
    }
    else if is_lt cmp
    then record c {
      received = u32 (c.received + 1);
      expected = u32 (c.expected + sub16 seqno c.last);
      cycle = if ltb seqno c.last then u16 (c.cycle + 1) else c.cycle;
      last = seqno;
      keyframe_valid =
          if c.keyframe_valid && is_gt (compare16 c.keyframe seqno)
          then false
          else c.keyframe_valid;
    }
    else if is_gt cmp && ltb c.received c.expected
    then record c { received = u32 (c.received + 1) }
    else c

-- The packet as it is written over the entry `e`.
pub written : Entry → ℕ → ℕ → Bool → List ℕ → Entry
written e seqno timestamp marker buf = record {
  seqno = seqno;
  length_and_marker = if marker then bit_or (u16 (length buf)) (2 ^ 15) else u16 (length buf);
  timestamp = timestamp;
  buf = copy e.buf buf;
}

-- The write of `Store` at the tail, and its second result.
pub put : Cache → ℕ → ℕ → Bool → List ℕ → Option (Cache × ℕ)
unfolding written
put c seqno timestamp marker buf =
    let i = c.tail in
    get_elem? c.entries i >>= λ e.
    if u16 (length c.entries) == 0
    then none
    else some (
      record c {
        entries = set c.entries i (written e seqno timestamp marker buf);
        tail = u16 (i + 1) % u16 (length c.entries);
      },
      i,
    )

-- `Store` up to the write: the counters, the bitmap and the last keyframe.
pub prepare : Cache → ℕ → Bool → Cache
unfolding count_packet
prepare c seqno keyframe =
    let counted = count_packet c seqno in
    let mapped = record counted { bitmap = set_bit counted.bitmap seqno } in
    if keyframe then record mapped { keyframe = seqno; keyframe_valid = true } else mapped

pub store : Cache → ℕ → ℕ → Bool → Bool → List ℕ → Option (Cache × (ℕ × ℕ))
unfolding prepare put
store c seqno timestamp keyframe marker buf =
    put (prepare c seqno keyframe) seqno timestamp marker buf >>= λ (c', i).
    some (c', (c'.bitmap.first, i))

-- `Expect`: `n` is the positive int, and 0 stands for one that is not.
pub expect : Cache → ℕ → Cache
expect c n = if n == 0 then c else record c { expected = u32 (c.expected + u32 n) }

-- `result[:n]` filled from `buf`: the buffer afterwards, and the number of bytes copied.
pub fill : List ℕ → ℕ → List ℕ → Option (List ℕ × ℕ)
fill result n buf =
    if leb n (length result)
    then some (copy (take n result) buf ++ drop n result, min n (length buf))
    else none

-- What `get` returns beside the buffer: the length, the timestamp and the marker.
abbrev pub Found : Type 0
Found = ℕ × ℕ × Bool

-- `get`
unfoldable pub find : ℕ → List Entry → List ℕ → Option (List ℕ × Found)
unfolding fill
find seqno [] result = some (result, (0, 0, false))
find seqno (e ∷ es) result =
    if e.length_and_marker == 0 || not (e.seqno == seqno)
    then find seqno es result
    else if non_empty result
    then (fill result (entry_length e) e.buf >>= λ (out, n).
        some (out, (u16 n, e.timestamp, entry_marker e)))
    else some (result, (entry_length e, e.timestamp, entry_marker e))

-- `Get`
unfoldable pub get : Cache → ℕ → List ℕ → Option (List ℕ × ℕ)
unfolding find
get c seqno result = find seqno c.entries result >>= λ (out, found). some (out, found.0)

-- `Last` and `Keyframe`: `none` is `0, false`.
unfoldable pub get_last : Cache → Option ℕ
get_last c = if c.last_valid then some c.last else none

unfoldable pub get_keyframe : Cache → Option ℕ
get_keyframe c = if c.keyframe_valid then some c.keyframe else none

-- `GetAt`
pub get_at : Cache → ℕ → ℕ → List ℕ → Option (List ℕ × ℕ)
unfolding fill
get_at c seqno index result = elim (get_elem? c.entries index) [
  | none ↦ some (result, 0)
  | some e ↦
      if not (e.seqno == seqno)
      then some (result, 0)
      else (fill result (entry_length e) e.buf >>= λ (out, n). some (out, u16 n))
]

-- `BitmapGet`
pub bitmap_get : Cache → ℕ → Cache × Losses
bitmap_get c next = let (b, losses) = get_bits c.bitmap next in (record c { bitmap = b }, losses)

-- `resize`. All its slice bounds are in range if the tail is at most the number of entries.
pub resize : Cache → ℕ → Option Cache
resize c capacity =
    let n = length c.entries in
    if n == capacity
    then some c
    else if ltb n c.tail
    then none
    else if ltb n capacity
    then some (record c {
      entries =
          take c.tail c.entries ++ (replicate (capacity - n) no_entry ++ drop c.tail c.entries);
    })
    else if ltb c.tail capacity
    then some
        (record c { entries = take c.tail c.entries ++ drop (c.tail + n - capacity) c.entries })
    else some (record c { entries = take capacity (drop (c.tail - capacity) c.entries); tail = 0 })

-- `ResizeCond`
pub resize_cond : Cache → ℕ → Option (Cache × Bool)
unfolding resize
resize_cond c capacity =
    let current = length c.entries in
    if leb (capacity * 3 / 4) current && ltb current (capacity * 2)
    then some (c, false)
    else if ltb capacity current && ltb capacity c.tail
    then some (c, false)
    else (resize c capacity >>= λ c'. some (c', true))

-- `Stats`, under the record's own name `Stats`; its fields are the counters since the last reset,
-- the totals, and the extended sequence number.
pub record StatsReport : Type 0 where
  pub received_now : ℕ
  pub received_in_all : ℕ
  pub expected_now : ℕ
  pub expected_in_all : ℕ
  pub eseqno : ℕ

-- `GetStats`; `cycle << 16 | last` is a sum, since `last` is a uint16.
pub get_stats : Cache → Bool → Cache × StatsReport
get_stats c reset = (
  if reset
      then record c {
        total_expected = u32 (c.total_expected + c.expected);
        expected = 0;
        total_received = u32 (c.total_received + c.received);
        received = 0;
      }
      else c,
  record {
    received_now = c.received;
    received_in_all = u32 (c.total_received + c.received);
    expected_now = c.expected;
    expected_in_all = u32 (c.total_expected + c.expected);
    eseqno = c.cycle * 2 ^ 16 + c.last;
  },
)

-- The loop of `ToBitmap`.
pub cover : ℕ → ℕ → List ℕ → ℕ × List ℕ
cover first bitmap [] = (bitmap, [])
cover first bitmap (s ∷ remain) =
    let delta = sub16 (sub16 s first) 1 in
    let rest = cover first (bit_or bitmap (u16 (2 ^ delta))) remain in
    if leb 16 delta then (bitmap, s ∷ remain) else rest

-- `ToBitmap`: the first number, the bitmap, and the list that it does not cover.
pub to_bitmap : List ℕ → Option (ℕ × ℕ × List ℕ)
unfolding cover
to_bitmap [] = none
to_bitmap (first ∷ remain) = let (bitmap, rest) = cover first 0 remain in some (first, bitmap, rest)
