-- ===== src/Codecs/Keyframe.antt =====
-- codecs/codecs.go: `Keyframe` and `KeyframeDimensions`. An answer is whether the packet starts a
-- keyframe, and whether this is known; `none` is a panic or a loop out of fuel.
pub mod Total
use galene.Base.Word.{has_bit, shr, low_bits, u32}
use galene.Base.{
  ℕ, zero, suc, ◌+◌, ◌*◌, ◌^◌, ◌-◌, Bool, true, false, not, ◌&&◌, ◌||◌, Option, none, some, List,
  [], ◌∷◌, if◌then◌else◌, ltb, leb, ◌==◌, length, get_elem?, take, drop, max, ◌>>=◌,
}
use galene.Codecs.Flags.{
  Codec, vp8, vp9, av1, h264, other, Parsers, Vp8Packet, Vp9Packet, is_vp8_key, is_vp9_key,
}

abbrev pub Answer : Type 0
Answer = Bool × Bool

abbrev pub unknown : Answer
unknown = (false, false)

abbrev pub vp8_answer : Option Vp8Packet → Answer
vp8_answer none = unknown
vp8_answer (some q) =
    if leb 1 (length q.payload)
    then (not (q.s == 0) && (q.pid == 0 && is_vp8_key q.payload), true)
    else unknown

abbrev pub vp9_start : Bool → List ℕ → Answer
vp9_start b [] = unknown
vp9_start b (c ∷ payload) =
    if not b
    then (false, true)
    else if low_bits (shr c 6) 2 == 2
    then (is_vp9_key c, true)
    else unknown

abbrev pub vp9_answer : Option Vp9Packet → Answer
vp9_answer none = unknown
vp9_answer (some q) = vp9_start q.b q.payload

-- The loop of `getObu` over the bytes of the length: the length so far, the offset, and whether the
-- data ends in it. A byte is 7 bits, lowest first, and there are 4 at most.
unfoldable pub obu_length : ℕ → List ℕ → ℕ → ℕ → Option ((Bool × ℕ) × ℕ)
obu_length zero buf offset len = none
obu_length (suc fuel) buf offset len =
    let rest = get_elem? buf offset >>= λ l.
    let len' = len + low_bits l 7 * 2 ^ (offset * 7) in
    if has_bit l 7
    then obu_length fuel buf (offset + 1) len'
    else some ((false, len'), offset + 1) in
    if leb (length buf) offset
    then some ((true, 0), offset)
    else if leb 4 offset
    then some ((true, 0), offset)
    else rest

-- `getObu`: the unit, the bytes that it takes, and whether it is truncated.
pub get_obu : List ℕ → Bool → Option ((List ℕ × ℕ) × Bool)
unfolding obu_length
get_obu buf last =
    if last
    then some ((buf, length buf), false)
    else obu_length 5 buf 0 0 >>= λ ((cut, len), offset).
        if cut
        then some (([], offset), ltb 0 offset || leb 4 offset)
        else if ltb (length buf) (offset + len)
        then some ((drop offset buf, length buf), true)
        else some ((take len (drop offset buf), offset + len), false)

-- `payload[offset:]`
abbrev pub slice_from : List ℕ → ℕ → Option (List ℕ)
slice_from buf offset = if leb offset (length buf) then some (drop offset buf) else none

-- A frame header, `OBU_FRAME_HEADER` or `OBU_FRAME`.
abbrev pub frame_header : List ℕ → Option Answer
frame_header obu =
    if ltb (length obu) 2
    then some unknown
    else get_elem? obu 1 >>= λ b.
        if has_bit b 7 then some (false, true) else some (low_bits (shr b 5) 2 == 0, true)

-- The loop over the units of an AV1 payload; `w` is the number of units, or 0.
unfoldable pub av1_units : ℕ → List ℕ → ℕ → ℕ → ℕ → Option Answer
av1_units zero payload w i offset = none
av1_units (suc fuel) payload w i offset = slice_from payload offset >>= λ rest_of.
    get_obu rest_of (w == i + 1) >>= λ ((obu, len), truncated).
    let more =
      if truncated || leb w i
      then some unknown
      else av1_units fuel payload w (i + 1) (offset + len) in
    if ltb (length obu) 1
    then some unknown
    else get_elem? obu 0 >>= λ b.
        let tpe = low_bits (shr b 3) 3 in
        if i == 0
        then (if not (tpe == 1) then some (false, true) else more)
        else if tpe == 3 || tpe == 6
        then frame_header obu
        else more

pub av1_keyframe : List ℕ → Option Answer
av1_keyframe payload =
    if ltb (length payload) 2
    then some (false, true)
    else get_elem? payload 0 >>= λ b.
        if not (not (has_bit b 7) && has_bit b 3)
        then some (false, true)
        else av1_units 4 payload (low_bits (shr b 4) 2) 0 1

-- The loop over the units of an aggregation packet, each after a length of two bytes and, in it,
-- `skip` bytes of other data.
unfoldable pub h264_units : ℕ → List ℕ → ℕ → ℕ → Option Answer
h264_units zero payload skip i = none
h264_units (suc fuel) payload skip i =
    let n = length payload in
    let rest = get_elem? payload i >>= λ high. get_elem? payload (i + 1) >>= λ low.
    let len = high * 2 ^ 8 + low in
    if ltb n (i + 2 + len)
    then some unknown
    else if leb len skip
    then some unknown
    else get_elem? payload (i + 2 + skip) >>= λ b.
        let tpe = low_bits b 5 in
        if tpe == 7
        then some (true, true)
        else if leb 24 tpe
        then some unknown
        else h264_units fuel payload skip (i + 2 + len) in
    if ltb i n
    then (if ltb n (i + 2) then some unknown else rest)
    else if i == n
    then some (false, true)
    else some unknown

-- FU-A and FU-B
abbrev pub h264_fragment : List ℕ → Option Answer
h264_fragment payload =
    if ltb (length payload) 2
    then some unknown
    else get_elem? payload 1 >>= λ b.
        if has_bit b 7 then some (low_bits b 5 == 7, true) else some (false, true)

pub h264_keyframe : List ℕ → Option Answer
h264_keyframe payload =
    if ltb (length payload) 1
    then some unknown
    else get_elem? payload 0 >>= λ b.
        let nalu = low_bits b 5 in
        if nalu == 0
        then some unknown
        else if leb nalu 23
        then some (nalu == 7, true)
        else if leb nalu 27
        then h264_units (length payload + 1) payload
            (if nalu == 26 then 3 else if nalu == 27 then 4 else 0) (if nalu == 24 then 1 else 3)
        else if leb nalu 29
        then h264_fragment payload
        else some unknown

-- `Keyframe`, for the payload of a packet.
pub keyframe : Parsers → Codec → List ℕ → Option Answer
keyframe p vp8 payload = some (vp8_answer (p.parse_vp8 payload))
keyframe p vp9 payload = some (vp9_answer (p.parse_vp9 payload))
keyframe p av1 payload = av1_keyframe payload
keyframe p h264 payload = h264_keyframe payload
keyframe p other payload = some unknown

abbrev pub vp8_dimensions : Option Vp8Packet → Option (ℕ × ℕ)
vp8_dimensions none = some (0, 0)
vp8_dimensions (some q) =
    if ltb (length q.payload) 10
    then some (0, 0)
    else get_elem? q.payload 6 >>= λ a. get_elem? q.payload 7 >>= λ b.
        get_elem? q.payload 8 >>= λ c. get_elem? q.payload 9 >>= λ d.
        let raw = a + b * 2 ^ 8 + c * 2 ^ 16 + d * 2 ^ 24 in
        some (low_bits raw 14, low_bits (shr raw 16) 14)

-- The greatest width and height of the layers that have both.
abbrev pub greatest : List ℕ → List ℕ → ℕ × ℕ
greatest [] hs = (0, 0)
greatest (w ∷ ws) [] = (0, 0)
greatest (w ∷ ws) (h ∷ hs) = let (x, y) = greatest ws hs in (max w x, max h y)

abbrev pub vp9_dimensions : Option Vp9Packet → Option (ℕ × ℕ)
vp9_dimensions none = some (0, 0)
vp9_dimensions (some q) = if not q.v then some (0, 0) else some (greatest q.width q.height)

-- `KeyframeDimensions`
pub keyframe_dimensions : Parsers → Codec → List ℕ → Option (ℕ × ℕ)
keyframe_dimensions p vp8 payload = vp8_dimensions (p.parse_vp8 payload)
keyframe_dimensions p vp9 payload = vp9_dimensions (p.parse_vp9 payload)
keyframe_dimensions p av1 payload = some (0, 0)
keyframe_dimensions p h264 payload = some (0, 0)
keyframe_dimensions p other payload = some (0, 0)
