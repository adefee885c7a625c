-- ===== src/Codecs.antt =====
-- codecs/codecs.go: `RewritePacket`, which gives a packet its new numbers on the way to a receiver.
pub mod Flags
pub mod Keyframe
pub mod Header
mod Tests
use galene.Base.Word.{has_bit, shr, low_bits, u8, u16}
use Prim.Native.Nat.{bit_or}
use galene.Base.{
  ℕ, ◌+◌, ◌*◌, ◌^◌, Bool, true, false, Option, none, some, List, if◌then◌else◌, ltb, leb, ◌==◌,
  length, get_elem?, set, ◌>>=◌,
}

-- The packet, and whether the error is `errTruncated`.
abbrev pub Rewritten : Type 0
Rewritten = List ℕ × Bool

-- The marker bit and the sequence number.
pub write_header : List ℕ → Bool → ℕ → Option (List ℕ)
write_header buf set_marker seqno = get_elem? buf 1 >>= λ flags.
    let marked = if set_marker then set buf 1 (bit_or flags (2 ^ 7)) else buf in
    some (set (set marked 2 (shr seqno 8)) 3 (u8 seqno))

-- The offset of the payload and `false`, or `true` if the packet is truncated.
pub payload_start : List ℕ → Option (ℕ × Bool)
payload_start buf = get_elem? buf 0 >>= λ first.
    let offset = 12 + low_bits first 4 * 4 in
    if leb (length buf) offset
    then some (0, true)
    else if has_bit first 4
    then (get_elem? buf (offset + 2) >>= λ high. get_elem? buf (offset + 3) >>= λ low.
        let start = offset + 4 + (high * 2 ^ 8 + low) * 4 in
        if ltb (length buf) (start + 4) then some (0, true) else some (start, false))
    else some (offset, false)

-- The picture id of a VP8 payload, of 15 or 7 bits, at the offset.
pub shift_pid : List ℕ → ℕ → ℕ → Option Rewritten
shift_pid buf offset delta = get_elem? buf offset >>= λ high.
    if has_bit high 7
    then (if leb (length buf) (offset + 1)
        then some (buf, true)
        else get_elem? buf (offset + 1) >>= λ low.
            let pid = low_bits (u16 (low_bits high 7 * 2 ^ 8 + low + delta)) 15 in
            some (set (set buf offset (2 ^ 7 + shr pid 8)) (offset + 1) (u8 pid), false))
    else some (set buf offset (low_bits (u8 (high + u8 delta)) 7), false)

-- The part of `RewritePacket` for VP8: the bits X and I of the payload descriptor.
pub rewrite_vp8 : List ℕ → ℕ → ℕ → Option Rewritten
rewrite_vp8 buf offset delta = get_elem? buf offset >>= λ x.
    if has_bit x 7
    then (if leb (length buf) (offset + 1)
        then some (buf, true)
        else get_elem? buf (offset + 1) >>= λ i.
            if has_bit i 7
            then (if leb (length buf) (offset + 2)
                then some (buf, true)
                else shift_pid buf (offset + 2) delta)
            else some (buf, false))
    else some (buf, false)

-- `RewritePacket`; `is_vp8` is the test of the codec's name.
pub rewrite_packet : Bool → List ℕ → Bool → ℕ → ℕ → Option Rewritten
rewrite_packet is_vp8 buf set_marker seqno delta =
    if ltb (length buf) 12
    then some (buf, true)
    else write_header buf set_marker seqno >>= λ out.
        if delta == 0
        then some (out, false)
        else payload_start out >>= λ (offset, truncated).
            if truncated
            then some (out, true)
            else if is_vp8
            then rewrite_vp8 out offset delta
            else some (out, false)
