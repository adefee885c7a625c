-- ===== src/PacketCache/LossBitmap.antt =====
-- packetcache/packetcache.go: `seqnoInvalid`, and the bitmap of recent losses with `set` and `get`.
-- A uint16 or a uint32 is a number below 2^16 or 2^32.
pub mod Window
use Prim.Native.Nat.{bit_or}
use galene.Base.{
  ℕ, zero, suc, ◌+◌, ◌-◌, ◌*◌, ◌/◌, ◌%◌, ◌^◌, Bool, true, false, ◌||◌, not, ltb, leb, ◌==◌,
  if◌then◌else◌,
}
use galene.Base.Word.{u16, u32, sub16, shr, low_bits}
use galene.Seqno.{compare16, is_lt, is_ge, is_gt}

-- Whether `seqno` is unreasonably far behind `reference`.
unfoldable pub seqno_invalid : ℕ → ℕ → Bool
seqno_invalid seqno reference =
    if is_lt (compare16 reference seqno)
    then false
    else if ltb 0x100 (sub16 reference seqno)
    then true
    else false

pub record Bitmap : Type 0 where
  pub valid : Bool
  pub first : ℕ
  pub bitmap : ℕ

-- `^x` on uint32
abbrev pub not32 : ℕ → ℕ
not32 x = 2 ^ 32 - 1 - x

-- `x << k` on uint32
abbrev pub shl32 : ℕ → ℕ → ℕ
shl32 x k = if ltb k 32 then u32 (x * 2 ^ k) else 0

-- `bits.TrailingZeros32`, with the width left to look at; it is 32 at 0.
unfoldable pub trailing_zeros : ℕ → ℕ → ℕ
trailing_zeros zero x = 0
trailing_zeros (suc n) x = elim (x % 2 == 1) [ true ↦ 0 | false ↦ suc (trailing_zeros n (x / 2)) ]

-- The first part of `set`: the window slides up to the packet, and past the packets at its start
-- that are there.
abbrev pub slide : Bitmap → ℕ → Bitmap
slide b seqno =
    let shift = sub16 (sub16 seqno b.first) 31 in
    if leb 32 (sub16 seqno b.first)
    then record b { bitmap = shr b.bitmap shift; first = u16 (b.first + shift) }
    else b

abbrev pub skip : Bitmap → Bitmap
skip b =
    let ones = trailing_zeros 32 (not32 b.bitmap) in
    if b.bitmap % 2 == 1
    then record b { bitmap = shr b.bitmap ones; first = u16 (b.first + ones) }
    else b

abbrev pub mark : Bitmap → ℕ → Bitmap
mark b seqno = record b { bitmap = bit_or b.bitmap (shl32 1 (sub16 seqno b.first)) }

unfoldable pub set_bit : Bitmap → ℕ → Bitmap
unfolding seqno_invalid trailing_zeros
set_bit b seqno =
    if not b.valid || seqno_invalid seqno b.first
    then record { first = seqno; bitmap = 1; valid = true }
    else if is_gt (compare16 b.first seqno)
    then b
    else mark (skip (slide b seqno)) seqno

-- What `get` reports: whether a packet is missing, the first one, and which of the 16 after it are.
abbrev pub Losses : Type 0
Losses = Bool × ℕ × ℕ

abbrev report : ℕ → ℕ → Losses
report bm first =
    let count = trailing_zeros 32 bm in
    if bm == 0
    then (false, first, 0)
    else if bm % 2 == 0
    then (true, u16 (first + count), u16 (shr (shr bm count) 1))
    else (true, first, u16 (shr bm 1))

unfoldable pub get_bits : Bitmap → ℕ → Bitmap × Losses
unfolding trailing_zeros
get_bits b next =
    if is_ge (compare16 b.first next)
    then (b, (false, b.first, 0))
    else let count = if ltb 17 (sub16 next b.first) then 17 else sub16 next b.first in
      let bm = low_bits (not32 b.bitmap) count in
      (record b { bitmap = shr b.bitmap count; first = u16 (b.first + count) }, report bm b.first)
