-- ===== src/PacketCache/LossBitmap/Window.antt =====
-- packetcache/packetcache.go: the bitmap of recent losses as a window on the stream.
use galene.Base.{
  ℕ, zero, suc, ◌+◌, ◌-◌, ◌*◌, ◌/◌, ◌%◌, ◌^◌, ◌≤◌, ◌<◌, ◌≡◌, refl, ap, sym, ◌∙◌, ◌⊎◌, inl, inr,
  Bool, true, false, not, ◌||◌, arith, ltb, leb, ◌==◌, if◌then◌else◌, Bool-cases,
}
use mathlib.Core.Path.{ap₂}
use native.Mathlib.Decide.{dec_lt}
use galene.Base.Word.{u16, u32, sub16, shr, has_bit}
use galene.Base.Bits.{
  has_bit-suc, has_bit-zero, has_bit-pow, has_bit-bit_or, has_bit-shr, has_bit-complement,
  bit_or-lt, pow-lt-u32,
}
use galene.Seqno.{compare16, is_gt}
use galene.PacketCache.LossBitmap.{
  Bitmap, seqno_invalid, not32, shl32, trailing_zeros, slide, skip, mark, set_bit,
}

-- The first number is a uint16, and the bitmap a uint32.
pub record IsWords (b : Bitmap) : Type 0 where
  pub first_word : b.first < 2 ^ 16
  pub bitmap_word : b.bitmap < 2 ^ 32

-- The window `b'` starts `o` numbers after the window `b`, with the same bits.
pub record Moved (b b' : Bitmap) (o : ℕ) : Type 0 where
  pub words : IsWords b'
  pub valid_is : b'.valid ≡ b.valid
  pub first_is : b'.first ≡ u16 (b.first + o)
  pub bits : (k : ℕ) → has_bit b'.bitmap k ≡ has_bit b.bitmap (k + o)

Moved-trans : (a b c : Bitmap) (o p : ℕ) → Moved a b o → Moved b c p → Moved a c (o + p)
Moved-trans a b c o p m n = record {
  words = n.words;
  valid_is = n.valid_is ∙ m.valid_is;
  first_is = omega (arith, m.first_is, n.first_is);
  bits = λ k. n.bits k ∙ (m.bits (k + p) ∙ ap (has_bit a.bitmap) (omega arith));
}

shr_word : (x o : ℕ) → x < 2 ^ 32 → shr x o < 2 ^ 32
shr_word x o h = grind arith

shifted :
    (b : Bitmap) (o : ℕ)
    → IsWords b
    → Moved b (record b { bitmap = shr b.bitmap o; first = u16 (b.first + o) }) o
shifted b o w = record {
  words = record { first_word = omega arith; bitmap_word = shr_word b.bitmap o w.bitmap_word };
  valid_is = refl;
  first_is = refl;
  bits = has_bit-shr o b.bitmap;
}

unmoved : (b : Bitmap) → IsWords b → Moved b b 0
unmoved b w = record {
  words = w;
  valid_is = refl;
  first_is = omega (arith, w.first_word);
  bits = λ k. ap (has_bit b.bitmap) (omega arith);
}

-- The bits below the count of trailing zeros are clear.
trailing_zeros-clear : (n x k : ℕ) → k < trailing_zeros n x → has_bit x k ≡ false
unfolding trailing_zeros
trailing_zeros-clear zero x k h = elim h [ ]
trailing_zeros-clear (suc n) x zero h = ground arith
trailing_zeros-clear (suc n) x (suc k) h =
    has_bit-suc x k ∙ trailing_zeros-clear n (x / 2) k (ground arith)

trailing_zeros-le : (n x : ℕ) → trailing_zeros n x ≤ n
unfolding trailing_zeros
trailing_zeros-le zero x = omega arith
trailing_zeros-le (suc n) x = ground (arith, trailing_zeros-le n (x / 2))

-- How far `set` slides the window for a packet `d` after its start, and past how many packets that
-- are there it skips.
abbrev slid : ℕ → ℕ
slid d = if leb 32 d then d - 31 else 0

abbrev skipped : Bitmap → ℕ
skipped b = if b.bitmap % 2 == 1 then trailing_zeros 32 (not32 b.bitmap) else 0

slide-Moved :
    (b : Bitmap) (seqno : ℕ) → IsWords b → Moved b (slide b seqno) (slid (sub16 seqno b.first))
slide-Moved b seqno w = elim (Bool-cases (leb 32 (sub16 seqno b.first))) [
  | inl far ↦
      let shift : sub16 (sub16 seqno b.first) 31 ≡ sub16 seqno b.first - 31 = ground arith in
      rw (far, shift) (shifted b (sub16 seqno b.first - 31) w)
  | inr close ↦ rw close (unmoved b w)
]

skip-Moved : (b : Bitmap) → IsWords b → Moved b (skip b) (skipped b)
skip-Moved b w = elim (Bool-cases (b.bitmap % 2 == 1)) [
  | inl there ↦ rw there (shifted b (trailing_zeros 32 (not32 b.bitmap)) w)
  | inr missing ↦ rw missing (unmoved b w)
]

not-false : (b : Bool) → not b ≡ false → b ≡ true
not-false true h = refl
not-false false h = sym h

-- What is skipped is there.
skipped-set : (b : Bitmap) (k : ℕ) → IsWords b → k < skipped b → has_bit b.bitmap k ≡ true
skipped-set b k w h = elim (Bool-cases (b.bitmap % 2 == 1)) [
  | inl there ↦
      let below : k < trailing_zeros 32 (not32 b.bitmap) = rw there at h in
      let clear = trailing_zeros-clear 32 (not32 b.bitmap) k below in
      let flip =
        has_bit-complement 32 b.bitmap k w.bitmap_word
          (omega (arith, trailing_zeros-le 32 (not32 b.bitmap))) in
      not-false (has_bit b.bitmap k) (sym flip ∙ clear)
  | inr missing ↦ let none_below : k < 0 = rw missing at h in elim none_below [ ]
]

skipped-le : (b : Bitmap) → skipped b ≤ 32
skipped-le b = ground (arith, trailing_zeros-le 32 (not32 b.bitmap))

-- The bit that `set` adds, for a packet `d` after the start of a window that has moved by `o`.
mark_bit :
    (first o d k : ℕ)
    → first < 2 ^ 16
    → d < 2 ^ 15
    → o < 2 ^ 15 + 64
    → d < o + 32
    → has_bit (shl32 1 (sub16 (u16 (first + d)) (u16 (first + o)))) k ≡ (k + o == d)
mark_bit first o d k hf hd ho near = elim (Bool-cases (leb o d)) [
  | inl behind ↦
      let e : sub16 (u16 (first + d)) (u16 (first + o)) ≡ d - o = ground arith in
      let below : ltb (d - o) 32 ≡ true = ground arith in
      let word : u32 (1 * 2 ^ (d - o)) ≡ 2 ^ (d - o) =
        omega (arith, pow-lt-u32 (d - o) (ground arith)) in
      rw (e, below, word) (has_bit-pow (d - o) k ∙ ground arith)
  | inr past ↦
      let e : ltb (sub16 (u16 (first + d)) (u16 (first + o))) 32 ≡ false = ground arith in
      rw e (has_bit-zero k ∙ ground arith)
]

-- The bits of the window after `set`, against those before it.
pub record Updated (b : Bitmap) (seqno : ℕ) (b' : Bitmap) : Type 0 where
  pub offset : ℕ
  pub valid_still : b'.valid ≡ true
  pub words : IsWords b'
  pub first_is : b'.first ≡ u16 (b.first + offset)
  pub bits :
      (k : ℕ)
      → has_bit b'.bitmap k ≡ (has_bit b.bitmap (k + offset) || (k + offset == sub16 seqno b.first))
  pub left_out :
      (k : ℕ) → (offset ≤ k) ⊎ ((has_bit b.bitmap k ≡ true) ⊎ (k + 32 ≤ sub16 seqno b.first))

set_bit-unfold :
    (b : Bitmap) (seqno : ℕ)
    → b.valid ≡ true
    → seqno_invalid seqno b.first ≡ false
    → is_gt (compare16 b.first seqno) ≡ false
    → set_bit b seqno ≡ mark (skip (slide b seqno)) seqno
unfolding set_bit
set_bit-unfold b seqno hv hi hg = rw (hv, hi, hg) refl

distance-lt :
    (first seqno : ℕ)
    → first < 2 ^ 16
    → seqno < 2 ^ 16
    → is_gt (compare16 first seqno) ≡ false
    → sub16 seqno first < 2 ^ 15
unfolding compare16
distance-lt first seqno hf hs h = ground arith

shl32_word : (k : ℕ) → shl32 1 k < 2 ^ 32
shl32_word k = ground arith

-- A packet that is not behind the window is marked in it; every packet still in the window keeps
-- its mark; and a packet leaves the window only if it was there, or is 32 or more behind.
pub set_bit-Updated :
    (b : Bitmap) (seqno : ℕ)
    → IsWords b
    → b.valid ≡ true
    → seqno < 2 ^ 16
    → seqno_invalid seqno b.first ≡ false
    → is_gt (compare16 b.first seqno) ≡ false
    → Updated b seqno (set_bit b seqno)
set_bit-Updated b seqno w hv hs hi hg = rw (set_bit-unfold b seqno hv hi hg) (record {
  offset = o;
  valid_still = m.valid_is ∙ hv;
  words = record {
    first_word = m.words.first_word;
    bitmap_word = bit_or-lt 32 (skip b₁).bitmap _ m.words.bitmap_word (shl32_word _);
  };
  first_is = m.first_is;
  bits = λ k. has_bit-bit_or k (skip b₁).bitmap _ ∙ ap₂ ◌||◌ (m.bits k) (marked k);
  left_out = left;
})
  where
    d : ℕ
    d = sub16 seqno b.first

    b₁ : Bitmap
    b₁ = slide b seqno

    o : ℕ
    o = slid d + skipped b₁

    m₁ : Moved b b₁ (slid d)
    m₁ = slide-Moved b seqno w

    m : Moved b (skip b₁) o
    m = Moved-trans b b₁ (skip b₁) (slid d) (skipped b₁) m₁ (skip-Moved b₁ m₁.words)

    d_lt : d < 2 ^ 15
    d_lt = distance-lt b.first seqno w.first_word hs hg

    slid_le : slid d ≤ d
    slid_le = ground arith

    reach : d < slid d + 32
    reach = ground arith

    marked : (k : ℕ) → has_bit (shl32 1 (sub16 seqno (skip b₁).first)) k ≡ (k + o == d)
    marked k =
        let back : seqno ≡ u16 (b.first + d) = omega (arith, w.first_word, hs) in
        let low : o < 2 ^ 15 + 64 = omega (arith, slid_le, d_lt, skipped-le b₁) in
        ap₂ (λ (s f : ℕ). has_bit (shl32 1 (sub16 s f)) k) back m.first_is
        ∙ mark_bit b.first o d k w.first_word d_lt low (omega (arith, reach))

    gone : (k : ℕ) → k < o → (has_bit b.bitmap k ≡ true) ⊎ (k + 32 ≤ d)
    gone k hk = elim (Bool-cases (ltb k (slid d))) [
      | inl out ↦ inr (ground arith)
      | inr later ↦
          let e : k - slid d + slid d ≡ k = ground arith in
          let there = skipped-set b₁ (k - slid d) m₁.words (ground (arith, hk)) in
          inl (sym (m₁.bits (k - slid d) ∙ ap (has_bit b.bitmap) e) ∙ there)
    ]

    left : (k : ℕ) → (o ≤ k) ⊎ ((has_bit b.bitmap k ≡ true) ⊎ (k + 32 ≤ d))
    left k = elim (dec_lt k o) [ yes hk ↦ inr (gone k hk) | no hk ↦ inl (omega arith) ]
