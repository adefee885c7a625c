-- ===== src/PacketCache/Nack.antt =====
-- packetcache/packetcache.go: `ToBitmap`, which packs the numbers of lost packets for a NACK.
use galene.Base.{
  sym, ℕ, ◌^◌, ◌≡◌, refl, ap, ◌∙◌, inl, inr, Bool, true, false, ◌||◌, none, some, List, [], ◌∷◌,
  ◌++◌, arith, leb, ◌==◌, if◌then◌else◌, Bool-cases,
}
use galene.Base.Word.{sub16, u16, has_bit}
use galene.Base.Bits.{pow-lt-u16, has_bit-bit_or, has_bit-pow, has_bit-zero}
use galene.PacketCache.{bit_or, cover, to_bitmap}

-- How far a number is past the one after `first`: its bit in the bitmap.
abbrev pub bit_index : ℕ → ℕ → ℕ
bit_index first s = sub16 (sub16 s first) 1

-- The longest prefix of numbers that a bitmap of 16 bits can hold.
abbrev pub near : ℕ → List ℕ → List ℕ
near first [] = []
near first (s ∷ ss) = if leb 16 (bit_index first s) then [] else s ∷ near first ss

-- Whether one of the numbers has the bit `k`.
abbrev pub marked : ℕ → List ℕ → ℕ → Bool
marked first [] k = false
marked first (s ∷ ss) k = (bit_index first s == k) || marked first ss k

or-false : (b : Bool) → (b || false) ≡ b
or-false true = refl
or-false false = refl

or_assoc : (a b c : Bool) → ((a || b) || c) ≡ (a || (b || c))
or_assoc true b c = refl
or_assoc false b c = refl

cover_lem :
    (first bm : ℕ) (xs : List ℕ) (k : ℕ)
    → let (bm', remain) = cover first bm xs in
      (xs ≡ near first xs ++ remain)
      × (has_bit bm' k ≡ (has_bit bm k || marked first (near first xs) k))
unfolding cover
cover_lem first bm [] k = (refl, sym (or-false (has_bit bm k)))
cover_lem first bm (s ∷ ss) k =
    let d = bit_index first s in
    elim (Bool-cases (leb 16 d)) [
      | inl far ↦ rw far (refl, sym (or-false (has_bit bm k)))
      | inr close ↦
          let (split, bits) = cover_lem first (bit_or bm (u16 (2 ^ d))) ss k in
          let small : u16 (2 ^ d) ≡ 2 ^ d = omega (arith, pow-lt-u16 d (ground arith)) in
          let added : has_bit (bit_or bm (u16 (2 ^ d))) k ≡ (has_bit bm k || (d == k)) =
            has_bit-bit_or k bm (u16 (2 ^ d))
            ∙ ap (λ b. has_bit bm k || b) (ap (λ (t : ℕ). has_bit t k) small ∙ has_bit-pow d k) in
          rw close (
            ap (◌∷◌ s) split,
            bits
                ∙ (ap (λ b. b || marked first (near first ss) k) added
                    ∙ or_assoc (has_bit bm k) (d == k) _),
          )
    ]

-- `ToBitmap` covers the longest prefix of the list whose numbers are at most 16 past the first,
-- returns the rest of the list, and sets in its bitmap exactly the bits of the numbers it covers.
pub to_bitmap_lem :
    (first : ℕ) (xs : List ℕ) (bm k : ℕ) (remain : List ℕ)
    → to_bitmap (first ∷ xs) ≡ some (first, bm, remain)
    → (xs ≡ near first xs ++ remain) × (has_bit bm k ≡ marked first (near first xs) k)
unfolding to_bitmap
to_bitmap_lem first xs bm k remain e = ground (arith, cover_lem first 0 xs k, has_bit-zero k)

pub to_bitmap-some :
    (first : ℕ) (xs : List ℕ)
    → (bm : ℕ) × (remain : List ℕ) × (to_bitmap (first ∷ xs) ≡ some (first, bm, remain))
unfolding to_bitmap
to_bitmap-some first xs = ((cover first 0 xs).0, (cover first 0 xs).1, refl)

pub to_bitmap-none : to_bitmap [] ≡ none
unfolding to_bitmap
to_bitmap-none = refl
