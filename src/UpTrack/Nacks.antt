-- ===== src/UpTrack/Nacks.antt =====
-- Which packets a NACK to the sender asks for.
use galene.Base.{
  length-append, ℕ, zero, suc, ◌^◌, ◌≤◌, ◌<◌, ◌≡◌, refl, sym, ap, ◌∙◌, Bool, true, false, not, ◌&&◌,
  ◌||◌, Option, none, some, List, [], ◌∷◌, ◌++◌, arith, length, ltb, ◌==◌, All,
}
use galene.Base.Word.{has_bit}
use galene.PacketCache
use galene.PacketCache.{Cache, to_bitmap, cover}
use galene.PacketCache.Nack.{bit_index, near, marked, to_bitmap_lem, to_bitmap-some, to_bitmap-none}
use galene.UpTrack.{UpTrack, nack_pairs, includes, is_before}

-- The packets that a pair stands for: the first, and the one `k + 1` later for each bit `k`.
abbrev pub asks : List (ℕ × ℕ) → ℕ → Bool
asks [] n = false
asks ((first, bitmap) ∷ pairs) n =
    ((first == n) || has_bit bitmap (bit_index first n)) || asks pairs n

pub includes-append :
    (xs ys : List ℕ) (n : ℕ) → includes (xs ++ ys) n ≡ (includes xs n || includes ys n)
includes-append [] ys n = refl
includes-append (x ∷ xs) ys n = ground (arith, includes-append xs ys n)

bit_index_cancel :
    (first s n : ℕ)
    → first < 2 ^ 16
    → s < 2 ^ 16
    → n < 2 ^ 16
    → (bit_index first s == bit_index first n) ≡ (s == n)
bit_index_cancel first s n hf hs hn = ground arith

marked-includes :
    (first n : ℕ) (xs : List ℕ)
    → first < 2 ^ 16
    → n < 2 ^ 16
    → All (λ s. s < 2 ^ 16) xs
    → marked first xs (bit_index first n) ≡ includes xs n
marked-includes first n [] hf hn w = refl
marked-includes first n (s ∷ ss) hf hn (hs, w) =
    rw (bit_index_cancel first s n hf hs hn, marked-includes first n ss hf hn w) refl

All-rest : (P : ℕ → Type 0) (xs ys : List ℕ) → All P (xs ++ ys) → All P xs × All P ys
All-rest P [] ys h = (tt, h)
All-rest P (x ∷ xs) ys (p, h) = let (a, b) = All-rest P xs ys h in ((p, a), b)

or_assoc : (a b c : Bool) → ((a || b) || c) ≡ (a || (b || c))
or_assoc true b c = refl
or_assoc false b c = refl

-- A NACK asks for the packets of the list and no other, if the list is not too long.
pub nack_pairs-asks :
    (k : ℕ) (xs : List ℕ) (n : ℕ)
    → length xs ≤ k
    → All (λ s. s < 2 ^ 16) xs
    → n < 2 ^ 16
    → asks (nack_pairs k xs) n ≡ includes xs n
unfolding nack_pairs
nack_pairs-asks zero [] n h w hn = refl
nack_pairs-asks zero (x ∷ xs) n h w hn = absurd (omega arith)
nack_pairs-asks (suc k) [] n h w hn = rw (to_bitmap-none, asks) refl
nack_pairs-asks (suc k) (first ∷ xs) n h (hf, w) hn =
    let (bm, rest, e) = to_bitmap-some first xs in
    let (split, _) = to_bitmap_lem first xs bm 0 rest e in
    let bits = to_bitmap_lem first xs bm (bit_index first n) rest e in
    let close = near first xs in
    let both : All (λ s. s < 2 ^ 16) close × All (λ s. s < 2 ^ 16) rest =
      All-rest (λ s. s < 2 ^ 16) close rest (rw (sym split) w) in
    let shorter : length rest ≤ k = omega (arith, length-append close rest, ap length split) in
    let recur = nack_pairs-asks k rest n shorter both.1 hn in
    let found = bits.1 ∙ marked-includes first n close hf hn both.0 in
    rw (e, asks)
      (ap (λ b. ((first == n) || b) || asks (nack_pairs k rest) n) found
        ∙ (ap (λ b. ((first == n) || includes close n) || b) recur
            ∙ or_assoc (first == n) (includes close n) (includes rest n)
            ∙ ap (λ b. (first == n) || b)
                (sym (includes-append close rest n)
                  ∙ ap (λ (l : List ℕ). includes l n) (sym split))))

abbrev pub has_size : Option (List ℕ × ℕ) → Bool
has_size none = false
has_size (some (out, l)) = ltb 0 l

abbrev pub is_cached : Cache → ℕ → Bool
is_cached c n = has_size (PacketCache.get c n [])

-- What `nackWriter` still asks for.
abbrev pub wanted : Cache → ℕ → ℕ → Bool
wanted c cutoff n = not (is_before cutoff n) && not (is_cached c n)

-- Whether one of the NACKs that were sent asks for the packet.
abbrev pub was_asked : List (List (ℕ × ℕ)) → ℕ → Bool
was_asked [] n = false
was_asked (pairs ∷ sent) n = asks pairs n || was_asked sent n
