-- ===== src/Base/Slices.antt =====
-- Slices of slices: `take` and `drop` against `++` and one another.
use Prim.Native.Nat.{ℕ, zero, suc, ◌+◌, ◌≤◌, ◌<◌}
use mathlib.Core.Path.{◌≡◌, refl, ap}
use mathlib.Core.List.{List, [], ◌∷◌, ◌++◌}
use mathlib.Core.Option.{Option}
use galene.Base.Tests.{Returns, ◌>>=◌}
use native.Mathlib.Omega.{arith}
use galene.Base.Lists.{length, take, drop, get_elem?, get_elem?-in_range}

module _ {ℓ} {A : Type ℓ} where
  pub drop-append_at : (xs ys : List A) (n : ℕ) → n ≡ length xs → drop n (xs ++ ys) ≡ ys
  drop-append_at [] ys zero e = refl
  drop-append_at [] ys (suc n) e = absurd (omega arith)
  drop-append_at (x ∷ xs) ys zero e = absurd (omega arith)
  drop-append_at (x ∷ xs) ys (suc n) e = drop-append_at xs ys n (omega arith)

  pub take-append_at : (xs ys : List A) (n : ℕ) → n ≡ length xs → take n (xs ++ ys) ≡ xs
  take-append_at [] ys zero e = refl
  take-append_at [] ys (suc n) e = absurd (omega arith)
  take-append_at (x ∷ xs) ys zero e = absurd (omega arith)
  take-append_at (x ∷ xs) ys (suc n) e = ap (◌∷◌ x) (take-append_at xs ys n (omega arith))

  pub drop-append_left :
      (xs ys : List A) (n : ℕ) → n ≤ length xs → drop n (xs ++ ys) ≡ drop n xs ++ ys
  drop-append_left xs ys zero h = refl
  drop-append_left [] ys (suc n) h = elim h [ ]
  drop-append_left (x ∷ xs) ys (suc n) h = drop-append_left xs ys n (omega arith)

  pub drop-append_right :
      (xs ys : List A) (n k : ℕ) → n ≡ length xs + k → drop n (xs ++ ys) ≡ drop k ys
  drop-append_right [] ys n k e = ap (λ t. drop t ys) (omega arith)
  drop-append_right (x ∷ xs) ys zero k e = absurd (omega arith)
  drop-append_right (x ∷ xs) ys (suc n) k e = drop-append_right xs ys n k (omega arith)

  pub drop-drop : (xs : List A) (n k t : ℕ) → n + k ≡ t → drop k (drop n xs) ≡ drop t xs
  drop-drop xs zero k t e = ap (λ s. drop s xs) (omega arith)
  drop-drop [] (suc n) zero zero e = refl
  drop-drop [] (suc n) zero (suc t) e = refl
  drop-drop [] (suc n) (suc k) zero e = refl
  drop-drop [] (suc n) (suc k) (suc t) e = refl
  drop-drop (x ∷ xs) (suc n) k zero e = absurd (omega arith)
  drop-drop (x ∷ xs) (suc n) k (suc t) e = drop-drop xs n k t (omega arith)

  pub drop-take : (xs : List A) (n k t : ℕ) → k + t ≡ n → drop k (take n xs) ≡ take t (drop k xs)
  drop-take xs n zero t e = ap (λ s. take s xs) (omega arith)
  drop-take [] zero (suc k) zero e = refl
  drop-take [] (suc n) (suc k) zero e = refl
  drop-take [] zero (suc k) (suc t) e = refl
  drop-take [] (suc n) (suc k) (suc t) e = refl
  drop-take (x ∷ xs) zero (suc k) t e = absurd (omega arith)
  drop-take (x ∷ xs) (suc n) (suc k) t e = drop-take xs n k t (omega arith)

-- A read in range returns, and the rest of the code goes on with some value.
pub reads {ℓ} :
    {B : Type ℓ} (Q : B → Type 0) (buf : List ℕ) (i : ℕ) (f : ℕ → Option B)
    → i < length buf
    → ((b : ℕ) → Returns Q (f b))
    → Returns Q (get_elem? buf i >>= f)
reads Q buf i f h k = let (b, e) = get_elem?-in_range buf i h in rw e (k b)
