-- ===== src/Base/Bits.antt =====
-- Laws of `|` at variables, and of single bits.
use Prim.Native.Nat.{max, digits, bit_or, bit_or-bitwise}
use native.Mathlib.Nat.{pow-succ', pow-le-pow_right, div-div-eq-div-mul}
use galene.Base.Tests.{◌==◌}
use galene.Base.Word.{has_bit, shr}
use Prim.Native.Nat.{ℕ, zero, suc, ◌+◌, ◌-◌, ◌*◌, ◌/◌, ◌%◌, ◌^◌, ◌≤◌, ◌<◌}
use mathlib.Core.Path.{◌≡◌, refl, ap, ap₂, ◌∙◌, sym}
use mathlib.Core.Bool.{false, not, ◌||◌}
use native.Mathlib.Omega.{arith}

-- One more round of the native recursion changes nothing once all digits are read.
spare_round :
    (rounds y x : ℕ)
    → x ≤ rounds
    → digits (λ d. d) max (suc rounds) x y ≡ digits (λ d. d) max rounds x y
spare_round zero y zero enough = refl
spare_round zero y (suc x) enough = elim enough [ ]
spare_round (suc r) y zero enough = refl
spare_round (suc r) y (suc x) enough =
    ap (λ (high : ℕ). high * 2 + max (suc x % 2) (y % 2))
      (spare_round r (y / 2) (suc x / 2) (omega arith))

spare_rounds :
    (spare rounds all y x : ℕ)
    → rounds + spare ≡ all
    → x ≤ rounds
    → digits (λ d. d) max all x y ≡ digits (λ d. d) max rounds x y
spare_rounds zero rounds all y x e enough = ap (λ (r : ℕ). digits (λ d. d) max r x y) (omega arith)
spare_rounds (suc s) rounds zero y x e enough = absurd (omega arith)
spare_rounds (suc s) rounds (suc all) y x e enough =
    spare_round all y x (omega arith) ∙ spare_rounds s rounds all y x (omega arith) enough

-- The lowest digit of `|`, and the rest.
pub bit_or_step : (x y : ℕ) → bit_or x y ≡ bit_or (x / 2) (y / 2) * 2 + max (x % 2) (y % 2)
bit_or_step zero y = omega (arith, bit_or-bitwise zero y, bit_or-bitwise zero (y / 2))
bit_or_step (suc x) y =
    let half = suc x / 2 in
    let rest : digits (λ d. d) max x half (y / 2) ≡ digits (λ d. d) max half half (y / 2) =
      spare_rounds (x - half) half x (y / 2) half (omega arith) (omega arith) in
    omega (arith, bit_or-bitwise (suc x) y, bit_or-bitwise half (y / 2), rest)

-- The bit k + 1 of x is the bit k of x / 2.
pub has_bit-suc : (x k : ℕ) → has_bit x (suc k) ≡ has_bit (x / 2) k
has_bit-suc x k =
    ap (λ (t : ℕ). t % 2 == 1)
      (ap (λ (t : ℕ). x / t) (pow-succ' 2 k) ∙ sym (div-div-eq-div-mul x 2 (2 ^ k)))

-- A bit of `a | b` is set when it is set in one of them.
pub has_bit-bit_or : (k a b : ℕ) → has_bit (bit_or a b) k ≡ (has_bit a k || has_bit b k)
has_bit-bit_or zero a b = ground (arith, bit_or_step a b)
has_bit-bit_or (suc k) a b =
    let halves : bit_or a b / 2 ≡ bit_or (a / 2) (b / 2) = omega (arith, bit_or_step a b) in
    has_bit-suc (bit_or a b) k
    ∙ ap (λ (t : ℕ). has_bit t k) halves
    ∙ has_bit-bit_or k (a / 2) (b / 2)
    ∙ sym (ap₂ ◌||◌ (has_bit-suc a k) (has_bit-suc b k))

-- Setting a bit above the others adds it.
pub bit_or_above : (k r : ℕ) → r < 2 ^ k → bit_or r (2 ^ k) ≡ r + 2 ^ k
bit_or_above zero r h = let e : r ≡ 0 = omega arith in rw e refl
bit_or_above (suc k) r h = omega (
  arith,
  bit_or_step r (2 ^ suc k),
  pow-succ' 2 k,
  bit_or_above k (r / 2) (omega (arith, pow-succ' 2 k)),
  ap (λ (t : ℕ). bit_or (r / 2) t) half,
)
  where
    half : 2 ^ suc k / 2 ≡ 2 ^ k
    half = omega (arith, pow-succ' 2 k)

pub has_bit-zero : (k : ℕ) → has_bit 0 k ≡ false
has_bit-zero zero = refl
has_bit-zero (suc k) = has_bit-suc 0 k ∙ has_bit-zero k

-- A power of two has one bit.
pub has_bit-pow : (d k : ℕ) → has_bit (2 ^ d) k ≡ (d == k)
has_bit-pow zero zero = refl
has_bit-pow zero (suc k) = has_bit-suc 1 k ∙ (has_bit-zero k ∙ ground arith)
has_bit-pow (suc d) zero = ground (arith, pow-succ' 2 d)
has_bit-pow (suc d) (suc k) =
    let half : 2 ^ suc d / 2 ≡ 2 ^ d = omega (arith, pow-succ' 2 d) in
    has_bit-suc (2 ^ suc d) k
    ∙ (ap (λ (t : ℕ). has_bit t k) half ∙ (has_bit-pow d k ∙ ground arith))

-- `1 << d` fits a uint16.
pub pow-lt-u16 : (d : ℕ) → d < 16 → 2 ^ d < 2 ^ 16
pow-lt-u16 d h =
    omega (arith, pow-le-pow_right {n = 2} (omega arith) {i = d} {j = 15} (omega arith))

-- A shift to the right moves the bits down.
pub has_bit-shr : (o x k : ℕ) → has_bit (shr x o) k ≡ has_bit x (k + o)
has_bit-shr zero x k = ap (λ (t : ℕ). has_bit t k) (omega arith) ∙ ap (has_bit x) (omega arith)
has_bit-shr (suc o) x k =
    let e : x / 2 ^ suc o ≡ x / 2 / 2 ^ o =
      ap (λ (t : ℕ). x / t) (pow-succ' 2 o) ∙ sym (div-div-eq-div-mul x 2 (2 ^ o)) in
    let f : suc (k + o) ≡ k + suc o = omega arith in
    ap (λ (t : ℕ). has_bit t k) e
    ∙ (has_bit-shr o (x / 2) k ∙ (sym (has_bit-suc x (k + o)) ∙ ap (has_bit x) f))

-- The complement within a width flips the bits below the width.
pub has_bit-complement :
    (w x k : ℕ) → x < 2 ^ w → k < w → has_bit (2 ^ w - 1 - x) k ≡ not (has_bit x k)
has_bit-complement zero x k h hk = elim hk [ ]
has_bit-complement (suc w) x zero h hk = ground (arith, pow-succ' 2 w)
has_bit-complement (suc w) x (suc k) h hk =
    let halves : (2 ^ suc w - 1 - x) / 2 ≡ 2 ^ w - 1 - x / 2 = omega (arith, pow-succ' 2 w) in
    has_bit-suc (2 ^ suc w - 1 - x) k
    ∙ (ap (λ (t : ℕ). has_bit t k) halves
        ∙ (has_bit-complement w (x / 2) k (omega (arith, pow-succ' 2 w)) (omega arith)
            ∙ ap not (sym (has_bit-suc x k))))

-- A number below 2 ^ w has no bit from w on.
pub has_bit-above : (w x k : ℕ) → x < 2 ^ w → w ≤ k → has_bit x k ≡ false
has_bit-above zero x k h hk = ap (λ (t : ℕ). has_bit t k) (omega arith) ∙ has_bit-zero k
has_bit-above (suc w) x zero h hk = elim hk [ ]
has_bit-above (suc w) x (suc k) h hk =
    has_bit-suc x k ∙ has_bit-above w (x / 2) k (omega (arith, pow-succ' 2 w)) (omega arith)

-- `1 << d` fits a uint32.
pub pow-lt-u32 : (d : ℕ) → d < 32 → 2 ^ d < 2 ^ 32
pow-lt-u32 d h =
    omega (arith, pow-le-pow_right {n = 2} (omega arith) {i = d} {j = 31} (omega arith))

pub bit_or-lt : (w a b : ℕ) → a < 2 ^ w → b < 2 ^ w → bit_or a b < 2 ^ w
bit_or-lt zero a b ha hb = omega (arith, ap₂ bit_or (lt-one a ha) (lt-one b hb))
  where
    lt-one : (x : ℕ) → x < 2 ^ 0 → x ≡ 0
    lt-one x h = omega arith
bit_or-lt (suc w) a b ha hb = omega (
  arith,
  bit_or_step a b,
  pow-succ' 2 w,
  bit_or-lt w (a / 2) (b / 2) (omega (arith, pow-succ' 2 w)) (omega (arith, pow-succ' 2 w)),
)
