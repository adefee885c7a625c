-- ===== src/Seqno.antt =====
-- Comparison of 16-bit sequence numbers modulo 2^16: `compare` of packetmap/packetmap.go and
-- packetcache/packetcache.go, which are the same text. Its -1, 0 and 1 are `lt`, `eq` and `gt`.
use Prim.Native.Nat.{Ordering}
use galene.Base.{ℕ, ◌^◌, ◌≤◌, ◌<◌, ◌≡◌, Bool, true, false, arith, ◌==◌, if◌then◌else◌}
use galene.Base.Word.{sub16, has_bit}

unfoldable pub compare16 : ℕ → ℕ → Ordering
compare16 s1 s2 =
    if s1 == s2 then Ordering.eq else if has_bit (sub16 s2 s1) 15 then Ordering.gt else Ordering.lt

-- `compare(a, b) <= 0`, `< 0`, `>= 0`, `> 0`
abbrev pub is_le : Ordering → Bool
is_le o = elim o [ Ordering.gt ↦ false | _ ↦ true ]

abbrev pub is_lt : Ordering → Bool
is_lt o = elim o [ Ordering.lt ↦ true | _ ↦ false ]

abbrev pub is_ge : Ordering → Bool
is_ge o = elim o [ Ordering.lt ↦ false | _ ↦ true ]

abbrev pub is_gt : Ordering → Bool
is_gt o = elim o [ Ordering.gt ↦ true | _ ↦ false ]

module _ (a b : ℕ) (ha : a < 2 ^ 16) (hb : b < 2 ^ 16) where
  -- `a` is at or after `b` when fewer than 2^15 steps lead from `b` to `a`.
  pub ge_of_near : sub16 a b < 2 ^ 15 → is_ge (compare16 a b) ≡ true
  unfolding compare16
  ge_of_near h = ground arith

  pub lt_of_far : 2 ^ 15 < sub16 a b → is_ge (compare16 a b) ≡ false
  unfolding compare16
  lt_of_far h = ground arith

  -- Half the circle apart, each number compares greater than the other.
  pub ge_of_opposite : sub16 a b ≡ 2 ^ 15 → is_ge (compare16 a b) ≡ true
  unfolding compare16
  ge_of_opposite h = ground arith

  pub near_of_ge : is_ge (compare16 a b) ≡ true → sub16 a b ≤ 2 ^ 15
  unfolding compare16
  near_of_ge h = ground arith
