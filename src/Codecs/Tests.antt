-- ===== src/Codecs/Tests.antt =====
-- The theorems about codecs/codecs.go at short packets.
use galene.Base.{ℕ, ◌≡◌, refl, true, false, none, List, [], ◌∷◌, arith, Returns, replicate, ◌++◌}
use galene.Codecs.{rewrite_packet}
use galene.Codecs.Header.{Carries, rewrite_packet-Carries, rewrite_packet_panics}

-- A VP8 packet whose picture id is 5.
abbrev picture : List ℕ
picture = 128 ∷ replicate 11 0 ++ 128 ∷ 128 ∷ 5 ∷ 0 ∷ []

-- A packet whose header extension is cut off after one byte.
abbrev cut_off : List ℕ
cut_off = 144 ∷ replicate 12 0

rewrite_packet-Carries_example :
    Returns (λ r. Carries 16 700 r.0) (rewrite_packet true picture true 700 9)
rewrite_packet-Carries_example =
    rewrite_packet-Carries true picture true 700 9 128 (omega arith) refl refl

rewrite_packet_panics_example : rewrite_packet true cut_off false 700 9 ≡ none
rewrite_packet_panics_example =
    rewrite_packet_panics true cut_off false 700 9 144 (omega arith) refl refl
      (λ e. absurd (omega arith))
