-- ===== src/Codecs/Keyframe/Total.antt =====
-- `Keyframe` of codecs/codecs.go on any payload.
use galene.Base.Word.{has_bit, shr, low_bits}
use galene.Base.{
  Returns-branch, reads, ℕ, zero, suc, ◌+◌, ◌*◌, ◌^◌, ◌≤◌, ◌<◌, ◌≡◌, inl, inr, Bool, true, false,
  not, ◌&&◌, ◌||◌, Option, some, List, arith, if◌then◌else◌, ltb, leb, ◌==◌, length, drop,
  Bool-cases, Returns, Returns->>=, length-drop,
}
use galene.Codecs.Flags.{Codec, vp8, vp9, av1, h264, other, Parsers}
use galene.Codecs.Keyframe.{
  unknown, obu_length, get_obu, av1_units, frame_header, av1_keyframe, h264_units, h264_keyframe,
  keyframe,
}

-- The call returns.
abbrev pub Total {ℓ} : {A : Type ℓ} → Option A → Type 0
Total o = Returns (λ _. Unit) o

obu_length-Total :
    (fuel : ℕ) (buf : List ℕ) (offset len : ℕ)
    → 4 < fuel + offset
    → offset ≤ 4
    → offset ≤ length buf
    → Returns (λ (r : (Bool × ℕ) × ℕ). r.1 ≤ length buf) (obu_length fuel buf offset len)
unfolding obu_length
obu_length-Total zero buf offset len h g k = absurd (omega arith)
obu_length-Total (suc fuel) buf offset len h g k = elim (Bool-cases (leb (length buf) offset)) [
  | inl e ↦ rw e k
  | inr e ↦ elim (Bool-cases (leb 4 offset)) [
    | inl f ↦ rw (e, f) k
    | inr f ↦
        let inside : offset < length buf = ground arith in
        let few : offset < 4 = ground arith in
        rw (e, f)
          (reads (λ r. r.1 ≤ length buf) buf offset _ inside
            (λ l. elim (Bool-cases (has_bit l 7)) [
              | inl m ↦ rw m (
                  obu_length-Total fuel buf (offset + 1) (len + low_bits l 7 * 2 ^ (offset * 7))
                    (omega arith) (omega arith) (omega arith))
              | inr m ↦ rw m (omega arith)
            ]))
  ]
]

-- A unit does not take more bytes than there are.
get_obu-Total :
    (buf : List ℕ) (last : Bool)
    → Returns (λ (r : (List ℕ × ℕ) × Bool). r.0.1 ≤ length buf) (get_obu buf last)
unfolding get_obu
get_obu-Total buf true = omega arith
get_obu-Total buf false =
    Returns->>= (λ (r : (Bool × ℕ) × ℕ). r.1 ≤ length buf)
      (λ (r : (List ℕ × ℕ) × Bool). r.0.1 ≤ length buf) (obu_length 5 buf 0 0) _
      (obu_length-Total 5 buf 0 0 (omega arith) (omega arith) (omega arith))
      (λ ((cut, len), offset) h. elim (Bool-cases cut) [
        | inl c ↦ rw c h
        | inr c ↦ elim (Bool-cases (ltb (length buf) (offset + len))) [
          | inl l ↦ rw (c, l) (omega arith)
          | inr l ↦ rw (c, l) (ground arith)
        ]
      ])

frame_header-Total : (obu : List ℕ) → Total (frame_header obu)
frame_header-Total obu = elim (Bool-cases (ltb (length obu) 2)) [
  | inl e ↦ rw e tt
  | inr e ↦ rw e (
      reads (λ _. Unit) obu 1 _ (ground arith)
        (λ b. elim (Bool-cases (has_bit b 7)) [ inl m ↦ rw m tt | inr m ↦ rw m tt ]))
]

av1_units-Total :
    (fuel : ℕ) (payload : List ℕ) (w i offset : ℕ)
    → w < fuel + i
    → i ≤ w
    → offset ≤ length payload
    → Total (av1_units fuel payload w i offset)
unfolding av1_units
av1_units-Total zero payload w i offset h g k = absurd (omega arith)
av1_units-Total (suc fuel) payload w i offset h g k =
    let here : leb offset (length payload) ≡ true = ground arith in
    let left = length-drop offset payload in
    rw here (
      Returns->>= (λ (r : (List ℕ × ℕ) × Bool). r.0.1 ≤ length (drop offset payload)) (λ _. Unit)
        (get_obu (drop offset payload) (w == i + 1)) _
        (get_obu-Total (drop offset payload) (w == i + 1))
        (λ ((obu, len), truncated) b.
          let more : Total (
              if truncated || leb w i
              then some unknown
              else av1_units fuel payload w (i + 1) (offset + len)) =
            Returns-branch (λ _. Unit) (truncated || leb w i) _ _ (λ _. tt)
              (λ e.
                let less : i < w = ground arith in
                av1_units-Total fuel payload w (i + 1) (offset + len) (omega arith) (omega arith)
                  (omega arith)) in
          Returns-branch (λ _. Unit) (ltb (length obu) 1) _ _ (λ _. tt)
            (λ e.
              reads (λ _. Unit) obu 0 _ (ground arith)
                (λ c.
                  Returns-branch (λ _. Unit) (i == 0) _ _
                    (λ _.
                      Returns-branch (λ _. Unit) (not (low_bits (shr c 3) 3 == 1)) _ _ (λ _. tt)
                        (λ _. more))
                    (λ _.
                      Returns-branch (λ _. Unit)
                        (low_bits (shr c 3) 3 == 3 || low_bits (shr c 3) 3 == 6) _ _
                        (λ _. frame_header-Total obu) (λ _. more))))))

av1_keyframe-Total : (payload : List ℕ) → Total (av1_keyframe payload)
unfolding av1_keyframe
av1_keyframe-Total payload =
    Returns-branch (λ _. Unit) (ltb (length payload) 2) _ _ (λ _. tt)
      (λ e.
        reads (λ _. Unit) payload 0 _ (ground arith)
          (λ b.
            Returns-branch (λ _. Unit) (not (not (has_bit b 7) && has_bit b 3)) _ _ (λ _. tt)
              (λ _.
                av1_units-Total 4 payload (low_bits (shr b 4) 2) 0 1 (omega arith) (omega arith)
                  (ground arith))))

h264_units-Total :
    (fuel : ℕ) (payload : List ℕ) (skip i : ℕ)
    → length payload < fuel + i
    → 0 < fuel
    → Total (h264_units fuel payload skip i)
unfolding h264_units
h264_units-Total zero payload skip i h g = absurd (omega arith)
h264_units-Total (suc fuel) payload skip i h g =
    Returns-branch (λ _. Unit) (ltb i (length payload)) _ _
      (λ _.
        Returns-branch (λ _. Unit) (ltb (length payload) (i + 2)) _ _ (λ _. tt)
          (λ e.
            reads (λ _. Unit) payload i _ (ground arith)
              (λ high.
                reads (λ _. Unit) payload (i + 1) _ (ground arith)
                  (λ low.
                    let len = high * 2 ^ 8 + low in
                    Returns-branch (λ _. Unit) (ltb (length payload) (i + 2 + len)) _ _ (λ _. tt)
                      (λ f.
                        Returns-branch (λ _. Unit) (leb len skip) _ _ (λ _. tt)
                          (λ k.
                            reads (λ _. Unit) payload (i + 2 + skip) _ (ground arith)
                              (λ b.
                                Returns-branch (λ _. Unit) (low_bits b 5 == 7) _ _ (λ _. tt)
                                  (λ _.
                                    Returns-branch (λ _. Unit) (leb 24 (low_bits b 5)) _ _ (λ _. tt)
                                      (λ _.
                                        let within : i + 2 + len ≤ length payload = ground arith in
                                        h264_units-Total fuel payload skip (i + 2 + len)
                                          (omega arith) (omega arith))))))))))
      (λ _. Returns-branch (λ _. Unit) (i == length payload) _ _ (λ _. tt) (λ _. tt))

h264_keyframe-Total : (payload : List ℕ) → Total (h264_keyframe payload)
unfolding h264_keyframe
h264_keyframe-Total payload =
    Returns-branch (λ _. Unit) (ltb (length payload) 1) _ _ (λ _. tt)
      (λ e.
        reads (λ _. Unit) payload 0 _ (ground arith)
          (λ b.
            Returns-branch (λ _. Unit) (low_bits b 5 == 0) _ _ (λ _. tt)
              (λ _.
                Returns-branch (λ _. Unit) (leb (low_bits b 5) 23) _ _ (λ _. tt)
                  (λ _.
                    Returns-branch (λ _. Unit) (leb (low_bits b 5) 27) _ _
                      (λ _.
                        h264_units-Total (length payload + 1) payload _ _ (omega arith)
                          (omega arith))
                      (λ _.
                        Returns-branch (λ _. Unit) (leb (low_bits b 5) 29) _ _
                          (λ _.
                            Returns-branch (λ _. Unit) (ltb (length payload) 2) _ _ (λ _. tt)
                              (λ f.
                                reads (λ _. Unit) payload 1 _ (ground arith)
                                  (λ c.
                                    Returns-branch (λ _. Unit) (has_bit c 7) _ _ (λ _. tt)
                                      (λ _. tt))))
                          (λ _. tt))))))

-- `Keyframe` returns for every payload, whatever the codec: its loops end, with the fuel of the model,
-- and no byte is read outside the payload.
pub keyframe-Total :
    (p : Parsers) (codec : Codec) (payload : List ℕ) → Total (keyframe p codec payload)
unfolding keyframe
keyframe-Total p vp8 payload = tt
keyframe-Total p vp9 payload = tt
keyframe-Total p av1 payload = av1_keyframe-Total payload
keyframe-Total p h264 payload = h264_keyframe-Total payload
keyframe-Total p other payload = tt
