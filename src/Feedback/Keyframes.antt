-- ===== src/Feedback/Keyframes.antt =====
-- Which requests for a keyframe are passed on to the sender.
use mathlib.Core.Path.{subst}
use galene.Base.{
  Bool-cases, inl, inr, Returns->>=, ℕ, ◌+◌, ◌≡◌, refl, sym, ◌∙◌, Bool, some, List, [], ◌∷◌, arith,
  ◌==◌, if◌then◌else◌, Returns,
}
use galene.Codecs.Flags.{Codec, Parsers}
use galene.Feedback.{
  Receiver, Packet, full_intra, find_entry, full_intra_asked, handle_packet, handle_packets,
}

-- Requests with these numbers for the track, one packet each.
abbrev pub requests_for : ℕ → List ℕ → List Packet
requests_for ssrc [] = []
requests_for ssrc (n ∷ ns) = full_intra ((ssrc, n) ∷ []) ∷ requests_for ssrc ns

-- How many of the numbers are not 0.
abbrev pub count_other : List ℕ → ℕ
count_other [] = 0
count_other (n ∷ ns) = if n == 0 then count_other ns else count_other ns + 1

find_entry-here : (ssrc n s : ℕ) → s ≡ ssrc → find_entry ((ssrc, n) ∷ []) s ≡ some n
unfolding find_entry
find_entry-here ssrc n s e = ground arith

-- What one request does to the count of requests, and that it leaves the SSRC alone.
asked-one :
    (r : Receiver) (n : ℕ) (ns : List ℕ)
    → let r' = full_intra_asked r (some n) in
      (r'.ssrc ≡ r.ssrc)
      × (r'.down.requests + count_other ns ≡ r.down.requests + count_other (n ∷ ns))
asked-one r n ns = elim (Bool-cases (n == 0)) [
  | inl q ↦ rw q (refl, refl)
  | inr q ↦ rw q (refl, omega arith)
]

requests_for-passed :
    (p : Parsers) (codec : Codec) (r : Receiver) (ssrc : ℕ) (ns : List ℕ) (jiffies clock : ℕ)
    → r.ssrc ≡ ssrc
    → Returns
        (λ x. x.0.down.requests ≡ r.down.requests + count_other ns)
        (handle_packets p codec r (requests_for ssrc ns) jiffies clock)
unfolding handle_packets handle_packet
requests_for-passed p codec r ssrc [] jiffies clock e = omega arith
requests_for-passed p codec r ssrc (n ∷ ns) jiffies clock e =
    let found = find_entry-here ssrc n r.ssrc e in
    let r' = full_intra_asked r (find_entry ((ssrc, n) ∷ []) r.ssrc) in
    let (kept, count) : (r'.ssrc ≡ r.ssrc)
        × (r'.down.requests + count_other ns ≡ r.down.requests + count_other (n ∷ ns)) =
      subst
        (λ o.
          ((full_intra_asked r o).ssrc ≡ r.ssrc)
          × ((full_intra_asked r o).down.requests + count_other ns
              ≡ r.down.requests + count_other (n ∷ ns)))
        (sym found) (asked-one r n ns) in
    Returns->>= (λ (x : Receiver × Bool). x.0.down.requests ≡ r'.down.requests + count_other ns) _
      (handle_packets p codec r' (requests_for ssrc ns) jiffies clock) _
      (requests_for-passed p codec r' ssrc ns jiffies clock (kept ∙ e)) (λ x h. h ∙ count)

-- Requests for a full intra frame, whatever their numbers and the requests before them, are passed
-- on if and only if their number is not 0: a repetition of a request is passed on again, and a new
-- request with the number 0 is not.
pub handle_packets-requests :
    (p : Parsers) (codec : Codec) (r : Receiver) (ns : List ℕ) (jiffies clock : ℕ)
    → Returns
        (λ x. x.0.down.requests ≡ r.down.requests + count_other ns)
        (handle_packets p codec r (requests_for r.ssrc ns) jiffies clock)
handle_packets-requests p codec r ns jiffies clock =
    requests_for-passed p codec r r.ssrc ns jiffies clock refl
