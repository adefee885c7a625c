-- ===== src/Codecs/Header.antt =====
-- The header of a packet after `RewritePacket` of codecs/codecs.go.
use galene.Base.Word.{has_bit, shr, low_bits, u8}
use galene.Base.{
  ◌&&◌, inr, inl, ℕ, ◌+◌, ◌*◌, ◌^◌, ◌≤◌, ◌<◌, ◌≡◌, refl, ap, ◌∙◌, ◌≢◌, Bool, true, false, none,
  some, List, arith, if◌then◌else◌, ltb, leb, ◌==◌, length, get_elem?, set, Bool-cases,
  Option-cases, reads, Returns, Returns->>=, Returns-some, get_elem?-in_range, [], ◌∷◌, zero, suc,
  length-set, get_elem?-set_self, get_elem?-set_ne,
}
use galene.Codecs.{write_header, payload_start, shift_pid, rewrite_vp8, rewrite_packet}

-- A packet of length `n` that carries the sequence number.
abbrev pub Carries : ℕ → ℕ → List ℕ → Type 0
Carries n seqno buf =
    (length buf ≡ n) × (get_elem? buf 2 ≡ some (shr seqno 8)) × (get_elem? buf 3 ≡ some (u8 seqno))

Carries-set :
    (n seqno : ℕ) (buf : List ℕ) (i v : ℕ)
    → 3 < i
    → Carries n seqno buf
    → Carries n seqno (set buf i v)
Carries-set n seqno buf i v h (l, e, f) = (
  length-set buf i v ∙ l,
  get_elem?-set_ne buf v (λ q. omega arith) ∙ e,
  get_elem?-set_ne buf v (λ q. omega arith) ∙ f,
)

shift_pid-Carries :
    (n seqno : ℕ) (buf : List ℕ) (offset delta : ℕ)
    → 3 < offset
    → offset < length buf
    → Carries n seqno buf
    → Returns (λ r. Carries n seqno r.0) (shift_pid buf offset delta)
unfolding shift_pid
shift_pid-Carries n seqno buf offset delta h k c =
    reads (λ r. Carries n seqno r.0) buf offset _ k
      (λ high. elim (Bool-cases (has_bit high 7)) [
        | inl m ↦ elim (Bool-cases (leb (length buf) (offset + 1))) [
          | inl e ↦ rw (m, e) c
          | inr e ↦
              rw (m, e)
                (reads (λ r. Carries n seqno r.0) buf (offset + 1) _ (ground arith)
                  (λ low.
                    Carries-set n seqno (set buf offset _) (offset + 1) _ (omega arith)
                      (Carries-set n seqno buf offset _ h c)))
        ]
        | inr m ↦ rw m (Carries-set n seqno buf offset _ h c)
      ])

rewrite_vp8-Carries :
    (n seqno : ℕ) (buf : List ℕ) (offset delta : ℕ)
    → 3 < offset
    → offset < length buf
    → Carries n seqno buf
    → Returns (λ r. Carries n seqno r.0) (rewrite_vp8 buf offset delta)
unfolding rewrite_vp8
rewrite_vp8-Carries n seqno buf offset delta h k c =
    reads (λ r. Carries n seqno r.0) buf offset _ k
      (λ x. elim (Bool-cases (has_bit x 7)) [
        | inl m ↦ elim (Bool-cases (leb (length buf) (offset + 1))) [
          | inl e ↦ rw (m, e) c
          | inr e ↦
              rw (m, e)
                (reads (λ r. Carries n seqno r.0) buf (offset + 1) _ (ground arith)
                  (λ i. elim (Bool-cases (has_bit i 7)) [
                    | inl o ↦ elim (Bool-cases (leb (length buf) (offset + 2))) [
                      | inl q ↦ rw (o, q) c
                      | inr q ↦
                          rw (o, q)
                            (shift_pid-Carries n seqno buf (offset + 2) delta (omega arith)
                              (ground arith) c)
                    ]
                    | inr o ↦ rw o c
                  ]))
        ]
        | inr m ↦ rw m c
      ])

-- The two bytes of the number, written over.
overwritten-Carries :
    (n seqno : ℕ) (buf : List ℕ)
    → 12 ≤ n
    → length buf ≡ n
    → Carries n seqno (set (set buf 2 (shr seqno 8)) 3 (u8 seqno))
overwritten-Carries n seqno buf h l =
    let two = set buf 2 (shr seqno 8) in
    let m : length two ≡ n = length-set buf 2 (shr seqno 8) ∙ l in
    (
      length-set two 3 (u8 seqno) ∙ m,
      get_elem?-set_ne two (u8 seqno) (λ q. omega arith)
          ∙ get_elem?-set_self buf 2 (shr seqno 8) (omega arith),
      get_elem?-set_self two 3 (u8 seqno) (omega arith),
    )

first_byte_lem :
    (seqno : ℕ) (buf : List ℕ)
    → get_elem? (set (set buf 2 (shr seqno 8)) 3 (u8 seqno)) 0 ≡ get_elem? buf 0
first_byte_lem seqno buf =
    get_elem?-set_ne (set buf 2 (shr seqno 8)) (u8 seqno) (λ q. omega arith)
    ∙ get_elem?-set_ne buf (shr seqno 8) (λ q. omega arith)

write_header-Carries :
    (buf : List ℕ) (set_marker : Bool) (seqno : ℕ)
    → 12 ≤ length buf
    → Returns
        (λ out. Carries (length buf) seqno out × (get_elem? out 0 ≡ get_elem? buf 0))
        (write_header buf set_marker seqno)
unfolding write_header
write_header-Carries buf set_marker seqno h =
    let (flags, e) = get_elem?-in_range buf 1 (omega arith) in
    elim (Bool-cases set_marker) [
      | inl m ↦
          rw (e, m)
            (
              overwritten-Carries (length buf) seqno (set buf 1 _) h (length-set buf 1 _),
              first_byte_lem seqno (set buf 1 _) ∙ get_elem?-set_ne buf _ (λ q. omega arith),
            )
      | inr m ↦
          rw (e, m) (overwritten-Carries (length buf) seqno buf h refl, first_byte_lem seqno buf)
    ]

-- A packet of length `n` with this first byte ends within the first four bytes of its header
-- extension.
abbrev pub cut_at : ℕ → ℕ → Bool
cut_at n first =
    has_bit first 4 && (ltb (12 + low_bits first 4 * 4) n && leb n (12 + low_bits first 4 * 4 + 3))

-- The payload starts inside the packet, behind the number.
abbrev pub Starts : ℕ → ℕ × Bool → Type 0
Starts n (offset, true) = Unit
Starts n (offset, false) = (3 < offset) × (offset < n)

payload_start-Starts :
    (buf : List ℕ) (first : ℕ)
    → get_elem? buf 0 ≡ some first
    → cut_at (length buf) first ≡ false
    → Returns (Starts (length buf)) (payload_start buf)
unfolding payload_start
payload_start-Starts buf first e c =
    let offset = 12 + low_bits first 4 * 4 in
    elim (Bool-cases (leb (length buf) offset)) [
      | inl f ↦ rw (e, f) tt
      | inr f ↦ elim (Bool-cases (has_bit first 4)) [
        | inr x ↦ rw (e, f, x) (omega arith, ground arith)
        | inl x ↦
            let long : offset + 3 < length buf = ground arith in
            let (high, p) = get_elem?-in_range buf (offset + 2) (omega arith) in
            let (low, q) = get_elem?-in_range buf (offset + 3) long in
            let start = offset + 4 + (high * 2 ^ 8 + low) * 4 in
            elim (Bool-cases (ltb (length buf) (start + 4))) [
              | inl s ↦ rw (e, f, x, p, q, s) tt
              | inr s ↦ rw (e, f, x, p, q, s) (omega arith, ground arith)
            ]
      ]
    ]

get_elem?-out_of_range : (buf : List ℕ) (i : ℕ) → length buf ≤ i → get_elem? buf i ≡ none
get_elem?-out_of_range [] zero h = refl
get_elem?-out_of_range [] (suc i) h = refl
get_elem?-out_of_range (b ∷ buf) zero h = absurd (omega arith)
get_elem?-out_of_range (b ∷ buf) (suc i) h = get_elem?-out_of_range buf i (omega arith)

payload_start_panics :
    (buf : List ℕ) (first : ℕ)
    → get_elem? buf 0 ≡ some first
    → cut_at (length buf) first ≡ true
    → payload_start buf ≡ none
unfolding payload_start
payload_start_panics buf first e c =
    let offset = 12 + low_bits first 4 * 4 in
    let f : leb (length buf) offset ≡ false = ground arith in
    let x : has_bit first 4 ≡ true = ground arith in
    let out = get_elem?-out_of_range buf (offset + 3) (ground arith) in
    elim (Option-cases (get_elem? buf (offset + 2))) [
      | inl p ↦ rw (e, f, x, p) refl
      | inr (high, p) ↦ rw (e, f, x, p, out) refl
    ]

-- The end of `RewritePacket`.
rewrite_payload-Carries :
    (is_vp8 : Bool) (n seqno delta : ℕ) (out : List ℕ) (start : ℕ × Bool)
    → Carries n seqno out
    → Starts (length out) start
    → Returns
        (λ r. Carries n seqno r.0)
        (if start.1
          then some (out, true)
          else if is_vp8
          then rewrite_vp8 out start.0 delta
          else some (out, false))
rewrite_payload-Carries is_vp8 n seqno delta out (offset, true) c t = c
rewrite_payload-Carries true n seqno delta out (offset, false) c (t, u) =
    rewrite_vp8-Carries n seqno out offset delta t u c
rewrite_payload-Carries false n seqno delta out (offset, false) c t = c

-- `RewritePacket` returns for a packet of at least 12 bytes that does not end within the first four
-- bytes of its header extension: also when it reports an error, the packet then has its old length
-- and carries the new sequence number.
pub rewrite_packet-Carries :
    (is_vp8 : Bool) (buf : List ℕ) (set_marker : Bool) (seqno delta first : ℕ)
    → 12 ≤ length buf
    → get_elem? buf 0 ≡ some first
    → cut_at (length buf) first ≡ false
    → Returns
        (λ r. Carries (length buf) seqno r.0)
        (rewrite_packet is_vp8 buf set_marker seqno delta)
unfolding rewrite_packet
rewrite_packet-Carries is_vp8 buf set_marker seqno delta first h e c =
    let long : ltb (length buf) 12 ≡ false = ground arith in
    rw long (
      Returns->>= (λ out. Carries (length buf) seqno out × (get_elem? out 0 ≡ get_elem? buf 0))
        (λ r. Carries (length buf) seqno r.0) (write_header buf set_marker seqno) _
        (write_header-Carries buf set_marker seqno h)
        (λ out k. elim (Bool-cases (delta == 0)) [
          | inl z ↦ rw z k.0
          | inr z ↦ rw z (
              Returns->>= (Starts (length out)) (λ r. Carries (length buf) seqno r.0)
                (payload_start out) _
                (payload_start-Starts out first (k.1 ∙ e) (ap (λ n. cut_at n first) k.0.0 ∙ c))
                (λ s t. rewrite_payload-Carries is_vp8 (length buf) seqno delta out s k.0 t))
        ]))

-- `RewritePacket` panics on a packet of at least 12 bytes that ends within the first four bytes of
-- its header extension, unless the picture id is to stay the same.
pub rewrite_packet_panics :
    (is_vp8 : Bool) (buf : List ℕ) (set_marker : Bool) (seqno delta first : ℕ)
    → 12 ≤ length buf
    → get_elem? buf 0 ≡ some first
    → cut_at (length buf) first ≡ true
    → delta ≢ 0
    → rewrite_packet is_vp8 buf set_marker seqno delta ≡ none
unfolding rewrite_packet
rewrite_packet_panics is_vp8 buf set_marker seqno delta first h e c d =
    let P : List ℕ → Type 0 =
      λ out. Carries (length buf) seqno out × (get_elem? out 0 ≡ get_elem? buf 0) in
    let long : ltb (length buf) 12 ≡ false = ground arith in
    let z : (delta == 0) ≡ false = ground arith in
    elim (Option-cases (write_header buf set_marker seqno)) [
      | inl w ↦ rw (long, w) refl
      | inr (out, w) ↦
          let (k, f) = Returns-some P _ w (write_header-Carries buf set_marker seqno h) in
          let stops = payload_start_panics out first (f ∙ e) (ap (λ n. cut_at n first) k.0 ∙ c) in
          rw (long, w, z, stops) refl
    ]
