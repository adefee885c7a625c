-- ===== src/DownTrack/Forward.antt =====
-- What `rtpDownTrack.Write` sends to the receiver: the packet map and the rewriting together.
use mathlib.Core.Path.{subst}
use galene.Base.Word.{shr, u8}
use galene.Base.{
  double_negation, ℕ, ◌+◌, ◌*◌, ◌^◌, ◌≤◌, ◌<◌, ◌≡◌, refl, sym, ap, ◌∙◌, Bool, true, false, not,
  ◌&&◌, Option, none, some, List, [], ◌∷◌, zero, suc, arith, if◌then◌else◌, ltb, ◌==◌, ==_iff,
  length, take, get_elem?, get_elem?-in_range, All, All-get_elem?, Returns, Returns->>=,
  Returns-branch, Returns-every, Returns-×, Every, Every->>=, Every-some,
}
use galene.PacketMap
use galene.PacketMap.{Map}
use galene.PacketMap.Bounds
use galene.PacketMap.Bounds.{Sound, map-Sound, drop-IsValid}
use galene.PacketCache.{buf_size}
use galene.Codecs.{rewrite_packet}
use galene.Codecs.Flags.{
  Codec, vp8, vp9, av1, h264, other, Parsers, Flags, packet_flags, Vp8Packet, Vp9Packet,
  codec_flags, vp8_parsed, vp9_parsed,
}
use galene.Codecs.Header.{Carries, cut_at, rewrite_packet-Carries}
use galene.DownTrack.{
  DownTrack, LayerInfo, Outcome, failed, dropped, unmapped, sent, is_vp8, is_unwanted, unpack, pack,
  see_layer, choose_sid, choose_tid, forward, forward_layers, write, rewritten, adjust_layer,
  requests_keyframe,
}

take_all : (n : ℕ) (buf : List ℕ) → length buf ≤ n → take n buf ≡ buf
take_all zero [] h = refl
take_all (suc n) [] h = refl
take_all zero (b ∷ buf) h = absurd (omega arith)
take_all (suc n) (b ∷ buf) h = ap (◌∷◌ b) (take_all n buf (omega arith))

is_false : (b : Bool) → not b ≡ true → b ≡ false
is_false true h = cc
is_false false h = refl

second_of : (a b c : Bool) → (a && (b && c)) ≡ true → b ≡ true
second_of true true c h = refl
second_of true false c h = cc
second_of false b c h = cc

both_of : (a b : Bool) → (a && b) ≡ true → b ≡ true
both_of true b h = h
both_of false b h = cc

vp8_parsed-seqno :
    (f : Flags) (marker : Bool) (q : Option Vp8Packet)
    → Every (λ (x : Flags × Bool). x.0.seqno ≡ f.seqno) (vp8_parsed f marker q)
vp8_parsed-seqno f marker none = refl
vp8_parsed-seqno f marker (some q) = refl

vp9_parsed-seqno :
    (f : Flags) (payload : List ℕ) (q : Option Vp9Packet)
    → Every (λ (x : Flags × Bool). x.0.seqno ≡ f.seqno) (vp9_parsed f payload q)
vp9_parsed-seqno f payload none = refl
vp9_parsed-seqno f payload (some q) =
    Every->>= (λ (x : Flags × Bool). x.0.seqno ≡ f.seqno) (get_elem? payload 0) _ (λ b _. refl)

codec_flags-seqno :
    (p : Parsers) (codec : Codec) (f : Flags) (r : Option (List ℕ × Bool))
    → Every (λ (x : Flags × Bool). x.0.seqno ≡ f.seqno) (codec_flags p codec f r)
codec_flags-seqno p vp8 f none = refl
codec_flags-seqno p vp8 f (some (payload, marker)) = vp8_parsed-seqno f marker (p.parse_vp8 payload)
codec_flags-seqno p vp9 f none = refl
codec_flags-seqno p vp9 f (some (payload, marker)) =
    vp9_parsed-seqno f payload (p.parse_vp9 payload)
codec_flags-seqno p av1 f r = refl
codec_flags-seqno p h264 f r = refl
codec_flags-seqno p other f r = refl

-- `PacketFlags` reads the sequence number that the packet carries.
packet_flags-Carries :
    (p : Parsers) (codec : Codec) (buf : List ℕ) (f : Flags) (e : Bool)
    → All (λ b. b < 2 ^ 8) buf
    → 4 ≤ length buf
    → packet_flags p codec buf ≡ some (f, e)
    → Carries (length buf) f.seqno buf × (f.seqno < 2 ^ 16)
unfolding packet_flags
packet_flags-Carries p codec buf f e bytes h k =
    let long : ltb (length buf) 4 ≡ false = ground arith in
    let (b1, g1) = get_elem?-in_range buf 1 (omega arith) in
    let (b2, g2) = get_elem?-in_range buf 2 (omega arith) in
    let (b3, g3) = get_elem?-in_range buf 3 (omega arith) in
    let w2 : b2 < 2 ^ 8 = All-get_elem? (λ b. b < 2 ^ 8) buf 2 bytes g2 in
    let w3 : b3 < 2 ^ 8 = All-get_elem? (λ b. b < 2 ^ 8) buf 3 bytes g3 in
    let P : Flags × Bool → Type 0 = λ x. x.0.seqno ≡ b2 * 2 ^ 8 + b3 in
    let q : f.seqno ≡ b2 * 2 ^ 8 + b3 =
      Every-some P (packet_flags p codec buf) (f, e) k
        (rw (long, g1, g2, g3) (codec_flags-seqno p codec _ (p.rtp buf))) in
    let high : b2 ≡ shr f.seqno 8 = omega arith in
    let low : b3 ≡ u8 f.seqno = omega arith in
    ((refl, g2 ∙ ap some high, g3 ∙ ap some low), omega arith)

-- What a call has done: the packet is dropped by `Drop`, or refused by `Map`, or `Map` has given it
-- a number and it is sent with this number, at its old length; or there is an error.
abbrev pub Done : Map → Flags → ℕ → DownTrack × Outcome → Type 0
Done m f n (t, failed) = Unit
Done m f n (t, dropped) = PacketMap.drop m f.seqno f.pid ≡ (t.packetmap, true)
Done m f n (t, unmapped) =
    (number : ℕ) × (pid : ℕ) × (PacketMap.map m f.seqno f.pid
      ≡ some (t.packetmap, (false, number, pid)))
Done m f n (t, sent out) =
    (number : ℕ) × (pid : ℕ) × (PacketMap.map m f.seqno f.pid
      ≡ some (t.packetmap, (true, number, pid)))
    × Carries n number out

rewritten-Done :
    (m : Map) (f : Flags) (t : DownTrack) (number pid n : ℕ) (r : List ℕ × Bool)
    → PacketMap.map m f.seqno f.pid ≡ some (t.packetmap, (true, number, pid))
    → Carries n number r.0
    → Done m f n (rewritten t r)
rewritten-Done m f t number pid n (out, true) e c = tt
rewritten-Done m f t number pid n (out, false) e c = (number, pid, e, c)

rewritten-IsValid :
    (t : DownTrack) (r : List ℕ × Bool)
    → PacketMap.Bounds.IsValid t.packetmap
    → PacketMap.Bounds.IsValid (rewritten t r).0.packetmap
rewritten-IsValid t (out, true) v = v
rewritten-IsValid t (out, false) v = v

forward-Done :
    (codec : Codec) (t : DownTrack) (l : LayerInfo) (f : Flags) (buf : List ℕ) (first : ℕ)
    → PacketMap.Bounds.IsValid t.packetmap
    → f.seqno < 2 ^ 16
    → f.pid < 2 ^ 16
    → 12 ≤ length buf
    → length buf ≤ buf_size
    → get_elem? buf 0 ≡ some first
    → cut_at (length buf) first ≡ false
    → Carries (length buf) f.seqno buf
    → Returns
        (λ r. PacketMap.Bounds.IsValid r.0.packetmap × Done t.packetmap f (length buf) r)
        (forward codec t l f buf)
unfolding forward
forward-Done codec t l f buf first v hs hp h k g c carried =
    let called = PacketMap.map t.packetmap f.seqno f.pid in
    let A : Map × (Bool × ℕ × ℕ) → Type 0 = λ a. Sound a × (called ≡ some a) in
    let Q : DownTrack × Outcome → Type 0 =
      λ r. PacketMap.Bounds.IsValid r.0.packetmap × Done t.packetmap f (length buf) r in
    let set_marker = f.sid == l.sid && (f.end && not f.marker) in
    let whole : take buf_size buf ≡ buf = take_all buf_size buf k in
    Returns->>= A Q called _
      (Returns-× Sound (λ a. called ≡ some a) called (map-Sound t.packetmap f.seqno f.pid v hs hp)
        (Returns-every Sound (λ a. called ≡ some a) called
          (map-Sound t.packetmap f.seqno f.pid v hs hp) (λ a e. e)))
      (λ (m, (mapped, number, pid)) ((valid, word), e).
        let t' = record t { packetmap = m } in
        Returns-branch Q (not mapped) _ _
          (λ q.
            let no_number = is_false mapped q in
            (valid, (number, pid, e ∙ ap (λ b. some (m, (b, number, pid))) no_number)))
          (λ q.
            let yes_number = double_negation mapped q in
            let e' = e ∙ ap (λ b. some (m, (b, number, pid))) yes_number in
            Returns-branch Q (not set_marker && (number == f.seqno && pid == 0)) _ _
              (λ z.
                let unchanged : number ≡ f.seqno =
                  (==_iff number f.seqno).0 (second_of (not set_marker) _ (pid == 0) z) in
                (
                  valid,
                  (
                    number,
                    pid,
                    e',
                    subst (λ n. Carries (length buf) n buf) (sym unchanged) carried,
                  ),
                ))
              (λ _. rw whole (
                Returns->>= (λ r. Carries (length buf) number r.0) Q
                  (rewrite_packet (is_vp8 codec) buf set_marker number pid) _
                  (rewrite_packet-Carries (is_vp8 codec) buf set_marker number pid first h g c)
                  (λ r w. (
                    rewritten-IsValid t' r valid,
                    rewritten-Done t.packetmap f t' number pid (length buf) r e' w,
                  ))))))

packetmap-see_layer :
    (t : DownTrack) (f : Flags) (now : ℕ) → (see_layer t f now).packetmap ≡ t.packetmap
unfolding see_layer adjust_layer
packetmap-see_layer t f now = ground arith

-- `Write` returns for a packet of 12 to 1504 bytes whose flags can be read and that does not end in
-- the first four bytes of its header extension, where the packet map is valid; the map stays valid.
-- If bytes are sent, they are as many, and carry the number that `Map` has given to the packet; if
-- the packet is discarded, then by `Drop`; if it is refused, then by `Map`.
pub write-Done :
    (p : Parsers) (codec : Codec) (t : DownTrack) (buf : List ℕ) (now first : ℕ) (f : Flags)
    → packet_flags p codec buf ≡ some (f, false)
    → All (λ b. b < 2 ^ 8) buf
    → f.pid < 2 ^ 16
    → PacketMap.Bounds.IsValid t.packetmap
    → 12 ≤ length buf
    → length buf ≤ buf_size
    → get_elem? buf 0 ≡ some first
    → cut_at (length buf) first ≡ false
    → Returns
        (λ r. PacketMap.Bounds.IsValid r.0.packetmap × Done t.packetmap f (length buf) r)
        (write p codec t buf now)
unfolding write forward_layers
write-Done p codec t buf now first f e bytes hp v h k g c =
    let seen = see_layer t f now in
    let before = choose_tid (unpack seen.layer_info) f in
    let l = choose_sid before f in
    let chosen = record seen {
      layer_info = pack l;
      requests = seen.requests + (if requests_keyframe before f then 1 else 0);
    } in
    let same_map : seen.packetmap ≡ t.packetmap = packetmap-see_layer t f now in
    let v' = subst PacketMap.Bounds.IsValid (sym same_map) v in
    let (carried, hs) = packet_flags-Carries p codec buf f false bytes (omega arith) e in
    let discard = PacketMap.drop seen.packetmap f.seqno f.pid in
    let Q : Map → DownTrack × Outcome → Type 0 =
      λ m r. PacketMap.Bounds.IsValid r.0.packetmap × Done m f (length buf) r in
    rw e (
      subst (λ m. Returns (Q m) (forward_layers codec t f buf now)) same_map
        (Returns-branch (Q seen.packetmap) (is_unwanted l f && discard.1) _ _
          (λ q. (
            drop-IsValid seen.packetmap f.seqno f.pid v' hs hp,
            λ i. (discard.0, both_of (is_unwanted l f) discard.1 q i),
          ))
          (λ _. forward-Done codec chosen l f buf first v' hs hp h k g c carried)))
