-- ===== src/DownTrack/Kept.antt =====
-- What `Write` leaves alone: the rate that the receiver's reports have set.
use galene.Base.{
  Every-mono, ℕ, ◌+◌, ◌≡◌, refl, ◌∙◌, Bool, true, false, not, ◌&&◌, List, Every, Every->>=,
  Every-branch, take, if◌then◌else◌, ◌==◌, arith,
}
use galene.PacketMap
use galene.PacketCache.{buf_size}
use galene.Codecs.{rewrite_packet}
use galene.Codecs.Flags.{Codec, Parsers, Flags, packet_flags}
use galene.DownTrack.{
  DownTrack, LayerInfo, Outcome, is_vp8, is_unwanted, unpack, pack, see_layer, choose_sid,
  choose_tid, forward, forward_layers, write, rewritten, adjust_layer, requests_keyframe,
}

abbrev SameRate : DownTrack → DownTrack × Outcome → Type 0
SameRate t r = r.0.max_bitrate ≡ t.max_bitrate

pub max_bitrate-adjust_layer :
    (t : DownTrack) (now : ℕ) → (adjust_layer t now).max_bitrate ≡ t.max_bitrate
unfolding adjust_layer
max_bitrate-adjust_layer t now = refl

max_bitrate-see_layer :
    (t : DownTrack) (f : Flags) (now : ℕ) → (see_layer t f now).max_bitrate ≡ t.max_bitrate
unfolding see_layer adjust_layer
max_bitrate-see_layer t f now = ground arith

rewritten-SameRate : (t : DownTrack) (r : List ℕ × Bool) → SameRate t (rewritten t r)
rewritten-SameRate t (buf, true) = refl
rewritten-SameRate t (buf, false) = refl

forward-SameRate :
    (codec : Codec) (t : DownTrack) (l : LayerInfo) (f : Flags) (buf : List ℕ)
    → Every (SameRate t) (forward codec t l f buf)
unfolding forward
forward-SameRate codec t l f buf =
    Every->>= (SameRate t) (PacketMap.map t.packetmap f.seqno f.pid) _
      (λ (m, (mapped, number, pid)) _.
        let marked = f.sid == l.sid && (f.end && not f.marker) in
        Every-branch (SameRate t) (not mapped) _ _ (λ _. refl)
          (λ _.
            Every-branch (SameRate t) (not marked && (number == f.seqno && pid == 0)) _ _
              (λ _. refl)
              (λ _.
                Every->>= (SameRate t)
                  (rewrite_packet (is_vp8 codec) (take buf_size buf) marked number pid) _
                  (λ r _. rewritten-SameRate (record t { packetmap = m }) r))))

pub write-SameRate :
    (p : Parsers) (codec : Codec) (t : DownTrack) (buf : List ℕ) (now : ℕ)
    → Every (λ r. r.0.max_bitrate ≡ t.max_bitrate) (write p codec t buf now)
unfolding write forward_layers
write-SameRate p codec t buf now =
    Every->>= (SameRate t) (packet_flags p codec buf) _ (λ (f, error) _.
      let seen = see_layer t f now in
      let before = choose_tid (unpack seen.layer_info) f in
      let l = choose_sid before f in
      let chosen = record seen {
        layer_info = pack l;
        requests = seen.requests + (if requests_keyframe before f then 1 else 0);
      } in
      let kept : seen.max_bitrate ≡ t.max_bitrate = max_bitrate-see_layer t f now in
      Every-branch (SameRate t) error _ _ (λ _. refl)
        (λ _.
          Every-branch (SameRate t)
            (is_unwanted l f && (PacketMap.drop chosen.packetmap f.seqno f.pid).1) _ _ (λ _. kept)
            (λ _.
              Every-mono (SameRate chosen) (SameRate t) (forward codec chosen l f buf)
                (λ r e. e ∙ kept) (forward-SameRate codec chosen l f buf))))
