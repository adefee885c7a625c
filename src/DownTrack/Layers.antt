-- ===== src/DownTrack/Layers.antt =====
-- The layers that `rtpDownTrack.Write` chooses, and the word in which they are kept.
use mathlib.Core.Path.{subst}
use galene.Base.{
  take, Every-branch, Every->>=, Every-some, Every-mono, Every, ◌%◌, ℕ, ◌+◌, ◌*◌, ◌/◌, ◌≤◌, ◌<◌,
  ◌≡◌, refl, sym, ap, ◌∙◌, ◌⊎◌, inl, inr, Bool, true, false, not, ◌&&◌, ◌||◌, some, List, arith,
  if◌then◌else◌, ltb, ◌==◌, Bool-cases,
}
use galene.Codecs.Flags.{Flags, Codec, Parsers, packet_flags}
use galene.PacketMap
use galene.PacketCache.{buf_size}
use galene.Codecs.{rewrite_packet}
use galene.DownTrack.{
  is_vp8, is_unwanted, LayerInfo, DownTrack, pack, unpack, switch_up, switch_down, adjusted,
  adjust_layer, see_tid, see_sid, see_layer, choose_tid, choose_sid, rewritten, forward,
  forward_layers, write, Outcome, requests_keyframe,
}

-- The chosen and the wanted layers are among those seen, which fit into 4 bits.
pub record IsValid (l : LayerInfo) : Type 0 where
  pub sid_seen : l.sid ≤ l.max_sid
  pub wanted_sid_seen : l.wanted_sid ≤ l.max_sid
  pub tid_seen : l.tid ≤ l.max_tid
  pub wanted_tid_seen : l.wanted_tid ≤ l.max_tid
  pub max_sid_fits : l.max_sid < 16
  pub max_tid_fits : l.max_tid < 16

-- The fields of a word that is made of them.
fields :
    (a b c k x y z : ℕ)
    → a < 16
    → b < 16
    → c < 16
    → k < 2
    → x < 16
    → y < 16
    → z < 16
    → let w =
        a % 16
        + b % 16 * 16
        + c % 16 * 256
        + k * 4096
        + x % 16 * 65536
        + y % 16 * 1048576
        + z % 16 * 16777216 in
      (w % 16 ≡ a)
      × (w / 16 % 16 ≡ b)
      × (w / 256 % 16 ≡ c)
      × (w / 4096 % 2 ≡ k)
      × (w / 65536 % 16 ≡ x)
      × (w / 1048576 % 16 ≡ y)
      × (w / 16777216 % 16 ≡ z)
fields a b c k x y z ha hb hc hk hx hy hz = omega arith

bit_back : (b : Bool) → not ((if b then 1 else 0) == 0) ≡ b
bit_back true = refl
bit_back false = refl

bit-lt : (b : Bool) → (if b then 1 else 0) < 2
bit-lt true = omega arith
bit-lt false = omega arith

-- Layers that fit into 4 bits come back from the word as they went in.
unpack-pack : (l : LayerInfo) → IsValid l → unpack (pack l) ≡ l
unfolding unpack pack
unpack-pack l v =
    let (a, b, c, k, x, y, z) =
      fields l.sid l.wanted_sid l.max_sid (if l.limit_sid then 1 else 0) l.tid l.wanted_tid
        l.max_tid (omega arith) (omega arith) v.max_sid_fits (bit-lt l.limit_sid) (omega arith)
        (omega arith) v.max_tid_fits in
    let m = ap (λ t. not (t == 0)) k ∙ bit_back l.limit_sid in
    λ i. record {
      sid = a i;
      wanted_sid = b i;
      max_sid = c i;
      tid = x i;
      wanted_tid = y i;
      max_tid = z i;
      limit_sid = m i;
    }

adjusted-IsValid : (l : LayerInfo) (rate most : ℕ) → IsValid l → IsValid (adjusted l rate most)
unfolding adjusted switch_up switch_down
adjusted-IsValid l rate most v = ground arith

see-IsValid :
    (l : LayerInfo) (f : Flags)
    → f.tid < 16
    → f.sid < 16
    → IsValid l
    → IsValid (see_sid (see_tid l f) f)
unfolding see_sid see_tid
see-IsValid l f h k v = ground arith

choose-IsValid : (l : LayerInfo) (f : Flags) → IsValid l → IsValid (choose_sid (choose_tid l f) f)
unfolding choose_sid choose_tid
choose-IsValid l f v = ground arith

adjust_layer-IsValid :
    (t : DownTrack) (now : ℕ)
    → IsValid (unpack t.layer_info)
    → IsValid (unpack (adjust_layer t now).layer_info)
unfolding adjust_layer
adjust_layer-IsValid t now v =
    let a = adjusted-IsValid (unpack t.layer_info) _ _ v in subst IsValid (sym (unpack-pack _ a)) a

see_layer-IsValid :
    (t : DownTrack) (f : Flags) (now : ℕ)
    → f.tid < 16
    → f.sid < 16
    → IsValid (unpack t.layer_info)
    → IsValid (unpack (see_layer t f now).layer_info)
unfolding see_layer
see_layer-IsValid t f now h k v =
    let l = unpack t.layer_info in
    let a = see-IsValid l f h k v in
    let seen = record t { layer_info = pack (see_sid (see_tid l f) f) } in
    elim (Bool-cases (ltb l.max_tid f.tid || ltb l.max_sid f.sid)) [
      | inl e ↦ rw e (adjust_layer-IsValid seen now (subst IsValid (sym (unpack-pack _ a)) a))
      | inr e ↦ rw e v
    ]

-- The spatial layer is the same, or the packet has one that has not been seen before.
abbrev Steps : LayerInfo → Flags → ℕ → Type 0
Steps l f sid = (sid ≡ l.sid) ⊎ (l.max_sid < f.sid)

see-Steps : (l : LayerInfo) (f : Flags) → Steps l f (see_sid (see_tid l f) f).sid
unfolding see_sid see_tid
see-Steps l f = ground arith

adjusted-sid : (l : LayerInfo) (rate most : ℕ) → (adjusted l rate most).sid ≡ l.sid
unfolding adjusted switch_up switch_down
adjusted-sid l rate most = ground arith

adjust_layer-sid :
    (t : DownTrack) (now : ℕ)
    → IsValid (unpack t.layer_info)
    → (unpack (adjust_layer t now).layer_info).sid ≡ (unpack t.layer_info).sid
unfolding adjust_layer
adjust_layer-sid t now v =
    let a = adjusted-IsValid (unpack t.layer_info) _ _ v in
    ap (λ (k : LayerInfo). k.sid) (unpack-pack _ a) ∙ adjusted-sid (unpack t.layer_info) _ _

see_layer-Steps :
    (t : DownTrack) (f : Flags) (now : ℕ)
    → f.tid < 16
    → f.sid < 16
    → IsValid (unpack t.layer_info)
    → Steps (unpack t.layer_info) f (unpack (see_layer t f now).layer_info).sid
unfolding see_layer
see_layer-Steps t f now h k v =
    let l = unpack t.layer_info in
    let a = see-IsValid l f h k v in
    let seen = record t { layer_info = pack (see_sid (see_tid l f) f) } in
    let back : unpack seen.layer_info ≡ see_sid (see_tid l f) f = unpack-pack _ a in
    let same_sid : (unpack (adjust_layer seen now).layer_info).sid ≡ (see_sid (see_tid l f) f).sid =
      adjust_layer-sid seen now (subst IsValid (sym back) a) ∙ ap (λ (k : LayerInfo). k.sid) back in
    elim (Bool-cases (ltb l.max_tid f.tid || ltb l.max_sid f.sid)) [
      | inl e ↦ rw e (subst (Steps l f) (sym same_sid) (see-Steps l f))
      | inr e ↦ rw e (inl refl)
    ]

choose-sid :
    (l : LayerInfo) (f : Flags)
    → ((choose_sid (choose_tid l f) f).sid ≡ l.sid) ⊎ ((f.start && f.keyframe) ≡ true)
unfolding choose_sid choose_tid
choose-sid l f = ground arith

-- Between the layers before and after a packet, the spatial one changes only at the start of a
-- keyframe, or to a layer that is seen for the first time.
abbrev pub Switches : LayerInfo → Flags → LayerInfo → Type 0
Switches l f l' = (l'.sid ≡ l.sid) ⊎ (((f.start && f.keyframe) ≡ true) ⊎ (l.max_sid < f.sid))

abbrev chosen : DownTrack → Flags → ℕ → LayerInfo
chosen t f now = choose_sid (choose_tid (unpack (see_layer t f now).layer_info) f) f

chosen-Switches :
    (t : DownTrack) (f : Flags) (now : ℕ)
    → f.tid < 16
    → f.sid < 16
    → IsValid (unpack t.layer_info)
    → Switches (unpack t.layer_info) f (chosen t f now)
chosen-Switches t f now h k v = elim (choose-sid (unpack (see_layer t f now).layer_info) f) [
  | inl e ↦ elim (see_layer-Steps t f now h k v) [ inl g ↦ inl (e ∙ g) | inr g ↦ inr (inr g) ]
  | inr e ↦ inr (inl e)
]

rewritten-layer_info :
    (t : DownTrack) (r : List ℕ × Bool) → (rewritten t r).0.layer_info ≡ t.layer_info
rewritten-layer_info t (buf, true) = refl
rewritten-layer_info t (buf, false) = refl

forward-layer_info :
    (codec : Codec) (t : DownTrack) (l : LayerInfo) (f : Flags) (buf : List ℕ)
    → Every (λ (r : DownTrack × Outcome). r.0.layer_info ≡ t.layer_info) (forward codec t l f buf)
unfolding forward
forward-layer_info codec t l f buf =
    let P : DownTrack × Outcome → Type 0 = λ r. r.0.layer_info ≡ t.layer_info in
    Every->>= P (PacketMap.map t.packetmap f.seqno f.pid) _ (λ (m, (mapped, newseqno, piddelta)) e.
      let t' = record t { packetmap = m } in
      let set_marker = f.sid == l.sid && (f.end && not f.marker) in
      Every-branch P (not mapped) _ _ (λ _. refl)
        (λ _.
          Every-branch P (not set_marker && (newseqno == f.seqno && piddelta == 0)) _ _ (λ _. refl)
            (λ _.
              Every->>= P
                (rewrite_packet (is_vp8 codec) (take buf_size buf) set_marker newseqno piddelta) _
                (λ r _. rewritten-layer_info t' r))))

-- Where the layers of a track are valid and a packet's are below 16, `Write` keeps them valid, and
-- switches the spatial layer only at the start of a keyframe or to a layer seen for the first time.
pub write-Switches :
    (p : Parsers) (codec : Codec) (t : DownTrack) (buf : List ℕ) (now : ℕ) (f : Flags)
    (t' : DownTrack) (o : Outcome)
    → packet_flags p codec buf ≡ some (f, false)
    → f.tid < 16
    → f.sid < 16
    → IsValid (unpack t.layer_info)
    → write p codec t buf now ≡ some (t', o)
    → IsValid (unpack t'.layer_info) × Switches (unpack t.layer_info) f (unpack t'.layer_info)
unfolding write forward_layers
write-Switches p codec t buf now f t' o e h k v w =
    let l = chosen t f now in
    let seen = see_layer-IsValid t f now h k v in
    let a = choose-IsValid (unpack (see_layer t f now).layer_info) f seen in
    let good : IsValid (unpack (pack l)) × Switches (unpack t.layer_info) f (unpack (pack l)) = (
      subst IsValid (sym (unpack-pack l a)) a,
      subst (Switches (unpack t.layer_info) f) (sym (unpack-pack l a))
          (chosen-Switches t f now h k v),
    ) in
    let track = record (see_layer t f now) {
      layer_info = pack l;
      requests =
          (see_layer t f now).requests
          + (if requests_keyframe (choose_tid (unpack (see_layer t f now).layer_info) f) f
              then 1
              else 0);
    } in
    let P : DownTrack × Outcome → Type 0 = λ r.
      IsValid (unpack r.0.layer_info) × Switches (unpack t.layer_info) f (unpack r.0.layer_info) in
    Every-some P (write p codec t buf now) (t', o) w
      (rw e (
        Every-branch P
          (is_unwanted l f && (PacketMap.drop (see_layer t f now).packetmap f.seqno f.pid).1) _ _
          (λ _. good)
          (λ _.
            Every-mono (λ (r : DownTrack × Outcome). r.0.layer_info ≡ pack l) P
              (forward codec track l f buf)
              (λ r g.
                subst (λ (n : ℕ). IsValid (unpack n) × Switches (unpack t.layer_info) f (unpack n))
                  (sym g) good)
              (forward-layer_info codec track l f buf))))
