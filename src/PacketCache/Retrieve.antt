-- ===== src/PacketCache/Retrieve.antt =====
-- packetcache/packetcache.go: `Store` followed by `GetAt` and `Get`.
use galene.Base.{
  ◌||◌, not, false, false, Returns-some, get_elem?-lt-length, ℕ, zero, suc, ◌+◌, ◌-◌, ◌%◌, ◌^◌, ◌≤◌,
  ◌<◌, ◌≡◌, ◌≢◌, refl, ap, ◌∙◌, ◌⊎◌, inl, inr, Bool, true, Option, some, List, [], ◌∷◌, ◌++◌,
  length, get_elem?, take, drop, copy, arith, leb, ◌==◌, Bool-cases, Returns, Returns->>=,
  Returns-mono, ◌>>=◌, min, All, length-take, length-copy, take-copy, get_elem?-set_self,
  get_elem?-set_ne, All-get_elem?,
}
use galene.Base.Word.{u16}
use galene.Base.Bits.{bit_or_above}
use galene.PacketCache.{
  Found, find, get, Cache, Entry, buf_size, entry_length, written, store, fill, get_at,
}
use galene.PacketCache.Ring.{IsValid, Queued, store-Queued, next_index}

-- Every slot holds a buffer of `BufSize` bytes.
abbrev pub HasBuffer : Entry → Type 0
HasBuffer e = length e.buf ≡ buf_size

-- A source that is long enough fills the destination.
copy-eq-take {ℓ} :
    {A : Type ℓ} (dst src : List A) → length dst ≤ length src → copy dst src ≡ take (length dst) src
copy-eq-take [] src h = refl
copy-eq-take (d ∷ dst) [] h = elim h [ ]
copy-eq-take (d ∷ dst) (x ∷ src) h = ap (◌∷◌ x) (copy-eq-take dst src (omega arith))

module _ (old : Entry) (seqno timestamp : ℕ) (marker : Bool) (buf : List ℕ) (hb : HasBuffer old)
    (fits : length buf ≤ buf_size) where
  entry_length-written : entry_length (written old seqno timestamp marker buf) ≡ length buf
  unfolding written
  entry_length-written = elim (Bool-cases marker) [
    | inl marked ↦
        rw marked (omega (arith, bit_or_above 15 (length buf % 2 ^ 16) (omega arith), fits))
    | inr plain ↦ rw plain (omega (arith, fits))
  ]

  written-HasBuffer : HasBuffer (written old seqno timestamp marker buf)
  unfolding written
  written-HasBuffer = length-copy old.buf buf ∙ hb

  fill-written :
      (result : List ℕ)
      → length buf ≤ length result
      → fill result (length buf) (written old seqno timestamp marker buf).buf
        ≡ some (buf ++ drop (length buf) result, length buf)
  unfolding fill written
  fill-written result room =
      let n = length buf in
      let enough : leb n (length result) ≡ true = ground arith in
      let dst = length-take n result in
      let copied : copy (take n result) (copy old.buf buf) ≡ buf =
        copy-eq-take (take n result) (copy old.buf buf)
          (omega (arith, length-copy old.buf buf, hb, fits, dst))
        ∙ (ap (λ k. take k (copy old.buf buf)) (omega (arith, dst, room))
            ∙ take-copy old.buf buf (omega (arith, hb, fits))) in
      let counted : min n (length (copy old.buf buf)) ≡ n =
        omega (arith, length-copy old.buf buf, hb, fits) in
      rw (enough, copied, counted) refl

-- A call of `Store`.
pub record Packet : Type 0 where
  pub seqno : ℕ
  pub timestamp : ℕ
  pub keyframe : Bool
  pub marker : Bool
  pub payload : List ℕ

pub store_all : Cache → List Packet → Option Cache
store_all c [] = some c
store_all c (p ∷ ps) =
    store c p.seqno p.timestamp p.keyframe p.marker p.payload >>= λ (c', r). store_all c' ps

-- `d` further packets can be stored before the index `j` is written, in an array of `n`.
abbrev Ahead : ℕ → ℕ → ℕ → ℕ → Type 0
Ahead tail j d n = (d < n) × ((tail + d ≡ j) ⊎ (tail + d ≡ j + n))

Ahead-next :
    (t j d n : ℕ) → t < n → j < n → Ahead t j (suc d) n → (t ≢ j) × Ahead (next_index t n) j d n
Ahead-next t j d n ht hj a = ground arith

Ahead-start : (t n : ℕ) → t < n → Ahead (next_index t n) t (n - 1) n
Ahead-start t n h = ground arith

Queued-at :
    (es : List Entry) (t s ts : ℕ) (m : Bool) (buf : List ℕ) (x : Cache × ℕ) (j : ℕ) (e : Entry)
    → Queued es t s ts m buf x
    → t ≢ j
    → get_elem? es j ≡ some e
    → get_elem? x.0.entries j ≡ some e
Queued-at es t s ts m buf x j e q ne at =
    ap (λ es'. get_elem? es' j) q.3.3 ∙ (get_elem?-set_ne es (written q.3.0 s ts m buf) ne ∙ at)

-- Packets stored later leave an entry alone until the tail comes round to it.
store_all-keeps :
    (ps : List Packet) (c : Cache) (j d : ℕ) (e : Entry)
    → IsValid c
    → get_elem? c.entries j ≡ some e
    → Ahead c.tail j d (length c.entries)
    → length ps ≤ d
    → Returns (λ c'. get_elem? c'.entries j ≡ some e) (store_all c ps)
unfolding store_all
store_all-keeps [] c j d e v at a h = at
store_all-keeps (p ∷ ps) c j zero e v at a h = absurd (omega arith)
store_all-keeps (p ∷ ps) c j (suc d) e v at a h =
    let step =
      Ahead-next c.tail j d (length c.entries) v.tail_in (get_elem?-lt-length c.entries j e at) a in
    Returns->>= _ (λ c'. get_elem? c'.entries j ≡ some e)
      (store c p.seqno p.timestamp p.keyframe p.marker p.payload) _
      (store-Queued c p.seqno p.timestamp p.keyframe p.marker p.payload v)
      (λ x q.
        store_all-keeps ps x.0 j d e q.0.0
          (Queued-at c.entries c.tail p.seqno p.timestamp p.marker p.payload (x.0, x.1.1) j e q.0
            step.0 at)
          (rw (q.0.3.2, q.0.2) step.1) (omega arith))

seqno-written :
    (old : Entry) (seqno timestamp : ℕ) (marker : Bool) (buf : List ℕ)
    → (written old seqno timestamp marker buf).seqno ≡ seqno
unfolding written
seqno-written old seqno timestamp marker buf = refl

get_at-written :
    (c : Cache) (old : Entry) (seqno timestamp : ℕ) (marker : Bool) (buf result : List ℕ) (i : ℕ)
    → HasBuffer old
    → length buf ≤ buf_size
    → length buf ≤ length result
    → get_elem? c.entries i ≡ some (written old seqno timestamp marker buf)
    → get_at c seqno i result ≡ some (buf ++ drop (length buf) result, length buf)
unfolding get_at
get_at-written c old seqno timestamp marker buf result i hb fits room at =
    let same : (seqno == seqno) ≡ true = ground arith in
    let small : u16 (length buf) ≡ length buf = omega arith in
    rw
      (
        at,
        get_at,
        seqno-written,
        same,
        entry_length-written old seqno timestamp marker buf hb fits,
        fill-written old seqno timestamp marker buf hb fits result room,
        small,
      )
      refl

-- What `Store` returns says where the packet is: `GetAt` with its index copies exactly the stored
-- bytes into a large enough buffer, also after fewer further packets than the cache has entries.
pub get_at-store_all :
    (c : Cache) (seqno timestamp : ℕ) (keyframe marker : Bool) (buf result : List ℕ)
    (ps : List Packet) {c' : Cache} {first i : ℕ}
    → IsValid c
    → All HasBuffer c.entries
    → length buf ≤ buf_size
    → length buf ≤ length result
    → length ps < length c.entries
    → store c seqno timestamp keyframe marker buf ≡ some (c', (first, i))
    → Returns
        (λ c''. get_at c'' seqno i result ≡ some (buf ++ drop (length buf) result, length buf))
        (store_all c' ps)
get_at-store_all c seqno timestamp keyframe marker buf result ps {c' = c'} {first = first} {i = i} v
      bufs fits room few e =
    let q = (Returns-some _ _ e (store-Queued c seqno timestamp keyframe marker buf v)).0 in
    stored q
  where
    stored :
        Queued c.entries c.tail seqno timestamp marker buf (c', i)
        → Returns
            (λ c''. get_at c'' seqno i result ≡ some (buf ++ drop (length buf) result, length buf))
            (store_all c' ps)
    stored q =
        let old = q.3.0 in
        let hb : HasBuffer old = All-get_elem? HasBuffer c.entries c.tail bufs q.3.1 in
        let new = written old seqno timestamp marker buf in
        let at : get_elem? c'.entries i ≡ some new =
          rw (q.3.3, q.1) (get_elem?-set_self c.entries c.tail new v.tail_in) in
        let ahead : Ahead c'.tail i (length c.entries - 1) (length c'.entries) =
          rw (q.3.2, q.2, q.1) (Ahead-start c.tail (length c.entries) v.tail_in) in
        Returns-mono (λ c''. get_elem? c''.entries i ≡ some new) _ (store_all c' ps)
          (λ c'' at'. get_at-written c'' old seqno timestamp marker buf result i hb fits room at')
          (store_all-keeps ps c' i (length c.entries - 1) new q.0 at ahead (omega arith))

-- Without a buffer, `Get` only tells the size of the packet.
find-size : (seqno : ℕ) (es : List Entry) → (x : Found) × (find seqno es [] ≡ some ([], x))
unfolding find
find-size seqno [] = ((0, 0, false), refl)
find-size seqno (e ∷ es) = elim (Bool-cases (e.length_and_marker == 0 || not (e.seqno == seqno))) [
  | inl q ↦ rw q (find-size seqno es)
  | inr q ↦ rw q (_, refl)
]

pub get-size : (c : Cache) (seqno : ℕ) → (n : ℕ) × (get c seqno [] ≡ some ([], n))
unfolding get
get-size c seqno = let (x, e) = find-size seqno c.entries in rw e (x.0, refl)
