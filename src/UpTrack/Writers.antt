-- ===== src/UpTrack/Writers.antt =====
-- The goroutines that pass on the NACKs of receivers, in any order of the calls.
use mathlib.Core.Path.{subst}
use galene.Base.{
  non_empty, ℕ, ◌+◌, ◌≤◌, ◌<◌, ◌≡◌, refl, sym, ap, ◌∙◌, Bool, true, false, not, ◌||◌, Option, none,
  some, List, [], ◌∷◌, ◌++◌, arith, ltb, if◌then◌else◌, Every, Every->>=, Every-branch, Every-some,
  Bool-cases, inl, inr,
}
use galene.PacketCache
use galene.PacketCache.{Cache}
use galene.UpTrack.Nacks.{includes-append}
use galene.UpTrack.{
  UpTrack, send_nacks, includes, buffer_nack, get_packet, take_nacks, write_nacks, nack_writer,
  still_lost,
}

-- A call of `GetPacket`, a goroutine that takes the buffer, one that goes on after that, and whatever
-- becomes of the cache.
pub data Step (sort : ℕ → List ℕ → List ℕ) (t : UpTrack) : UpTrack → Type 0 where
  requested :
      (seqno : ℕ) (result : List ℕ) (nack : Bool) (t' : UpTrack) (r : List ℕ × ℕ)
      → get_packet t seqno result nack ≡ some (t', r.0, r.1)
      → Step sort t t'
  taken : 0 < t.writers → Step sort t (take_nacks t).0
  wrote :
      (written : Bool) (nacks : List ℕ) (t' : UpTrack)
      → nack_writer sort written t nacks ≡ some t'
      → Step sort t t'
  cached : (c : Cache) → Step sort t (record t { cache = c })

pub data Run (sort : ℕ → List ℕ → List ℕ) (t : UpTrack) : UpTrack → Type 0 where
  start : Run sort t t
  next : (t' t'' : UpTrack) → Run sort t t' → Step sort t' t'' → Run sort t t''

abbrev pub AreDistinct : List ℕ → Type 0
AreDistinct [] = Unit
AreDistinct (n ∷ ns) = (includes ns n ≡ false) × AreDistinct ns

abbrev pub writers_for : List ℕ → ℕ
writers_for [] = 0
writers_for (n ∷ ns) = 1

abbrev pub IsServed : UpTrack → Type 0
IsServed t = (t.writers ≡ writers_for t.buffered_nacks) × AreDistinct t.buffered_nacks

-- What a step of a writer that has taken the buffer leaves alone.
abbrev SameBuffer : UpTrack → UpTrack → Type 0
SameBuffer t t' = (t'.writers ≡ t.writers) × (t'.buffered_nacks ≡ t.buffered_nacks)

SameBuffer-if :
    (t : UpTrack) (b : Bool) (x y : UpTrack)
    → SameBuffer t x
    → SameBuffer t y
    → SameBuffer t (if b then x else y)
SameBuffer-if t true x y h k = h
SameBuffer-if t false x y h k = k

send_nacks-SameBuffer :
    (written : Bool) (t : UpTrack) (xs : List ℕ) → SameBuffer t (send_nacks written t xs)
unfolding send_nacks
send_nacks-SameBuffer written t [] = (refl, refl)
send_nacks-SameBuffer written t (x ∷ xs) =
    SameBuffer-if t (not t.supports_nack) _ _ (refl, refl)
      (SameBuffer-if t written _ _ (refl, refl) (refl, refl))

write_nacks-SameBuffer :
    (sort : ℕ → List ℕ → List ℕ) (written : Bool) (t : UpTrack) (nacks : List ℕ) (cutoff : Option ℕ)
    → Every (SameBuffer t) (write_nacks sort written t nacks cutoff)
unfolding write_nacks
write_nacks-SameBuffer sort written t nacks none = (refl, refl)
write_nacks-SameBuffer sort written t nacks (some cutoff) =
    Every->>= (SameBuffer t) (still_lost t.cache cutoff nacks) _
      (λ lost _. send_nacks-SameBuffer written t (sort cutoff lost))

nack_writer-SameBuffer :
    (sort : ℕ → List ℕ → List ℕ) (written : Bool) (t : UpTrack) (nacks : List ℕ)
    → Every (SameBuffer t) (nack_writer sort written t nacks)
unfolding nack_writer
nack_writer-SameBuffer sort written t nacks =
    Every-branch (SameBuffer t) (not (non_empty nacks) || not t.supports_nack) _ _
      (λ _. (refl, refl)) (λ _. write_nacks-SameBuffer sort written t nacks _)

AreDistinct-append :
    (ns : List ℕ) (n : ℕ) → AreDistinct ns → includes ns n ≡ false → AreDistinct (ns ++ n ∷ [])
AreDistinct-append [] n d h = (refl, tt)
AreDistinct-append (m ∷ ns) n (e, d) h =
    (includes-append ns (n ∷ []) m ∙ ground (arith, e, h), AreDistinct-append ns n d (ground arith))

writers_for-le : (ns : List ℕ) → writers_for ns ≤ 1
writers_for-le [] = omega arith
writers_for-le (n ∷ ns) = omega arith

-- The first number in the buffer starts a goroutine.
writers_for-append :
    (ns : List ℕ) (w n : ℕ)
    → w ≡ writers_for ns
    → (if not (non_empty ns) then w + 1 else w) ≡ writers_for (ns ++ n ∷ [])
writers_for-append [] w n h = omega arith
writers_for-append (m ∷ ns) w n h = h

buffer_nack-IsServed : (t : UpTrack) (n : ℕ) → IsServed t → IsServed (buffer_nack t n)
buffer_nack-IsServed t n (w, d) = elim (Bool-cases (includes t.buffered_nacks n)) [
  | inl q ↦ rw q (w, d)
  | inr q ↦ rw q (writers_for-append t.buffered_nacks t.writers n w, AreDistinct-append _ n d q)
]

get_packet-IsServed :
    (t : UpTrack) (seqno : ℕ) (result : List ℕ) (nack : Bool)
    → IsServed t
    → Every (λ r. IsServed r.0) (get_packet t seqno result nack)
unfolding get_packet
get_packet-IsServed t seqno result nack s =
    Every->>= _ (PacketCache.get t.cache seqno result) _ (λ (out, n) _.
      Every-branch _ (ltb 0 n || not nack) _ _ (λ _. s) (λ _. buffer_nack-IsServed t seqno s))

Step-IsServed :
    (sort : ℕ → List ℕ → List ℕ) (t t' : UpTrack) → IsServed t → Step sort t t' → IsServed t'
unfolding take_nacks
Step-IsServed sort t t' s (requested seqno result nack _ r e) =
    Every-some (λ r. IsServed r.0) (get_packet t seqno result nack) (t', r.0, r.1) e
      (get_packet-IsServed t seqno result nack s)
Step-IsServed sort t t' (w, d) (taken h) = (omega (arith, writers_for-le t.buffered_nacks), tt)
Step-IsServed sort t t' (w, d) (wrote written nacks _ e) =
    let (writers, buffer) =
      Every-some (SameBuffer t) (nack_writer sort written t nacks) t' e
        (nack_writer-SameBuffer sort written t nacks) in
    (writers ∙ w ∙ ap writers_for (sym buffer), subst AreDistinct (sym buffer) d)
Step-IsServed sort t t' s (cached c) = s

-- Whatever the order of the calls, starting from an empty buffer and no goroutine: there is one
-- goroutine that will take the buffer if it holds a number, and none otherwise, and no number is in
-- the buffer twice.
pub Run-IsServed :
    (sort : ℕ → List ℕ → List ℕ) (t t' : UpTrack)
    → t.buffered_nacks ≡ []
    → t.writers ≡ 0
    → Run sort t t'
    → IsServed t'
Run-IsServed sort t t' e w start = (w ∙ ap writers_for (sym e), subst AreDistinct (sym e) tt)
Run-IsServed sort t t' e w (next u _ run step) =
    Step-IsServed sort u t' (Run-IsServed sort t u e w run) step
