-- ===== src/PacketCache/Ring.antt =====
-- packetcache/packetcache.go: the array and its tail, read as a queue of the last packets.
use galene.Base.{
  if◌then◌else◌, ℕ, zero, suc, ◌+◌, ◌%◌, ◌^◌, ◌≤◌, ◌<◌, ◌≡◌, refl, sym, ap, ◌∙◌, inl, inr, Bool,
  true, false, some, List, [], ◌∷◌, ◌++◌, length, get_elem?, set, take, drop, arith, ◌==◌,
  Bool-cases, Returns, Returns->>=, get_elem?-in_range, length-set,
}
use mathlib.Core.List.{append-nil, append_assoc}
use native.Mathlib.Nat.{mod-eq_of_lt, mod_self}
use galene.Base.Word.{u16}
use mathlib.Core.Path.{subst₂}
use galene.PacketCache.{Cache, Entry, written, put, store, prepare, count_packet}

-- The tail is an index of the array, which a uint16 can measure.
pub record IsValid (c : Cache) : Type 0 where
  pub tail_in : c.tail < length c.entries
  pub few : length c.entries < 2 ^ 16

-- The index after `i` in an array of `n`.
abbrev pub next_index : ℕ → ℕ → ℕ
next_index i n = if suc i == n then 0 else suc i

next_index_lem : (i n : ℕ) → i < n → n < 2 ^ 16 → u16 (i + 1) % u16 n ≡ next_index i n
next_index_lem i n h w = elim (Bool-cases (suc i == n)) [
  | inl end ↦ rw end (ground (arith, mod_self n))
  | inr more ↦ rw more (ground (arith, mod-eq_of_lt {n = suc i} {m = n}))
]

-- Oldest first.
abbrev pub history : Cache → List Entry
history c = drop c.tail c.entries ++ take c.tail c.entries

module _ {ℓ} {A : Type ℓ} where
  drop-set : (xs : List A) (i : ℕ) (v : A) → drop (suc i) (set xs i v) ≡ drop (suc i) xs
  drop-set [] i v = refl
  drop-set (x ∷ xs) zero v = refl
  drop-set (x ∷ xs) (suc i) v = drop-set xs i v

  take-set :
      (xs : List A) (i : ℕ) (v : A)
      → i < length xs
      → take (suc i) (set xs i v) ≡ take i xs ++ v ∷ []
  take-set [] i v h = elim h [ ]
  take-set (x ∷ xs) zero v h = refl
  take-set (x ∷ xs) (suc i) v h = ap (◌∷◌ x) (take-set xs i v (omega arith))

  drop-cons :
      (xs : List A) (i : ℕ)
      → i < length xs
      → (x : A) × (get_elem? xs i ≡ some x) × (drop i xs ≡ x ∷ drop (suc i) xs)
  drop-cons [] i h = elim h [ ]
  drop-cons (x ∷ xs) zero h = (x, refl, refl)
  drop-cons (x ∷ xs) (suc i) h = drop-cons xs i (omega arith)

  drop-length : (xs : List A) (n : ℕ) → length xs ≤ n → drop n xs ≡ []
  drop-length [] zero h = refl
  drop-length [] (suc n) h = refl
  drop-length (x ∷ xs) zero h = elim h [ ]
  drop-length (x ∷ xs) (suc n) h = drop-length xs n (omega arith)

  take-length : (xs : List A) (n : ℕ) → length xs ≤ n → take n xs ≡ xs
  take-length [] zero h = refl
  take-length [] (suc n) h = refl
  take-length (x ∷ xs) zero h = elim h [ ]
  take-length (x ∷ xs) (suc n) h = ap (◌∷◌ x) (take-length xs n (omega arith))

  -- The array read from the index `i` on, round its end.
  abbrev pub rotate : ℕ → List A → List A
  rotate i xs = drop i xs ++ take i xs

  rotate-length : (xs : List A) (n : ℕ) → n ≡ length xs → rotate n xs ≡ rotate 0 xs
  rotate-length xs n e =
      rw (drop-length xs n (omega arith), take-length xs n (omega arith)) (sym (append-nil xs))

  -- Writing at the tail and moving on drops the oldest element and appends the new one.
  rotate-set :
      (xs : List A) (i : ℕ) (v : A)
      → i < length xs
      → rotate (suc i) (set xs i v) ≡ drop 1 (rotate i xs) ++ v ∷ []
  rotate-set xs i v h =
      let (x, at, e) = drop-cons xs i h in
      rw (drop-set xs i v, take-set xs i v h, e)
        (sym (append_assoc (drop (suc i) xs) (take i xs) (v ∷ [])))

  -- The next index reads as the one after it.
  rotate-next :
      (ys : List A) (i n : ℕ) → length ys ≡ n → rotate (next_index i n) ys ≡ rotate (suc i) ys
  rotate-next ys i n e = elim (Bool-cases (suc i == n)) [
    | inl end ↦ rw end (sym (rotate-length ys (suc i) (ground arith)))
    | inr more ↦ rw more refl
  ]

-- The cache after one more packet, stored at the index `i`, against the array and the tail before:
-- the oldest entry has made way for the packet at the end of the queue.
abbrev pub Queued : List Entry → ℕ → ℕ → ℕ → Bool → List ℕ → Cache × ℕ → Type 0
Queued entries tail seqno timestamp marker buf (c', i) =
    IsValid c'
    × (i ≡ tail)
    × (length c'.entries ≡ length entries)
    × ((e : Entry) × (get_elem? entries tail ≡ some e)
        × (c'.tail ≡ next_index tail (length entries))
        × (c'.entries ≡ set entries tail (written e seqno timestamp marker buf))
        × (history c' ≡ drop 1 (rotate tail entries) ++ written e seqno timestamp marker buf ∷ []))

put-Queued :
    (c : Cache) (seqno timestamp : ℕ) (marker : Bool) (buf : List ℕ)
    → IsValid c
    → Returns
        (Queued c.entries c.tail seqno timestamp marker buf)
        (put c seqno timestamp marker buf)
unfolding put
put-Queued c seqno timestamp marker buf v =
    let (e, at) = get_elem?-in_range c.entries c.tail v.tail_in in
    let next = next_index_lem c.tail (length c.entries) v.tail_in v.few in
    let next_in : next_index c.tail (length c.entries) < length c.entries =
      ground (arith, v.tail_in) in
    let nonzero : (u16 (length c.entries) == 0) ≡ false = ground arith in
    let e' = written e seqno timestamp marker buf in
    let kept = length-set c.entries c.tail e' in
    let queued =
      rotate-next (set c.entries c.tail e') c.tail (length c.entries) kept
      ∙ rotate-set c.entries c.tail e' v.tail_in in
    rw (at, nonzero, next)
      (
        record { tail_in = rw kept next_in; few = rw kept v.few },
        refl,
        kept,
        (e, at, refl, refl, queued),
      )

count_packet-entries :
    (c : Cache) (seqno : ℕ)
    → ((count_packet c seqno).entries ≡ c.entries) × ((count_packet c seqno).tail ≡ c.tail)
unfolding count_packet
count_packet-entries c seqno = ground arith

prepare-entries :
    (c : Cache) (seqno : ℕ) (keyframe : Bool)
    → ((prepare c seqno keyframe).entries ≡ c.entries) × ((prepare c seqno keyframe).tail ≡ c.tail)
unfolding prepare
prepare-entries c seqno true = count_packet-entries c seqno
prepare-entries c seqno false = count_packet-entries c seqno

put-Queued_at :
    (c k : Cache) (seqno timestamp : ℕ) (marker : Bool) (buf : List ℕ)
    → IsValid c
    → k.entries ≡ c.entries
    → k.tail ≡ c.tail
    → Returns
        (Queued c.entries c.tail seqno timestamp marker buf)
        (put k seqno timestamp marker buf)
put-Queued_at c k seqno timestamp marker buf v es t =
    subst₂
      (λ entries tail.
        Returns (Queued entries tail seqno timestamp marker buf) (put k seqno timestamp marker buf))
      es t (put-Queued k seqno timestamp marker buf valid)
  where
    valid : IsValid k
    valid = record { tail_in = rw (es, t) v.tail_in; few = rw es v.few }

-- `Store` on a valid cache returns, keeps the cache valid and of the same size, returns the index
-- of the tail, and replaces the oldest of the last packets by the new one.
pub store-Queued :
    (c : Cache) (seqno timestamp : ℕ) (keyframe marker : Bool) (buf : List ℕ)
    → IsValid c
    → Returns
        (λ (x : Cache × (ℕ × ℕ)).
          Queued c.entries c.tail seqno timestamp marker buf (x.0, x.1.1)
          × (x.1.0 ≡ x.0.bitmap.first))
        (store c seqno timestamp keyframe marker buf)
unfolding store
store-Queued c seqno timestamp keyframe marker buf v =
    let k = prepare c seqno keyframe in
    let kept = prepare-entries c seqno keyframe in
    Returns->>= (Queued c.entries c.tail seqno timestamp marker buf) _
      (put k seqno timestamp marker buf) _
      (put-Queued_at c k seqno timestamp marker buf v kept.0 kept.1) (λ x h. (h, refl))
