-- ===== src/PacketCache/Resize.antt =====
-- packetcache/packetcache.go: `resize` and `ResizeCond` against the queue of the last packets.
use mathlib.Core.List.{append_assoc, append-nil}
use galene.Base.{
  ℕ, ◌+◌, ◌-◌, ◌*◌, ◌/◌, ◌≤◌, ◌<◌, ◌≡◌, refl, sym, ◌∙◌, inl, inr, Bool, true, false, List, [], ◌++◌,
  length, get_elem?, take, drop, replicate, arith, ltb, leb, ◌==◌, if◌then◌else◌, Bool-cases,
  Returns, Returns->>=, length-append, length-take, length-drop, length-replicate, ◌&&◌,
  get_elem?-append_left, get_elem?-take, drop-append_at, take-append_at, drop-append_left,
  drop-append_right, drop-drop, drop-take,
}
use galene.PacketCache.{Cache, Entry, no_entry, resize, resize_cond}
use galene.PacketCache.Ring.{IsValid, history}

module _ {ℓ} {A : Type ℓ} (xs rs : List A) (t n cap : ℕ) (hn : n ≡ length xs) (ht : t ≤ n) where
  -- The three ways in which the array is copied, read from the new tail on.
  rotate-grow :
      drop t (take t xs ++ (rs ++ drop t xs)) ++ take t (take t xs ++ (rs ++ drop t xs))
      ≡ rs ++ (drop t xs ++ take t xs)
  rotate-grow =
      let at : t ≡ length (take t xs) = omega (arith, length-take t xs) in
      rw
        (
          drop-append_at (take t xs) (rs ++ drop t xs) t at,
          take-append_at (take t xs) (rs ++ drop t xs) t at,
        )
        (append_assoc rs (drop t xs) (take t xs))

  rotate-shrink :
      t < cap
      → cap < n
      → drop t (take t xs ++ drop (t + n - cap) xs) ++ take t (take t xs ++ drop (t + n - cap) xs)
        ≡ drop (n - cap) (drop t xs ++ take t xs)
  rotate-shrink h k =
      let at : t ≡ length (take t xs) = omega (arith, length-take t xs) in
      rw
        (
          drop-append_at (take t xs) (drop (t + n - cap) xs) t at,
          take-append_at (take t xs) (drop (t + n - cap) xs) t at,
          drop-append_left (drop t xs) (take t xs) (n - cap) (omega (arith, length-drop t xs)),
          drop-drop xs t (n - cap) (t + n - cap) (omega arith),
        )
        refl

  rotate-cut :
      cap ≤ t
      → drop 0 (take cap (drop (t - cap) xs)) ++ take 0 (take cap (drop (t - cap) xs))
        ≡ drop (n - cap) (drop t xs ++ take t xs)
  rotate-cut h =
      append-nil (take cap (drop (t - cap) xs))
      ∙ sym (
          drop-append_right (drop t xs) (take t xs) (n - cap) (t - cap)
            (omega (arith, length-drop t xs))
          ∙ drop-take xs t (t - cap) cap (omega arith))

-- The queue of the last packets at a capacity, from the queue before: empty slots in front of it,
-- or its newest entries.
abbrev pub resized : List Entry → ℕ → ℕ → List Entry
resized h n capacity =
    if leb n capacity then replicate (capacity - n) no_entry ++ h else drop (n - capacity) h

-- `resize` on a valid cache returns a cache of the capacity, whose tail is an index of it (or 0),
-- and which holds as many of the last packets, in their order, as fit.
pub resize-history :
    (c : Cache) (capacity : ℕ)
    → IsValid c
    → Returns
        (λ c'.
          (length c'.entries ≡ capacity)
          × (c'.tail ≤ capacity - 1)
          × (history c' ≡ resized (history c) (length c.entries) capacity))
        (resize c capacity)
unfolding resize
resize-history c capacity v =
    let es = c.entries in
    let n = length es in
    let t = c.tail in
    let t_le : t ≤ n = omega (arith, v.tail_in) in
    let in_range : ltb n t ≡ false = ground (arith, v.tail_in) in
    elim (Bool-cases (n == capacity)) [
      | inl same ↦
          let fits : leb n capacity ≡ true = ground arith in
          let none_left : capacity - n ≡ 0 = ground arith in
          rw (same, fits, none_left) (ground arith, ground (arith, v.tail_in), refl)
      | inr other ↦ elim (Bool-cases (ltb n capacity)) [
        | inl grow ↦
            let fits : leb n capacity ≡ true = ground arith in
            let rs = replicate (capacity - n) no_entry in
            let larger : n < capacity = ground arith in
            rw (other, in_range, grow, fits)
              (
                omega (
                  arith,
                  length-append (take t es) (rs ++ drop t es),
                  length-append rs (drop t es),
                  length-take t es,
                  length-drop t es,
                  length-replicate (capacity - n) no_entry,
                ),
                omega (arith, v.tail_in),
                rotate-grow es rs t n capacity refl t_le,
              )
        | inr less ↦
            let smaller : capacity < n = ground arith in
            let cut_off : leb n capacity ≡ false = ground arith in
            elim (Bool-cases (ltb t capacity)) [
              | inl keep ↦
                  let below : t < capacity = ground arith in
                  rw (other, in_range, less, keep, cut_off)
                    (
                      omega (
                        arith,
                        length-append (take t es) (drop (t + n - capacity) es),
                        length-take t es,
                        length-drop (t + n - capacity) es,
                      ),
                      omega arith,
                      rotate-shrink es [] t n capacity refl t_le below smaller,
                    )
              | inr cut ↦
                  let above : capacity ≤ t = ground arith in
                  rw (other, in_range, less, cut, cut_off)
                    (
                      omega (
                        arith,
                        length-take capacity (drop (t - capacity) es),
                        length-drop (t - capacity) es,
                      ),
                      omega arith,
                      rotate-cut es [] t n capacity refl t_le above,
                    )
            ]
      ]
    ]

take_kept :
    (xs ys : List Entry) (t i : ℕ)
    → i < t
    → t ≤ length xs
    → get_elem? (take t xs ++ ys) i ≡ get_elem? xs i
take_kept xs ys t i h k =
    get_elem?-append_left (take t xs) ys i (omega (arith, length-take t xs))
    ∙ get_elem?-take t xs i h

-- A packet at an index below the tail keeps the index, if the capacity covers the tail.
resize-index :
    (c : Cache) (capacity i : ℕ)
    → IsValid c
    → i < c.tail
    → c.tail ≤ capacity
    → Returns (λ c'. get_elem? c'.entries i ≡ get_elem? c.entries i) (resize c capacity)
unfolding resize
resize-index c capacity i v h k =
    let es = c.entries in
    let n = length es in
    let t = c.tail in
    let t_le : t ≤ n = omega (arith, v.tail_in) in
    elim (Bool-cases (n == capacity)) [
      | inl same ↦ rw same refl
      | inr other ↦ elim (Bool-cases (ltb n capacity)) [
        | inl grow ↦
            let in_range : ltb n t ≡ false = ground arith in
            rw (other, in_range, grow) (take_kept es _ t i h t_le)
        | inr less ↦
            let in_range : ltb n t ≡ false = ground arith in
            elim (Bool-cases (ltb t capacity)) [
              | inl keep ↦ rw (other, in_range, less, keep) (take_kept es _ t i h t_le)
              | inr cut ↦
                  let start : t - capacity ≡ 0 = ground arith in
                  rw (other, in_range, less, cut, start)
                    (get_elem?-take capacity es i (omega arith))
            ]
      ]
    ]

-- `ResizeCond` on a valid cache returns, and a packet at an index below the tail is found at the
-- same index afterwards.
resize_cond-index :
    (c : Cache) (capacity i : ℕ)
    → IsValid c
    → i < c.tail
    → Returns
        (λ (x : Cache × Bool). get_elem? x.0.entries i ≡ get_elem? c.entries i)
        (resize_cond c capacity)
unfolding resize_cond
resize_cond-index c capacity i v h =
    elim (Bool-cases
      (leb (capacity * 3 / 4) (length c.entries) && ltb (length c.entries) (capacity * 2))) [
        | inl near ↦ rw near refl
        | inr far ↦ elim (Bool-cases (ltb capacity (length c.entries) && ltb capacity c.tail)) [
          | inl risky ↦ rw (far, risky) refl
          | inr safe ↦
              rw (far, safe)
                (Returns->>= _
                  (λ (x : Cache × Bool). get_elem? x.0.entries i ≡ get_elem? c.entries i)
                  (resize c capacity) _ (resize-index c capacity i v h (ground (arith, v.tail_in)))
                  (λ x e. e))
        ]
      ]
