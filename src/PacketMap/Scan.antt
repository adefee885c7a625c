-- ===== src/PacketMap/Scan.antt =====
-- packetmap/packetmap.go: the loop that `direct` and `Reverse` share.
use galene.Base.{
  if◌then◌else◌, ℕ, zero, suc, ◌+◌, ◌-◌, ◌≤◌, ◌<◌, ◌≡◌, refl, ◌⊎◌, inl, inr, true, some, List,
  length, get_elem?, arith, Bool-cases, Returns, get_elem?-in_range, ltb, ◌==◌,
}
use galene.Base.Word.{u16}
use galene.Seqno.{compare16, is_lt, is_ge}
use galene.PacketMap.{Entry, Reply, refused, scan}

module _ (entries : List Entry) (last seqno : ℕ) (start target : Entry → ℕ) where
  -- The entry covers the number: the number is at or after its start, and before its end.
  abbrev pub Covers : Entry → Type 0
  Covers e =
      (is_ge (compare16 seqno (start e)) ≡ true)
      × (is_lt (compare16 seqno (u16 (start e + e.count))) ≡ true)

  -- The answer refuses the number, or is that of an entry of the table that covers it.
  abbrev pub Answers : Reply → Type 0
  Answers r =
      (r ≡ refused)
      ⊎ ((k : ℕ) × (e : Entry) × (get_elem? entries k ≡ some e)
          × Covers e
          × (r ≡ (true, target e, e.pid_delta)))

  -- The loop ends within as many rounds as the table has entries: below, `fuel` covers the rounds
  -- from `i` down to 0 and from the end of the table down to `last`.
  pub scan-Answers :
      (fuel i : ℕ)
      → length entries ≤ 128
      → last < length entries
      → i < length entries
      → (i ≤ last → i + length entries ≤ fuel + last)
      → (last < i → i ≤ fuel + last)
      → Returns Answers (scan entries last seqno start target fuel i)
  unfolding scan
  scan-Answers zero i few hl hi low high = grind arith
  scan-Answers (suc fuel) i few hl hi low high =
      let (e, at) = get_elem?-in_range entries i hi in
      let j = if ltb 0 i then i - 1 else u16 (length entries - 1) in
      rw at (elim (Bool-cases (is_ge (compare16 seqno (start e)))) [
        | inl after ↦ elim (Bool-cases (is_lt (compare16 seqno (u16 (start e + e.count))))) [
          | inl inside ↦ rw (after, inside) (inr (i, e, at, (after, inside), refl))
          | inr outside ↦ rw (after, outside) (inl refl)
        ]
        | inr before ↦ elim (Bool-cases (j == last)) [
          | inl round ↦ rw (before, round) (inl refl)
          | inr more ↦
              rw (before, more)
                (scan-Answers fuel j few hl (ground arith) (λ h. ground arith) (λ h. ground arith))
        ]
      ])
