-- ===== src/PacketMap/Lookup.antt =====
-- packetmap/packetmap.go: what `direct` and `Reverse` answer about a number that was just sent.
use galene.Base.{
  Returns-×, Returns->>=, ap, sym, Returns-some, ◌>>=◌, ◌≤◌, ◌%◌, inr, ◌∙◌, inl, All-get_elem?,
  Returns, ℕ, zero, suc, ◌+◌, ◌^◌, ◌<◌, ◌≡◌, refl, true, some, List, [], ◌∷◌, ◌++◌, length,
  get_elem?, arith, Bool-cases, non_empty, ltb, ◌==◌, ◌&&◌, get_elem?-in_range, get_elem?-set_self,
  length_pos, non_empty-set, non_empty-append,
}
use mathlib.Core.Option.{some-injective}
use galene.Base.Word.{u16, sub16}
use galene.Seqno.{compare16, is_le, is_lt, is_ge}
use galene.PacketMap.{
  advance, has_entries, Reply, scan, direct, reverse, map, Entry, Map, add_mapping, new_entry,
  push_entry,
}
use galene.PacketMap.Bounds.{add_mapping-Extends, IsValid, IsWords, new_entry-IsWords}

-- The last entry of the table ends with the number, and renumbers it by the map's delta.
pub record EndsWith (m : Map) (seqno delta pid_delta : ℕ) : Type 0 where
  pub entry : Entry
  pub last : get_elem? m.entries m.last_entry ≡ some entry
  pub nonempty : non_empty m.entries ≡ true
  pub count_is : entry.count ≡ u16 (sub16 seqno entry.first + 1)
  pub delta_is : entry.delta ≡ delta
  pub pid_delta_is : entry.pid_delta ≡ pid_delta
  pub first_word : entry.first < 2 ^ 16

new_entry_fields :
    (e : Entry) (seqno delta pid_delta : ℕ)
    → let e' = new_entry e seqno delta pid_delta in
      (e'.count ≡ u16 (sub16 seqno e'.first + 1)) × (e'.delta ≡ delta) × (e'.pid_delta ≡ pid_delta)
unfolding new_entry
new_entry_fields e seqno delta pid_delta = (refl, refl, refl)

at_end : (xs : List Entry) (e : Entry) (i : ℕ) → i ≡ length xs → get_elem? (xs ++ e ∷ []) i ≡ some e
at_end [] e zero h = refl
at_end [] e (suc i) h = absurd (omega arith)
at_end (x ∷ xs) e zero h = absurd (omega arith)
at_end (x ∷ xs) e (suc i) h = at_end xs e i (omega arith)

module _ (m : Map) (seqno delta pid_delta : ℕ) (v : IsValid m) (hs : seqno < 2 ^ 16)
    (hd : delta < 2 ^ 16) (hp : pid_delta < 2 ^ 16) where
  push_entry-EndsWith :
      (e : Entry)
      → non_empty m.entries ≡ true
      → Returns
          (λ m'. EndsWith m' seqno delta pid_delta)
          (push_entry m (new_entry e seqno delta pid_delta))
  unfolding push_entry
  push_entry-EndsWith e some_entry =
      let e' = new_entry e seqno delta pid_delta in
      let made = new_entry-IsWords e seqno delta pid_delta hs hd hp in
      let fields = new_entry_fields e seqno delta pid_delta in
      elim (Bool-cases (ltb (length m.entries) 128)) [
        | inl room ↦ rw room (record {
          entry = e';
          last = at_end m.entries e' (length m.entries % 2 ^ 16) (omega (arith, v.few));
          nonempty = non_empty-append m.entries e';
          count_is = fields.0;
          delta_is = fields.1;
          pid_delta_is = fields.2;
          first_word = made.first_word;
        })
        | inr full ↦
            let j = u16 (m.last_entry + 1) % 128 in
            let (x, at) = get_elem?-in_range m.entries j (ground arith) in
            rw full (
              rw at (record {
                entry = e';
                last = get_elem?-set_self m.entries j e' (ground arith);
                nonempty = non_empty-set m.entries j e' ∙ some_entry;
                count_is = fields.0;
                delta_is = fields.1;
                pid_delta_is = fields.2;
                first_word = made.first_word;
              }))
      ]

  add_mapping-EndsWith :
      non_empty m.entries ≡ true
      → Returns (λ m'. EndsWith m' seqno delta pid_delta) (add_mapping m seqno delta pid_delta)
  unfolding add_mapping
  add_mapping-EndsWith some_entry =
      let bound : m.last_entry < length m.entries =
        omega (arith, v.last_in, length_pos m.entries some_entry) in
      let (e, at) = get_elem?-in_range m.entries m.last_entry bound in
      let w : IsWords e = All-get_elem? IsWords m.entries m.last_entry v.words at in
      let e' : Entry = record e { count = u16 (sub16 seqno e.first + 1) } in
      rw (some_entry, at)
        (elim (Bool-cases (delta == e.delta && pid_delta == e.pid_delta)) [
          | inl same ↦ rw same (record {
            entry = e';
            last = get_elem?-set_self m.entries m.last_entry e' bound;
            nonempty = non_empty-set m.entries m.last_entry e' ∙ some_entry;
            count_is = refl;
            delta_is = ground arith;
            pid_delta_is = ground arith;
            first_word = w.first_word;
          })
          | inr other ↦ rw other (push_entry-EndsWith e some_entry)
        ])

-- An entry that covers the number answers at once.
scan_hit :
    (entries : List Entry) (last seqno : ℕ) (start target : Entry → ℕ) (fuel i : ℕ) (e : Entry)
    → 0 < fuel
    → get_elem? entries i ≡ some e
    → is_ge (compare16 seqno (start e)) ≡ true
    → is_lt (compare16 seqno (u16 (start e + e.count))) ≡ true
    → scan entries last seqno start target fuel i ≡ some (true, target e, e.pid_delta)
unfolding scan
scan_hit entries last seqno start target zero i e h at ge lt = absurd (omega arith)
scan_hit entries last seqno start target (suc fuel) i e h at ge lt = rw (at, ge, lt)

module _ (m : Map) (seqno delta pid_delta : ℕ) (end : EndsWith m seqno delta pid_delta)
    (hs : seqno < 2 ^ 16) (hd : delta < 2 ^ 16) (short : sub16 seqno end.entry.first < 2 ^ 15) where
  direct-EndsWith : direct m seqno ≡ some (true, u16 (seqno + delta), pid_delta)
  unfolding direct compare16
  direct-EndsWith =
      let e = end.entry in
      rw end.nonempty (
        scan_hit m.entries m.last_entry seqno (λ e. e.first) (λ e. u16 (seqno + e.delta))
          (length m.entries) m.last_entry e (length_pos m.entries end.nonempty) end.last
          (ground arith) (ground (arith, end.count_is))
        ∙ ground (arith, end.delta_is, end.pid_delta_is))

  reverse-EndsWith : reverse m (u16 (seqno + delta)) ≡ some (true, seqno, pid_delta)
  unfolding reverse compare16
  reverse-EndsWith =
      let e = end.entry in
      rw end.nonempty (
        scan_hit m.entries m.last_entry (u16 (seqno + delta)) (λ e. u16 (e.first + e.delta))
          (λ e. sub16 (u16 (seqno + delta)) e.delta) (length m.entries) m.last_entry e
          (length_pos m.entries end.nonempty) end.last (ground (arith, end.delta_is))
          (ground (arith, end.count_is, end.delta_is))
        ∙ ground (arith, end.delta_is, end.pid_delta_is))

-- What `Map` leaves behind for a new packet.
abbrev pub Recorded : Map → ℕ → Map × Reply → Type 0
Recorded m seqno (m', r) =
    EndsWith m' seqno m.delta m.pid_delta × (r ≡ (true, u16 (seqno + m.delta), m.pid_delta))

map-Recorded :
    (m : Map) (seqno pid : ℕ)
    → IsValid m
    → has_entries m ≡ true
    → seqno < 2 ^ 16
    → is_le (compare16 m.next seqno) ≡ true
    → sub16 seqno m.next ≤ 8192
    → Returns (Recorded m seqno) (map m seqno pid)
unfolding map
map-Recorded m seqno pid v some_entry hs ahead near =
    let added = add_mapping m seqno m.delta m.pid_delta in
    let ends =
      add_mapping-EndsWith m seqno m.delta m.pid_delta v hs v.delta_word v.pid_delta_word
        some_entry in
    let extends =
      add_mapping-Extends m seqno m.delta m.pid_delta v hs v.delta_word v.pid_delta_word in
    rw (← map_ahead) (
      Returns->>= _ (Recorded m seqno) added _ (Returns-× _ _ added ends extends) (λ m₁ h. (
        advance-EndsWith m₁ h.0,
        ap (λ (p : ℕ). (true, u16 (seqno + m.delta), p)) h.1.pid_delta_same,
      )))
  where
    map_ahead :
        (add_mapping m seqno m.delta m.pid_delta >>= λ m'.
        some (advance m' seqno pid, (true, u16 (seqno + m.delta), m'.pid_delta)))
        ≡ map m seqno pid
    map_ahead = ground arith

    advance-EndsWith :
        (m₁ : Map)
        → EndsWith m₁ seqno m.delta m.pid_delta
        → EndsWith (advance m₁ seqno pid) seqno m.delta m.pid_delta
    advance-EndsWith m₁ end = record {
      entry = end.entry;
      last = end.last;
      nonempty = end.nonempty;
      count_is = end.count_is;
      delta_is = end.delta_is;
      pid_delta_is = end.pid_delta_is;
      first_word = end.first_word;
    }

-- The number that `Map` has just given to a new packet (one at or ahead of the next by at most
-- 8192) leads back to the packet, and a repetition of the packet gets the same number, while the
-- last entry of the table starts less than 2^15 before the packet.
pub reverse-map :
    (m : Map) (seqno pid : ℕ) {m' : Map} {r : Reply} {e : Entry}
    → IsValid m
    → has_entries m ≡ true
    → seqno < 2 ^ 16
    → is_le (compare16 m.next seqno) ≡ true
    → sub16 seqno m.next ≤ 8192
    → map m seqno pid ≡ some (m', r)
    → get_elem? m'.entries m'.last_entry ≡ some e
    → sub16 seqno e.first < 2 ^ 15
    → (reverse m' r.1 ≡ some (true, seqno, r.2)) × (direct m' seqno ≡ some (true, r.1, r.2))
reverse-map m seqno pid {m' = m'} {r = r} {e = e} v some_entry hs ahead near made last short =
    let h : Recorded m seqno (m', r) =
      Returns-some (Recorded m seqno) (map m seqno pid) made
        (map-Recorded m seqno pid v some_entry hs ahead near) in
    let same : h.0.entry ≡ e = some-injective _ _ (sym h.0.last ∙ last) in
    let near_start : sub16 seqno h.0.entry.first < 2 ^ 15 = rw same short in
    rw h.1 (
      reverse-EndsWith m' seqno m.delta m.pid_delta h.0 hs v.delta_word near_start,
      direct-EndsWith m' seqno m.delta m.pid_delta h.0 hs v.delta_word near_start,
    )
