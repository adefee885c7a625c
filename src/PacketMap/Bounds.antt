-- ===== src/PacketMap/Bounds.antt =====
-- packetmap/packetmap.go: the representation invariant of `Map`, and that no method panics.
use galene.PacketMap.Scan.{Answers, scan-Answers}
use galene.Base.{
  Returns->>=, some, refl, ◌>>=◌, non_empty-set, ◌%◌, length_pos, non_empty, non_empty-append, ℕ,
  ◌+◌, ◌-◌, ◌^◌, ◌≤◌, ◌<◌, ◌≡◌, inl, inr, true, false, [], ◌∷◌, length, arith, Bool-cases, Returns,
  All, All-set, All-append, All-get_elem?, length-set, length-append, get_elem?-in_range, ltb,
}
use galene.Base.Word.{u16, sub16}
use galene.PacketMap.{
  map, drop, reset, reset, Reply, reverse, direct, Entry, Map, empty, has_entries, new_entry,
  push_entry, add_mapping,
}

pub record IsWords (e : Entry) : Type 0 where
  pub first_word : e.first < 2 ^ 16
  pub count_word : e.count < 2 ^ 16
  pub delta_word : e.delta < 2 ^ 16
  pub pid_delta_word : e.pid_delta < 2 ^ 16

-- The table holds at most 128 entries, `lastEntry` is an index of it, and numbers are renumbered
-- only once there is a table.
pub record IsValid (m : Map) : Type 0 where
  pub next_word : m.next < 2 ^ 16
  pub next_pid_word : m.next_pid < 2 ^ 16
  pub delta_word : m.delta < 2 ^ 16
  pub pid_delta_word : m.pid_delta < 2 ^ 16
  pub few : length m.entries ≤ 128
  pub last_in : m.last_entry ≤ length m.entries - 1
  pub words : All IsWords m.entries
  pub fresh : has_entries m ≡ false → m.delta ≡ 0

pub empty-IsValid : IsValid empty
empty-IsValid = ground arith

-- What an operation on the table leaves alone.
pub record Extends (m m' : Map) : Type 0 where
  pub valid : IsValid m'
  pub next_same : m'.next ≡ m.next
  pub delta_same : m'.delta ≡ m.delta
  pub pid_delta_same : m'.pid_delta ≡ m.pid_delta
  pub entries_kept : has_entries m' ≡ has_entries m

pub new_entry-IsWords :
    (e : Entry) (seqno delta pid_delta : ℕ)
    → seqno < 2 ^ 16
    → delta < 2 ^ 16
    → pid_delta < 2 ^ 16
    → IsWords (new_entry e seqno delta pid_delta)
unfolding new_entry
new_entry-IsWords e seqno delta pid_delta hs hd hp = ground arith

push_entry-Extends :
    (m : Map) (e : Entry)
    → IsValid m
    → has_entries m ≡ true
    → IsWords e
    → Returns (Extends m) (push_entry m e)
unfolding push_entry
push_entry-Extends m e v h w = elim (Bool-cases (ltb (length m.entries) 128)) [
  | inl room ↦ rw room (
      ground (
        arith,
        All-append IsWords m.entries (e ∷ []) v.words,
        length-append m.entries (e ∷ []),
        non_empty-append m.entries e,
      ))
  | inr full ↦
      let j = u16 (m.last_entry + 1) % 128 in
      let (x, at) = get_elem?-in_range m.entries j (ground arith) in
      rw full (
        rw at (
          ground (
            arith,
            All-set IsWords m.entries j e v.words w,
            length-set m.entries j e,
            non_empty-set m.entries j e,
          )))
]

pub add_mapping-Extends :
    (m : Map) (seqno delta pid_delta : ℕ)
    → IsValid m
    → seqno < 2 ^ 16
    → delta < 2 ^ 16
    → pid_delta < 2 ^ 16
    → Returns (Extends m) (add_mapping m seqno delta pid_delta)
unfolding add_mapping
add_mapping-Extends m seqno delta pid_delta v hs hd hp = elim (Bool-cases (non_empty m.entries)) [
  | inl some_entry ↦
      let (e, at) =
        get_elem?-in_range m.entries m.last_entry
          (omega (arith, v.last_in, length_pos m.entries some_entry)) in
      rw (some_entry, at)
        (let e' : Entry = record e { count = u16 (sub16 seqno e.first + 1) } in
          let w : IsWords e = All-get_elem? IsWords m.entries m.last_entry v.words at in
          let h : has_entries m ≡ true = some_entry in
          ground (
            arith,
            All-set IsWords m.entries m.last_entry e' v.words (ground arith),
            length-set m.entries m.last_entry e',
            non_empty-set m.entries m.last_entry e',
            push_entry-Extends m (new_entry e seqno delta pid_delta) v h
                (new_entry-IsWords e seqno delta pid_delta hs hd hp),
          ))
  | inr no_entry ↦ rw no_entry (ground arith)
]

pub direct-Answers :
    (m : Map) (seqno : ℕ)
    → IsValid m
    → Returns
        (Answers m.entries m.last_entry seqno (λ e. e.first) (λ e. u16 (seqno + e.delta)))
        (direct m seqno)
unfolding direct
direct-Answers m seqno v = elim (Bool-cases (non_empty m.entries)) [
  | inl some_entry ↦
      let pos : 0 < length m.entries = length_pos m.entries some_entry in
      rw some_entry (
        scan-Answers m.entries m.last_entry seqno _ _ (length m.entries) m.last_entry v.few
          (omega arith) (omega arith) (λ h. omega arith) (λ h. omega arith))
  | inr no_entry ↦ rw no_entry (inl refl)
]

pub reverse-Answers :
    (m : Map) (seqno : ℕ)
    → IsValid m
    → has_entries m ≡ true
    → Returns
        (Answers m.entries m.last_entry seqno
          (λ e. u16 (e.first + e.delta))
          (λ e. sub16 seqno e.delta))
        (reverse m seqno)
unfolding reverse
reverse-Answers m seqno v some_entry =
    let pos : 0 < length m.entries = length_pos m.entries some_entry in
    rw some_entry (
      scan-Answers m.entries m.last_entry seqno _ _ (length m.entries) m.last_entry v.few
        (omega arith) (omega arith) (λ h. omega arith) (λ h. omega arith))

-- The state after a call is valid, and the number in the reply is a uint16.
abbrev pub Sound : Map × Reply → Type 0
Sound (m, r) = IsValid m × (r.1 < 2 ^ 16)

direct-Sound :
    (m : Map) (seqno : ℕ) → IsValid m → Returns Sound (direct m seqno >>= λ r. some (m, r))
direct-Sound m seqno v =
    Returns->>= _ Sound (direct m seqno) (λ r. some (m, r)) (direct-Answers m seqno v)
      (λ r h. ground (arith, h))

-- Every call of `Map` on a valid map returns: no index is out of range and the scan ends. The map
-- stays valid.
pub map-Sound :
    (m : Map) (seqno pid : ℕ)
    → IsValid m
    → seqno < 2 ^ 16
    → pid < 2 ^ 16
    → Returns Sound (map m seqno pid)
unfolding map reset
map-Sound m seqno pid v hs hp = ground (
  arith,
  direct-Sound m seqno v,
  add_mapping-Extends m seqno m.delta m.pid_delta v hs v.delta_word v.pid_delta_word,
)

-- `Drop` keeps a map valid.
pub drop-IsValid :
    (m : Map) (seqno pid : ℕ)
    → IsValid m
    → seqno < 2 ^ 16
    → pid < 2 ^ 16
    → IsValid (drop m seqno pid).0
unfolding drop
drop-IsValid m seqno pid v hs hp = ground arith
