-- ===== src/PacketMap.antt =====
-- packetmap/packetmap.go: the renumbering of a stream some of whose packets are dropped.
-- `none` is a panic (an index out of range, a remainder by zero) or an exhausted scan;
-- `PacketMap.Bounds` shows that neither happens. A nil slice is `[]`: no code makes an empty slice
-- of entries that is not nil. The mutex makes each method one step.
pub mod Scan
pub mod Bounds
pub mod InOrder
pub mod Lookup
pub mod LongRun
mod Tests
use Prim.Native.Nat.{Ordering}
use galene.Base.{
  ℕ, zero, suc, ◌+◌, ◌-◌, ◌*◌, ◌%◌, Bool, true, false, not, ◌&&◌, ◌||◌, Option, none, some, List,
  [], ◌∷◌, ◌++◌, length, non_empty, get_elem?, set, ltb, leb, ◌==◌, if◌then◌else◌, ◌>>=◌, arith,
}
use galene.Base.Word.{u16, sub16}
use galene.Seqno.{compare16, is_le, is_lt, is_ge}

abbrev pub max_entries : ℕ
max_entries = 128

pub record Entry : Type 0 where
  pub first : ℕ
  pub count : ℕ
  pub delta : ℕ
  pub pid_delta : ℕ

pub record Map : Type 0 where
  pub next : ℕ
  pub next_pid : ℕ
  pub delta : ℕ
  pub pid_delta : ℕ
  pub last_entry : ℕ
  pub entries : List Entry

-- the zero value of the type
abbrev pub empty : Map
empty = record { next = 0; next_pid = 0; delta = 0; pid_delta = 0; last_entry = 0; entries = [] }

-- Whether the number could be mapped, the number it is mapped to, and the pid delta.
abbrev pub Reply : Type 0
Reply = Bool × ℕ × ℕ

abbrev pub refused : Reply
refused = (false, 0, 0)

abbrev pub has_entries : Map → Bool
has_entries m = non_empty m.entries

pub reset : Map → Map
reset m = empty

-- The entry that `addMapping` makes for a packet whose delta is not that of the last entry `e`:
-- it covers missing numbers before the packet, unless the targets would overlap.
pub new_entry : Entry → ℕ → ℕ → ℕ → Entry
new_entry e seqno delta pid_delta = record {
  first = f;
  count = u16 (sub16 seqno f + 1);
  delta = delta;
  pid_delta = pid_delta;
}
  where
    d : ℕ
    d = sub16 e.delta delta

    ff : ℕ
    ff = u16 (e.first + e.count + d)

    f : ℕ
    f = if ltb d 8192 && is_lt (compare16 ff seqno) then ff else seqno

-- The end of `addMapping`: the table grows up to its limit, and is a ring from then on.
pub push_entry : Map → Entry → Option Map
push_entry m e =
    if ltb (length m.entries) max_entries
    then some (record m { entries = m.entries ++ e ∷ []; last_entry = u16 (length m.entries) })
    else let j = u16 (m.last_entry + 1) % max_entries in
      (get_elem? m.entries j >>= λ _.
      some (record m { entries = set m.entries j e; last_entry = j }))

pub add_mapping : Map → ℕ → ℕ → ℕ → Option Map
unfolding new_entry push_entry
add_mapping m seqno delta pid_delta =
    if has_entries m
    then (get_elem? m.entries m.last_entry >>= λ e.
        if delta == e.delta && pid_delta == e.pid_delta
        then some (record m {
          entries = set m.entries m.last_entry (record e { count = u16 (sub16 seqno e.first + 1) });
        })
        else push_entry m (new_entry e seqno delta pid_delta))
    else some m

-- The loop of `direct` and of `Reverse`: from entry `i` back to the one after `last`, the first
-- entry that starts at or before `seqno` decides. `start` is where an entry starts, `target` what
-- it maps `seqno` to.
pub scan : List Entry → ℕ → ℕ → (Entry → ℕ) → (Entry → ℕ) → ℕ → ℕ → Option Reply
scan entries last seqno start target zero i = none
scan entries last seqno start target (suc fuel) i = get_elem? entries i >>= λ e.
    let j = if ltb 0 i then i - 1 else u16 (length entries - 1) in
    let rest = scan entries last seqno start target fuel j in
    if is_ge (compare16 seqno (start e))
    then some (
        if is_lt (compare16 seqno (u16 (start e + e.count)))
        then (true, target e, e.pid_delta)
        else refused)
    else if j == last
    then some refused
    else rest

pub direct : Map → ℕ → Option Reply
unfolding scan
direct m seqno =
    if has_entries m
    then scan m.entries m.last_entry seqno (λ e. e.first) (λ e. u16 (seqno + e.delta))
        (length m.entries) m.last_entry
    else some refused

pub reverse : Map → ℕ → Option Reply
unfolding scan
reverse m seqno =
    if has_entries m
    then scan m.entries m.last_entry seqno (λ e. u16 (e.first + e.delta)) (λ e. sub16 seqno e.delta)
        (length m.entries) m.last_entry
    else some (if m.delta == 0 then (true, seqno, 0) else refused)

-- The last lines of each accepting branch of `Map`.
abbrev pub advance : Map → ℕ → ℕ → Map
advance m seqno pid = record m { next = u16 (seqno + 1); next_pid = pid }

-- `Map`
pub map : Map → ℕ → ℕ → Option (Map × Reply)
unfolding reset
map m seqno pid =
    if m.delta == 0 && not (has_entries m)
    then some (
      if is_le (compare16 m.next seqno) || ltb (8 * 1024) (sub16 m.next seqno)
          then advance m seqno pid
          else m,
      (true, seqno, 0),
    )
    else if is_le (compare16 m.next seqno)
    then if ltb (8 * 1024) (sub16 seqno m.next)
      then some (advance (reset m) seqno pid, (true, seqno, 0))
      else (add_mapping m seqno m.delta m.pid_delta >>= λ m'.
          some (advance m' seqno pid, (true, u16 (seqno + m.delta), m'.pid_delta)))
    else if ltb (8 * 1024) (sub16 m.next seqno)
    then some (advance (reset m) seqno pid, (true, seqno, 0))
    else (direct m seqno >>= λ r. some (m, r))

-- `Drop`
pub drop : Map → ℕ → ℕ → Map × Bool
drop m seqno pid =
    if seqno == m.next
    then (
      record {
        entries =
            if has_entries m
            then m.entries
            else record { first = sub16 seqno 8192; count = 8192; delta = 0; pid_delta = 0 } ∷ [];
        pid_delta = u16 (m.pid_delta + sub16 pid m.next_pid);
        next_pid = pid;
        delta = sub16 m.delta 1;
        next = u16 (seqno + 1);
        last_entry = m.last_entry;
      },
      true,
    )
    else (m, false)
