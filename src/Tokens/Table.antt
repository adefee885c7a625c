-- ===== src/Tokens/Table.antt =====
-- token/stateful.go: the table of stateful tokens, which is kept in step with a file of one token a
-- line. What each library call returns is an argument, and no one else writes the file during a call.
pub mod Changes
mod Tests
use mathlib.Core.List.{◌++◌}
use galene.Base.{
  ◌==◌, ℕ, ◌+◌, ◌*◌, Bool, true, false, not, ◌&&◌, ◌||◌, Option, none, some, List, [], ◌∷◌,
  if◌then◌else◌, Text, same, ltb,
}
use galene.Base.Dict.{Dict, find, insert, remove}
use galene.Base.Results.{Result, ok, err, ◌>>=◌}
use galene.Tokens.{Stateful}

-- The errors; `malformed` is one of the decoder's, `other` any other of a library.
pub data TableError : Type 0 where
  not_exist : TableError
  tag_mismatch : TableError
  both_given : TableError
  malformed : TableError
  other : ℕ → TableError

-- What the file decodes to, if it does, and its size and time.
pub record File : Type 0 where
  pub contents : Option (List Stateful)
  pub stamp : ℕ × ℕ

-- `state`; `named` says that there is a file name, the time 0 is the zero time, and `none` is a nil
-- map.
pub record State : Type 0 where
  pub named : Bool
  pub file_size : ℕ
  pub mod_time : ℕ
  pub tokens : Option (Dict Stateful)

pub record Table : Type 0 where
  pub state : State
  pub disk : Option File

-- The errors of `os.Stat`, of `os.Open` and of the file's `Stat`, in `load`.
pub record Reading : Type 0 where
  pub stat : Option ℕ
  pub opening : Option TableError
  pub restat : Option TableError

-- The errors of the calls that write, the file's stamp after them, and what the file decodes to where
-- `Encode` has failed in `add`.
pub record Writing : Type 0 where
  pub mkdir : Option ℕ
  pub opening : Option ℕ
  pub encode : Option ℕ
  pub partly : Option (List Stateful)
  pub remove : Option ℕ
  pub create : Option ℕ
  pub close : Option ℕ
  pub rename : Option ℕ
  pub stat : Option ℕ
  pub stamp : ℕ × ℕ

-- `reset`
abbrev pub reset : State → State
reset s = record s { mod_time = 0; file_size = 0; tokens = none }

abbrev pub stamped : State → ℕ × ℕ → State
stamped s (size, time) = record s { file_size = size; mod_time = time }

-- The map that the loop of `load` makes of the lines.
abbrev pub of_lines : List Stateful → Dict Stateful → Dict Stateful
of_lines [] m = m
of_lines (t ∷ ts) m = of_lines ts (insert t.token t m)

-- The order of `list`: tokens that do not expire come first.
abbrev pub expires_before : Option ℕ → Option ℕ → Bool
expires_before a none = false
expires_before none (some y) = true
expires_before (some x) (some y) = ltb x y

abbrev pub less : Stateful → Stateful → Bool
less a b = expires_before a.expires b.expires

abbrev pub select : Text → Bool → Dict Stateful → List Stateful
select group all [] = []
select group all ((k, t) ∷ m) =
    let rest = select group all m in if not all && not (same t.group group) then rest else t ∷ rest

abbrev pub or_empty : Option (Dict Stateful) → Dict Stateful
or_empty none = []
or_empty (some m) = m

abbrev pub contents_of : Option File → Option (List Stateful)
contents_of none = some []
contents_of (some f) = f.contents

-- A file that is opened with `O_APPEND`, after the line has been written.
abbrev pub append_line : Option (List Stateful) → Stateful → Option (List Stateful)
append_line none t = none
append_line (some ts) t = some (ts ++ t ∷ [])

-- The end of `add` and of `rewrite`: the state takes over the file's stamp, or is reset.
abbrev pub settle_stamp : Option ℕ → ℕ × ℕ → State → State
settle_stamp none stamp s = stamped s stamp
settle_stamp (some e) stamp s = reset s

-- `add`, from `Encode` on, and from its start.
abbrev pub add_encoded : Option ℕ → Writing → Table → Stateful → Table × Result TableError Stateful
add_encoded (some e) w t new =
    (record t { disk = some (record { contents = w.partly; stamp = w.stamp }) }, err (other e))
add_encoded none w t new = (
  record {
    state =
        settle_stamp w.stat w.stamp
          (record (t.state) { tokens = some (insert new.token new (or_empty t.state.tokens)) });
    disk = some (record { contents = append_line (contents_of t.disk) new; stamp = w.stamp });
  },
  ok new,
)

abbrev pub add_opened :
    Option ℕ → Option ℕ → Writing → Table → Stateful → Table × Result TableError Stateful
add_opened (some e) o w t new = (t, err (other e))
add_opened none (some e) w t new = (t, err (other e))
add_opened none none w t new = add_encoded w.encode w t new

pub add : Writing → Table → Stateful → Table × Result TableError Stateful
add w t new = add_opened w.mkdir w.opening w t new

-- `os.IsNotExist` is no error of `load`.
abbrev pub unless_missing : TableError → Text → Result TableError Text
unless_missing not_exist tag = ok tag
unless_missing tag_mismatch tag = err tag_mismatch
unless_missing both_given tag = err both_given
unless_missing malformed tag = err malformed
unless_missing (other e) tag = err (other e)

-- `state.tokens[k] = old`, which panics on a nil map.
abbrev pub restore : Table → Option (Dict Stateful) → Text → Stateful → Option Table
restore t none k old = none
restore t (some m) k old =
    some (record t { state = record (t.state) { tokens = some (insert k old m) } })

abbrev pub restored : Option Table → TableError → Option (Table × Result TableError Stateful)
restored none e = none
restored (some t) e = some (t, err e)

-- How `Update` and `Delete` end, after `rewrite`.
abbrev pub finish_change :
    Table × Option TableError
    → Stateful
    → Text
    → Stateful
    → Option (Table × Result TableError Stateful)
finish_change (t, none) new k old = some (t, ok new)
finish_change (t, some e) new k old = restored (restore t t.state.tokens k old) e

-- The comparison of stamps in `load`.
abbrev pub is_current : File → State → Bool
is_current f s = s.mod_time == f.stamp.1 && s.file_size == f.stamp.0

-- A week, in nanoseconds.
abbrev week : ℕ
week = 7 * 24 * 3600 * 1000000000

abbrev pub is_old : Option ℕ → ℕ → Bool
is_old none now = false
is_old (some x) now = ltb (x + week) now

-- The loop of `Expire`: the tokens that stay.
abbrev pub keep_recent : ℕ → Dict Stateful → Dict Stateful
keep_recent now [] = []
keep_recent now ((k, t) ∷ m) =
    let rest = keep_recent now m in if is_old t.expires now then rest else (k, t) ∷ rest

abbrev pub has_old : ℕ → Dict Stateful → Bool
has_old now [] = false
has_old now ((k, t) ∷ m) = is_old t.expires now || has_old now m

-- `makeETag` is the format of an ETag, and `sort` is `sort.Slice` on the map's values.
module _ (make_etag : ℕ × ℕ → Text)
    (sort : (Stateful → Stateful → Bool) → List Stateful → List Stateful) where
  -- `etag`
  abbrev pub etag : State → Text
  etag s = if s.mod_time == 0 then [] else make_etag (s.file_size, s.mod_time)

  -- `load`, from the decoding, from `os.Open`, from the comparison of stamps, and from `os.Stat` on.
  abbrev pub load_decoded :
      Option TableError → ℕ × ℕ → Option (List Stateful) → State → State × Result TableError Text
  load_decoded e stamp none s = (reset s, err malformed)
  load_decoded (some e) stamp (some ts) s = (reset s, unless_missing e [])
  load_decoded none stamp (some ts) s =
      let s' = stamped (record s { tokens = some (of_lines ts []) }) stamp in (s', ok (etag s'))

  abbrev pub load_opened :
      Option TableError → Reading → File → State → State × Result TableError Text
  load_opened (some e) r f s = (reset s, unless_missing e (etag (reset s)))
  load_opened none r f s = load_decoded r.restat f.stamp f.contents s

  abbrev pub load_found : Option ℕ → Reading → Option File → State → State × Result TableError Text
  load_found (some e) r d s = (reset s, err (other e))
  load_found none r none s = (reset s, ok [])
  load_found none r (some f) s =
      if is_current f s then (s, ok (etag s)) else load_opened r.opening r f s

  unfoldable pub load : Reading → Option File → State → State × Result TableError Text
  load r d s = if not s.named then (reset s, ok []) else load_found r.stat r d s

  -- `Get`
  abbrev pub token_at : Option (Dict Stateful) → Text → Text → Result TableError (Stateful × Text)
  token_at none k tag = err not_exist
  token_at (some m) k tag = elim (find k m) [ none ↦ err not_exist | some t ↦ ok (t, tag) ]

  pub get : Reading → Table → Text → Table × Result TableError (Stateful × Text)
  get r t k =
      let (s, loaded) = load r t.disk t.state in
      (record t { state = s }, loaded >>= λ tag. token_at s.tokens k tag)

  -- `list`, and `List` for one group.
  abbrev pub listed :
      Text
      → Bool
      → State × Result TableError Text
      → State × Result TableError (List Stateful × Text)
  listed group all (s, err e) = (s, err e)
  listed group all (s, ok tag) = (s, ok (sort less (select group all (or_empty s.tokens)), etag s))

  pub list :
      Reading → Option File → State → Text → Bool → State × Result TableError (List Stateful × Text)
  list r d s group all =
      if not (same group []) && all then (s, err both_given) else listed group all (load r d s)

  -- `rewrite`, from `Rename` and `Close` back to its start.
  abbrev pub renamed :
      Option ℕ → Option ℕ → Option ℕ → Writing → Table → List Stateful → Table × Option TableError
  renamed (some e) c r w t a = (t, some (other e))
  renamed none (some e) r w t a = (t, some (other e))
  renamed none none (some e) w t a = (t, some (other e))
  renamed none none none w t a = (
    record {
      state = settle_stamp w.stat w.stamp t.state;
      disk = some (record { contents = some a; stamp = w.stamp });
    },
    none,
  )

  abbrev pub rewrite_listed :
      Writing → Table → State × Result TableError (List Stateful × Text) → Table × Option TableError
  rewrite_listed w t (s, err e) = (record t { state = s }, some e)
  rewrite_listed w t (s, ok (a, tag)) =
      renamed w.encode w.close w.rename w (record t { state = s }) a

  abbrev pub rewrite_created : Option ℕ → Reading → Writing → Table → Table × Option TableError
  rewrite_created (some e) r w t = (t, some (other e))
  rewrite_created none r w t = rewrite_listed w t (list r t.disk t.state [] true)

  abbrev pub removed : Option ℕ → Table → Table × Option TableError
  removed (some e) t = (t, some (other e))
  removed none t = (record t { disk = none }, none)

  abbrev pub rewrite_tokens : Dict Stateful → Reading → Writing → Table → Table × Option TableError
  rewrite_tokens [] r w t = removed w.remove t
  rewrite_tokens (x ∷ m) r w t = rewrite_created w.create r w t

  unfoldable pub rewrite : Reading → Writing → Table → Table × Option TableError
  rewrite r w t = rewrite_tokens (or_empty t.state.tokens) r w t

  -- `Update`: `first` is what `load` meets, `second` what `rewrite` meets in its own `load`.
  abbrev pub update_entry :
      Option Stateful
      → Reading
      → Writing
      → Table
      → Stateful
      → Text
      → Option (Table × Result TableError Stateful)
  update_entry none second w t new tag =
      if not (same tag []) then some (t, err tag_mismatch) else some (add w t new)
  update_entry (some old) second w t new tag =
      if not (same tag (etag t.state))
      then some (t, err tag_mismatch)
      else finish_change
          (rewrite second w (record t {
            state = record (t.state) {
              tokens = some (insert new.token new (or_empty t.state.tokens));
            };
          }))
          new new.token old

  abbrev pub update_loaded :
      State × Result TableError Text
      → Reading
      → Writing
      → Table
      → Stateful
      → Text
      → Option (Table × Result TableError Stateful)
  update_loaded (s, err e) second w t new tag = some (record t { state = s }, err e)
  update_loaded (s, ok old_tag) second w t new tag =
      update_entry (find new.token (or_empty s.tokens)) second w
        (record t { state = record s { tokens = some (or_empty s.tokens) } }) new tag

  unfoldable pub update :
      Reading
      → Reading
      → Writing
      → Table
      → Stateful
      → Text
      → Option (Table × Result TableError Stateful)
  update first second w t new tag =
      if not t.state.named
      then some (t, err (if not (same tag []) then tag_mismatch else not_exist))
      else update_loaded (load first t.disk t.state) second w t new tag

  -- `Delete`, whose result here is the token that was there.
  abbrev pub delete_entry :
      Option Stateful
      → Reading
      → Writing
      → Table
      → Text
      → Text
      → Option (Table × Result TableError Stateful)
  delete_entry none second w t k tag = some (t, err not_exist)
  delete_entry (some old) second w t k tag =
      if not (same tag (etag t.state))
      then some (t, err tag_mismatch)
      else finish_change
          (rewrite second w (record t {
            state = record (t.state) { tokens = some (remove k (or_empty t.state.tokens)) };
          }))
          old k old

  abbrev pub delete_loaded :
      State × Result TableError Text
      → Reading
      → Writing
      → Table
      → Text
      → Text
      → Option (Table × Result TableError Stateful)
  delete_loaded (s, err e) second w t k tag = some (record t { state = s }, err e)
  delete_loaded (s, ok old_tag) second w t k tag =
      delete_entry (find k (or_empty s.tokens)) second w (record t { state = s }) k tag

  unfoldable pub delete :
      Reading
      → Reading
      → Writing
      → Table
      → Text
      → Text
      → Option (Table × Result TableError Stateful)
  delete first second w t k tag =
      if not t.state.named
      then some (t, err not_exist)
      else delete_loaded (load first t.disk t.state) second w t k tag

  -- `Expire` at the time `now`.
  abbrev pub expire_loaded :
      ℕ → State × Result TableError Text → Reading → Writing → Table → Table × Option TableError
  expire_loaded now (s, err e) second w t = (record t { state = s }, some e)
  expire_loaded now (s, ok tag) second w t =
      if has_old now (or_empty s.tokens)
      then rewrite second w
          (record t { state = record s { tokens = some (keep_recent now (or_empty s.tokens)) } })
      else (record t { state = s }, none)

  pub expire : ℕ → Reading → Reading → Writing → Table → Table × Option TableError
  expire now first second w t = expire_loaded now (load first t.disk t.state) second w t
