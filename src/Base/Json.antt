-- ===== src/Base/Json.antt =====
-- What `encoding/json` decodes a value to, where its type is not known: Go's `interface{}`.
use Prim.Native.Nat.{ℕ}
use mathlib.Core.Bool.{Bool}
use mathlib.Core.Option.{Option, none, some}
use mathlib.Core.List.{List, [], ◌∷◌}
use galene.Base.Strings.{Text, same}
use galene.Base.Tests.{if◌then◌else◌}
use galene.Base.Dict.{Dict, insert, remove}

mutual
  pub data Json : Type 0 where
    null : Json
    text : Text → Json
    number : ℕ → Json
    boolean : Bool → Json
    array : Items → Json
    object : Fields → Json

  pub data Items : Type 0 where
    end : Items
    item : Json → Items → Items

  pub data Fields : Type 0 where
    done : Fields
    field : Text → Json → Fields → Fields

-- `v.(string)`
abbrev pub as_text : Json → Option Text
as_text null = none
as_text (text t) = some t
as_text (number n) = none
as_text (boolean b) = none
as_text (array a) = none
as_text (object o) = none

-- `v.(map[string]interface{})`
abbrev pub as_object : Json → Option Fields
as_object null = none
as_object (text t) = none
as_object (number n) = none
as_object (boolean b) = none
as_object (array a) = none
as_object (object o) = some o

-- The loops of `setdata` and of `UpdateData`: a null deletes.
abbrev pub merge : Fields → Dict Json → Dict Json
merge done m = m
merge (field k null o) m = merge o (remove k m)
merge (field k (text t) o) m = merge o (insert k (text t) m)
merge (field k (number n) o) m = merge o (insert k (number n) m)
merge (field k (boolean b) o) m = merge o (insert k (boolean b) m)
merge (field k (array a) o) m = merge o (insert k (array a) m)
merge (field k (object p) o) m = merge o (insert k (object p) m)

-- The value of a key; the last field counts.
abbrev pub or_else : Json → Json → Json
or_else null b = b
or_else (text t) b = text t
or_else (number n) b = number n
or_else (boolean v) b = boolean v
or_else (array a) b = array a
or_else (object o) b = object o

abbrev pub at_key : Text → Fields → Json
at_key k done = null
at_key k (field j v o) = let rest = at_key k o in if same j k then or_else rest v else rest

abbrev pub both_texts : Option Text → Option (List Text) → Option (List Text)
both_texts none r = none
both_texts (some t) none = none
both_texts (some t) (some ts) = some (t ∷ ts)

abbrev pub not_nil : Option (List Text) → Option (Option (List Text))
not_nil none = none
not_nil (some ts) = some (some ts)

-- `toStringArray`: none is an error, and a nil slice is `some none`.
abbrev pub texts_of : Items → Option (List Text)
texts_of end = some []
texts_of (item v a) = both_texts (as_text v) (texts_of a)

abbrev pub to_string_array : Json → Option (Option (List Text))
to_string_array null = some none
to_string_array (text t) = none
to_string_array (number n) = none
to_string_array (boolean b) = none
to_string_array (array a) = not_nil (texts_of a)
to_string_array (object o) = none
