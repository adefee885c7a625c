-- ===== src/Group/Members.antt =====
-- group/group.go: joining and leaving a group, its lock, and what its clients are told.
pub mod Admission
pub mod Ids
pub mod Introduction
pub mod Autolock
use galene.Base.{
  ℕ, suc, ◌+◌, ◌<◌, Bool, true, false, not, ◌&&◌, ◌||◌, Option, none, some, List, [], ◌∷◌, ◌++◌,
  if◌then◌else◌, ltb, leb, ◌==◌, Text, same, contains, length,
}
use galene.Group.{Group, Client}
use galene.Description.{Description}

-- The permissions "op" and "system".
abbrev pub op : Text
op = 111 ∷ 112 ∷ []

abbrev pub system : Text
system = 115 ∷ 121 ∷ 115 ∷ 116 ∷ 101 ∷ 109 ∷ []

-- "this group is locked"
abbrev pub group_is_locked : Text
group_is_locked =
    116 ∷ 104 ∷ 105 ∷ 115 ∷ 32 ∷ 103 ∷ 114 ∷ 111 ∷ 117 ∷ 112 ∷ 32 ∷ 105 ∷ 115 ∷ 32 ∷ 108 ∷ 111 ∷ 99
    ∷ 107 ∷ 101 ∷ 100 ∷ []

-- Why a client may not join; `not_permitted` is the error of `GetPermission`.
pub data Refusal : Type 0 where
  not_permitted : Refusal
  locked : Text → Refusal
  not_open_yet : Refusal
  closed : Refusal
  no_operators : Refusal
  too_many_users : Refusal
  empty_id : Refusal
  duplicate_id : Refusal

-- The kinds "join", "change" and "leave" of `Joined`, and "add" and "delete" of `PushClient`.
pub data Kind : Type 0 where
  join : Kind
  change : Kind
  leave : Kind
  add : Kind
  delete : Kind

-- A call of a method of the client with the given address.
pub data Event (V : Type 0) : Type 0 where
  init : ℕ → Text → List Text → Event V
  joined : ℕ → Kind → Event V
  push_client : ℕ → Kind → Text → Text → List Text → List (Text × V) → Event V
  kick : ℕ → Event V

-- The first of two tests that refuses: an early return.
abbrev pub otherwise : Option Refusal → Option Refusal → Option Refusal
otherwise none r = r
otherwise (some q) r = some q

abbrev pub refuse_if : Bool → Refusal → Option Refusal
refuse_if b r = if b then some r else none

-- The conditions of `AddClient` on the lock and the description's times.
abbrev pub refuse_locked : Option Text → Option Refusal
refuse_locked none = none
refuse_locked (some m) = some (locked (if same m [] then group_is_locked else m))

abbrev pub refuse_early : Option ℕ → ℕ → Option Refusal
refuse_early none now = none
refuse_early (some t) now = refuse_if (ltb now t) not_open_yet

abbrev pub refuse_late : Option ℕ → ℕ → Option Refusal
refuse_late none now = none
refuse_late (some t) now = refuse_if (ltb t now) closed

-- The group, the calls, and the error, if any.
pub record Joining (V : Type 0) : Type 0 where
  pub group : Group V
  pub events : List (Event V)
  pub refusal : Option Refusal

abbrev pub is_nil : Option Text → Bool
is_nil none = true
is_nil (some m) = false

module _ {V : Type 0} where
  -- `g.clients[id]`
  abbrev pub lookup : List (Client V) → Text → Option (Client V)
  lookup [] id = none
  lookup (c ∷ cs) id = let rest = lookup cs id in if same c.id id then some c else rest

  -- `delete(g.clients, id)`
  abbrev pub remove : List (Client V) → Text → List (Client V)
  remove [] id = []
  remove (c ∷ cs) id = let rest = remove cs id in if same c.id id then rest else c ∷ rest

  -- The loop over the clients that looks for an operator.
  abbrev pub has_op : List (Client V) → Bool
  has_op [] = false
  has_op (c ∷ cs) = contains c.permissions op || has_op cs

  -- The conditions of `AddClient` for a client that is not an operator, in their order.
  pub refuse_user : Group V → ℕ → Option Refusal
  refuse_user g now =
      let d = g.description in
      otherwise (refuse_locked g.locked) (
        otherwise (refuse_early d.not_before now) (
          otherwise (refuse_late d.expires now) (
            otherwise (refuse_if (d.autokick && not (has_op g.clients)) no_operators) (
              refuse_if (ltb 0 d.max_clients && leb d.max_clients (length g.clients))
                too_many_users))))

  abbrev pub refuse_known : Option (Client V) → Option Refusal
  refuse_known none = none
  refuse_known (some c) = some duplicate_id

  -- The conditions for any client, on its id.
  pub refuse_id : Group V → Text → Option Refusal
  refuse_id g id = otherwise (refuse_if (same id []) empty_id) (refuse_known (lookup g.clients id))

  -- `Init`: what `GetPermission` found becomes the client's name and permissions.
  pub init_client : Client V → Text → List Text → Client V
  init_client c username permissions = record c { username = username; permissions = permissions }

  -- The calls that tell the new client and the others of each other.
  pub introduce : Client V → List (Client V) → List (Event V)
  introduce c [] = []
  introduce c (d ∷ ds) =
      push_client c.address add d.id d.username d.permissions d.user_data
      ∷ push_client d.address add c.id c.username c.permissions c.user_data
      ∷ introduce c ds

  -- The end of `AddClient`, after the last test.
  abbrev pub settle : Option Refusal → Group V → Client V → ℕ → List (Event V) → Joining V
  settle (some r) g c now before = record { group = g; events = before; refusal = some r }
  settle none g c now before = record {
    group = record g { clients = g.clients ++ c ∷ []; timestamp = now };
    events =
        before
        ++ joined c.address join
          ∷ push_client c.address add c.id c.username c.permissions c.user_data
          ∷ introduce c g.clients;
    refusal = none;
  }

  -- `AddClient` with the result of `GetPermission`, for a client without the permission "system".
  abbrev pub admit : Group V → Client V → Option (Text × List Text) → ℕ → Joining V
  admit g c none now = record { group = g; events = []; refusal = some not_permitted }
  admit g c (some (username, permissions)) now =
      let tests = if contains permissions op then none else refuse_user g now in
      settle (otherwise tests (refuse_id g c.id)) g (init_client c username permissions) now
        (init c.address username permissions ∷ [])

  -- `AddClient` on the group that `Add` returned, at the time `now`.
  pub add_client : Group V → Client V → Option (Text × List Text) → ℕ → Joining V
  add_client g c credentials now =
      if contains c.permissions system
      then settle (refuse_id g c.id) g c now []
      else admit g c credentials now

  abbrev pub tell_all : List (Client V) → Kind → List (Event V)
  tell_all [] k = []
  tell_all (c ∷ cs) k = joined c.address k ∷ tell_all cs k

  -- `SetLocked`
  pub set_locked : Group V → Option Text → Group V × List (Event V)
  set_locked g l = (record g { locked = l }, tell_all g.clients change)

  abbrev pub kick_all : List (Client V) → List (Event V)
  kick_all [] = []
  kick_all (c ∷ cs) = kick c.address ∷ kick_all cs

  -- `autoLockKick`
  unfoldable pub auto_lock_kick : Group V → Group V × List (Event V)
  auto_lock_kick g =
      if not (g.description.autolock && is_nil g.locked) && not g.description.autokick
      then (g, [])
      else if has_op g.clients
      then (g, [])
      else let kicks = if g.description.autokick then kick_all g.clients else [] in
        if g.description.autolock && is_nil g.locked
        then (record g { locked = some group_is_locked }, tell_all g.clients change ++ kicks)
        else (g, kicks)

  -- The permissions of the client with this address, which it changes by itself (`handleAction`).
  abbrev pub set_permissions : ℕ → List Text → List (Client V) → List (Client V)
  set_permissions a permissions [] = []
  set_permissions a permissions (c ∷ cs) =
      (if c.address == a then record c { permissions = permissions } else c)
      ∷ set_permissions a permissions cs

  abbrev pub tell_leaving : List (Client V) → Client V → List (Event V)
  tell_leaving [] c = []
  tell_leaving (d ∷ ds) c = push_client d.address delete c.id c.username [] [] ∷ tell_leaving ds c

  -- `g.clients[c.Id()] == c`, of two pointers.
  abbrev pub is_client : Option (Client V) → Client V → Bool
  is_client none c = false
  is_client (some d) c = d.address == c.address

  -- `DelClient` under the lock, and its notifications. The result says whether the client was there.
  unfoldable pub del_locked : Group V → Client V → ℕ → Bool × Group V × List (Event V)
  del_locked g c now =
      let here = is_client (lookup g.clients c.id) c in
      let left = remove g.clients c.id in
      if here
      then (
        true,
        record g { clients = left; timestamp = now },
        joined c.address leave ∷ tell_leaving left c,
      )
      else (false, g, [])

  -- `DelClient`, with the call of `autoLockKick` at its end.
  pub del_client : Group V → Client V → ℕ → Group V × List (Event V)
  del_client g c now =
      let result = del_locked g c now in
      let kicked = auto_lock_kick result.1 in
      if result.0 then (kicked.0, result.2 ++ kicked.1) else (g, [])

  -- `AddClient` with the call of `autoLockKick` that `Add` makes before it, as one step.
  pub join_group : Group V → Client V → Option (Text × List Text) → ℕ → Joining V
  join_group g c credentials now =
      let first = auto_lock_kick g in
      let result = add_client first.0 c credentials now in
      record result { events = first.1 ++ result.events }
