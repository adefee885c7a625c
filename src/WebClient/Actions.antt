-- ===== src/WebClient/Actions.antt =====
-- rtpconn/webclient.go: `handleAction`, for what others have queued for the client. `none` is a panic.
pub mod Left
pub mod Demoted
use galene.Base.{
  ℕ, Bool, true, false, not, ◌&&◌, ◌||◌, Option, none, some, List, [], ◌∷◌, ◌++◌, if◌then◌else◌,
  Text, same, bytes, contains,
}
use galene.Base.Dict.{Dict, find}
use galene.WebClient.{
  UpTrack, UpConnection, DownConnection, WebClient, ClientMessage, blank, Failure, user_error,
  kick_error, client_dead, library_error, Effect, reply, push_own, push_tracks, queue_changed,
  queue_tracks, Outcome, Environment, fits, fails, written, write_last, has,
}
use galene.WebClient.Connections.{
  Done, is_blank, has_group, del_up_conn, fail_up_connection, negotiate, put_down,
}
use galene.WebClient.Signalling.{push_down_conn}

pub data Action : Type 0 where
  push_conn : Text → Text → Option UpConnection → List UpTrack → Text → Action
  request_conns : Text → Text → Action
  connection_failed : Text → Action
  push_client : Text → ClientMessage → Action
  joined : Text → Text → Action
  change_permissions : Text → Action
  permissions_changed : Action
  kick : Text → Option Text → Text → Action

-- `remove`, of the first occurrence, and `addnew`.
unfoldable pub remove_first : Text → List Text → List Text
remove_first v [] = []
remove_first v (w ∷ l) = let rest = remove_first v l in if same v w then l else w ∷ rest

unfoldable pub add_new : Text → List Text → List Text
add_new v l = if contains l v then l else l ++ v ∷ []

-- The case `changePermissionsAction`, for a client in a group that allows recording or not.
unfoldable pub changed_permissions : Text → Bool → List Text → Option (List Text)
changed_permissions kind recording l =
    if same kind (bytes "op")
    then some (
        if recording
        then add_new (bytes "record") (add_new (bytes "op") l)
        else add_new (bytes "op") l)
    else if same kind (bytes "unop")
    then some (remove_first (bytes "record") (remove_first (bytes "op") l))
    else if same kind (bytes "present")
    then some (add_new (bytes "present") l)
    else if same kind (bytes "unpresent")
    then some (remove_first (bytes "present") l)
    else if same kind (bytes "shutup")
    then some (remove_first (bytes "message") l)
    else if same kind (bytes "unshutup")
    then some (add_new (bytes "message") l)
    else none

abbrev pub permissions_set : WebClient → Option (List Text) → Outcome
permissions_set c none = fails c [] (user_error (bytes "unknown permission"))
permissions_set c (some l) = fits (record c { permissions = l }) (queue_changed ∷ [])

abbrev pub in_group : Option Text → Text → Bool
in_group none g = false
in_group (some h) g = same h g

-- The loop of `requestConnsAction`.
abbrev pub push_ups : Text → Dict UpConnection → List Effect
push_ups id [] = []
push_ups id ((k, u) ∷ us) =
    let rest = push_ups id us in
    if not (is_blank id) && not (same id u.id) then rest else push_tracks u ∷ rest

abbrev pub sent_tracks : List (UpTrack × Bool) → List UpTrack
sent_tracks [] = []
sent_tracks ((t, b) ∷ ts) = t ∷ sent_tracks ts

-- The case `connectionFailedAction`.
abbrev pub restarted :
    WebClient → List UpTrack → DownConnection × List Effect × Option Failure → Outcome
restarted c ts (d, es, some f) = fails (put_down c d) es f
restarted c ts (d, es, none) = fits (put_down c d) (es ++ queue_tracks d.remote ts ∷ [])

abbrev pub failed_up : Environment → WebClient → Text → Option UpConnection → Outcome
failed_up e c id none = fits c []
failed_up e c id (some u) =
    fits c (written e (record blank { type = bytes "renegotiate"; id = id }))

abbrev pub failed_connection : Environment → WebClient → Text → Option DownConnection → Outcome
failed_connection e c id none = failed_up e c id (find id c.up)
failed_connection e c id (some d) = restarted c (sent_tracks d.tracks) (negotiate e d true [])

-- The case `pushClientAction`: `c.group.Name()` of a nil group is a panic.
abbrev pub tell_client :
    Environment → WebClient → Text → ClientMessage → Option Text → Option Outcome
tell_client e c g m none = none
tell_client e c g m (some h) =
    some
      (if not (same g h) then fits c [] else write_last e c [] (record m { type = bytes "user" }))

-- The case `joinedAction`, and the messages of the chat history, up to the first error.
abbrev pub write_all : Environment → WebClient → List Effect → List ClientMessage → Outcome
write_all e c before [] = fits c before
write_all e c before (m ∷ ms) =
    if e.alive then write_all e c (before ++ reply m ∷ []) ms else fails c before client_dead

abbrev pub joined_group : Environment → WebClient → Text → Text → ClientMessage
joined_group e c g kind = record blank {
  type = bytes "joined";
  kind = kind;
  group = g;
  username = some c.username;
  permissions = c.permissions;
}

abbrev pub history_of : Option (List ClientMessage) → List ClientMessage
history_of none = []
history_of (some h) = h

abbrev pub tell_joined : Environment → WebClient → Text → Text → Outcome
tell_joined e c g kind =
    let h = if same kind (bytes "join") && not (is_blank g) then history_of e.history else [] in
    write_all e c [] (joined_group e c g kind ∷ h)

-- The case `permissionsChangedAction`: without "present", the client's connections are closed.
abbrev pub denied_up : Environment → Text → List Effect → Done → WebClient × List Effect
denied_up e id before (c, es, some f) = (c, before ++ es)
denied_up e id before (c, es, none) =
    let o = fail_up_connection e c (before ++ es) id (bytes "permission denied") in
    (o.client, o.effects)

abbrev pub deny_ups :
    Environment → Dict UpConnection → WebClient × List Effect → WebClient × List Effect
deny_ups e [] r = r
deny_ups e ((k, u) ∷ us) (c, es) =
    deny_ups e us (denied_up e u.id es (del_up_conn c u.id c.id true))

abbrev pub tell_changed : Environment → WebClient → Option Text → Outcome
tell_changed e c none = fails c [] (library_error (bytes "Permissions changed in no group"))
tell_changed e c (some g) =
    let told = written e (joined_group e c g (bytes "change")) in
    let (c', es) = if not (has c (bytes "present")) then deny_ups e c.up (c, told) else (c, told) in
    fits c' (es ++ push_own ∷ [])

-- `handleAction`
unfoldable pub handle_action : Environment → WebClient → Action → Option Outcome
handle_action e c (push_conn g id u ts replace) =
    some (if in_group c.group g then push_down_conn e c id u ts replace else fits c [])
handle_action e c (request_conns g id) =
    some (fits c (if in_group c.group g then push_ups id c.up else []))
handle_action e c (connection_failed id) = some (failed_connection e c id (find id c.down))
handle_action e c (push_client g m) = tell_client e c g m c.group
handle_action e c (joined g kind) = some (tell_joined e c g kind)
handle_action e c (change_permissions kind) = some (
    permissions_set c
      (changed_permissions kind (has_group c.group && e.allow_recording) c.permissions))
handle_action e c permissions_changed = some (tell_changed e c c.group)
handle_action e c (kick id username t) = some (fails c [] (kick_error id username t))
