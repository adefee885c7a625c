-- ===== src/WebClient/Connections.antt =====
-- rtpconn/webclient.go: the connections of a client, up from it and down to it. What a peer connection
-- does is in the environment; removing a track from one is taken to succeed.
pub mod Tracks
use galene.Base.{
  ℕ, suc, Bool, true, false, not, ◌&&◌, ◌||◌, Option, none, some, List, [], ◌∷◌, ◌++◌,
  if◌then◌else◌, Text, same, bytes, contains, ◌==◌, ltb, length,
}
use galene.Base.Dict.{Dict, find, insert, remove}
use galene.WebClient.{
  UpTrack, UpConnection, DownConnection, Negotiation, unneeded, needed, restart_ice, WebClient,
  ClientMessage, blank, Failure, user_error, client_dead, library_error, Effect, reply,
  open_connection, close_connection, push_close, Outcome, fits, fails, report, Environment, written,
}

-- What a call has done to the client, the calls that it has made, and its error.
abbrev pub Done : Type 0
Done = WebClient × List Effect × Option Failure

abbrev pub is_blank : Text → Bool
is_blank t = same t []

-- `addUpConn`
abbrev pub add_new_up : Environment → WebClient → Text → Text → Option Text → Done
add_new_up e c id label (some t) = (c, [], some (library_error t))
add_new_up e c id label none = (
  record c {
    up =
        insert id
          (record {
            id = id;
            user_id = c.id;
            username = c.username;
            label = label;
            replace = [];
            tracks = [];
          })
          c.up;
  },
  open_connection id ∷ [],
  none,
)

abbrev pub add_up_found :
    Environment → WebClient → Text → Text → Option DownConnection → Option UpConnection → Done
add_up_found e c id label (some d) u =
    (c, [], some (library_error (bytes "adding duplicate connection")))
add_up_found e c id label none (some u) = (c, [], none)
add_up_found e c id label none none = add_new_up e c id label e.new_connection

unfoldable pub add_up_conn : Environment → WebClient → Text → Text → Done
add_up_conn e c id label = add_up_found e c id label (find id c.down) (find id c.up)

-- `delUpConn`; an empty `user_id` is not compared.
abbrev pub has_group : Option Text → Bool
has_group none = false
has_group (some g) = true

abbrev pub del_up_found : WebClient → Text → Text → Bool → Option UpConnection → Done
del_up_found c id user_id push none = (c, [], some (library_error (bytes "file does not exist")))
del_up_found c id user_id push (some u) =
    if not (is_blank user_id) && not (same u.user_id user_id)
    then (c, [], some (library_error (bytes "user id mismatch")))
    else (
      record c { up = remove id c.up },
      close_connection id
          ∷ (if push && has_group c.group then push_close id u.replace ∷ [] else []),
      none,
    )

unfoldable pub del_up_conn : WebClient → Text → Text → Bool → Done
del_up_conn c id user_id push = del_up_found c id user_id push (find id c.up)

-- `delDownConn`, and whether there was such a connection.
abbrev pub del_down_found : WebClient → Text → Option DownConnection → WebClient × List Effect
del_down_found c id none = (c, [])
del_down_found c id (some d) = (record c { down = remove id c.down }, close_connection id ∷ [])

unfoldable pub del_down_conn : WebClient → Text → WebClient × List Effect
del_down_conn c id = del_down_found c id (find id c.down)

-- `closeDownConn`, after the calls `before`.
unfoldable pub close_down_conn : Environment → WebClient → List Effect → Text → Text → Outcome
close_down_conn e c before id message =
    let (c', closing) = del_down_conn c id in
    let all = before ++ (closing ++ written e (record blank { type = bytes "close"; id = id })) in
    if not e.alive
    then fails c' all client_dead
    else if is_blank message
    then fits c' all
    else report e c' all (user_error message)

-- `failUpConnection`
unfoldable pub fail_up_connection : Environment → WebClient → List Effect → Text → Text → Outcome
fail_up_connection e c before id message =
    let abort =
      if is_blank id then [] else written e (record blank { type = bytes "abort"; id = id }) in
    if not (is_blank id) && not e.alive
    then fails c before client_dead
    else if is_blank message
    then fits c (before ++ abort)
    else report e c (before ++ abort) (user_error message)

abbrev pub same_kind : Bool → Bool → Bool
same_kind true b = b
same_kind false b = not b

-- `find` in `requestedTracks`: the first or the last track of a kind, and their number.
abbrev pub first_track : Bool → List UpTrack → List UpTrack
first_track video [] = []
first_track video (t ∷ ts) =
    let rest = first_track video ts in if same_kind video t.video then t ∷ [] else rest

abbrev pub count_video : List UpTrack → ℕ
count_video [] = 0
count_video (t ∷ ts) = let rest = count_video ts in if t.video then suc rest else rest

abbrev pub last_video : List UpTrack → List UpTrack
last_video [] = []
last_video (t ∷ ts) =
    let rest = last_video ts in if t.video && count_video ts == 0 then t ∷ [] else rest

-- `requestedTracks`: the tracks, and whether the lowest spatial layer is to be sent.
unfoldable pub requested_tracks : List Text → List UpTrack → List UpTrack × Bool
requested_tracks requested tracks =
    let audio = if contains requested (bytes "audio") then first_track false tracks else [] in
    if contains requested (bytes "video")
    then (audio ++ first_track true tracks, false)
    else if contains requested (bytes "video-low")
    then (audio ++ last_video tracks, ltb (count_video tracks) 2)
    else (audio, false)

-- Whether a track is among those forwarded, or a forwarded track among those that are sent.
abbrev pub is_forwarded : UpTrack → List (UpTrack × Bool) → Bool
is_forwarded t [] = false
is_forwarded t ((u, b) ∷ us) = t.address == u.address || is_forwarded t us

abbrev pub is_sent : UpTrack → List UpTrack → Bool
is_sent t [] = false
is_sent t (u ∷ us) = t.address == u.address || is_sent t us

-- The first two loops of `replaceTracks`.
abbrev pub to_add : List (UpTrack × Bool) → List UpTrack → List UpTrack
to_add ts [] = []
to_add ts (r ∷ rs) = let rest = to_add ts rs in if is_forwarded r ts then rest else r ∷ rest

abbrev pub to_keep : List UpTrack → List (UpTrack × Bool) → List (UpTrack × Bool)
to_keep rs [] = []
to_keep rs ((t, b) ∷ ts) = let rest = to_keep rs ts in if is_sent t rs then (t, b) ∷ rest else rest

-- `addDownTrackUnlocked` for each track, up to the first error.
abbrev pub add_tracks :
    (UpTrack → Bool) → List (UpTrack × Bool) → List UpTrack → List (UpTrack × Bool) × Bool
add_tracks accepts ts [] = (ts, true)
add_tracks accepts ts (r ∷ rs) =
    let rest = add_tracks accepts (ts ++ (r, false) ∷ []) rs in
    if is_forwarded r ts || not (accepts r) then (ts, false) else rest

abbrev pub limit_tracks : Bool → List (UpTrack × Bool) → List (UpTrack × Bool)
limit_tracks limit [] = []
limit_tracks limit ((t, b) ∷ ts) = (t, limit) ∷ limit_tracks limit ts

abbrev pub is_empty {ℓ} : {A : Type ℓ} → List A → Bool
is_empty [] = true
is_empty (x ∷ xs) = false

-- `replaceTracks`: whether the tracks have changed, and whether there is an error.
unfoldable pub replace_tracks :
    Environment → DownConnection → List UpTrack → Bool → DownConnection × Bool × Bool
replace_tracks e d remote limit =
    let add = to_add d.tracks remote in
    let kept = to_keep remote d.tracks in
    let (ts, ok) = add_tracks e.add_track kept add in
    if length kept == length d.tracks && is_empty add
    then (record d { tracks = limit_tracks limit d.tracks }, false, false)
    else (record d { tracks = limit_tracks limit ts }, ok, not ok)

-- `negotiate`: an offer is sent, or put off while another one has not been answered.
abbrev pub put_off : Bool → Negotiation → Negotiation
put_off true n = restart_ice
put_off false unneeded = needed
put_off false needed = needed
put_off false restart_ice = restart_ice

abbrev pub offer_message : DownConnection → Text → ClientMessage
offer_message d replace = record blank {
  type = bytes "offer";
  id = d.id;
  label = d.remote.label;
  replace = replace;
  source = d.remote.user_id;
  username = some d.remote.username;
}

abbrev pub send_offer :
    Environment
    → DownConnection
    → Text
    → Option Text
    → DownConnection × List Effect × Option Failure
send_offer e d replace (some t) = (record d { negotiation = unneeded }, [], some (library_error t))
send_offer e d replace none = (
  record d { negotiation = unneeded; offered = true },
  written e (offer_message d replace),
  (if e.alive then none else some client_dead),
)

unfoldable pub negotiate :
    Environment → DownConnection → Bool → Text → DownConnection × List Effect × Option Failure
negotiate e d restart replace =
    if d.offered
    then (record d { negotiation = put_off restart d.negotiation }, [], none)
    else send_offer e d replace e.sdp_failure

abbrev pub put_down : WebClient → DownConnection → WebClient
put_down c d = record c { down = insert d.id d c.down }
