-- ===== src/WebClient/Messages/Users.antt =====
-- rtpconn/webclient.go: the user actions of `handleClientMessage`.
use galene.Base.{
  Bool, true, not, ◌||◌, Option, none, some, List, [], ◌∷◌, if◌then◌else◌, Text, same, bytes,
}
use galene.Base.Json.{Fields, as_text, as_object, merge}
use galene.WebClient.{
  WebClient, ClientMessage, blank, user_error, Effect, change_permissions, warn_identified,
  kick_out, push_own, Outcome, Member, web, disk, whip, Environment, fits, fails, written, refuse,
  has,
}
use galene.WebClient.Messages.Groups.{id_of}

abbrev pub is_permission_change : Text → Bool
is_permission_change k =
    same k (bytes "op")
    || (same k (bytes "unop")
        || (same k (bytes "present")
            || (same k (bytes "unpresent")
                || (same k (bytes "shutup") || same k (bytes "unshutup")))))

abbrev pub change_member : Environment → WebClient → ClientMessage → Option Member → Outcome
change_member e c m none = refuse e c (bytes "no suck user")
change_member e c m (some disk) = refuse e c (bytes "this is not a real user")
change_member e c m (some (whip n)) = refuse e c (bytes "this is not a real user")
change_member e c m (some (web n)) = fits c (change_permissions m.dest m.kind ∷ [])

-- "identify": only a web client can be warned.
abbrev pub user_info : Environment → List Effect
user_info e =
    written e
      (record blank { type = bytes "usermessage"; kind = bytes "userinfo"; privileged = true })

abbrev pub identify : Environment → WebClient → ClientMessage → Option Member → Outcome
identify e c m none = refuse e c (bytes "client not found")
identify e c m (some disk) = fits c (user_info e)
identify e c m (some (whip n)) = fits c (user_info e)
identify e c m (some (web n)) = fits c (warn_identified m.dest ∷ user_info e)

-- `kickClient`
abbrev pub kick_member : Environment → WebClient → ClientMessage → Option Member → Outcome
kick_member e c m none = refuse e c (bytes "no such user")
kick_member e c m (some d) =
    fits c (kick_out m.dest m.source m.username (id_of (as_text m.value)) ∷ [])

abbrev pub set_own_data : Environment → WebClient → Option Fields → Outcome
set_own_data e c none = refuse e c (bytes "Bad value in setdata")
set_own_data e c (some o) = fits (record c { user_data = merge o c.user_data }) (push_own ∷ [])

-- The message "useraction".
unfoldable pub handle_user_action : Environment → WebClient → ClientMessage → Outcome
handle_user_action e c m =
    let denied = refuse e c (bytes "not authorised") in
    if is_permission_change m.kind
    then (if not (has c (bytes "op")) then denied else change_member e c m (e.member m.dest))
    else if same m.kind (bytes "identify")
    then (if not (has c (bytes "op")) then denied else identify e c m (e.member m.dest))
    else if same m.kind (bytes "kick")
    then (if not (has c (bytes "op")) then denied else kick_member e c m (e.member m.dest))
    else if same m.kind (bytes "setdata")
    then (if not (same m.dest c.id) then denied else set_own_data e c (as_object m.value))
    else fails c [] (user_error (bytes "unknown user action"))
