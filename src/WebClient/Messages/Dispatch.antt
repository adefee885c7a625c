-- ===== src/WebClient/Messages/Dispatch.antt =====
-- rtpconn/webclient.go: the start of `handleClientMessage`, and its cases.
use galene.Base.{
  Bool, false, not, ◌&&◌, ◌||◌, Option, none, some, [], if◌then◌else◌, Text, same, bytes,
}
use galene.Base.Dict.{find}
use galene.Base.Json.{to_string_array}
use galene.WebClient.{
  WebClient, ClientMessage, blank, protocol_error, Outcome, Environment, fits, fails, write_last,
  refuse,
}
use galene.WebClient.Connections.{is_blank, close_down_conn}
use galene.WebClient.Signalling.{got_answer, renegotiate_found}
use galene.WebClient.Messages.{
  join_from, parse_requested, set_requested, set_requested_stream, no_id, handle_offer,
  handle_close, handle_chat,
}
use galene.WebClient.Messages.Groups.{handle_group_action}
use galene.WebClient.Messages.Users.{handle_user_action}

-- The tests for a message in another's name.
abbrev pub is_other : Text → Option Text → Bool
is_other name none = false
is_other name (some u) = not (same u name)

abbrev pub is_spoofed_id : WebClient → ClientMessage → Bool
is_spoofed_id c m = not (is_blank m.source) && not (same m.source c.id)

abbrev pub is_spoofed_name : WebClient → ClientMessage → Bool
is_spoofed_name c m = not (same m.type (bytes "join")) && is_other c.username m.username

-- A case that needs an id.
abbrev pub with_id : WebClient → ClientMessage → Outcome → Outcome
with_id c m o = if is_blank m.id then no_id c else o

-- Of an ICE candidate: it is handed to the peer connection.
abbrev pub handle_ice : WebClient → ClientMessage → Outcome
handle_ice c m =
    with_id c m
      (if m.candidate then fits c [] else fails c [] (protocol_error (bytes "null candidate")))

-- The cases that need a group.
abbrev pub handle_in_group : Environment → WebClient → ClientMessage → Option Text → Outcome
handle_in_group e c m none = refuse e c (bytes "join a group first")
handle_in_group e c m (some g) =
    if same m.type (bytes "groupaction")
    then handle_group_action e c m g
    else if same m.type (bytes "useraction")
    then handle_user_action e c m
    else handle_chat e c m

abbrev pub needs_group : Text → Bool
needs_group t =
    same t (bytes "chat")
    || (same t (bytes "usermessage")
        || (same t (bytes "groupaction") || same t (bytes "useraction")))

abbrev pub handle_type : Environment → WebClient → ClientMessage → Outcome
handle_type e c m =
    if same m.type (bytes "join")
    then join_from e c m c.group
    else if same m.type (bytes "request")
    then set_requested c c.group (parse_requested m.request)
    else if same m.type (bytes "requestStream")
    then set_requested_stream c (find m.id c.down) (to_string_array m.request)
    else if same m.type (bytes "offer")
    then handle_offer e c m
    else if same m.type (bytes "answer")
    then with_id c m (got_answer e c m.id)
    else if same m.type (bytes "renegotiate")
    then with_id c m (renegotiate_found e c (find m.id c.down))
    else if same m.type (bytes "close")
    then with_id c m (handle_close c m)
    else if same m.type (bytes "abort")
    then with_id c m (close_down_conn e c [] m.id [])
    else if same m.type (bytes "ice")
    then handle_ice c m
    else if needs_group m.type
    then handle_in_group e c m c.group
    else if same m.type (bytes "pong")
    then fits c []
    else if same m.type (bytes "ping")
    then write_last e c [] (record blank { type = bytes "pong" })
    else fails c [] (protocol_error (bytes "unexpected message"))

-- `handleClientMessage`
unfoldable pub handle_client_message : Environment → WebClient → ClientMessage → Outcome
handle_client_message e c m =
    if is_spoofed_id c m
    then fails c [] (protocol_error (bytes "spoofed client id"))
    else if is_spoofed_name c m
    then fails c [] (protocol_error (bytes "spoofed username"))
    else handle_type e c m
