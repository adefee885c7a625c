-- ===== src/WebClient/Messages.antt =====
-- rtpconn/webclient.go: `handleClientMessage`. Each case is a function; the permissions that it asks for
-- are tested where the source tests them.
pub mod Groups
pub mod Users
pub mod Dispatch
pub mod Permitted
use galene.Base.{
  ℕ, Bool, true, false, not, ◌&&◌, ◌||◌, Option, none, some, List, [], ◌∷◌, ◌++◌, if◌then◌else◌,
  Text, same, bytes, contains,
}
use galene.Base.Dict.{Dict, find, insert}
use galene.Base.Json.{
  Json, null, text, number, boolean, array, object, Items, Fields, field, done, as_text, as_object,
  merge, at_key, to_string_array,
}
use galene.Base.Results.{Result, ok, err}
use galene.Tokens.{Stateful}
use galene.WebClient.{
  UpConnection, DownConnection, WebClient, ClientMessage, blank, Failure, user_error,
  protocol_error, library_error, Effect, reply, send_to, send_all, add_history, clear_history,
  lock_group, merge_data, start_recording, stop_recording, change_permissions, warn_identified,
  kick_out, push_own, put_token, ask_senders, leave_members, Outcome, Member, web, disk, whip,
  Admission, Environment, fits, fails, written, write_last, refuse, report, has,
}
use galene.WebClient.Connections.{
  Done, is_blank, del_up_conn, del_down_conn, close_down_conn, fail_up_connection,
}
use galene.WebClient.Signalling.{got_offer, offer_failed, got_answer, renegotiate_found}

-- `leaveGroup`: the loops over the connections, and the rest.
abbrev pub close_ups : WebClient → Dict UpConnection → WebClient × List Effect
close_ups c [] = (c, [])
close_ups c ((id, u) ∷ us) =
    let (c', es, error) = del_up_conn c id c.id true in
    let (c'', rest) = close_ups c' us in (c'', es ++ rest)

abbrev pub close_downs : WebClient → Dict DownConnection → WebClient × List Effect
close_downs c [] = (c, [])
close_downs c ((id, d) ∷ ds) =
    let (c', es) = del_down_conn c id in let (c'', rest) = close_downs c' ds in (c'', es ++ rest)

abbrev pub left : WebClient → WebClient
left c = record c { permissions = []; user_data = []; requested = []; group = none }

abbrev pub leave_named : WebClient → Option Text → WebClient × List Effect
leave_named c none = (c, [])
leave_named c (some g) =
    let (c', ups) = close_ups c c.up in
    let (c'', downs) = close_downs c' c'.down in (left c'', ups ++ (downs ++ leave_members ∷ []))

unfoldable pub leave_group : WebClient → WebClient × List Effect
leave_group c = leave_named c c.group

-- The message "join". The data of the message and what `AddClient` gives to `Init` stay with the client
-- also where it is not let in.
abbrev pub initialised : WebClient → Option (Text × List Text) → WebClient
initialised c none = c
initialised c (some (username, permissions)) = record c {
  username = username;
  permissions = permissions;
}

abbrev pub joined_message : WebClient → Text → Text → Text → Text → ClientMessage
joined_message c kind error group value = record blank {
  type = bytes "joined";
  kind = kind;
  error = error;
  group = group;
  username = some c.username;
  value = text value;
}

abbrev pub join_result : Environment → WebClient → Text → Result (Text × Text) Text → Outcome
join_result e c group (err (error, value)) =
    write_last e c [] (joined_message c (bytes "fail") error group value)
join_result e c group (ok redirect) =
    if not (is_blank redirect)
    then write_last e c [] (joined_message c (bytes "redirect") [] group redirect)
    else fits (record c { group = some group }) []

abbrev pub join_as : Environment → WebClient → ClientMessage → Outcome
join_as e c m =
    join_result e (initialised (record c { user_data = m.user_data }) e.admission.init) m.group
      e.admission.result

abbrev pub join_from : Environment → WebClient → ClientMessage → Option Text → Outcome
join_from e c m none =
    if same m.kind (bytes "leave")
    then fails c [] (user_error (bytes "you are not joined"))
    else if not (same m.kind (bytes "join"))
    then fails c [] (protocol_error (bytes "unknown kind"))
    else join_as e c m
join_from e c m (some g) =
    if same m.kind (bytes "leave")
    then (if same g m.group
        then (let (c', es) = leave_group c in fits c' es)
        else fails c [] (user_error (bytes "you are not joined")))
    else if not (same m.kind (bytes "join"))
    then fails c [] (protocol_error (bytes "unknown kind"))
    else fails c [] (protocol_error (bytes "cannot join multiple groups"))

-- The messages "request" and "requestStream".
abbrev pub put_requested :
    Text → Option (Option (List Text)) → Option (Dict (List Text)) → Option (Dict (List Text))
put_requested k none r = none
put_requested k (some ts) none = none
put_requested k (some none) (some r) = some (insert k [] r)
put_requested k (some (some ts)) (some r) = some (insert k ts r)

-- The loop of `parseRequested`, whose order does not matter since the keys are distinct.
abbrev pub parse_fields : Fields → Option (Dict (List Text))
parse_fields done = some []
parse_fields (field k v o) = put_requested k (to_string_array v) (parse_fields o)

abbrev pub parse_requested : Json → Option (Dict (List Text))
parse_requested null = some []
parse_requested (text t) = none
parse_requested (number n) = none
parse_requested (boolean b) = none
parse_requested (array a) = none
parse_requested (object o) = parse_fields o

abbrev pub bad_type : Failure
bad_type = library_error (bytes "bad type")

abbrev pub set_requested : WebClient → Option Text → Option (Dict (List Text)) → Outcome
set_requested c g none = fails c [] bad_type
set_requested c none (some r) =
    fails c [] (library_error (bytes "attempted to request with no group joined"))
set_requested c (some g) (some r) = fits (record c { requested = r }) (ask_senders [] ∷ [])

abbrev pub set_requested_stream :
    WebClient → Option DownConnection → Option (Option (List Text)) → Outcome
set_requested_stream c none r = fails c [] (library_error (bytes "unknown id"))
set_requested_stream c (some d) none = fails c [] bad_type
set_requested_stream c (some d) (some r) =
    fits (record c { down = insert d.id (record d { requested = r }) c.down })
      (ask_senders d.remote.id ∷ [])

abbrev pub no_id : WebClient → Outcome
no_id c = fails c [] (protocol_error (bytes "empty id"))

-- The message "offer".
abbrev pub offer_refused : Environment → WebClient → ClientMessage → Outcome
offer_refused e c m =
    let (c', es, error) =
      if is_blank m.replace then (c, [], none) else del_up_conn c m.replace c.id true in
    report e c' (es ++ written e (record blank { type = bytes "abort"; id = m.id }))
      (user_error (bytes "not authorised"))

unfoldable pub handle_offer : Environment → WebClient → ClientMessage → Outcome
handle_offer e c m =
    if is_blank m.id
    then no_id c
    else if not (has c (bytes "present"))
    then offer_refused e c m
    else let o = got_offer e c m.id m.label m.replace in
      offer_failed e m.id o.failure (record o { failure = none })

-- The message "close".
abbrev pub handle_close : WebClient → ClientMessage → Outcome
handle_close c m = let (c', es, error) = del_up_conn c m.id c.id true in fits c' es

-- The messages "chat" and "usermessage".
abbrev pub is_chat : ClientMessage → Bool
is_chat m = same m.type (bytes "chat")

abbrev pub required : ClientMessage → Text
required m = if is_chat m && same m.kind (bytes "caption") then bytes "caption" else bytes "message"

abbrev pub chat_id : Environment → ClientMessage → Text
chat_id e m = if is_chat m && (is_blank m.dest && is_blank m.id) then e.random else m.id

abbrev pub chat_message : Environment → WebClient → ClientMessage → ClientMessage
chat_message e c m = record blank {
  type = m.type;
  id = chat_id e m;
  source = m.source;
  dest = m.dest;
  username = m.username;
  privileged = has c (bytes "op");
  kind = m.kind;
  no_echo = m.no_echo;
  value = m.value;
}

abbrev pub chat_to : Environment → WebClient → ClientMessage → Option Member → Outcome
chat_to e c m none = refuse e c (bytes "user unknown")
chat_to e c m (some disk) = refuse e c (bytes "this user doesn't chat")
chat_to e c m (some (whip n)) = refuse e c (bytes "this user doesn't chat")
chat_to e c m (some (web n)) = fits c (send_to m.dest m ∷ [])

abbrev pub remember : ClientMessage → ClientMessage → List Effect
remember m mm = if is_chat m then add_history mm ∷ [] else []

abbrev pub except : WebClient → Bool → Option Text
except c no_echo = if no_echo then some c.id else none

unfoldable pub handle_chat : Environment → WebClient → ClientMessage → Outcome
handle_chat e c m =
    let mm = chat_message e c m in
    if not (has c (required m))
    then refuse e c (bytes "not authorised")
    else if is_blank m.dest
    then fits c (remember m mm ++ send_all (except c m.no_echo) mm ∷ [])
    else chat_to e c mm (e.member m.dest)
