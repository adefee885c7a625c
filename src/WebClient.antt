-- ===== src/WebClient.antt =====
-- rtpconn/webclient.go: a client that is connected by a websocket, and what it does about the messages
-- that it gets and the actions that others queue for it.
pub mod Connections
pub mod Signalling
pub mod Messages
pub mod Actions
mod Tests
use galene.Base.{
  ℕ, Bool, true, false, not, ◌&&◌, ◌||◌, Option, none, some, List, [], ◌∷◌, ◌++◌, if◌then◌else◌,
  Text, same, bytes, contains, ◌==◌,
}
use galene.Base.Dict.{Dict}
use galene.Base.Json.{Json, null, text, Fields}
use galene.Base.Results.{Result}
use galene.Tokens.{Stateful}

-- A track of a sender: its address, and whether it is video (else it is audio).
pub record UpTrack : Type 0 where
  pub address : ℕ
  pub video : Bool

-- `rtpUpConnection`, with the id and the name of its client.
pub record UpConnection : Type 0 where
  pub id : Text
  pub user_id : Text
  pub username : Text
  pub label : Text
  pub replace : Text
  pub tracks : List UpTrack

pub data Negotiation : Type 0 where
  unneeded : Negotiation
  needed : Negotiation
  restart_ice : Negotiation

-- `rtpDownConnection`. `offered` is the signalling state "have local offer" of its peer connection, and
-- a track is the sender's that it forwards, with its `limitSid`.
pub record DownConnection : Type 0 where
  pub id : Text
  pub remote : UpConnection
  pub requested : Option (List Text)
  pub tracks : List (UpTrack × Bool)
  pub negotiation : Negotiation
  pub offered : Bool

-- `webClient`, less its channels; `group` is the name of the group, and none is nil.
pub record WebClient : Type 0 where
  pub id : Text
  pub username : Text
  pub permissions : List Text
  pub group : Option Text
  pub user_data : Dict Json
  pub requested : Dict (List Text)
  pub up : Dict UpConnection
  pub down : Dict DownConnection

-- `clientMessage`, in both directions, less SDP, candidates, status and times.
pub record ClientMessage : Type 0 where
  pub type : Text
  pub kind : Text
  pub error : Text
  pub id : Text
  pub replace : Text
  pub source : Text
  pub dest : Text
  pub username : Option Text
  pub permissions : List Text
  pub privileged : Bool
  pub group : Text
  pub value : Json
  pub no_echo : Bool
  pub label : Text
  pub request : Json
  pub candidate : Bool
  pub user_data : Dict Json

abbrev pub blank : ClientMessage
blank = record {
  type = [];
  kind = [];
  error = [];
  id = [];
  replace = [];
  source = [];
  dest = [];
  username = none;
  permissions = [];
  privileged = false;
  group = [];
  value = null;
  no_echo = false;
  label = [];
  request = null;
  candidate = false;
  user_data = [];
}

-- The errors that end a client, or that it is told of.
pub data Failure : Type 0 where
  user_error : Text → Failure
  kick_error : Text → Option Text → Text → Failure
  protocol_error : Text → Failure
  client_dead : Failure
  library_error : Text → Failure

-- The calls that the client makes: of its websocket, of the group and its members, of peer connections,
-- and of the table of tokens.
pub data Effect : Type 0 where
  reply : ClientMessage → Effect
  send_to : Text → ClientMessage → Effect
  send_all : Option Text → ClientMessage → Effect
  add_history : ClientMessage → Effect
  clear_history : Text → Text → Effect
  lock_group : Bool → Text → Effect
  merge_data : Fields → Effect
  start_recording : Effect
  stop_recording : Effect
  change_permissions : Text → Text → Effect
  warn_identified : Text → Effect
  kick_out : Text → Text → Option Text → Text → Effect
  push_own : Effect
  put_token : Stateful → Text → Effect
  open_connection : Text → Effect
  close_connection : Text → Effect
  push_close : Text → Text → Effect
  push_tracks : UpConnection → Effect
  ask_senders : Text → Effect
  leave_members : Effect
  queue_changed : Effect
  queue_tracks : UpConnection → List UpTrack → Effect

-- What a handler has done: the client, the calls in their order, and the error that ends the client.
pub record Outcome : Type 0 where
  pub client : WebClient
  pub effects : List Effect
  pub failure : Option Failure

-- Who a member of the group is.
pub data Member : Type 0 where
  web : Text → Member
  disk : Member
  whip : Text → Member

-- The result of `AddClient`: what it gave to `Init`, if it came so far, and the error, as it is reported,
-- or the group's redirection.
pub record Admission : Type 0 where
  pub init : Option (Text × List Text)
  pub result : Result (Text × Text) Text

-- What the rest of the program and the libraries answer during one message. `alive` says that the
-- websocket's writer runs; `random` is the base64 of eight random bytes; `sdp_failure` is the error of the
-- peer connection, `new_connection` the one of making it, `add_track` says whether a track can be added,
-- `sender_closed` whether `AddLocal` finds the sender's connection closed, and `history` what is told to
-- a new member, if the group is there.
pub record Environment : Type 0 where
  pub alive : Bool
  pub now : ℕ
  pub random : Text
  pub admission : Admission
  pub member : Text → Option Member
  pub user_exists : Text → Bool
  pub recording : Bool
  pub new_disk : Option Failure
  pub subgroups : Text
  pub parse_time : Text → Option ℕ
  pub get_token : Text → Result Text (Stateful × Text)
  pub update_token : Stateful → Text → Result Text Stateful
  pub list_tokens : Text → Result Text (List Stateful)
  pub new_connection : Option Text
  pub sdp_failure : Option Text
  pub add_track : UpTrack → Bool
  pub sender_closed : Bool
  pub allow_recording : Bool
  pub history : Option (List ClientMessage)

abbrev pub fits : WebClient → List Effect → Outcome
fits c effects = record { client = c; effects = effects; failure = none }

abbrev pub fails : WebClient → List Effect → Failure → Outcome
fails c effects e = record { client = c; effects = effects; failure = some e }

-- `c.write(m)`, whose error is ignored, and then returned.
abbrev pub written : Environment → ClientMessage → List Effect
written e m = if e.alive then reply m ∷ [] else []

abbrev pub write_last : Environment → WebClient → List Effect → ClientMessage → Outcome
write_last e c before m =
    if e.alive then fits c (before ++ reply m ∷ []) else fails c before client_dead

-- `errorMessage`
abbrev pub kicked_out : Text → Text
kicked_out t = if same t [] then bytes "you have been kicked out" else t

abbrev pub error_message : Text → Failure → Option ClientMessage
error_message id (user_error t) = some (record blank {
  type = bytes "usermessage";
  kind = bytes "error";
  dest = id;
  privileged = true;
  value = text t;
})
error_message id (kick_error by username t) = some (record blank {
  type = bytes "usermessage";
  kind = bytes "kicked";
  id = by;
  username = username;
  dest = id;
  privileged = true;
  value = text (kicked_out t);
})
error_message id (protocol_error t) = none
error_message id client_dead = none
error_message id (library_error t) = none

-- `c.error(err)`
abbrev pub report_message :
    Environment → WebClient → List Effect → Failure → Option ClientMessage → Outcome
report_message e c before f none = fails c before f
report_message e c before f (some m) = write_last e c before m

abbrev pub report : Environment → WebClient → List Effect → Failure → Outcome
report e c before f = report_message e c before f (error_message c.id f)

abbrev pub refuse : Environment → WebClient → Text → Outcome
refuse e c t = report e c [] (user_error t)

abbrev pub has : WebClient → Text → Bool
has c permission = contains c.permissions permission

-- `Warn`
pub warn : Environment → WebClient → Bool → Text → Outcome
warn e c op_only t =
    if op_only && not (has c (bytes "op"))
    then fits c []
    else write_last e c [] (record blank {
      type = bytes "usermessage";
      kind = bytes "warning";
      dest = c.id;
      privileged = true;
      value = text t;
    })
