-- ===== src/WebClient/Tests.antt =====
-- The theorems about rtpconn/webclient.go, with two clients and a token.
use galene.Group.{Group}
use galene.Group.Members.{has_op, set_permissions}
use galene.Description.Admin.{no_description}
use galene.WebClient.Actions.{remove_first, change_permissions}
use galene.WebClient.Actions.Demoted.{unop-unguarded}
use galene.Base.{
  not, ◌&&◌, contains, Returns, ℕ, ◌≡◌, refl, true, false, none, some, [], ◌∷◌, bytes,
}
use galene.Base.Json.{text, number, object, field, done}
use galene.Base.Results.{ok}
use galene.Tokens.{Stateful}
use galene.WebClient.{
  queue_changed, UpTrack, UpConnection, DownConnection, unneeded, WebClient, ClientMessage, blank,
  reply, put_token, Environment,
}
use galene.WebClient.Connections.{replace_tracks, is_forwarded, is_sent, limit_tracks}
use galene.WebClient.Connections.Tracks.{replace_tracks-forwarded}
use galene.WebClient.Messages.{leave_group}
use galene.WebClient.Messages.Groups.{handle_group_action}
use galene.WebClient.Messages.Dispatch.{handle_client_message}
use galene.WebClient.Actions.{handle_action, push_client}
use galene.WebClient.Actions.Left.{
  leave_message, join_message, leave_message-push_client_panics, join_message-redirected,
}

abbrev old_token : Stateful
old_token = record {
  token = bytes "t";
  group = bytes "other";
  include_subgroups = false;
  username = none;
  permissions = bytes "present" ∷ [];
  expires = some 30;
  not_before = none;
  issued_at = none;
  issued_by = none;
}

abbrev environment : Environment
environment = record {
  alive = true;
  now = 5;
  random = bytes "random";
  admission = record { init = none; result = ok [] };
  member = λ t. none;
  user_exists = λ t. false;
  recording = false;
  new_disk = none;
  subgroups = [];
  parse_time = λ t. none;
  get_token = λ t. ok (old_token, bytes "tag");
  update_token = λ t tag. ok t;
  list_tokens = λ g. ok [];
  new_connection = none;
  sdp_failure = none;
  add_track = λ t. true;
  sender_closed = false;
  allow_recording = false;
  history = none;
}

abbrev operator : WebClient
operator = record {
  id = bytes "1";
  username = bytes "ann";
  permissions = bytes "op" ∷ bytes "token" ∷ bytes "message" ∷ [];
  group = some (bytes "g");
  user_data = [];
  requested = [];
  up = [];
  down = [];
}

-- A request to let a token expire later.
abbrev edit : ClientMessage
edit = record blank {
  type = bytes "groupaction";
  kind = bytes "edittoken";
  source = bytes "1";
  username = some (bytes "ann");
  value =
      object (field (bytes "token") (text (bytes "t")) (field (bytes "expires") (number 7) done));
}

-- The token is one of another group.
edits_other_group :
    (handle_client_message environment operator edit).effects
    ≡ put_token (record old_token { expires = some 7000005 }) (bytes "tag")
      ∷ reply (record blank { type = bytes "usermessage"; kind = bytes "token"; privileged = true })
      ∷ []
unfolding handle_client_message handle_group_action
edits_other_group = refl

-- A client that may make tokens, but is no operator, asks for the tokens of the group.
abbrev inviter : WebClient
inviter = record operator { permissions = bytes "token" ∷ [] }

abbrev listing : ClientMessage
listing = record edit { kind = bytes "listtokens" }

leave_message-push_client_panics_example :
    handle_action environment
      (handle_client_message environment
        (record operator { group = some (bytes "g") })
        (leave_message (bytes "g"))).client
      (push_client (bytes "g") blank)
    ≡ none
leave_message-push_client_panics_example =
    leave_message-push_client_panics environment environment operator (bytes "g") (bytes "g") blank

join_message-redirected_example :
    let admits : Environment = record environment {
      admission = record { init = some (bytes "ann", []); result = ok (bytes "/elsewhere") };
    } in
    let c' =
      (handle_client_message admits
        (record operator { group = none })
        (join_message (bytes "g"))).client in
    (leave_group c' ≡ (c', []))
    × (handle_action environment c' (push_client (bytes "g") blank) ≡ none)
join_message-redirected_example =
    join_message-redirected environment environment operator (some (bytes "ann", [])) (bytes "g")
      (bytes "/elsewhere") (bytes "g") blank refl

abbrev camera : UpTrack
camera = record { address = 1; video = true }

abbrev microphone : UpTrack
microphone = record { address = 2; video = false }

abbrev sender : UpConnection
sender = record {
  id = bytes "u";
  user_id = bytes "2";
  username = bytes "bo";
  label = bytes "camera";
  replace = [];
  tracks = camera ∷ microphone ∷ [];
}

abbrev receiver : DownConnection
receiver = record {
  id = bytes "u";
  remote = sender;
  requested = none;
  tracks = (camera, false) ∷ [];
  negotiation = unneeded;
  offered = false;
}

replace_tracks-forwarded_example :
    let d' = (replace_tracks environment receiver (microphone ∷ []) true).0 in
    (is_forwarded camera d'.tracks ≡ is_sent camera (microphone ∷ []))
    × (limit_tracks true d'.tracks ≡ d'.tracks)
unfolding replace_tracks
replace_tracks-forwarded_example =
    replace_tracks-forwarded environment receiver (microphone ∷ []) true camera refl

-- A group that locks by itself, with one operator.
abbrev led : Group ℕ
led = record {
  description = record no_description { autolock = true };
  locked = none;
  clients =
      record {
        address = 1;
        id = bytes "ann";
        username = bytes "ann";
        permissions = bytes "op" ∷ [];
        user_data = [];
      }
      ∷ [];
  history = [];
  timestamp = 0;
}

once : contains (remove_first (bytes "op") operator.permissions) (bytes "op") ≡ false
unfolding remove_first
once = refl

unop-unguarded_example :
    Returns
      (λ o.
        (o.effects ≡ queue_changed ∷ [])
        × (o.failure ≡ none)
        × ((true && true && not (has_op (set_permissions 1 o.client.permissions led.clients)))
            ≡ true))
      (handle_action environment operator (change_permissions (bytes "unop")))
unop-unguarded_example = unop-unguarded environment operator led 1 refl refl refl once
