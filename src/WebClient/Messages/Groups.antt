-- ===== src/WebClient/Messages/Groups.antt =====
-- rtpconn/webclient.go: the group actions of `handleClientMessage`, and `parseStatefulToken`. A JSON
-- number is a natural number here, so a relative time lies ahead.
use galene.Base.{
  ℕ, ◌+◌, ◌*◌, Bool, true, false, not, ◌&&◌, ◌||◌, Option, none, some, List, [], ◌∷◌, if◌then◌else◌,
  Text, same, bytes,
}
use galene.Base.Json.{
  Json, null, text, number, boolean, array, object, Fields, as_text, as_object, at_key,
  to_string_array,
}
use galene.Base.Results.{Result, ok, err, ◌>>=◌}
use galene.Tokens.{Stateful}
use galene.WebClient.{
  WebClient, ClientMessage, blank, Failure, user_error, Effect, send_all, clear_history, lock_group,
  merge_data, start_recording, stop_recording, put_token, Outcome, Environment, fits, fails,
  written, write_last, refuse, report, has,
}
use galene.WebClient.Connections.{is_blank}

-- The results of `parseString`, `parseStringList` and `parseTime`; an absent key is null.
abbrev pub parse_string : Json → Result Text (Option Text)
parse_string null = ok none
parse_string (text t) = ok (some t)
parse_string (number n) = err (bytes "bad string value")
parse_string (boolean b) = err (bytes "bad string value")
parse_string (array a) = err (bytes "bad string value")
parse_string (object o) = err (bytes "bad string value")

abbrev pub string_list : Option (Option (List Text)) → Result Text (Option (List Text))
string_list none = err (bytes "bad string list")
string_list (some r) = ok r

abbrev pub parse_at : Environment → Option ℕ → Result Text (Option ℕ)
parse_at e none = err (bytes "bad time value")
parse_at e (some n) = ok (some n)

abbrev pub time_value : Environment → Json → Result Text (Option ℕ)
time_value e null = ok none
time_value e (text t) = parse_at e (e.parse_time t)
time_value e (number n) = ok (some (e.now + n * 1000000))
time_value e (boolean b) = err (bytes "bad time value")
time_value e (array a) = err (bytes "bad time value")
time_value e (object o) = err (bytes "bad time value")

abbrev pub or_blank : Option Text → Text
or_blank none = []
or_blank (some t) = t

abbrev pub or_none : Option (List Text) → List Text
or_none none = []
or_none (some ts) = ts

abbrev pub is_given {ℓ} : {A : Type ℓ} → Option A → Bool
is_given none = false
is_given (some x) = true

-- `parseStatefulToken`: the token, and whether it has a list of permissions.
abbrev pub parse_token_fields : Environment → Option Fields → Result Text (Stateful × Bool)
parse_token_fields e none = err (bytes "bad token value")
parse_token_fields e (some o) = parse_string (at_key (bytes "token") o) >>= λ t.
    parse_string (at_key (bytes "username") o) >>= λ u.
    parse_string (at_key (bytes "group") o) >>= λ g.
    string_list (to_string_array (at_key (bytes "permissions") o)) >>= λ p.
    time_value e (at_key (bytes "expires") o) >>= λ x.
    time_value e (at_key (bytes "not-before") o) >>= λ n. ok (
      record {
        token = or_blank t;
        group = or_blank g;
        include_subgroups = false;
        username = u;
        permissions = or_none p;
        expires = x;
        not_before = n;
        issued_at = none;
        issued_by = none;
      },
      is_given p,
    )

abbrev pub parse_stateful_token : Environment → Json → Result Text (Stateful × Bool)
parse_stateful_token e v = parse_token_fields e (as_object v)

-- The messages that answer a request about tokens.
abbrev pub token_error : Environment → WebClient → Text → Text → Text → Outcome
token_error e c kind error t = write_last e c [] (record blank {
  type = bytes "usermessage";
  kind = kind;
  privileged = true;
  error = error;
  value = text t;
})

abbrev pub token_reply : Environment → Text → List Effect
token_reply e kind =
    written e (record blank { type = bytes "usermessage"; kind = kind; privileged = true })

-- What is left of "maketoken" and "edittoken" once the token to be written is known.
abbrev pub token_updated :
    Environment → WebClient → Stateful → Text → Result Text Stateful → Outcome
token_updated e c t tag (err m) = record (token_error e c (bytes "token") (bytes "error") m) {
  effects = put_token t tag ∷ (token_error e c (bytes "token") (bytes "error") m).effects;
}
token_updated e c t tag (ok new) = fits c (put_token t tag ∷ token_reply e (bytes "token"))

-- The loop over the token's permissions.
abbrev pub has_all : WebClient → List Text → Bool
has_all c [] = true
has_all c (p ∷ ps) = has c p && has_all c ps

abbrev pub is_taken : Environment → Option Text → Bool
is_taken e none = false
is_taken e (some u) = e.user_exists u

abbrev pub issued : Environment → WebClient → Stateful → Stateful
issued e c t = record t {
  token = e.random;
  issued_by = (if is_blank c.username then none else some c.username);
  issued_at = some e.now;
}

abbrev pub token_made : Environment → WebClient → Text → Result Text (Stateful × Bool) → Outcome
token_made e c g (err m) = token_error e c (bytes "token") (bytes "error") m
token_made e c g (ok (t, given)) =
    let wrong = token_error e c (bytes "token") (bytes "error") in
    if not (is_blank t.token)
    then wrong (bytes "client specified token")
    else if not (same t.group g)
    then wrong (bytes "wrong group in token")
    else if t.include_subgroups
    then wrong (bytes "hierarchical token not allowed")
    else if not (is_given t.expires)
    then wrong (bytes "token doesn't expire")
    else if is_taken e t.username
    then wrong (bytes "that username is taken")
    else if not (has_all c t.permissions)
    then token_error e c (bytes "token") (bytes "not-authorised") (bytes "not authorised")
    else token_updated e c (issued e c t) [] (e.update_token (issued e c t) [])

-- "edittoken"
abbrev pub or_old : Option ℕ → Option ℕ → Option ℕ
or_old none old = old
or_old (some n) old = some n

abbrev pub token_found :
    Environment → WebClient → Stateful → Result Text (Stateful × Text) → Outcome
token_found e c t (err m) = token_error e c (bytes "token") (bytes "error") m
token_found e c t (ok (old, tag)) =
    let new = record old {
      expires = or_old t.expires old.expires;
      not_before = or_old t.not_before old.not_before;
    } in
    token_updated e c new tag (e.update_token new tag)

abbrev pub edits_fixed : Stateful → Bool → Bool
edits_fixed t given =
    not (is_blank t.group)
    || (is_given t.username
        || (t.include_subgroups || (given || (is_given t.issued_by || is_given t.issued_at))))

abbrev pub token_edited : Environment → WebClient → Result Text (Stateful × Bool) → Outcome
token_edited e c (err m) = token_error e c (bytes "token") (bytes "error") m
token_edited e c (ok (t, given)) =
    if edits_fixed t given
    then token_error e c (bytes "token") (bytes "error") (bytes "this field cannot be edited")
    else token_found e c t (e.get_token t.token)

abbrev pub tokens_listed : Environment → WebClient → Result Text (List Stateful) → Outcome
tokens_listed e c (err m) = token_error e c (bytes "tokenlist") (bytes "error") m
tokens_listed e c (ok ts) = fits c (token_reply e (bytes "tokenlist"))

-- "clearchat": the ids in the value, if it is one of an object.
abbrev pub id_of : Option Text → Text
id_of none = []
id_of (some t) = t

abbrev pub clear_chat : WebClient → Json → Text → Text → Outcome
clear_chat c v id user_id = fits c (
    clear_history id user_id
    ∷ send_all none (record blank {
      type = bytes "usermessage";
      kind = bytes "clearchat";
      value = v;
      privileged = true;
    })
    ∷ [])

abbrev pub clear_ids : Environment → WebClient → Json → Text → Text → Outcome
clear_ids e c v id user_id =
    if is_blank user_id && not (is_blank id)
    then refuse e c (bytes "bad value in clearchat")
    else clear_chat c v id user_id

abbrev pub clear_object : Environment → WebClient → Json → Option Fields → Outcome
clear_object e c v none = refuse e c (bytes "bad value in clearchat")
clear_object e c v (some o) =
    clear_ids e c v (id_of (as_text (at_key (bytes "id") o)))
      (id_of (as_text (at_key (bytes "userId") o)))

abbrev pub is_null : Json → Bool
is_null null = true
is_null (text t) = false
is_null (number n) = false
is_null (boolean b) = false
is_null (array a) = false
is_null (object o) = false

abbrev pub disk_made : Environment → WebClient → Option Failure → Outcome
disk_made e c (some f) = report e c [] f
disk_made e c none = fits c (start_recording ∷ [])

abbrev pub data_set : Environment → WebClient → Option Fields → Outcome
data_set e c none = refuse e c (bytes "Bad value in setdata")
data_set e c (some o) = fits c (merge_data o ∷ [])

abbrev pub subgroups_told : Environment → WebClient → Outcome
subgroups_told e c = fits c (
    written e (record blank {
      type = bytes "chat";
      dest = c.id;
      username = some (bytes "Server");
      value = text e.subgroups;
    }))

-- The message "groupaction" to the group `g`.
unfoldable pub handle_group_action : Environment → WebClient → ClientMessage → Text → Outcome
handle_group_action e c m g =
    let denied = refuse e c (bytes "not authorised") in
    if same m.kind (bytes "clearchat")
    then (if not (has c (bytes "op"))
        then denied
        else if is_null m.value
        then clear_chat c m.value [] []
        else clear_object e c m.value (as_object m.value))
    else if same m.kind (bytes "lock") || same m.kind (bytes "unlock")
    then (if not (has c (bytes "op"))
        then denied
        else fits c (lock_group (same m.kind (bytes "lock")) (id_of (as_text m.value)) ∷ []))
    else if same m.kind (bytes "record")
    then (if not (has c (bytes "record"))
        then denied
        else if e.recording
        then refuse e c (bytes "already recording")
        else disk_made e c e.new_disk)
    else if same m.kind (bytes "unrecord")
    then (if not (has c (bytes "record")) then denied else fits c (stop_recording ∷ []))
    else if same m.kind (bytes "subgroups")
    then (if not (has c (bytes "op")) then denied else subgroups_told e c)
    else if same m.kind (bytes "setdata")
    then (if not (has c (bytes "op")) then denied else data_set e c (as_object m.value))
    else if same m.kind (bytes "maketoken")
    then (if not (has c (bytes "token"))
        then token_error e c (bytes "token") (bytes "not-authorised") (bytes "not authorised")
        else token_made e c g (parse_stateful_token e m.value))
    else if same m.kind (bytes "edittoken")
    then (if not (has c (bytes "op") && has c (bytes "token"))
        then token_error e c (bytes "token") (bytes "not-authorised") (bytes "not authorised")
        else token_edited e c (parse_stateful_token e m.value))
    else if same m.kind (bytes "listtokens")
    then (if not (has c (bytes "op") && has c (bytes "token"))
        then token_error e c (bytes "tokenlist") (bytes "not-authorised") (bytes "not authorised")
        else tokens_listed e c (e.list_tokens g))
    else fails c [] (user_error (bytes "unknown group action"))
