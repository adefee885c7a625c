-- ===== src/WebClient/Messages/Permitted.antt =====
-- rtpconn/webclient.go: which calls a client may cause by a message, by its permissions.
pub mod Offers
pub mod Actions
pub mod Handled
use galene.Base.{
  ℕ, ◌≡◌, refl, sym, ap, ◌∙◌, Bool, true, false, not, ◌&&◌, ◌||◌, Option, none, some, List, [], ◌∷◌,
  ◌++◌, if◌then◌else◌, Text, same, bytes, contains, All, All-append, arith,
}
use galene.Base.Dict.{Dict, find}
use galene.Base.Json.{Json, Fields, as_text, as_object, to_string_array}
use galene.Base.Results.{Result, ok, err}
use galene.Tokens.{Stateful}
use galene.WebClient.{
  UpConnection, DownConnection, WebClient, ClientMessage, blank, Failure, user_error, kick_error,
  protocol_error, client_dead, library_error, Effect, reply, send_to, send_all, add_history,
  clear_history, lock_group, merge_data, start_recording, stop_recording, change_permissions,
  warn_identified, kick_out, push_own, put_token, open_connection, close_connection, push_close,
  push_tracks, ask_senders, leave_members, queue_changed, queue_tracks, Outcome, Member, web, disk,
  whip, Environment, fits, fails, written, write_last, report_message, report, refuse, has,
  error_message,
}
use galene.WebClient.Connections.{
  Done, is_blank, del_up_found, del_up_conn, del_down_found, del_down_conn, close_down_conn,
  fail_up_connection, add_new_up, add_up_found, add_up_conn, has_group,
}
use galene.WebClient.Messages.{
  is_chat, required, close_ups, close_downs, leave_group, leave_named, join_result, join_from,
  set_requested, set_requested_stream,
}
use galene.WebClient.Messages.Groups.{has_all, is_given, is_taken}
use galene.WebClient.Messages.Dispatch.{is_other, handle_client_message}

-- The client says this in its own name, and with the permission that it takes; it is marked as
-- privileged only if the client is an operator.
pub speaks : WebClient → ClientMessage → Bool
speaks c m =
    has c (required m)
    && ((not m.privileged || has c (bytes "op"))
        && ((is_blank m.source || same m.source c.id) && not (is_other c.username m.username)))

abbrev pub is_own_group : Option Text → Text → Bool
is_own_group none group = false
is_own_group (some g) group = same group g

-- A new token of the client: for its group alone, with an end, in no one else's name, and with no
-- permission that the client has not.
pub issues : Environment → WebClient → Stateful → Text → Bool
issues e c t tag =
    is_own_group c.group t.group
    && (not t.include_subgroups
        && (is_given t.expires
            && (not (is_taken e t.username) && (has_all c t.permissions && is_blank tag))))

-- What the client is told: the tokens of the group and who a member is are for operators, and so are
-- the subgroups, the only thing that is told in a chat message by `handleClientMessage` itself.
abbrev pub reveals : WebClient → ClientMessage → Bool
reveals c m =
    if same m.kind (bytes "tokenlist") && is_blank m.error
    then has c (bytes "op") && has c (bytes "token")
    else if same m.kind (bytes "token") && is_blank m.error
    then has c (bytes "token")
    else if same m.kind (bytes "userinfo") || same m.type (bytes "chat")
    then has c (bytes "op")
    else true

unfoldable pub permitted : Environment → WebClient → Effect → Bool
permitted e c (reply m) = reveals c m
permitted e c (send_to d m) = speaks c m
permitted e c (send_all x m) = speaks c m || (has c (bytes "op") && same m.kind (bytes "clearchat"))
permitted e c (add_history m) = speaks c m && is_chat m
permitted e c (clear_history id user_id) = has c (bytes "op")
permitted e c (lock_group b t) = has c (bytes "op")
permitted e c (merge_data o) = has c (bytes "op")
permitted e c start_recording = has c (bytes "record")
permitted e c stop_recording = has c (bytes "record")
permitted e c (change_permissions d k) = has c (bytes "op")
permitted e c (warn_identified d) = has c (bytes "op")
permitted e c (kick_out d by u t) = has c (bytes "op")
permitted e c push_own = true
permitted e c (put_token t tag) = has c (bytes "token") && (has c (bytes "op") || issues e c t tag)
permitted e c (open_connection id) = has c (bytes "present")
permitted e c (close_connection id) = true
permitted e c (push_close id r) = true
permitted e c (push_tracks u) = true
permitted e c (ask_senders id) = true
permitted e c leave_members = true
permitted e c queue_changed = true
permitted e c (queue_tracks u ts) = true

module _ (e : Environment) (c : WebClient) where
  abbrev pub Allowed : List Effect → Type 0
  Allowed es = All (λ x. permitted e c x ≡ true) es

  pub Allowed-append : (xs ys : List Effect) → Allowed xs → Allowed ys → Allowed (xs ++ ys)
  Allowed-append = All-append (λ x. permitted e c x ≡ true)

  -- A test, where the calls are a part of both branches.
  pub Allowed-if {ℓ} :
      {A : Type ℓ} (calls : A → List Effect) (b : Bool) (x y : A)
      → (b ≡ true → Allowed (calls x))
      → (b ≡ false → Allowed (calls y))
      → Allowed (calls (if b then x else y))
  Allowed-if calls true x y h k = h refl
  Allowed-if calls false x y h k = k refl

  pub Allowed-branch :
      (b : Bool) (x y : Outcome)
      → (b ≡ true → Allowed x.effects)
      → (b ≡ false → Allowed y.effects)
      → Allowed (if b then x else y).effects
  Allowed-branch = Allowed-if (λ (o : Outcome). o.effects)

  pub Allowed-choice :
      (b : Bool) (xs ys : List Effect)
      → (b ≡ true → Allowed xs)
      → (b ≡ false → Allowed ys)
      → Allowed (if b then xs else ys)
  Allowed-choice = Allowed-if (λ (xs : List Effect). xs)

  pub written-Allowed : (m : ClientMessage) → reveals c m ≡ true → Allowed (written e m)
  unfolding permitted
  written-Allowed m r = Allowed-choice e.alive _ _ (λ _. (r, tt)) (λ _. tt)

  pub write_last-Allowed :
      (c' : WebClient) (before : List Effect) (m : ClientMessage)
      → Allowed before
      → reveals c m ≡ true
      → Allowed (write_last e c' before m).effects
  unfolding permitted
  write_last-Allowed c' before m h r =
      Allowed-branch e.alive _ _ (λ _. Allowed-append before (reply m ∷ []) h (r, tt)) (λ _. h)

  pub report-Allowed :
      (c' : WebClient) (before : List Effect) (f : Failure)
      → Allowed before
      → Allowed (report e c' before f).effects
  report-Allowed c' before (user_error t) h = write_last-Allowed c' before _ h refl
  report-Allowed c' before (kick_error by u t) h = write_last-Allowed c' before _ h refl
  report-Allowed c' before (protocol_error t) h = h
  report-Allowed c' before client_dead h = h
  report-Allowed c' before (library_error t) h = h

  pub refuse-Allowed : (t : Text) → Allowed (refuse e c t).effects
  refuse-Allowed t = write_last-Allowed c [] _ tt refl

  del_up_found-Allowed :
      (c' : WebClient) (id user_id : Text) (push : Bool) (u : Option UpConnection)
      → Allowed (del_up_found c' id user_id push u).1
  unfolding permitted
  del_up_found-Allowed c' id user_id push none = tt
  del_up_found-Allowed c' id user_id push (some u) =
      Allowed-if (λ (r : Done). r.1) (not (is_blank user_id) && not (same u.user_id user_id)) _ _
        (λ _. tt)
        (λ _. (refl, Allowed-choice (push && has_group c'.group) _ _ (λ _. (refl, tt)) (λ _. tt)))

  pub del_up_conn-Allowed :
      (c' : WebClient) (id user_id : Text) (push : Bool)
      → Allowed (del_up_conn c' id user_id push).1
  unfolding del_up_conn
  del_up_conn-Allowed c' id user_id push = del_up_found-Allowed c' id user_id push (find id c'.up)

  pub del_down_conn-Allowed : (c' : WebClient) (id : Text) → Allowed (del_down_conn c' id).1
  unfolding del_down_conn permitted
  del_down_conn-Allowed c' id = found (find id c'.down)
    where
      found : (d : Option DownConnection) → Allowed (del_down_found c' id d).1
      found none = tt
      found (some d) = (refl, tt)

  pub close_down_conn-Allowed :
      (c' : WebClient) (before : List Effect) (id message : Text)
      → Allowed before
      → Allowed (close_down_conn e c' before id message).effects
  unfolding close_down_conn
  close_down_conn-Allowed c' before id message h =
      let closing =
        Allowed-append (del_down_conn c' id).1 _ (del_down_conn-Allowed c' id)
          (written-Allowed (record blank { type = bytes "close"; id = id }) refl) in
      let all = Allowed-append before _ h closing in
      Allowed-branch (not e.alive) _ _ (λ _. all)
        (λ _.
          Allowed-branch (is_blank message) _ _ (λ _. all)
            (λ _. report-Allowed _ _ (user_error message) all))

  pub fail_up_connection-Allowed :
      (c' : WebClient) (before : List Effect) (id message : Text)
      → Allowed before
      → Allowed (fail_up_connection e c' before id message).effects
  unfolding fail_up_connection
  fail_up_connection-Allowed c' before id message h =
      let abort =
        Allowed-choice (is_blank id) [] _ (λ _. tt)
          (λ _. written-Allowed (record blank { type = bytes "abort"; id = id }) refl) in
      let all = Allowed-append before _ h abort in
      Allowed-branch (not (is_blank id) && not e.alive) _ _ (λ _. h)
        (λ _.
          Allowed-branch (is_blank message) _ _ (λ _. all)
            (λ _. report-Allowed _ _ (user_error message) all))

  -- Leaving a group needs no permission.
  pub close_ups-Allowed : (c' : WebClient) (us : Dict UpConnection) → Allowed (close_ups c' us).1
  close_ups-Allowed c' [] = tt
  close_ups-Allowed c' ((id, u) ∷ us) =
      Allowed-append (del_up_conn c' id c'.id true).1 _ (del_up_conn-Allowed c' id c'.id true)
        (close_ups-Allowed (del_up_conn c' id c'.id true).0 us)

  close_downs-Allowed : (c' : WebClient) (ds : Dict DownConnection) → Allowed (close_downs c' ds).1
  close_downs-Allowed c' [] = tt
  close_downs-Allowed c' ((id, d) ∷ ds) =
      Allowed-append (del_down_conn c' id).1 _ (del_down_conn-Allowed c' id)
        (close_downs-Allowed (del_down_conn c' id).0 ds)

  pub leave_group-Allowed : Allowed (leave_group c).1
  unfolding leave_group permitted
  leave_group-Allowed = leave c.group
    where
      leave : (g : Option Text) → Allowed (leave_named c g).1
      leave none = tt
      leave (some g) =
          let (c', ups) = close_ups c c.up in
          Allowed-append ups _ (close_ups-Allowed c c.up) (
            Allowed-append (close_downs c' c'.down).1 (leave_members ∷ [])
              (close_downs-Allowed c' c'.down) (refl, tt))

  join_result-Allowed :
      (c' : WebClient) (g : Text) (r : Result (Text × Text) Text)
      → Allowed (join_result e c' g r).effects
  join_result-Allowed c' g (err (error, value)) = write_last-Allowed c' [] _ tt refl
  join_result-Allowed c' g (ok redirect) =
      Allowed-branch (not (is_blank redirect)) _ _ (λ _. write_last-Allowed c' [] _ tt refl)
        (λ _. tt)

  pub join_from-Allowed :
      (m : ClientMessage) (g : Option Text) → Allowed (join_from e c m g).effects
  join_from-Allowed m none =
      Allowed-branch (same m.kind (bytes "leave")) _ _ (λ _. tt)
        (λ _.
          Allowed-branch (not (same m.kind (bytes "join"))) _ _ (λ _. tt)
            (λ _. join_result-Allowed _ m.group e.admission.result))
  join_from-Allowed m (some g) =
      Allowed-branch (same m.kind (bytes "leave")) _ _
        (λ _. Allowed-branch (same g m.group) _ _ (λ _. leave_group-Allowed) (λ _. tt))
        (λ _. Allowed-branch (not (same m.kind (bytes "join"))) _ _ (λ _. tt) (λ _. tt))

  pub set_requested-Allowed :
      (g : Option Text) (r : Option (Dict (List Text))) → Allowed (set_requested c g r).effects
  unfolding permitted
  set_requested-Allowed g none = tt
  set_requested-Allowed none (some r) = tt
  set_requested-Allowed (some g) (some r) = (refl, tt)

  pub set_requested_stream-Allowed :
      (d : Option DownConnection) (r : Option (Option (List Text)))
      → Allowed (set_requested_stream c d r).effects
  unfolding permitted
  set_requested_stream-Allowed none r = tt
  set_requested_stream-Allowed (some d) none = tt
  set_requested_stream-Allowed (some d) (some r) = (refl, tt)
