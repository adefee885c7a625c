-- ===== src/WebClient/Actions/Left.antt =====
-- rtpconn/webclient.go: what a client that has left its group, or was redirected, does about the news of
-- others that are still queued for it.
use galene.Base.{
  ◌≡◌, refl, ap, ◌∙◌, Bool, true, false, Option, none, some, List, [], ◌∷◌, ◌++◌, if◌then◌else◌,
  Text, same_refl, bytes,
}
use galene.Base.Results.{ok}
use galene.WebClient.{
  WebClient, ClientMessage, blank, Effect, reply, client_dead, fails, Environment, fits, write_last,
}
use galene.WebClient.Connections.{is_blank}
use galene.WebClient.Messages.{leave_named, leave_group, initialised}
use galene.WebClient.Messages.Dispatch.{handle_client_message}
use galene.WebClient.Actions.{push_client, handle_action, tell_client}

abbrev pub leave_message : Text → ClientMessage
leave_message g = record blank { type = bytes "join"; kind = bytes "leave"; group = g }

abbrev pub join_message : Text → ClientMessage
join_message g = record blank { type = bytes "join"; kind = bytes "join"; group = g }

leave_message-group :
    (e : Environment) (c : WebClient) (g : Text)
    → (handle_client_message e (record c { group = some g }) (leave_message g)).client.group ≡ none
unfolding handle_client_message leave_group
leave_message-group e c g = rw (same_refl g) refl

push_client-none :
    (e : Environment) (c : WebClient) (g : Text) (m : ClientMessage)
    → c.group ≡ none
    → handle_action e c (push_client g m) ≡ none
unfolding handle_action
push_client-none e c g m h = ap (tell_client e c g m) h

-- News of a member that are queued for a client when it leaves its group make `handleAction` panic,
-- whoever they are about.
pub leave_message-push_client_panics :
    (e e' : Environment) (c : WebClient) (g h : Text) (m : ClientMessage)
    → handle_action e'
        (handle_client_message e (record c { group = some g }) (leave_message g)).client
        (push_client h m)
      ≡ none
leave_message-push_client_panics e e' c g h m =
    push_client-none e' _ h m (leave_message-group e c g)

write_last-group :
    (e : Environment) (c : WebClient) (before : List Effect) (m : ClientMessage)
    → (write_last e c before m).client.group ≡ c.group
write_last-group e c before m = either e.alive
  where
    either :
        (b : Bool)
        → (if b then fits c (before ++ reply m ∷ []) else fails c before client_dead).client.group
          ≡ c.group
    either true = refl
    either false = refl

initialised-group :
    (c : WebClient) (i : Option (Text × List Text)) → (initialised c i).group ≡ c.group
initialised-group c none = refl
initialised-group c (some (u, l)) = refl

leave_group-none : (c : WebClient) → c.group ≡ none → leave_group c ≡ (c, [])
unfolding leave_group
leave_group-none c h = ap (leave_named c) h

redirected-group :
    (e : Environment) (c : WebClient) (i : Option (Text × List Text)) (g r : Text)
    → is_blank r ≡ false
    → let admits : Environment = record e { admission = record { init = i; result = ok r } } in
      (handle_client_message admits (record c { group = none }) (join_message g)).client.group
      ≡ none
unfolding handle_client_message
redirected-group e c i g r b =
    let admits : Environment = record e { admission = record { init = i; result = ok r } } in
    rw b (
      write_last-group admits (initialised (record c { group = none; user_data = [] }) i) [] _
      ∙ initialised-group (record c { group = none; user_data = [] }) i)

-- A client that is admitted to a group and then redirected is a member without knowing its group: it
-- panics at the news of its own arrival, and makes no call to leave the group, also when it is gone.
pub join_message-redirected :
    (e e' : Environment) (c : WebClient) (i : Option (Text × List Text)) (g r h : Text)
    (m : ClientMessage)
    → is_blank r ≡ false
    → let admits : Environment = record e { admission = record { init = i; result = ok r } } in
      let c' = (handle_client_message admits (record c { group = none }) (join_message g)).client in
      (leave_group c' ≡ (c', [])) × (handle_action e' c' (push_client h m) ≡ none)
join_message-redirected e e' c i g r h m b =
    let left = redirected-group e c i g r b in
    (leave_group-none _ left, push_client-none e' _ h m left)
