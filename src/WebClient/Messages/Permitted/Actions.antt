-- ===== src/WebClient/Messages/Permitted/Actions.antt =====
-- rtpconn/webclient.go: what group actions and user actions need.
use galene.Base.{
  double_negation, ◌≡◌, refl, sym, Bool, true, false, not, ◌&&◌, ◌||◌, Option, none, some, List, [],
  ◌∷◌, Text, same, bytes,
}
use mathlib.Core.Path.{subst}
use galene.Base.Json.{Json, Fields, as_text, as_object, at_key}
use galene.Base.Results.{Result, ok, err}
use galene.Tokens.{Stateful}
use galene.WebClient.{
  blank, WebClient, ClientMessage, Failure, Member, web, disk, whip, Environment, has, put_token,
  lock_group, stop_recording,
}
use galene.WebClient.Connections.{is_blank}
use galene.WebClient.Messages.Groups.{
  token_error, token_updated, has_all, is_given, is_taken, issued, token_made, or_old, token_found,
  token_edited, tokens_listed, clear_chat, clear_object, edits_fixed, is_null, disk_made, data_set,
  handle_group_action, parse_stateful_token, id_of,
}
use galene.WebClient.Messages.Users.{
  is_permission_change, change_member, identify, kick_member, set_own_data, handle_user_action,
}
use galene.WebClient.Messages.Permitted.{
  permitted, reveals, issues, is_own_group, Allowed, Allowed-branch, written-Allowed,
  write_last-Allowed, report-Allowed, refuse-Allowed,
}

or_true : (b : Bool) → (b || true) ≡ true
or_true true = refl
or_true false = refl

own_group :
    (o : Option Text) (g group : Text)
    → o ≡ some g
    → same group g ≡ true
    → is_own_group o group ≡ true
own_group none g group q h = cc
own_group (some f) g group q h = subst (λ o. is_own_group o group ≡ true) (sym q) h

-- The tests on a new token, as one.
all_tests :
    (g b x u p : Bool)
    → g ≡ true
    → b ≡ false
    → x ≡ true
    → u ≡ false
    → p ≡ true
    → (g && (not b && (x && (not u && (p && true))))) ≡ true
all_tests g b x u p h1 h2 h3 h4 h5 = rw (h1, h2, h3, h4, h5) refl

either_way : (a b i : Bool) → a ≡ true → i ≡ true → (a && (b || i)) ≡ true
either_way a true i h k = rw h refl
either_way a false i h k = rw (h, k) refl

both_parts : (a b i : Bool) → (b && a) ≡ true → (a && (b || i)) ≡ true
both_parts true true i h = refl
both_parts true false i h = cc
both_parts false true i h = cc
both_parts false false i h = cc

second_part : (a b : Bool) → (a && b) ≡ true → b ≡ true
second_part true b h = h
second_part false b h = cc

module _ (e : Environment) (c : WebClient) where
  token_error-Allowed :
      (kind error t : Text)
      → reveals c (record blank { type = bytes "usermessage"; kind = kind; error = error }) ≡ true
      → Allowed e c (token_error e c kind error t).effects
  token_error-Allowed kind error t r = write_last-Allowed e c c [] _ tt r

  wrong_token : (t : Text) → Allowed e c (token_error e c (bytes "token") (bytes "error") t).effects
  wrong_token t = token_error-Allowed (bytes "token") (bytes "error") t refl

  token_updated-Allowed :
      (t : Stateful) (tag : Text) (r : Result Text Stateful)
      → permitted e c (put_token t tag) ≡ true
      → has c (bytes "token") ≡ true
      → Allowed e c (token_updated e c t tag r).effects
  token_updated-Allowed t tag (err m) h k = (h, wrong_token m)
  token_updated-Allowed t tag (ok new) h k = (h, written-Allowed e c _ k)

  token_made-Allowed :
      (g : Text) (r : Result Text (Stateful × Bool))
      → c.group ≡ some g
      → has c (bytes "token") ≡ true
      → Allowed e c (token_made e c g r).effects
  unfolding permitted issues
  token_made-Allowed g (err m) q h = wrong_token m
  token_made-Allowed g (ok (t, given)) q h =
      let wrong = λ (m : Text). wrong_token m in
      Allowed-branch e c (not (is_blank t.token)) _ _ (λ _. wrong _)
        (λ h1.
          Allowed-branch e c (not (same t.group g)) _ _ (λ _. wrong _)
            (λ h2.
              Allowed-branch e c t.include_subgroups _ _ (λ _. wrong _)
                (λ h3.
                  Allowed-branch e c (not (is_given t.expires)) _ _ (λ _. wrong _)
                    (λ h4.
                      Allowed-branch e c (is_taken e t.username) _ _ (λ _. wrong _)
                        (λ h5.
                          Allowed-branch e c (not (has_all c t.permissions)) _ _
                            (λ _.
                              token_error-Allowed (bytes "token") (bytes "not-authorised") _ refl)
                            (λ h6.
                              token_updated-Allowed (issued e c t) []
                                (e.update_token (issued e c t) [])
                                (either_way (has c (bytes "token")) (has c (bytes "op")) _ h (
                                  all_tests _ t.include_subgroups _ (is_taken e t.username) _
                                    (own_group c.group g t.group q
                                      (double_negation (same t.group g) h2))
                                    h3 (double_negation (is_given t.expires) h4) h5
                                    (double_negation (has_all c t.permissions) h6)))
                                h))))))

  token_found-Allowed :
      (t : Stateful) (r : Result Text (Stateful × Text))
      → (has c (bytes "op") && has c (bytes "token")) ≡ true
      → Allowed e c (token_found e c t r).effects
  unfolding permitted
  token_found-Allowed t (err m) h = wrong_token m
  token_found-Allowed t (ok (old, tag)) h =
      let new : Stateful = record old {
        expires = or_old t.expires old.expires;
        not_before = or_old t.not_before old.not_before;
      } in
      token_updated-Allowed new tag (e.update_token new tag)
        (both_parts (has c (bytes "token")) (has c (bytes "op")) _ h)
        (second_part (has c (bytes "op")) (has c (bytes "token")) h)

  token_edited-Allowed :
      (r : Result Text (Stateful × Bool))
      → (has c (bytes "op") && has c (bytes "token")) ≡ true
      → Allowed e c (token_edited e c r).effects
  token_edited-Allowed (err m) h = wrong_token m
  token_edited-Allowed (ok (t, given)) h =
      Allowed-branch e c (edits_fixed t given) _ _
        (λ _. wrong_token (bytes "this field cannot be edited"))
        (λ _. token_found-Allowed t (e.get_token t.token) h)

  tokens_listed-Allowed :
      (r : Result Text (List Stateful))
      → (has c (bytes "op") && has c (bytes "token")) ≡ true
      → Allowed e c (tokens_listed e c r).effects
  tokens_listed-Allowed (err m) h = token_error-Allowed (bytes "tokenlist") (bytes "error") m refl
  tokens_listed-Allowed (ok ts) h = written-Allowed e c _ h

  clear_chat-Allowed :
      (v : Json) (id user_id : Text)
      → has c (bytes "op") ≡ true
      → Allowed e c (clear_chat c v id user_id).effects
  unfolding permitted
  clear_chat-Allowed v id user_id h = (h, (rw h (or_true _), tt))

  clear_object-Allowed :
      (v : Json) (o : Option Fields)
      → has c (bytes "op") ≡ true
      → Allowed e c (clear_object e c v o).effects
  clear_object-Allowed v none h = refuse-Allowed e c _
  clear_object-Allowed v (some o) h =
      let id = id_of (as_text (at_key (bytes "id") o)) in
      let user_id = id_of (as_text (at_key (bytes "userId") o)) in
      Allowed-branch e c (is_blank user_id && not (is_blank id)) _ _
        (λ _. refuse-Allowed e c (bytes "bad value in clearchat"))
        (λ _. clear_chat-Allowed v id user_id h)

  disk_made-Allowed :
      (f : Option Failure) → has c (bytes "record") ≡ true → Allowed e c (disk_made e c f).effects
  unfolding permitted
  disk_made-Allowed (some f) h = report-Allowed e c c [] f tt
  disk_made-Allowed none h = (h, tt)

  data_set-Allowed :
      (o : Option Fields) → has c (bytes "op") ≡ true → Allowed e c (data_set e c o).effects
  unfolding permitted
  data_set-Allowed none h = refuse-Allowed e c _
  data_set-Allowed (some o) h = (h, tt)

  change_member-Allowed :
      (m : ClientMessage) (d : Option Member)
      → has c (bytes "op") ≡ true
      → Allowed e c (change_member e c m d).effects
  unfolding permitted
  change_member-Allowed m none h = refuse-Allowed e c _
  change_member-Allowed m (some disk) h = refuse-Allowed e c _
  change_member-Allowed m (some (whip n)) h = refuse-Allowed e c _
  change_member-Allowed m (some (web n)) h = (h, tt)

  identify-Allowed :
      (m : ClientMessage) (d : Option Member)
      → has c (bytes "op") ≡ true
      → Allowed e c (identify e c m d).effects
  unfolding permitted
  identify-Allowed m none h = refuse-Allowed e c _
  identify-Allowed m (some disk) h = written-Allowed e c _ h
  identify-Allowed m (some (whip n)) h = written-Allowed e c _ h
  identify-Allowed m (some (web n)) h = (h, written-Allowed e c _ h)

  kick_member-Allowed :
      (m : ClientMessage) (d : Option Member)
      → has c (bytes "op") ≡ true
      → Allowed e c (kick_member e c m d).effects
  unfolding permitted
  kick_member-Allowed m none h = refuse-Allowed e c _
  kick_member-Allowed m (some d) h = (h, tt)

  set_own_data-Allowed : (o : Option Fields) → Allowed e c (set_own_data e c o).effects
  unfolding permitted
  set_own_data-Allowed none = refuse-Allowed e c _
  set_own_data-Allowed (some o) = (refl, tt)

  lock-Allowed :
      (m : ClientMessage)
      → has c (bytes "op") ≡ true
      → Allowed e c (lock_group (same m.kind (bytes "lock")) (id_of (as_text m.value)) ∷ [])
  unfolding permitted
  lock-Allowed m h = (h, tt)

  unrecord-Allowed : has c (bytes "record") ≡ true → Allowed e c (stop_recording ∷ [])
  unfolding permitted
  unrecord-Allowed h = (h, tt)

  pub handle_group_action-Allowed :
      (m : ClientMessage) (g : Text)
      → c.group ≡ some g
      → Allowed e c (handle_group_action e c m g).effects
  unfolding handle_group_action
  handle_group_action-Allowed m g q =
      let denied = refuse-Allowed e c (bytes "not authorised") in
      let no_token =
        token_error-Allowed (bytes "token") (bytes "not-authorised") (bytes "not authorised")
          refl in
      let op = has c (bytes "op") in
      let both = has c (bytes "op") && has c (bytes "token") in
      Allowed-branch e c (same m.kind (bytes "clearchat")) _ _
        (λ _.
          Allowed-branch e c (not op) _ _ (λ _. denied)
            (λ h.
              Allowed-branch e c (is_null m.value) _ _
                (λ _. clear_chat-Allowed m.value [] [] (double_negation op h))
                (λ _. clear_object-Allowed m.value (as_object m.value) (double_negation op h))))
        (λ _.
          Allowed-branch e c (same m.kind (bytes "lock") || same m.kind (bytes "unlock")) _ _
            (λ _.
              Allowed-branch e c (not op) _ _ (λ _. denied)
                (λ h. lock-Allowed m (double_negation op h)))
            (λ _.
              Allowed-branch e c (same m.kind (bytes "record")) _ _
                (λ _.
                  Allowed-branch e c (not (has c (bytes "record"))) _ _ (λ _. denied)
                    (λ h.
                      Allowed-branch e c e.recording _ _
                        (λ _. refuse-Allowed e c (bytes "already recording"))
                        (λ _.
                          disk_made-Allowed e.new_disk
                            (double_negation (has c (bytes "record")) h))))
                (λ _.
                  Allowed-branch e c (same m.kind (bytes "unrecord")) _ _
                    (λ _.
                      Allowed-branch e c (not (has c (bytes "record"))) _ _ (λ _. denied)
                        (λ h. unrecord-Allowed (double_negation (has c (bytes "record")) h)))
                    (λ _.
                      Allowed-branch e c (same m.kind (bytes "subgroups")) _ _
                        (λ _.
                          Allowed-branch e c (not op) _ _ (λ _. denied)
                            (λ h. written-Allowed e c _ (double_negation op h)))
                        (λ _.
                          Allowed-branch e c (same m.kind (bytes "setdata")) _ _
                            (λ _.
                              Allowed-branch e c (not op) _ _ (λ _. denied)
                                (λ h. data_set-Allowed (as_object m.value) (double_negation op h)))
                            (λ _.
                              Allowed-branch e c (same m.kind (bytes "maketoken")) _ _
                                (λ _.
                                  Allowed-branch e c (not (has c (bytes "token"))) _ _
                                    (λ _. no_token)
                                    (λ h.
                                      token_made-Allowed g (parse_stateful_token e m.value) q
                                        (double_negation (has c (bytes "token")) h)))
                                (λ _.
                                  Allowed-branch e c (same m.kind (bytes "edittoken")) _ _
                                    (λ _.
                                      Allowed-branch e c (not both) _ _ (λ _. no_token)
                                        (λ h.
                                          token_edited-Allowed (parse_stateful_token e m.value)
                                            (double_negation both h)))
                                    (λ _.
                                      Allowed-branch e c (same m.kind (bytes "listtokens")) _ _
                                        (λ _.
                                          Allowed-branch e c (not both) _ _
                                            (λ _.
                                              token_error-Allowed (bytes "tokenlist")
                                                (bytes "not-authorised") (bytes "not authorised")
                                                refl)
                                            (λ h.
                                              tokens_listed-Allowed (e.list_tokens g)
                                                (double_negation both h)))
                                        (λ _. tt)))))))))

  pub handle_user_action-Allowed :
      (m : ClientMessage) → Allowed e c (handle_user_action e c m).effects
  unfolding handle_user_action
  handle_user_action-Allowed m =
      let denied = refuse-Allowed e c (bytes "not authorised") in
      let op = has c (bytes "op") in
      Allowed-branch e c (is_permission_change m.kind) _ _
        (λ _.
          Allowed-branch e c (not op) _ _ (λ _. denied)
            (λ h. change_member-Allowed m (e.member m.dest) (double_negation op h)))
        (λ _.
          Allowed-branch e c (same m.kind (bytes "identify")) _ _
            (λ _.
              Allowed-branch e c (not op) _ _ (λ _. denied)
                (λ h. identify-Allowed m (e.member m.dest) (double_negation op h)))
            (λ _.
              Allowed-branch e c (same m.kind (bytes "kick")) _ _
                (λ _.
                  Allowed-branch e c (not op) _ _ (λ _. denied)
                    (λ h. kick_member-Allowed m (e.member m.dest) (double_negation op h)))
                (λ _.
                  Allowed-branch e c (same m.kind (bytes "setdata")) _ _
                    (λ _.
                      Allowed-branch e c (not (same m.dest c.id)) _ _ (λ _. denied)
                        (λ _. set_own_data-Allowed (as_object m.value)))
                    (λ _. tt))))
