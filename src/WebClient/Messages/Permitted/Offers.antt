-- ===== src/WebClient/Messages/Permitted/Offers.antt =====
-- rtpconn/webclient.go: offers and answers need at most the permission "present".
use galene.Base.{
  refl, double_negation, ◌≡◌, Bool, true, false, not, Option, none, some, List, [], ◌++◌,
  if◌then◌else◌, Text, bytes,
}
use galene.Base.Dict.{find}
use galene.WebClient.{
  UpConnection, DownConnection, WebClient, ClientMessage, Failure, user_error, Effect, Outcome,
  Environment, has,
}
use galene.WebClient.Connections.{
  Done, is_blank, del_up_conn, add_new_up, add_up_found, add_up_conn, negotiate, send_offer,
  offer_message, put_down,
}
use galene.WebClient.Signalling.{
  replace_up, answer_offer, offer_added, got_offer, failure_text, offer_failed, negotiated,
  is_needed, is_restart, answer_taken, answer_found, got_answer, renegotiate_found,
}
use galene.WebClient.Messages.{handle_offer, offer_refused}
use galene.WebClient.Messages.Permitted.{
  permitted, Allowed, Allowed-append, Allowed-if, Allowed-branch, written-Allowed,
  write_last-Allowed, report-Allowed, del_up_conn-Allowed, close_down_conn-Allowed,
  fail_up_connection-Allowed,
}

module _ (e : Environment) (c : WebClient) where
  add_new_up-Allowed :
      (c' : WebClient) (id label : Text) (t : Option Text)
      → has c (bytes "present") ≡ true
      → Allowed e c (add_new_up e c' id label t).1
  unfolding permitted
  add_new_up-Allowed c' id label (some t) h = tt
  add_new_up-Allowed c' id label none h = (h, tt)

  add_up_found-Allowed :
      (c' : WebClient) (id label : Text) (d : Option DownConnection) (u : Option UpConnection)
      → has c (bytes "present") ≡ true
      → Allowed e c (add_up_found e c' id label d u).1
  add_up_found-Allowed c' id label (some d) u h = tt
  add_up_found-Allowed c' id label none (some u) h = tt
  add_up_found-Allowed c' id label none none h = add_new_up-Allowed c' id label e.new_connection h

  replace_up-Allowed :
      (c' : WebClient) (id replace : Text) → Allowed e c (replace_up c' id replace).1
  replace_up-Allowed c' id replace =
      Allowed-if e c (λ (r : WebClient × List Effect). r.1) (is_blank replace) _ _ (λ _. tt)
        (λ _. del_up_conn-Allowed e c _ replace c'.id false)

  answer_offer-Allowed :
      (c' : WebClient) (before : List Effect) (id : Text) (t : Option Text)
      → Allowed e c before
      → Allowed e c (answer_offer e c' before id t).effects
  answer_offer-Allowed c' before id (some t) h = h
  answer_offer-Allowed c' before id none h = write_last-Allowed e c c' before _ h refl

  offer_added-Allowed :
      (r : Done) (id replace : Text)
      → Allowed e c r.1
      → Allowed e c (offer_added e r id replace).effects
  offer_added-Allowed (c', before, some f) id replace h = h
  offer_added-Allowed (c', before, none) id replace h =
      answer_offer-Allowed _ _ id e.sdp_failure
        (Allowed-append e c before _ h (replace_up-Allowed c' id replace))

  got_offer-Allowed :
      (id label replace : Text)
      → has c (bytes "present") ≡ true
      → Allowed e c (got_offer e c id label replace).effects
  unfolding got_offer add_up_conn
  got_offer-Allowed id label replace h =
      offer_added-Allowed (add_up_conn e c id label) id replace
        (add_up_found-Allowed c id label (find id c.down) (find id c.up) h)

  offer_failed-Allowed :
      (id : Text) (f : Option Failure) (o : Outcome)
      → Allowed e c o.effects
      → Allowed e c (offer_failed e id f o).effects
  offer_failed-Allowed id none o h = h
  offer_failed-Allowed id (some f) o h =
      fail_up_connection-Allowed e c o.client o.effects id (failure_text f) h

  offer_refused-Allowed : (m : ClientMessage) → Allowed e c (offer_refused e c m).effects
  offer_refused-Allowed m =
      let dropped : Done =
        if is_blank m.replace then (c, [], none) else del_up_conn c m.replace c.id true in
      let es : Allowed e c dropped.1 =
        Allowed-if e c (λ (r : Done). r.1) (is_blank m.replace) _ _ (λ _. tt)
          (λ _. del_up_conn-Allowed e c c m.replace c.id true) in
      report-Allowed e c dropped.0 _ (user_error (bytes "not authorised"))
        (Allowed-append e c dropped.1 _ es (written-Allowed e c _ refl))

  pub handle_offer-Allowed : (m : ClientMessage) → Allowed e c (handle_offer e c m).effects
  unfolding handle_offer
  handle_offer-Allowed m =
      Allowed-branch e c (is_blank m.id) _ _ (λ _. tt)
        (λ _.
          Allowed-branch e c (not (has c (bytes "present"))) _ _ (λ _. offer_refused-Allowed m)
            (λ h.
              let o = got_offer e c m.id m.label m.replace in
              offer_failed-Allowed m.id o.failure (record o { failure = none })
                (got_offer-Allowed m.id m.label m.replace
                  (double_negation (has c (bytes "present")) h))))

  -- Negotiation only sends an offer to the client.
  send_offer-Allowed :
      (d : DownConnection) (replace : Text) (t : Option Text)
      → Allowed e c (send_offer e d replace t).1
  send_offer-Allowed d replace (some t) = tt
  send_offer-Allowed d replace none = written-Allowed e c (offer_message d replace) refl

  pub negotiate-Allowed :
      (d : DownConnection) (restart : Bool) (replace : Text)
      → Allowed e c (negotiate e d restart replace).1
  unfolding negotiate
  negotiate-Allowed d restart replace =
      Allowed-if e c (λ (r : DownConnection × List Effect × Option Failure). r.1) d.offered _ _
        (λ _. tt) (λ _. send_offer-Allowed d replace e.sdp_failure)

  pub negotiated-Allowed :
      (c' : WebClient) (before : List Effect) (r : DownConnection × List Effect × Option Failure)
      → Allowed e c before
      → Allowed e c r.1
      → Allowed e c (negotiated e c' before r).effects
  negotiated-Allowed c' before (d, es, none) h k = Allowed-append e c before es h k
  negotiated-Allowed c' before (d, es, some f) h k =
      close_down_conn-Allowed e c (put_down c' d) (before ++ es) d.id (failure_text f)
        (Allowed-append e c before es h k)

  answer_taken-Allowed :
      (d : DownConnection) (t : Option Text) → Allowed e c (answer_taken e c d t).effects
  answer_taken-Allowed d (some t) = close_down_conn-Allowed e c c [] d.id t tt
  answer_taken-Allowed d none =
      let d' : DownConnection = record d { offered = false } in
      let again = negotiate e d' (is_restart d.negotiation) [] in
      Allowed-branch e c (is_needed d.negotiation) _ _
        (λ _.
          negotiated-Allowed (put_down c d') [] again tt
            (negotiate-Allowed d' (is_restart d.negotiation) []))
        (λ _. tt)

  pub got_answer-Allowed : (id : Text) → Allowed e c (got_answer e c id).effects
  unfolding got_answer
  got_answer-Allowed id = found (find id c.down)
    where
      found : (d : Option DownConnection) → Allowed e c (answer_found e c id d).effects
      found none = close_down_conn-Allowed e c c [] id [] tt
      found (some d) = answer_taken-Allowed d e.sdp_failure

  pub renegotiate_found-Allowed :
      (d : Option DownConnection) → Allowed e c (renegotiate_found e c d).effects
  renegotiate_found-Allowed none = tt
  renegotiate_found-Allowed (some d) = negotiated-Allowed c [] _ tt (negotiate-Allowed d true [])
