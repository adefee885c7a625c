-- ===== src/WebClient/Signalling.antt =====
-- rtpconn/webclient.go: offers and answers, and the tracks that a sender pushes to a client.
pub mod Offers
use galene.Base.{
  ℕ, Bool, true, false, not, ◌&&◌, ◌||◌, Option, none, some, List, [], ◌∷◌, ◌++◌, if◌then◌else◌,
  Text, same, bytes,
}
use galene.Base.Dict.{Dict, find, insert, remove}
use galene.WebClient.{
  UpTrack, UpConnection, DownConnection, Negotiation, unneeded, needed, restart_ice, WebClient,
  ClientMessage, blank, Failure, user_error, client_dead, library_error, Effect, reply,
  open_connection, close_connection, Outcome, fits, fails, write_last, report, Environment, written,
}
use galene.WebClient.Connections.{
  Done, is_blank, add_up_conn, del_up_conn, del_down_conn, close_down_conn, fail_up_connection,
  requested_tracks, replace_tracks, negotiate, put_down, is_empty,
}

-- `gotOffer`. The new connection's `replace` is set before the replaced one is deleted.
abbrev pub set_replace : Text → Text → Option UpConnection → WebClient → WebClient
set_replace id replace none c = c
set_replace id replace (some u) c = record c {
  up = insert id (record u { replace = replace }) c.up;
}

abbrev pub replace_up : WebClient → Text → Text → WebClient × List Effect
replace_up c id replace =
    if is_blank replace
    then (c, [])
    else let (c', es, error) =
        del_up_conn (set_replace id replace (find id c.up) c) replace c.id false in
      (c', es)

abbrev pub answer_offer : Environment → WebClient → List Effect → Text → Option Text → Outcome
answer_offer e c before id (some t) = fails c before (library_error t)
answer_offer e c before id none =
    write_last e c before (record blank { type = bytes "answer"; id = id })

abbrev pub offer_added : Environment → Done → Text → Text → Outcome
offer_added e (c, before, some f) id replace = fails c before f
offer_added e (c, before, none) id replace =
    let (c', closing) = replace_up c id replace in
    answer_offer e c' (before ++ closing) id e.sdp_failure

unfoldable pub got_offer : Environment → WebClient → Text → Text → Text → Outcome
got_offer e c id label replace = offer_added e (add_up_conn e c id label) id replace

-- The error of `gotOffer` goes to the client.
abbrev pub failure_text : Failure → Text
failure_text (user_error t) = t
failure_text (Failure.kick_error by username t) = t
failure_text (Failure.protocol_error t) = t
failure_text client_dead = bytes "client is dead"
failure_text (library_error t) = t

abbrev pub offer_failed : Environment → Text → Option Failure → Outcome → Outcome
offer_failed e id none o = o
offer_failed e id (some f) o = fail_up_connection e o.client o.effects id (failure_text f)

-- `gotAnswer` for a connection that is there, and what `handleClientMessage` does after it: a negotiation
-- that was put off is made up for.
abbrev pub is_needed : Negotiation → Bool
is_needed unneeded = false
is_needed needed = true
is_needed restart_ice = true

abbrev pub is_restart : Negotiation → Bool
is_restart unneeded = false
is_restart needed = false
is_restart restart_ice = true

abbrev pub negotiated :
    Environment → WebClient → List Effect → DownConnection × List Effect × Option Failure → Outcome
negotiated e c before (d, es, none) = fits (put_down c d) (before ++ es)
negotiated e c before (d, es, some f) =
    close_down_conn e (put_down c d) (before ++ es) d.id (failure_text f)

abbrev pub answer_taken : Environment → WebClient → DownConnection → Option Text → Outcome
answer_taken e c d (some t) = close_down_conn e c [] d.id t
answer_taken e c d none =
    let d' = record d { offered = false } in
    if is_needed d.negotiation
    then negotiated e (put_down c d') [] (negotiate e d' (is_restart d.negotiation) [])
    else fits (put_down c d') []

abbrev pub answer_found : Environment → WebClient → Text → Option DownConnection → Outcome
answer_found e c id none = close_down_conn e c [] id []
answer_found e c id (some d) = answer_taken e c d e.sdp_failure

-- The message "answer".
unfoldable pub got_answer : Environment → WebClient → Text → Outcome
got_answer e c id = answer_found e c id (find id c.down)

-- The message "renegotiate".
abbrev pub renegotiate_found : Environment → WebClient → Option DownConnection → Outcome
renegotiate_found e c none = fits c []
renegotiate_found e c (some d) = negotiated e c [] (negotiate e d true [])

-- What a client asks of a sender: for the connection, for its label, or for all.
abbrev pub asked_by_label : Option (List Text) → Option (List Text) → List Text
asked_by_label none none = []
asked_by_label none (some ts) = ts
asked_by_label (some ts) r = ts

abbrev pub asked : WebClient → UpConnection → Option (List Text) → List Text
asked c u none = asked_by_label (find u.label c.requested) (find [] c.requested)
asked c u (some ts) = ts

abbrev pub asked_of : Option DownConnection → Option (List Text)
asked_of none = none
asked_of (some d) = d.requested

-- `pushDownConn`: what is forwarded of the sender's tracks.
pub wanted_tracks : WebClient → UpConnection → List UpTrack → Text → List UpTrack × Bool
wanted_tracks c u tracks replace =
    let old = find (if is_blank replace then u.id else replace) c.down in
    requested_tracks (asked c u (asked_of old)) tracks

-- The deferred call, after which the function returns what it was about to.
abbrev pub close_replaced : Environment → Text → Outcome → Outcome
close_replaced e replace o =
    if is_blank replace
    then o
    else let closed = close_down_conn e o.client o.effects replace [] in
      record closed { failure = o.failure }

-- `pushDownConn`, from `negotiate`, from `replaceTracks`, from `addDownConn`, and from its start.
abbrev pub push_negotiated :
    Environment
    → WebClient
    → List Effect
    → Text
    → DownConnection × List Effect × Option Failure
    → Outcome
push_negotiated e c before replace (d, es, none) = fits (put_down c d) (before ++ es)
push_negotiated e c before replace (d, es, some f) =
    let closed = close_down_conn e (put_down c d) (before ++ es) d.id (failure_text f) in
    close_replaced e replace (record closed { failure = some f })

abbrev pub push_replaced :
    Environment
    → WebClient
    → List Effect
    → UpConnection
    → Text
    → DownConnection × Bool × Bool
    → Outcome
push_replaced e c before u replace (d, changed, error) =
    if error
    then close_replaced e replace (fails (put_down c d) before (library_error (bytes "track")))
    else if not changed
    then close_replaced e replace (fits (put_down c d) before)
    else push_negotiated e (put_down c d) before replace (negotiate e d false replace)

abbrev pub push_new :
    Environment
    → WebClient
    → List Effect
    → UpConnection
    → List UpTrack × Bool
    → Text
    → Option Text
    → Outcome
push_new e c before u ts replace (some t) =
    close_replaced e replace (fails c before (library_error t))
push_new e c before u (ts, limit) replace none =
    let d : DownConnection = record {
      id = u.id;
      remote = u;
      requested = none;
      tracks = [];
      negotiation = unneeded;
      offered = false;
    } in
    if e.sender_closed
    then close_replaced e replace
        (fits c (before ++ open_connection u.id ∷ close_connection u.id ∷ []))
    else push_replaced e (put_down c d) (before ++ open_connection u.id ∷ []) u replace
        (replace_tracks e d ts limit)

abbrev pub push_found :
    Environment
    → WebClient
    → List Effect
    → UpConnection
    → List UpTrack × Bool
    → Text
    → Option UpConnection
    → Option DownConnection
    → Outcome
push_found e c before u ts replace (some own) d =
    close_replaced e replace (fails c before (library_error (bytes "adding duplicate connection")))
push_found e c before u (ts, limit) replace none (some d) =
    push_replaced e c before u replace (replace_tracks e d ts limit)
push_found e c before u ts replace none none = push_new e c before u ts replace e.new_connection

abbrev pub without_replaced : WebClient → Text → WebClient × List Effect
without_replaced c replace = if is_blank replace then (c, []) else del_down_conn c replace

unfoldable pub push_down_conn :
    Environment → WebClient → Text → Option UpConnection → List UpTrack → Text → Outcome
push_down_conn e c id none tracks replace =
    let (c', before) = without_replaced c replace in
    close_replaced e replace
      (let closed = close_down_conn e c' before id [] in record closed { failure = none })
push_down_conn e c id (some u) tracks replace =
    let ts = wanted_tracks c u tracks replace in
    let (c', before) = without_replaced c replace in
    if is_empty ts.0
    then close_replaced e replace
        (let closed = close_down_conn e c' before id [] in record closed { failure = none })
    else push_found e c' before u ts replace (find u.id c'.up) (find u.id c'.down)
