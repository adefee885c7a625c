-- ===== src/WebClient/Connections/Tracks.antt =====
-- rtpconn/webclient.go: which tracks are forwarded after `replaceTracks`.
use galene.Base.{
  double_negation, ◌≤◌, ◌≡◌, refl, sym, ap, ◌∙◌, inl, inr, Bool, true, false, not, ◌&&◌, ◌||◌, List,
  [], ◌∷◌, ◌++◌, ◌==◌, ==_iff, length, arith, Bool-cases,
}
use galene.WebClient.{UpTrack, DownConnection, Environment}
use galene.WebClient.Connections.{
  is_forwarded, is_sent, to_add, to_keep, add_tracks, limit_tracks, is_empty, replace_tracks,
}

is_sent-same :
    (t u : UpTrack) (rs : List UpTrack) → t.address ≡ u.address → is_sent t rs ≡ is_sent u rs
is_sent-same t u [] h = refl
is_sent-same t u (r ∷ rs) h = ground (arith, is_sent-same t u rs h)

is_forwarded-same :
    (t u : UpTrack) (ts : List (UpTrack × Bool))
    → t.address ≡ u.address
    → is_forwarded t ts ≡ is_forwarded u ts
is_forwarded-same t u [] h = refl
is_forwarded-same t u ((v, b) ∷ ts) h = ground (arith, is_forwarded-same t u ts h)

is_forwarded-to_keep :
    (t : UpTrack) (rs : List UpTrack) (ts : List (UpTrack × Bool))
    → is_forwarded t (to_keep rs ts) ≡ (is_forwarded t ts && is_sent t rs)
is_forwarded-to_keep t rs [] = refl
is_forwarded-to_keep t rs ((u, b) ∷ ts) =
    ground (arith, is_forwarded-to_keep t rs ts, is_sent-same t u rs)

is_sent-to_add :
    (t : UpTrack) (ts : List (UpTrack × Bool)) (rs : List UpTrack)
    → is_sent t (to_add ts rs) ≡ (is_sent t rs && not (is_forwarded t ts))
is_sent-to_add t ts [] = refl
is_sent-to_add t ts (r ∷ rs) = ground (arith, is_sent-to_add t ts rs, is_forwarded-same t r ts)

is_forwarded-append :
    (t : UpTrack) (ts us : List (UpTrack × Bool))
    → is_forwarded t (ts ++ us) ≡ (is_forwarded t ts || is_forwarded t us)
is_forwarded-append t [] us = refl
is_forwarded-append t ((u, b) ∷ ts) us = ground (arith, is_forwarded-append t ts us)

is_forwarded-add_tracks :
    (f : UpTrack → Bool) (t : UpTrack) (ts : List (UpTrack × Bool)) (rs : List UpTrack)
    → (add_tracks f ts rs).1 ≡ true
    → is_forwarded t (add_tracks f ts rs).0 ≡ (is_forwarded t ts || is_sent t rs)
is_forwarded-add_tracks f t ts [] h = ground arith
is_forwarded-add_tracks f t ts (r ∷ rs) h = ground (
  arith,
  is_forwarded-add_tracks f t (ts ++ (r, false) ∷ []) rs,
  is_forwarded-append t ts ((r, false) ∷ []),
)

is_forwarded-limit_tracks :
    (b : Bool) (t : UpTrack) (ts : List (UpTrack × Bool))
    → is_forwarded t (limit_tracks b ts) ≡ is_forwarded t ts
is_forwarded-limit_tracks b t [] = refl
is_forwarded-limit_tracks b t ((u, l) ∷ ts) = ground (arith, is_forwarded-limit_tracks b t ts)

length-to_keep :
    (rs : List UpTrack) (ts : List (UpTrack × Bool)) → length (to_keep rs ts) ≤ length ts
length-to_keep rs [] = omega arith
length-to_keep rs ((u, b) ∷ ts) = ground (arith, length-to_keep rs ts)

-- If no track goes, those that stay are all.
keeps_all :
    (t : UpTrack) (rs : List UpTrack) (ts : List (UpTrack × Bool))
    → length (to_keep rs ts) ≡ length ts
    → is_forwarded t ts ≡ is_forwarded t (to_keep rs ts)
keeps_all t rs [] h = refl
keeps_all t rs ((u, b) ∷ ts) h = ground (arith, keeps_all t rs ts, length-to_keep rs ts)

-- If no track is added, those that are sent are forwarded already.
adds_none : (t : UpTrack) (rs : List UpTrack) → is_empty rs ≡ true → is_sent t rs ≡ false
adds_none t [] h = refl
adds_none t (r ∷ rs) h = cc

-- Adding to those that stay makes up those that are sent.
all_sent : (f s : Bool) → ((f && s) || (s && not f)) ≡ s
all_sent true true = refl
all_sent true false = refl
all_sent false true = refl
all_sent false false = refl

none_added : (f s : Bool) → f ≡ (f && s) → (s && not f) ≡ false → f ≡ s
none_added true s h k = h
none_added false true h k = cc
none_added false false h k = refl

limited_twice :
    (b : Bool) (ts : List (UpTrack × Bool)) → limit_tracks b (limit_tracks b ts) ≡ limit_tracks b ts
limited_twice b [] = refl
limited_twice b ((t, l) ∷ ts) = ap (◌∷◌ (t, b)) (limited_twice b ts)

both_true : (a b : Bool) → (a && b) ≡ true → (a ≡ true) × (b ≡ true)
both_true true b h = (refl, h)
both_true false b h = cc

joined : {a a' b b' c : Bool} → a ≡ a' → b ≡ b' → (a' || b') ≡ c → (a || b) ≡ c
joined h k l = rw (h, k) l

-- If `replaceTracks` makes no error, exactly the tracks that were asked for are forwarded, and all of
-- them with the given limit.
pub replace_tracks-forwarded :
    (e : Environment) (d : DownConnection) (remote : List UpTrack) (limit : Bool) (t : UpTrack)
    → (replace_tracks e d remote limit).2 ≡ false
    → let d' = (replace_tracks e d remote limit).0 in
      (is_forwarded t d'.tracks ≡ is_sent t remote) × (limit_tracks limit d'.tracks ≡ d'.tracks)
unfolding replace_tracks
replace_tracks-forwarded e d remote limit t h =
    let kept = to_keep remote d.tracks in
    let add = to_add d.tracks remote in
    let same_kept = is_forwarded-to_keep t remote d.tracks in
    let same_add = is_sent-to_add t d.tracks remote in
    let f = is_forwarded t d.tracks in
    let s = is_sent t remote in
    elim (Bool-cases (length kept == length d.tracks && is_empty add)) [
      | inl q ↦
          let (q1, q2) = both_true (length kept == length d.tracks) (is_empty add) q in
          let unchanged : f ≡ (f && s) =
            keeps_all t remote d.tracks ((==_iff _ _).0 q1) ∙ same_kept in
          let nothing : (s && not f) ≡ false = sym same_add ∙ adds_none t add q2 in
          rw q (
            is_forwarded-limit_tracks limit t d.tracks ∙ none_added f s unchanged nothing,
            limited_twice limit d.tracks,
          )
      | inr q ↦
          let h' : not (add_tracks e.add_track kept add).1 ≡ false = rw q at h in
          rw q (
            is_forwarded-limit_tracks limit t (add_tracks e.add_track kept add).0
                ∙ is_forwarded-add_tracks e.add_track t kept add (double_negation _ h')
                ∙ joined same_kept same_add (all_sent f s),
            limited_twice limit (add_tracks e.add_track kept add).0,
          )
    ]
