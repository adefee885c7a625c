-- ===== src/Tokens/Table/Changes.antt =====
-- token/stateful.go: what `Update` does to the table and to its file, whatever the library calls
-- return.
use galene.Description.{is_some}
use galene.Base.{
  Unless, ℕ, ◌≡◌, refl, sym, ap, ◌∙◌, ◌⊎◌, inl, inr, Bool, true, false, not, Option, none, some,
  List, [], arith, if◌then◌else◌, Text, same, same_iff, same_refl, Bool-cases,
}
use galene.Base.Dict.{Dict, find, insert, find-insert}
use galene.Base.Results.{Result, ok, err}
use galene.Tokens.{Stateful}
use galene.Tokens.Table.{
  TableError, other, not_exist, File, State, Table, Reading, Writing, reset, less, select, or_empty,
  contents_of, append_line, settle_stamp, etag, load_decoded, load_opened, load_found, is_current,
  load, list, renamed, rewrite_created, tag_mismatch, finish_change, add, add_opened, add_encoded,
  rewrite, update, update_entry, update_loaded,
}
use mathlib.Core.Path.{subst}

-- The map has these entries; a nil map reads as an empty one.
abbrev pub Holds : Option (Dict Stateful) → (Text → Option Stateful) → Type 0
Holds o g = (k : Text) → find k (or_empty o) ≡ g k

-- The entries of a map with this token in it.
abbrev pub with_token : Dict Stateful → Stateful → Text → Option Stateful
with_token m new k = if same new.token k then some new else find k m

put_token :
    (m : Dict Stateful) (new : Stateful) → Holds (some (insert new.token new m)) (with_token m new)
put_token m new k = find-insert new.token k new m

put_back :
    (k : Text) (old new : Stateful) (m : Dict Stateful)
    → find k m ≡ some old
    → Holds (some (insert k old (insert k new m))) (λ j. find j m)
put_back k old new m e j =
    let inner = insert k new m in
    elim (Bool-cases (same k j)) [
      | inl h ↦
          let a : find j (insert k old inner) ≡ some old =
            subst (λ b. find j (insert k old inner) ≡ (if b then some old else find j inner)) h
              (find-insert k j old inner) in
          a ∙ sym e ∙ ap (λ i. find i m) ((same_iff k j).0 h)
      | inr h ↦
          let a : find j (insert k old inner) ≡ find j inner =
            subst (λ b. find j (insert k old inner) ≡ (if b then some old else find j inner)) h
              (find-insert k j old inner) in
          a
          ∙ subst (λ b. find j inner ≡ (if b then some new else find j m)) h (find-insert k j new m)
    ]

branch_true {ℓ} : {A : Type ℓ} (b : Bool) (x y : A) → b ≡ true → (if not b then x else y) ≡ y
branch_true true x y h = refl
branch_true false x y h = cc

abbrev pub Fresh : Option File → State → Type 0
Fresh none s = ⊥
Fresh (some f) s = (s.named ≡ true) × (is_current f s ≡ true)

Fresh-tokens :
    (d : Option File) (s : State) (o : Option (Dict Stateful))
    → Fresh d s
    → Fresh d (record s { tokens = o })
Fresh-tokens none s o h = h
Fresh-tokens (some f) s o h = h

module _ (make_etag : ℕ × ℕ → Text)
    (sort : (Stateful → Stateful → Bool) → List Stateful → List Stateful) where
  load_decoded-Fresh :
      (e : Option TableError) (f : File) (c : Option (List Stateful)) (s : State)
      → s.named ≡ true
      → let s' = (load_decoded make_etag sort e f.stamp c s).0 in
        (s'.tokens ≡ none) ⊎ Fresh (some f) s'
  load_decoded-Fresh e f none s h = inl refl
  load_decoded-Fresh (some e) f (some ts) s h = inl refl
  load_decoded-Fresh none f (some ts) s h = inr (h, ground arith)

  load_opened-Fresh :
      (e : Option TableError) (r : Reading) (f : File) (s : State)
      → s.named ≡ true
      → let s' = (load_opened make_etag sort e r f s).0 in (s'.tokens ≡ none) ⊎ Fresh (some f) s'
  load_opened-Fresh (some e) r f s h = inl refl
  load_opened-Fresh none r f s h = load_decoded-Fresh r.restat f f.contents s h

  load_found-Fresh :
      (e : Option ℕ) (r : Reading) (d : Option File) (s : State)
      → s.named ≡ true
      → let s' = (load_found make_etag sort e r d s).0 in (s'.tokens ≡ none) ⊎ Fresh d s'
  load_found-Fresh (some e) r d s h = inl refl
  load_found-Fresh none r none s h = inl refl
  load_found-Fresh none r (some f) s h = elim (Bool-cases (is_current f s)) [
    | inl q ↦ rw q (inr (h, q))
    | inr q ↦ rw q (load_opened-Fresh r.opening r f s h)
  ]

  -- After `load`, the map is nil or the state has the file's stamp.
  load-Fresh :
      (r : Reading) (d : Option File) (s : State)
      → s.named ≡ true
      → let s' = (load make_etag sort r d s).0 in (s'.tokens ≡ none) ⊎ Fresh d s'
  unfolding load
  load-Fresh r d s h =
      rw (branch_true {A = State × Result TableError Text} s.named (reset s, ok []) _ h)
        (load_found-Fresh r.stat r d s h)

  -- A second `load` changes nothing, or `Stat` fails and it resets the state.
  reload_found :
      (e : Option ℕ) (r : Reading) (d : Option File) (s : State)
      → Fresh d s
      → (load_found make_etag sort e r d s ≡ (s, ok (etag make_etag sort s)))
        ⊎ ((e' : TableError) × (is_some e ≡ true)
            × (load_found make_etag sort e r d s ≡ (reset s, err e')))
  reload_found (some e) r d s h = inr (other e, refl, refl)
  reload_found none r none s h = absurd h
  reload_found none r (some f) s (h, q) = inl (rw q refl)

  reload :
      (r : Reading) (d : Option File) (s : State)
      → Fresh d s
      → (load make_etag sort r d s ≡ (s, ok (etag make_etag sort s)))
        ⊎ ((e : TableError) × (is_some r.stat ≡ true)
            × (load make_etag sort r d s ≡ (reset s, err e)))
  unfolding load
  reload r none s h = absurd h
  reload r (some f) s (h, q) =
      rw (branch_true {A = State × Result TableError Text} s.named (reset s, ok []) _ h)
        (reload_found r.stat r (some f) s (h, q))

  -- The end of a change: the map stays, or the last `Stat` has failed and the state is reset.
  abbrev pub Settled : Writing → Option (Dict Stateful) → State → Type 0
  Settled w tokens s =
      (s.tokens ≡ tokens)
      ⊎ ((is_some w.stat ≡ true) × (s.tokens ≡ none) × (s.mod_time ≡ 0) × (s.file_size ≡ 0))

  settle_stamp-Settled :
      (e : Option ℕ) (w : Writing) (stamp : ℕ × ℕ) (s : State)
      → w.stat ≡ e
      → Settled w s.tokens (settle_stamp e stamp s)
  settle_stamp-Settled none w stamp s h = inl refl
  settle_stamp-Settled (some e) w stamp s h = inr (ap is_some h, refl, refl, refl)

  -- `rewrite` replaces the file by the table's tokens, or leaves it as it is.
  abbrev Rewritten : Reading → Writing → Table → Table × Option TableError → Type 0
  Rewritten r w t (t', some e) =
      (t'.disk ≡ t.disk)
      × ((t'.state.tokens ≡ t.state.tokens) ⊎ ((is_some r.stat ≡ true) × (t'.state.tokens ≡ none)))
  Rewritten r w t (t', none) =
      (contents_of t'.disk ≡ some (sort less (select [] true (or_empty t.state.tokens))))
      × Settled w t.state.tokens t'.state

  renamed-Rewritten :
      (e c n : Option ℕ) (r : Reading) (w : Writing) (t : Table)
      → Rewritten r w t
          (renamed make_etag sort e c n w t (sort less (select [] true (or_empty t.state.tokens))))
  renamed-Rewritten (some e) c n r w t = (refl, inl refl)
  renamed-Rewritten none (some c) n r w t = (refl, inl refl)
  renamed-Rewritten none none (some n) r w t = (refl, inl refl)
  renamed-Rewritten none none none r w t =
      (refl, settle_stamp-Settled w.stat w w.stamp t.state refl)

  rewrite_created-Rewritten :
      (e : Option ℕ) (r : Reading) (w : Writing) (t : Table)
      → Fresh t.disk t.state
      → Rewritten r w t (rewrite_created make_etag sort e r w t)
  unfolding list
  rewrite_created-Rewritten (some e) r w t h = (refl, inl refl)
  rewrite_created-Rewritten none r w t h = elim (reload r t.disk t.state h) [
    | inl q ↦ rw q (renamed-Rewritten w.encode w.close w.rename r w t)
    | inr (e, z, q) ↦ rw q (refl, inr (z, refl))
  ]

  -- What `Update` has done, from the file `d` and the map `m` after `load`. On an error the map has the
  -- old entries, and the file reads as before, or the encoding of a new token has failed in it. Else
  -- the map has the new token too, or the state is reset, and the file has a new line or holds the
  -- tokens of such a map.
  abbrev pub Changed :
      Writing → Option File → Dict Stateful → Stateful → Table × Result TableError Stateful → Type 0
  Changed w d m new (t, err e) =
      Holds t.state.tokens (λ k. find k m)
      × ((contents_of t.disk ≡ contents_of d)
          ⊎ ((find new.token m ≡ none)
              × (is_some w.encode ≡ true)
              × (contents_of t.disk ≡ w.partly)))
  Changed w d m new (t, ok x) =
      (x ≡ new)
      × ((m' : Dict Stateful) × Settled w (some m') t.state
          × Holds (some m') (with_token m new)
          × (((find new.token m ≡ none) × (contents_of t.disk ≡ append_line (contents_of d) new))
              ⊎ (contents_of t.disk ≡ some (sort less (select [] true m')))))

  add_encoded-Changed :
      (e : Option ℕ) (w : Writing) (d : Option File) (s : State) (m : Dict Stateful)
      (new : Stateful)
      → find new.token m ≡ none
      → w.encode ≡ e
      → Changed w d m new
          (add_encoded e w (record { state = record s { tokens = some m }; disk = d }) new)
  add_encoded-Changed (some e) w d s m new f h = (λ k. refl, inr (f, ap is_some h, refl))
  add_encoded-Changed none w d s m new f h =
      let after = record s { tokens = some (insert new.token new m) } in
      (
        refl,
        (
          insert new.token new m,
          settle_stamp-Settled w.stat w w.stamp after refl,
          put_token m new,
          inl (f, refl),
        ),
      )

  add_opened-Changed :
      (e o : Option ℕ) (w : Writing) (d : Option File) (s : State) (m : Dict Stateful)
      (new : Stateful)
      → find new.token m ≡ none
      → Changed w d m new
          (add_opened e o w (record { state = record s { tokens = some m }; disk = d }) new)
  add_opened-Changed (some e) o w d s m new f = (λ k. refl, inl refl)
  add_opened-Changed none (some o) w d s m new f = (λ k. refl, inl refl)
  add_opened-Changed none none w d s m new f = add_encoded-Changed w.encode w d s m new f refl

  finish_change-Changed :
      (r : Reading) (w : Writing) (t : Table) (x : Table × Option TableError) (m : Dict Stateful)
      (new old : Stateful)
      → t.state.tokens ≡ some (insert new.token new m)
      → find new.token m ≡ some old
      → Rewritten r w t x
      → Unless (is_some r.stat) (Changed w t.disk m new) (finish_change x new new.token old)
  finish_change-Changed r w t (t', none) m new old e f (h, q) = (
    refl,
    (
      insert new.token new m,
      subst (λ o. Settled w o t'.state) e q,
      put_token m new,
      inr (h ∙ ap (λ o. some (sort less (select [] true (or_empty o)))) e),
    ),
  )
  finish_change-Changed r w t (t', some x) m new old e f (h, inr (z, q)) = rw q z
  finish_change-Changed r w t (t', some x) m new old e f (h, inl q) =
      rw (q ∙ e) (put_back new.token old new m f, inl (ap contents_of h))

  Unless-branch :
      {A : Type 0} (b : Bool) (P : A → Type 0) (c : Bool) (x y : Option A)
      → (c ≡ true → Unless b P x)
      → (c ≡ false → Unless b P y)
      → Unless b P (if c then x else y)
  Unless-branch b P true x y h k = h refl
  Unless-branch b P false x y h k = k refl

  update_entry-Changed :
      (entry : Option Stateful) (second : Reading) (w : Writing) (d : Option File) (s : State)
      (m : Dict Stateful) (new : Stateful) (tag : Text)
      → find new.token m ≡ entry
      → ((m ≡ []) ⊎ Fresh d s)
      → Unless (is_some second.stat) (Changed w d m new) (
          update_entry make_etag sort entry second w
            (record { state = record s { tokens = some m }; disk = d })
            new
            tag)
  unfolding add rewrite
  update_entry-Changed none second w d s m new tag f g =
      Unless-branch (is_some second.stat) (Changed w d m new) (not (same tag [])) _ _
        (λ _. (λ k. refl, inl refl)) (λ _. add_opened-Changed w.mkdir w.opening w d s m new f)
  update_entry-Changed (some old) second w d s m new tag f (inl e) =
      let a : none ≡ some old = subst (λ n. find new.token n ≡ some old) e f in cc
  update_entry-Changed (some old) second w d s m new tag f (inr g) =
      let t : Table = record {
        state = record s { tokens = some (insert new.token new m) };
        disk = d;
      } in
      Unless-branch (is_some second.stat) (Changed w d m new)
        (not (same tag (etag make_etag sort (record s { tokens = some m })))) _ _
        (λ _. (λ k. refl, inl refl))
        (λ _.
          finish_change-Changed second w t (rewrite make_etag sort second w t) m new old refl f
            (rewrite_created-Rewritten w.create second w t (Fresh-tokens d s _ g)))

  update_loaded-Changed :
      (r : State × Result TableError Text) (second : Reading) (w : Writing) (t : Table)
      (new : Stateful) (tag : Text)
      → ((r.0.tokens ≡ none) ⊎ Fresh t.disk r.0)
      → Unless
          (is_some second.stat)
          (Changed w t.disk (or_empty r.0.tokens) new)
          (update_loaded make_etag sort r second w t new tag)
  update_loaded-Changed (s, err e) second w t new tag g = (λ k. refl, inl refl)
  update_loaded-Changed (s, ok x) second w t new tag g =
      update_entry-Changed _ second w t.disk s (or_empty s.tokens) new tag refl
        (elim g [ inl e ↦ inl (ap or_empty e) | inr f ↦ inr f ])

  -- `Update`, where there is a file name, returns if the `os.Stat` of its second `load` does not fail,
  -- whatever the other library calls do. If it returns an error, the map has the entries that the
  -- first `load` found, and the file reads as before, unless the token is new and its encoding has
  -- failed, which leaves what has been written by then. If it succeeds, the file has a new token on
  -- a new line, or holds the tokens of the map with the token in it; and the map has these tokens,
  -- unless the last `Stat` has failed, where the state is reset.
  pub update-Changed :
      (first second : Reading) (w : Writing) (t : Table) (new : Stateful) (tag : Text)
      → t.state.named ≡ true
      → Unless
          (is_some second.stat)
          (Changed w t.disk (or_empty (load make_etag sort first t.disk t.state).0.tokens) new)
          (update make_etag sort first second w t new tag)
  unfolding update
  update-Changed first second w t new tag n =
      let loaded = load make_etag sort first t.disk t.state in
      rw
        (branch_true {A = Option (Table × Result TableError Stateful)} t.state.named
          (some (t, err (if not (same tag []) then tag_mismatch else not_exist))) _ n)
        (update_loaded-Changed loaded second w t new tag (load-Fresh first t.disk t.state n))

  load_current :
      (r : Reading) (d : Option File) (s : State)
      → r.stat ≡ none
      → Fresh d s
      → load make_etag sort r d s ≡ (s, ok (etag make_etag sort s))
  unfolding load
  load_current r none s e h = absurd h
  load_current r (some f) s e (h, q) =
      rw (branch_true {A = State × Result TableError Text} s.named (reset s, ok []) _ h, e, q) refl

  load_failed :
      (r : Reading) (d : Option File) (s : State) (e : ℕ)
      → r.stat ≡ some e
      → s.named ≡ true
      → load make_etag sort r d s ≡ (reset s, err (other e))
  unfolding load
  load_failed r d s e q h =
      rw (branch_true {A = State × Result TableError Text} s.named (reset s, ok []) _ h, q) refl

  -- `Update` of a token that is in a table that is in step with its file, with the right ETag, panics
  -- if `os.Stat` succeeds when the call begins and fails after the temporary file has been made.
  pub update_panics :
      (first second : Reading) (w : Writing) (d : Option File) (s : State) (m : Dict Stateful)
      (new old : Stateful) (e : ℕ)
      → Fresh d s
      → s.named ≡ true
      → find new.token m ≡ some old
      → first.stat ≡ none
      → second.stat ≡ some e
      → w.create ≡ none
      → update make_etag sort first second w
          (record { state = record s { tokens = some m }; disk = d })
          new
          (etag make_etag sort s)
        ≡ none
  unfolding update rewrite list
  update_panics first second w d s m new old e g n f a b c =
      let one =
        load_current first d (record s { tokens = some m }) a (Fresh-tokens d s (some m) g) in
      let two = load_failed second d (record s { tokens = some (insert new.token new m) }) e b n in
      rw
        (
          branch_true {A = Option (Table × Result TableError Stateful)} s.named
              (some (
                record { state = record s { tokens = some m }; disk = d },
                err (if not (same (etag make_etag sort s) []) then tag_mismatch else not_exist),
              ))
              _ n,
          one,
          f,
          same_refl (etag make_etag sort s),
          c,
          two,
        )
        refl
