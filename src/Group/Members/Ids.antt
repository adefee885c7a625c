-- ===== src/Group/Members/Ids.antt =====
-- The ids of the clients of a group, under any sequence of calls of group/group.go.
use galene.Base.{
  same_sym, inr, inl, ℕ, ◌≡◌, refl, sym, ◌∙◌, true, false, Option, none, some, List, [], ◌∷◌, ◌++◌,
  arith, if◌then◌else◌, Text, same, contains, Bool-cases,
}
use mathlib.Core.Path.{subst}
use galene.Group.{Group, Client}
use galene.Group.Members.{
  has_op, is_client, init_client, refuse_user, add_client, auto_lock_kick, del_client, del_locked,
  join_group, set_locked, settle, admit, refuse_id, lookup, remove, op, system, Event, otherwise,
  Refusal,
}
use galene.Group.Members.Admission.{IsFreeId, refuse_id-none, otherwise-none}

module _ {V : Type 0} where
  -- No id is empty, and no two clients have the same one.
  abbrev pub AreDistinct : List (Client V) → Type 0
  AreDistinct [] = Unit
  AreDistinct (c ∷ cs) = (same c.id [] ≡ false) × (lookup cs c.id ≡ none) × AreDistinct cs

  lookup-append_none :
      (cs : List (Client V)) (d : Client V) (id : Text)
      → lookup cs id ≡ none
      → same d.id id ≡ false
      → lookup (cs ++ d ∷ []) id ≡ none
  lookup-append_none [] d id h k = rw k refl
  lookup-append_none (c ∷ cs) d id h k = elim (Bool-cases (same c.id id)) [
    | inl e ↦ absurd (ground arith)
    | inr e ↦ let rest = lookup-append_none cs d id in rw e (rest (ground arith) k)
  ]

  lookup-remove-none :
      (cs : List (Client V)) (gone id : Text)
      → lookup cs id ≡ none
      → lookup (remove cs gone) id ≡ none
  lookup-remove-none [] gone id h = refl
  lookup-remove-none (c ∷ cs) gone id h = elim (Bool-cases (same c.id id)) [
    | inl e ↦ absurd (ground arith)
    | inr e ↦
        let rest = lookup-remove-none cs gone id (ground arith) in
        elim (Bool-cases (same c.id gone)) [ inl f ↦ rw f rest | inr f ↦ rw (f, e) rest ]
  ]

  AreDistinct-append :
      (cs : List (Client V)) (d : Client V)
      → AreDistinct cs
      → same d.id [] ≡ false
      → lookup cs d.id ≡ none
      → AreDistinct (cs ++ d ∷ [])
  AreDistinct-append [] d u e f = (e, refl, tt)
  AreDistinct-append (c ∷ cs) d (a, b, u) e f = elim (Bool-cases (same c.id d.id)) [
    | inl g ↦ absurd (ground arith)
    | inr g ↦
        let other : same d.id c.id ≡ false = same_sym d.id c.id ∙ g in
        (a, lookup-append_none cs d c.id b other, AreDistinct-append cs d u e (ground arith))
  ]

  AreDistinct-remove :
      (cs : List (Client V)) (id : Text) → AreDistinct cs → AreDistinct (remove cs id)
  AreDistinct-remove [] id u = u
  AreDistinct-remove (c ∷ cs) id (a, b, u) =
      let rest = AreDistinct-remove cs id u in
      elim (Bool-cases (same c.id id)) [
        | inl f ↦ rw f rest
        | inr f ↦ rw f (a, lookup-remove-none cs id c.id b, rest)
      ]

  clients-auto_lock_kick : (g : Group V) → (auto_lock_kick g).0.clients ≡ g.clients
  unfolding auto_lock_kick
  clients-auto_lock_kick g = ground arith

  settle-AreDistinct :
      (r : Option Refusal) (g : Group V) (c : Client V) (now : ℕ) (before : List (Event V))
      → AreDistinct g.clients
      → (r ≡ none → IsFreeId g c.id)
      → AreDistinct (settle r g c now before).group.clients
  settle-AreDistinct none g c now before u f =
      let (e, k) = f refl in AreDistinct-append g.clients c u e k
  settle-AreDistinct (some r) g c now before u f = u

  admit-AreDistinct :
      (g : Group V) (c : Client V) (credentials : Option (Text × List Text)) (now : ℕ)
      → AreDistinct g.clients
      → AreDistinct (admit g c credentials now).group.clients
  unfolding init_client
  admit-AreDistinct g c none now u = u
  admit-AreDistinct g c (some (username, permissions)) now u =
      let tests = if contains permissions op then none else refuse_user g now in
      settle-AreDistinct (otherwise tests (refuse_id g c.id)) g (init_client c username permissions)
        now _ u (λ h. (refuse_id-none g c.id).0 ((otherwise-none tests (refuse_id g c.id)).0 h).1)

  add_client-AreDistinct :
      (g : Group V) (c : Client V) (credentials : Option (Text × List Text)) (now : ℕ)
      → AreDistinct g.clients
      → AreDistinct (add_client g c credentials now).group.clients
  unfolding add_client
  add_client-AreDistinct g c credentials now u = elim (Bool-cases (contains c.permissions system)) [
    | inl s ↦ rw s (settle-AreDistinct (refuse_id g c.id) g c now [] u (refuse_id-none g c.id).0)
    | inr s ↦ rw s (admit-AreDistinct g c credentials now u)
  ]

  del_client-AreDistinct :
      (g : Group V) (c : Client V) (now : ℕ)
      → AreDistinct g.clients
      → AreDistinct (del_client g c now).0.clients
  unfolding del_client del_locked
  del_client-AreDistinct g c now u =
      let left = record g { clients = remove g.clients c.id; timestamp = now } in
      elim (Bool-cases (is_client (lookup g.clients c.id) c)) [
        | inl e ↦ rw e (
            subst AreDistinct (sym (clients-auto_lock_kick left))
              (AreDistinct-remove g.clients c.id u))
        | inr e ↦ rw e u
      ]

  join_group-AreDistinct :
      (g : Group V) (c : Client V) (credentials : Option (Text × List Text)) (now : ℕ)
      → AreDistinct g.clients
      → AreDistinct (join_group g c credentials now).group.clients
  unfolding join_group
  join_group-AreDistinct g c credentials now u =
      add_client-AreDistinct (auto_lock_kick g).0 c credentials now
        (subst AreDistinct (sym (clients-auto_lock_kick g)) u)

-- The calls of `AddClient`, `DelClient` and `SetLocked`, one after the other. A client that unlocks
-- the group is an operator in it.
pub data Run {V : Type 0} : Group V → Group V → Type 0 where
  start : (g : Group V) → Run g g
  joins :
      {g h : Group V} (c : Client V) (credentials : Option (Text × List Text)) (now : ℕ)
      → Run g h
      → Run g (join_group h c credentials now).group
  leaves : {g h : Group V} (c : Client V) (now : ℕ) → Run g h → Run g (del_client h c now).0
  locks : {g h : Group V} (m : Text) → Run g h → Run g (set_locked h (some m)).0
  unlocks : {g h : Group V} → has_op h.clients ≡ true → Run g h → Run g (set_locked h none).0

module _ {V : Type 0} where
  -- When no id of a group's clients is empty and no two are the same, then this is so after any
  -- sequence of clients joining and leaving and of the group being locked and unlocked.
  pub Run-AreDistinct : {g h : Group V} → Run g h → AreDistinct g.clients → AreDistinct h.clients
  unfolding set_locked
  Run-AreDistinct (start g) u = u
  Run-AreDistinct (joins {h} c credentials now r) u =
      join_group-AreDistinct h c credentials now (Run-AreDistinct r u)
  Run-AreDistinct (leaves {h} c now r) u = del_client-AreDistinct h c now (Run-AreDistinct r u)
  Run-AreDistinct (locks m r) u = Run-AreDistinct r u
  Run-AreDistinct (unlocks o r) u = Run-AreDistinct r u
