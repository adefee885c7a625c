-- ===== src/Group/Members/Autolock.antt =====
-- Groups with `autolock`: the lock closes when the last operator leaves (`autoLockKick`).
use galene.Base.{
  suc, ◌<◌, ◌⊎◌, ℕ, ◌≡◌, refl, ◌≢◌, inl, inr, Bool, true, false, not, ◌&&◌, Option, none, some,
  List, [], ◌∷◌, ◌++◌, arith, if◌then◌else◌, Text, contains, Bool-cases,
}
use galene.Group.{Group, Client}
use galene.Group.Members.{
  set_permissions, refuse_user, add_client, auto_lock_kick, del_locked, join_group, set_locked,
  settle, admit, refuse_id, init_client, op, system, Event, otherwise, Refusal, is_nil, has_op,
}
use galene.Group.Members.Admission.{add_client-admitted}

guarded_by :
    (a u h k : Bool) → (a && u && not h) ≡ false → (h ≡ true → k ≡ true) → (a && u && not k) ≡ false
guarded_by a u true k e f = let p = f refl in ground arith
guarded_by a u false k e f = ground arith

module _ {V : Type 0} where
  -- The group does not lock by itself, or it is locked, or it has an operator.
  abbrev pub IsGuarded : Group V → Type 0
  IsGuarded g = (g.description.autolock && is_nil g.locked && not (has_op g.clients)) ≡ false

  has_op-append :
      (cs : List (Client V)) (d : Client V) → has_op cs ≡ true → has_op (cs ++ d ∷ []) ≡ true
  has_op-append [] d h = absurd (ground arith)
  has_op-append (c ∷ cs) d h = elim (Bool-cases (contains c.permissions op)) [
    | inl e ↦ rw e refl
    | inr e ↦ let rest = has_op-append cs d in rw e (rest (ground arith))
  ]

  auto_lock_kick-IsGuarded : (g : Group V) → IsGuarded (auto_lock_kick g).0
  unfolding auto_lock_kick
  auto_lock_kick-IsGuarded g = ground arith

  settle-IsGuarded :
      (r : Option Refusal) (g : Group V) (c : Client V) (now : ℕ) (before : List (Event V))
      → IsGuarded g
      → IsGuarded (settle r g c now before).group
  settle-IsGuarded none g c now before u =
      guarded_by g.description.autolock (is_nil g.locked) (has_op g.clients)
        (has_op (g.clients ++ c ∷ [])) u (has_op-append g.clients c)
  settle-IsGuarded (some r) g c now before u = u

  admit-IsGuarded :
      (g : Group V) (c : Client V) (credentials : Option (Text × List Text)) (now : ℕ)
      → IsGuarded g
      → IsGuarded (admit g c credentials now).group
  admit-IsGuarded g c none now u = u
  admit-IsGuarded g c (some (username, permissions)) now u =
      let tests = if contains permissions op then none else refuse_user g now in
      settle-IsGuarded (otherwise tests (refuse_id g c.id)) g (init_client c username permissions)
        now _ u

  add_client-IsGuarded :
      (g : Group V) (c : Client V) (credentials : Option (Text × List Text)) (now : ℕ)
      → IsGuarded g
      → IsGuarded (add_client g c credentials now).group
  unfolding add_client
  add_client-IsGuarded g c credentials now u = elim (Bool-cases (contains c.permissions system)) [
    | inl s ↦ rw s (settle-IsGuarded (refuse_id g c.id) g c now [] u)
    | inr s ↦ rw s (admit-IsGuarded g c credentials now u)
  ]

  -- The steps of any number of clients, in any order. `AddClient` is two steps, the `autoLockKick` of
  -- `Add` and the rest, and `DelClient` too: the number is that of the calls of `DelClient` that have
  -- removed their client and have not come to `autoLockKick`. An operator of the group unlocks it,
  -- and no change of permissions takes "op" from the last one who has it.
  pub data Steps (g : Group V) : ℕ → Group V → Type 0 where
    begins : Steps g 0 g
    adds : {n : ℕ} {h : Group V} → Steps g n h → Steps g n (auto_lock_kick h).0
    admits :
        {n : ℕ} {h : Group V} (c : Client V) (credentials : Option (Text × List Text)) (now : ℕ)
        → Steps g n h
        → Steps g n (add_client h c credentials now).group
    removes :
        {n : ℕ} {h : Group V} (c : Client V) (now : ℕ)
        → (del_locked h c now).0 ≡ true
        → Steps g n h
        → Steps g (suc n) (del_locked h c now).1
    finishes : {n : ℕ} {h : Group V} → Steps g (suc n) h → Steps g n (auto_lock_kick h).0
    locks :
        {n : ℕ} {h : Group V} (message : Text)
        → Steps g n h
        → Steps g n (set_locked h (some message)).0
    unlocks :
        {n : ℕ} {h : Group V}
        → has_op h.clients ≡ true
        → Steps g n h
        → Steps g n (set_locked h none).0
    permits :
        {n : ℕ} {h : Group V} (address : ℕ) (permissions : List Text)
        → ((has_op h.clients ≡ false)
            ⊎ (has_op (set_permissions address permissions h.clients) ≡ true))
        → Steps g n h
        → Steps g n (record h { clients = set_permissions address permissions h.clients })

  permits-IsGuarded :
      (h : Group V) (cs : List (Client V))
      → ((has_op h.clients ≡ false) ⊎ (has_op cs ≡ true))
      → IsGuarded h
      → IsGuarded (record h { clients = cs })
  permits-IsGuarded h cs k u =
      guarded_by h.description.autolock (is_nil h.locked) (has_op h.clients) (has_op cs) u
        (λ p. elim k [ inl e ↦ absurd (ground (arith, p, e)) | inr e ↦ e ])

  -- After these steps, and unless a call of `DelClient` still has to come to `autoLockKick`, a group
  -- that locks by itself is locked or has an operator, if it was so at the beginning.
  pub Steps-IsGuarded : {g h : Group V} {n : ℕ} → Steps g n h → IsGuarded g → (0 < n) ⊎ IsGuarded h
  unfolding set_locked
  Steps-IsGuarded begins u = inr u
  Steps-IsGuarded (adds {h = h} r) u = inr (auto_lock_kick-IsGuarded h)
  Steps-IsGuarded (admits {h = h} c credentials now r) u = elim (Steps-IsGuarded r u) [
    | inl p ↦ inl p
    | inr v ↦ inr (add_client-IsGuarded h c credentials now v)
  ]
  Steps-IsGuarded (removes c now e r) u = inl (omega arith)
  Steps-IsGuarded (finishes {h = h} r) u = inr (auto_lock_kick-IsGuarded h)
  Steps-IsGuarded (locks m r) u = inr (ground arith)
  Steps-IsGuarded (unlocks o r) u = inr (ground (arith, o))
  Steps-IsGuarded (permits {h = h} a p k r) u = elim (Steps-IsGuarded r u) [
    | inl q ↦ inl q
    | inr v ↦ inr (permits-IsGuarded h (set_permissions a p h.clients) k v)
  ]

  auto_lock_kick-locked :
      (g : Group V)
      → g.description.autolock ≡ true
      → has_op g.clients ≡ false
      → (auto_lock_kick g).0.locked ≢ none
  unfolding auto_lock_kick
  auto_lock_kick-locked g a o = ground arith

  -- Into a group that locks by itself and has no operator, no client comes that has not the
  -- permission "system" and to which `GetPermission` does not give "op", even if the group was not
  -- locked before.
  pub join_group-refused :
      (g : Group V) (c : Client V) (username : Text) (permissions : List Text) (now : ℕ)
      → g.description.autolock ≡ true
      → has_op g.clients ≡ false
      → contains c.permissions system ≡ false
      → contains permissions op ≡ false
      → (join_group g c (some (username, permissions)) now).refusal ≢ none
  unfolding join_group
  join_group-refused g c username permissions now a o s p h =
      let k = (auto_lock_kick g).0 in
      let (may, id) = (add_client-admitted k c username permissions now s).0 h in
      elim may [
        | inl q ↦ absurd (ground arith)
        | inr is_open ↦ auto_lock_kick-locked g a o is_open.0
      ]
