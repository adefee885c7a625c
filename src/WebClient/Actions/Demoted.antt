-- ===== src/WebClient/Actions/Demoted.antt =====
-- rtpconn/webclient.go and group/group.go: the last operator of a group loses its privileges.
use galene.Base.{
  ℕ, ◌≡◌, refl, ap, Bool, true, false, not, ◌&&◌, ◌||◌, none, List, [], ◌∷◌, ◌==◌, Text, same,
  contains, bytes, Bool-cases, inl, inr, Returns,
}
use galene.Group.{Group, Client}
use galene.Group.Members.{has_op, set_permissions, is_nil, op}
use galene.WebClient.{WebClient, queue_changed, Environment}
use galene.WebClient.Actions.{remove_first, changed_permissions, change_permissions, handle_action}

or_false-left : (a b : Bool) → (a || b) ≡ false → a ≡ false
or_false-left true b h = h
or_false-left false b h = refl

or_false-right : (a b : Bool) → (a || b) ≡ false → b ≡ false
or_false-right true b h = cc
or_false-right false b h = h

or_false : {a b : Bool} → a ≡ false → b ≡ false → (a || b) ≡ false
or_false p q = rw (p, q) refl

contains-remove_first :
    (l : List Text) (v w : Text) → contains l w ≡ false → contains (remove_first v l) w ≡ false
unfolding remove_first
contains-remove_first [] v w h = refl
contains-remove_first (x ∷ l) v w h = elim (Bool-cases (same v x)) [
  | inl q ↦ rw q (or_false-right (same x w) (contains l w) h)
  | inr q ↦ rw q (
      or_false (or_false-left (same x w) (contains l w) h)
        (contains-remove_first l v w (or_false-right (same x w) (contains l w) h)))
]

all_three : {a b h : Bool} → a ≡ true → b ≡ true → h ≡ false → (a && b && not h) ≡ true
all_three p q r = rw (p, q, r) refl

module _ {V : Type 0} where
  has_op-set_permissions :
      (a : ℕ) (l : List Text) (cs : List (Client V))
      → contains l op ≡ false
      → has_op (set_permissions a [] cs) ≡ false
      → has_op (set_permissions a l cs) ≡ false
  has_op-set_permissions a l [] e h = refl
  has_op-set_permissions a l (c ∷ cs) e h = elim (Bool-cases (c.address == a)) [
    | inl q ↦
        let k : has_op (set_permissions a [] cs) ≡ false = rw q at h in
        rw q (or_false e (has_op-set_permissions a l cs e k))
    | inr q ↦
        let k : (contains c.permissions op || has_op (set_permissions a [] cs)) ≡ false =
          rw q at h in
        rw q (
          or_false (or_false-left (contains c.permissions op) _ k)
            (has_op-set_permissions a l cs e (or_false-right (contains c.permissions op) _ k)))
  ]

  -- Where a group locks by itself and is not locked, and the client with the given address is its only
  -- operator, the user action "unop" on this client makes no call of the group, and leaves it without
  -- a lock and without an operator.
  pub unop-unguarded :
      (e : Environment) (c : WebClient) (g : Group V) (address : ℕ)
      → g.description.autolock ≡ true
      → g.locked ≡ none
      → has_op (set_permissions address [] g.clients) ≡ false
      → contains (remove_first op c.permissions) op ≡ false
      → Returns
          (λ o.
            (o.effects ≡ queue_changed ∷ [])
            × (o.failure ≡ none)
            × ((g.description.autolock
                  && is_nil g.locked
                  && not (has_op (set_permissions address o.client.permissions g.clients)))
                ≡ true))
          (handle_action e c (change_permissions (bytes "unop")))
  unfolding handle_action changed_permissions
  unop-unguarded e c g address a u others once =
      let l = remove_first (bytes "record") (remove_first op c.permissions) in
      let none_left : has_op (set_permissions address l g.clients) ≡ false =
        has_op-set_permissions address l g.clients
          (contains-remove_first (remove_first op c.permissions) (bytes "record") op once) others in
      (refl, refl, all_three a (ap is_nil u) none_left)
