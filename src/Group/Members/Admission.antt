-- ===== src/Group/Members/Admission.antt =====
-- Who may join a group: `AddClient` of group/group.go against the conditions in the description.
use galene.Base.{
  if◌then◌else◌, leb, ltb, ℕ, ◌≤◌, ◌<◌, ◌≡◌, refl, sym, ◌∙◌, ◌↔◌, ◌⊎◌, inl, inr, Bool, true, false,
  not, ◌&&◌, Option, none, some, List, [], ◌∷◌, arith, Text, same, contains, length, Bool-cases,
  Option-cases,
}
use galene.Group.{Group, Client}
use galene.Group.Members.{
  init, no_operators, too_many_users, Event, add_client, refuse_id, refuse_if, refuse_locked,
  refuse_early, refuse_late, otherwise, Refusal, settle, init_client, refuse_user, refuse_id,
  init_client, has_op, lookup, op, system,
}

-- The description's hours.
abbrev pub IsStarted : Option ℕ → ℕ → Type 0
IsStarted none now = Unit
IsStarted (some t) now = t ≤ now

abbrev pub IsUnexpired : Option ℕ → ℕ → Type 0
IsUnexpired none now = Unit
IsUnexpired (some t) now = now ≤ t

-- A limit of 0 is none.
abbrev pub HasRoom : ℕ → ℕ → Type 0
HasRoom limit count = (limit ≡ 0) ⊎ (count < limit)

pub otherwise-none : (q r : Option Refusal) → (otherwise q r ≡ none) ↔ ((q ≡ none) × (r ≡ none))
otherwise-none none r = ground arith
otherwise-none (some q) r = ground arith

refuse_if-none : (b : Bool) (r : Refusal) → (refuse_if b r ≡ none) ↔ (b ≡ false)
refuse_if-none b r = ground arith

refuse_locked-none : (l : Option Text) → (refuse_locked l ≡ none) ↔ (l ≡ none)
refuse_locked-none none = ground arith
refuse_locked-none (some m) = ground arith

refuse_early-none : (t : Option ℕ) (now : ℕ) → (refuse_early t now ≡ none) ↔ IsStarted t now
refuse_early-none none now = ground arith
refuse_early-none (some t) now = ground arith

refuse_late-none : (t : Option ℕ) (now : ℕ) → (refuse_late t now ≡ none) ↔ IsUnexpired t now
refuse_late-none none now = ground arith
refuse_late-none (some t) now = ground arith

refuse_full-none :
    (limit count : ℕ)
    → (refuse_if (ltb 0 limit && leb limit count) too_many_users ≡ none) ↔ HasRoom limit count
refuse_full-none limit count = ground arith

module _ {V : Type 0} where
  -- The group is open to clients that are not operators.
  abbrev pub IsOpen : Group V → ℕ → Type 0
  IsOpen g now =
      (g.locked ≡ none)
      × IsStarted g.description.not_before now
      × IsUnexpired g.description.expires now
      × ((g.description.autokick && not (has_op g.clients)) ≡ false)
      × HasRoom g.description.max_clients (length g.clients)

  refuse_user-none : (g : Group V) (now : ℕ) → (refuse_user g now ≡ none) ↔ IsOpen g now
  unfolding refuse_user
  refuse_user-none g now =
      let d = g.description in
      let l = refuse_locked-none g.locked in
      let e = refuse_early-none d.not_before now in
      let f = refuse_late-none d.expires now in
      let full =
        refuse_if (ltb 0 d.max_clients && leb d.max_clients (length g.clients)) too_many_users in
      let n = refuse_full-none d.max_clients (length g.clients) in
      let kicks = refuse_if (d.autokick && not (has_op g.clients)) no_operators in
      let k = refuse_if-none (d.autokick && not (has_op g.clients)) no_operators in
      let o3 = otherwise-none kicks full in
      let o2 = otherwise-none (refuse_late d.expires now) (otherwise kicks full) in
      let o1 =
        otherwise-none (refuse_early d.not_before now)
          (otherwise (refuse_late d.expires now) (otherwise kicks full)) in
      let o0 = otherwise-none (refuse_locked g.locked) (
        otherwise (refuse_early d.not_before now)
          (otherwise (refuse_late d.expires now) (otherwise kicks full))) in
      (
        λ r.
            let (a0, r1) = o0.0 r in
            let (a1, r2) = o1.0 r1 in
            let (a2, r3) = o2.0 r2 in
            let (a3, a4) = o3.0 r3 in (l.0 a0, e.0 a1, f.0 a2, k.0 a3, n.0 a4),
        λ (a0, a1, a2, a3, a4). o0.1 (l.1 a0, o1.1 (e.1 a1, o2.1 (f.1 a2, o3.1 (k.1 a3, n.1 a4)))),
      )

  -- The id is neither empty nor taken.
  abbrev pub IsFreeId : Group V → Text → Type 0
  IsFreeId g id = (same id [] ≡ false) × (lookup g.clients id ≡ none)

  pub refuse_id-none : (g : Group V) (id : Text) → (refuse_id g id ≡ none) ↔ IsFreeId g id
  unfolding refuse_id
  refuse_id-none g id = elim (Option-cases (lookup g.clients id)) [
    | inl e ↦ rw e (ground arith)
    | inr (c, e) ↦ rw e (ground arith)
  ]

  settle-refusal :
      (r : Option Refusal) (g : Group V) (c : Client V) (now : ℕ) (before : List (Event V))
      → (settle r g c now before).refusal ≡ r
  settle-refusal none g c now before = refl
  settle-refusal (some r) g c now before = refl

  -- A client without the permission "system", to which `GetPermission` gives `permissions`, is
  -- admitted exactly when its id is not empty and not taken and it is an operator, or the group is
  -- not locked, has started, has not expired, has an operator if it is to kick without one, and has
  -- fewer clients than its limit, if it has one.
  pub add_client-admitted :
      (g : Group V) (c : Client V) (username : Text) (permissions : List Text) (now : ℕ)
      → contains c.permissions system ≡ false
      → ((add_client g c (some (username, permissions)) now).refusal ≡ none)
        ↔ (((contains permissions op ≡ true) ⊎ IsOpen g now) × IsFreeId g c.id)
  unfolding add_client
  add_client-admitted g c username permissions now s =
      let user = refuse_user-none g now in
      let id = refuse_id-none g c.id in
      let tests = if contains permissions op then none else refuse_user g now in
      let both = otherwise-none tests (refuse_id g c.id) in
      let e : (add_client g c (some (username, permissions)) now).refusal
          ≡ otherwise tests (refuse_id g c.id) =
        rw s (
          settle-refusal (otherwise tests (refuse_id g c.id)) g (init_client c username permissions)
            now (init c.address username permissions ∷ [])) in
      let may : (tests ≡ none) ↔ ((contains permissions op ≡ true) ⊎ IsOpen g now) =
        elim (Bool-cases (contains permissions op)) [
          | inl p ↦ rw p (λ h. inl refl, λ h. refl)
          | inr p ↦ rw p (
            λ h. inr (user.0 h),
            λ h. elim h [ inl q ↦ absurd (ground arith) | inr o ↦ user.1 o ],
          )
        ] in
      (
        λ r. let (t, i) = both.0 (sym e ∙ r) in (may.0 t, id.0 i),
        λ (m, i). e ∙ both.1 (may.1 m, id.1 i),
      )
