-- ===== src/Description/Upgrade.antt =====
-- `upgradeDescription` of group/description.go: the users of an old description.
use galene.Base.{
  ◌≡◌, refl, sym, ap, ◌∙◌, inl, inr, false, ◌||◌, Option, none, some, List, [], ◌∷◌, arith,
  if◌then◌else◌, Text, same, bytes, same_iff, same_sym, Bool-cases, Option-cases,
}
use galene.Base.Dict.{find, find-insert}
use galene.Description.{
  or_else, insert_new, Description, UserDescription, ClientPattern, upgrade_one, upgrade_users,
  upgrade_description, upgrade_user, upgrade_password, Password,
}

or_else_assoc {ℓ} :
    {A : Type ℓ} (a b c : Option A) → or_else (or_else a b) c ≡ or_else a (or_else b c)
or_else_assoc none b c = refl
or_else_assoc (some a) b c = refl

-- What a description says of a user; the empty name stands for the wildcard.
abbrev pub entry : Description → Text → Option UserDescription
entry d u = if same u [] then d.wildcard_user else find u d.users

-- The password that a pattern stands for: one without a password takes any.
abbrev pub password_of : Option Password → Password
password_of none = record {
  type = bytes "wildcard";
  hash = [];
  key = none;
  salt = [];
  iterations = 0;
}
password_of (some p) = p

-- The entry that the first pattern for the user gives, if there is one: these permissions, by their
-- name, and the pattern's password.
abbrev pub given : List ClientPattern → Text → Text → Option UserDescription
given [] p u = none
given (c ∷ cs) p u =
    let rest = given cs p u in
    if same c.username u
    then some (record {
      password = password_of c.password;
      permissions = record { name = p; permissions = [] };
    })
    else rest

password_of-upgrade_password : (o : Option Password) → upgrade_password o ≡ password_of o
unfolding upgrade_password
password_of-upgrade_password none = refl
password_of-upgrade_password (some p) = refl

upgrade_user-entry :
    (c : ClientPattern) (p : Text)
    → upgrade_user c p ≡ record {
      password = password_of c.password;
      permissions = record { name = p; permissions = [] };
    }
unfolding upgrade_user
upgrade_user-entry c p =
    ap
      (λ (w : Password). record {
        password = w;
        permissions = record { name = p; permissions = [] };
      })
      (password_of-upgrade_password c.password)

or_else-none {ℓ} : {A : Type ℓ} (a : Option A) → or_else a none ≡ a
or_else-none none = refl
or_else-none (some a) = refl

find-insert_new :
    (k j : Text) (v : UserDescription) (m : List (Text × UserDescription))
    → find j (insert_new k v m) ≡ or_else (find j m) (if same k j then some v else none)
find-insert_new k j v m = elim (Option-cases (find k m)) [
  | inl e ↦ elim (Bool-cases (same k j)) [
    | inl f ↦
        let g : find j m ≡ none = ap (λ t. find t m) (sym ((same_iff k j).0 f)) ∙ e in
        rw (e, find-insert k j v m, f, g) refl
    | inr f ↦ rw (e, find-insert k j v m, f) (sym (or_else-none (find j m)))
  ]
  | inr (w, e) ↦ elim (Bool-cases (same k j)) [
    | inl f ↦
        let g : find j m ≡ some w = ap (λ t. find t m) (sym ((same_iff k j).0 f)) ∙ e in
        rw (e, f, g) refl
    | inr f ↦ rw (e, f) (sym (or_else-none (find j m)))
  ]
]

entry-upgrade_one :
    (d : Description) (c : ClientPattern) (p u : Text)
    → entry (upgrade_one d c p) u
      ≡ or_else (entry d u) (if same c.username u then some (upgrade_user c p) else none)
unfolding upgrade_one
entry-upgrade_one d c p u = elim (Bool-cases (same c.username [])) [
  | inl e ↦
      let h : same c.username u ≡ same u [] =
        ap (λ t. same t u) ((same_iff c.username []).0 e) ∙ same_sym [] u in
      elim (Bool-cases (same u [])) [
        | inl f ↦ rw (e, h, f) refl
        | inr f ↦ rw (e, h, f) (sym (or_else-none (find u d.users)))
      ]
  | inr e ↦ elim (Bool-cases (same u [])) [
    | inl f ↦
        let h : same c.username u ≡ false = ap (same c.username) ((same_iff u []).0 f) ∙ e in
        rw (e, h, f) (sym (or_else-none d.wildcard_user))
    | inr f ↦ rw (e, f) (find-insert_new c.username u (upgrade_user c p) d.users)
  ]
]

first_given :
    (c : ClientPattern) (cs : List ClientPattern) (p u : Text)
    → or_else (if same c.username u then some (upgrade_user c p) else none) (given cs p u)
      ≡ given (c ∷ cs) p u
first_given c cs p u = elim (Bool-cases (same c.username u)) [
  | inl e ↦ rw e (ap some (upgrade_user-entry c p))
  | inr e ↦ rw e refl
]

entry-upgrade_users :
    (d : Description) (cs : List ClientPattern) (p u : Text)
    → entry (upgrade_users d cs p) u ≡ or_else (entry d u) (given cs p u)
unfolding upgrade_users
entry-upgrade_users d [] p u = sym (or_else-none (entry d u))
entry-upgrade_users d (c ∷ cs) p u =
    entry-upgrade_users (upgrade_one d c p) cs p u
    ∙ (ap (λ t. or_else t (given cs p u)) (entry-upgrade_one d c p u)
        ∙ (or_else_assoc (entry d u) _ (given cs p u)
            ∙ ap (or_else (entry d u)) (first_given c cs p u)))

op-upgrade_users :
    (d : Description) (cs : List ClientPattern) (p : Text)
    → ((upgrade_users d cs p).op ≡ d.op) × ((upgrade_users d cs p).presenter ≡ d.presenter)
unfolding upgrade_users upgrade_one
op-upgrade_users d [] p = (refl, refl)
op-upgrade_users d (c ∷ cs) p = ground (arith, op-upgrade_users (upgrade_one d c p) cs p)

-- `upgradeDescription` keeps every user of the description, and the wildcard user. To a user that
-- the description has not it gives the permissions "op", "present" or "message", by the first of the
-- three old lists that names it, and the password by its first entry there; nobody else is added. No
-- old list is left. An entry without a password takes any.
pub upgrade_description-entry :
    (d : Description) (u : Text)
    → (entry (upgrade_description d) u
        ≡ or_else (entry d u) (
            or_else (given d.op (bytes "op") u) (
              or_else (given d.presenter (bytes "present") u) (given d.other (bytes "message") u))))
      × ((upgrade_description d).op ≡ [])
      × ((upgrade_description d).presenter ≡ [])
      × ((upgrade_description d).other ≡ [])
unfolding upgrade_description
upgrade_description-entry d u =
    let fields = record d {
      allow_anonymous = false;
      auto_subgroups = d.auto_subgroups || d.allow_subgroups;
      allow_subgroups = false;
    } in
    let ops = record (upgrade_users fields d.op (bytes "op")) { op = [] } in
    let presenters = record (upgrade_users ops d.presenter (bytes "present")) { presenter = [] } in
    let a = entry-upgrade_users fields d.op (bytes "op") u in
    let b = entry-upgrade_users ops d.presenter (bytes "present") u in
    let c = entry-upgrade_users presenters d.other (bytes "message") u in
    let x = given d.op (bytes "op") u in
    let y = given d.presenter (bytes "present") u in
    let z = given d.other (bytes "message") u in
    (
      c
          ∙ (ap (λ t. or_else t z) (b ∙ ap (λ t. or_else t y) a)
              ∙ (or_else_assoc (or_else (entry d u) x) y z
                  ∙ or_else_assoc (entry d u) x (or_else y z))),
      (op-upgrade_users presenters d.other (bytes "message")).0
          ∙ (op-upgrade_users ops d.presenter (bytes "present")).0,
      (op-upgrade_users presenters d.other (bytes "message")).1,
      refl,
    )
