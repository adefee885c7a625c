-- ===== src/Access/Login.antt =====
-- Exactly whom `GetPermission` of group/group.go lets in, and as whom.
use mathlib.Core.Option.{some-injective}
use galene.Base.{
  length-replicate, ==_iff, ◌≢◌, ℕ, ◌≡◌, refl, sym, ap, ◌∙◌, ◌↔◌, ◌⊎◌, inl, inr, Bool, true, false,
  ◌&&◌, Option, none, some, List, [], ◌∷◌, arith, if◌then◌else◌, ◌==◌, Text, same, Bool-cases,
  length, copy, replicate,
}
use galene.Base.Dict.{find}
use mathlib.Core.Path.{subst}
use galene.Base.Results.{both_succeed, Result, ok, err, ◌>>=◌}
use galene.Description.{Description, UserDescription, Permissions, list_permissions}
use galene.Tokens.{Invalid, Token, check, needs_username}
use galene.Access.{
  Crypto, Denial, Environment, ClientCredentials, constant_time_compare, match_password,
  user_permission, permitted, wildcard_result, get_password_permission, get_permission,
  bad_password, plain_permission, token_permission, invalid_username, valid_username, user_exists,
  name_user, checked, configured, identify, is_missing,
}

copy_whole : (a b : Text) → length a ≡ length b → copy a b ≡ b
copy_whole [] [] h = refl
copy_whole [] (y ∷ b) h = absurd (omega arith)
copy_whole (x ∷ a) [] h = absurd (omega arith)
copy_whole (x ∷ a) (y ∷ b) h = ap (◌∷◌ y) (copy_whole a b (omega arith))

length-same : (a b : Text) → length a ≢ length b → same a b ≡ false
length-same [] [] h = absurd (h refl)
length-same [] (y ∷ b) h = refl
length-same (x ∷ a) [] h = refl
length-same (x ∷ a) (y ∷ b) h = ground (arith, length-same a b)

-- `ConstantTimeCompare` decides whether two strings are equal, whatever their lengths.
constant_time_compare-same : (a b : Text) → constant_time_compare a b ≡ same a b
unfolding constant_time_compare
constant_time_compare-same a b = elim (Bool-cases (length a == length b)) [
  | inl e ↦
      let n : length (replicate (length a) 0) ≡ length b =
        length-replicate (length a) 0 ∙ (==_iff _ _).0 e in
      let same_copy = copy_whole (replicate (length a) 0) b n in rw (e, same_copy) refl
  | inr e ↦
      let n : length a ≢ length b =
        λ h. absurd (ground (arith, (==_iff (length a) (length b)).1 h)) in
      rw e (sym (length-same a b n))
]

-- The description's entry that decides on a user with this name: the user's own, or else the
-- wildcard user's.
abbrev pub Serves : Description → Text → UserDescription → Type 0
Serves d name u =
    (find name d.users ≡ some u) ⊎ ((find name d.users ≡ none) × (d.wildcard_user ≡ some u))

permitted-ok :
    (p q : Permissions) (e : Denial) (r : Result Denial Bool)
    → (permitted p e r ≡ ok q) ↔ ((r ≡ ok true) × (p ≡ q))
permitted-ok p q e (ok true) = ground arith
permitted-ok p q e (ok false) = ground arith
permitted-ok p q e (err f) = ground arith

wildcard_result-ok :
    (p q : Permissions) (r : Result Denial Bool)
    → (wildcard_result p r ≡ ok q) ↔ ((r ≡ ok true) × (p ≡ q))
wildcard_result-ok p q (ok true) = ground arith
wildcard_result-ok p q (ok false) = ground arith
wildcard_result-ok p q (err f) = ground arith

user_permission-ok :
    (c : Crypto) (o w : Option UserDescription) (pw : Text) (q : Permissions)
    → (user_permission c o w pw ≡ ok q) ↔ (
        (u : UserDescription) × ((o ≡ some u) ⊎ ((o ≡ none) × (w ≡ some u)))
        × (match_password c u.password pw ≡ ok true)
        × (u.permissions ≡ q))
user_permission-ok c (some u) w pw q = (
  λ h.
      let (m, e) =
        (permitted-ok u.permissions q bad_password (match_password c u.password pw)).0 h in
      (u, inl refl, m, e),
  λ (x, s, m, e).
      let same_user : u ≡ x = elim s [
        | inl p ↦ some-injective _ _ p
        | inr p ↦ absurd (ground (arith, p.0))
      ] in
      (permitted-ok u.permissions q bad_password (match_password c u.password pw)).1 (
        ap (λ (t : UserDescription). match_password c t.password pw) same_user ∙ m,
        ap (λ (t : UserDescription). t.permissions) same_user ∙ e,
      ),
)
user_permission-ok c none none pw q = (
  λ h. absurd (ground (arith, h)),
  λ (x, s, m, e). elim s [
    | inl p ↦ absurd (ground (arith, p))
    | inr p ↦ absurd (ground (arith, p.1))
  ],
)
user_permission-ok c none (some v) pw q = (
  λ h.
      let (m, e) = (wildcard_result-ok v.permissions q (match_password c v.password pw)).0 h in
      (v, inr (refl, refl), m, e),
  λ (x, s, m, e).
      let same_user : v ≡ x = elim s [
        | inl p ↦ absurd (ground (arith, p))
        | inr p ↦ some-injective _ _ p.1
      ] in
      (wildcard_result-ok v.permissions q (match_password c v.password pw)).1 (
        ap (λ (t : UserDescription). match_password c t.password pw) same_user ∙ m,
        ap (λ (t : UserDescription). t.permissions) same_user ∙ e,
      ),
)

plain_permission-ok :
    (c : Crypto) (d : Description) (o : Option Text) (pw name : Text) (perms : List Text)
    → (plain_permission c d o pw ≡ ok (name, perms)) ↔ (
        (o ≡ some name)
        × ((u : UserDescription) × Serves d name u
            × (match_password c u.password pw ≡ ok true)
            × (list_permissions u.permissions d ≡ perms)))
unfolding get_password_permission
plain_permission-ok c d none pw name perms =
    (λ h. absurd (ground (arith, h)), λ (p, q). absurd (ground (arith, p)))
plain_permission-ok c d (some n) pw name perms =
    let who = user_permission-ok c (find n d.users) d.wildcard_user pw in
    (
      λ h.
          let (ps, k, m) =
            both_succeed (λ ps. ok (n, list_permissions ps d)) (get_password_permission c d n pw)
              h in
          let (u, s, v, e) = (who ps).0 m in
          let same_name : n ≡ name = cc in
          let same_perms : list_permissions ps d ≡ perms = cc in
          (
            ap some same_name,
            (
              u,
              subst (λ t. Serves d t u) same_name s,
              v,
              ap (λ (t : Permissions). list_permissions t d) e ∙ same_perms,
            ),
          ),
      λ (p, (u, s, v, l)).
          let same_name : name ≡ n = sym (some-injective _ _ p) in
          let m = (who u.permissions).1 (u, subst (λ t. Serves d t u) same_name s, v, refl) in
          ap (λ r. r >>= λ ps. ok (n, list_permissions ps d)) m ∙ (cc),
    )

-- The check of the username at the end.
with_valid_name :
    (valid : Text → Bool) (m : Result Denial (Text × List Text)) (name : Text) (perms : List Text)
    → ((m >>= λ p. if valid p.0 then ok p else err invalid_username) ≡ ok (name, perms))
      ↔ ((valid name ≡ true) × (m ≡ ok (name, perms)))
with_valid_name valid (err e) name perms =
    (λ h. absurd (ground (arith, h)), λ (v, h). absurd (ground (arith, h)))
with_valid_name valid (ok (n, ps)) name perms = (
  λ h. elim (Bool-cases (valid n)) [
    | inl v ↦
        let k : ◌≡◌ {A = Result Denial (Text × List Text)} (ok (n, ps)) (ok (name, perms)) =
          rw v at h in
        let e : n ≡ name = cc in (ap valid (sym e) ∙ v, k)
    | inr v ↦
        let k : ◌≡◌ {A = Result Denial (Text × List Text)} (err invalid_username)
            (ok (name, perms)) =
          rw v at h in
        absurd (ground (arith, k))
  ],
  λ (v, h). let e : n ≡ name = cc in let w : valid n ≡ true = ap valid e ∙ v in rw w h,
)

-- Without a token, `GetPermission` lets a client in exactly when it gives a valid username, and the
-- password matches that of the description's user of this name or, where there is no such user, that
-- of the wildcard user. The client then has this name and that user's permissions.
pub get_permission-ok :
    (c : Crypto) (env : Environment) (d : Description) (group : Text) (creds : ClientCredentials)
    (now : ℕ) (name : Text) (perms : List Text)
    → creds.token ≡ none
    → (get_permission c env d group creds now ≡ ok (name, perms)) ↔ (
        (valid_username env.clean name ≡ true)
        × (creds.username ≡ some name)
        × ((u : UserDescription) × Serves d name u
            × (match_password c u.password creds.password ≡ ok true)
            × (list_permissions u.permissions d ≡ perms)))
unfolding get_permission
get_permission-ok c env d group creds now name perms t =
    let chosen : identify c env d group creds creds.token now
        ≡ plain_permission c d creds.username creds.password =
      ap (λ o. identify c env d group creds o now) t in
    let plain = plain_permission-ok c d creds.username creds.password name perms in
    let valid =
      with_valid_name (valid_username env.clean) (identify c env d group creds creds.token now) name
        perms in
    (
      λ h. let (v, m) = valid.0 h in let (e, u) = plain.0 (sym chosen ∙ m) in (v, e, u),
      λ (v, e, u). valid.1 (v, chosen ∙ plain.1 (e, u)),
    )

-- Under which name a token lets a client in: its own, or else the one that the client gives, if it
-- gives one; and then the description may have no user of this name.
abbrev pub NamedBy : Description → Option Text → Text → Text → Type 0
NamedBy d none n name = n ≡ name
NamedBy d (some u) n name =
    ((same n [] ≡ false) × (n ≡ name))
    ⊎ ((same n [] ≡ true) × (u ≡ name) × (user_exists d u ≡ false))

name_user-ok :
    (d : Description) (o : Option Text) (n name : Text) (ps perms : List Text)
    → (name_user d o (n, ps) ≡ ok (name, perms)) ↔ (NamedBy d o n name × (ps ≡ perms))
name_user-ok d none n name ps perms = (λ h. (cc, cc), λ (e, f). cc)
name_user-ok d (some u) n name ps perms = elim (Bool-cases (same n [])) [
  | inl e ↦ elim (Bool-cases (user_exists d u)) [
    | inl x ↦
        rw (e, x)
          (
            λ h. absurd (ground (arith, h)),
            λ (w, q). elim w [
              | inl (f, g) ↦ absurd (ground (arith, f))
              | inr (f, g, i) ↦ absurd (ground (arith, i))
            ],
          )
    | inr x ↦
        rw (e, x)
          (
            λ h. (inr (refl, cc, refl), cc),
            λ (w, q). elim w [ inl (f, g) ↦ absurd (ground (arith, f)) | inr (f, g, i) ↦ cc ],
          )
  ]
  | inr e ↦ rw e (
    λ h. (inl (refl, cc), cc),
    λ (w, q). elim w [ inl (f, g) ↦ cc | inr (f, g, i) ↦ absurd (ground (arith, f)) ],
  )
]

checked-ok :
    (r : Result Invalid (Text × List Text)) (n : Text) (ps : List Text)
    → checked r ≡ ok (n, ps)
    → r ≡ ok (n, ps)
checked-ok (ok p) n ps h = cc
checked-ok (err e) n ps h = cc

configured-ok : (r : Result ℕ Text) (host : Text) → configured r ≡ ok host → r ≡ ok host
configured-ok (ok h) host e = cc
configured-ok (err f) host e = cc

-- The client is let in by the token's check for the configuration's host.
abbrev pub Checked :
    Environment → Description → Text → Option Text → Token → ℕ → Text → List Text → Type 0
Checked env d group o t now name perms =
    ((is_missing o && needs_username t) ≡ false)
    × ((host : Text) × (n : Text) × (env.canonical_host ≡ ok host)
        × (check env.parse env.equal_fold t host group now ≡ ok (n, perms))
        × NamedBy d o n name)

token_permission-ok :
    (env : Environment) (d : Description) (group : Text) (o : Option Text) (t : Token) (now : ℕ)
    (name : Text) (perms : List Text)
    → (token_permission env d group o (ok t) now ≡ ok (name, perms))
      ↔ Checked env d group o t now name perms
token_permission-ok env d group o t now name perms =
    let f = λ (host : Text).
      checked (check env.parse env.equal_fold t host group now) >>= λ p. name_user d o p in
    elim (Bool-cases (is_missing o && needs_username t)) [
      | inl e ↦ rw e (λ h. absurd (ground (arith, h)), λ (q, r). absurd (ground (arith, q)))
      | inr e ↦ rw e (
        λ k.
            let (host, b, a) = both_succeed f (configured env.canonical_host) k in
            let ((n, ps), r, q) =
              both_succeed (λ p. name_user d o p)
                (checked (check env.parse env.equal_fold t host group now)) b in
            let (who, same_perms) = (name_user-ok d o n name ps perms).0 r in
            (
              refl,
              (
                host,
                n,
                configured-ok env.canonical_host host a,
                checked-ok _ n ps q ∙ ap (λ (l : List Text). ok (n, l)) same_perms,
                who,
              ),
            ),
        λ (z, (host, n, a, b, who)).
            let named = (name_user-ok d o n name perms perms).1 (who, refl) in
            ap (λ r. configured r >>= f) a ∙ ap (λ r. checked r >>= λ p. name_user d o p) b ∙ named,
      )
    ]

-- With a token, `GetPermission` lets a client in exactly when it has a name where the token needs
-- one, the token passes its check for the canonical host of the configuration, and the name is
-- valid. The permissions are those that the check gives. The name is that of the token where this
-- has one or the client gives none, and otherwise the one that the client gives, and the
-- description has no user of this name.
pub get_permission-token :
    (c : Crypto) (env : Environment) (d : Description) (group : Text) (creds : ClientCredentials)
    (now : ℕ) (t : Token) (name : Text) (perms : List Text)
    → creds.token ≡ some (ok t)
    → (get_permission c env d group creds now ≡ ok (name, perms)) ↔ (
        (valid_username env.clean name ≡ true)
        × Checked env d group creds.username t now name perms)
unfolding get_permission
get_permission-token c env d group creds now t name perms e =
    let all = identify c env d group creds creds.token now in
    let chosen : all ≡ token_permission env d group creds.username (ok t) now =
      ap (λ o. identify c env d group creds o now) e in
    let valid = with_valid_name (valid_username env.clean) all name perms in
    let token = token_permission-ok env d group creds.username t now name perms in
    (
      λ h. let (v, m) = valid.0 h in (v, token.0 (sym chosen ∙ m)),
      λ (v, q). valid.1 (v, chosen ∙ token.1 q),
    )
