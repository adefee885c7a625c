-- ===== src/Tokens.antt =====
-- token/token.go, token/jwt.go and the checks of token/stateful.go: whom a token lets into a group.
pub mod Groups
pub mod Table
use mathlib.Core.List.{◌++◌}
use galene.Base.{
  ◌==◌, ℕ, Bool, true, false, not, ◌&&◌, ◌||◌, Option, none, some, List, [], ◌∷◌, if◌then◌else◌,
  Text, same, bytes, has_prefix, ltb,
}
use galene.Base.Results.{Result, ok, err, ◌>>=◌}

-- Times are in nanoseconds.
pub record Stateful : Type 0 where
  pub token : Text
  pub group : Text
  pub include_subgroups : Bool
  pub username : Option Text
  pub permissions : List Text
  pub expires : Option ℕ
  pub not_before : Option ℕ
  pub issued_at : Option ℕ
  pub issued_by : Option Text

-- The errors of `Check`; `library` is one of the token library's.
pub data Invalid : Type 0 where
  bad_group : Invalid
  expired : Invalid
  in_future : Invalid
  wrong_group : Invalid
  bad_permissions : Invalid
  library : ℕ → Invalid

-- `Stateful.match`
unfoldable pub match_stateful : Stateful → Text → Bool
match_stateful t group =
    if same group []
    then t.include_subgroups && same t.group []
    else if same group t.group
    then true
    else if t.include_subgroups
    then (if same t.group [] then true else has_prefix group (t.group ++ bytes "/"))
    else false

abbrev pub or_blank : Option Text → Text
or_blank none = []
or_blank (some t) = t

-- `now.After(*token.Expires)`, where a token without a time has expired.
abbrev pub is_expired : Option ℕ → ℕ → Bool
is_expired none now = true
is_expired (some t) now = ltb t now

abbrev pub is_early : Option ℕ → ℕ → Bool
is_early none now = false
is_early (some t) now = ltb now t

-- `Stateful.Check` at the time `now`: the user's name and permissions.
unfoldable pub check_stateful : Stateful → Text → ℕ → Result Invalid (Text × List Text)
check_stateful t group now =
    if not (match_stateful t group)
    then err bad_group
    else if is_expired t.expires now
    then err expired
    else if is_early t.not_before now
    then err in_future
    else ok (or_blank t.username, t.permissions)

-- The URL of an audience that parses: its host and its path.
pub record Url : Type 0 where
  pub host : Text
  pub path : Text

-- What the library returns for the claims of a JSON Web Token whose signature and times are good.
-- `permissions` is a claim that is there and not nil, and a list of strings where `toStringArray`
-- succeeds.
pub record Claims : Type 0 where
  pub subject : Result ℕ Text
  pub audience : Result ℕ (List Text)
  pub include_subgroups : Bool
  pub permissions : Option (Option (List Text))

-- `strings.HasSuffix(s, "/")`
abbrev pub ends_in_slash : Text → Bool
ends_in_slash [] = false
ends_in_slash (c ∷ []) = c == 0x2f
ends_in_slash (c ∷ d ∷ s) = ends_in_slash (d ∷ s)

-- `matchGroup`
unfoldable pub match_group : Text → Text → Bool → Bool
match_group pth group include_subgroups =
    let whole = bytes "/group/" ++ (group ++ bytes "/") in
    if not include_subgroups
    then same pth whole
    else if not (has_prefix pth (bytes "/group/"))
    then false
    else if not (ends_in_slash pth)
    then false
    else has_prefix whole pth

abbrev pub from_library : {A : Type 0} → Result ℕ A → Result Invalid A
from_library (ok a) = ok a
from_library (err e) = err (library e)

abbrev pub claimed : Text → Option (Option (List Text)) → Result Invalid (Text × List Text)
claimed sub none = ok (sub, [])
claimed sub (some none) = err bad_permissions
claimed sub (some (some perms)) = ok (sub, perms)

-- The interface `Token`
pub data Token : Type 0 where
  jwt : Claims → Token
  stateful : Stateful → Token

unfoldable pub needs_username : Token → Bool
needs_username (jwt c) = false
needs_username (stateful t) = elim t.username [ none ↦ true | some u ↦ false ]

-- `parse` is `url.Parse`, and `equal_fold` is `strings.EqualFold`.
module _ (parse : Text → Option Url) (equal_fold : Text → Text → Bool) where
  -- One round of the loop of `JWT.Check` over the audience.
  abbrev pub admits_url : Option Url → Text → Text → Bool → Bool
  admits_url none host group include_subgroups = false
  admits_url (some u) host group include_subgroups =
      (same host [] || equal_fold u.host host) && match_group u.path group include_subgroups

  abbrev pub admits : List Text → Text → Text → Bool → Bool
  admits [] host group include_subgroups = false
  admits (u ∷ us) host group include_subgroups =
      admits_url (parse u) host group include_subgroups || admits us host group include_subgroups

  -- `JWT.Check`
  pub check_jwt : Claims → Text → Text → Result Invalid (Text × List Text)
  check_jwt claims host group = from_library claims.subject >>= λ sub.
      from_library claims.audience >>= λ aud.
      if not (admits aud host group claims.include_subgroups)
      then err wrong_group
      else claimed sub claims.permissions

  unfoldable pub check : Token → Text → Text → ℕ → Result Invalid (Text × List Text)
  check (jwt c) host group now = check_jwt c host group
  check (stateful t) host group now = check_stateful t group now
