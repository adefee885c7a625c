-- ===== src/Access.antt =====
-- Who is let into a group: passwords (group/client.go) and `GetPermission` (group/group.go).
pub mod Login
mod Tests
use mathlib.Core.List.{◌++◌}
use galene.Base.{
  ℕ, Bool, true, false, not, ◌&&◌, ◌||◌, Option, none, some, List, [], ◌∷◌, if◌then◌else◌, Text,
  same, bytes, length, replicate, copy, ◌==◌,
}
use galene.Base.Dict.{find}
use galene.Base.Results.{Result, ok, err, ◌>>=◌}
use galene.Description.{
  Description, Password, Permissions, UserDescription, list_permissions, is_some,
}
use galene.Tokens.{Token, Url, Invalid, needs_username, check}

-- `pbkdf2` with SHA-256 takes the password, the salt, the number of iterations and the length of the
-- key; `bcrypt` says whether the password matches, or that there is an error.
pub record Crypto : Type 0 where
  pub decode_hex : Text → Option Text
  pub pbkdf2 : Text → Text → ℕ → ℕ → Text
  pub bcrypt : Text → Text → Option Bool

-- The errors of `Match` and of `GetPermission`.
pub data Denial : Type 0 where
  missing_key : Denial
  bad_hex : Denial
  unknown_hash : Denial
  bcrypt_failed : Denial
  unknown_type : Denial
  no_username : Denial
  bad_password : Denial
  no_such_username : Denial
  username_required : Denial
  duplicate_username : Denial
  bad_token : Denial
  bad_configuration : Denial
  no_credentials : Denial
  invalid_username : Denial

-- `ConstantTimeCompare`
pub constant_time_compare : Text → Text → Bool
constant_time_compare a b =
    let bs = copy (replicate (length a) 0) b in (length a == length b) && same a bs

abbrev pub match_plain : Option Text → Text → Result Denial Bool
match_plain none pw = err missing_key
match_plain (some key) pw = ok (constant_time_compare pw key)

abbrev pub match_derived : Crypto → Password → Option Text → Option Text → Text → Result Denial Bool
match_derived c p none salt pw = err bad_hex
match_derived c p (some key) none pw = err bad_hex
match_derived c p (some key) (some salt) pw =
    if same p.hash (bytes "sha-256")
    then ok (same key (c.pbkdf2 pw salt p.iterations (length key)))
    else err unknown_hash

abbrev pub match_pbkdf2 : Crypto → Password → Option Text → Text → Result Denial Bool
match_pbkdf2 c p none pw = err missing_key
match_pbkdf2 c p (some key) pw = match_derived c p (c.decode_hex key) (c.decode_hex p.salt) pw

abbrev pub bcrypt_result : Option Bool → Result Denial Bool
bcrypt_result none = err bcrypt_failed
bcrypt_result (some b) = ok b

abbrev pub match_bcrypt : Crypto → Option Text → Text → Result Denial Bool
match_bcrypt c none pw = err missing_key
match_bcrypt c (some key) pw = bcrypt_result (c.bcrypt key pw)

-- `Password.Match`
pub match_password : Crypto → Password → Text → Result Denial Bool
match_password c p pw =
    if same p.type []
    then ok false
    else if same p.type (bytes "plain")
    then match_plain p.key pw
    else if same p.type (bytes "wildcard")
    then ok true
    else if same p.type (bytes "pbkdf2")
    then match_pbkdf2 c p p.key pw
    else if same p.type (bytes "bcrypt")
    then match_bcrypt c p.key pw
    else err unknown_type

-- `ClientCredentials`; `token` is none if it is empty, else what `token.Parse` returns for it.
pub record ClientCredentials : Type 0 where
  pub username : Option Text
  pub password : Text
  pub token : Option (Result ℕ Token)

abbrev pub permitted : Permissions → Denial → Result Denial Bool → Result Denial Permissions
permitted p e (ok true) = ok p
permitted p e (ok false) = err e
permitted p e (err f) = err f

-- The wildcard user: an error of `Match` counts as no match.
abbrev pub wildcard_result : Permissions → Result Denial Bool → Result Denial Permissions
wildcard_result p (ok true) = ok p
wildcard_result p (ok false) = err no_such_username
wildcard_result p (err e) = err no_such_username

abbrev pub wildcard_permission : Crypto → Option UserDescription → Text → Result Denial Permissions
wildcard_permission c none pw = err no_such_username
wildcard_permission c (some w) pw = wildcard_result w.permissions (match_password c w.password pw)

abbrev pub user_permission :
    Crypto → Option UserDescription → Option UserDescription → Text → Result Denial Permissions
user_permission c none w pw = wildcard_permission c w pw
user_permission c (some u) w pw =
    permitted u.permissions bad_password (match_password c u.password pw)

-- `getPasswordPermission`, with a username
pub get_password_permission : Crypto → Description → Text → Text → Result Denial Permissions
get_password_permission c d username pw =
    user_permission c (find username d.users) d.wildcard_user pw

-- The library's `path.Clean` and the functions that `JWT.Check` calls, and the configuration's
-- `CanonicalHost`, if it can be read.
pub record Environment : Type 0 where
  pub clean : Text → Text
  pub parse : Text → Option Url
  pub equal_fold : Text → Text → Bool
  pub canonical_host : Result ℕ Text

abbrev pub has_byte : Text → ℕ → Bool
has_byte [] b = false
has_byte (c ∷ s) b = c == b || has_byte s b

-- `validGroupName`, where the file separator is a slash
pub valid_group_name : (Text → Text) → Text → Bool
valid_group_name clean name =
    let rooted = bytes "/" ++ name in
    if has_byte name 0x5c
    then false
    else if same (clean rooted) (bytes "/")
    then false
    else same (clean rooted) rooted

-- `validUsername`
pub valid_username : (Text → Text) → Text → Bool
valid_username clean username = same username [] || valid_group_name clean username

abbrev pub user_exists : Description → Text → Bool
user_exists d username = is_some (find username d.users)

-- The username of a token, or else that of the client, which may not be one of the description's.
abbrev pub name_user :
    Description → Option Text → Text × List Text → Result Denial (Text × List Text)
name_user d none (name, perms) = ok (name, perms)
name_user d (some username) (name, perms) =
    if same name []
    then if user_exists d username then err duplicate_username else ok (username, perms)
    else ok (name, perms)

abbrev pub checked : Result Invalid (Text × List Text) → Result Denial (Text × List Text)
checked (ok p) = ok p
checked (err e) = err bad_token

abbrev pub configured : Result ℕ Text → Result Denial Text
configured (ok h) = ok h
configured (err e) = err bad_configuration

abbrev pub is_missing : Option Text → Bool
is_missing none = true
is_missing (some u) = false

-- The branch of `GetPermission` for a client with a token.
abbrev pub token_permission :
    Environment
    → Description
    → Text
    → Option Text
    → Result ℕ Token
    → ℕ
    → Result Denial (Text × List Text)
token_permission env d group username (err e) now = err bad_token
token_permission env d group username (ok t) now =
    if is_missing username && needs_username t
    then err username_required
    else configured env.canonical_host >>= λ host.
        checked (check env.parse env.equal_fold t host group now) >>= λ p. name_user d username p

-- The branch for a client without a token.
abbrev pub plain_permission :
    Crypto → Description → Option Text → Text → Result Denial (Text × List Text)
plain_permission c d none pw = err no_credentials
plain_permission c d (some username) pw =
    get_password_permission c d username pw >>= λ ps. ok (username, list_permissions ps d)

abbrev pub identify :
    Crypto
    → Environment
    → Description
    → Text
    → ClientCredentials
    → Option (Result ℕ Token)
    → ℕ
    → Result Denial (Text × List Text)
identify c env d group creds none now = plain_permission c d creds.username creds.password
identify c env d group creds (some t) now = token_permission env d group creds.username t now

-- `Description.GetPermission` at the time `now`
pub get_permission :
    Crypto
    → Environment
    → Description
    → Text
    → ClientCredentials
    → ℕ
    → Result Denial (Text × List Text)
get_permission c env d group creds now = identify c env d group creds creds.token now >>= λ p.
    if valid_username env.clean p.0 then ok p else err invalid_username
