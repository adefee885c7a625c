-- ===== src/Access/Tests.antt =====
-- The theorems about passwords and tokens at small descriptions, with a toy hash.
use galene.Base.{◌≡◌, refl, ◌↔◌, inl, true, none, some, [], ◌∷◌, bytes, same}
use galene.Base.Results.{ok}
use galene.Description.{Description, UserDescription, no_password, no_user, list_permissions}
use galene.Description.Admin.{no_description}
use galene.Tokens.{needs_username, stateful, Stateful, check, check_stateful, match_stateful}
use galene.Access.{
  Crypto, Environment, ClientCredentials, get_permission, match_password, valid_username,
  valid_group_name, constant_time_compare,
}
use galene.Access.Login.{Checked, Serves, get_permission-ok, get_permission-token}

abbrev crypto : Crypto
crypto = record {
  decode_hex = λ t. some t;
  pbkdf2 = λ pw salt n l. pw;
  bcrypt = λ key pw. some (same key pw);
}

abbrev environment : Environment
environment = record {
  clean = λ t. t;
  parse = λ t. none;
  equal_fold = same;
  canonical_host = ok [];
}

abbrev alice : UserDescription
alice = record no_user {
  password = record no_password { type = bytes "plain"; key = some (bytes "pw") };
}

abbrev room : Description
room = record no_description { users = (bytes "al", alice) ∷ [] }

abbrev login : ClientCredentials
login = record { username = some (bytes "al"); password = bytes "pw"; token = none }

get_permission-ok_example :
    (get_permission crypto environment room (bytes "g") login 5 ≡ ok (bytes "al", [])) ↔ (
      (valid_username environment.clean (bytes "al") ≡ true)
      × (login.username ≡ some (bytes "al"))
      × ((u : UserDescription) × Serves room (bytes "al") u
          × (match_password crypto u.password login.password ≡ ok true)
          × (list_permissions u.permissions room ≡ [])))
get_permission-ok_example =
    get_permission-ok crypto environment room (bytes "g") login 5 (bytes "al") [] refl

alice_in : get_permission crypto environment room (bytes "g") login 5 ≡ ok (bytes "al", [])
unfolding valid_username valid_group_name match_password constant_time_compare list_permissions
alice_in = get_permission-ok_example.1 (refl, refl, (alice, inl refl, refl, refl))

abbrev invitation : Stateful
invitation = record {
  token = bytes "t";
  group = bytes "g";
  include_subgroups = true;
  username = none;
  permissions = bytes "present" ∷ [];
  expires = some 9;
  not_before = none;
  issued_at = none;
  issued_by = none;
}

abbrev guest : ClientCredentials
guest = record {
  username = some (bytes "bo");
  password = [];
  token = some (ok (stateful invitation));
}

guest_in :
    get_permission crypto environment room (bytes "g/h") guest 5
    ≡ ok (bytes "bo", bytes "present" ∷ [])
unfolding get_permission needs_username check check_stateful match_stateful valid_username
    valid_group_name
guest_in = refl

get_permission-token_example :
    (get_permission crypto environment room (bytes "g/h") guest 5
      ≡ ok (bytes "bo", bytes "present" ∷ []))
    ↔ ((valid_username environment.clean (bytes "bo") ≡ true)
        × Checked environment room
            (bytes "g/h")
            guest.username
            (stateful invitation)
            5
            (bytes "bo")
            (bytes "present" ∷ []))
get_permission-token_example =
    get_permission-token crypto environment room (bytes "g/h") guest 5 (stateful invitation)
      (bytes "bo") (bytes "present" ∷ []) refl
