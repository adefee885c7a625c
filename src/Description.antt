-- ===== src/Description.antt =====
-- group/description.go: the description of a group, as it is read from a file and changed by the
-- administrative calls, and the permissions of its users.
pub mod Upgrade
pub mod Admin
mod Tests
use galene.Base.{
  ℕ, Bool, true, false, not, ◌&&◌, ◌||◌, Option, none, some, List, [], ◌∷◌, if◌then◌else◌, ◌==◌,
  Text, same, contains, bytes, non_empty,
}
use galene.Base.Dict.{Dict, find, insert, remove}
use galene.Base.Results.{Result, ok, err, ◌>>=◌}

-- `RawPassword` of group/client.go
pub record Password : Type 0 where
  pub type : Text
  pub hash : Text
  pub key : Option Text
  pub salt : Text
  pub iterations : ℕ

-- A set of permissions, which is named or, where the name is empty, listed.
pub record Permissions : Type 0 where
  pub name : Text
  pub permissions : List Text

pub record UserDescription : Type 0 where
  pub password : Password
  pub permissions : Permissions

-- `ClientPattern` of group/client.go
pub record ClientPattern : Type 0 where
  pub username : Text
  pub password : Option Password

-- The fields of `Description` that the server acts on. Times are in nanoseconds; `stamp` is the
-- size and the time of the file. A nil map or slice is an empty one.
pub record Description : Type 0 where
  pub file_name : Text
  pub stamp : ℕ × ℕ
  pub is_subgroup : Bool
  pub description : Text
  pub public : Bool
  pub max_clients : ℕ
  pub max_history_age : ℕ
  pub expires : Option ℕ
  pub not_before : Option ℕ
  pub allow_recording : Bool
  pub unrestricted_tokens : Bool
  pub auto_subgroups : Bool
  pub autolock : Bool
  pub autokick : Bool
  pub users : Dict UserDescription
  pub wildcard_user : Option UserDescription
  pub auth_keys : List Text
  pub op : List ClientPattern
  pub presenter : List ClientPattern
  pub other : List ClientPattern
  pub allow_subgroups : Bool
  pub allow_anonymous : Bool

abbrev pub no_password : Password
no_password = record { type = []; hash = []; key = none; salt = []; iterations = 0 }

abbrev pub no_user : UserDescription
no_user = record { password = no_password; permissions = record { name = []; permissions = [] } }

-- `permissionsMap`
abbrev pub permissions_map : Dict (List Text)
permissions_map =
    (
      bytes "op",
      bytes "op" ∷ bytes "present" ∷ bytes "message" ∷ bytes "caption" ∷ bytes "token" ∷ [],
    )
    ∷ (bytes "present", bytes "present" ∷ bytes "message" ∷ [])
    ∷ (bytes "message", bytes "message" ∷ [])
    ∷ (bytes "observe", [])
    ∷ (bytes "caption", bytes "caption" ∷ [])
    ∷ (bytes "admin", bytes "admin" ∷ [])
    ∷ []

abbrev pub or_empty : Option (List Text) → List Text
or_empty none = []
or_empty (some l) = l

-- `Permissions.Permissions`; the loop sets a flag for each of four names.
unfoldable pub list_permissions : Permissions → Description → List Text
list_permissions p d =
    let perms = or_empty (find p.name permissions_map) in
    let records =
      d.allow_recording && (contains perms (bytes "op") && not (contains perms (bytes "record"))) in
    let tokens =
      d.unrestricted_tokens
      && (contains perms (bytes "present") && not (contains perms (bytes "token"))) in
    let with_record = if records then bytes "record" ∷ perms else perms in
    if same p.name []
    then p.permissions
    else if tokens
    then bytes "token" ∷ with_record
    else with_record

-- `upgradePassword`
pub upgrade_password : Option Password → Password
upgrade_password none = record no_password { type = bytes "wildcard" }
upgrade_password (some p) = p

-- `upgradeUser`
pub upgrade_user : ClientPattern → Text → UserDescription
unfolding upgrade_password
upgrade_user u p = record {
  password = upgrade_password u.password;
  permissions = record { name = p; permissions = [] };
}

-- The first of two that is there.
abbrev pub or_else {ℓ} : {A : Type ℓ} → Option A → Option A → Option A
or_else none o = o
or_else (some a) o = some a

abbrev pub is_some {ℓ} : {A : Type ℓ} → Option A → Bool
is_some none = false
is_some (some a) = true

abbrev pub insert_new : Text → UserDescription → Dict UserDescription → Dict UserDescription
insert_new k v m = if is_some (find k m) then m else insert k v m

-- One round of the loop of `upgradeUsers`: a user that is there already is kept.
pub upgrade_one : Description → ClientPattern → Text → Description
upgrade_one d u p =
    if same u.username []
    then record d { wildcard_user = or_else d.wildcard_user (some (upgrade_user u p)) }
    else record d { users = insert_new u.username (upgrade_user u p) d.users }

-- `upgradeUsers`
pub upgrade_users : Description → List ClientPattern → Text → Description
upgrade_users d [] p = d
upgrade_users d (u ∷ us) p = upgrade_users (upgrade_one d u p) us p

-- `upgradeDescription`
pub upgrade_description : Description → Description
upgrade_description d =
    let fields = record d {
      allow_anonymous = false;
      auto_subgroups = d.auto_subgroups || d.allow_subgroups;
      allow_subgroups = false;
    } in
    let ops = record (upgrade_users fields d.op (bytes "op")) { op = [] } in
    let presenters = record (upgrade_users ops d.presenter (bytes "present")) { presenter = [] } in
    record (upgrade_users presenters d.other (bytes "message")) { other = [] }
