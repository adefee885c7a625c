-- ===== src/Description/Admin.antt =====
-- group/description.go: the calls that change a description in its file. Each reads the file, checks
-- the caller's ETag, and writes the file anew, under the lock of all groups.
pub mod Changes
use galene.Base.{
  ℕ, Bool, true, false, not, ◌&&◌, ◌||◌, Option, none, some, List, [], ◌∷◌, if◌then◌else◌, Text,
  same, non_empty,
}
use galene.Base.Dict.{Dict, find, insert, remove}
use galene.Base.Results.{Result, ok, err, ◌>>=◌}
use galene.Description.{
  Description, UserDescription, Password, Permissions, upgrade_description, no_user, is_some,
}

-- The errors; `other` is any that comes from a library.
pub data Failure : Type 0 where
  not_exist : Failure
  tag_mismatch : Failure
  not_writable : Failure
  not_sanitised : Failure
  wildcard_with_username : Failure
  other : ℕ → Failure

-- What the library calls of `rewriteDescriptionFile` return: the configuration's `WritableGroups`,
-- and the errors of `MkdirAll`, `CreateTemp`, `Encode` or `Sync`, `Close`, `Rename` and `Remove`.
pub record Storage : Type 0 where
  pub writable : Result Failure Bool
  pub mkdir : Option ℕ
  pub create : Option ℕ
  pub encode : Option ℕ
  pub close : Option ℕ
  pub rename : Option ℕ
  pub remove : Option ℕ

-- What the description's file and the temporary file hold, and the error; a temporary file that is
-- empty or half written is `no_description`.
pub record Disk : Type 0 where
  pub file : Option Description
  pub temp : Option Description
  pub failure : Option Failure

abbrev pub no_description : Description
no_description = record {
  file_name = [];
  stamp = (0, 0);
  is_subgroup = false;
  description = [];
  public = false;
  max_clients = 0;
  max_history_age = 0;
  expires = none;
  not_before = none;
  allow_recording = false;
  unrestricted_tokens = false;
  auto_subgroups = false;
  autolock = false;
  autokick = false;
  users = [];
  wildcard_user = none;
  auth_keys = [];
  op = [];
  presenter = [];
  other = [];
  allow_subgroups = false;
  allow_anonymous = false;
}

abbrev fail : Disk → ℕ → Disk
fail k e = record k { failure = some (other e) }

-- `os.Remove(temp)`, whose error is ignored.
abbrev pub remove_temp : Option ℕ → Disk → Disk
remove_temp none k = record k { temp = none }
remove_temp (some e) k = k

-- From `Encode` on, when the temporary file is there; `m` is the error of `Remove`.
abbrev pub finish : Option ℕ → Option ℕ → Option ℕ → Option ℕ → Disk → Description → Disk
finish (some e) c r m k d = remove_temp m (fail k e)
finish none (some e) r m k d = remove_temp m (fail (record k { temp = some d }) e)
finish none none (some e) m k d = remove_temp m (fail (record k { temp = some d }) e)
finish none none none m k d = record k { file = some d; temp = none }

abbrev pub prepare : Option ℕ → Option ℕ → Storage → Disk → Description → Disk
prepare (some e) c s k d = fail k e
prepare none (some e) s k d = fail k e
prepare none none s k d =
    finish s.encode s.close s.rename s.remove (record k { temp = some no_description }) d

abbrev pub permitted : Result Failure Bool → Storage → Disk → Description → Disk
permitted (err e) s k d = record k { failure = some e }
permitted (ok false) s k d = record k { failure = some not_writable }
permitted (ok true) s k d = prepare s.mkdir s.create s k d

-- `rewriteDescriptionFile`
pub rewrite_description_file : Storage → Option Description → Description → Disk
rewrite_description_file s old d =
    permitted s.writable s (record { file = old; temp = none; failure = none }) d

-- `readDescription` of a file that decodes to `d`, with its name and stamp.
pub read_description : Description → Bool → Result Failure Description
read_description d is_subgroup =
    let u = upgrade_description d in
    if is_subgroup
    then if not u.auto_subgroups
      then err not_exist
      else ok (record u { is_subgroup = true; public = false; description = [] })
    else ok u

-- The entry of a user, or of the wildcard user.
abbrev pub user_of : Description → Text → Bool → Option UserDescription
user_of d username wildcard = if wildcard then d.wildcard_user else find username d.users

abbrev pub put_user : Description → Text → Bool → UserDescription → Description
put_user d username wildcard u =
    if wildcard
    then record d { wildcard_user = some u }
    else record d { users = insert username u d.users }

abbrev pub drop_user : Description → Text → Bool → Description
drop_user d username wildcard =
    if wildcard
    then record d { wildcard_user = none }
    else record d { users = remove username d.users }

abbrev pub or_none : Option UserDescription → UserDescription
or_none none = no_user
or_none (some u) = u

-- `SetUserPassword`
pub set_user_password :
    Result Failure Description → Text → Bool → Password → Result Failure Description
set_user_password file username wildcard pw =
    if wildcard && not (same username [])
    then err wildcard_with_username
    else file >>= λ d. elim (user_of d username wildcard) [
      | none ↦ err not_exist
      | some u ↦ ok (put_user d username wildcard (record u { password = pw }))
    ]

-- The calls that check an ETag, which `makeETag` makes of the file's size and time.
module _ (make_etag : ℕ × ℕ → Text) where
  -- The ETag of an entry: empty if there is none.
  abbrev pub user_etag : Description → Option UserDescription → Text
  user_etag d none = []
  user_etag d (some u) = make_etag d.stamp

  -- `UpdateUser`
  unfoldable pub update_user :
      Result Failure Description → Text → Bool → Text → UserDescription → Result Failure Description
  update_user file username wildcard etag user =
      if wildcard && not (same username [])
      then err wildcard_with_username
      else if not (same user.password.type []) || is_some user.password.key
      then err not_sanitised
      else file >>= λ d.
          let old = user_of d username wildcard in
          if same (user_etag d old) etag
          then ok (put_user d username wildcard (record user { password = (or_none old).password }))
          else err tag_mismatch

  -- `DeleteUser`
  pub delete_user : Result Failure Description → Text → Bool → Text → Result Failure Description
  delete_user file username wildcard etag =
      if wildcard && not (same username [])
      then err wildcard_with_username
      else file >>= λ d.
          if not (is_some (user_of d username wildcard))
          then err not_exist
          else if same (make_etag d.stamp) etag
          then ok (drop_user d username wildcard)
          else err tag_mismatch

  -- `GetSanitisedUser`
  pub get_sanitised_user :
      Result Failure Description → Text → Bool → Result Failure (UserDescription × Text)
  get_sanitised_user file username wildcard =
      if wildcard && not (same username [])
      then err wildcard_with_username
      else file >>= λ d. elim (user_of d username wildcard) [
        | none ↦ err not_exist
        | some u ↦ ok (record u { password = no_user.password }, make_etag d.stamp)
      ]

  -- `UpdateDescription`; `is_sanitised` says that the new description's users, wildcard user and
  -- keys are nil, and `not_exist` is the error for a file that is to be made.
  pub update_description :
      Result Failure Description → Text → Bool → Description → Result Failure Description
  update_description file etag is_sanitised d =
      if not is_sanitised then err not_sanitised else elim file [
        | ok old ↦
            if same (make_etag old.stamp) etag
            then ok (record d {
              users = old.users;
              wildcard_user = old.wildcard_user;
              auth_keys = old.auth_keys;
            })
            else err tag_mismatch
        | err not_exist ↦ if same [] etag then ok d else err tag_mismatch
        | err e ↦ err e
      ]

  -- `GetSanitisedDescription`
  pub get_sanitised_description : Result Failure Description → Result Failure (Description × Text)
  get_sanitised_description file = file >>= λ d.
      if d.is_subgroup
      then err not_exist
      else ok (record d { users = []; wildcard_user = none; auth_keys = [] }, make_etag d.stamp)

  -- `DeleteDescription`: whether the file may be removed.
  pub delete_description : Result Failure (ℕ × ℕ) → Text → Result Failure (Unit {0})
  delete_description stat etag =
      stat >>= λ s. if same etag (make_etag s) then ok tt else err tag_mismatch

-- `SetKeys`, with keys that parse.
pub set_keys : Result Failure Description → List Text → Result Failure Description
set_keys file keys = file >>= λ d. ok (record d { auth_keys = keys })
