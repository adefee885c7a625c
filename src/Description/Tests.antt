-- ===== src/Description/Tests.antt =====
-- The theorems about group/description.go at a small description.
use galene.Base.{ℕ, ◌≡◌, refl, true, false, none, some, [], ◌∷◌, if◌then◌else◌, Text, bytes}
use galene.Base.Results.{ok}
use galene.Description.{
  Description, UserDescription, Password, no_password, no_user, upgrade_description, or_else,
}
use galene.Description.Upgrade.{entry, given, upgrade_description-entry}
use galene.Description.Admin.{
  no_description, Storage, rewrite_description_file, update_user, user_of, user_etag, or_none,
}
use galene.Description.Admin.Changes.{
  AllOrNothing, is_same, update_user-user_of, rewrite_description_file-AllOrNothing,
}

abbrev plain : Password
plain = record no_password { type = bytes "plain"; key = some (bytes "secret") }

abbrev alice : UserDescription
alice = record no_user { password = plain }

abbrev old_style : Description
old_style = record no_description {
  users = (bytes "alice", alice) ∷ [];
  op = record { username = bytes "bob"; password = some plain } ∷ [];
  other =
      record { username = []; password = none }
      ∷ record { username = bytes "bob"; password = none }
      ∷ [];
}

upgrade_description-entry_example :
    (entry (upgrade_description old_style) (bytes "bob")
      ≡ or_else (entry old_style (bytes "bob")) (
          or_else (given old_style.op (bytes "op") (bytes "bob")) (
            or_else
              (given old_style.presenter (bytes "present") (bytes "bob"))
              (given old_style.other (bytes "message") (bytes "bob")))))
    × ((upgrade_description old_style).op ≡ [])
    × ((upgrade_description old_style).presenter ≡ [])
    × ((upgrade_description old_style).other ≡ [])
upgrade_description-entry_example = upgrade_description-entry old_style (bytes "bob")

abbrev full_disk : Storage
full_disk = record {
  writable = ok true;
  mkdir = none;
  create = none;
  encode = some 28;
  close = none;
  rename = none;
  remove = some 5;
}

rewrite_description_file-AllOrNothing_example :
    AllOrNothing
      (some 5)
      (some old_style)
      no_description
      (rewrite_description_file full_disk (some old_style) no_description)
rewrite_description_file-AllOrNothing_example =
    rewrite_description_file-AllOrNothing full_disk (some old_style) no_description

-- An ETag with one byte for the size and one for the time.
abbrev make_etag : ℕ × ℕ → Text
make_etag s = b'"' ∷ s.0 ∷ s.1 ∷ []

abbrev promoted : UserDescription
promoted = record no_user { permissions = record { name = bytes "op"; permissions = [] } }

abbrev after : Description
after = record old_style { users = (bytes "alice", record promoted { password = plain }) ∷ [] }

alice_promoted :
    update_user make_etag (ok old_style) (bytes "alice") false (b'"' ∷ 0 ∷ 0 ∷ []) promoted
    ≡ ok after
unfolding update_user
alice_promoted = refl

update_user-user_of_example :
    (user_etag make_etag old_style (user_of old_style (bytes "alice") false) ≡ b'"' ∷ 0 ∷ 0 ∷ [])
    × (user_of after (bytes "alice") false ≡ (
        if is_same (bytes "alice") false (bytes "alice") false
        then some (record promoted {
          password = (or_none (user_of old_style (bytes "alice") false)).password;
        })
        else user_of old_style (bytes "alice") false))
update_user-user_of_example =
    update_user-user_of make_etag old_style after (bytes "alice") false (b'"' ∷ 0 ∷ 0 ∷ []) promoted
      (bytes "alice") false alice_promoted
