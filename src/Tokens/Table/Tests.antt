-- ===== src/Tokens/Table/Tests.antt =====
-- The theorems about the table of tokens, with a table of two tokens.
use galene.Base.{
  ℕ, ◌≡◌, refl, Bool, true, false, Option, none, some, List, [], ◌∷◌, if◌then◌else◌, Text, bytes,
  Unless,
}
use galene.Base.Results.{ok, err}
use galene.Tokens.{Stateful}
use galene.Tokens.Table.{
  File, State, Table, Reading, Writing, list, load, update, rewrite, get, or_empty, not_exist,
}
use galene.Tokens.Table.Changes.{Changed, update-Changed, update_panics}

abbrev token_for : Text → Text → Option ℕ → Stateful
token_for token group expires = record {
  token = token;
  group = group;
  include_subgroups = false;
  username = none;
  permissions = bytes "present" ∷ [];
  expires = expires;
  not_before = none;
  issued_at = none;
  issued_by = none;
}

abbrev insert_sorted : (Stateful → Stateful → Bool) → Stateful → List Stateful → List Stateful
insert_sorted before t [] = t ∷ []
insert_sorted before t (u ∷ us) =
    let rest = insert_sorted before t us in if before u t then u ∷ rest else t ∷ u ∷ us

abbrev sort : (Stateful → Stateful → Bool) → List Stateful → List Stateful
sort before [] = []
sort before (t ∷ ts) = insert_sorted before t (sort before ts)

abbrev make_etag : ℕ × ℕ → Text
make_etag (size, time) = size ∷ time ∷ []

abbrev first_token : Stateful
first_token = token_for (bytes "a") (bytes "g") (some 90)

abbrev second_token : Stateful
second_token = token_for (bytes "b") (bytes "g") (some 30)

abbrev newer_token : Stateful
newer_token = token_for (bytes "a") (bytes "h") (some 20)

abbrev disk : Option File
disk = some (record { contents = some (first_token ∷ second_token ∷ []); stamp = (200, 7) })

abbrev state : State
state = record { named = true; file_size = 0; mod_time = 0; tokens = none }

abbrev table : Table
table = record { state = state; disk = disk }

abbrev reading : Reading
reading = record { stat = none; opening = none; restat = none }

abbrev writing : Writing
writing = record {
  mkdir = none;
  opening = none;
  encode = none;
  partly = some (first_token ∷ second_token ∷ []);
  remove = none;
  create = none;
  close = none;
  rename = none;
  stat = none;
  stamp = (201, 9);
}

-- The file after `Update` has replaced the first token, sorted by the times at which they expire.
replaced :
    update make_etag sort reading reading writing table newer_token (make_etag (200, 7))
    ≡ some (
      record {
        state = record {
          named = true;
          file_size = 201;
          mod_time = 9;
          tokens = some ((bytes "a", newer_token) ∷ (bytes "b", second_token) ∷ []);
        };
        disk =
            some (record { contents = some (newer_token ∷ second_token ∷ []); stamp = (201, 9) });
      },
      ok newer_token,
    )
unfolding update load rewrite list
replaced = refl

missing : (get make_etag sort reading table (bytes "c")).1 ≡ err not_exist
unfolding get load
missing = refl

update-Changed_example :
    Unless false
      (Changed make_etag sort writing disk
        (or_empty (load make_etag sort reading disk state).0.tokens)
        newer_token)
      (update make_etag sort reading reading writing table newer_token (make_etag (200, 7)))
update-Changed_example =
    update-Changed make_etag sort reading reading writing table newer_token (make_etag (200, 7))
      refl

update_panics_example :
    update make_etag sort reading
      (record reading { stat = some 5 })
      writing
      (record {
        state = record state {
          file_size = 200;
          mod_time = 7;
          tokens = some ((bytes "a", first_token) ∷ []);
        };
        disk = disk;
      })
      newer_token
      (make_etag (200, 7))
    ≡ none
update_panics_example =
    update_panics make_etag sort reading (record reading { stat = some 5 }) writing disk
      (record state { file_size = 200; mod_time = 7 }) ((bytes "a", first_token) ∷ []) newer_token
      first_token 5 (refl, refl) refl refl refl refl refl
