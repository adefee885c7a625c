-- ===== src/Description/Admin/Changes.antt =====
-- What the administrative calls of group/description.go change, and what they leave alone.
use galene.Base.{
  ℕ, ◌≡◌, ◌≢◌, refl, sym, ap, ◌∙◌, ◌⊎◌, inl, inr, Bool, true, false, not, ◌&&◌, ◌||◌, Option, none,
  some, [], if◌then◌else◌, Text, same, same_iff,
}
use galene.Base.Dict.{find-insert, find-remove}
use galene.Base.Results.{Result, ok, err}
use galene.Description.{Description, UserDescription, is_some}
use galene.Description.Admin.{
  remove_temp, Failure, Storage, Disk, rewrite_description_file, permitted, prepare, finish,
  update_user, user_of, put_user, drop_user, or_none, user_etag,
}

-- The two names, each of a user or of the wildcard user, mean the same entry.
abbrev pub is_same : Text → Bool → Text → Bool → Bool
is_same u true v true = true
is_same u true v false = false
is_same u false v true = false
is_same u false v false = same u v

user_of-put_user :
    (d : Description) (u : Text) (w : Bool) (x : UserDescription) (v : Text) (z : Bool)
    → user_of (put_user d u w x) v z ≡ (if is_same u w v z then some x else user_of d v z)
user_of-put_user d u true x v true = refl
user_of-put_user d u true x v false = refl
user_of-put_user d u false x v true = refl
user_of-put_user d u false x v false = find-insert u v x d.users

user_of-drop_user :
    (d : Description) (u : Text) (w : Bool) (v : Text) (z : Bool)
    → user_of (drop_user d u w) v z ≡ (if is_same u w v z then none else user_of d v z)
user_of-drop_user d u true v true = refl
user_of-drop_user d u true v false = refl
user_of-drop_user d u false v true = refl
user_of-drop_user d u false v false = find-remove u v d.users

-- Either the file has been replaced, or an error leaves it as it was; a temporary file is left only
-- where there is an error and `Remove` fails too.
abbrev pub AllOrNothing : Option ℕ → Option Description → Description → Disk → Type 0
AllOrNothing m old d k =
    ((k.temp ≡ none) ⊎ ((m ≢ none) × (k.failure ≢ none)))
    × (((k.failure ≡ none) × (k.file ≡ some d)) ⊎ ((k.failure ≢ none) × (k.file ≡ old)))

remove_temp-AllOrNothing :
    (m : Option ℕ) (old : Option Description) (d : Description) (t : Option Description)
    (e : Failure)
    → AllOrNothing m old d (remove_temp m (record { file = old; temp = t; failure = some e }))
remove_temp-AllOrNothing none old d t e = (inl refl, inr (λ h. cc, refl))
remove_temp-AllOrNothing (some m) old d t e = (inr (λ h. cc, λ h. cc), inr (λ h. cc, refl))

finish-AllOrNothing :
    (e c r m : Option ℕ) (old : Option Description) (d t : Description)
    → AllOrNothing m old d (finish e c r m (record { file = old; temp = some t; failure = none }) d)
finish-AllOrNothing (some e) c r m old d t = remove_temp-AllOrNothing m old d _ _
finish-AllOrNothing none (some c) r m old d t = remove_temp-AllOrNothing m old d _ _
finish-AllOrNothing none none (some r) m old d t = remove_temp-AllOrNothing m old d _ _
finish-AllOrNothing none none none m old d t = (inl refl, inl (refl, refl))

prepare-AllOrNothing :
    (m c : Option ℕ) (s : Storage) (old : Option Description) (d : Description)
    → AllOrNothing s.remove old d
        (prepare m c s (record { file = old; temp = none; failure = none }) d)
prepare-AllOrNothing (some m) c s old d = (inl refl, inr (λ h. cc, refl))
prepare-AllOrNothing none (some c) s old d = (inl refl, inr (λ h. cc, refl))
prepare-AllOrNothing none none s old d =
    finish-AllOrNothing s.encode s.close s.rename s.remove old d _

permitted-AllOrNothing :
    (p : Result Failure Bool) (s : Storage) (old : Option Description) (d : Description)
    → AllOrNothing s.remove old d
        (permitted p s (record { file = old; temp = none; failure = none }) d)
permitted-AllOrNothing (err e) s old d = (inl refl, inr (λ h. cc, refl))
permitted-AllOrNothing (ok false) s old d = (inl refl, inr (λ h. cc, refl))
permitted-AllOrNothing (ok true) s old d = prepare-AllOrNothing s.mkdir s.create s old d

-- `rewriteDescriptionFile` is atomic: whatever the library calls return, either there is no error
-- and the file holds the new description, or there is an error and the file is as it was. A
-- temporary file is left only if there is an error and `os.Remove` fails.
pub rewrite_description_file-AllOrNothing :
    (s : Storage) (old : Option Description) (d : Description)
    → AllOrNothing s.remove old d (rewrite_description_file s old d)
unfolding rewrite_description_file
rewrite_description_file-AllOrNothing s old d = permitted-AllOrNothing s.writable s old d

-- A chain of checks that has passed.
passed :
    {A : Type 0} (a b c : Bool) (x y : A) (e f g : Failure)
    → (if a then err e else if b then err f else if c then ok x else err g) ≡ ok y
    → (a ≡ false) × (b ≡ false) × (c ≡ true) × (x ≡ y)
passed true b c x y e f g h = cc
passed false true c x y e f g h = cc
passed false false true x y e f g h = (refl, refl, refl, cc)
passed false false false x y e f g h = cc

module _ (make_etag : ℕ × ℕ → Text) where
  -- When `UpdateUser` writes, the ETag was that of the entry (empty for a new one). It gives the
  -- entry the new permissions, keeps its password (none for a new one), and leaves every other entry
  -- alone.
  pub update_user-user_of :
      (d d' : Description) (u : Text) (w : Bool) (etag : Text) (user : UserDescription) (v : Text)
      (z : Bool)
      → update_user make_etag (ok d) u w etag user ≡ ok d'
      → (user_etag make_etag d (user_of d u w) ≡ etag)
        × (user_of d' v z ≡ (
            if is_same u w v z
            then some (record user { password = (or_none (user_of d u w)).password })
            else user_of d v z))
  unfolding update_user
  update_user-user_of d d' u w etag user v z h =
      let old = user_of d u w in
      let x = record user { password = (or_none old).password } in
      let f : (same (user_etag make_etag d old) etag ≡ true) × (put_user d u w x ≡ d') =
        (let (p, q, r, e) =
            passed (w && not (same u []))
              (not (same user.password.type []) || is_some user.password.key)
              (same (user_etag make_etag d old) etag) (put_user d u w x) d' _ _ _ h in
          (r, e)) in
      ((same_iff _ _).0 f.0, ap (λ t. user_of t v z) (sym f.1) ∙ user_of-put_user d u w x v z)
