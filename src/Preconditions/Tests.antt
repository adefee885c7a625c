-- ===== src/Preconditions/Tests.antt =====
-- The theorem about webserver/precondition.go at two requests.
use galene.Base.{◌≡◌, refl, true, false, some, [], ◌∷◌, bytes}
use galene.Preconditions.{
  precondition_failed, not_modified, etag_match, check_preconditions, scan_etag,
}
use galene.Preconditions.Missing.{check_preconditions-missing}

second_of_list : etag_match (bytes "W/'a'") (bytes " , W/'b'") ≡ some false
unfolding etag_match scan_etag
second_of_list = refl

-- A list of two ETags, the second of which is the object's.
in_list :
    etag_match
      (0x22 ∷ 0x61 ∷ 0x22 ∷ [])
      (0x22 ∷ 0x62 ∷ 0x22 ∷ 0x2c ∷ 0x20 ∷ 0x22 ∷ 0x61 ∷ 0x22 ∷ [])
    ≡ some true
unfolding etag_match scan_etag
in_list = refl

read_again : check_preconditions (bytes "GET") [] (bytes "*") (bytes "x") ≡ some (some not_modified)
unfolding check_preconditions etag_match
read_again = refl

check_preconditions-missing_example :
    check_preconditions (bytes "PUT") (bytes "*") (bytes "*") [] ≡ some (some precondition_failed)
check_preconditions-missing_example =
    check_preconditions-missing (bytes "PUT") (bytes "*") (bytes "*")
