-- ===== src/Preconditions.antt =====
-- webserver/precondition.go: the headers If-Match and If-None-Match of a request, against the ETag of
-- the object, which is empty if there is none. `none` is a loop that is out of fuel.
pub mod Missing
mod Tests
use galene.Base.{
  ℕ, zero, suc, ◌+◌, Bool, true, false, not, ◌&&◌, ◌||◌, Option, none, some, List, [], ◌∷◌,
  if◌then◌else◌, leb, ◌==◌, ◌>>=◌, length, Text, same, bytes, has_prefix, drop,
}

abbrev pub is_space : ℕ → Bool
is_space c = c == 0x20 || (c == 0x09 || (c == 0x0a || c == 0x0d))

-- `strings.TrimLeft(s, " \t\n\r")`
abbrev pub trim_left : Text → Text
trim_left [] = []
trim_left (c ∷ s) = let rest = trim_left s in if is_space c then rest else c ∷ s

-- The characters of an ETag between its quotes.
abbrev pub is_etag_char : ℕ → Bool
is_etag_char c = c == 0x21 || (leb 0x23 c && leb c 0x7e || leb 0x80 c)

abbrev pub in_front : ℕ → Option (Text × Text) → Option (Text × Text)
in_front c none = none
in_front c (some (e, remain)) = some (c ∷ e, remain)

-- The loop of `scanETag`, after the first quote: the ETag up to the second one, and what follows.
abbrev pub scan_chars : Text → Option (Text × Text)
scan_chars [] = none
scan_chars (c ∷ s) =
    let rest = scan_chars s in
    if is_etag_char c then in_front c rest else if c == 0x22 then some (c ∷ [], s) else none

-- `s[start:]` of at least two bytes, the first of which is a quote.
abbrev pub scan_quoted : Text → Option (Text × Text)
scan_quoted [] = none
scan_quoted (q ∷ []) = none
scan_quoted (q ∷ c ∷ s) = if not (q == 0x22) then none else in_front q (scan_chars (c ∷ s))

abbrev pub or_nothing : Option (Text × Text) → Text × Text
or_nothing none = ([], [])
or_nothing (some r) = r

abbrev pub scan_trimmed : Text → Text × Text
scan_trimmed s =
    if has_prefix s (bytes "W/")
    then or_nothing (in_front 0x57 (in_front 0x2f (scan_quoted (drop 2 s))))
    else or_nothing (scan_quoted s)

-- `scanETag`
unfoldable pub scan_etag : Text → Text × Text
scan_etag s = scan_trimmed (trim_left s)

-- One round of the loop of `etagMatch`, on a header without spaces in front.
abbrev pub match_next : (Text → Option Bool) → Text → Text → Option Bool
match_next again etag [] = some false
match_next again etag (c ∷ header) =
    if c == 0x2c
    then again header
    else if c == 0x2a
    then some (not (same etag []))
    else let (e, remain) = scan_etag (c ∷ header) in
      if same e [] then some false else if same e etag then some true else again remain

abbrev pub match_loop : ℕ → Text → Text → Option Bool
match_loop zero etag header = none
match_loop (suc fuel) etag header = match_next (match_loop fuel etag) etag (trim_left header)

-- `etagMatch`
unfoldable pub etag_match : Text → Text → Option Bool
etag_match etag header =
    if same header []
    then some false
    else if same header etag
    then some true
    else match_loop (length header + 1) etag header

-- The response, where `checkPreconditions` writes one.
pub data Response : Type 0 where
  not_modified : Response
  precondition_failed : Response

-- `checkPreconditions`, of the method, the two headers and the ETag; an absent header is empty.
unfoldable pub check_preconditions : Text → Text → Text → Text → Option (Option Response)
check_preconditions method if_match if_none_match etag = etag_match etag if_match >>= λ matches.
    etag_match etag if_none_match >>= λ found. some (
      if not (same if_match []) && not matches
      then some precondition_failed
      else if not (same if_none_match []) && found
      then (if same method (bytes "GET") || same method (bytes "HEAD")
          then some not_modified
          else some precondition_failed)
      else none)
