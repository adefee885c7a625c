-- ===== src/Preconditions/Missing.antt =====
-- webserver/precondition.go: the loop ends, and an object that is not there matches nothing.
use galene.Base.{
  ℕ, zero, suc, ◌+◌, ◌≤◌, ◌<◌, ◌≡◌, refl, sym, ap, Bool, true, false, not, ◌&&◌, Option, none, some,
  [], ◌∷◌, if◌then◌else◌, arith, ◌==◌, length, Text, same, bytes, has_prefix, drop, Returns,
  Returns-branch, Returns->>=, length-drop,
}
use galene.Preconditions.{
  trim_left, is_etag_char, in_front, scan_chars, scan_quoted, or_nothing, scan_trimmed, scan_etag,
  match_next, match_loop, etag_match, Response, precondition_failed, check_preconditions,
}

length-trim_left : (s : Text) → length (trim_left s) ≤ length s
length-trim_left [] = omega arith
length-trim_left (c ∷ s) = let rest = length-trim_left s in ground arith

-- What follows an ETag is shorter than the text.
abbrev Shorter : ℕ → Option (Text × Text) → Type 0
Shorter n none = Unit
Shorter n (some (e, remain)) = length remain < n

in_front-Shorter :
    (c n : ℕ) (r : Option (Text × Text)) → Shorter n r → Shorter (suc n) (in_front c r)
in_front-Shorter c n none h = tt
in_front-Shorter c n (some (e, remain)) h = omega arith

Shorter-branch :
    (b : Bool) (n : ℕ) (x y : Option (Text × Text))
    → Shorter n x
    → Shorter n y
    → Shorter n (if b then x else y)
Shorter-branch true n x y h k = h
Shorter-branch false n x y h k = k

scan_chars-Shorter : (s : Text) → Shorter (length s) (scan_chars s)
scan_chars-Shorter [] = tt
scan_chars-Shorter (c ∷ s) =
    Shorter-branch (is_etag_char c) (length (c ∷ s)) _ _
      (in_front-Shorter c (length s) (scan_chars s) (scan_chars-Shorter s))
      (Shorter-branch (c == 0x22) (length (c ∷ s)) (some (c ∷ [], s)) none (omega arith) tt)

scan_quoted-Shorter : (s : Text) → Shorter (length s) (scan_quoted s)
scan_quoted-Shorter [] = tt
scan_quoted-Shorter (q ∷ []) = tt
scan_quoted-Shorter (q ∷ c ∷ s) =
    Shorter-branch (not (q == 0x22)) (length (q ∷ c ∷ s)) none _ tt
      (in_front-Shorter q (length (c ∷ s)) (scan_chars (c ∷ s)) (scan_chars-Shorter (c ∷ s)))

Shorter-mono : (m n : ℕ) (r : Option (Text × Text)) → m ≤ n → Shorter m r → Shorter n r
Shorter-mono m n none h k = tt
Shorter-mono m n (some (e, remain)) h k = omega arith

-- An ETag that has been found leaves less of the header.
abbrev Consumes : ℕ → Text × Text → Type 0
Consumes n (e, remain) = same e [] ≡ false → length remain < n

or_nothing-Consumes : (n : ℕ) (r : Option (Text × Text)) → Shorter n r → Consumes n (or_nothing r)
or_nothing-Consumes n none h = λ e. cc
or_nothing-Consumes n (some (e, remain)) h = λ f. h

in_front-keeps : (c n : ℕ) (r : Option (Text × Text)) → Shorter n r → Shorter n (in_front c r)
in_front-keeps c n none h = tt
in_front-keeps c n (some (e, remain)) h = h

Consumes-branch :
    (b : Bool) (n : ℕ) (x y : Text × Text)
    → Consumes n x
    → Consumes n y
    → Consumes n (if b then x else y)
Consumes-branch true n x y h k = h
Consumes-branch false n x y h k = k

scan_trimmed-Consumes : (s : Text) → Consumes (length s) (scan_trimmed s)
scan_trimmed-Consumes s =
    let weak = in_front 0x57 (in_front 0x2f (scan_quoted (drop 2 s))) in
    let fewer : length (drop 2 s) ≤ length s = omega (arith, length-drop 2 s) in
    let after = Shorter-mono _ (length s) _ fewer (scan_quoted-Shorter (drop 2 s)) in
    Consumes-branch (has_prefix s (bytes "W/")) (length s) _ _
      (or_nothing-Consumes (length s) weak
        (in_front-keeps 0x57 (length s) _ (in_front-keeps 0x2f (length s) _ after)))
      (or_nothing-Consumes (length s) (scan_quoted s) (scan_quoted-Shorter s))

Consumes-mono : (m n : ℕ) (r : Text × Text) → m ≤ n → Consumes m r → Consumes n r
Consumes-mono m n (e, remain) h k = λ f. let a = k f in omega arith

scan_etag-Consumes : (s : Text) → Consumes (length s) (scan_etag s)
unfolding scan_etag
scan_etag-Consumes s =
    Consumes-mono (length (trim_left s)) (length s) _ (length-trim_left s)
      (scan_trimmed-Consumes (trim_left s))

-- An answer that is not true where there is no object.
abbrev Careful : Text → Bool → Type 0
Careful etag b = same etag [] ≡ true → b ≡ false

careful_not : (b : Bool) → b ≡ true → not b ≡ false
careful_not true h = refl
careful_not false h = cc

same_nothing :
    (e etag : Text) → same e [] ≡ false → same e etag ≡ true → same etag [] ≡ true → true ≡ false
same_nothing [] etag h k l = h
same_nothing (x ∷ e) [] h k l = sym k
same_nothing (x ∷ e) (y ∷ etag) h k l = sym l

match_scanned :
    (again : Text → Option Bool) (etag : Text) (n : ℕ) (r : Text × Text)
    → Consumes n r
    → ((s : Text) → length s < n → Returns (Careful etag) (again s))
    → Returns
        (Careful etag)
        (if same r.0 [] then some false else if same r.0 etag then some true else again r.1)
match_scanned again etag n (e, remain) h k =
    Returns-branch (Careful etag) (same e []) _ _ (λ _ _. refl)
      (λ f.
        Returns-branch (Careful etag) (same e etag) _ _ (λ g. same_nothing e etag f g)
          (λ _. k remain (h f)))

match_next-Careful :
    (again : Text → Option Bool) (etag header : Text)
    → ((s : Text) → length s < length header → Returns (Careful etag) (again s))
    → Returns (Careful etag) (match_next again etag header)
match_next-Careful again etag [] h = λ _. refl
match_next-Careful again etag (c ∷ header) h =
    Returns-branch (Careful etag) (c == 0x2c) _ _ (λ _. h header (omega arith))
      (λ _.
        Returns-branch (Careful etag) (c == 0x2a) _ _ (λ _. careful_not (same etag []))
          (λ _.
            match_scanned again etag (length (c ∷ header)) (scan_etag (c ∷ header))
              (scan_etag-Consumes (c ∷ header)) h))

match_loop-Careful :
    (fuel : ℕ) (etag header : Text)
    → length header < fuel
    → Returns (Careful etag) (match_loop fuel etag header)
match_loop-Careful zero etag header h = absurd (omega arith)
match_loop-Careful (suc fuel) etag header h =
    match_next-Careful (match_loop fuel etag) etag (trim_left header)
      (λ s k. let fewer = length-trim_left header in match_loop-Careful fuel etag s (omega arith))

-- `etagMatch` returns, and does not match an object that is not there.
pub etag_match-Careful : (etag header : Text) → Returns (Careful etag) (etag_match etag header)
unfolding etag_match
etag_match-Careful etag header =
    Returns-branch (Careful etag) (same header []) _ _ (λ _ _. refl)
      (λ f.
        Returns-branch (Careful etag) (same header etag) _ _ (λ g. same_nothing header etag f g)
          (λ _. match_loop-Careful (length header + 1) etag header (omega arith)))

nothing_found :
    (p q : Bool) (x : Option Response)
    → (if not p && true then some precondition_failed else if not q && false then x else none)
      ≡ (if p then none else some precondition_failed)
nothing_found true true x = refl
nothing_found true false x = refl
nothing_found false q x = refl

-- `checkPreconditions` returns for every request, and what it answers on an object that is not there.
check_preconditions-Careful :
    (method if_match if_none_match etag : Text)
    → Returns
        (λ r.
          same etag [] ≡ true → r ≡ (if same if_match [] then none else some precondition_failed))
        (check_preconditions method if_match if_none_match etag)
unfolding check_preconditions
check_preconditions-Careful method if_match if_none_match etag =
    Returns->>= (Careful etag) _ (etag_match etag if_match) _ (etag_match-Careful etag if_match)
      (λ a h.
        Returns->>= (Careful etag) _ (etag_match etag if_none_match) _
          (etag_match-Careful etag if_none_match)
          (λ b k e. rw (h e, k e) (nothing_found (same if_match []) (same if_none_match []) _)))

returned :
    {A : Type 0} (C : Type 0) (x : A) (o : Option A) → C → Returns (λ r. C → r ≡ x) o → o ≡ some x
returned C x none c h = absurd h
returned C x (some a) c h = ap some (h c)

-- On an object that is not there, `checkPreconditions` returns for every request, its loops included:
-- a request fails if it has If-Match, and goes on if it has not, whatever If-None-Match says.
pub check_preconditions-missing :
    (method if_match if_none_match : Text)
    → check_preconditions method if_match if_none_match []
      ≡ some (if same if_match [] then none else some precondition_failed)
check_preconditions-missing method if_match if_none_match =
    returned (same [] [] ≡ true) _ _ refl
      (check_preconditions-Careful method if_match if_none_match [])
