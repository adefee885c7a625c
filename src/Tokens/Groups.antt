-- ===== src/Tokens/Groups.antt =====
-- The groups for which a token is good: the two kinds of token agree.
use galene.Base.{
  ◌≡◌, refl, sym, inl, inr, Bool, true, false, ◌||◌, [], ◌∷◌, ◌++◌, arith, if◌then◌else◌, Text,
  same, bytes, has_prefix, same_sym, Bool-cases,
}
use galene.Tokens.{Stateful, match_stateful, match_group, ends_in_slash}

has_prefix-append : (s p q : Text) → has_prefix (p ++ s) (p ++ q) ≡ has_prefix s q
has_prefix-append s [] q = refl
has_prefix-append s (c ∷ p) q = ground (arith, has_prefix-append s p q)

has_prefix_refl : (s : Text) → has_prefix s s ≡ true
has_prefix_refl [] = refl
has_prefix_refl (c ∷ s) = ground (arith, has_prefix_refl s)

-- A directory is inside another, or the same.
has_prefix-slash :
    (s g : Text)
    → has_prefix (s ++ 0x2f ∷ []) (g ++ 0x2f ∷ []) ≡ (same s g || has_prefix s (g ++ 0x2f ∷ []))
has_prefix-slash [] [] = refl
has_prefix-slash [] (c ∷ []) = ground arith
has_prefix-slash [] (c ∷ d ∷ g) = ground arith
has_prefix-slash (b ∷ s) [] = refl
has_prefix-slash (b ∷ s) (c ∷ g) = ground (arith, has_prefix-slash s g)

ends_in_slash-append : (s : Text) → ends_in_slash (s ++ 0x2f ∷ []) ≡ true
ends_in_slash-append [] = refl
ends_in_slash-append (c ∷ []) = refl
ends_in_slash-append (c ∷ d ∷ s) = ends_in_slash-append (d ∷ s)

same-slash : (s g : Text) → same (s ++ 0x2f ∷ []) (g ++ 0x2f ∷ []) ≡ same s g
same-slash [] [] = refl
same-slash [] (c ∷ []) = ground arith
same-slash [] (c ∷ d ∷ g) = ground arith
same-slash (b ∷ []) [] = ground arith
same-slash (b ∷ d ∷ s) [] = ground arith
same-slash (b ∷ s) (c ∷ g) = ground (arith, same-slash s g)

if_itself : (b : Bool) → (if b then true else false) ≡ b
if_itself true = refl
if_itself false = refl

-- A JSON Web Token for the path "/group/g/" is good for the same groups as a stateful token for the
-- group `g`, with its subgroups or without, where neither name is empty.
match_group-match_stateful :
    (t : Stateful) (group : Text)
    → same group [] ≡ false
    → same t.group [] ≡ false
    → match_group (bytes "/group/" ++ (t.group ++ bytes "/")) group t.include_subgroups
      ≡ match_stateful t group
unfolding match_group match_stateful
match_group-match_stateful t group e f =
    let swap = same_sym t.group group in
    let ends = ends_in_slash-append (bytes "/group/" ++ t.group) in
    elim (Bool-cases t.include_subgroups) [
      | inl i ↦
          rw (e, f, i, ends, has_prefix-slash group t.group)
            (elim (Bool-cases (same group t.group)) [ inl h ↦ rw h refl | inr h ↦ rw h refl ])
      | inr i ↦ rw (e, i, same-slash t.group group, swap) (sym (if_itself (same group t.group)))
    ]
