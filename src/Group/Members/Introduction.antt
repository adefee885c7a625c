-- ===== src/Group/Members/Introduction.antt =====
-- What the clients of a group hear when another one joins.
use mathlib.Core.Path.{subst}
use galene.Base.{
  ℕ, ◌≡◌, refl, sym, ap, ◌∙◌, inl, inr, true, false, ◌==◌, Option, none, some, List, [], ◌∷◌, ◌++◌,
  arith, if◌then◌else◌, Text, contains, Bool-cases,
}
use galene.Group.{Group, Client}
use galene.Group.Members.{
  join, otherwise, refuse_user, op, add_client, settle, admit, refuse_id, init_client, introduce,
  Joining, Event, Refusal, push_client, joined, init, add, system,
}

module _ {V : Type 0} where
  -- The ids that the client at the address `a` is told to add, in order.
  abbrev pub told : ℕ → List (Event V) → List Text
  told a [] = []
  told a (push_client b add id username permissions user_data ∷ es) =
      let rest = told a es in if b == a then id ∷ rest else rest
  told a (_ ∷ es) = told a es

  abbrev pub ids : List (Client V) → List Text
  ids [] = []
  ids (c ∷ cs) = c.id ∷ ids cs

  abbrev pub IsElsewhere : ℕ → List (Client V) → Type 0
  IsElsewhere a [] = Unit
  IsElsewhere a (c ∷ cs) = ((c.address == a) ≡ false) × IsElsewhere a cs

  told-introduce :
      (c : Client V) (cs : List (Client V))
      → IsElsewhere c.address cs
      → told c.address (introduce c cs) ≡ ids cs
  unfolding introduce
  told-introduce c [] e = refl
  told-introduce c (d ∷ ds) (e, rest) =
      let here : (c.address == c.address) ≡ true = ground arith in
      rw (here, e) (ap (◌∷◌ d.id) (told-introduce c ds rest))

  told-introduce_elsewhere :
      (c : Client V) (a : ℕ) (cs : List (Client V))
      → (c.address == a) ≡ false
      → IsElsewhere a cs
      → told a (introduce c cs) ≡ []
  unfolding introduce
  told-introduce_elsewhere c a [] h e = refl
  told-introduce_elsewhere c a (d ∷ ds) h (e, rest) =
      rw (h, e) (told-introduce_elsewhere c a ds h rest)

  told-introduce_once :
      (c : Client V) (xs ys : List (Client V)) (d : Client V)
      → (c.address == d.address) ≡ false
      → IsElsewhere d.address xs
      → IsElsewhere d.address ys
      → told d.address (introduce c (xs ++ d ∷ ys)) ≡ c.id ∷ []
  unfolding introduce
  told-introduce_once c [] ys d h e f =
      let here : (d.address == d.address) ≡ true = ground arith in
      rw (h, here) (ap (◌∷◌ c.id) (told-introduce_elsewhere c d.address ys h f))
  told-introduce_once c (x ∷ xs) ys d h (e, rest) f =
      rw (h, e) (told-introduce_once c xs ys d h rest f)

  -- The calls of `AddClient` for a client that has come in.
  abbrev pub arrival : Client V → List (Client V) → List (Event V)
  arrival c cs =
      joined c.address join
      ∷ push_client c.address add c.id c.username c.permissions c.user_data
      ∷ introduce c cs

  told-arrival :
      (c : Client V) (cs : List (Client V))
      → IsElsewhere c.address cs
      → told c.address (arrival c cs) ≡ c.id ∷ ids cs
  told-arrival c cs e =
      let here : (c.address == c.address) ≡ true = ground arith in
      rw here (ap (◌∷◌ c.id) (told-introduce c cs e))

  told-arrival_once :
      (c : Client V) (xs ys : List (Client V)) (d : Client V)
      → (c.address == d.address) ≡ false
      → IsElsewhere d.address xs
      → IsElsewhere d.address ys
      → told d.address (arrival c (xs ++ d ∷ ys)) ≡ c.id ∷ []
  told-arrival_once c xs ys d h e f = rw h (told-introduce_once c xs ys d h e f)

  settle-entered :
      (P : Joining V → Type 0) (q : Option Refusal) (g : Group V) (d : Client V) (now : ℕ)
      (before : List (Event V))
      → P (settle none g d now before)
      → (settle q g d now before).refusal ≡ none
      → P (settle q g d now before)
  settle-entered P none g d now before h r = h
  settle-entered P (some q) g d now before h r = absurd (ground arith)

  admit-entered :
      (P : Joining V → Type 0) (g : Group V) (c : Client V)
      (credentials : Option (Text × List Text)) (now : ℕ)
      → ((d : Client V) (before : List (Event V))
          → d.id ≡ c.id
          → d.address ≡ c.address
          → ((a : ℕ) (es : List (Event V)) → told a (before ++ es) ≡ told a es)
          → P (settle none g d now before))
      → (admit g c credentials now).refusal ≡ none
      → P (admit g c credentials now)
  unfolding init_client
  admit-entered P g c none now k r = absurd (ground arith)
  admit-entered P g c (some (username, permissions)) now k r =
      let d = init_client c username permissions in
      let before = init c.address username permissions ∷ [] in
      let tests = if contains permissions op then none else refuse_user g now in
      settle-entered P (otherwise tests (refuse_id g c.id)) g d now before
        (k d before refl refl (λ a es. refl)) r

  -- What follows for a client that is admitted, from what holds of `settle`.
  entered :
      (P : Joining V → Type 0) (g : Group V) (c : Client V)
      (credentials : Option (Text × List Text)) (now : ℕ)
      → ((d : Client V) (before : List (Event V))
          → d.id ≡ c.id
          → d.address ≡ c.address
          → ((a : ℕ) (es : List (Event V)) → told a (before ++ es) ≡ told a es)
          → P (settle none g d now before))
      → (add_client g c credentials now).refusal ≡ none
      → P (add_client g c credentials now)
  unfolding add_client
  entered P g c credentials now k = elim (Bool-cases (contains c.permissions system)) [
    | inl s ↦
        rw s (settle-entered P (refuse_id g c.id) g c now [] (k c [] refl refl (λ a es. refl)))
    | inr s ↦ rw s (admit-entered P g c credentials now k)
  ]

  ids-append : (cs : List (Client V)) (d : Client V) → ids (cs ++ d ∷ []) ≡ ids cs ++ d.id ∷ []
  ids-append [] d = refl
  ids-append (c ∷ cs) d = ap (◌∷◌ c.id) (ids-append cs d)

  -- When a client is admitted to a group and no client of the group is at its address, then the
  -- group has one client more, with the new client's id, and the new client is told to add its own
  -- id and that of each client that was there before, once.
  add_client-told :
      (g : Group V) (c : Client V) (credentials : Option (Text × List Text)) (now : ℕ)
      → IsElsewhere c.address g.clients
      → (add_client g c credentials now).refusal ≡ none
      → (ids (add_client g c credentials now).group.clients ≡ ids g.clients ++ c.id ∷ [])
        × (told c.address (add_client g c credentials now).events ≡ c.id ∷ ids g.clients)
  add_client-told g c credentials now e =
      entered
        (λ j.
          (ids j.group.clients ≡ ids g.clients ++ c.id ∷ [])
          × (told c.address j.events ≡ c.id ∷ ids g.clients))
        g c credentials now
        (λ d before i a q. (
          ids-append g.clients d ∙ ap (λ t. ids g.clients ++ t ∷ []) i,
          q c.address (arrival d g.clients)
              ∙ subst (λ t. told t (arrival d g.clients) ≡ c.id ∷ ids g.clients) a
                  (told-arrival d g.clients (subst (λ t. IsElsewhere t g.clients) (sym a) e)
                    ∙ ap (λ t. t ∷ ids g.clients) i),
        ))

  -- When a client is admitted to a group, a client of the group at another address, which has it
  -- alone, is told to add the new client's id, and no other.
  add_client-told_others :
      (g : Group V) (c d : Client V) (xs ys : List (Client V))
      (credentials : Option (Text × List Text)) (now : ℕ)
      → g.clients ≡ xs ++ d ∷ ys
      → (c.address == d.address) ≡ false
      → IsElsewhere d.address xs
      → IsElsewhere d.address ys
      → (add_client g c credentials now).refusal ≡ none
      → told d.address (add_client g c credentials now).events ≡ c.id ∷ []
  add_client-told_others g c d xs ys credentials now all h e f =
      entered (λ j. told d.address j.events ≡ c.id ∷ []) g c credentials now
        (λ n before i a q.
          let apart : (n.address == d.address) ≡ false = ap (λ t. t == d.address) a ∙ h in
          q d.address (arrival n g.clients)
          ∙ (ap (λ t. told d.address (arrival n t)) all
              ∙ (told-arrival_once n xs ys d apart e f ∙ ap (λ t. t ∷ []) i)))
