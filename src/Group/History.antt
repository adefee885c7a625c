-- ===== src/Group/History.antt =====
-- The chat history of group/group.go: what it holds after messages, clearing and ageing.
use galene.Base.{
  Bool-cases, drop-drop, length-append, drop-append_left, if◌then◌else◌, take-copy, if◌then◌else◌,
  ◌∙◌, if◌then◌else◌, sym, copy, if◌then◌else◌, if◌then◌else◌, take, if◌then◌else◌, ap,
  if◌then◌else◌, [], length-drop, ◌++◌, if◌then◌else◌, ◌-◌, drop, if◌then◌else◌, if◌then◌else◌, ◌∷◌,
  ◌≡◌, ◌≤◌, if◌then◌else◌, List, length, if◌then◌else◌,
}
use Prim.Native.Nat.{ℕ, ℕ, ℕ, ℕ, ℕ, ℕ, ℕ, ℕ, ℕ, ℕ, ℕ, ℕ}
use galene.Base.{
  ℕ, ◌+◌, ◌-◌, ◌≤◌, ◌<◌, ◌≡◌, refl, sym, ap, ◌∙◌, inl, inr, true, List, [], ◌∷◌, ◌++◌, arith,
  if◌then◌else◌, ltb, leb, length, take, drop, copy, take-copy, length-drop,
}
use mathlib.Core.List.{append-nil, append_assoc}
use galene.Group.{
  max_history_age, discard_obsolete_history, obsolete, get_chat_history, Group, ChatHistoryEntry,
  add_to_chat_history, move_down, max_chat_history,
}

module _ {V : Type 0} where
  move_down-drop : (i : ℕ) (h : List (ChatHistoryEntry V)) → move_down i h ≡ drop i h
  unfolding move_down
  move_down-drop i h =
      let n : length (drop i h) ≡ length h - i = length-drop i h in
      ap (λ t. take t (copy h (drop i h))) (sym n) ∙ take-copy h (drop i h) (omega arith)

  abbrev pub newest : ℕ → List (ChatHistoryEntry V) → List (ChatHistoryEntry V)
  newest n h = drop (length h - n) h

  length-newest :
      (n : ℕ) (h : List (ChatHistoryEntry V)) → length (newest n h) ≡ length h - (length h - n)
  length-newest n h = length-drop (length h - n) h

  newest-newest :
      (n : ℕ) (h es : List (ChatHistoryEntry V)) → newest n (newest n h ++ es) ≡ newest n (h ++ es)
  newest-newest n h es =
      let k = length h - n in
      let joined : drop k (h ++ es) ≡ drop k h ++ es = drop-append_left h es k (omega arith) in
      let m = length-append (drop k h) es in
      let l = length-append h es in
      let d = length-drop k h in
      let t : k + (length (drop k h ++ es) - n) ≡ length (h ++ es) - n = omega arith in
      ap (drop (length (drop k h ++ es) - n)) (sym joined) ∙ drop-drop (h ++ es) k _ _ t

  history_after :
      (h : List (ChatHistoryEntry V)) (e : ChatHistoryEntry V)
      → length h ≤ 50
      → (if leb 50 (length h) then move_down 1 h else h) ++ e ∷ [] ≡ newest 50 (h ++ e ∷ [])
  history_after h e b =
      let l = length-append h (e ∷ []) in
      elim (Bool-cases (leb 50 (length h))) [
        | inl q ↦
            let full : length h ≡ 50 = ground arith in
            let one : 1 ≡ length (h ++ e ∷ []) - 50 = omega arith in
            rw (q, move_down-drop 1 h, sym (drop-append_left h (e ∷ []) 1 (omega arith)))
              (ap (λ t. drop t (h ++ e ∷ [])) one)
        | inr q ↦
            let room : length h < 50 = ground arith in
            let none_gone : 0 ≡ length (h ++ e ∷ []) - 50 = omega arith in
            rw q (ap (λ t. drop t (h ++ e ∷ [])) none_gone)
      ]

  -- Messages one after the other.
  abbrev pub say : Group V → List (ChatHistoryEntry V) → Group V
  say g [] = g
  say g (e ∷ es) = say (add_to_chat_history g e) es

  newest-few : (h : List (ChatHistoryEntry V)) → length h ≤ 50 → newest 50 h ≡ h
  newest-few h b = let all_stay : length h - 50 ≡ 0 = omega arith in ap (λ t. drop t h) all_stay

  -- When the chat history has at most 50 entries, then after any messages it holds the newest 50 of
  -- the old and the new entries together, in order.
  pub say-newest :
      (g : Group V) (es : List (ChatHistoryEntry V))
      → length g.history ≤ max_chat_history
      → (say g es).history ≡ newest max_chat_history (g.history ++ es)
  unfolding add_to_chat_history
  say-newest g [] b = sym (
      newest-few (g.history ++ []) (omega (arith, length-append g.history []))
      ∙ append-nil g.history)
  say-newest g (e ∷ es) b =
      let h = history_after g.history e b in
      let n = length-newest 50 (g.history ++ e ∷ []) in
      let few : length (add_to_chat_history g e).history ≤ 50 = omega (arith, ap length h) in
      say-newest (add_to_chat_history g e) es few
      ∙ (ap (λ t. newest 50 (t ++ es)) h
          ∙ (newest-newest 50 (g.history ++ e ∷ []) es
              ∙ ap (newest 50) (append_assoc g.history (e ∷ []) es)))

  -- The entries no older than `duration` at the time `now`, in order.
  abbrev pub recent : ℕ → ℕ → List (ChatHistoryEntry V) → List (ChatHistoryEntry V)
  recent now duration [] = []
  recent now duration (e ∷ h) =
      let rest = recent now duration h in if leb (now - e.time) duration then e ∷ rest else rest

  -- The entries are in the order of their times, all at or after `since`.
  abbrev pub InOrder : ℕ → List (ChatHistoryEntry V) → Type 0
  InOrder since [] = Unit
  InOrder since (e ∷ h) = since ≤ e.time × InOrder e.time h

  recent-all :
      (now duration since : ℕ) (h : List (ChatHistoryEntry V))
      → InOrder since h
      → now - since ≤ duration
      → recent now duration h ≡ h
  recent-all now duration since [] o b = refl
  recent-all now duration since (e ∷ h) (le, o) b =
      let rest = recent-all now duration e.time h o (omega arith) in
      let stays : leb (now - e.time) duration ≡ true = ground arith in rw stays (ap (◌∷◌ e) rest)

  drop-obsolete :
      (now duration since : ℕ) (h : List (ChatHistoryEntry V))
      → InOrder since h
      → drop (obsolete now duration h) h ≡ recent now duration h
  unfolding obsolete
  drop-obsolete now duration since [] o = refl
  drop-obsolete now duration since (e ∷ h) (le, o) =
      elim (Bool-cases (leb (now - e.time) duration)) [
        | inl stays ↦
            let b : now - e.time ≤ duration = ground arith in
            rw stays (ap (◌∷◌ e) (sym (recent-all now duration e.time h o b)))
        | inr goes ↦ rw goes (drop-obsolete now duration e.time h o)
      ]

  -- When the entries stand in the order of their times, `GetChatHistory` at the time `now` returns
  -- the entries that are at most as old as the description's history age, in order, and leaves just
  -- these in the group.
  get_chat_history-recent :
      (g : Group V) (now since : ℕ)
      → InOrder since g.history
      → ((get_chat_history g now).1 ≡ recent now (max_history_age g.description) g.history)
        × ((get_chat_history g now).0.history
            ≡ recent now (max_history_age g.description) g.history)
  unfolding get_chat_history discard_obsolete_history
  get_chat_history-recent g now since o =
      let age = max_history_age g.description in
      let kept = drop-obsolete now age since g.history o in
      elim (Bool-cases (ltb 0 (obsolete now age g.history))) [
        | inl some_go ↦
            let moved = move_down-drop (obsolete now age g.history) g.history ∙ kept in
            rw some_go (moved, moved)
        | inr all_stay ↦
            let zero_go : obsolete now age g.history ≡ 0 = ground arith in
            let same_list : g.history ≡ recent now age g.history =
              ap (λ t. drop t g.history) (sym zero_go) ∙ kept in
            rw all_stay (same_list, same_list)
      ]
