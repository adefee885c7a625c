-- ===== src/Group.antt =====
-- group/group.go: the members of a group, who may join, the lock, and the chat history.
pub mod Members
pub mod History
mod Tests
use galene.Description.{Description}
use galene.Base.{
  ℕ, zero, suc, ◌+◌, ◌-◌, ◌*◌, ◌^◌, ◌≤◌, ◌<◌, ◌≡◌, refl, sym, ap, ◌∙◌, ◌≢◌, ◌↔◌, ◌⊎◌, inl, inr,
  Bool, true, false, not, ◌&&◌, ◌||◌, Option, none, some, List, [], ◌∷◌, ◌++◌, arith, if◌then◌else◌,
  ltb, leb, ◌==◌, Text, same, contains, length, take, drop, copy,
}

pub record ChatHistoryEntry (V : Type 0) : Type 0 where
  pub id : Text
  pub source : Text
  pub user : Option Text
  pub time : ℕ
  pub kind : Text
  pub value : V

-- What the group asks of a client; `address` tells two clients with the same id apart.
pub record Client (V : Type 0) : Type 0 where
  pub address : ℕ
  pub id : Text
  pub username : Text
  pub permissions : List Text
  pub user_data : List (Text × V)

pub record Group (V : Type 0) : Type 0 where
  pub description : Description
  pub locked : Option Text
  pub clients : List (Client V)
  pub history : List (ChatHistoryEntry V)
  pub timestamp : ℕ

-- `maxChatHistory`
abbrev pub max_chat_history : ℕ
max_chat_history = 50

-- `maxHistoryAge` of group/description.go: four hours, if the description does not say.
pub max_history_age : Description → ℕ
max_history_age d =
    if d.max_history_age == 0 then 4 * 3600 * 1000000000 else d.max_history_age * 1000000000

module _ {V : Type 0} where
  -- `copy(h, h[i:])`, and the last `i` places cut off.
  unfoldable pub move_down : ℕ → List (ChatHistoryEntry V) → List (ChatHistoryEntry V)
  move_down i h = take (length h - i) (copy h (drop i h))

  -- `AddToChatHistory`
  pub add_to_chat_history : Group V → ChatHistoryEntry V → Group V
  add_to_chat_history g e =
      let h =
        if leb max_chat_history (length g.history) then move_down 1 g.history else g.history in
      record g { history = h ++ e ∷ [] }

  -- The test of `ClearChatHistory` for an entry that goes.
  pub clears : Text → Text → ChatHistoryEntry V → Bool
  clears id user_id e = same e.source user_id && (same id [] || same e.id id)

  -- `slices.DeleteFunc`
  abbrev pub delete_func :
      (ChatHistoryEntry V → Bool) → List (ChatHistoryEntry V) → List (ChatHistoryEntry V)
  delete_func f [] = []
  delete_func f (e ∷ h) = let rest = delete_func f h in if f e then rest else e ∷ rest

  -- `ClearChatHistory`
  pub clear_chat_history : Group V → Text → Text → Group V
  clear_chat_history g id user_id =
      if same id [] && same user_id []
      then record g { history = [] }
      else record g { history = delete_func (clears id user_id) g.history }

  -- The loop of `discardObsoleteHistory`: how many entries at the front are too old.
  unfoldable pub obsolete : ℕ → ℕ → List (ChatHistoryEntry V) → ℕ
  obsolete now duration [] = 0
  obsolete now duration (e ∷ h) =
      let rest = obsolete now duration h in if leb (now - e.time) duration then 0 else suc rest

  -- `discardObsoleteHistory`, at the time `now`.
  pub discard_obsolete_history : List (ChatHistoryEntry V) → ℕ → ℕ → List (ChatHistoryEntry V)
  discard_obsolete_history h duration now =
      let i = obsolete now duration h in if ltb 0 i then move_down i h else h

  -- `GetChatHistory`: the group, and a copy of the history.
  unfoldable pub get_chat_history : Group V → ℕ → Group V × List (ChatHistoryEntry V)
  get_chat_history g now =
      let h = discard_obsolete_history g.history (max_history_age g.description) now in
      (record g { history = h }, h)
