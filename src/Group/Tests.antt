-- ===== src/Group/Tests.antt =====
-- The theorems about group/group.go at a group with an operator and one other client.
use galene.Description.Admin.{no_description}
use galene.Base.{
  ◌<◌, ℕ, ◌≡◌, ◌≢◌, ◌↔◌, ◌⊎◌, refl, inr, true, false, none, some, [], ◌∷◌, ◌++◌, arith, contains,
}
use galene.Group.{Group, Client, ChatHistoryEntry, max_chat_history}
use galene.Group.History.{say, newest, say-newest}
use galene.Group.Members.{
  has_op, del_locked, auto_lock_kick, set_permissions, set_locked, add_client, join_group,
  del_client, op,
}
use galene.Group.Members.Admission.{IsOpen, IsFreeId, add_client-admitted}
use galene.Group.Members.Ids.{Run, start, joins, leaves, AreDistinct, Run-AreDistinct}
use galene.Group.Members.Autolock.{
  Steps, begins, removes, finishes, unlocks, permits, IsGuarded, Steps-IsGuarded,
  join_group-refused,
}

abbrev message : ℕ → ChatHistoryEntry ℕ
message t = record { id = t ∷ []; source = 97 ∷ []; user = none; time = t; kind = []; value = t }

abbrev boss : Client ℕ
boss = record {
  address = 1;
  id = 97 ∷ [];
  username = 97 ∷ [];
  permissions = op ∷ [];
  user_data = [];
}

abbrev guest : Client ℕ
guest = record { address = 2; id = 98 ∷ []; username = 98 ∷ []; permissions = []; user_data = [] }

abbrev visitor : Client ℕ
visitor = record { address = 3; id = 99 ∷ []; username = []; permissions = []; user_data = [] }

abbrev meeting : Group ℕ
meeting = record {
  description = record no_description {
    public = false;
    max_clients = 3;
    max_history_age = 0;
    expires = some 1000;
    not_before = none;
    autolock = true;
    autokick = true;
  };
  locked = none;
  clients = boss ∷ guest ∷ [];
  history = message 5 ∷ message 7 ∷ [];
  timestamp = 7;
}

abbrev orphaned : Group ℕ
orphaned = record meeting { clients = guest ∷ [] }

say-newest_example :
    (say meeting (message 8 ∷ message 9 ∷ [])).history
    ≡ newest max_chat_history (meeting.history ++ message 8 ∷ message 9 ∷ [])
say-newest_example = say-newest meeting (message 8 ∷ message 9 ∷ []) (omega arith)

add_client-admitted_example :
    ((add_client meeting visitor (some (99 ∷ [], [])) 20).refusal ≡ none)
    ↔ (((contains [] op ≡ true) ⊎ IsOpen meeting 20) × IsFreeId meeting visitor.id)
add_client-admitted_example = add_client-admitted meeting visitor (99 ∷ []) [] 20 refl

visitor_admitted : (add_client meeting visitor (some (99 ∷ [], [])) 20).refusal ≡ none
visitor_admitted =
    add_client-admitted_example.1
      (inr (refl, tt, omega arith, refl, inr (omega arith)), (refl, refl))

abbrev emptied : Group ℕ
emptied = (del_client (join_group meeting visitor (some (99 ∷ [], [])) 20).group boss 30).0

departure : Run meeting emptied
departure = leaves boss 30 (joins visitor (some (99 ∷ [], [])) 20 (start meeting))

Run-AreDistinct_example : AreDistinct emptied.clients
Run-AreDistinct_example = Run-AreDistinct departure (refl, refl, (refl, refl, tt))

-- The guest becomes an operator, then the operator leaves, and then the group is unlocked.
abbrev promoted : Group ℕ
promoted = record meeting { clients = set_permissions 2 (op ∷ []) meeting.clients }

still_led : has_op (auto_lock_kick (del_locked promoted boss 30).1).0.clients ≡ true
unfolding auto_lock_kick del_locked
still_led = refl

was_there : (del_locked promoted boss 30).0 ≡ true
unfolding del_locked
was_there = refl

abbrev handed_over :
    Steps meeting 0 (set_locked (auto_lock_kick (del_locked promoted boss 30).1).0 none).0
handed_over =
    unlocks still_led (finishes (removes boss 30 was_there (permits 2 (op ∷ []) (inr refl) begins)))

Steps-IsGuarded_example :
    (0 < 0) ⊎ IsGuarded (set_locked (auto_lock_kick (del_locked promoted boss 30).1).0 none).0
Steps-IsGuarded_example = Steps-IsGuarded handed_over refl

join_group-refused_example : (join_group orphaned visitor (some (99 ∷ [], [])) 20).refusal ≢ none
join_group-refused_example = join_group-refused orphaned visitor (99 ∷ []) [] 20 refl refl refl refl
