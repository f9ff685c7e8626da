-- ===== src/Room/Ledger.antt =====
-- The store of the Room authority (packages/fleet-room/storage.mjs), one map for each key prefix
-- of room-control.mjs and room-tasks.mjs, in the order of the keys' text. The parts of a key are
-- ids, which hold no colon, so different parts are different keys.
use fleet_for_agent.Base.{ℕ, String, Bool, List, [], ◌∷◌, ltb, if◌then◌else◌, map}
use fleet_for_agent.Base.Eq.{◌==◌, string_eq, pair_eq, nat_eq}
use fleet_for_agent.Base.Assoc.{Assoc, put}
use fleet_for_agent.Base.Keys.{text_before, pair_before}
use fleet_for_agent.Room.Types.{Agent, Room, Task, Event, Message, Usage, Receipt, Renewal}

abbrev pub Pair : Type 0
Pair = String × String

pub record Ledger : Type 0 where
  pub agents : Assoc String Agent
  pub rooms : Assoc String Room
  pub tasks : Assoc Pair Task
  pub events : Assoc (Pair × ℕ) Event
  pub messages : Assoc (Pair × ℕ) Message
  pub discussions : Assoc Pair ℕ
  pub usages : Assoc String Usage
  pub requests : Assoc Pair Receipt
  pub renewals : Assoc Pair Renewal

pub numbered_before : Pair × ℕ → Pair × ℕ → Bool
unfolding pair_before
numbered_before (p, n) (q, m) = if p == q then ltb n m else pair_before p q

unfoldable pub put_agent : Agent → Ledger → Ledger
unfolding text_before
put_agent a l = record l { agents = put text_before a.id a l.agents }

unfoldable pub put_room : Room → Ledger → Ledger
unfolding text_before
put_room r l = record l { rooms = put text_before r.id r l.rooms }

abbrev pub key_of : Task → Pair
key_of t = (t.room_id, t.id)

unfoldable pub put_task : Task → Ledger → Ledger
unfolding pair_before
put_task t l = record l { tasks = put pair_before (key_of t) t l.tasks }

unfoldable pub put_event : Event → Ledger → Ledger
unfolding numbered_before
put_event e l = record l { events = put numbered_before ((e.room_id, e.task_id), e.seq) e l.events }

unfoldable pub put_message : Message → Ledger → Ledger
unfolding numbered_before
put_message m l = record l {
  messages = put numbered_before ((m.room_id, m.discussion_id), m.seq) m l.messages;
}

unfoldable pub put_discussion : Pair → ℕ → Ledger → Ledger
unfolding pair_before
put_discussion k rev l = record l { discussions = put pair_before k rev l.discussions }

unfoldable pub put_usage : String → Usage → Ledger → Ledger
unfolding text_before
put_usage room u l = record l { usages = put text_before room u l.usages }

unfoldable pub put_request : Pair → Receipt → Ledger → Ledger
unfolding pair_before
put_request k r l = record l { requests = put pair_before k r l.requests }

unfoldable pub put_renewal : Pair → Renewal → Ledger → Ledger
unfolding pair_before
put_renewal k r l = record l { renewals = put pair_before k r l.renewals }

-- `tx.list({ prefix })`, as values.
unfoldable pub room_tasks : String → Assoc Pair Task → List Task
room_tasks room [] = []
room_tasks room ((k, t) ∷ m) =
    let rest = room_tasks room m in if k.0 == room then t ∷ rest else rest

unfoldable pub all_tasks : Assoc Pair Task → List Task
all_tasks m = map (λ e. e.1) m

unfoldable pub empty : Ledger
empty = record {
  agents = [];
  rooms = [];
  tasks = [];
  events = [];
  messages = [];
  discussions = [];
  usages = [];
  requests = [];
  renewals = [];
}
