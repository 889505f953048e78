-- ===== src/Events/Publisher.antt =====
-- src/as_app/internal_api.py, `SimplePublisher`, and the handler of the WebSocket that is mounted on it;
-- the class of src/anti_fraud_as/internal_api.py is the same.
--
-- A WebSocket is an object, known by a number; the order in which Python iterates over a set is a
-- parameter. Each `await` lets other tasks of the loop run: a broadcast is a task that waits for the
-- send to the first connection of those it has left, and what it does between two sends is one step.
pub mod Laws
use rdparty_as_poc.Prelude.{
  ℕ, zero, suc, ◌+◌, String, Bool, true, false, not, Option, none, some, List, [], ◌∷◌, ◌++◌, any,
  filter, ◌==◌, if◌then◌else◌, is_empty,
}

-- `x in xs`
abbrev pub member : ℕ → List ℕ → Bool
member x = any (λ y. y == x)

-- `set.add`
abbrev pub add : ℕ → List ℕ → List ℕ
add x xs = if member x xs then xs else xs ++ x ∷ []

-- `set.discard`
abbrev pub discard : ℕ → List ℕ → List ℕ
discard x xs = filter (λ y. not (y == x)) xs

-- A broadcast that waits for the send to the first of `todo`.
pub record Broadcast : Type 0 where
  pub ident : ℕ
  pub message : String
  pub todo : List ℕ
  pub dead : List ℕ

-- A send that has returned or raised.
pub record Send : Type 0 where
  pub broadcast : ℕ
  pub ws : ℕ
  pub raised : Bool

-- The publisher's connections, the broadcasts in progress, the sends so far, newest first, and the
-- number of the next broadcast.
pub record SimplePublisher : Type 0 where
  pub connections : List ℕ
  pub running : List Broadcast
  pub sends : List Send
  pub next : ℕ

abbrev pub empty : SimplePublisher
empty = record { connections = []; running = []; sends = []; next = 0 }

-- `connect`, behind the `accept` of the WebSocket
unfoldable pub connect : ℕ → SimplePublisher → SimplePublisher
connect ws p = record p { connections = add ws p.connections }

-- `disconnect`
unfoldable pub disconnect : ℕ → SimplePublisher → SimplePublisher
disconnect ws p = record p { connections = discard ws p.connections }

-- The second loop of `broadcast`.
abbrev pub disconnect_dead : List ℕ → SimplePublisher → SimplePublisher
disconnect_dead [] p = p
disconnect_dead (ws ∷ rest) p = disconnect_dead rest (disconnect ws p)

-- `broadcast` up to its first send, for an order of the set.
unfoldable pub begin_broadcast : (List ℕ → List ℕ) → String → SimplePublisher → SimplePublisher
begin_broadcast order message p = if is_empty p.connections then p else record p {
  running =
      p.running
      ++ record { ident = p.next; message = message; todo = order p.connections; dead = [] } ∷ [];
  next = suc p.next;
}

-- The rest of the broadcast behind a send: it waits again, or disconnects what did not answer.
abbrev pub go_on : Broadcast → SimplePublisher → List ℕ → Option Broadcast × SimplePublisher
go_on b p [] = (none, disconnect_dead b.dead p)
go_on b p (ws ∷ rest) = (some (record b { todo = ws ∷ rest }), p)

abbrev pub sent : Bool → Broadcast → ℕ → SimplePublisher → SimplePublisher
sent raised b ws p = record p {
  sends = record { broadcast = b.ident; ws = ws; raised = raised } ∷ p.sends;
}

-- `dead.append(ws)`
abbrev pub mark : Bool → ℕ → Broadcast → Broadcast
mark true ws b = record b { dead = b.dead ++ ws ∷ [] }
mark false ws b = b

-- The send that a broadcast waits for returns or raises.
abbrev pub resume_from :
    Bool → Broadcast → SimplePublisher → List ℕ → Option Broadcast × SimplePublisher
resume_from raised b p [] = (none, p)
resume_from raised b p (ws ∷ rest) = go_on (mark raised ws b) (sent raised b ws p) rest

unfoldable pub resume : Bool → Broadcast → SimplePublisher → Option Broadcast × SimplePublisher
resume raised b p = resume_from raised b p b.todo

abbrev pub keep : Option Broadcast → List Broadcast → List Broadcast
keep none bs = bs
keep (some b) bs = b ∷ bs

-- The loop resumes the task at a place.
unfoldable pub resume_at :
    ℕ → Bool → List Broadcast → SimplePublisher → List Broadcast × SimplePublisher
resume_at n raised [] p = ([], p)
resume_at zero raised (b ∷ bs) p = let (o, q) = resume raised b p in (keep o bs, q)
resume_at (suc n) raised (b ∷ bs) p = let (rest, q) = resume_at n raised bs p in (b ∷ rest, q)

-- What the loop of the server runs: a WebSocket connects or leaves, a broadcast begins, or the send
-- of one ends.
pub data Action : Type 0 where
  connects leaves : ℕ → Action
  begins : String → Action
  resumes : ℕ → Bool → Action

module _ (order : List ℕ → List ℕ) where
  unfoldable pub act : Action → SimplePublisher → SimplePublisher
  act (Action.connects ws) p = connect ws p
  act (Action.leaves ws) p = disconnect ws p
  act (Action.begins message) p = begin_broadcast order message p
  act (Action.resumes n raised) p =
      let (bs, q) = resume_at n raised p.running p in record q { running = bs }

  abbrev pub run : List Action → SimplePublisher → SimplePublisher
  run [] p = p
  run (a ∷ actions) p = run actions (act a p)
