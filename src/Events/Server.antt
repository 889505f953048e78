-- ===== src/Events/Server.antt =====
-- `InternalApiServer.start` of src/as_app/internal_api.py and of src/anti_fraud_as/internal_api.py, and
-- the hand-over of a message to the loop that `start` has stored, at the end of `_emit_p12`.
--
-- An event loop is an object, known by a number. `create_task` and `run_coroutine_threadsafe` put the
-- broadcast at the end of what a loop is to run, and a loop runs nothing unless a thread runs the loop.
-- uvicorn is a parameter: the loop that `Server.run` runs, for the one that is set.
pub mod Laws
pub mod Silent
use rdparty_as_poc.Prelude.{
  ℕ, zero, suc, String, Bool, true, false, Option, none, some, List, [], ◌∷◌, ◌++◌, ◌==◌,
  if◌then◌else◌, is_empty,
}
use rdparty_as_poc.Events.Publisher.{SimplePublisher, Action, empty, begin_broadcast, act}

-- `app.state._loop`, the loop that the daemon thread runs, the messages that wait with the loop they
-- were given to, those whose broadcast has begun, both in order, and the publisher.
pub record Live : Type 0 where
  pub app_loop : Option ℕ
  pub running_loop : Option ℕ
  pub scheduled : List (ℕ × String)
  pub begun : List String
  pub publisher : SimplePublisher

-- The constructor of the server, before `start`.
abbrev pub make_server : Live
make_server = record {
  app_loop = none;
  running_loop = none;
  scheduled = [];
  begun = [];
  publisher = empty;
}

-- `start` of the number-translation server, for the loop that `new_event_loop` returns.
unfoldable pub start_translation : ℕ → Live → Live
start_translation loop l = record l { app_loop = some loop; running_loop = some loop }

-- `start` of the anti-fraud server, which calls `Server.run`.
unfoldable pub start_fraud : (ℕ → ℕ) → ℕ → Live → Live
start_fraud uvicorn_run loop l = record l {
  app_loop = some loop;
  running_loop = some (uvicorn_run loop);
}

-- The end of `_emit_p12`: nothing without a loop, and nothing where the loop does not take the task.
abbrev pub hand_over : Bool → String → Option ℕ → Live → Live
hand_over accepted message none l = l
hand_over accepted message (some loop) l =
    if accepted then record l { scheduled = l.scheduled ++ (loop, message) ∷ [] } else l

unfoldable pub submit : Bool → String → Live → Live
submit accepted message l = hand_over accepted message l.app_loop l

-- The first message that waits for a loop, and what waits behind it.
unfoldable pub take_first : ℕ → List (ℕ × String) → Option (String × List (ℕ × String))
take_first loop [] = none
take_first loop ((other, message) ∷ rest) =
    let found = take_first loop rest in
    if other == loop
    then some (message, rest)
    else (elim found [ none ↦ none | some (m, left) ↦ some (m, (other, message) ∷ left) ])

-- What happens: a controller hands a message over to a loop that takes it, or not, the thread begins
-- the next broadcast, or WebSockets connect and leave and a send ends.
pub data LiveAction : Type 0 where
  emits : Bool → String → LiveAction
  turns : LiveAction
  connects leaves : ℕ → LiveAction
  resumes : ℕ → Bool → LiveAction

-- The messages that a run hands over, in order.
abbrev pub handed_over : List LiveAction → List String
handed_over [] = []
handed_over (LiveAction.emits accepted message ∷ actions) =
    if accepted then message ∷ handed_over actions else handed_over actions
handed_over (_ ∷ actions) = handed_over actions

module _ (order : List ℕ → List ℕ) where
  abbrev pub begin_first : Option (String × List (ℕ × String)) → Live → Live
  begin_first none l = l
  begin_first (some (message, rest)) l = record l {
    scheduled = rest;
    begun = l.begun ++ message ∷ [];
    publisher = begin_broadcast order message l.publisher;
  }

  -- The daemon thread takes the next broadcast of the loop that it runs.
  abbrev pub turn_of : Option ℕ → Live → Live
  turn_of none l = l
  turn_of (some loop) l = begin_first (take_first loop l.scheduled) l

  unfoldable pub turn : Live → Live
  turn l = turn_of l.running_loop l

  abbrev pub publish : Action → Live → Live
  publish a l = record l { publisher = act order a l.publisher }

  unfoldable pub live : LiveAction → Live → Live
  live (LiveAction.emits accepted message) l = submit accepted message l
  live LiveAction.turns l = turn l
  live (LiveAction.connects ws) l = publish (Action.connects ws) l
  live (LiveAction.leaves ws) l = publish (Action.leaves ws) l
  live (LiveAction.resumes n raised) l = publish (Action.resumes n raised) l

  abbrev pub live_run : List LiveAction → Live → Live
  live_run [] l = l
  live_run (a ∷ actions) l = live_run actions (live a l)
