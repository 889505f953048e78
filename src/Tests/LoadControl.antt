-- ===== src/Tests/LoadControl.antt =====
-- Runs of the generator's process (tools/call_load_generator.py).
use rdparty_as_poc.Prelude.{
  String, ◌≡◌, refl, true, false, none, some, List, [], ◌∷◌, ◌++◌, ◌⊎◌, length, if◌then◌else◌,
}
use rdparty_as_poc.Prelude.Int.{pos}
use rdparty_as_poc.Prelude.Float.{whole_numbers}
use rdparty_as_poc.LoadUac.{MockSipUac, force_disconnect_all}
use rdparty_as_poc.LoadControl.{
  LoadControl, Request, handle, start, stop, resume_stop, tick_turn, stack_turn, cancel, has_task,
  drop_number, end_task, shut_down, built,
}
use rdparty_as_poc.LoadControl.Loops.{going}
use rdparty_as_poc.CallModel.{check_config}
use rdparty_as_poc.LoadControl.Runs.{Event, is_serial, run}
use rdparty_as_poc.LoadControl.Laws.{IsSteady, run-IsSteady}
use rdparty_as_poc.LoadControl.Stopping.{
  stopped, interleave, stops-disconnects, shut_down-undisconnected,
}
use rdparty_as_poc.Tests.Load.{tenths, config, config-IsChecked}

-- User agents and callbacks are texts; two calls are in flight.
abbrev busy : MockSipUac String String
busy = record {
  bound = true;
  uacs = ("gen-1", "ua-1") ∷ ("gen-2", "ua-2") ∷ [];
  known_call = ("gen-1", "pool") ∷ ("gen-2", "pool") ∷ [];
  ended = [];
  disconnected = [];
  timers = [];
}

abbrev process : LoadControl whole_numbers tenths String String
process = built whole_numbers tenths String String config (pos 0) busy

abbrev requests : Event whole_numbers tenths String String
requests = Event.requests (
    Request.configures
      (record {
        target_concurrency = 60;
        call_rate = pos 15;
        enabled_call_types = [];
        topology = none;
      })
      (pos 3))

-- A start that is handled while a stop waits for its task.
abbrev events : List (Event whole_numbers tenths String String)
events =
    Event.requests Request.starts
    ∷ requests
    ∷ Event.requests Request.stops
    ∷ Event.requests Request.starts
    ∷ Event.ticks 0
    ∷ Event.resumes 0
    ∷ Event.stack_turns
    ∷ []

run-IsSteady_example :
    let c = run whole_numbers tenths String String events process in
    IsSteady whole_numbers tenths String String c
    × ((is_serial whole_numbers tenths String String events process ≡ false)
        ⊎ (length (going c.tasks) ≡ (if c.running then 1 else 0)))
run-IsSteady_example =
    run-IsSteady whole_numbers tenths String String config (pos 0) busy events config-IsChecked

-- A start while a stop waits: the stop forgets the new task, and the next start leaves two loops.
abbrev overlapped : List (Event whole_numbers tenths String String)
overlapped =
    events
    ++ (Event.requests Request.stops
        ∷ Event.requests Request.starts
        ∷ Event.ticks 1
        ∷ Event.ticks 2
        ∷ [])

overlapped-two :
    let c = run whole_numbers tenths String String overlapped process in
    (going c.tasks ≡ 1 ∷ 2 ∷ []) × (c.running ≡ true) × (c.tick_task ≡ some 2)
unfolding handle start stop resume_stop tick_turn stack_turn cancel has_task drop_number end_task
    check_config force_disconnect_all
overlapped-two = (refl, refl, refl)

-- Stops and starts that follow one another.
serial-one :
    is_serial whole_numbers tenths String String
      (Event.requests Request.starts
        ∷ Event.requests Request.stops
        ∷ Event.ticks 0
        ∷ Event.resumes 0
        ∷ Event.requests Request.starts
        ∷ [])
      process
    ≡ true
unfolding handle start stop resume_stop tick_turn cancel has_task drop_number end_task
serial-one = refl

abbrev at_work : LoadControl whole_numbers tenths String String
at_work = record process {
  running = true;
  tick_task = some 0;
  tasks = record { number = 0; cancelled = false } ∷ [];
  next_task = 1;
}

stops-disconnects_example :
    let d =
      stack_turn whole_numbers tenths String String
        (stopped String String whole_numbers tenths 0 at_work) in
    (d.running ≡ false) × (d.uac.uacs ≡ []) × (d.uac.disconnected ≡ "ua-2" ∷ "ua-1" ∷ [])
stops-disconnects_example =
    stops-disconnects String String whole_numbers tenths 0 at_work refl refl refl (refl, (refl, tt))

shut_down-undisconnected_example :
    let d =
      interleave String String whole_numbers tenths
        (λ i. 3)
        (shut_down whole_numbers tenths String String)
        at_work in
    (d.running ≡ false) × (d.uac.uacs ≡ busy.uacs) × (d.uac.disconnected ≡ [])
shut_down-undisconnected_example =
    shut_down-undisconnected String String whole_numbers tenths (λ i. 3) at_work
