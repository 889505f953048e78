-- ===== src/Tests/TrunkUac.antt =====
-- A run of the trunk side of the S-SBC mock (src/s_sbc_mock/uac.py) and of a load level over it
-- (tools/capacity_probe.py).
use rdparty_as_poc.Prelude.{◌≡◌, refl, true, false, none, some, []}
use rdparty_as_poc.TrunkUac.{
  CallScenario, CallOutcome, EventData, Event, TrunkUac, update, outcome_for, place_call, on_event,
  abandon_call,
}
use rdparty_as_poc.TrunkUac.Laws.{IsLater, Step, Reach, Reach-IsLater}

abbrev scenario : CallScenario
scenario = record { name = "mobile"; abandon = false }

abbrev idle : TrunkUac
idle = record { bound = true; outcomes = []; abandoning = []; disconnected = [] }

abbrev first : TrunkUac
first = (place_call scenario "c-1" idle).1

-- Another call is placed, and the first one is answered, abandoned late and released.
abbrev last : TrunkUac
last = on_event Event.disconnect scenario "c-1" (
    abandon_call "c-1" (
      on_event (Event.connect (EventData.code 200)) scenario "c-1"
        (place_call scenario "c-2" first).1))

run : Reach first last
run =
    Reach.next
      (Reach.next
        (Reach.next (Reach.next Reach.here (Step.places scenario "c-2" refl))
          (Step.observes (Event.connect (EventData.code 200)) scenario "c-1" refl))
        (Step.abandons "c-1" refl))
      (Step.observes Event.disconnect scenario "c-1" refl)

abbrev outcome : CallOutcome
outcome = record {
  scenario_name = "mobile";
  call_id = "c-1";
  status = none;
  released = false;
  cancelled = false;
}

first-outcome : outcome_for "c-1" first.outcomes ≡ some outcome
unfolding place_call outcome_for
first-outcome = refl

last-outcome :
    outcome_for "c-1" last.outcomes
    ≡ some (record outcome { status = some 200; released = true; cancelled = true })
unfolding place_call outcome_for update on_event abandon_call
last-outcome = refl

Reach-IsLater_example :
    (q : CallOutcome) × (outcome_for "c-1" last.outcomes ≡ some q) × IsLater outcome q
Reach-IsLater_example = Reach-IsLater first last "c-1" outcome run first-outcome
