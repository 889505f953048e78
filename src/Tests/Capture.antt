-- ===== src/Tests/Capture.antt =====
-- A captured call that settles (tools/capture_call.py).
use rdparty_as_poc.Prelude.{◌≡◌, refl, Bool, true, false, none, some, List, [], ◌∷◌, Result, ok}
use rdparty_as_poc.Prelude.Float.{whole_numbers}
use rdparty_as_poc.Prelude.Int.{pos, ◌-ℤ◌}
use rdparty_as_poc.TrunkUac.{CallOutcome, TrunkUac, outcome_for}
use rdparty_as_poc.Capture.{Turn, current, released, poll, loop, run_call}
use rdparty_as_poc.Capture.Laws.{RunEnds, run_call-Ends}

abbrev outcome : Bool → CallOutcome
outcome released = record {
  scenario_name = "office-to-mobile";
  call_id = "c-1";
  status = none;
  released = released;
  cancelled = false;
}

abbrev uac : Bool → TrunkUac
uac released = record {
  bound = true;
  outcomes = outcome released ∷ [];
  abandoning = [];
  disconnected = [];
}

abbrev turns : List (Turn whole_numbers)
turns =
    Turn.polls (pos 0) (uac false)
    ∷ Turn.polls (pos 2) (uac true)
    ∷ Turn.polls (pos 3) (uac true)
    ∷ Turn.polls (pos 5) (uac true)
    ∷ Turn.expires (uac true)
    ∷ []

run_call-Ends_example :
    RunEnds whole_numbers
      (pos 3)
      "c-1"
      (outcome false)
      turns
      (run_call whole_numbers (pos 3) "c-1" (outcome false) turns)
run_call-Ends_example = run_call-Ends whole_numbers (pos 3) "c-1" (outcome false) turns refl

-- A run whose loop is stopped by the deadline, with the call not released.
expired :
    run_call whole_numbers
      (pos 3)
      "c-1"
      (outcome false)
      (Turn.polls (pos 0) (uac false) ∷ Turn.expires (uac false) ∷ [])
    ≡ some (Result.err "TimeoutError")
unfolding run_call loop poll released current outcome_for
expired = refl

settled : run_call whole_numbers (pos 3) "c-1" (outcome false) turns ≡ some (ok (outcome true))
unfolding run_call loop poll released current outcome_for ◌-ℤ◌
settled = refl
