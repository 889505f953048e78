-- ===== src/Tests/SbcMock.antt =====
-- Runs of the S-SBC mock's processes (src/s_sbc_mock).
use rdparty_as_poc.Prelude.{
  ℕ, zero, suc, ◌≤◌, String, ◌≡◌, refl, true, false, none, List, [], ◌∷◌, ◌++◌, length,
}
use rdparty_as_poc.Prelude.Int.{pos, ◌-ℤ◌, ◌+ℤ◌}
use rdparty_as_poc.Prelude.Float.{whole_numbers}
use rdparty_as_poc.TrunkUac.{TrunkUac}
use rdparty_as_poc.SbcMock.Application.{SMockApplication, partition, main_application}
use rdparty_as_poc.SbcMock.Application.Laws.{fires, placed_from, main_application-places_all}
use rdparty_as_poc.SbcMock.ReturnUas.{
  Request, ReceivedInvite, Timer, Event, Action, ReturnUas, act, run, make,
}
use rdparty_as_poc.SbcMock.ReturnUas
use rdparty_as_poc.SbcMock.ReturnUas.Laws.{
  IsOnTheWay, count_if, rang, confirmed, hung_up, run-answers,
}
use rdparty_as_poc.SbcMock.ReturnUas.Waiting.{Round, Ends, wait_for_invite, wait_for_invite-Ends}

abbrev idle_uac : TrunkUac
idle_uac = record { bound = true; outcomes = []; abandoning = []; disconnected = [] }

abbrev two_calls : List String
two_calls = "+861=+862" ∷ "+863" ∷ []

abbrev by_number : ℕ → String
by_number zero = "c-0"
by_number (suc _) = "c-n"

abbrev started : SMockApplication whole_numbers
started = main_application whole_numbers (pos 1) (pos 2) (pos 0) two_calls false idle_uac

started-parts : partition "+861=+862" ≡ ("+861", "+862")
unfolding partition
started-parts = refl

main_application-places_all_example :
    ((fires whole_numbers (pos 1) (length started.config.scenarios) by_number 0 started).timers
      ≡ [])
    × ((fires whole_numbers
          (pos 1)
          (length started.config.scenarios)
          by_number
          0
          started).uac.outcomes
        ≡ [] ++ placed_from whole_numbers (pos 1) by_number 0 started.config.scenarios)
main_application-places_all_example =
    main_application-places_all whole_numbers (pos 1) (pos 1) (pos 2) (pos 0) two_calls idle_uac
      by_number refl

abbrev invite : Request
invite = record {
  to_tag = none;
  method = "INVITE";
  call_id = "c-1";
  request_uri = "sip:+861@as";
  called_number = "+861";
  asserted_identity = none;
  body = none;
  headers = [];
}

-- A call is taken, rung and answered; another request is refused.
abbrev answered : List Action
answered =
    Action.receives invite 4
    ∷ Action.reports Event.try 4
    ∷ Action.fires 0 "c-1"
    ∷ Action.receives (record invite { method = "OPTIONS" }) 5
    ∷ Action.fires 0 "c-1"
    ∷ []

abbrev side : ReturnUas
side = run answered (make false false)

side-timers : side.timers ≡ Timer.release 4 ∷ []
unfolding act ReturnUas.recv_request ReturnUas.record_invite ReturnUas.on_event ReturnUas.fire
    ReturnUas.take
side-timers = refl

run-answers_example :
    IsOnTheWay 4 1 side
    × (count_if (hung_up 4) side.sent ≤ count_if (confirmed 4) side.sent)
    × (count_if (confirmed 4) side.sent ≤ count_if (rang 4) side.sent)
    × (count_if (rang 4) side.sent ≤ 1)
run-answers_example = run-answers false false answered 4

abbrev received : ReceivedInvite
received = record {
  call_id = "c-1";
  request_uri = "sip:+861@as";
  called_number = "+861";
  calling_number = none;
  body = "";
  headers = none;
}

-- The INVITE arrives in the second slice of five seconds.
abbrev slices : List (Round whole_numbers)
slices =
    record { now = pos 1; arrives = [] }
    ∷ record { now = pos 3; arrives = received ∷ [] }
    ∷ record { now = pos 9; arrives = [] }
    ∷ []

wait_for_invite-Ends_example :
    Ends whole_numbers (pos 5) [] slices (wait_for_invite whole_numbers (pos 5) (pos 0) [] slices)
unfolding ◌-ℤ◌ ◌+ℤ◌
wait_for_invite-Ends_example = wait_for_invite-Ends whole_numbers (pos 5) (pos 0) [] slices refl
