-- ===== src/Tests/Probe.antt =====
-- The capacity probe's load, its loop and a silent hop (tools/capacity_probe.py).
use mathlib.Core.List.{Memᴰ}
use rdparty_as_poc.Prelude.{◌≢◌, refl, true, some, [], ◌∷◌}
use rdparty_as_poc.Prelude.Float.{whole_numbers}
use rdparty_as_poc.Screening.{ScreeningVerdict, screen}
use rdparty_as_poc.ScreeningData.{ListMatch}
use rdparty_as_poc.ScreeningData.Document.{ScreeningData}
use rdparty_as_poc.FraudCall.{signals_of, thresholds_of}
use rdparty_as_poc.CapacityProbe.Load.{load_scenario, load_scenario-unscreened}
use rdparty_as_poc.Tests.Samples.{lists}
use rdparty_as_poc.Tests.FraudCalls.{first_call}

abbrev fleet : ListMatch
fleet = record { entry_id = "AL-0001"; value = "+86138001380"; reason = "fleet" }

abbrev fleet_lists : ScreeningData whole_numbers
fleet_lists = record lists { allow = (fleet, true) ∷ [] }

load_scenario-unscreened_example :
    (screen whole_numbers
      (signals_of whole_numbers fleet_lists (some (load_scenario 7).calling_number) (first_call ""))
      (thresholds_of whole_numbers fleet_lists)).verdict
    ≢ ScreeningVerdict.reject
load_scenario-unscreened_example =
    load_scenario-unscreened whole_numbers fleet_lists fleet 7 (first_call "") (Memᴰ.head refl) refl
