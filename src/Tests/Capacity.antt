-- ===== src/Tests/Capacity.antt =====
-- A level of the capacity probe (tools/capacity_probe.py) over the S-SBC mock.
use Prim.Native.Nat.{◌+◌}
use rdparty_as_poc.Prelude.{
  ℕ, ◌≤◌, not, is_some, List, String, ◌<>◌, ◌≡◌, refl, true, false, Option, none, some, [], ◌∷◌,
  All, ok, str_eq, ◌==◌, if◌then◌else◌,
}
use rdparty_as_poc.Prelude.Whitespace.{strip, is_space}
use rdparty_as_poc.Prelude.Int.{ℤ, pos}
use rdparty_as_poc.Prelude.Decimal.{show, show_from, digit}
use rdparty_as_poc.TrunkUac.{
  CallScenario, EventData, Event, TrunkUac, update, outcome_for, place_call, on_event,
}
use rdparty_as_poc.TrunkUac.Laws.{Step, Reach}
use rdparty_as_poc.CapacityProbe.{all_released, count_if, place_burst, observe_level}
use rdparty_as_poc.Prelude.Float.{whole_numbers}
use rdparty_as_poc.CapacityProbe.Unreachable.{Transaction, Message, observe_unreachable_hop}
use rdparty_as_poc.CapacityProbe.Unreachable.Laws.{observe_unreachable_hop-gave_up}
use rdparty_as_poc.CapacityProbe.Laws.{IsPrinted, observe_level-partition}

abbrev scenario : ℕ → CallScenario
scenario i = record { name = "capacity-" <> show i; abandon = false }

abbrev call_id : ℕ → String
call_id i = if i == 7 then "c-7" else "c-8"

abbrev idle : TrunkUac
idle = record { bound = true; outcomes = []; abandoning = []; disconnected = [] }

abbrev burst : TrunkUac
burst = (place_burst scenario call_id 7 2 idle).1

abbrev polled : TrunkUac
polled = on_event (Event.fail (EventData.code 480)) (scenario 8) "c-8" (
    on_event Event.disconnect (scenario 7) "c-7"
      (on_event (Event.connect (EventData.code 200)) (scenario 7) "c-7" burst))

-- A disconnection that is reported once more.
abbrev late : TrunkUac
late = on_event Event.disconnect (scenario 7) "c-7" polled

placed : (place_burst scenario call_id 7 2 idle).0 ≡ ok ("c-7" ∷ "c-8" ∷ [])
unfolding place_burst place_call
placed = refl

polled-released : all_released ("c-7" ∷ "c-8" ∷ []) polled.outcomes ≡ true
unfolding all_released outcome_for place_burst place_call on_event update show_from digit
polled-released = refl

observe_level-partition_example :
    let level = observe_level 2 ("c-7" ∷ "c-8" ∷ []) true late.outcomes in
    (level.completed + level.non_200 + level.pending ≡ 2)
    × (level.finished_within_cap ≡ (level.pending == 0))
observe_level-partition_example =
    observe_level-partition scenario call_id 7 2 idle polled late true ("c-7" ∷ "c-8" ∷ []) placed
      (λ done. polled-released)
      (Reach.next Reach.here (Step.observes Event.disconnect (scenario 7) "c-7" refl))

-- One client transaction with timer B armed, and one without.
abbrev transactions : List (Transaction whole_numbers)
transactions = record { timer_b = none } ∷ record { timer_b = some (true, pos 32) } ∷ []

abbrev messages : List Message
messages =
    record { direction = "out"; text = "INVITE sip:1" }
    ∷ record { direction = "out"; text = "INVITE sip:1" }
    ∷ record { direction = "in"; text = "SIP/2.0 100" }
    ∷ []

observe_unreachable_hop-gave_up_example :
    let o =
      observe_unreachable_hop whole_numbers
        (λ s. s)
        2
        ("c-7" ∷ "c-8" ∷ [])
        true
        late.outcomes
        transactions
        messages in
    (o.gave_up ≡ (o.released == o.placed))
    × (o.released ≤ o.placed)
    × (o.armed_timerb ≤ o.armed_transactions)
    × (is_some o.timerb_seconds ≡ not (o.armed_timerb == 0))
observe_unreachable_hop-gave_up_example =
    observe_unreachable_hop-gave_up whole_numbers (λ s. s) scenario call_id 7 2 idle polled late
      true ("c-7" ∷ "c-8" ∷ []) transactions messages placed (λ done. polled-released)
      (Reach.next Reach.here (Step.observes Event.disconnect (scenario 7) "c-7" refl))

completed : (observe_level 2 ("c-7" ∷ "c-8" ∷ []) true late.outcomes).completed ≡ 1
unfolding observe_level count_if outcome_for place_burst place_call on_event update show_from digit
completed = refl

-- The numbers that the sample option holds.
abbrev int : String → Option ℤ
int s = if str_eq s "1" then some (pos 1) else (if str_eq s "16" then some (pos 16) else none)

abbrev print : ℤ → String
print (ℤ.pos n) = if n == 1 then "1" else "16"
print (ℤ.negsuc n) = "-"

levels-IsPrinted : All (IsPrinted int print) (pos 1 ∷ pos 16 ∷ [])
unfolding strip is_space
levels-IsPrinted = ((refl, (refl, refl, λ e. cc), refl), ((refl, (refl, refl, λ e. cc), refl), tt))
