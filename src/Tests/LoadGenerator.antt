-- ===== src/Tests/LoadGenerator.antt =====
-- A call of the load generator from its tick to its end (tools/call_load_generator.py).
use rdparty_as_poc.Prelude.{◌≤◌, ◌+◌, ◌<◌, String, ◌≡◌, refl, true, some, [], arith}
use rdparty_as_poc.Prelude.Int.{pos, ◌-ℤ◌}
use rdparty_as_poc.Prelude.Float.{whole_numbers}
use rdparty_as_poc.Prelude.Dict.{lookup, insert, remove, keys, count}
use rdparty_as_poc.Prelude.Decimal.{show_from, digit}
use rdparty_as_poc.LoadUac.{Event, actually_send, cleanup_call, on_sippy_event, notified}
use rdparty_as_poc.LoadGenerator.{LoadGenerator, ticked, run_scheduled, handle_ended}
use rdparty_as_poc.LoadGenerator.Runs.{Step, Reach, begin, Reach-balanced, Reach-drained}
use rdparty_as_poc.Tests.Load
use rdparty_as_poc.Tests.Load.{tenths, config, config-IsChecked, draw, draw-IsFresh, tick-started}

abbrev Generator : Type 0
Generator = LoadGenerator whole_numbers tenths String String "pool"

abbrev started : Generator
started = begin whole_numbers tenths String String "pool" config (pos 0) true

abbrev waiting : Generator
waiting = ticked whole_numbers tenths String String "pool" draw Load.ticked started

abbrev flying : Generator
flying = run_scheduled whole_numbers tenths String String "pool" "gen-0" "D4" "ua-0" waiting

abbrev over : Generator
over = record flying { uac = on_sippy_event String String Event.disconnect "gen-0" flying.uac }

abbrev drained : Generator
drained = handle_ended whole_numbers tenths String String "pool" "gen-0" over

waits : lookup "gen-0" waiting.scheduled ≡ some "D4"
unfolding ticked lookup ◌-ℤ◌ show_from digit
waits = refl

told : count "gen-0" over.handled < count "gen-0" (notified String String over.uac)
unfolding ticked run_scheduled actually_send on_sippy_event cleanup_call lookup insert remove
told = omega arith

run : Reach whole_numbers tenths String String "pool" started drained
unfolding ticked
run =
    Reach.next
      (Reach.next
        (Reach.next
          (Reach.next Reach.here
            (Step.ticks (pos 5) draw Load.ticked (λ i. refl) draw-IsFresh.1 tick-started refl))
          (Step.places "gen-0" "D4" "ua-0" waits refl refl))
        (Step.reports Event.disconnect "gen-0" refl))
      (Step.handles "gen-0" told refl)

Reach-balanced_example :
    let placed =
      count "gen-0" (keys drained.uac.known_call)
      + count "gen-0" (notified String String drained.uac) in
    (count "gen-0" (keys drained.pool.active_instances) + count "gen-0" drained.handled
      ≡ count "gen-0" (keys drained.scheduled) + placed)
    × (count "gen-0" (keys drained.scheduled) + placed ≤ 1)
Reach-balanced_example =
    Reach-balanced whole_numbers tenths String String "pool" config (pos 0) true drained "gen-0"
      config-IsChecked run

none-scheduled : drained.scheduled ≡ []
unfolding ticked run_scheduled handle_ended remove show_from digit ◌-ℤ◌
none-scheduled = refl

none-known : drained.uac.known_call ≡ []
unfolding ticked run_scheduled handle_ended actually_send on_sippy_event cleanup_call lookup insert
    remove
none-known = refl

all_handled :
    (id : String) → count id drained.handled ≡ count id (notified String String drained.uac)
unfolding ticked run_scheduled handle_ended actually_send on_sippy_event cleanup_call lookup insert
    remove
all_handled id = refl

Reach-drained_example : drained.pool.active_calls ≡ 0
Reach-drained_example =
    Reach-drained whole_numbers tenths String String "pool" config (pos 0) true drained
      config-IsChecked run none-scheduled none-known all_handled
