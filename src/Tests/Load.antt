-- ===== src/Tests/Load.antt =====
-- Runs of the load generator's pool (tools/call_load_generator.py).
use text.Mathlib.TextLemmas.{append_cancel_left}
use rdparty_as_poc.Prelude.{
  ℕ, sym, ap, ◌∙◌, ◌/◌, ◌≤◌, ◌<>◌, ◌≡◌, refl, true, [], ◌∷◌, length, ok, arith, str_le,
}
use rdparty_as_poc.Prelude.Int.{pos, pos_part, ◌-ℤ◌, -ℤ_parts}
use rdparty_as_poc.Prelude.Float.{whole_numbers}
use rdparty_as_poc.Prelude.Dict.{lookup, insert}
use rdparty_as_poc.CallModel.{
  Rates, Topology, PoolConfig, check_config, validate_enabled_for_topology, pick,
}
use rdparty_as_poc.CallModel.Laws.{IsChecked}
use rdparty_as_poc.Prelude.Decimal.{show, show_from, digit, read_from, read_from-show_append}
use rdparty_as_poc.Prelude.Sort.{key_le}
use rdparty_as_poc.LoadPool.{
  Draw, CallPool, instance_of, spawn_one, spawn_loop, init, tick, refill, refills, launch,
  call_ended,
}
use rdparty_as_poc.LoadPool.Invariant.{Inv, Reach, Step, Reach-init}
use rdparty_as_poc.LoadPool.Growth.{IsFresh}
use rdparty_as_poc.LoadPool.Rate.{IsTruncating, run_ticks, run_ticks-starved}

-- Rates in tenths of a call per second.
abbrev pub tenths : Rates whole_numbers
tenths = record {
  one = pos 10;
  tenth = pos 1;
  ten = pos 100;
  avg_duration_seconds = pos 104;
  trunc = λ x. pos_part x / 10;
  of_nat = λ n. pos n;
}

tenths-IsTruncating : IsTruncating whole_numbers tenths
tenths-IsTruncating = record {
  trunc_step = λ x n small big. ground (arith, -ℤ_parts x (pos 10));
  trunc_small = λ x low. ground arith;
}

-- Two calls at most, one and a half per second.
abbrev pub config : PoolConfig whole_numbers tenths
config = record {
  target_concurrency = 2;
  call_rate = pos 15;
  enabled_call_types = "T2" ∷ "T1" ∷ [];
  topology = Topology.simple;
}

pub config-IsChecked : IsChecked whole_numbers tenths config
unfolding check_config validate_enabled_for_topology
config-IsChecked = refl

abbrev pub draw : ℕ → Draw whole_numbers
draw i = record { call_id = "gen-" <> show i; type_draw = i; duration_draw = 3; at = pos 7 }

abbrev started : CallPool whole_numbers tenths
started = init whole_numbers tenths config (pos 0)

pub draw-IsFresh : IsFresh whole_numbers tenths draw started
unfolding lookup
draw-IsFresh = (λ i. refl, λ i j h e. omega (arith, number i j e))
  where
    number : (i j : ℕ) → (draw i).call_id ≡ (draw j).call_id → i ≡ j
    number i j e =
        sym (read_from-show_append i "" refl)
        ∙ ap (λ s. read_from 0 (s <> "")) (append_cancel_left "gen-" (show i) (show j) e)
        ∙ read_from-show_append j "" refl

started-Inv : Inv whole_numbers tenths started
started-Inv = record { checked = config-IsChecked; counted = refl; bounded = omega arith }

abbrev pub ticked : CallPool whole_numbers tenths
ticked = record started {
  active_calls = 1;
  active_instances = ("gen-0", instance_of whole_numbers tenths (draw 0) "T1") ∷ [];
  rate_budget = pos 5;
}

pub tick-started : tick whole_numbers tenths (pos 5) draw started ≡ ok ticked
unfolding tick launch spawn_loop spawn_one pick key_le str_le show_from digit insert ◌-ℤ◌
tick-started = refl

abbrev run : Reach whole_numbers tenths started (call_ended whole_numbers tenths "gen-0" ticked)
run =
    Reach.next (Reach.next Reach.here (Step.ticks (pos 5) draw draw-IsFresh tick-started))
      (Step.ends "gen-0" refl)

Reach-init_example :
    let p = call_ended whole_numbers tenths "gen-0" ticked in
    (p.active_calls ≡ length p.active_instances)
    × (p.active_calls ≤ 50)
    × IsChecked whole_numbers tenths p.config
Reach-init_example = Reach-init whole_numbers tenths config (pos 0) _ config-IsChecked run

launch-started :
    launch whole_numbers tenths draw (refill whole_numbers tenths (pos 12) started)
    ≡ ok (record ticked { last_budget_reset = pos 12 })
unfolding launch spawn_loop spawn_one pick key_le str_le show_from digit insert ◌-ℤ◌
launch-started = refl

refill-due : refills whole_numbers tenths (pos 12) started ≡ true
unfolding ◌-ℤ◌
refill-due = refl

-- Half a call per second.
abbrev slow : PoolConfig whole_numbers tenths
slow = record config { call_rate = pos 5 }

slow-IsChecked : IsChecked whole_numbers tenths slow
unfolding check_config validate_enabled_for_topology
slow-IsChecked = refl

run_ticks-starved_example :
    (q : CallPool whole_numbers tenths) × (run_ticks whole_numbers tenths
        ((pos 5, draw) ∷ (pos 20, draw) ∷ [])
        (init whole_numbers tenths slow (pos 0))
      ≡ ok q)
    × (q.active_calls ≡ 0)
run_ticks-starved_example =
    run_ticks-starved whole_numbers tenths tenths-IsTruncating slow (pos 0)
      ((pos 5, draw) ∷ (pos 20, draw) ∷ []) refl
