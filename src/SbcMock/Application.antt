-- ===== src/SbcMock/Application.antt =====
-- src/s_sbc_mock/main.py, `SMockApplication`: the scenarios that are placed one after the other.
--
-- The event loop fires one timer at a time, and the stack gives each call that is placed its Call-ID.
-- Timers are those of `_place_next`, with their delay and index, in the order in which they were asked
-- for. Floats are a parameter.
pub mod Laws
use rdparty_as_poc.Prelude.{
  ℕ, zero, suc, ◌+◌, ◌%◌, max, String, ◌<>◌, Bool, true, false, ◌||◌, Option, none, some, List, [],
  ◌∷◌, ◌++◌, length, code, ◌==◌, leb, ltb, if◌then◌else◌, is_empty, Result, ok, err,
}
use rdparty_as_poc.Prelude.Float.{Floats}
use rdparty_as_poc.Prelude.Decimal.{show, show_from}
use rdparty_as_poc.TrunkUac.{CallScenario, TrunkUac, place_call}

module _ (f : Floats) where
  -- A scenario with what the application reads of it.
  pub record Scenario : Type 0 where
    pub call : CallScenario
    pub calling_number : String
    pub called_number : String
    pub ring_seconds : f.Float
    pub talk_seconds : f.Float

  pub record MockConfig : Type 0 where
    pub scenarios : List Scenario
    pub repeat : Bool

  -- The shutdown flag, the trunk side, the timers of `_place_next`, and whether the loop was broken.
  pub record SMockApplication : Type 0 where
    pub config : MockConfig
    pub requested : Bool
    pub uac : TrunkUac
    pub timers : List (f.Float × ℕ)
    pub broken : Bool

  -- `scenarios[index]`, which is there or raises an `IndexError`
  abbrev pub get_elem? : List Scenario → ℕ → Option Scenario
  get_elem? [] index = none
  get_elem? (s ∷ ss) zero = some s
  get_elem? (s ∷ ss) (suc index) = get_elem? ss index

  -- `place_scenarios`
  abbrev pub place_scenarios : f.Float → SMockApplication → SMockApplication
  place_scenarios delay_seconds a = record a { timers = a.timers ++ (delay_seconds, 0) ∷ [] }

  module _ (one : f.Float) where
    -- `_gap_seconds`
    abbrev pub gap_seconds : Scenario → f.Float
    gap_seconds s = f.add (f.add one s.ring_seconds) s.talk_seconds

    -- The end of `_place_next`.
    abbrev pub schedule_next : Scenario → ℕ → SMockApplication → SMockApplication
    schedule_next s next_index a =
        let n = length a.config.scenarios in
        if ltb next_index n || a.config.repeat
        then record a { timers = a.timers ++ (gap_seconds s, next_index % max n 1) ∷ [] }
        else a

    -- The call of `place_call` in `_place_next`: what it raises leaves the method.
    abbrev pub placed_next :
        Scenario
        → ℕ
        → SMockApplication
        → Result String String × TrunkUac
        → Result String (Unit {0}) × SMockApplication
    placed_next s index a (err e, uac) = (err e, record a { uac = uac })
    placed_next s index a (ok _, uac) =
        (ok tt, schedule_next s (index + 1) (record a { uac = uac }))

    abbrev pub place_at :
        Option Scenario
        → ℕ
        → String
        → SMockApplication
        → Result String (Unit {0}) × SMockApplication
    place_at none index call_id a = (err "IndexError", a)
    place_at (some s) index call_id a = placed_next s index a (place_call s.call call_id a.uac)

    -- `_place_next`, with the Call-ID that the stack generates
    unfoldable pub place_next :
        ℕ → String → SMockApplication → Result String (Unit {0}) × SMockApplication
    place_next index call_id a =
        if a.requested || leb (length a.config.scenarios) index
        then (ok tt, a)
        else place_at (get_elem? a.config.scenarios index) index call_id a

    -- The loop fires the first of the timers.
    abbrev pub fire_first :
        List (f.Float × ℕ) → String → SMockApplication → Result String (Unit {0}) × SMockApplication
    fire_first [] call_id a = (ok tt, a)
    fire_first (t ∷ ts) call_id a = place_next t.1 call_id (record a { timers = ts })

    unfoldable pub fire : String → SMockApplication → Result String (Unit {0}) × SMockApplication
    fire call_id a = fire_first a.timers call_id a

  -- `_ShutdownFlag.request`
  abbrev pub request : SMockApplication → SMockApplication
  request a = record a { requested = true }

  -- `_poll_shutdown`
  abbrev pub poll_shutdown : SMockApplication → SMockApplication
  poll_shutdown a = if a.requested then record a { broken = true } else a

-- `call.partition("=")`: the parts around the first sign.
unfoldable pub partition : String → String × String
partition String.[] = ("", "")
partition (String.◌∷◌ c s) =
    let (left, right) = partition s in
    if code c == b'=' then ("", s) else (String.◌∷◌ c left, right)

-- `f"{n:02d}"`
unfoldable pub pad2 : ℕ → String
unfolding show_from
pad2 n = if ltb n 10 then "0" <> show n else show n

module _ (f : Floats) (ring_seconds talk_seconds : f.Float) where
  -- The loop of `main` over the calls of the command line, from a position on, with the defaults of
  -- `CallScenario`.
  unfoldable pub cli_scenarios : ℕ → List String → List (Scenario f)
  unfolding partition pad2
  cli_scenarios position [] = []
  cli_scenarios position (call ∷ calls) =
      record {
        call = record { name = "cli-" <> pad2 (position + 1); abandon = false };
        calling_number = (partition call).0;
        called_number = (partition call).1;
        ring_seconds = ring_seconds;
        talk_seconds = talk_seconds;
      }
      ∷ cli_scenarios (position + 1) calls

  -- `if not scenarios: scenarios.append(DEFAULT_SCENARIO)`
  abbrev pub or_default : List (Scenario f) → List (Scenario f)
  or_default [] =
      record {
        call = record { name = "office-to-mobile"; abandon = false };
        calling_number = "+86216180001";
        called_number = "+8613800138000";
        ring_seconds = ring_seconds;
        talk_seconds = talk_seconds;
      }
      ∷ []
  or_default (s ∷ ss) = s ∷ ss

  -- The application that `main` starts and runs, once both sides are bound: `run` places the scenarios
  -- where there are any.
  unfoldable pub main_application : f.Float → List String → Bool → TrunkUac → SMockApplication f
  main_application first_delay calls repeat uac = place_scenarios f first_delay (record {
    config = record { scenarios = or_default (cli_scenarios 0 calls); repeat = repeat };
    requested = false;
    uac = uac;
    timers = [];
    broken = false;
  })
