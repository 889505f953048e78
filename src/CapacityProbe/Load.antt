-- ===== src/CapacityProbe/Load.antt =====
-- tools/capacity_probe.py, `load_scenario`: the caller of a load call, and what the anti-fraud server's
-- allow list makes of it.
use mathlib.Core.List.{Memᴰ}
use text.Mathlib.TextPositions.{starts_with-append}
use rdparty_as_poc.Prelude.{
  ℕ, String, ◌<>◌, ◌≡◌, ◌≢◌, refl, false, true, Option, none, some, ltb, if◌then◌else◌,
}
use rdparty_as_poc.Prelude.Float.{Floats}
use rdparty_as_poc.Prelude.Decimal.{show, show_from}
use rdparty_as_poc.TrunkUac.{CallScenario}
use rdparty_as_poc.Screening.{ScreeningVerdict, screen}
use rdparty_as_poc.Screening.Laws.{screen_reject_iff}
use rdparty_as_poc.CallerState.{CallerSignals}
use rdparty_as_poc.ScreeningData.{ListMatch, pad4}
use rdparty_as_poc.ScreeningData.Document.{ScreeningData}
use rdparty_as_poc.ScreeningData.Matching.{match_index-eq-none}
use rdparty_as_poc.FraudCall.{signals_of, thresholds_of, entry_id_of}

-- A scenario with the numbers of its call.
pub record LoadScenario : Type 0 where
  pub call : CallScenario
  pub calling_number : String
  pub called_number : String

-- `f"{index:03d}"`
unfoldable pub pad3 : ℕ → String
unfolding show_from
pad3 n = if ltb n 10 then "00" <> show n else (if ltb n 100 then "0" <> show n else show n)

-- `ALLOWED_CALLER_PREFIX`
abbrev pub allowed_caller_prefix : String
allowed_caller_prefix = "+86138001380"

-- `load_scenario`
unfoldable pub load_scenario : ℕ → LoadScenario
unfolding pad3 pad4
load_scenario index = record {
  call = record { name = "capacity-" <> pad4 index; abandon = false };
  calling_number = allowed_caller_prefix <> pad3 index;
  called_number = "+8613800138000";
}

entry_id_of-none : (o : Option ListMatch) → entry_id_of o ≡ none → o ≡ none
entry_id_of-none none h = refl
entry_id_of-none (some m) h = cc

module _ (f : Floats) where
  -- Where the allow list has the fleet's prefix as a prefix entry, screening rejects no load call, whatever
  -- the block list says and whatever was observed of the caller.
  pub load_scenario-unscreened :
      (lists : ScreeningData f) (e : ListMatch) (index : ℕ) (caller : CallerSignals f)
      → Memᴰ (e, true) lists.allow
      → e.value ≡ allowed_caller_prefix
      → (screen f
          (signals_of f lists (some (load_scenario index).calling_number) caller)
          (thresholds_of f lists)).verdict
        ≢ ScreeningVerdict.reject
  unfolding load_scenario
  load_scenario-unscreened lists e index caller listed fleet rejected =
      let signals = signals_of f lists (some (load_scenario index).calling_number) caller in
      let (_, unlisted, _) = (screen_reject_iff f signals (thresholds_of f lists)).0 rejected in
      let unmatched = entry_id_of-none _ unlisted in
      (match_index-eq-none lists.allow (load_scenario index).calling_number).0 unmatched (e, true)
        listed (rw fleet (starts_with-append allowed_caller_prefix (pad3 index)))
