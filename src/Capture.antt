-- ===== src/Capture.antt =====
-- tools/capture_call.py: the poll that stops the loop once a call has settled, and how `run_call` ends.
--
-- The list `first_hold`, which has one element at most, is an option. The loop of the SIP stack is a
-- parameter: it appears as the turns in which it runs the poll or the timer of the deadline, each with the
-- mock's state by then, and a list of turns that is too short is told apart. Floats are a parameter.
pub mod Laws
use rdparty_as_poc.Prelude.{
  String, Bool, true, false, not, ◌&&◌, Option, none, some, List, [], ◌∷◌, Result, ok, err,
  if◌then◌else◌,
}
use rdparty_as_poc.Prelude.Float.{Floats}
use rdparty_as_poc.TrunkUac.{CallOutcome, TrunkUac, outcome_for}

-- `mock.uac.outcome_for(call_id) or outcome`
abbrev pub outcome_or : CallOutcome → Option CallOutcome → CallOutcome
outcome_or outcome none = outcome
outcome_or outcome (some o) = o

unfoldable pub current : String → CallOutcome → TrunkUac → CallOutcome
unfolding outcome_for
current call_id outcome u = outcome_or outcome (outcome_for call_id u.outcomes)

-- `run_call.released`
unfoldable pub released : String → CallOutcome → TrunkUac → Bool
unfolding current
released call_id outcome u = (current call_id outcome u).released

module _ (f : Floats) where
  -- Whether the loop is stopped, over what `first_hold` holds.
  abbrev pub stops : f.Float → f.Float → Option f.Float → Bool
  stops settle_seconds now none = false
  stops settle_seconds now (some first) = f.leb settle_seconds (f.sub now first)

  abbrev pub first_of : f.Float → Option f.Float → Option f.Float
  first_of now none = some now
  first_of now (some first) = some first

  -- `_break_after_settle.poll`: what `first_hold` holds next, and whether the loop is stopped.
  unfoldable pub poll : f.Float → Bool → f.Float → Option f.Float → Option f.Float × Bool
  poll settle_seconds holds now first_hold =
      if holds
      then (first_of now first_hold, stops settle_seconds now first_hold)
      else (none, false)

  -- A turn of the loop: the poll, with the clock that it reads, or the deadline's timer.
  pub data Turn : Type 0 where
    polls : f.Float → TrunkUac → Turn
    expires : TrunkUac → Turn

  -- `ED2.loop()`, with the mock's state when it is stopped.
  unfoldable pub loop : f.Float → (TrunkUac → Bool) → Option f.Float → List Turn → Option TrunkUac
  unfolding poll
  loop settle_seconds holds first_hold [] = none
  loop settle_seconds holds first_hold (Turn.expires u ∷ turns) = some u
  loop settle_seconds holds first_hold (Turn.polls now u ∷ turns) =
      let (held, stopped) = poll settle_seconds (holds u) now first_hold in
      let rest = loop settle_seconds holds held turns in if stopped then some u else rest

  abbrev pub completed : String → CallOutcome → TrunkUac → Result String CallOutcome
  completed call_id outcome u =
      if not (released call_id outcome u)
      then err "TimeoutError"
      else ok (current call_id outcome u)

  -- `run_call` behind the call that it places, with the outcome of the run.
  unfoldable pub run_call :
      f.Float → String → CallOutcome → List Turn → Option (Result String CallOutcome)
  unfolding loop released
  run_call settle_seconds call_id outcome turns =
      elim (loop settle_seconds (released call_id outcome) none turns) [
        | none ↦ none
        | some u ↦ some (completed call_id outcome u)
      ]
