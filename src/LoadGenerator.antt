-- ===== src/LoadGenerator.antt =====
-- tools/call_load_generator.py: the pool and its user agent together. The pool asks the user agent to
-- place a call and enters it (`_spawn_one`); the user agent places it later, on the thread of the SIP
-- stack (`_send_invite_real`); and when it tells of the end, the pool drops the call still later, on
-- its own loop (`_on_call_ended`). Children `Laws` and `Runs` show that no
-- call is lost in between.
--
-- The calls that are yet to be placed are kept by identifier, with their duration class, and the ends
-- that the pool has handled are recorded, newest first. The callback of every call is the pool's.
pub mod Laws
pub mod Runs
use rdparty_as_poc.Prelude.{ℕ, zero, suc, ◌+◌, ◌-◌, String, List, [], ◌∷◌, ◌++◌}
use rdparty_as_poc.Prelude.Float.{Floats}
use rdparty_as_poc.Prelude.Dict.{Dict, remove}
use rdparty_as_poc.CallModel.{Rates, pick_duration}
use rdparty_as_poc.LoadPool.{Draw, CallPool, call_ended}
use rdparty_as_poc.LoadUac.{MockSipUac, actually_send}

module _ (f : Floats) (rates : Rates f) (Ua Callback : Type 0) (on_call_ended : Callback) where
  pub record LoadGenerator : Type 0 where
    pub pool : CallPool f rates
    pub scheduled : Dict String
    pub uac : MockSipUac Ua Callback
    pub handled : List String

  -- `_send_invite_real` for each call of a tick.
  abbrev pub schedule : ℕ → (ℕ → Draw f) → Dict String
  schedule zero draws = []
  schedule (suc n) draws =
      ((draws 0).call_id, pick_duration (draws 0).duration_draw) ∷ schedule n (λ i. draws (i + 1))

  -- What a tick that led to a pool leaves.
  unfoldable pub ticked : (ℕ → Draw f) → CallPool f rates → LoadGenerator → LoadGenerator
  ticked draws pool g = record g {
    pool = pool;
    scheduled = g.scheduled ++ schedule (pool.active_calls - g.pool.active_calls) draws;
  }

  -- The stack runs what was scheduled for a call.
  unfoldable pub run_scheduled : String → String → Ua → LoadGenerator → LoadGenerator
  run_scheduled call_id duration_class ua g = record g {
    scheduled = remove call_id g.scheduled;
    uac = actually_send Ua Callback call_id duration_class on_call_ended ua g.uac;
  }

  -- The loop runs what `_on_call_ended` handed over to it.
  unfoldable pub handle_ended : String → LoadGenerator → LoadGenerator
  handle_ended call_id g = record g {
    pool = call_ended f rates call_id g.pool;
    handled = call_id ∷ g.handled;
  }
