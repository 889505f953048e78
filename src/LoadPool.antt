-- ===== src/LoadPool.antt =====
-- tools/call_load_generator.py, `CallPool`: the concurrency pool and its rate budget.
--
-- The event loop runs one operation at a time: the lock is only waited for inside an operation that
-- awaits nothing else, so each operation here is one step. The clock, the identifiers and the random
-- draws are arguments. The number of active calls is a natural number: it is only lowered for a call
-- that is there.
pub mod Growth
pub mod Invariant
pub mod Rate
use rdparty_as_poc.Prelude.{
  ℕ, zero, suc, ◌+◌, ◌-◌, String, Bool, true, false, ◌||◌, Option, none, some, [], leb, min,
  if◌then◌else◌, is_some, str_eq, Result, ok, err, ◌>>=◌,
}
use rdparty_as_poc.Prelude.Float.{Floats}
use rdparty_as_poc.Prelude.Dict.{Dict, lookup, insert, remove}
use rdparty_as_poc.CallModel.{Rates, PoolConfig, pick, pick_duration}

module _ (f : Floats) where
  pub record CallInstance : Type 0 where
    pub call_id : String
    pub call_type : String
    pub duration_class : String
    pub far_end_behavior : String
    pub started_at : f.Float

  -- What one spawn draws: the identifier, the two random choices, and the clock.
  pub record Draw : Type 0 where
    pub call_id : String
    pub type_draw : ℕ
    pub duration_draw : ℕ
    pub at : f.Float

  module _ (rates : Rates f) where
    open rates use {one, trunc}

    pub record CallPool : Type 0 where
      pub config : PoolConfig f rates
      pub active_calls : ℕ
      pub active_instances : Dict CallInstance
      pub rate_budget : f.Float
      pub last_budget_reset : f.Float

    -- `CallPool.__init__`
    abbrev pub init : PoolConfig f rates → f.Float → CallPool
    init config now = record {
      config = config;
      active_calls = 0;
      active_instances = [];
      rate_budget = config.call_rate;
      last_budget_reset = now;
    }

    -- `set_config`
    abbrev pub set_config : PoolConfig f rates → f.Float → CallPool → CallPool
    set_config config now p = record p {
      config = config;
      rate_budget = config.call_rate;
      last_budget_reset = now;
    }

    abbrev pub instance_of : Draw → String → CallInstance
    instance_of d call_type =
        let duration_class = pick_duration d.duration_draw in
        record {
          call_id = d.call_id;
          call_type = call_type;
          duration_class = duration_class;
          far_end_behavior =
              if str_eq duration_class "D4" then "timeout_no_answer" else "answer_and_bye";
          started_at = d.at;
        }

    -- `_spawn_one`
    unfoldable pub spawn_one : Draw → CallPool → Result String CallPool
    spawn_one d p = pick d.type_draw p.config.enabled_call_types >>= λ call_type. ok (record p {
      active_instances = insert d.call_id (instance_of d call_type) p.active_instances;
      active_calls = p.active_calls + 1;
    })

    -- The loop of `_tick`.
    unfoldable pub spawn_loop : ℕ → (ℕ → Draw) → CallPool → Result String CallPool
    spawn_loop zero draws p = ok p
    spawn_loop (suc n) draws p = spawn_one (draws 0) p >>= λ q.
        spawn_loop n (λ i. draws (i + 1)) (record q { rate_budget = f.sub q.rate_budget one })

    -- The first part of `_tick`.
    abbrev pub refills : f.Float → CallPool → Bool
    refills now p = f.leb one (f.sub now p.last_budget_reset)

    abbrev pub refill : f.Float → CallPool → CallPool
    refill now p =
        if refills now p
        then record p { rate_budget = p.config.call_rate; last_budget_reset = now }
        else p

    -- The second part of `_tick`, under the lock.
    unfoldable pub launch : (ℕ → Draw) → CallPool → Result String CallPool
    launch draws p =
        if leb p.config.target_concurrency p.active_calls || f.leb p.rate_budget f.zero
        then ok p
        else spawn_loop (min (p.config.target_concurrency - p.active_calls) (trunc p.rate_budget))
            draws p

    -- `_tick`
    unfoldable pub tick : f.Float → (ℕ → Draw) → CallPool → Result String CallPool
    tick now draws p = launch draws (refill now p)

    -- `_async_on_call_ended`
    unfoldable pub call_ended : String → CallPool → CallPool
    call_ended call_id p =
        if is_some (lookup call_id p.active_instances)
        then record p {
          active_instances = remove call_id p.active_instances;
          active_calls = p.active_calls - 1;
        }
        else p
