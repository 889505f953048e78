-- ===== src/LoadControl.antt =====
-- tools/call_load_generator.py: starting, stopping and configuring the pool over HTTP
-- (`build_generator_app` and the `_controller` of `_amain`), and the end of the process.
--
-- A coroutine is cut where it waits: `stop` waits for the task that it has cancelled, and other requests
-- may be handled until that task has ended and `stop` goes on. A tick task is its number and whether it
-- is cancelled; what a tick launches is in `LoadPool`, and a tick is taken to raise nothing.
-- `force_disconnect_all` asks the SIP stack, by a timer, to disconnect every call; the stack runs its
-- timers on its own thread, until `stop_sippy` has broken its loop. The clock is an argument.
pub mod Loops
pub mod Runs
pub mod Laws
pub mod Disconnecting
pub mod Stopping
use rdparty_as_poc.Prelude.{
  ℕ, zero, suc, String, Bool, true, false, not, ◌&&◌, ◌||◌, ◌==◌, ◌++◌, any, Option, none, some,
  List, [], ◌∷◌, leb, if◌then◌else◌, Result, ok, err,
}
use rdparty_as_poc.Prelude.Float.{Floats}
use rdparty_as_poc.CallModel.{
  Topology, Rates, PoolConfig, check_config, compute_binding_constraint, sorted,
}
use rdparty_as_poc.LoadPool.{CallPool, init, set_config}
use rdparty_as_poc.LoadUac.{MockSipUac, force_disconnect_all}

-- A task of `_tick_loop` that has not ended.
pub record TickTask : Type 0 where
  pub number : ℕ
  pub cancelled : Bool

-- `self._tick_task.cancel()`
unfoldable pub cancel : ℕ → List TickTask → List TickTask
cancel t [] = []
cancel t (k ∷ ks) =
    let rest = cancel t ks in
    record { number = k.number; cancelled = k.cancelled || k.number == t } ∷ rest

unfoldable pub has_task : ℕ → List TickTask → Bool
has_task t ks = any (λ k. k.number == t) ks

-- The first wait for a task is over.
unfoldable pub drop_number : ℕ → List ℕ → List ℕ
drop_number t [] = []
drop_number t (n ∷ ns) = let rest = drop_number t ns in if n == t then ns else n ∷ rest

-- `while self._running`, and the `CancelledError` of a cancelled task.
unfoldable pub end_task : ℕ → Bool → List TickTask → List TickTask
end_task t running [] = []
end_task t running (k ∷ ks) =
    let rest = end_task t running ks in
    if k.number == t && (k.cancelled || not running) then rest else k ∷ rest

module _ (f : Floats) (rates : Rates f) (Ua Callback : Type 0) where
  open rates use {tenth, ten}

  -- The pool with its lifecycle: the task that it keeps, the tick tasks that have not ended, the number
  -- of the next one, and the tasks that calls of `stop` wait for. Then the user agent, how many
  -- requests to disconnect every call wait with the stack, and whether the stack's loop runs.
  pub record LoadControl : Type 0 where
    pub pool : CallPool f rates
    pub running : Bool
    pub tick_task : Option ℕ
    pub tasks : List TickTask
    pub next_task : ℕ
    pub stopping : List ℕ
    pub uac : MockSipUac Ua Callback
    pub disconnects : ℕ
    pub stack_runs : Bool

  -- `CallPool.start`, which makes a new task
  unfoldable pub start : LoadControl → LoadControl
  start c = record c {
    running = true;
    tick_task = some c.next_task;
    tasks = c.tasks ++ (record { number = c.next_task; cancelled = false } ∷ []);
    next_task = suc c.next_task;
  }

  -- The end of `CallPool.stop`, which asks the user agent.
  abbrev pub force_disconnect : LoadControl → LoadControl
  force_disconnect c = record c { disconnects = suc c.disconnects }

  -- `CallPool.stop` as far as its `await`, or to its end where the pool keeps no task.
  abbrev pub stop_task : Option ℕ → LoadControl → LoadControl
  stop_task none c = force_disconnect c
  stop_task (some t) c = record c { tasks = cancel t c.tasks; stopping = c.stopping ++ (t ∷ []) }

  unfoldable pub stop : LoadControl → LoadControl
  unfolding cancel
  stop c = stop_task c.tick_task (record c { running = false })

  -- `CallPool.stop` behind its `await`, once the task has ended.
  unfoldable pub resume_stop : ℕ → LoadControl → LoadControl
  unfolding has_task drop_number
  resume_stop t c =
      if any (λ n. n == t) c.stopping && not (has_task t c.tasks)
      then force_disconnect (record c { tick_task = none; stopping = drop_number t c.stopping })
      else c

  -- A task goes on: it ends if it is cancelled, or at the loop's test.
  unfoldable pub tick_turn : ℕ → LoadControl → LoadControl
  unfolding end_task
  tick_turn t c = record c { tasks = end_task t c.running c.tasks }

  -- What `snapshot` reports, less the port.
  pub record Snapshot : Type 0 where
    pub running : Bool
    pub active_calls : ℕ
    pub target_concurrency : ℕ
    pub call_rate : f.Float
    pub binding_constraint : String
    pub enabled_call_types : List String
    pub rate_budget_remaining : f.Float
    pub topology : Topology

  -- `snapshot`, over how `round` rounds to two digits
  unfoldable pub snapshot : (f.Float → f.Float) → LoadControl → Snapshot
  unfolding compute_binding_constraint
  snapshot round2 c = record {
    running = c.running;
    active_calls = c.pool.active_calls;
    target_concurrency = c.pool.config.target_concurrency;
    call_rate = c.pool.config.call_rate;
    binding_constraint = compute_binding_constraint f rates c.pool.config;
    enabled_call_types = sorted c.pool.config.enabled_call_types;
    rate_budget_remaining = round2 c.pool.rate_budget;
    topology = c.pool.config.topology;
  }

  -- `_LoadConfigRequest`
  pub record ConfigRequest : Type 0 where
    pub target_concurrency : ℕ
    pub call_rate : f.Float
    pub enabled_call_types : List String
    pub topology : Option Topology

  -- The bounds of its fields, outside of which a request is answered 422.
  abbrev pub in_bounds : ConfigRequest → Bool
  in_bounds r =
      (leb 1 r.target_concurrency && leb r.target_concurrency 50)
      && (f.leb tenth r.call_rate && f.leb r.call_rate ten)

  -- `req.topology or current.get("topology", "simple")`
  abbrev pub or_current : Option Topology → Topology → Topology
  or_current none current = current
  or_current (some t) current = t

  abbrev pub config_of : ConfigRequest → LoadControl → PoolConfig f rates
  config_of r c = record {
    target_concurrency = r.target_concurrency;
    call_rate = r.call_rate;
    enabled_call_types = r.enabled_call_types;
    topology = or_current r.topology c.pool.config.topology;
  }

  abbrev pub configure :
      f.Float → PoolConfig f rates → Result String (Unit {0}) → LoadControl → ℕ × LoadControl
  configure now config (err e) c = (400, c)
  configure now config (ok _) c = (200, record c { pool = set_config f rates config now c.pool })

  pub data Request : Type 0 where
    status starts stops : Request
    configures : ConfigRequest → f.Float → Request

  -- The endpoints, with the status of the answer, which for a stop is given when the stop has ended.
  unfoldable pub handle : Request → LoadControl → ℕ × LoadControl
  unfolding check_config
  handle Request.status c = (200, c)
  handle Request.starts c = (200, if not c.running then start c else c)
  handle Request.stops c = (200, if c.running then stop c else c)
  handle (Request.configures r now) c =
      if in_bounds r
      then configure now (config_of r c) (check_config f rates (config_of r c)) c
      else (422, c)

  -- The stack runs the next request to disconnect every call.
  abbrev pub run_disconnects : ℕ → LoadControl → LoadControl
  run_disconnects zero c = c
  run_disconnects (suc n) c = record c {
    uac = force_disconnect_all Ua Callback c.uac;
    disconnects = n;
  }

  unfoldable pub stack_turn : LoadControl → LoadControl
  stack_turn c = if c.stack_runs then run_disconnects c.disconnects c else c

  -- `stop_sippy`
  abbrev pub stop_sippy : LoadControl → LoadControl
  stop_sippy c = record c { stack_runs = false; uac = record c.uac { bound = false } }

  -- `await pool.stop()`, over the task that the pool keeps.
  abbrev pub await_task : Option ℕ → LoadControl → LoadControl
  await_task none c = c
  await_task (some t) c = resume_stop t (tick_turn t c)

  -- What `_amain` does at its end, on its own thread.
  pub data Action : Type 0 where
    stops_sippy stops_pool : Action

  unfoldable pub act : Action → LoadControl → LoadControl
  act Action.stops_sippy c = stop_sippy c
  act Action.stops_pool c = if c.running then await_task c.tick_task (stop c) else c

  -- The end of `_amain`.
  abbrev pub shut_down : List Action
  shut_down = Action.stops_sippy ∷ Action.stops_pool ∷ []

  -- The process as `_amain` has built it.
  abbrev pub built : PoolConfig f rates → f.Float → MockSipUac Ua Callback → LoadControl
  built config now uac = record {
    pool = init f rates config now;
    running = false;
    tick_task = none;
    tasks = [];
    next_task = 0;
    stopping = [];
    uac = uac;
    disconnects = 0;
    stack_runs = true;
  }
