-- ===== src/LoadControl/Laws.antt =====
-- The pool over HTTP, in any interleaving: its configuration stays valid, and its tick loops
-- (tools/call_load_generator.py, `build_generator_app`, `_controller` and `CallPool`).
use rdparty_as_poc.Prelude.{
  ℕ, String, ◌≡◌, refl, ap, ◌∙◌, Bool, true, false, not, ◌||◌, ◌⊎◌, is_empty, Option, none, some,
  List, [], ◌∷◌, ◌++◌, length, arith, if◌then◌else◌, Result, ok, err, inl, inr,
}
use rdparty_as_poc.Prelude.Float.{Floats}
use rdparty_as_poc.CallModel.{Rates, PoolConfig, check_config}
use rdparty_as_poc.LoadUac.{MockSipUac}
use rdparty_as_poc.LoadControl.{
  TickTask, end_task, LoadControl, Request, start, stop_task, stop, resume_stop, tick_turn,
  configure, config_of, in_bounds, handle, stack_turn, built,
}
use rdparty_as_poc.LoadControl.Loops.{going, going-append, going-end_task, if-inv}
use rdparty_as_poc.LoadControl.Runs.{Event, after, run, is_serial, run-OneLoop, OneLoop-length}

module _ (f : Floats) (rates : Rates f) (Ua Callback : Type 0) where
  -- The configuration in force passes its checks, and a loop goes on while the pool runs.
  pub record IsSteady (c : LoadControl f rates Ua Callback) : Type 0 where
    pub checked : check_config f rates c.pool.config ≡ ok tt
    pub loops : (not c.running || not (is_empty (going c.tasks))) ≡ true

  not_empty-append : (ns : List ℕ) (n : ℕ) → is_empty (ns ++ (n ∷ [])) ≡ false
  not_empty-append [] n = refl
  not_empty-append (m ∷ ns) n = refl

  start-IsSteady :
      (c : LoadControl f rates Ua Callback) → IsSteady c → IsSteady (start f rates Ua Callback c)
  unfolding start
  start-IsSteady c steady = record {
    checked = steady.checked;
    loops =
        ap (λ ns. not (is_empty ns)) (going-append c.next_task c.tasks)
        ∙ ap not (not_empty-append (going c.tasks) c.next_task);
  }

  stop_task-IsSteady :
      (o : Option ℕ) (c : LoadControl f rates Ua Callback)
      → check_config f rates c.pool.config ≡ ok tt
      → c.running ≡ false
      → IsSteady (stop_task f rates Ua Callback o c)
  stop_task-IsSteady none c checked off = record { checked = checked; loops = rw off }
  stop_task-IsSteady (some t) c checked off = record { checked = checked; loops = rw off }

  configure-IsSteady :
      (now : f.Float) (config : PoolConfig f rates) (r : Result String (Unit {0}))
      (c : LoadControl f rates Ua Callback)
      → check_config f rates config ≡ r
      → IsSteady c
      → IsSteady (configure f rates Ua Callback now config r c).1
  configure-IsSteady now config (err e) c h steady = steady
  configure-IsSteady now config (ok tt) c h steady = record { checked = h; loops = steady.loops }

  tick_turn-loops :
      (t : ℕ) (running : Bool) (ks : List TickTask)
      → (not running || not (is_empty (going ks))) ≡ true
      → (not running || not (is_empty (going (end_task t running ks)))) ≡ true
  tick_turn-loops t true ks h = rw (going-end_task t ks) h
  tick_turn-loops t false ks h = refl

  after-IsSteady :
      (e : Event f rates Ua Callback) (c : LoadControl f rates Ua Callback)
      → IsSteady c
      → IsSteady (after f rates Ua Callback e c)
  unfolding handle stop resume_stop tick_turn stack_turn
  after-IsSteady (Event.requests Request.status) c steady = steady
  after-IsSteady (Event.requests Request.starts) c steady =
      if-inv IsSteady (not c.running) _ c (λ off. start-IsSteady c steady) (λ on. steady)
  after-IsSteady (Event.requests Request.stops) c steady =
      if-inv IsSteady c.running _ c
        (λ on. stop_task-IsSteady c.tick_task (record c { running = false }) steady.checked refl)
        (λ off. steady)
  after-IsSteady (Event.requests (Request.configures r now)) c steady =
      if-inv (λ (a : ℕ × LoadControl f rates Ua Callback). IsSteady a.1)
        (in_bounds f rates Ua Callback r) _ _
        (λ inside. configure-IsSteady now (config_of f rates Ua Callback r c) _ c refl steady)
        (λ outside. steady)
  after-IsSteady (Event.resumes t) c steady = record {
    checked = ground (arith, steady.checked);
    loops = ground (arith, steady.loops);
  }
  after-IsSteady (Event.ticks t) c steady = record {
    checked = steady.checked;
    loops = tick_turn-loops t c.running c.tasks steady.loops;
  }
  after-IsSteady Event.stack_turns c steady = record {
    checked = ground (arith, steady.checked);
    loops = ground (arith, steady.loops);
  }

  run_kept :
      (events : List (Event f rates Ua Callback)) (c : LoadControl f rates Ua Callback)
      → IsSteady c
      → IsSteady (run f rates Ua Callback events c)
  run_kept [] c steady = steady
  run_kept (e ∷ events) c steady =
      run_kept events (after f rates Ua Callback e c) (after-IsSteady e c steady)

  -- From a process that was built under a checked configuration, in whatever order requests are handled,
  -- stops go on behind the task that they wait for, tick tasks go on and the stack runs its timers, the
  -- configuration in force passes its checks, and a tick loop that is not cancelled goes on while
  -- the pool runs. And either the pool was started while a stop waited, or exactly one such loop
  -- goes on while the pool runs and none while it does not.
  pub run-IsSteady :
      (config : PoolConfig f rates) (now : f.Float) (uac : MockSipUac Ua Callback)
      (events : List (Event f rates Ua Callback))
      → check_config f rates config ≡ ok tt
      → let c = run f rates Ua Callback events (built f rates Ua Callback config now uac) in
        IsSteady c
        × ((is_serial f rates Ua Callback events (built f rates Ua Callback config now uac) ≡ false)
            ⊎ (length (going c.tasks) ≡ (if c.running then 1 else 0)))
  run-IsSteady config now uac events checked =
      let c = run f rates Ua Callback events (built f rates Ua Callback config now uac) in
      (
        run_kept events (built f rates Ua Callback config now uac)
            (record { checked = checked; loops = refl }),
        elim (run-OneLoop f rates Ua Callback events (built f rates Ua Callback config now uac)
            refl) [
              | inl overlapped ↦ inl overlapped
              | inr h ↦
                  inr
                    (OneLoop-length f rates Ua Callback c.running c.tick_task c.tasks c.stopping h)
            ],
      )
