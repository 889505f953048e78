-- ===== src/LoadControl/Runs.antt =====
-- The pool's process in any interleaving (tools/call_load_generator.py), and the one loop that it has where
-- no start is handled while a stop waits.
use rdparty_as_poc.Prelude.{
  ℕ, zero, suc, String, ◌≡◌, refl, ap, ◌∙◌, subst, Bool, true, false, not, ◌&&◌, ◌==◌, ◌⊎◌,
  is_empty, any, Option, none, some, List, [], ◌∷◌, ◌++◌, length, filter, arith, if◌then◌else◌,
  Result, ok, err, inl, inr, Bool-cases,
}
use rdparty_as_poc.Prelude.Float.{Floats}
use rdparty_as_poc.CallModel.{Rates, PoolConfig}
use rdparty_as_poc.LoadControl.{
  TickTask, end_task, LoadControl, Request, start, stop_task, stop, resume_stop, tick_turn,
  configure, config_of, in_bounds, handle, run_disconnects, stack_turn,
}
use rdparty_as_poc.LoadControl.Loops.{
  going, going-append, going-cancel, going-end_task, going-none, OneLoop, is_empty-eq, if-inv,
}

module _ (f : Floats) (rates : Rates f) (Ua Callback : Type 0) where
  -- What happens to the process: a request is handled, as far as it goes without waiting, a stop goes on
  -- behind the task that it waits for, a tick task goes on, or the stack runs a timer.
  pub data Event : Type 0 where
    requests : Request f rates Ua Callback → Event
    resumes ticks : ℕ → Event
    stack_turns : Event

  abbrev pub after : Event → LoadControl f rates Ua Callback → LoadControl f rates Ua Callback
  after (requests r) c = (handle f rates Ua Callback r c).1
  after (resumes t) c = resume_stop f rates Ua Callback t c
  after (ticks t) c = tick_turn f rates Ua Callback t c
  after stack_turns c = stack_turn f rates Ua Callback c

  abbrev pub run : List Event → LoadControl f rates Ua Callback → LoadControl f rates Ua Callback
  run [] c = c
  run (e ∷ events) c = run events (after e c)

  -- A pool is started while a stop of it waits.
  abbrev pub overlaps : Event → LoadControl f rates Ua Callback → Bool
  overlaps (requests Request.starts) c = not c.running && not (is_empty c.stopping)
  overlaps _ c = false

  abbrev pub is_serial : List Event → LoadControl f rates Ua Callback → Bool
  is_serial [] c = true
  is_serial (e ∷ events) c = not (overlaps e c) && is_serial events (after e c)

  abbrev pub HasOneLoop : LoadControl f rates Ua Callback → Type 0
  HasOneLoop c = OneLoop c.running c.tick_task c.tasks c.stopping

  stop_task-OneLoop :
      (o : Option ℕ) (c : LoadControl f rates Ua Callback)
      → OneLoop true o c.tasks c.stopping
      → c.running ≡ false
      → HasOneLoop (stop_task f rates Ua Callback o c)
  stop_task-OneLoop none c h off = absurd h
  stop_task-OneLoop (some t) c (h, _) off =
      rw off (going-cancel t c.tasks ∙ ap (filter (λ n. not (n == t))) h ∙ ground arith)

  -- A stop that waits finds the pool not running.
  resumed-OneLoop :
      (t : ℕ) (running missing : Bool) (o : Option ℕ) (ks : List TickTask) (ns left : List ℕ)
      → OneLoop running o ks ns
      → (any (λ n. n == t) ns && missing) ≡ true
      → OneLoop running none ks left
  resumed-OneLoop t true missing none ks ns left h waits = absurd h
  resumed-OneLoop t true missing (some n) ks [] left h waits = cc
  resumed-OneLoop t true missing (some n) ks (m ∷ ns) left (h, e) waits = cc
  resumed-OneLoop t false missing o ks ns left h waits = h

  resume-OneLoop :
      (t : ℕ) (c : LoadControl f rates Ua Callback)
      → HasOneLoop c
      → HasOneLoop (resume_stop f rates Ua Callback t c)
  unfolding resume_stop
  resume-OneLoop t c h =
      if-inv HasOneLoop _ _ c
        (λ waits. resumed-OneLoop t c.running _ c.tick_task c.tasks c.stopping _ h waits)
        (λ idle. h)

  tick-OneLoop :
      (t : ℕ) (running : Bool) (o : Option ℕ) (ks : List TickTask) (ns : List ℕ)
      → OneLoop running o ks ns
      → OneLoop running o (end_task t running ks) ns
  tick-OneLoop t true none ks ns h = h
  tick-OneLoop t true (some n) ks ns (h, e) = (going-end_task t ks ∙ h, e)
  tick-OneLoop t false o ks ns h = going-none t ks h

  start-OneLoop :
      (c : LoadControl f rates Ua Callback)
      → HasOneLoop c
      → c.running ≡ false
      → is_empty c.stopping ≡ true
      → HasOneLoop (start f rates Ua Callback c)
  unfolding start
  start-OneLoop c h off idle =
      let none_on : going c.tasks ≡ [] =
        subst (λ b. OneLoop b c.tick_task c.tasks c.stopping) off h in
      (
        going-append c.next_task c.tasks ∙ ap (λ ns. ns ++ (c.next_task ∷ [])) none_on,
        is_empty-eq c.stopping idle,
      )

  handle-OneLoop :
      (r : Request f rates Ua Callback) (c : LoadControl f rates Ua Callback)
      → overlaps (requests r) c ≡ false
      → HasOneLoop c
      → HasOneLoop (handle f rates Ua Callback r c).1
  unfolding handle stop
  handle-OneLoop Request.status c alone h = h
  handle-OneLoop Request.starts c alone h =
      if-inv HasOneLoop (not c.running) _ c
        (λ off. start-OneLoop c h (ground (arith, off)) (ground (arith, off, alone))) (λ on. h)
  handle-OneLoop Request.stops c alone h =
      if-inv HasOneLoop c.running _ c
        (λ on.
          stop_task-OneLoop c.tick_task (record c { running = false })
            (subst (λ b. OneLoop b c.tick_task c.tasks c.stopping) on h) refl)
        (λ off. h)
  handle-OneLoop (Request.configures r now) c alone h =
      if-inv (λ (a : ℕ × LoadControl f rates Ua Callback). HasOneLoop a.1)
        (in_bounds f rates Ua Callback r) _ _
        (λ inside. configure-OneLoop now (config_of f rates Ua Callback r c) _ c h) (λ outside. h)
    where
      configure-OneLoop :
          (now : f.Float) (config : PoolConfig f rates) (o : Result String (Unit {0}))
          (c : LoadControl f rates Ua Callback)
          → HasOneLoop c
          → HasOneLoop (configure f rates Ua Callback now config o c).1
      configure-OneLoop now config (err e) c h = h
      configure-OneLoop now config (ok tt) c h = h

  stack_turn-OneLoop :
      (c : LoadControl f rates Ua Callback)
      → HasOneLoop c
      → HasOneLoop (stack_turn f rates Ua Callback c)
  unfolding stack_turn
  stack_turn-OneLoop c h =
      if-inv HasOneLoop c.stack_runs _ c (λ runs. disconnects-OneLoop c.disconnects c h)
        (λ halted. h)
    where
      disconnects-OneLoop :
          (n : ℕ) (c : LoadControl f rates Ua Callback)
          → HasOneLoop c
          → HasOneLoop (run_disconnects f rates Ua Callback n c)
      disconnects-OneLoop zero c h = h
      disconnects-OneLoop (suc n) c h = h

  after-OneLoop :
      (e : Event) (c : LoadControl f rates Ua Callback)
      → overlaps e c ≡ false
      → HasOneLoop c
      → HasOneLoop (after e c)
  unfolding tick_turn
  after-OneLoop (requests r) c alone h = handle-OneLoop r c alone h
  after-OneLoop (resumes t) c alone h = resume-OneLoop t c h
  after-OneLoop (ticks t) c alone h = tick-OneLoop t c.running c.tick_task c.tasks c.stopping h
  after-OneLoop stack_turns c alone h = stack_turn-OneLoop c h

  pub run-OneLoop :
      (events : List Event) (c : LoadControl f rates Ua Callback)
      → HasOneLoop c
      → (is_serial events c ≡ false) ⊎ HasOneLoop (run events c)
  run-OneLoop [] c h = inr h
  run-OneLoop (e ∷ events) c h = elim (Bool-cases (overlaps e c)) [
    | inl both ↦ inl (rw both)
    | inr alone ↦ rw alone (run-OneLoop events (after e c) (after-OneLoop e c alone h))
  ]

  pub OneLoop-length :
      (running : Bool) (o : Option ℕ) (ks : List TickTask) (ns : List ℕ)
      → OneLoop running o ks ns
      → length (going ks) ≡ (if running then 1 else 0)
  OneLoop-length true none ks ns h = absurd h
  OneLoop-length true (some t) ks ns (h, _) = ap length h
  OneLoop-length false o ks ns h = ap length h
