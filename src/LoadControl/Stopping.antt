-- ===== src/LoadControl/Stopping.antt =====
-- What stopping the pool does to the calls in flight (tools/call_load_generator.py, `CallPool.stop`,
-- `force_disconnect_all` and the end of `_amain`).
use rdparty_as_poc.Prelude.{
  ℕ, zero, suc, ◌≡◌, refl, ap, ◌∙◌, true, false, Option, none, some, List, [], ◌∷◌, arith, ◌==◌,
  ◌++◌, any, sym, subst, if◌then◌else◌,
}
use rdparty_as_poc.Prelude.Float.{Floats}
use rdparty_as_poc.CallModel.{Rates}
use rdparty_as_poc.LoadUac.{MockSipUac, force_disconnect_all}
use rdparty_as_poc.LoadControl.{
  LoadControl, Request, TickTask, cancel, has_task, end_task, stop_task, stop, await_task,
  resume_stop, tick_turn, handle, run_disconnects, stack_turn, Action, stop_sippy, act, shut_down,
}
use rdparty_as_poc.LoadControl.Loops.{if-inv}
use rdparty_as_poc.LoadControl.Disconnecting.{IsDict, agents_then, disconnect_each-uacs}

module _ (Ua Callback : Type 0) where
  module _ (f : Floats) (rates : Rates f) where
    -- The stop that waits for a task, once that task has ended.
    abbrev pub stopped : ℕ → LoadControl f rates Ua Callback → LoadControl f rates Ua Callback
    stopped t c =
        resume_stop f rates Ua Callback t
          (tick_turn f rates Ua Callback t (handle f rates Ua Callback Request.stops c).1)

    cancelled-ends :
        (t : ℕ) (ks : List TickTask) → has_task t (end_task t false (cancel t ks)) ≡ false
    unfolding has_task end_task cancel
    cancelled-ends t [] = refl
    cancelled-ends t (k ∷ ks) = ground (arith, cancelled-ends t ks)

    waits-last : (t : ℕ) (ns : List ℕ) → any (λ n. n == t) (ns ++ (t ∷ [])) ≡ true
    waits-last t [] = ground arith
    waits-last t (n ∷ ns) = ground (arith, waits-last t ns)

    resume_stop-some :
        (t : ℕ) (c : LoadControl f rates Ua Callback)
        → any (λ n. n == t) c.stopping ≡ true
        → has_task t c.tasks ≡ false
        → let d = resume_stop f rates Ua Callback t c in
          (d.running ≡ c.running)
          × (d.uac ≡ c.uac)
          × (d.disconnects ≡ suc c.disconnects)
          × (d.stack_runs ≡ c.stack_runs)
    unfolding resume_stop
    resume_stop-some t c waits missing = (
      ground (arith, waits, missing),
      ground (arith, waits, missing),
      ground (arith, waits, missing),
      ground (arith, waits, missing),
    )

    -- A stop that has waited for its task asks the user agent, and has touched nothing of it.
    await_task-asks :
        (o : Option ℕ) (c : LoadControl f rates Ua Callback)
        → c.running ≡ false
        → let d = await_task f rates Ua Callback o (stop_task f rates Ua Callback o c) in
          (d.running ≡ false)
          × (d.uac ≡ c.uac)
          × (d.disconnects ≡ suc c.disconnects)
          × (d.stack_runs ≡ c.stack_runs)
    unfolding tick_turn
    await_task-asks none c off = (off, refl, refl, refl)
    await_task-asks (some t) c off =
        let ended : has_task t (end_task t c.running (cancel t c.tasks)) ≡ false =
          ap (λ b. has_task t (end_task t b (cancel t c.tasks))) off ∙ cancelled-ends t c.tasks in
        let (on, uac, asked, runs) = resume_stop-some t _ (waits-last t c.stopping) ended in
        (on ∙ off, uac, asked, runs)

    run_disconnects-suc :
        (n : ℕ) (asked : ℕ) (c : LoadControl f rates Ua Callback)
        → asked ≡ suc n
        → ((run_disconnects f rates Ua Callback asked c).running ≡ c.running)
          × ((run_disconnects f rates Ua Callback asked c).uac
              ≡ force_disconnect_all Ua Callback c.uac)
    run_disconnects-suc n zero c h = cc
    run_disconnects-suc n (suc m) c h = (refl, refl)

    stack_turn-suc :
        (n : ℕ) (c : LoadControl f rates Ua Callback)
        → c.stack_runs ≡ true
        → c.disconnects ≡ suc n
        → ((stack_turn f rates Ua Callback c).running ≡ c.running)
          × ((stack_turn f rates Ua Callback c).uac ≡ force_disconnect_all Ua Callback c.uac)
    unfolding stack_turn
    stack_turn-suc n c runs asked =
        if-inv
          (λ (d : LoadControl f rates Ua Callback).
            (d.running ≡ c.running) × (d.uac ≡ force_disconnect_all Ua Callback c.uac))
          c.stack_runs _ c (λ on. run_disconnects-suc n c.disconnects c asked) (λ off. cc)

    -- When a pool that runs is stopped over HTTP while the stack runs, and the task that it keeps has
    -- ended, the stack's next turn disconnects the user agent of every call in flight, each once and in
    -- order, and none is left.
    pub stops-disconnects :
        (t : ℕ) (c : LoadControl f rates Ua Callback)
        → c.running ≡ true
        → c.tick_task ≡ some t
        → c.stack_runs ≡ true
        → IsDict Ua Callback c.uac.uacs
        → let d = stack_turn f rates Ua Callback (stopped t c) in
          (d.running ≡ false)
          × (d.uac.uacs ≡ [])
          × (d.uac.disconnected ≡ agents_then Ua Callback c.uac.uacs c.uac.disconnected)
    unfolding handle stop force_disconnect_all
    stops-disconnects t c on kept runs dict =
        let halted : LoadControl f rates Ua Callback = record c { running = false } in
        let handled : (handle f rates Ua Callback Request.stops c).1
            ≡ stop_task f rates Ua Callback (some t) halted =
          ap (λ b. if b then stop_task f rates Ua Callback c.tick_task halted else c) on
          ∙ ap (λ o. stop_task f rates Ua Callback o halted) kept in
        let (off, uac, asked, still) = await_task-asks (some t) halted refl in
        let same : stopped t c
            ≡ await_task f rates Ua Callback (some t)
                (stop_task f rates Ua Callback (some t) halted) =
          ap (await_task f rates Ua Callback (some t)) handled in
        let (off', all) = stack_turn-suc c.disconnects _ (still ∙ runs) asked in
        let (left, told) = disconnect_each-uacs Ua Callback c.uac.uacs c.uac refl dict in
        let uac' = all ∙ ap (force_disconnect_all Ua Callback) uac in
        subst
          (λ d.
            ((stack_turn f rates Ua Callback d).running ≡ false)
            × ((stack_turn f rates Ua Callback d).uac.uacs ≡ [])
            × ((stack_turn f rates Ua Callback d).uac.disconnected
                ≡ agents_then Ua Callback c.uac.uacs c.uac.disconnected))
          (sym same)
          (off' ∙ off, ap (λ u. u.uacs) uac' ∙ left, ap (λ u. u.disconnected) uac' ∙ told)

    abbrev pub turns : ℕ → LoadControl f rates Ua Callback → LoadControl f rates Ua Callback
    turns zero c = c
    turns (suc n) c = turns n (stack_turn f rates Ua Callback c)

    -- Some actions in order, with some turns of the stack's own thread behind each.
    abbrev pub interleave :
        (ℕ → ℕ)
        → List (Action f rates Ua Callback)
        → LoadControl f rates Ua Callback
        → LoadControl f rates Ua Callback
    interleave gaps [] c = c
    interleave gaps (a ∷ actions) c =
        interleave (λ i. gaps (suc i)) actions (turns (gaps 0) (act f rates Ua Callback a c))

    turns-halted :
        (n : ℕ) (c : LoadControl f rates Ua Callback) → c.stack_runs ≡ false → turns n c ≡ c
    unfolding stack_turn
    turns-halted zero c halted = refl
    turns-halted (suc n) c halted =
        let still : stack_turn f rates Ua Callback c ≡ c =
          ap (λ b. if b then run_disconnects f rates Ua Callback c.disconnects c else c) halted in
        ap (turns n) still ∙ turns-halted n c halted

    -- Stopping the pool behind the loop's end leaves a request that no turn runs.
    stops_pool-halted :
        (n : ℕ) (c : LoadControl f rates Ua Callback)
        → c.stack_runs ≡ false
        → let d = turns n (act f rates Ua Callback Action.stops_pool c) in
          (d.running ≡ false) × (d.uac ≡ c.uac)
    unfolding act stop
    stops_pool-halted n c halted =
        let stops : LoadControl f rates Ua Callback =
          await_task f rates Ua Callback c.tick_task
            (stop_task f rates Ua Callback c.tick_task (record c { running = false })) in
        let (off, uac, _, still) =
          await_task-asks c.tick_task (record c { running = false }) refl in
        if-inv
          (λ (e : LoadControl f rates Ua Callback).
            ((turns n e).running ≡ false) × ((turns n e).uac ≡ c.uac))
          c.running stops c
          (λ on.
            subst (λ d. (d.running ≡ false) × (d.uac ≡ c.uac))
              (sym (turns-halted n stops (still ∙ halted))) (off, uac))
          (λ off.
            subst (λ d. (d.running ≡ false) × (d.uac ≡ c.uac)) (sym (turns-halted n c halted))
              (off, refl))

    -- When the process ends, whatever turns the stack's thread takes behind each of the two actions, no user
    -- agent is disconnected and all calls in flight stay, though the pool is stopped.
    pub shut_down-undisconnected :
        (gaps : ℕ → ℕ) (c : LoadControl f rates Ua Callback)
        → let d = interleave gaps (shut_down f rates Ua Callback) c in
          (d.running ≡ false)
          × (d.uac.uacs ≡ c.uac.uacs)
          × (d.uac.disconnected ≡ c.uac.disconnected)
    unfolding act
    shut_down-undisconnected gaps c =
        let broken : LoadControl f rates Ua Callback = stop_sippy f rates Ua Callback c in
        let (off, kept) = stops_pool-halted (gaps 1) broken refl in
        subst
          (λ (d : LoadControl f rates Ua Callback).
            let e = turns (gaps 1) (act f rates Ua Callback Action.stops_pool d) in
            (e.running ≡ false)
            × (e.uac.uacs ≡ c.uac.uacs)
            × (e.uac.disconnected ≡ c.uac.disconnected))
          (sym (turns-halted (gaps 0) broken refl))
          (
            off,
            ap (λ (u : MockSipUac Ua Callback). u.uacs) kept,
            ap (λ (u : MockSipUac Ua Callback). u.disconnected) kept,
          )
