-- ===== src/LoadGenerator/Runs.antt =====
-- Runs of the load generator's pool and user agent together (tools/call_load_generator.py).
use rdparty_as_poc.Prelude.{
  ◌≤◌, ℕ, ◌+◌, ◌<◌, String, ◌≡◌, refl, ap, ◌∙◌, ◌≢◌, inl, inr, Bool, true, some, [], ◌∷◌, arith,
  eq_iff, Option-cases, ok,
}
use rdparty_as_poc.Prelude.Float.{Floats}
use rdparty_as_poc.Prelude.Dict.{lookup, remove, keys, count, count-remove, count-lookup}
use rdparty_as_poc.CallModel.{Rates, PoolConfig}
use rdparty_as_poc.CallModel.Laws.{IsChecked}
use rdparty_as_poc.LoadPool.{Draw, CallPool, init, tick, call_ended, set_config}
use rdparty_as_poc.LoadPool.Invariant.{call_ended-Inv}
use rdparty_as_poc.LoadUac.{
  Event, Timer, MockSipUac, start, fire, on_sippy_event, force_disconnect_all, notified,
}
use rdparty_as_poc.LoadUac.Laws.{
  occurrences, fire-occurrences, on_sippy_event-occurrences, disconnect_each-occurrences,
  actually_send_fresh,
}
use rdparty_as_poc.LoadGenerator.{LoadGenerator, ticked, run_scheduled, handle_ended}
use rdparty_as_poc.LoadGenerator.Laws.{ahead, IsBalanced, ticked-IsBalanced, none-counted}

module _ (f : Floats) (rates : Rates f) (Ua Callback : Type 0) (on_call_ended : Callback) where
  abbrev Generator : Type 0
  Generator = LoadGenerator f rates Ua Callback on_call_ended

  run_scheduled-IsBalanced :
      (call_id duration_class : String) (ua : Ua) (g : Generator)
      → lookup call_id g.scheduled ≡ some duration_class
      → g.uac.bound ≡ true
      → IsBalanced f rates Ua Callback on_call_ended g
      → IsBalanced f rates Ua Callback on_call_ended
          (run_scheduled f rates Ua Callback on_call_ended call_id duration_class ua g)
  unfolding run_scheduled
  run_scheduled-IsBalanced call_id duration_class ua g waits bound h =
      let left : (id : String)
          → count id (call_id ∷ keys (remove call_id g.scheduled)) ≡ count id (keys g.scheduled) =
        λ id. count-remove id call_id g.scheduled waits in
      let fresh : occurrences Ua Callback call_id g.uac ≡ 0 =
        ground (arith, left call_id, eq_iff call_id call_id, h.once call_id) in
      let sent : (id : String) → _ = λ id.
        actually_send_fresh Ua Callback call_id duration_class on_call_ended ua id g.uac bound
          fresh in
      record {
        pool = h.pool;
        balanced = λ id. ground (arith, h.balanced id, left id, sent id);
        once = λ id. ground (arith, h.once id, left id, sent id);
      }

  handle_ended-IsBalanced :
      (call_id : String) (g : Generator)
      → count call_id g.handled < count call_id (notified Ua Callback g.uac)
      → IsBalanced f rates Ua Callback on_call_ended g
      → IsBalanced f rates Ua Callback on_call_ended
          (handle_ended f rates Ua Callback on_call_ended call_id g)
  unfolding handle_ended call_ended
  handle_ended-IsBalanced call_id g told h =
      let d = g.pool.active_instances in
      elim (Option-cases (lookup call_id d)) [
        | inl unknown ↦
            absurd (omega (arith, count-lookup call_id d unknown, h.balanced call_id, told))
        | inr (c, known) ↦ record {
          pool = call_ended-Inv f rates call_id g.pool h.pool;
          balanced =
              λ id. rw known (ground (arith, h.balanced id, count-remove id call_id d known));
          once = h.once;
        }
      ]

  -- The stack's own steps.
  quiet-IsBalanced :
      (u : MockSipUac Ua Callback) (g : Generator)
      → ((id : String) → occurrences Ua Callback id u ≡ occurrences Ua Callback id g.uac)
      → IsBalanced f rates Ua Callback on_call_ended g
      → IsBalanced f rates Ua Callback on_call_ended (record g { uac = u })
  quiet-IsBalanced u g same h = record {
    pool = h.pool;
    balanced = λ id. omega (arith, same id, h.balanced id);
    once = λ id. omega (arith, same id, h.once id);
  }

  -- What may happen: the pool ticks, with identifiers that no call has had, or is configured anew; the
  -- stack, while it is bound, places a call that waits; it reports an event, a timer fires, or all calls
  -- are disconnected; or the pool's loop handles an end that it has been told of and has not handled.
  pub data Step (g h : Generator) : Type 0 where
    ticks :
        (now : f.Float) (draws : ℕ → Draw f) (q : CallPool f rates)
        → ((i : ℕ) → ahead f rates Ua Callback on_call_ended (draws i).call_id g ≡ 0)
        → ((i j : ℕ) → i < j → (draws i).call_id ≢ (draws j).call_id)
        → tick f rates now draws g.pool ≡ ok q
        → h ≡ ticked f rates Ua Callback on_call_ended draws q g
        → Step g h
    configures :
        (c : PoolConfig f rates) (now : f.Float)
        → IsChecked f rates c
        → h ≡ record g { pool = set_config f rates c now g.pool }
        → Step g h
    places :
        (call_id duration_class : String) (ua : Ua)
        → lookup call_id g.scheduled ≡ some duration_class
        → g.uac.bound ≡ true
        → h ≡ run_scheduled f rates Ua Callback on_call_ended call_id duration_class ua g
        → Step g h
    reports :
        (e : Event) (call_id : String)
        → h ≡ record g { uac = on_sippy_event Ua Callback e call_id g.uac }
        → Step g h
    fires : (t : Timer) → h ≡ record g { uac = fire Ua Callback t g.uac } → Step g h
    disconnects : h ≡ record g { uac = force_disconnect_all Ua Callback g.uac } → Step g h
    handles :
        (call_id : String)
        → count call_id g.handled < count call_id (notified Ua Callback g.uac)
        → h ≡ handle_ended f rates Ua Callback on_call_ended call_id g
        → Step g h

  pub data Reach (g : Generator) : Generator → Type 0 where
    here : Reach g g
    next : {h k : Generator} → Reach g h → Step h k → Reach g k

  Step-IsBalanced :
      (g h : Generator)
      → Step g h
      → IsBalanced f rates Ua Callback on_call_ended g
      → IsBalanced f rates Ua Callback on_call_ended h
  unfolding force_disconnect_all
  Step-IsBalanced g h (ticks now draws q new apart e x) b =
      rw x (ticked-IsBalanced f rates Ua Callback on_call_ended now draws q g new apart e b)
  Step-IsBalanced g h (configures c now checked x) b = rw x (record {
    pool = record { checked = checked; counted = b.pool.counted; bounded = b.pool.bounded };
    balanced = b.balanced;
    once = b.once;
  })
  Step-IsBalanced g h (places call_id duration_class ua waits bound x) b =
      rw x (run_scheduled-IsBalanced call_id duration_class ua g waits bound b)
  Step-IsBalanced g h (reports e call_id x) b =
      rw x
        (quiet-IsBalanced _ g (λ id. on_sippy_event-occurrences Ua Callback e call_id id g.uac) b)
  Step-IsBalanced g h (fires t x) b =
      rw x (quiet-IsBalanced _ g (λ id. fire-occurrences Ua Callback t id g.uac) b)
  Step-IsBalanced g h (disconnects x) b = rw x (
      quiet-IsBalanced _ g
        (λ id. disconnect_each-occurrences Ua Callback (keys g.uac.uacs) id g.uac) b)
  Step-IsBalanced g h (handles call_id told x) b = rw x (handle_ended-IsBalanced call_id g told b)

  Reach-IsBalanced :
      {g h : Generator}
      → IsBalanced f rates Ua Callback on_call_ended g
      → Reach g h
      → IsBalanced f rates Ua Callback on_call_ended h
  Reach-IsBalanced b here = b
  Reach-IsBalanced b (next r step) = Step-IsBalanced _ _ step (Reach-IsBalanced b r)

  abbrev pub begin : PoolConfig f rates → f.Float → Bool → Generator
  begin c now bound = record {
    pool = init f rates c now;
    scheduled = [];
    uac = start Ua Callback bound;
    handled = [];
  }

  begin-IsBalanced :
      (c : PoolConfig f rates) (now : f.Float) (bound : Bool)
      → IsChecked f rates c
      → IsBalanced f rates Ua Callback on_call_ended (begin c now bound)
  begin-IsBalanced c now bound checked = record {
    pool = record { checked = checked; counted = refl; bounded = omega arith };
    balanced = λ id. refl;
    once = λ id. omega arith;
  }

  -- From a start under a checked configuration and after any run in which no two calls have one
  -- identifier and calls are placed only while the stack is bound, each call of the pool, and each that
  -- it has dropped, is exactly once either yet to be placed, in flight, or told of, and no other call is.
  pub Reach-balanced :
      (c : PoolConfig f rates) (now : f.Float) (bound : Bool) (g : Generator) (id : String)
      → IsChecked f rates c
      → Reach (begin c now bound) g
      → let placed = count id (keys g.uac.known_call) + count id (notified Ua Callback g.uac) in
        (count id (keys g.pool.active_instances) + count id g.handled
          ≡ count id (keys g.scheduled) + placed)
        × (count id (keys g.scheduled) + placed ≤ 1)
  Reach-balanced c now bound g id checked r =
      let b = Reach-IsBalanced (begin-IsBalanced c now bound checked) r in
      (b.balanced id, b.once id)

  -- From a start under a checked configuration and after any run in which no two calls have one
  -- identifier and calls are placed only while the stack is bound, the pool counts no active call once
  -- nothing waits to be placed, no call is in flight, and every end that the pool was told of has been
  -- handled.
  pub Reach-drained :
      (c : PoolConfig f rates) (now : f.Float) (bound : Bool) (g : Generator)
      → IsChecked f rates c
      → Reach (begin c now bound) g
      → g.scheduled ≡ []
      → g.uac.known_call ≡ []
      → ((id : String) → count id g.handled ≡ count id (notified Ua Callback g.uac))
      → g.pool.active_calls ≡ 0
  Reach-drained c now bound g checked r nothing_waits nothing_flies all_handled =
      let b = Reach-IsBalanced (begin-IsBalanced c now bound checked) r in
      b.pool.counted
      ∙ none-counted g.pool.active_instances (λ id. omega (
        arith,
        b.balanced id,
        all_handled id,
        ap (λ d. count id (keys d)) nothing_waits,
        ap (λ d. count id (keys d)) nothing_flies,
      ))
