-- ===== src/LoadPool/Growth.antt =====
-- What the ticks of the load generator's pool add to it (tools/call_load_generator.py, `CallPool`).
use rdparty_as_poc.Prelude.{
  List, [], ◌∷◌, ℕ, zero, suc, ◌+◌, ◌-◌, ◌≤◌, ◌<◌, min, String, ◌≡◌, refl, ◌≢◌, ◌⊎◌, inl, inr, ◌||◌,
  none, arith, length, leb, eq_iff, Bool-cases, ok,
}
use rdparty_as_poc.Prelude.Float.{Floats}
use rdparty_as_poc.Prelude.Dict.{
  count, keys, count-insert, count-lookup, lookup, insert, lookup-insert, length-insert,
}
use rdparty_as_poc.CallModel.{Rates}
use rdparty_as_poc.CallModel.Laws.{IsChecked, pick-IsChecked}
use rdparty_as_poc.LoadPool.{
  Draw, CallPool, instance_of, spawn_one, spawn_loop, refills, refill, launch,
}

module _ (f : Floats) (rates : Rates f) where
  -- Each active call is known, under its own identifier.
  abbrev pub IsCounted : CallPool f rates → Type 0
  IsCounted p = p.active_calls ≡ length p.active_instances

  -- The identifiers that a tick draws are new, and differ from one another.
  abbrev pub IsFresh : (ℕ → Draw f) → CallPool f rates → Type 0
  IsFresh draws p =
      ((i : ℕ) → lookup (draws i).call_id p.active_instances ≡ none)
      × ((i j : ℕ) → i < j → (draws i).call_id ≢ (draws j).call_id)

  -- The identifiers of a number of draws.
  abbrev pub drawn : ℕ → (ℕ → Draw f) → List String
  drawn zero draws = []
  drawn (suc n) draws = (draws 0).call_id ∷ drawn n (λ i. draws (i + 1))

  -- What a run of spawns changes: nothing but the instances, their count and the budget; the calls
  -- that it adds are the drawn ones.
  pub record Grown (n : ℕ) (draws : ℕ → Draw f) (p q : CallPool f rates) : Type 0 where
    pub counted : IsCounted q
    pub grown : q.active_calls ≡ p.active_calls + n
    pub config : q.config ≡ p.config
    pub known :
        (id : String)
        → count id (keys q.active_instances)
          ≡ count id (keys p.active_instances) + count id (drawn n draws)

  spawn_loop-Grown :
      (n : ℕ) (draws : ℕ → Draw f) (p : CallPool f rates)
      → IsChecked f rates p.config
      → IsCounted p
      → IsFresh draws p
      → (q : CallPool f rates) × (spawn_loop f rates n draws p ≡ ok q) × Grown n draws p q
  unfolding spawn_loop spawn_one
  spawn_loop-Grown zero draws p checked counted fresh = (
    p,
    refl,
    record { counted = counted; grown = omega arith; config = refl; known = λ id. omega arith },
  )
  spawn_loop-Grown (suc n) draws p checked counted (new, apart) =
      let d = draws 0 in
      let (t, picked, _, _) = pick-IsChecked f rates p.config d.type_draw checked in
      let q : CallPool f rates = record p {
        active_instances = insert d.call_id (instance_of f rates d t) p.active_instances;
        active_calls = p.active_calls + 1;
        rate_budget = f.sub p.rate_budget rates.one;
      } in
      let counted' : IsCounted q = omega (
        arith,
        counted,
        length-insert d.call_id (instance_of f rates d t) p.active_instances (new 0),
      ) in
      let fresh' : IsFresh (λ i. draws (i + 1)) q = (
        λ i. ground (
          arith,
          lookup-insert d.call_id (draws (i + 1)).call_id (instance_of f rates d t)
              p.active_instances,
          new (i + 1),
          eq_iff d.call_id (draws (i + 1)).call_id,
          apart 0 (i + 1) (omega arith),
        ),
        λ i j h. apart (i + 1) (j + 1) (omega arith),
      ) in
      let (r, looped, g) = spawn_loop-Grown n (λ i. draws (i + 1)) q checked counted' fresh' in
      (
        r,
        rw (picked, looped),
        record {
          counted = g.counted;
          grown = omega (arith, g.grown);
          config = g.config;
          known = λ id. ground (
            arith,
            g.known id,
            count-insert id d.call_id (instance_of f rates d t) p.active_instances
                (count-lookup d.call_id p.active_instances (new 0)),
          );
        },
      )

  -- A tick's second part returns, and fills the pool no further than its target.
  pub launch-Grown :
      (draws : ℕ → Draw f) (p : CallPool f rates)
      → IsChecked f rates p.config
      → IsCounted p
      → IsFresh draws p
      → (q : CallPool f rates) × (n : ℕ) × (launch f rates draws p ≡ ok q)
        × Grown n draws p q
        × ((n ≡ 0) ⊎ (p.active_calls + n ≤ p.config.target_concurrency))
  unfolding launch
  launch-Grown draws p checked counted fresh =
      let n = min (p.config.target_concurrency - p.active_calls) (rates.trunc p.rate_budget) in
      elim (Bool-cases
        (leb p.config.target_concurrency p.active_calls || f.leb p.rate_budget f.zero)) [
          | inl full ↦ (
            p,
            0,
            rw full,
            record {
              counted = counted;
              grown = omega arith;
              config = refl;
              known = λ id. omega arith;
            },
            inl refl,
          )
          | inr room ↦
              let (q, looped, g) = spawn_loop-Grown n draws p checked counted fresh in
              (q, n, rw (room, looped), g, inr (ground arith))
        ]

  -- A refill touches the budget only.
  pub refill_fields :
      (now : f.Float) (p : CallPool f rates)
      → let q = refill f rates now p in
        (q.config ≡ p.config)
        × (q.active_calls ≡ p.active_calls)
        × (q.active_instances ≡ p.active_instances)
  refill_fields now p = elim (Bool-cases (refills f rates now p)) [
    | inl due ↦ rw due (refl, refl, refl)
    | inr early ↦ rw early (refl, refl, refl)
  ]
