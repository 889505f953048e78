-- ===== src/LoadPool/Invariant.antt =====
-- The count of active calls is the number of calls that the pool knows, and it never passes the
-- target (tools/call_load_generator.py, `CallPool`).
use rdparty_as_poc.Prelude.{
  ℕ, ◌≤◌, max, String, ◌≡◌, refl, sym, ap, subst, ◌∙◌, inl, inr, arith, length, ok-injective,
  Option-cases, ok,
}
use rdparty_as_poc.Prelude.Float.{Floats}
use rdparty_as_poc.Prelude.Dict.{lookup, length-remove}
use rdparty_as_poc.CallModel.{Rates, PoolConfig}
use rdparty_as_poc.CallModel.Laws.{IsChecked, IsChecked-parts}
use rdparty_as_poc.LoadPool.{Draw, CallPool, init, set_config, refill, tick, call_ended}
use rdparty_as_poc.LoadPool.Growth.{IsCounted, IsFresh, launch-Grown, refill_fields}

module _ (f : Floats) (rates : Rates f) where
  -- What holds of a pool between two operations.
  pub record Inv (p : CallPool f rates) : Type 0 where
    pub checked : IsChecked f rates p.config
    pub counted : IsCounted f rates p
    pub bounded : p.active_calls ≤ 50

  -- A tick returns, keeps the invariant, and fills the pool no further than the target.
  pub tick-Inv :
      (now : f.Float) (draws : ℕ → Draw f) (p : CallPool f rates)
      → Inv p
      → IsFresh f rates draws p
      → (q : CallPool f rates) × (tick f rates now draws p ≡ ok q)
        × Inv q
        × (p.active_calls ≤ q.active_calls)
        × (q.active_calls ≤ max p.active_calls p.config.target_concurrency)
  unfolding tick
  tick-Inv now draws p inv fresh =
      let r = refill f rates now p in
      let (same_config, same_active, same_known) = refill_fields f rates now p in
      let checked : IsChecked f rates r.config = rw same_config inv.checked in
      let counted : IsCounted f rates r = rw (same_active, same_known) inv.counted in
      let fresh' : IsFresh f rates draws r = rw same_known fresh in
      let (q, n, launched, g, bound) = launch-Grown f rates draws r checked counted fresh' in
      let target : r.config.target_concurrency ≡ p.config.target_concurrency =
        ap (λ (c : PoolConfig f rates). c.target_concurrency) same_config in
      let below : q.active_calls ≤ max p.active_calls p.config.target_concurrency =
        ground (arith, bound, g.grown, same_active, target) in
      let ((_, fifty), _, _, _, _) = IsChecked-parts f rates p.config inv.checked in
      (
        q,
        launched,
        record {
          checked = rw (g.config, same_config) inv.checked;
          counted = g.counted;
          bounded = omega (arith, below, inv.bounded, fifty);
        },
        omega (arith, g.grown, same_active),
        below,
      )

  pub call_ended-Inv :
      (call_id : String) (p : CallPool f rates) → Inv p → Inv (call_ended f rates call_id p)
  unfolding call_ended
  call_ended-Inv call_id p inv = elim (Option-cases (lookup call_id p.active_instances)) [
    | inl unknown ↦ rw unknown inv
    | inr (c, known) ↦
        let shorter = length-remove call_id p.active_instances known in
        rw known (record {
          checked = inv.checked;
          counted = omega (arith, inv.counted, shorter);
          bounded = omega (arith, inv.bounded);
        })
  ]

  -- What may happen to a pool.
  pub data Step (p q : CallPool f rates) : Type 0 where
    ticks :
        (now : f.Float) (draws : ℕ → Draw f)
        → IsFresh f rates draws p
        → tick f rates now draws p ≡ ok q
        → Step p q
    ends : (call_id : String) → q ≡ call_ended f rates call_id p → Step p q
    configures :
        (c : PoolConfig f rates) (now : f.Float)
        → IsChecked f rates c
        → q ≡ set_config f rates c now p
        → Step p q

  pub data Reach (p : CallPool f rates) : CallPool f rates → Type 0 where
    here : Reach p p
    next : {q r : CallPool f rates} → Reach p q → Step q r → Reach p r

  Step-Inv : (p q : CallPool f rates) → Step p q → Inv p → Inv q
  Step-Inv p q (ticks now draws fresh e) inv =
      let (r, returned, inv', _, _) = tick-Inv now draws p inv fresh in
      subst Inv (ok-injective (sym returned ∙ e)) inv'
  Step-Inv p q (ends call_id e) inv = subst Inv (sym e) (call_ended-Inv call_id p inv)
  Step-Inv p q (configures c now checked e) inv =
      subst Inv (sym e) (record { checked = checked; counted = inv.counted; bounded = inv.bounded })

  Reach-Inv : {p q : CallPool f rates} → Inv p → Reach p q → Inv q
  Reach-Inv inv here = inv
  Reach-Inv inv (next r step) = Step-Inv _ _ step (Reach-Inv inv r)

  -- From a start under a checked configuration, and after any ticks with fresh identifiers, ends of
  -- calls, known or not, and changes to other checked configurations, the count of active calls is the
  -- number of calls that the pool knows, it is at most 50, and the configuration is a checked one.
  pub Reach-init :
      (c : PoolConfig f rates) (now : f.Float) (p : CallPool f rates)
      → IsChecked f rates c
      → Reach (init f rates c now) p
      → (p.active_calls ≡ length p.active_instances)
        × (p.active_calls ≤ 50)
        × IsChecked f rates p.config
  Reach-init c now p checked r =
      let inv = Reach-Inv (record { checked = checked; counted = refl; bounded = omega arith }) r in
      (inv.counted, inv.bounded, inv.checked)
