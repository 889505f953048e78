-- ===== src/LoadPool/Rate.antt =====
-- How many calls the rate budget of the pool lets through (tools/call_load_generator.py,
-- `CallPool._tick`).
use rdparty_as_poc.Prelude.{
  String, ℕ, zero, suc, ◌+◌, ◌-◌, ◌≤◌, min, ◌≡◌, refl, sym, ap, ◌∙◌, inl, inr, true, ◌||◌, List, [],
  ◌∷◌, arith, leb, Bool-cases, Result, ok, ◌>>=◌, ok-injective, >>=-eq-ok,
}
use rdparty_as_poc.Prelude.Float.{Floats}
use rdparty_as_poc.CallModel.{Rates, PoolConfig, pick}
use rdparty_as_poc.CallModel.Laws.{IsChecked, IsChecked-parts}
use rdparty_as_poc.LoadPool.{
  Draw, CallPool, init, spawn_one, spawn_loop, refills, refill, launch, tick, call_ended,
}

-- What the pool relies on of `int` and of `x - 1.0`, which is exact for the budgets up to 10.
pub record IsTruncating (f : Floats) (rates : Rates f) : Type 0 where
  pub trunc_step :
      (x : f.Float) (n : ℕ)
      → f.leb x rates.ten ≡ true
      → rates.trunc x ≡ suc n
      → (rates.trunc (f.sub x rates.one) ≡ n) × (f.leb (f.sub x rates.one) rates.ten ≡ true)
  pub trunc_small : (x : f.Float) → f.ltb x rates.one ≡ true → rates.trunc x ≡ 0

module _ (f : Floats) (rates : Rates f) where
  -- Launches, and ends of calls, with no refill among them, and how many calls they launched.
  pub data Window (p : CallPool f rates) : ℕ → CallPool f rates → Type 0 where
    here : Window p 0 p
    launches :
        {n : ℕ} {q r : CallPool f rates} (draws : ℕ → Draw f)
        → Window p n q
        → launch f rates draws q ≡ ok r
        → Window p (n + (r.active_calls - q.active_calls)) r
    ends :
        {n : ℕ} {q : CallPool f rates} (call_id : String)
        → Window p n q
        → Window p n (call_ended f rates call_id q)

  -- A number of ticks, each with its instant and its draws.
  unfoldable pub run_ticks :
      List (f.Float × (ℕ → Draw f)) → CallPool f rates → Result String (CallPool f rates)
  run_ticks [] p = ok p
  run_ticks ((now, draws) ∷ rest) p = tick f rates now draws p >>= λ q. run_ticks rest q

module _ (f : Floats) (rates : Rates f) (law : IsTruncating f rates) where
  spawn_loop-budget :
      (n : ℕ) (draws : ℕ → Draw f) (p q : CallPool f rates)
      → f.leb p.rate_budget rates.ten ≡ true
      → n ≤ rates.trunc p.rate_budget
      → spawn_loop f rates n draws p ≡ ok q
      → (q.active_calls ≡ p.active_calls + n)
        × (rates.trunc q.rate_budget + n ≡ rates.trunc p.rate_budget)
        × (f.leb q.rate_budget rates.ten ≡ true)
  unfolding spawn_loop spawn_one
  spawn_loop-budget zero draws p q small enough e =
      let same : p ≡ q = ok-injective e in rw (← same) (omega arith, omega arith, small)
  spawn_loop-budget (suc n) draws p q small enough e =
      let (r, spawned, rest) = >>=-eq-ok (spawn_one f rates (draws 0) p) _ e in
      let (t, picked, made) =
        >>=-eq-ok (pick (draws 0).type_draw p.config.enabled_call_types) _ spawned in
      let same = ok-injective made in
      let budget : r.rate_budget ≡ p.rate_budget =
        ap (λ (s : CallPool f rates). s.rate_budget) (sym same) in
      let active : r.active_calls ≡ p.active_calls + 1 =
        ap (λ (s : CallPool f rates). s.active_calls) (sym same) in
      let (k, left) = left_over in
      let (lower, small') = law.trunc_step p.rate_budget k small left in
      let s : CallPool f rates = record r { rate_budget = f.sub r.rate_budget rates.one } in
      let lower' : rates.trunc s.rate_budget ≡ k =
        ap (λ x. rates.trunc (f.sub x rates.one)) budget ∙ lower in
      let small'' : f.leb s.rate_budget rates.ten ≡ true =
        ap (λ x. f.leb (f.sub x rates.one) rates.ten) budget ∙ small' in
      let (a, b, c) =
        spawn_loop-budget n (λ i. draws (i + 1)) s q small'' (omega (arith, lower', left)) rest in
      (omega (arith, a, active), omega (arith, b, lower', left), c)
    where
      left_over : (k : ℕ) × (rates.trunc p.rate_budget ≡ suc k)
      left_over = (rates.trunc p.rate_budget - 1, omega arith)

  launch-budget :
      (draws : ℕ → Draw f) (p q : CallPool f rates)
      → f.leb p.rate_budget rates.ten ≡ true
      → launch f rates draws p ≡ ok q
      → (p.active_calls ≤ q.active_calls)
        × (rates.trunc q.rate_budget + (q.active_calls - p.active_calls)
            ≡ rates.trunc p.rate_budget)
        × (f.leb q.rate_budget rates.ten ≡ true)
  unfolding launch
  launch-budget draws p q small e =
      elim (Bool-cases
        (leb p.config.target_concurrency p.active_calls || f.leb p.rate_budget f.zero)) [
          | inl full ↦
              let same : p ≡ q = ok-injective (rw full at e) in
              rw (← same) (omega arith, omega arith, small)
          | inr room ↦
              let n =
                min (p.config.target_concurrency - p.active_calls) (rates.trunc p.rate_budget) in
              let (a, b, c) = spawn_loop-budget n draws p q small (omega arith) (rw room at e) in
              (omega (arith, a), omega (arith, a, b), c)
        ]

  call_ended_budget :
      (call_id : String) (p : CallPool f rates)
      → (call_ended f rates call_id p).rate_budget ≡ p.rate_budget
  unfolding call_ended
  call_ended_budget call_id p = ground arith

  Window-budget :
      {p : CallPool f rates} {n : ℕ} {q : CallPool f rates}
      → Window f rates p n q
      → f.leb p.rate_budget rates.ten ≡ true
      → (rates.trunc q.rate_budget + n ≡ rates.trunc p.rate_budget)
        × (f.leb q.rate_budget rates.ten ≡ true)
  Window-budget here small = (omega arith, small)
  Window-budget (launches {n} {q} {r} draws w e) small =
      let (b, small') = Window-budget w small in
      let (_, b', small'') = launch-budget draws q r small' e in (omega (arith, b, b'), small'')
  Window-budget (ends {n} {q} call_id w) small =
      let (b, small') = Window-budget w small in
      let same = call_ended_budget call_id q in
      (ap (λ x. rates.trunc x + n) same ∙ b, ap (λ x. f.leb x rates.ten) same ∙ small')

  -- From a refill on and up to the next one, however many ticks there are and calls that end, no more
  -- calls are launched than the whole part of the configured rate.
  pub refill-bound :
      (now : f.Float) (p q : CallPool f rates) (n : ℕ)
      → IsChecked f rates p.config
      → refills f rates now p ≡ true
      → Window f rates (refill f rates now p) n q
      → n ≤ rates.trunc p.config.call_rate
  refill-bound now p q n checked due w =
      let (_, (_, small), _, _, _) = IsChecked-parts f rates p.config checked in
      let budget : (refill f rates now p).rate_budget ≡ p.config.call_rate = rw due in
      let (b, _) = Window-budget w (ap (λ x. f.leb x rates.ten) budget ∙ small) in
      omega (arith, b, ap rates.trunc budget)

  refill-starved :
      (now : f.Float) (p : CallPool f rates)
      → f.ltb p.config.call_rate rates.one ≡ true
      → f.ltb p.rate_budget rates.one ≡ true
      → (f.ltb (refill f rates now p).rate_budget rates.one ≡ true)
        × ((refill f rates now p).active_calls ≡ p.active_calls)
        × ((refill f rates now p).config ≡ p.config)
  refill-starved now p slow low = elim (Bool-cases (refills f rates now p)) [
    | inl due ↦ rw due (slow, refl, refl)
    | inr early ↦ rw early (low, refl, refl)
  ]

  launch-starved :
      (draws : ℕ → Draw f) (p : CallPool f rates)
      → f.ltb p.rate_budget rates.one ≡ true
      → launch f rates draws p ≡ ok p
  unfolding launch spawn_loop
  launch-starved draws p low =
      let none_left = law.trunc_small p.rate_budget low in
      let nothing : min (p.config.target_concurrency - p.active_calls) (rates.trunc p.rate_budget)
          ≡ 0 =
        omega (arith, none_left) in
      elim (Bool-cases
        (leb p.config.target_concurrency p.active_calls || f.leb p.rate_budget f.zero)) [
          | inl full ↦ rw full
          | inr room ↦ rw (room, nothing)
        ]

  run_ticks-starved_from :
      (ticks : List (f.Float × (ℕ → Draw f))) (p : CallPool f rates)
      → f.ltb p.config.call_rate rates.one ≡ true
      → f.ltb p.rate_budget rates.one ≡ true
      → (q : CallPool f rates) × (run_ticks f rates ticks p ≡ ok q)
        × (q.active_calls ≡ p.active_calls)
  unfolding run_ticks tick
  run_ticks-starved_from [] p slow low = (p, refl, refl)
  run_ticks-starved_from ((now, draws) ∷ rest) p slow low =
      let r = refill f rates now p in
      let (low', same, config) = refill-starved now p slow low in
      let idle = launch-starved draws r low' in
      let slow' : f.ltb r.config.call_rate rates.one ≡ true = rw config slow in
      let (q, ran, kept) = run_ticks-starved_from rest r slow' low' in (q, rw idle ran, kept ∙ same)

  -- From a start under a rate below one call per second no tick ever launches a call, however many there
  -- are and whenever they fall.
  pub run_ticks-starved :
      (c : PoolConfig f rates) (now : f.Float) (ticks : List (f.Float × (ℕ → Draw f)))
      → f.ltb c.call_rate rates.one ≡ true
      → (q : CallPool f rates) × (run_ticks f rates ticks (init f rates c now) ≡ ok q)
        × (q.active_calls ≡ 0)
  run_ticks-starved c now ticks slow = run_ticks-starved_from ticks (init f rates c now) slow slow
