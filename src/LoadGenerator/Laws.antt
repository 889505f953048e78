-- ===== src/LoadGenerator/Laws.antt =====
-- No call of the load generator is lost between its pool and its user agent
-- (tools/call_load_generator.py).
use rdparty_as_poc.Prelude.{
  ℕ, zero, suc, ◌+◌, ◌-◌, ◌≤◌, ◌<◌, String, ◌≡◌, refl, sym, ap, subst, ◌∙◌, ◌≢◌, inl, inr, List, [],
  ◌∷◌, ◌++◌, map, arith, leb, length, ok-injective, str_eq, eq_iff, Bool-cases, ok,
}
use rdparty_as_poc.Prelude.Float.{Floats}
use rdparty_as_poc.Prelude.Dict.{Dict, keys, count, lookup-count}
use rdparty_as_poc.CallModel.{Rates}
use rdparty_as_poc.LoadPool.{Draw, CallPool, refill, tick}
use rdparty_as_poc.LoadPool.Growth.{IsFresh, drawn, launch-Grown, refill_fields}
use rdparty_as_poc.LoadPool.Invariant.{Inv, tick-Inv}
use rdparty_as_poc.LoadUac.Laws.{occurrences}
use rdparty_as_poc.LoadGenerator.{LoadGenerator, schedule, ticked}

count-append : (k : String) (xs ys : List String) → count k (xs ++ ys) ≡ count k xs + count k ys
count-append k [] ys = omega arith
count-append k (x ∷ xs) ys = ground (arith, count-append k xs ys)

map-append {ℓ κ} :
    {A : Type ℓ} {B : Type κ} (f : A → B) (xs ys : List A) → map f (xs ++ ys) ≡ map f xs ++ map f ys
map-append f [] ys = refl
map-append f (x ∷ xs) ys = ap (◌∷◌ (f x)) (map-append f xs ys)

module _ (f : Floats) (rates : Rates f) where
  -- A tick adds the drawn calls to the pool, and no others.
  tick-drawn :
      (now : f.Float) (draws : ℕ → Draw f) (p q : CallPool f rates)
      → Inv f rates p
      → IsFresh f rates draws p
      → tick f rates now draws p ≡ ok q
      → (id : String)
      → count id (keys q.active_instances)
        ≡ count id (keys p.active_instances)
          + count id (drawn f rates (q.active_calls - p.active_calls) draws)
  unfolding tick
  tick-drawn now draws p q inv fresh e id =
      let r = refill f rates now p in
      let (same_config, same_active, same_known) = refill_fields f rates now p in
      let (s, n, launched, g, _) =
        launch-Grown f rates draws r (rw same_config inv.checked)
          (rw (same_active, same_known) inv.counted) (rw same_known fresh) in
      let same : s ≡ q = ok-injective (sym launched ∙ e) in
      let added : q.active_calls - p.active_calls ≡ n =
        subst (λ (t : CallPool f rates). t.active_calls - p.active_calls ≡ n) same
          (omega (arith, g.grown, same_active)) in
      rw added (
        subst
          (λ (t : CallPool f rates).
            count id (keys t.active_instances)
            ≡ count id (keys p.active_instances) + count id (drawn f rates n draws))
          same
          (g.known id ∙ ap (λ l. count id (keys l) + count id (drawn f rates n draws)) same_known))

  drawn-absent :
      (n : ℕ) (draws : ℕ → Draw f) (id : String)
      → ((i : ℕ) → (draws i).call_id ≢ id)
      → count id (drawn f rates n draws) ≡ 0
  drawn-absent zero draws id absent = refl
  drawn-absent (suc n) draws id absent = ground (
    arith,
    drawn-absent n (λ i. draws (i + 1)) id (λ i. absent (i + 1)),
    eq_iff (draws 0).call_id id,
    absent 0,
  )

  drawn_once :
      (n : ℕ) (draws : ℕ → Draw f) (id : String)
      → ((i j : ℕ) → i < j → (draws i).call_id ≢ (draws j).call_id)
      → count id (drawn f rates n draws) ≤ 1
  drawn_once zero draws id apart = omega arith
  drawn_once (suc n) draws id apart = elim (Bool-cases (str_eq (draws 0).call_id id)) [
    | inl first ↦
        let same : (draws 0).call_id ≡ id = (eq_iff (draws 0).call_id id).0 first in
        let rest =
          drawn-absent n (λ i. draws (i + 1)) id
            (λ i e. apart 0 (i + 1) (omega arith) (same ∙ sym e)) in
        rw first (omega (arith, rest))
    | inr other ↦
        rw other
          (drawn_once n (λ i. draws (i + 1)) id (λ i j h. apart (i + 1) (j + 1) (omega arith)))
  ]

pub none-counted {ℓ} :
    {V : Type ℓ} (d : Dict V) → ((id : String) → count id (keys d) ≡ 0) → length d ≡ 0
none-counted [] h = refl
none-counted ((j, v) ∷ d) h = ground (arith, h j, eq_iff j j)

module _ (f : Floats) (rates : Rates f) (Ua Callback : Type 0) (on_call_ended : Callback) where
  -- How often a call is to be placed, is in flight, or has been told of.
  abbrev pub ahead : String → LoadGenerator f rates Ua Callback on_call_ended → ℕ
  ahead id g = count id (keys g.scheduled) + occurrences Ua Callback id g.uac

  keys-schedule :
      (n : ℕ) (draws : ℕ → Draw f)
      → keys (schedule f rates Ua Callback on_call_ended n draws) ≡ drawn f rates n draws
  keys-schedule zero draws = refl
  keys-schedule (suc n) draws = ap (◌∷◌ (draws 0).call_id) (keys-schedule n (λ i. draws (i + 1)))

  -- Each call of the pool, and each that it has dropped, is somewhere on its way, and no call is there
  -- twice.
  pub record IsBalanced (g : LoadGenerator f rates Ua Callback on_call_ended) : Type 0 where
    pub pool : Inv f rates g.pool
    pub balanced :
        (id : String) → count id (keys g.pool.active_instances) + count id g.handled ≡ ahead id g
    pub once : (id : String) → ahead id g ≤ 1

  pub ticked-IsBalanced :
      (now : f.Float) (draws : ℕ → Draw f) (q : CallPool f rates)
      (g : LoadGenerator f rates Ua Callback on_call_ended)
      → ((i : ℕ) → ahead (draws i).call_id g ≡ 0)
      → ((i j : ℕ) → i < j → (draws i).call_id ≢ (draws j).call_id)
      → tick f rates now draws g.pool ≡ ok q
      → IsBalanced g
      → IsBalanced (ticked f rates Ua Callback on_call_ended draws q g)
  unfolding ticked
  ticked-IsBalanced now draws q g new apart e h =
      let k = q.active_calls - g.pool.active_calls in
      let fresh : IsFresh f rates draws g.pool = (
        λ i.
            lookup-count (draws i).call_id g.pool.active_instances
              (omega (arith, h.balanced (draws i).call_id, new i)),
        apart,
      ) in
      let (r, returned, inv, _, _) = tick-Inv f rates now draws g.pool h.pool fresh in
      let more : (id : String)
          → count id (keys (g.scheduled ++ schedule f rates Ua Callback on_call_ended k draws))
            ≡ count id (keys g.scheduled) + count id (drawn f rates k draws) =
        λ id.
          ap (count id)
            (map-append (λ x. x.0) g.scheduled (schedule f rates Ua Callback on_call_ended k draws))
          ∙ count-append id (keys g.scheduled) _
          ∙ ap (λ l. count id (keys g.scheduled) + count id l) (keys-schedule k draws) in
      record {
        pool = subst (Inv f rates) (ok-injective (sym returned ∙ e)) inv;
        balanced = λ id. omega (
          arith,
          more id,
          h.balanced id,
          tick-drawn f rates now draws g.pool q h.pool fresh e id,
        );
        once = λ id. elim (Bool-cases (leb 1 (ahead id g))) [
          | inl there ↦
              let absent =
                drawn-absent f rates k draws id
                  (λ i same. ground (arith, subst (λ x. ahead x g ≡ 0) same (new i), there)) in
              omega (arith, more id, absent, h.once id)
          | inr gone ↦
              let nothing : ahead id g ≡ 0 = ground (arith, gone) in
              omega (arith, more id, nothing, drawn_once f rates k draws id apart)
        ];
      }
