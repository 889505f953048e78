-- ===== src/SbcMock/Application/Laws.antt =====
-- Every scenario of the S-SBC mock is placed (src/s_sbc_mock/main.py, `_place_next`).
use rdparty_as_poc.Prelude.{
  ℕ, zero, suc, ◌+◌, ◌-◌, ◌%◌, max, String, ◌≡◌, refl, sym, ap, ◌∙◌, subst, Bool, true, false, ◌||◌,
  some, List, [], ◌∷◌, ◌++◌, length, drop, length-drop, ltb, ok, arith,
}
use mathlib.Core.List.{append_assoc}
use native.Mathlib.Nat.{mod-eq_of_lt}
use rdparty_as_poc.Prelude.Float.{Floats}
use rdparty_as_poc.TrunkUac.{CallOutcome, TrunkUac, placed, place_call}
use rdparty_as_poc.SbcMock.Application.{
  Scenario, MockConfig, SMockApplication, get_elem?, gap_seconds, schedule_next, place_next,
  fire_first, fire, place_scenarios, cli_scenarios, or_default, main_application,
}

module _ (f : Floats) (one : f.Float) where
  get_elem?-drop :
      (i : ℕ) (ss : List (Scenario f)) (s : Scenario f) (rest : List (Scenario f))
      → drop i ss ≡ s ∷ rest
      → (get_elem? f ss i ≡ some s) × (drop (suc i) ss ≡ rest)
  get_elem?-drop zero [] s rest h = cc
  get_elem?-drop zero (x ∷ xs) s rest h = (cc, cc)
  get_elem?-drop (suc i) [] s rest h = cc
  get_elem?-drop (suc i) (x ∷ xs) s rest h = get_elem?-drop i xs s rest h

  -- The application behind a call that was placed.
  abbrev after_call : Scenario f → String → SMockApplication f → SMockApplication f
  after_call s call_id a = record a {
    uac = record a.uac { outcomes = a.uac.outcomes ++ placed s.call.name call_id ∷ [] };
  }

  place_next-placed :
      (i : ℕ) (call_id : String) (a : SMockApplication f) (s : Scenario f)
      (rest : List (Scenario f))
      → a.requested ≡ false
      → a.uac.bound ≡ true
      → drop i a.config.scenarios ≡ s ∷ rest
      → place_next f one i call_id a
        ≡ (ok tt, schedule_next f one s (i + 1) (after_call s call_id a))
  unfolding place_next place_call
  place_next-placed i call_id a s rest running bound here =
      let (found, _) = get_elem?-drop i a.config.scenarios s rest here in
      let counted = length-drop i a.config.scenarios in
      ground (arith, running, bound, here, found, counted)

  -- What the rest of the scenarios leaves, under the Call-IDs from a number on.
  abbrev pub placed_from : (ℕ → String) → ℕ → List (Scenario f) → List CallOutcome
  placed_from ids j [] = []
  placed_from ids j (s ∷ ss) = placed s.call.name (ids j) ∷ placed_from ids (j + 1) ss

  -- The loop fires so many timers.
  abbrev pub fires : ℕ → (ℕ → String) → ℕ → SMockApplication f → SMockApplication f
  fires zero ids j a = a
  fires (suc k) ids j a = fires k ids (j + 1) (fire f one (ids j) a).1

  -- The application is up and waits to place the scenario at an index.
  record IsAt (config : MockConfig f) (i : ℕ) (a : SMockApplication f) : Type 0 where
    same : a.config ≡ config
    running : a.requested ≡ false
    bound : a.uac.bound ≡ true
    delay : f.Float
    waits : a.timers ≡ (delay, i) ∷ []

  fire_lem :
      (call_id : String) (a : SMockApplication f) (ts : List (f.Float × ℕ))
      → a.timers ≡ ts
      → fire f one call_id a ≡ fire_first f one ts call_id a
  unfolding fire
  fire_lem call_id a ts e = ap (λ w. fire_first f one w call_id a) e

  module _ (config : MockConfig f) where
    -- What one timer leaves.
    fire-IsAt :
        (i : ℕ) (call_id : String) (a : SMockApplication f) (s : Scenario f)
        (rest : List (Scenario f))
        → IsAt config i a
        → drop i config.scenarios ≡ s ∷ rest
        → fire f one call_id a
          ≡ (ok tt, schedule_next f one s (i + 1) (after_call s call_id (record a { timers = [] })))
    fire-IsAt i call_id a s rest at here =
        fire_lem call_id a ((at.delay, i) ∷ []) at.waits
        ∙ place_next-placed i call_id (record a { timers = [] }) s rest at.running at.bound
            (ap (λ (c : MockConfig f). drop i c.scenarios) at.same ∙ here)

    -- There is a next one.
    goes_on : ℕ → Bool
    goes_on i = ltb (i + 1) (length config.scenarios) || config.repeat

    schedule_next-more :
        (i : ℕ) (s : Scenario f) (a : SMockApplication f)
        → a.config ≡ config
        → goes_on i ≡ true
        → schedule_next f one s (i + 1) a ≡ record a {
          timers =
              a.timers ++ (gap_seconds f one s, (i + 1) % max (length config.scenarios) 1) ∷ [];
        }
    unfolding goes_on
    schedule_next-more i s a same more = ground (arith, same)

    schedule_next-last :
        (i : ℕ) (s : Scenario f) (a : SMockApplication f)
        → a.config ≡ config
        → goes_on i ≡ false
        → schedule_next f one s (i + 1) a ≡ a
    unfolding goes_on
    schedule_next-last i s a same last = ground (arith, same)

    fire-more :
        (i : ℕ) (call_id : String) (a : SMockApplication f) (s : Scenario f)
        (rest : List (Scenario f))
        → IsAt config i a
        → drop i config.scenarios ≡ s ∷ rest
        → goes_on i ≡ true
        → IsAt config ((i + 1) % max (length config.scenarios) 1) (fire f one call_id a).1
          × ((fire f one call_id a).1.uac.outcomes
              ≡ a.uac.outcomes ++ placed s.call.name call_id ∷ [])
    fire-more i call_id a s rest at here more =
        let b = after_call s call_id (record a { timers = [] }) in
        rw (fire-IsAt i call_id a s rest at here, schedule_next-more i s b at.same more)
          (
            record {
              same = at.same;
              running = at.running;
              bound = at.bound;
              delay = gap_seconds f one s;
              waits = refl;
            },
            refl,
          )

    fire-last :
        (i : ℕ) (call_id : String) (a : SMockApplication f) (s : Scenario f)
        (rest : List (Scenario f))
        → IsAt config i a
        → drop i config.scenarios ≡ s ∷ rest
        → goes_on i ≡ false
        → ((fire f one call_id a).1.timers ≡ [])
          × ((fire f one call_id a).1.uac.outcomes
              ≡ a.uac.outcomes ++ placed s.call.name call_id ∷ [])
    fire-last i call_id a s rest at here last =
        let b = after_call s call_id (record a { timers = [] }) in
        rw (fire-IsAt i call_id a s rest at here, schedule_next-last i s b at.same last)
          (refl, refl)

    -- The scenarios from one on, without a repetition.
    fires-placed :
        (ids : ℕ → String) (rest : List (Scenario f)) (i j : ℕ) (a : SMockApplication f)
        (s : Scenario f)
        → config.repeat ≡ false
        → IsAt config i a
        → drop i config.scenarios ≡ s ∷ rest
        → ((fires (suc (length rest)) ids j a).timers ≡ [])
          × ((fires (suc (length rest)) ids j a).uac.outcomes
              ≡ a.uac.outcomes ++ placed_from ids j (s ∷ rest))
    unfolding goes_on
    fires-placed ids [] i j a s once at here =
        let counted = length-drop i config.scenarios in
        fire-last i (ids j) a s [] at here (ground (arith, once, here, counted))
    fires-placed ids (t ∷ rest) i j a s once at here =
        let counted = length-drop i config.scenarios in
        let size : suc (suc (length rest)) ≡ length config.scenarios - i =
          ap length (sym here) ∙ counted in
        let (at', more) = fire-more i (ids j) a s (t ∷ rest) at here (ground (arith, size)) in
        let index : (i + 1) % max (length config.scenarios) 1 ≡ suc i =
          mod-eq_of_lt (omega (arith, size)) ∙ omega arith in
        let (idle, all) =
          fires-placed ids rest (suc i) (j + 1) (fire f one (ids j) a).1 t once
            (subst (λ x. IsAt config x (fire f one (ids j) a).1) index at')
            (get_elem?-drop i config.scenarios s (t ∷ rest) here).1 in
        (
          idle,
          all
              ∙ ap (◌++ placed_from ids (j + 1) (t ∷ rest)) more
              ∙ append_assoc a.uac.outcomes (placed s.call.name (ids j) ∷ []) _,
        )

  -- From the start of the process with a bound trunk side and without a repetition: once the loop has
  -- fired as many timers as there are scenarios, no timer is left, and every scenario was placed once, in
  -- order and under the Call-ID that the stack gave it, be they those of the command line or the
  -- default.
  pub main_application-places_all :
      (ring_seconds talk_seconds first_delay : f.Float) (calls : List String) (uac : TrunkUac)
      (ids : ℕ → String)
      → uac.bound ≡ true
      → let a = main_application f ring_seconds talk_seconds first_delay calls false uac in
        let b = fires (length a.config.scenarios) ids 0 a in
        (b.timers ≡ []) × (b.uac.outcomes ≡ uac.outcomes ++ placed_from ids 0 a.config.scenarios)
  unfolding main_application
  main_application-places_all ring_seconds talk_seconds first_delay calls uac ids bound =
      places (cli_scenarios f ring_seconds talk_seconds 0 calls)
    where
      start : List (Scenario f) → SMockApplication f
      start ss = place_scenarios f first_delay (record {
        config = record { scenarios = ss; repeat = false };
        requested = false;
        uac = uac;
        timers = [];
        broken = false;
      })

      started : (ss : List (Scenario f)) → IsAt (start ss).config 0 (start ss)
      started ss = record {
        same = refl;
        running = refl;
        bound = bound;
        delay = first_delay;
        waits = refl;
      }

      places_all :
          (s : Scenario f) (ss : List (Scenario f))
          → let b = fires (suc (length ss)) ids 0 (start (s ∷ ss)) in
            (b.timers ≡ []) × (b.uac.outcomes ≡ uac.outcomes ++ placed_from ids 0 (s ∷ ss))
      places_all s ss =
          fires-placed (start (s ∷ ss)).config ids ss 0 0 (start (s ∷ ss)) s refl (started (s ∷ ss))
            refl

      places :
          (ss : List (Scenario f))
          → let all = or_default f ring_seconds talk_seconds ss in
            let b = fires (length all) ids 0 (start all) in
            (b.timers ≡ []) × (b.uac.outcomes ≡ uac.outcomes ++ placed_from ids 0 all)
      places [] = places_all _ []
      places (s ∷ ss) = places_all s ss
