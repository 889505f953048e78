-- ===== src/CapacityProbe/Unreachable/Laws.antt =====
-- What is observed of the loop's gap and of a burst towards a silent hop (tools/capacity_probe.py).
use mathlib.Core.List.{Memᴰ}
use rdparty_as_poc.Prelude.{
  ℕ, ◌≤◌, String, ◌≡◌, refl, sym, ◌∙◌, Bool, true, not, some, List, [], ◌∷◌, map, length, ◌==◌, All,
  ◌⊎◌, inl, inr, Bool-cases, arith, is_some, ok,
}
use rdparty_as_poc.Prelude.Float.{Floats, IsOrdered}
use rdparty_as_poc.TrunkUac.{CallOutcome, CallScenario, TrunkUac, outcome_for}
use rdparty_as_poc.TrunkUac.Laws.{Reach}
use rdparty_as_poc.CapacityProbe.{is_released, count_if, all_released, place_burst}
use rdparty_as_poc.CapacityProbe.Laws.{all_released_later, length-place_burst}
use rdparty_as_poc.CapacityProbe.Unreachable.{
  fresh_gap, max_of, beat, beats, gaps, Transaction, Message, intervals_of, first_of,
  observe_unreachable_hop,
}

-- How many calls are released, at most all, and all exactly when the test says so.
released_count :
    (ids : List String) (os : List CallOutcome)
    → (count_if is_released (map (λ id. outcome_for id os) ids) ≤ length ids)
      × (all_released ids os
          ≡ (count_if is_released (map (λ id. outcome_for id os) ids) == length ids))
unfolding count_if all_released
released_count [] os = (omega arith, refl)
released_count (id ∷ ids) os = ground (arith, released_count ids os)

module _ (f : Floats) where
  length-intervals_of : (ts : List (Transaction f)) → length (intervals_of f ts) ≤ length ts
  unfolding intervals_of
  length-intervals_of [] = omega arith
  length-intervals_of (t ∷ ts) = ground (arith, length-intervals_of ts)

  first_of-is_some : (xs : List f.Float) → is_some (first_of xs) ≡ not (length xs == 0)
  first_of-is_some [] = refl
  first_of-is_some (x ∷ xs) = ground arith

  -- Where a burst of calls is placed, and the loop is driven until a poll sees every call released or the
  -- window is over, the probe says that the application gave every call up exactly when as many calls are
  -- released as were placed, whatever happened behind the poll. No more timers are armed than there are
  -- transactions, and an interval is reported exactly when a timer is armed.
  pub observe_unreachable_hop-gave_up :
      (upper : String → String) (scenario : ℕ → CallScenario) (call_id : ℕ → String)
      (first_index calls : ℕ) (u v w : TrunkUac) (done : Bool) (ids : List String)
      (transactions : List (Transaction f)) (messages : List Message)
      → (place_burst scenario call_id first_index calls u).0 ≡ ok ids
      → (done ≡ true → all_released ids v.outcomes ≡ true)
      → Reach v w
      → let o = observe_unreachable_hop f upper calls ids done w.outcomes transactions messages in
        (o.gave_up ≡ (o.released == o.placed))
        × (o.released ≤ o.placed)
        × (o.armed_timerb ≤ o.armed_transactions)
        × (is_some o.timerb_seconds ≡ not (o.armed_timerb == 0))
  unfolding observe_unreachable_hop
  observe_unreachable_hop-gave_up upper scenario call_id first_index calls u v w done ids
        transactions messages placed polled r =
      let size = length-place_burst scenario call_id first_index calls u placed in
      let (most, all) = released_count ids w.outcomes in
      (
        elim (Bool-cases done) [
          | inl seen ↦ rw (seen, sym size) (sym (all_released_later v w ids r (polled seen)) ∙ all)
          | inr late ↦ rw (late, sym size) all
        ],
        omega (arith, most, size),
        length-intervals_of transactions,
        first_of-is_some (intervals_of f transactions),
      )

  module _ (o : IsOrdered f) where
    -- `max` bounds both.
    max_of-bounds :
        (a b : f.Float) → (f.leb a (max_of f a b) ≡ true) × (f.leb b (max_of f a b) ≡ true)
    max_of-bounds a b = ground (arith, o.ltb_leb a b, o.leb_total a b, o.leb_refl a, o.leb_refl b)

    -- What a widest gap is, over those seen before it and those that follow.
    record IsWidest (old new : f.Float) (gs : List f.Float) : Type 0 where
      above : f.leb old new ≡ true
      bounds : All (λ g. f.leb g new ≡ true) gs
      reached : (new ≡ old) ⊎ Memᴰ new gs

    max_of-one : (a b : f.Float) → (max_of f a b ≡ a) ⊎ (max_of f a b ≡ b)
    max_of-one a b = ground arith

    IsWidest-cons :
        (old g new : f.Float) (gs : List f.Float)
        → IsWidest (max_of f old g) new gs
        → IsWidest old new (g ∷ gs)
    IsWidest-cons old g new gs w =
        let (a, b) = max_of-bounds old g in
        record {
          above = o.leb_trans old (max_of f old g) new a w.above;
          bounds = (o.leb_trans g (max_of f old g) new b w.above, w.bounds);
          reached = elim w.reached [
            | inr m ↦ inr (Memᴰ.tail m)
            | inl e ↦ elim (max_of-one old g) [
              | inl x ↦ inl (e ∙ x)
              | inr x ↦ inr (Memᴰ.head (e ∙ x))
            ]
          ];
        }

    beats-from :
        (t : f.Float) (ts : List f.Float) (widest : f.Float)
        → IsWidest widest
            (beats f ts (record { max_gap = widest; last = some t })).max_gap
            (gaps f t ts)
    unfolding beat
    beats-from t [] widest = record { above = o.leb_refl widest; bounds = tt; reached = inl refl }
    beats-from t (now ∷ ts) widest =
        IsWidest-cons widest (f.sub now t) _ (gaps f now ts)
          (beats-from now ts (max_of f widest (f.sub now t)))

    -- For floats that are ordered, after any polls the gap that is kept is none or that of two polls that
    -- followed one another, and no such gap is larger.
    pub beats-widest :
        (t : f.Float) (ts : List f.Float)
        → let widest = (beats f (t ∷ ts) (fresh_gap f)).max_gap in
          ((widest ≡ f.zero) ⊎ Memᴰ widest (gaps f t ts))
          × All (λ g. f.leb g widest ≡ true) (gaps f t ts)
    unfolding beat
    beats-widest t ts = let w = beats-from t ts f.zero in (w.reached, w.bounds)
