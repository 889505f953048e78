-- ===== src/Capture/Laws.antt =====
-- How a captured call ends (tools/capture_call.py).
use mathlib.Core.List.{append_assoc}
use rdparty_as_poc.Prelude.{
  String, ◌≡◌, refl, sym, ap, ◌∙◌, Bool, true, false, Option, none, some, List, [], ◌∷◌, ◌++◌, any,
  All, Result, ok, err, inl, inr, Bool-cases,
}
use rdparty_as_poc.Prelude.Float.{Floats}
use rdparty_as_poc.TrunkUac.{CallOutcome, TrunkUac}
use rdparty_as_poc.Capture.{
  Turn, current, released, first_of, stops, poll, loop, completed, run_call,
}

module _ (f : Floats) (settle_seconds : f.Float) (holds : TrunkUac → Bool) where
  abbrev pub is_deadline : Turn f → Bool
  is_deadline (Turn.polls now u) = false
  is_deadline (Turn.expires u) = true

  -- A poll that sees the condition hold.
  abbrev pub IsHolding : Turn f → Type 0
  IsHolding (Turn.polls now u) = holds u ≡ true
  IsHolding (Turn.expires u) = ⊥

  -- Polls at the end of some turns that all see the condition hold, the first of them at `first`.
  pub record HeldSince (turns : List (Turn f)) (first : f.Float) : Type 0 where
    pub before : List (Turn f)
    pub at_first : TrunkUac
    pub since : List (Turn f)
    pub splits : turns ≡ before ++ (Turn.polls first at_first ∷ since)
    pub hold : All IsHolding (Turn.polls first at_first ∷ since)

  -- What `first_hold` says of the turns so far.
  abbrev Knows : List (Turn f) → Option f.Float → Type 0
  Knows turns none = Unit
  Knows turns (some first) = HeldSince turns first

  -- The turn that stopped the loop in a state, behind those before it.
  pub data Stops (before : List (Turn f)) : Turn f → TrunkUac → Type 0 where
    expired : (u : TrunkUac) → Stops before (Turn.expires u) u
    settled :
        (now first : f.Float) (u : TrunkUac)
        → HeldSince before first
        → holds u ≡ true
        → f.leb settle_seconds (f.sub now first) ≡ true
        → Stops before (Turn.polls now u) u

  -- Where the loop was stopped, in turns that follow others.
  pub record Stopped (older turns : List (Turn f)) (u : TrunkUac) : Type 0 where
    pub before : List (Turn f)
    pub turn : Turn f
    pub later : List (Turn f)
    pub splits : older ++ turns ≡ before ++ (turn ∷ later)
    pub reason : Stops before turn u

  All-snoc :
      (xs : List (Turn f)) (x : Turn f)
      → All IsHolding xs
      → IsHolding x
      → All IsHolding (xs ++ (x ∷ []))
  All-snoc [] x h k = (k, tt)
  All-snoc (y ∷ ys) x h k = (h.0, All-snoc ys x h.1 k)

  HeldSince-snoc :
      (turns : List (Turn f)) (first now : f.Float) (u : TrunkUac)
      → HeldSince turns first
      → holds u ≡ true
      → HeldSince (turns ++ (Turn.polls now u ∷ [])) first
  HeldSince-snoc turns first now u h k = record {
    before = h.before;
    at_first = h.at_first;
    since = h.since ++ (Turn.polls now u ∷ []);
    splits =
        ap (λ r. r ++ (Turn.polls now u ∷ [])) h.splits
        ∙ append_assoc h.before (Turn.polls first h.at_first ∷ h.since) (Turn.polls now u ∷ []);
    hold = All-snoc (Turn.polls first h.at_first ∷ h.since) (Turn.polls now u) h.hold k;
  }

  Knows-first_of :
      (turns : List (Turn f)) (first_hold : Option f.Float) (now : f.Float) (u : TrunkUac)
      → Knows turns first_hold
      → holds u ≡ true
      → Knows (turns ++ (Turn.polls now u ∷ [])) (first_of f now first_hold)
  Knows-first_of turns none now u h k = record {
    before = turns;
    at_first = u;
    since = [];
    splits = refl;
    hold = (k, tt);
  }
  Knows-first_of turns (some first) now u h k = HeldSince-snoc turns first now u h k

  Stopped-later :
      (older : List (Turn f)) (t : Turn f) (turns : List (Turn f)) (u : TrunkUac)
      → Stopped (older ++ (t ∷ [])) turns u
      → Stopped older (t ∷ turns) u
  Stopped-later older t turns u s = record {
    before = s.before;
    turn = s.turn;
    later = s.later;
    splits = sym (append_assoc older (t ∷ []) turns) ∙ s.splits;
    reason = s.reason;
  }

  -- What the loop comes to.
  abbrev Ended : List (Turn f) → List (Turn f) → Option TrunkUac → Type 0
  Ended older turns none = ⊥
  Ended older turns (some u) = Stopped older turns u

  Ended-later :
      (older : List (Turn f)) (t : Turn f) (turns : List (Turn f)) (o : Option TrunkUac)
      → Ended (older ++ (t ∷ [])) turns o
      → Ended older (t ∷ turns) o
  Ended-later older t turns none h = h
  Ended-later older t turns (some u) h = Stopped-later older t turns u h

  -- A poll that stops the loop has first seen the condition hold before.
  Stops-settled :
      (older : List (Turn f)) (first_hold : Option f.Float) (now : f.Float) (u : TrunkUac)
      → Knows older first_hold
      → holds u ≡ true
      → stops f settle_seconds now first_hold ≡ true
      → Stops older (Turn.polls now u) u
  Stops-settled older none now u k held h = cc
  Stops-settled older (some first) now u k held h = Stops.settled now first u k held h

  loop-Ended :
      (older turns : List (Turn f)) (first_hold : Option f.Float)
      → Knows older first_hold
      → any is_deadline turns ≡ true
      → Ended older turns (loop f settle_seconds holds first_hold turns)
  unfolding loop poll
  loop-Ended older [] first_hold k late = cc
  loop-Ended older (Turn.expires u ∷ turns) first_hold k late = record {
    before = older;
    turn = Turn.expires u;
    later = turns;
    splits = refl;
    reason = Stops.expired u;
  }
  loop-Ended older (Turn.polls now u ∷ turns) first_hold k late = elim (Bool-cases (holds u)) [
    | inl held ↦ elim (Bool-cases (stops f settle_seconds now first_hold)) [
      | inl stopped ↦
          rw (held, stopped)
            (record {
              before = older;
              turn = Turn.polls now u;
              later = turns;
              splits = refl;
              reason = Stops-settled older first_hold now u k held stopped;
            })
      | inr waits ↦
          rw (held, waits)
            (Ended-later older (Turn.polls now u) turns _ (
              loop-Ended (older ++ (Turn.polls now u ∷ [])) turns (first_of f now first_hold)
                (Knows-first_of older first_hold now u k held) late))
    ]
    | inr broken ↦ rw broken (
        Ended-later older (Turn.polls now u) turns _
          (loop-Ended (older ++ (Turn.polls now u ∷ [])) turns none tt late))
  ]

module _ (f : Floats) (settle_seconds : f.Float) (call_id : String) (outcome : CallOutcome) where
  -- A run that returns: the call is released when the loop is stopped, and the outcome is that of then.
  pub record Returns (turns : List (Turn f)) (o : CallOutcome) : Type 0 where
    pub state : TrunkUac
    pub stopped : Stopped f settle_seconds (released call_id outcome) [] turns state
    pub is_released : released call_id outcome state ≡ true
    pub reports : o ≡ current call_id outcome state

  -- A run that the deadline stopped before the call was released.
  pub record TimesOut (turns : List (Turn f)) : Type 0 where
    pub state : TrunkUac
    pub before : List (Turn f)
    pub later : List (Turn f)
    pub splits : turns ≡ before ++ (Turn.expires state ∷ later)
    pub is_unreleased : released call_id outcome state ≡ false

  abbrev pub RunEnds : List (Turn f) → Option (Result String CallOutcome) → Type 0
  RunEnds turns none = ⊥
  RunEnds turns (some (ok o)) = Returns turns o
  RunEnds turns (some (err e)) = (e ≡ "TimeoutError") × TimesOut turns

  TimesOut-stopped :
      (turns before later : List (Turn f)) (turn : Turn f) (u : TrunkUac)
      → turns ≡ before ++ (turn ∷ later)
      → Stops f settle_seconds (released call_id outcome) before turn u
      → released call_id outcome u ≡ false
      → TimesOut turns
  TimesOut-stopped turns before later turn u e (Stops.expired v) n = record {
    state = v;
    before = before;
    later = later;
    splits = e;
    is_unreleased = n;
  }
  TimesOut-stopped turns before later turn u e (Stops.settled now first v h k s) n = cc

  completed-RunEnds :
      (turns : List (Turn f)) (u : TrunkUac)
      → Stopped f settle_seconds (released call_id outcome) [] turns u
      → RunEnds turns (some (completed f call_id outcome u))
  completed-RunEnds turns u s = elim (Bool-cases (released call_id outcome u)) [
    | inl free ↦ rw free (record { state = u; stopped = s; is_released = free; reports = refl })
    | inr busy ↦
        rw busy (refl, TimesOut-stopped turns s.before s.later s.turn u s.splits s.reason busy)
  ]

  loop-RunEnds :
      (turns : List (Turn f)) (o : Option TrunkUac)
      → Ended f settle_seconds (released call_id outcome) [] turns o
      → RunEnds turns (elim o [ none ↦ none | some u ↦ some (completed f call_id outcome u) ])
  loop-RunEnds turns none h = h
  loop-RunEnds turns (some u) h = completed-RunEnds turns u h

  -- Where the deadline's timer is among the turns, `run_call` ends. It returns the outcome of a state in
  -- which the call is released, and in which the loop was stopped, by the deadline or by a poll behind polls
  -- that all saw the call released for the settle time; or it raises `TimeoutError` in a state in which
  -- the deadline stopped the loop and the call is not released.
  pub run_call-Ends :
      (turns : List (Turn f))
      → any (is_deadline f settle_seconds (released call_id outcome)) turns ≡ true
      → RunEnds turns (run_call f settle_seconds call_id outcome turns)
  unfolding run_call
  run_call-Ends turns late =
      loop-RunEnds turns _
        (loop-Ended f settle_seconds (released call_id outcome) [] turns none tt late)
