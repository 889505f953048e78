-- ===== src/CapacityProbe/Unreachable.antt =====
-- tools/capacity_probe.py: the gap of the event loop, `LoopGap`, and what is observed of a burst towards
-- a hop that never answers, `observe_unreachable_hop`.
--
-- The client transactions of the SIP stack are read as the timer B that each has, with its callback and
-- interval; `str.upper` and the clock are parameters.
pub mod Laws
use rdparty_as_poc.Prelude.{
  ℕ, zero, suc, String, Bool, true, false, ◌&&◌, Option, none, some, List, [], ◌∷◌, map, length,
  starts_with, str_eq, if◌then◌else◌,
}
use rdparty_as_poc.Prelude.Float.{Floats}
use rdparty_as_poc.TrunkUac.{CallOutcome, outcome_for}
use rdparty_as_poc.CapacityProbe.{is_released, count_if, all_released, draw_loop_until}

-- A recorded message.
pub record Message : Type 0 where
  pub direction : String
  pub text : String

-- `count_invite_transmissions`
unfoldable pub count_invite_transmissions : (String → String) → List Message → ℕ
unfolding count_if
count_invite_transmissions upper messages =
    count_if (λ m. str_eq m.direction "out" && starts_with "INVITE" (upper m.text)) messages

-- `intervals[0] if intervals else None`
abbrev pub first_of {ℓ} : {A : Type ℓ} → List A → Option A
first_of [] = none
first_of (x ∷ xs) = some x

module _ (f : Floats) where
  pub record LoopGap : Type 0 where
    pub max_gap : f.Float
    pub last : Option f.Float

  abbrev pub fresh_gap : LoopGap
  fresh_gap = record { max_gap = f.zero; last = none }

  -- Python's `max(a, b)`
  abbrev pub max_of : f.Float → f.Float → f.Float
  max_of a b = if f.ltb a b then b else a

  abbrev pub widen : Option f.Float → f.Float → f.Float → f.Float
  widen none now max_gap = max_gap
  widen (some last) now max_gap = max_of max_gap (f.sub now last)

  -- `LoopGap.beat`
  unfoldable pub beat : f.Float → LoopGap → LoopGap
  beat now g = record { max_gap = widen g.last now g.max_gap; last = some now }

  abbrev pub beats : List f.Float → LoopGap → LoopGap
  beats [] g = g
  beats (now ∷ readings) g = beats readings (beat now g)

  -- The gaps between polls that follow one another.
  abbrev pub gaps : f.Float → List f.Float → List f.Float
  gaps last [] = []
  gaps last (now ∷ readings) = f.sub now last ∷ gaps now readings

  -- A client transaction, less what the probe does not read.
  pub record Transaction : Type 0 where
    pub timer_b : Option (Bool × f.Float)

  -- `_timerb_interval`
  abbrev pub timerb_interval : Transaction → Option f.Float
  timerb_interval t = armed_interval t.timer_b
    where
      armed_interval : Option (Bool × f.Float) → Option f.Float
      armed_interval none = none
      armed_interval (some (armed, ival)) = if armed then some ival else none

  -- `[interval for interval in map(…) if interval is not None]`
  unfoldable pub intervals_of : List Transaction → List f.Float
  intervals_of [] = []
  intervals_of (t ∷ ts) =
      let rest = intervals_of ts in
      elim (timerb_interval t) [ none ↦ rest | some ival ↦ ival ∷ rest ]

  pub record UnreachableObservation : Type 0 where
    pub placed : ℕ
    pub released : ℕ
    pub gave_up : Bool
    pub armed_transactions : ℕ
    pub armed_timerb : ℕ
    pub timerb_seconds : Option f.Float
    pub invite_transmissions : ℕ

  -- `observe_unreachable_hop` behind the burst, over whether a poll saw every call released, and what
  -- the mock, the stack and the recorder hold when the loop ends.
  unfoldable pub observe_unreachable_hop :
      (String → String)
      → ℕ
      → List String
      → Bool
      → List CallOutcome
      → List Transaction
      → List Message
      → UnreachableObservation
  unfolding outcome_for count_invite_transmissions
  observe_unreachable_hop upper calls call_ids done os transactions messages = record {
    placed = calls;
    released = count_if is_released (map (λ id. outcome_for id os) call_ids);
    gave_up = draw_loop_until done (all_released call_ids os);
    armed_transactions = length transactions;
    armed_timerb = length (intervals_of transactions);
    timerb_seconds = first_of (intervals_of transactions);
    invite_transmissions = count_invite_transmissions upper messages;
  }
