-- ===== src/Tests/Callers.antt =====
-- Runs of the cross-call state (src/anti_fraud_as/caller_state.py).
use mathlib.Core.Bool.{false≢true}
use rdparty_as_poc.Prelude.{◌+◌, min, String, ◌≡◌, refl, ◌≢◌, List, [], ◌∷◌, length, eq_iff, ok}
use rdparty_as_poc.Prelude.Dict.{lookup, insert}
use rdparty_as_poc.Prelude.Int.{ℤ, pos, ◌-ℤ◌}
use rdparty_as_poc.Prelude.Float.{whole_numbers, whole_numbers-IsOrdered}
use rdparty_as_poc.CallerState.{
  CallerSignals, deque_of, window_key, record_call, effective_score, observe, next_events, drop_old,
  drop_excess,
}
use rdparty_as_poc.CallerState.History.{recorded, IsMonotonic, calls_inside}
use rdparty_as_poc.CallerState.Window.{length-recorded}
use rdparty_as_poc.CallerState.Store.{IsTyped}
use rdparty_as_poc.CallerState.Observation.{observe-history}
use rdparty_as_poc.Tests.Samples.{sample_store, sample_store-IsLawful, no_callers}

-- Four calls, newest first, of which three fall in the window of the last.
abbrev history : List ℤ
history = pos 110 ∷ pos 100 ∷ pos 90 ∷ pos 20 ∷ []

history-IsMonotonic : IsMonotonic whole_numbers history
history-IsMonotonic = ((refl, (refl, (refl, tt))), ((refl, (refl, tt)), ((refl, tt), (tt, tt))))

deque-full : recorded whole_numbers (pos 60) 1 history ≡ pos 100 ∷ pos 110 ∷ []
unfolding next_events drop_old drop_excess ◌-ℤ◌
deque-full = refl

length-recorded_example :
    length (recorded whole_numbers (pos 60) 1 history)
    ≡ min (1 + 1) (calls_inside whole_numbers (pos 60) (pos 110) history)
length-recorded_example =
    length-recorded whole_numbers whole_numbers-IsOrdered (pos 60) 1 (pos 110)
      (pos 100 ∷ pos 90 ∷ pos 20 ∷ []) history-IsMonotonic

pub no_callers-IsTyped : IsTyped whole_numbers sample_store sample_store-IsLawful no_callers.state
unfolding lookup
no_callers-IsTyped caller = (tt, tt)

others_ne : ◌≢◌ {A = String} "+31" "+46"
others_ne = λ e. false≢true ((eq_iff "+31" "+46").1 e)

abbrev first_seen : CallerSignals whole_numbers
first_seen = record { calling_number = "+46"; effective_reputation = pos 50; calls_in_window = 1 }

observe-first : (observe whole_numbers sample_store (pos 100) "+46" no_callers).0 ≡ ok first_seen
unfolding observe record_call effective_score next_events drop_old drop_excess insert lookup ◌-ℤ◌
observe-first = refl

nothing-recorded :
    deque_of whole_numbers (lookup (window_key "+46") no_callers.state)
    ≡ recorded whole_numbers (pos 60) 2 []
unfolding lookup
nothing-recorded = refl

observe-history_example :
    (first_seen.calls_in_window
      ≡ min (2 + 1) (calls_inside whole_numbers (pos 60) (pos 100) (pos 100 ∷ [])))
    × (deque_of whole_numbers (
          lookup
            (window_key "+46")
            (observe whole_numbers sample_store (pos 100) "+46" no_callers).1.state)
        ≡ recorded whole_numbers (pos 60) 2 (pos 100 ∷ []))
observe-history_example =
    observe-history whole_numbers sample_store sample_store-IsLawful whole_numbers-IsOrdered
      (pos 100) "+46" no_callers [] nothing-recorded (tt, tt) observe-first
