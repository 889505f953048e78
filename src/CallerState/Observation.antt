-- ===== src/CallerState/Observation.antt =====
-- What one observation changes and reports (src/anti_fraud_as/caller_state.py,
-- `CallerStateStore.observe`).
use text.Mathlib.TextLemmas.{append_cancel_left}
use rdparty_as_poc.Prelude.{
  >>=-eq-ok, ok-injective, min, ◌+◌, max, String, ◌≡◌, sym, ap, ◌∙◌, ◌≢◌, ◌⊎◌, inl, inr, none, List,
  ◌∷◌, length, ok,
}
use rdparty_as_poc.Prelude.Float.{Floats, IsOrdered}
use rdparty_as_poc.CallerState.Window.{length-recorded}
use rdparty_as_poc.CallerState.History.{recorded, IsMonotonic, calls_inside}
use rdparty_as_poc.CallerState.{
  CallerSignals, Entry, StateStore, IsLawful, next_events, deque_of, window_key, reputation_key,
  record_call, effective_score, CallerStateStore, observe,
}
use rdparty_as_poc.CallerState.Store.{keys_apart, max_one}

module _ (f : Floats) (s : StateStore f) (law : IsLawful f s) where
  -- A call of one caller leaves another caller's records as they were, or forgets them: it never
  -- changes them.
  pub observe-other :
      (now : f.Float) (caller other : String) (c : CallerStateStore f s)
      → other ≢ caller
      → let t = (observe f s now caller c).1.state in
        ((s.read t (window_key other) ≡ none)
          ⊎ (s.read t (window_key other) ≡ s.read c.state (window_key other)))
        × ((s.read t (reputation_key other) ≡ none)
            ⊎ (s.read t (reputation_key other) ≡ s.read c.state (reputation_key other)))
  unfolding observe record_call
  observe-other now caller other c ne =
      let p = c.policy in
      let key = window_key caller in
      let es = next_events f now p.window_seconds p.max_calls (deque_of f (s.read c.state key)) in
      let t = s.write c.state key (Entry.events es) in
      let n = max 1 p.max_tracked_callers in
      (
        elim (law.read-trim t "window:" n (window_key other)) [
          | inl gone ↦ inl gone
          | inr kept ↦ inr (
              kept
              ∙ law.read-write_ne c.state key (window_key other) (Entry.events es)
                  (λ e. ne (append_cancel_left "window:" other caller e)))
        ],
        elim (law.read-trim t "window:" n (reputation_key other)) [
          | inl gone ↦ inl gone
          | inr kept ↦ inr (
              kept
              ∙ law.read-write_ne c.state key (reputation_key other) (Entry.events es)
                  (λ e. keys_apart caller other (sym e)))
        ],
      )

module _ (f : Floats) (s : StateStore f) (law : IsLawful f s) (ord : IsOrdered f) where
  -- While the store has kept a caller's deque for the whole history of its calls, newest first, under
  -- one policy, and the clock has never run back, an observation that returns reports the number of all
  -- those calls inside the window, this one included, up to `max_calls + 1`, and the deque is kept for
  -- the history with this call.
  pub observe-history :
      (now : f.Float) (caller : String) (c : CallerStateStore f s) (hs : List f.Float)
      {signals : CallerSignals f}
      → deque_of f (s.read c.state (window_key caller))
        ≡ recorded f c.policy.window_seconds c.policy.max_calls hs
      → IsMonotonic f (now ∷ hs)
      → (observe f s now caller c).0 ≡ ok signals
      → (signals.calls_in_window
          ≡ min (c.policy.max_calls + 1) (calls_inside f c.policy.window_seconds now (now ∷ hs)))
        × (deque_of f (s.read (observe f s now caller c).1.state (window_key caller))
            ≡ recorded f c.policy.window_seconds c.policy.max_calls (now ∷ hs))
  unfolding observe record_call
  observe-history now caller c hs {signals} kept up seen =
      let p = c.policy in
      let es =
        next_events f now p.window_seconds p.max_calls
          (deque_of f (s.read c.state (window_key caller))) in
      let same : es ≡ recorded f p.window_seconds p.max_calls (now ∷ hs) =
        ap (next_events f now p.window_seconds p.max_calls) kept in
      let (k, m) = max_one p.max_tracked_callers in
      let (score, _, made) =
        >>=-eq-ok (effective_score f s _ caller now p.default_score p.half_life_seconds) _ seen in
      (
        ap (λ (x : CallerSignals f). x.calls_in_window) (sym (ok-injective made))
            ∙ ap length same
            ∙ length-recorded f ord p.window_seconds p.max_calls now hs up,
        rw (m, law.trim-write c.state "window:" caller k (Entry.events es)) same,
      )
