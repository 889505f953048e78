-- ===== src/CallerState.antt =====
-- src/anti_fraud_as/caller_state.py: the cross-call state of the process, a window of call instants
-- and a reputation score for each caller, kept in the platform's `StateStore`.
pub mod History
pub mod Window
pub mod Store
pub mod Observation
use rdparty_as_poc.Prelude.{
  ℕ, suc, ◌+◌, String, ◌<>◌, ◌≡◌, ◌≢◌, ◌⊎◌, Bool, true, false, Option, none, some, List, [], ◌∷◌,
  ◌++◌, ltb, if◌then◌else◌, length, drop, max, Result, ok, err, ◌>>=◌,
}
use rdparty_as_poc.Prelude.Float.{Floats}

-- `f"{self._PREFIX}{caller}"`, in the window and in the ledger.
abbrev pub window_key : String → String
window_key caller = "window:" <> caller

abbrev pub reputation_key : String → String
reputation_key caller = "reputation:" <> caller

module _ (f : Floats) where
  pub record WindowPolicy : Type 0 where
    pub window_seconds : f.Float
    pub max_calls : ℕ
    pub half_life_seconds : f.Float
    pub default_score : f.Float
    pub reject_penalty : f.Float
    pub max_tracked_callers : ℕ

  pub record CallerSignals : Type 0 where
    pub calling_number : String
    pub effective_reputation : f.Float
    pub calls_in_window : ℕ

  -- What the two structures keep in the store: a deque of instants, or a score and its instant.
  pub data Entry : Type 0 where
    events : List f.Float → Entry
    scored : f.Float → f.Float → Entry

  -- `as_platform.state_store.StateStore`.
  pub record StateStore : Type 1 where
    pub State : Type 0
    pub read : State → String → Option Entry
    pub write : State → String → Entry → State
    pub trim : State → String → ℕ → State

  -- What the servers rely on: a write is read back and touches no other key, and trimming a family of
  -- keys forgets some of them but changes none, and not the key that was written last while one is
  -- left.
  pub record IsLawful (s : StateStore) : Type 0 where
    pub read-write_self : (t : s.State) (k : String) (e : Entry) → s.read (s.write t k e) k ≡ some e
    pub read-write_ne :
        (t : s.State) (k j : String) (e : Entry) → j ≢ k → s.read (s.write t k e) j ≡ s.read t j
    pub read-trim :
        (t : s.State) (p : String) (n : ℕ) (k : String)
        → (s.read (s.trim t p n) k ≡ none) ⊎ (s.read (s.trim t p n) k ≡ s.read t k)
    pub trim-write :
        (t : s.State) (p c : String) (n : ℕ) (e : Entry)
        → s.read (s.trim (s.write t (p <> c) e) p (suc n)) (p <> c) ≡ some e

  -- `while events and events[0] <= oldest_allowed: events.popleft()`
  unfoldable pub drop_old : f.Float → List f.Float → List f.Float
  drop_old oldest [] = []
  drop_old oldest (e ∷ es) =
      let rest = drop_old oldest es in if f.leb e oldest then rest else e ∷ es

  -- `while len(events) > max_calls + 1: events.popleft()`
  unfoldable pub drop_excess : ℕ → List f.Float → List f.Float
  drop_excess max_calls [] = []
  drop_excess max_calls (e ∷ es) =
      let rest = drop_excess max_calls es in
      if ltb (max_calls + 1) (length (e ∷ es)) then rest else e ∷ es

  -- The three steps of `CallRateWindow.record` on the caller's deque.
  unfoldable pub next_events : f.Float → f.Float → ℕ → List f.Float → List f.Float
  next_events at window_seconds max_calls old =
      drop_excess max_calls (drop_old (f.sub at window_seconds) (old ++ at ∷ []))

  -- `_decay`
  unfoldable pub decay : f.Float → f.Float → f.Float → f.Float → f.Float → f.Float
  decay score updated_at now default_score half_life_seconds =
      let passed = f.sub now updated_at in
      let elapsed = if f.ltb f.zero passed then passed else f.zero in
      let factor = f.half_power (f.div elapsed half_life_seconds) in
      f.add default_score (f.mul (f.sub score default_score) factor)

  -- `deque(stored)` iterates whatever is stored.
  abbrev pub deque_of : Option Entry → List f.Float
  deque_of none = []
  deque_of (some (events es)) = es
  deque_of (some (scored s u)) = s ∷ u ∷ []

  -- `score, updated_at = entry`
  abbrev pub unpack : Entry → Result String (f.Float × f.Float)
  unpack (scored s u) = ok (s, u)
  unpack (events (s ∷ u ∷ [])) = ok (s, u)
  unpack (events _) = err "ValueError"

  -- The score behind a record of the ledger, or the default where there is none.
  abbrev pub score_of : f.Float → f.Float → f.Float → Option Entry → Result String f.Float
  score_of now default_score half_life_seconds none = ok default_score
  score_of now default_score half_life_seconds (some e) =
      unpack e >>= λ p. ok (decay p.0 p.1 now default_score half_life_seconds)

  module _ (s : StateStore) where
    -- `CallRateWindow.record`: the count, and the store afterwards.
    unfoldable pub record_call : s.State → String → f.Float → f.Float → ℕ → ℕ → ℕ × s.State
    record_call t caller at window_seconds max_calls max_tracked =
        let kept =
          next_events at window_seconds max_calls (deque_of (s.read t (window_key caller))) in
        (
          length kept,
          s.trim (s.write t (window_key caller) (events kept)) "window:" (max 1 max_tracked),
        )

    -- `ReputationLedger.effective_score`
    unfoldable pub effective_score :
        s.State → String → f.Float → f.Float → f.Float → Result String f.Float
    effective_score t caller now default_score half_life_seconds =
        score_of now default_score half_life_seconds (s.read t (reputation_key caller))

    -- The rest of `ReputationLedger.penalise`, over the score.
    abbrev pub store_penalty :
        s.State
        → String
        → f.Float
        → WindowPolicy
        → Result String f.Float
        → Result String f.Float × s.State
    store_penalty t caller now policy (ok score) =
        let lowered = f.sub score policy.reject_penalty in
        (
          ok lowered,
          s.trim (s.write t (reputation_key caller) (scored lowered now)) "reputation:"
              (max 1 policy.max_tracked_callers),
        )
    store_penalty t caller now policy (err e) = (err e, t)

    -- `ReputationLedger.penalise`
    unfoldable pub penalise_entry :
        s.State → String → f.Float → WindowPolicy → Result String f.Float × s.State
    penalise_entry t caller now policy =
        store_penalty t caller now policy
          (effective_score t caller now policy.default_score policy.half_life_seconds)

    -- `CallerStateStore`, of which the clock is an argument of each operation.
    pub record CallerStateStore : Type 0 where
      pub policy : WindowPolicy
      pub state : s.State

    unfoldable pub reconfigure : WindowPolicy → CallerStateStore → CallerStateStore
    reconfigure policy c = record c { policy = policy }

    unfoldable pub observe :
        f.Float → String → CallerStateStore → Result String CallerSignals × CallerStateStore
    observe now calling_number c =
        let (calls, t) =
          record_call c.state calling_number now c.policy.window_seconds c.policy.max_calls
            c.policy.max_tracked_callers in
        (
          effective_score t calling_number now c.policy.default_score c.policy.half_life_seconds
              >>= λ score. ok (record {
                calling_number = calling_number;
                effective_reputation = score;
                calls_in_window = calls;
              }),
          record c { state = t },
        )

    unfoldable pub penalise :
        f.Float → String → CallerStateStore → Result String f.Float × CallerStateStore
    penalise now calling_number c =
        let (r, t) = penalise_entry c.state calling_number now c.policy in
        (r, record c { state = t })
