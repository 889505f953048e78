-- ===== src/FraudStack.antt =====
-- src/anti_fraud_as/main.py, `FraudAsStack`: the screening data and the cross-call state that the
-- process holds, and the timer that reloads the one and reconfigures the other. The log lines of the
-- reload timer are kept as far as they carry an error, newest first.
pub mod Calls
pub mod Laws
use rdparty_as_poc.Prelude.{String, Bool, true, false, List, [], ◌∷◌, Result, ok, err, ◌>>=◌}
use rdparty_as_poc.Prelude.Float.{Floats}
use rdparty_as_poc.Errors.{AsError, Exception}
use rdparty_as_poc.Reload.{Disk, Store}
use rdparty_as_poc.Routing.Loading.{Parser}
use rdparty_as_poc.CallerState.{StateStore, CallerStateStore, reconfigure}
use rdparty_as_poc.ScreeningData.Document.{
  ScreeningDocument, ScreeningData, policy_of, make_screening_store, maybe_reload_screening,
}

module _ (f : Floats) (s : StateStore f) where
  pub record FraudAsStack : Type 0 where
    pub screening_data : Store (ScreeningData f)
    pub caller_state : CallerStateStore f s
    pub logged : List AsError

  abbrev pub stack_of : s.State → Store (ScreeningData f) → FraudAsStack
  stack_of empty store = record {
    screening_data = store;
    caller_state = record { policy = policy_of f store.current.document; state = empty };
    logged = [];
  }

  -- `FraudAsStack.__init__`, over the state of a store that is new.
  unfoldable pub make_fraud_stack :
      Parser (ScreeningDocument f) → s.State → Disk → Disk → String → Result Exception FraudAsStack
  make_fraud_stack p empty at_load at_stat path =
      make_screening_store f p at_load at_stat path >>= λ store. ok (stack_of empty store)

  -- `_poll_screening_reload` behind `maybe_reload`: an `AsError` is logged, another exception is raised.
  abbrev pub apply_reload :
      Result Exception Bool × Store (ScreeningData f)
      → FraudAsStack
      → Result String (Unit {0}) × FraudAsStack
  apply_reload (ok true, store) k = (
    ok tt,
    record k {
      screening_data = store;
      caller_state = reconfigure f s (policy_of f store.current.document) k.caller_state;
    },
  )
  apply_reload (ok false, store) k = (ok tt, record k { screening_data = store })
  apply_reload (err (Exception.as_error e), store) k =
      (ok tt, record k { screening_data = store; logged = e ∷ k.logged })
  apply_reload (err (Exception.other exc), store) k = (err exc, record k { screening_data = store })

  -- `_poll_screening_reload`
  unfoldable pub poll_screening_reload :
      Parser (ScreeningDocument f)
      → Disk
      → Disk
      → FraudAsStack
      → Result String (Unit {0}) × FraudAsStack
  poll_screening_reload p at_stat at_load k =
      apply_reload (maybe_reload_screening f p at_stat at_load k.screening_data) k
