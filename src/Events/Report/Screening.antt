-- ===== src/Events/Report/Screening.antt =====
-- What is reported of a screened call (`apply_call_policy` of src/anti_fraud_as/call_controller.py).
use rdparty_as_poc.Prelude.{ℕ, String, ◌≡◌, ap, ◌∙◌, true, Option, none, some, [], ◌∷◌, Result, ok}
use rdparty_as_poc.Prelude.Float.{Floats}
use rdparty_as_poc.Screening.{ScreeningVerdict}
use rdparty_as_poc.CallerState.{CallerSignals, StateStore, IsLawful, CallerStateStore}
use rdparty_as_poc.ScreeningData.Document.{ScreeningData}
use rdparty_as_poc.FraudCall
use rdparty_as_poc.FraudCall.Laws.{observed, decision, result_lem}
use rdparty_as_poc.Events.Server.{Live}
use rdparty_as_poc.Events.Report.{
  Value, P12Event, Reporter, report_screening, apply_screening_policy,
}
use rdparty_as_poc.Events.Report.Laws.{Reports, emit_p12-Reports}

module _ (Time : Type 0) (dumps : P12Event Time → Option String)
    (writes : (e : P12Event Time) → (m : String) × (dumps e ≡ some m)) (f : Floats)
    (platform : FraudCall.Platform f) (s : StateStore f) (law : IsLawful f s)
    (lists : ScreeningData f) (now later : f.Float) (request : Option platform.Request)
    (call_id : String) (event : FraudCall.TryEvent f platform) (p : FraudCall.Process f platform s)
    (caller : CallerSignals f) (callers : CallerStateStore f s) (r : Reporter Time) (loop : ℕ)
    (l : Live) where
  -- A call that screening allows, where no next hop is configured, is reported as rejected with 608, by
  -- the source `none` and with the code of the configuration error that it is answered with: where the base's
  -- method answers as the hook decided, the application's loop is stored and takes the task, every event
  -- has a text, and the observation of the caller has answered.
  pub unrouted-Reports :
      (super : FraudCall.TryEvent f platform
        → FraudCall.Process f platform s
        → Result String (FraudCall.PolicyDecision f platform) × FraudCall.Process f platform s)
      (seen : observed f platform s law lists none now later request call_id event p
        ≡ (ok caller, callers))
      → (super event p).0
        ≡ (FraudCall.decide_call f platform s lists none now later request call_id event p).0
      → (decision f platform s law lists none now later request call_id event p caller callers
          seen).verdict
        ≡ ScreeningVerdict.allow
      → r.has_app ≡ true
      → r.accepted ≡ true
      → l.app_loop ≡ some loop
      → Reports Time dumps writes r loop "call_rejected_608"
          (("verdict", Value.text "reject")
            ∷ ("error_code", Value.text platform.cfg_missing.code)
            ∷ ("screen_source", Value.text "none")
            ∷ [])
          l
          (apply_screening_policy Time dumps f platform super r event p l).1
  unfolding apply_screening_policy report_screening FraudCall.relay_call
  unrouted-Reports super seen hook allowed app taken stored =
      let answer =
        hook
        ∙ ap
            (λ (x : Result String (FraudCall.PolicyDecision f platform)
                × FraudCall.Process f platform s).
              x.0)
            (result_lem f platform s law lists none now later request call_id event p caller callers
              seen ScreeningVerdict.allow allowed) in
      rw answer (emit_p12-Reports Time dumps writes r loop _ _ l app taken stored)
