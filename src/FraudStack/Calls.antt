-- ===== src/FraudStack/Calls.antt =====
-- A call leaves the policy of the caller state as it is (src/anti_fraud_as/call_controller.py over
-- src/anti_fraud_as/caller_state.py).
use rdparty_as_poc.Prelude.{
  ℕ, String, ◌≡◌, refl, ap, Bool, true, false, Option, none, some, Result, ok, err,
}
use rdparty_as_poc.Prelude.Float.{Floats}
use rdparty_as_poc.Screening.{ScreeningVerdict, ScreeningSignals, ScreeningDecision}
use rdparty_as_poc.CallerState.{CallerSignals, StateStore, observe, penalise}
use rdparty_as_poc.ScreeningData.Document.{ScreeningData}
use rdparty_as_poc.FraudCall
use rdparty_as_poc.FraudCall.{
  or_dash, answer_reject, reject_call, relay_call, act_on, record_verdict, decide_observed,
  decide_call,
}
use rdparty_as_poc.FraudCall.Signals.{Platform}

module _ (f : Floats) (platform : Platform f) (s : StateStore f) where
  answer_reject-callers :
      (r : Result String f.Float) (call_id : String) (d : ScreeningDecision f) (declared : Bool)
      (p : FraudCall.Process f platform s)
      → (answer_reject f platform s r call_id d declared p).1.callers ≡ p.callers
  answer_reject-callers (err e) call_id d declared p = refl
  answer_reject-callers (ok x) call_id d true p = refl
  answer_reject-callers (ok x) call_id d false p = refl

  reject_call-policy :
      (now : f.Float) (call_id : String) (d : ScreeningDecision f) (signals : ScreeningSignals f)
      (declared : Bool) (p : FraudCall.Process f platform s)
      → (reject_call f platform s now call_id d signals declared p).1.callers.policy
        ≡ p.callers.policy
  unfolding reject_call penalise
  reject_call-policy now call_id d signals declared p =
      ap (λ c. c.policy) (answer_reject-callers _ call_id d declared _)

  relay_call-policy :
      (hop : Option (String × ℕ)) (request : Option platform.Request) (call_id : String)
      (event : FraudCall.TryEvent f platform) (p : FraudCall.Process f platform s)
      → (relay_call f platform s hop request call_id event p).1.callers.policy ≡ p.callers.policy
  unfolding relay_call
  relay_call-policy none request call_id event p = refl
  relay_call-policy (some hop) request call_id event p = refl

  act_on-policy :
      (v : ScreeningVerdict) (later : f.Float) (hop : Option (String × ℕ))
      (request : Option platform.Request) (call_id : String) (event : FraudCall.TryEvent f platform)
      (d : ScreeningDecision f) (signals : ScreeningSignals f) (declared : Bool)
      (p : FraudCall.Process f platform s)
      → (act_on f platform s v later hop request call_id event d signals declared
          p).1.callers.policy
        ≡ p.callers.policy
  act_on-policy ScreeningVerdict.reject later hop request call_id event d signals declared p =
      reject_call-policy later call_id d signals declared p
  act_on-policy ScreeningVerdict.allow later hop request call_id event d signals declared p =
      relay_call-policy hop request call_id event p

  decide_observed-policy :
      (lists : ScreeningData f) (hop : Option (String × ℕ)) (later : f.Float)
      (request : Option platform.Request) (call_id : String) (event : FraudCall.TryEvent f platform)
      (p : FraudCall.Process f platform s) (r : Result String (CallerSignals f))
      → (decide_observed f platform s lists hop later request call_id event p r).1.callers.policy
        ≡ p.callers.policy
  unfolding decide_observed record_verdict
  decide_observed-policy lists hop later request call_id event p (err e) = refl
  decide_observed-policy lists hop later request call_id event p (ok caller) =
      act_on-policy _ later hop request call_id event _ _ _ _

  -- Whatever its verdict, and whether it raises, a call leaves the policy as it is.
  pub decide_call-policy :
      (lists : ScreeningData f) (hop : Option (String × ℕ)) (now later : f.Float)
      (request : Option platform.Request) (call_id : String) (event : FraudCall.TryEvent f platform)
      (p : FraudCall.Process f platform s)
      → (decide_call f platform s lists hop now later request call_id event p).1.callers.policy
        ≡ p.callers.policy
  unfolding decide_call observe
  decide_call-policy lists hop now later request call_id event p =
      decide_observed-policy lists hop later request call_id event _ _
