-- ===== src/FraudCall/Identity.antt =====
-- Which caller a call is counted under (src/anti_fraud_as/call_controller.py).
use mathlib.Core.Bool.{false≢true}
use rdparty_as_poc.Prelude.{
  String, ◌≡◌, false, Option, none, some, arith, inl, inr, Option-cases, Bool-cases, str_eq, ◌==◌,
}
use rdparty_as_poc.Prelude.Float.{Floats}
use rdparty_as_poc.CallerState.{CallerSignals}
use rdparty_as_poc.Screening.{ScreeningVerdict, screen}
use rdparty_as_poc.Screening.Laws.{screen_reject_iff}
use rdparty_as_poc.ScreeningData.Document.{ScreeningData}
use rdparty_as_poc.FraudCall.{
  Platform, or_dash, signals_of, thresholds_of, non_blank, calling_number_of, number_of,
}

module _ (f : Floats) (platform : Platform f) where
  non_blank-usable :
      (user : Option String) {n : String} → non_blank f platform user ≡ some n → str_eq n "" ≡ false
  non_blank-usable user h = ground arith

  calling_number_of-usable :
      (request : platform.Request) {n : String}
      → calling_number_of f platform request ≡ some n
      → str_eq n "" ≡ false
  unfolding calling_number_of
  calling_number_of-usable request h = elim (Bool-cases (platform.count_identities request == 0)) [
    | inl nobody ↦ cc (rw nobody at h)
    | inr known ↦ non_blank-usable (platform.identity_user request) (rw known at h)
  ]

  -- The caller that is penalised for a rejected call is the caller that the call was counted under:
  -- the placeholder for a missing identity is never penalised.
  pub signals_of-or_dash :
      (lists : ScreeningData f) (request : Option platform.Request) (caller : CallerSignals f)
      → (screen f
          (signals_of f lists (number_of f platform request) caller)
          (thresholds_of f lists)).verdict
        ≡ ScreeningVerdict.reject
      → (signals_of f lists (number_of f platform request) caller).calling_number
        ≡ or_dash (number_of f platform request)
  signals_of-or_dash lists none caller h =
      absurd (false≢true ((screen_reject_iff f _ (thresholds_of f lists)).0 h).0)
  signals_of-or_dash lists (some request) caller h =
      elim (Option-cases (calling_number_of f platform request)) [
        | inl nobody ↦
            absurd
              (false≢true (rw nobody at ((screen_reject_iff f _ (thresholds_of f lists)).0 h).0))
        | inr (n, known) ↦ rw (known, calling_number_of-usable request known)
      ]
