-- ===== src/FraudCall/Codes.antt =====
-- The error code of a rejection by screening (src/anti_fraud_as/call_controller.py,
-- `_error_code_for`).
use rdparty_as_poc.Prelude.{◌≡◌, refl, ap, ◌∙◌, some, arith}
use rdparty_as_poc.Prelude.Float.{Floats}
use rdparty_as_poc.Errors.{FraudErrorCode, fraud_member}
use rdparty_as_poc.Screening.{
  ScreeningVerdict, ScreeningSource, ScreeningSignals, ScreeningPolicy, screen,
}
use rdparty_as_poc.FraudCall.{error_code_for}

-- Each code of the family is resolved to its own member.
error_code_for_member : (c : FraudErrorCode) → error_code_for (some (fraud_member c).code) ≡ c
unfolding error_code_for
error_code_for_member FraudErrorCode.fraud_caller_blocked = refl
error_code_for_member FraudErrorCode.fraud_rate_exceeded = refl
error_code_for_member FraudErrorCode.fraud_reputation_low = refl
error_code_for_member FraudErrorCode.fraud_data_unreadable = refl
error_code_for_member FraudErrorCode.fraud_data_schema_error = refl
error_code_for_member FraudErrorCode.fraud_no_verdict = refl

-- The member that reports each rejecting source.
abbrev pub code_of : ScreeningSource → FraudErrorCode
code_of ScreeningSource.block_list = FraudErrorCode.fraud_caller_blocked
code_of ScreeningSource.rate_window = FraudErrorCode.fraud_rate_exceeded
code_of ScreeningSource.reputation = FraudErrorCode.fraud_reputation_low
code_of ScreeningSource.allow_list = FraudErrorCode.fraud_no_verdict
code_of ScreeningSource.none = FraudErrorCode.fraud_no_verdict

screen-code :
    (f : Floats) (s : ScreeningSignals f) (p : ScreeningPolicy f)
    → (screen f s p).verdict ≡ ScreeningVerdict.reject
    → ((screen f s p).error_code ≡ some (fraud_member (code_of (screen f s p).source)).code)
      × ((fraud_member (code_of (screen f s p).source)).sip_status ≡ 608)
unfolding screen
screen-code f s p h = ground arith

-- A rejected call is answered 608 with the member of the source that decided: the fallback for a
-- missing verdict is never reached.
pub screen-error_code_for :
    (f : Floats) (s : ScreeningSignals f) (p : ScreeningPolicy f)
    → (screen f s p).verdict ≡ ScreeningVerdict.reject
    → (error_code_for (screen f s p).error_code ≡ code_of (screen f s p).source)
      × ((fraud_member (error_code_for (screen f s p).error_code)).sip_status ≡ 608)
screen-error_code_for f s p h =
    let (e, status) = screen-code f s p h in
    let same = ap error_code_for e ∙ error_code_for_member (code_of (screen f s p).source) in
    (same, ap (λ c. (fraud_member c).sip_status) same ∙ status)
