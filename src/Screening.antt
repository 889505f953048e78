-- ===== src/Screening.antt =====
-- src/anti_fraud_as/screening.py: the anti-fraud verdict, a pure function of plain values.
pub mod Laws
use rdparty_as_poc.Prelude.{ℕ, String, Bool, true, false, not, Option, some, ltb, if◌then◌else◌}
use rdparty_as_poc.Prelude.Float.{Floats}
use rdparty_as_poc.Errors.{FraudErrorCode, fraud_member}

pub data ScreeningVerdict : Type 0 where
  allow reject : ScreeningVerdict

pub data ScreeningSource : Type 0 where
  allow_list block_list rate_window reputation none : ScreeningSource

-- The text of a verdict and of a source, as counters and traces carry them.
abbrev pub verdict_value : ScreeningVerdict → String
verdict_value allow = "allow"
verdict_value reject = "reject"

abbrev pub source_value : ScreeningSource → String
source_value ScreeningSource.allow_list = "allow_list"
source_value ScreeningSource.block_list = "block_list"
source_value ScreeningSource.rate_window = "rate_window"
source_value ScreeningSource.reputation = "reputation"
source_value ScreeningSource.none = "none"

module _ (f : Floats) where
  pub record ScreeningSignals : Type 0 where
    pub calling_number : String
    pub identity_present : Bool
    pub allowlisted_by : Option String
    pub blocklisted_by : Option String
    pub effective_reputation : f.Float
    pub calls_in_window : ℕ

  pub record ScreeningPolicy : Type 0 where
    pub reject_below_reputation : f.Float
    pub reject_above_calls : ℕ

  pub record ScreeningDecision : Type 0 where
    pub verdict : ScreeningVerdict
    pub reason : String
    pub source : ScreeningSource
    pub score : f.Float
    pub list_entry : Option String
    pub error_code : Option String

  -- The last three tests, on the thresholds and the reputation.
  abbrev pub screen_thresholds : ScreeningSignals → ScreeningPolicy → ScreeningDecision
  screen_thresholds signals policy =
      if ltb policy.reject_above_calls signals.calls_in_window
      then record {
        verdict = reject;
        reason = "calling party exceeded the call-rate window";
        source = ScreeningSource.rate_window;
        score = signals.effective_reputation;
        list_entry = Option.none;
        error_code = some (fraud_member FraudErrorCode.fraud_rate_exceeded).code;
      }
      else (if f.ltb signals.effective_reputation policy.reject_below_reputation
          then record {
            verdict = reject;
            reason = "calling party reputation is below the threshold";
            source = ScreeningSource.reputation;
            score = signals.effective_reputation;
            list_entry = Option.none;
            error_code = some (fraud_member FraudErrorCode.fraud_reputation_low).code;
          }
          else record {
            verdict = allow;
            reason = "no screening signal rejected the call";
            source = ScreeningSource.none;
            score = signals.effective_reputation;
            list_entry = Option.none;
            error_code = Option.none;
          })

  abbrev pub screen_lists :
      Option String → Option String → ScreeningSignals → ScreeningPolicy → ScreeningDecision
  screen_lists (some entry) blocked signals policy = record {
    verdict = allow;
    reason = "calling party is on the allow list";
    source = ScreeningSource.allow_list;
    score = signals.effective_reputation;
    list_entry = some entry;
    error_code = Option.none;
  }
  screen_lists Option.none (some entry) signals policy = record {
    verdict = reject;
    reason = "calling party is on the block list";
    source = ScreeningSource.block_list;
    score = signals.effective_reputation;
    list_entry = some entry;
    error_code = some (fraud_member FraudErrorCode.fraud_caller_blocked).code;
  }
  screen_lists Option.none Option.none signals policy = screen_thresholds signals policy

  unfoldable pub screen : ScreeningSignals → ScreeningPolicy → ScreeningDecision
  screen signals policy =
      if not signals.identity_present
      then record {
        verdict = allow;
        reason = "no calling identity available to screen";
        source = ScreeningSource.none;
        score = signals.effective_reputation;
        list_entry = Option.none;
        error_code = Option.none;
      }
      else screen_lists signals.allowlisted_by signals.blocklisted_by signals policy
