-- ===== src/FraudCall/Signals.antt =====
-- The signals of one call (src/anti_fraud_as/call_controller.py): what the request says of its caller,
-- and what the lists and the caller state add.
use rdparty_as_poc.Prelude.{
  ℕ, String, Bool, false, Option, none, some, List, find?, ◌==◌, if◌then◌else◌, is_some, str_eq,
}
use rdparty_as_poc.Prelude.Float.{Floats}
use rdparty_as_poc.Prelude.Whitespace.{strip}
use rdparty_as_poc.Errors.{Member, FraudErrorCode, fraud_member, fraud_members}
use rdparty_as_poc.Screening.{ScreeningSignals, ScreeningPolicy}
use rdparty_as_poc.CallerState.{CallerSignals}
use rdparty_as_poc.ScreeningData.{ListMatch, ListMatchResult}
use rdparty_as_poc.ScreeningData.Document.{ScreeningData, match_number}
use rdparty_as_poc.FraudCall.Capability.{declares_608}

-- `candidate.code == code`, where the code may be `None`
abbrev pub is_code : Option String → String → Bool
is_code none c = false
is_code (some code) c = str_eq c code

abbrev pub or_no_verdict : Option FraudErrorCode → FraudErrorCode
or_no_verdict none = FraudErrorCode.fraud_no_verdict
or_no_verdict (some c) = c

-- `_error_code_for`
unfoldable pub error_code_for : Option String → FraudErrorCode
error_code_for code = or_no_verdict (find? (λ c. is_code code (fraud_member c).code) fraud_members)

-- `calling_number or "-"`
abbrev pub or_dash : Option String → String
or_dash none = "-"
or_dash (some n) = if str_eq n "" then "-" else n

-- `matches.allowed_by.entry_id if matches.allowed_by else None`
abbrev pub entry_id_of : Option ListMatch → Option String
entry_id_of none = none
entry_id_of (some m) = some m.entry_id

module _ (f : Floats) where
  abbrev pub matches_of : ScreeningData f → Option String → ListMatchResult
  matches_of lists none = record { allowed_by = none; blocked_by = none }
  matches_of lists (some number) = match_number f lists number

  -- The signals of a call, from its calling number and what was observed of it.
  abbrev pub signals_of : ScreeningData f → Option String → CallerSignals f → ScreeningSignals f
  signals_of lists number caller = record {
    calling_number = elim number [ none ↦ "" | some n ↦ n ];
    identity_present = is_some number;
    allowlisted_by = entry_id_of (matches_of lists number).allowed_by;
    blocklisted_by = entry_id_of (matches_of lists number).blocked_by;
    effective_reputation = caller.effective_reputation;
    calls_in_window = caller.calls_in_window;
  }

  abbrev pub thresholds_of : ScreeningData f → ScreeningPolicy f
  thresholds_of lists = record {
    reject_below_reputation = lists.document.reputation.reject_below;
    reject_above_calls = lists.document.window.max_calls;
  }

-- What the controller uses of the SIP stack and the platform library.
pub record Platform (f : Floats) : Type 1 where
  pub Request : Type 0
  -- `request.countHFs("p-asserted-identity")`
  pub count_identities : Request → ℕ
  -- `identity.address.url.username`, `None` where a part is missing
  pub identity_user : Request → Option String
  -- the bodies of the `Feature-Caps` headers
  pub feature_caps : Request → List String
  -- what an event carries beside its Call-ID: calling and called number, body, and the rest
  pub Payload : Type 0
  pub Headers : Type 0
  pub pass_through : Option Request → Headers
  pub outbound_call_id : String → String
  -- `SkeletonErrorCode.CFG_MISSING`
  pub cfg_missing : Member
  -- `round(x, 2)`
  pub round2 : f.Float → f.Float

module _ (f : Floats) (platform : Platform f) where
  open platform use {Request, count_identities, identity_user, feature_caps}

  abbrev pub non_blank : Option String → Option String
  non_blank none = none
  non_blank (some user) = let v = strip user in if str_eq v "" then none else some v

  unfoldable pub calling_number_of : Request → Option String
  calling_number_of request =
      if count_identities request == 0 then none else non_blank (identity_user request)

  unfoldable pub declares_sip_608 : Request → Bool
  declares_sip_608 request = declares_608 (feature_caps request)

  abbrev pub number_of : Option Request → Option String
  number_of none = none
  number_of (some request) = calling_number_of request

  abbrev pub declared_of : Option Request → Bool
  declared_of none = false
  declared_of (some request) = declares_sip_608 request
