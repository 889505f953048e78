-- ===== src/FraudCall.antt =====
-- src/anti_fraud_as/call_controller.py: the verdict of one call, over the process-level state.
--
-- The SIP stack and the platform library are parameters: what a request and an event carry, the
-- headers that are passed through, and the Call-ID of the second leg.
pub mod Signals
pub mod Capability
pub mod Codes
pub mod Headers
pub mod Identity
pub mod Laws
use rdparty_as_poc.Prelude.{
  ℕ, String, ◌<>◌, Bool, true, false, not, Option, none, some, List, [], ◌∷◌, ◌++◌, any, find?,
  ◌==◌, if◌then◌else◌, is_some, str_eq, Result, ok, err, ◌>>=◌,
}
use rdparty_as_poc.Prelude.Float.{Floats}
use rdparty_as_poc.Prelude.Whitespace.{strip}
use rdparty_as_poc.Errors.{
  AsError, Code, Member, FraudErrorCode, fraud_member, fraud_members, error_code,
}
use rdparty_as_poc.Screening.{
  ScreeningVerdict, ScreeningSource, ScreeningSignals, ScreeningPolicy, ScreeningDecision, screen,
  verdict_value, source_value,
}
use rdparty_as_poc.CallerState.{CallerSignals, StateStore, CallerStateStore, observe, penalise}
use rdparty_as_poc.ScreeningData.{ListMatch, ListMatchResult}
use rdparty_as_poc.ScreeningData.Document.{ScreeningData, match_number}
use rdparty_as_poc.FraudCall.Capability.{declares_608}
unfoldable pub use rdparty_as_poc.FraudCall.Signals.*

module _ (f : Floats) (platform : Platform f) where
  open platform use {Request, Payload, Headers, pass_through, outbound_call_id, cfg_missing, round2}

  -- A `CCEventTry`, with the headers and the `Max-Forwards` that are set on it.
  pub record TryEvent : Type 0 where
    pub call_id : String
    pub payload : Payload
    pub extra_headers : Option Headers
    pub max_forwards : Option ℕ

  -- `_reject_attributes`
  pub record RejectAttributes : Type 0 where
    pub screen_source : String
    pub list_entry : Option String
    pub sip_608_declared : Option Bool

  pub record Hop : Type 0 where
    pub name : String
    pub address : String
    pub port : ℕ

  -- The two shapes of `PolicyDecision` that the controller builds.
  pub data PolicyDecision : Type 0 where
    relay : TryEvent → List Hop → PolicyDecision
    reject : AsError → RejectAttributes → PolicyDecision

  -- The attributes of the `verdict` trace record.
  pub record VerdictTrace : Type 0 where
    pub verdict : String
    pub screen_source : String
    pub screen_reason : String
    pub reputation : f.Float
    pub calls_in_window : ℕ
    pub identity_present : Bool
    pub sip_608_declared : Bool
    pub list_entry : Option String

  module _ (s : StateStore f) where
    -- What a call reads and changes: the state of the callers, the counters and errors recorded so
    -- far, and the trace, all newest first.
    pub record Process : Type 0 where
      pub callers : CallerStateStore f s
      pub counters : List String
      pub errors : List String
      pub trace : List VerdictTrace

    abbrev pub record_counter : String → Process → Process
    record_counter name p = record p { counters = name ∷ p.counters }

    abbrev pub record_error : String → Process → Process
    record_error name p = record p { errors = name ∷ p.errors }

    -- `_record_verdict`
    unfoldable pub record_verdict :
        ScreeningDecision f → ScreeningSignals f → Bool → Process → Process
    record_verdict d signals declared p =
        let counted =
          record_counter ("screen." <> source_value d.source)
            (record_counter ("verdict." <> verdict_value d.verdict) p) in
        record counted {
          trace =
              record {
                verdict = verdict_value d.verdict;
                screen_source = source_value d.source;
                screen_reason = d.reason;
                reputation = round2 d.score;
                calls_in_window = signals.calls_in_window;
                identity_present = signals.identity_present;
                sip_608_declared = declared;
                list_entry = d.list_entry;
              }
              ∷ counted.trace;
        }

    -- The `AsError` of a rejection by screening.
    abbrev pub screening_error : String → ScreeningDecision f → AsError
    screening_error call_id d = record {
      code = Code.fraud (error_code_for d.error_code);
      detail = d.reason;
      call_id = some call_id;
      context = ("screen_source", source_value d.source) ∷ [];
    }

    abbrev pub count_undeclared : Bool → Process → Process
    count_undeclared true p = p
    count_undeclared false p = record_counter "reject.sip_608_undeclared" p

    -- The reject branch of `decide` behind the penalty, whose result is not used, but whose exception
    -- would leave the call.
    abbrev pub answer_reject :
        Result String f.Float
        → String
        → ScreeningDecision f
        → Bool
        → Process
        → Result String PolicyDecision × Process
    answer_reject (err e) call_id d declared p = (err e, p)
    answer_reject (ok _) call_id d declared p = (
      ok (
          reject (screening_error call_id d) (record {
            screen_source = source_value d.source;
            list_entry = d.list_entry;
            sip_608_declared = some declared;
          })),
      record_error (error_code (screening_error call_id d)) (count_undeclared declared p),
    )

    -- The reject branch of `decide`, with the clock of `penalise`.
    unfoldable pub reject_call :
        f.Float
        → String
        → ScreeningDecision f
        → ScreeningSignals f
        → Bool
        → Process
        → Result String PolicyDecision × Process
    reject_call now call_id d signals declared p =
        let (r, callers) = penalise f s now signals.calling_number p.callers in
        answer_reject r call_id d declared (record p { callers = callers })

    -- The branches of `decide` for an allowed call.
    unfoldable pub relay_call :
        Option (String × ℕ)
        → Option Request
        → String
        → TryEvent
        → Process
        → Result String PolicyDecision × Process
    relay_call none request call_id event p =
        let error : AsError = record {
          code = Code.skeleton cfg_missing;
          detail = "FRAUD_SBC_PEER_ADDRESS is required: the AS must know its next hop";
          call_id = some call_id;
          context = [];
        } in
        (
          ok (
              reject error (record {
                screen_source = source_value ScreeningSource.none;
                list_entry = none;
                sip_608_declared = none;
              })),
          record_error (error_code error) p,
        )
    relay_call (some hop) request call_id event p = (
      ok (
          relay
            (record {
              call_id = outbound_call_id event.call_id;
              payload = event.payload;
              extra_headers = some (pass_through request);
              max_forwards = event.max_forwards;
            })
            (record { name = "fraud_sbc_peer"; address = hop.0; port = hop.1 } ∷ [])),
      p,
    )

    -- `decide`: the verdict of one call. The two clock readings are those of `observe` and of
    -- `penalise`.
    abbrev pub act_on :
        ScreeningVerdict
        → f.Float
        → Option (String × ℕ)
        → Option Request
        → String
        → TryEvent
        → ScreeningDecision f
        → ScreeningSignals f
        → Bool
        → Process
        → Result String PolicyDecision × Process
    act_on ScreeningVerdict.reject later next_hop request call_id event d signals declared p =
        reject_call later call_id d signals declared p
    act_on ScreeningVerdict.allow later next_hop request call_id event d signals declared p =
        relay_call next_hop request call_id event p

    -- The part of `decide` behind the observation.
    unfoldable pub decide_observed :
        ScreeningData f
        → Option (String × ℕ)
        → f.Float
        → Option Request
        → String
        → TryEvent
        → Process
        → Result String (CallerSignals f)
        → Result String PolicyDecision × Process
    decide_observed lists next_hop later request call_id event p (err e) = (err e, p)
    decide_observed lists next_hop later request call_id event p (ok caller) =
        let signals = signals_of f lists (number_of f platform request) caller in
        let d = screen f signals (thresholds_of f lists) in
        act_on d.verdict later next_hop request call_id event d signals
          (declared_of f platform request)
          (record_verdict d signals (declared_of f platform request) p)

    unfoldable pub decide_call :
        ScreeningData f
        → Option (String × ℕ)
        → f.Float
        → f.Float
        → Option Request
        → String
        → TryEvent
        → Process
        → Result String PolicyDecision × Process
    decide_call lists next_hop now later request call_id event p =
        let (r, callers) = observe f s now (or_dash (number_of f platform request)) p.callers in
        decide_observed lists next_hop later request call_id event (record p { callers = callers })
          r
