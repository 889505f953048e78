-- ===== src/Tests/Calls.antt =====
-- Runs of the routing call controller (src/as_app/call_controller.py).
use rdparty_as_poc.Prelude.{◌≡◌, ◌≢◌, refl, none, some, [], ok}
use rdparty_as_poc.Errors.{AsError, AsErrorCode, Code, error_status}
use rdparty_as_poc.Routing.Rules.{make_rule_set, check_document}
use rdparty_as_poc.Routing.Rules.Validation.{IsChecked}
use rdparty_as_poc.Routing.Engine.{Disposition, RoutingDecision, blank}
use rdparty_as_poc.RoutingCall
use rdparty_as_poc.RoutingCall.Laws.{Answered, reject_error-member, decide_call-Answered}
use rdparty_as_poc.Tests.Samples.{sample_document, routing_platform}

-- A rule that rejects with 403 configured.
abbrev forbidden : RoutingDecision
forbidden = record (blank Disposition.reject "+46900") {
  sip_status = some 403;
  error_code = some "AS-ROUTE-002";
  reason = "no premium numbers";
}

forbidden_ne : forbidden.disposition ≢ Disposition.route
forbidden_ne = λ e. cc

reject_error-member_example :
    (e : AsError) × (RoutingCall.reject_error forbidden "c1" ≡ ok e)
    × (e.code ≡ Code.routing AsErrorCode.route_rejected)
    × (error_status e ≡ 603)
    × (e.call_id ≡ some "c1")
reject_error-member_example =
    reject_error-member forbidden "c1" AsErrorCode.route_rejected forbidden_ne refl

abbrev pub routed_event : RoutingCall.TryEvent routing_platform
routed_event = record {
  call_id = "c1";
  calling = "+31";
  called_number = "+46123";
  payload = "sdp";
  extra_headers = none;
  max_forwards = some 70;
}

abbrev pub fresh_call : RoutingCall.Call routing_platform
fresh_call = record { rule_hits = []; errors = []; traces = []; kept = none }

pub sample-IsChecked : IsChecked sample_document
unfolding check_document
sample-IsChecked = refl

decide_call-Answered_example :
    Answered routing_platform sample_document "rules.yaml" "c1" routed_event
      (some "invite")
      fresh_call
      (RoutingCall.decide_call routing_platform
        (make_rule_set sample_document "rules.yaml")
        "c1"
        routed_event
        (some "invite")
        fresh_call).0
      (RoutingCall.decide_call routing_platform
        (make_rule_set sample_document "rules.yaml")
        "c1"
        routed_event
        (some "invite")
        fresh_call).1
decide_call-Answered_example =
    decide_call-Answered routing_platform sample_document "rules.yaml" "c1" routed_event
      (some "invite") fresh_call sample-IsChecked
