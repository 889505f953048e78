-- ===== src/Events/Report.antt =====
-- What the call controllers report of a call: `recv_request`, `apply_call_policy`, `_record_disposition`
-- and `_emit_p12` of src/as_app/call_controller.py and src/anti_fraud_as/call_controller.py.
--
-- The methods of the platform's base class that these override are parameters: what `super()` answers.
-- So are the clock and `json.dumps`, which has no text for an event that it cannot serialise. Whether
-- the stored loop takes a task, which a closed one does not, is an argument.
pub mod Laws
pub mod Screening
use rdparty_as_poc.Prelude.{
  ℕ, String, Bool, true, false, Option, none, some, List, [], ◌∷◌, Result, ok, err, if◌then◌else◌,
}
use rdparty_as_poc.Prelude.Dict.{Dict}
use rdparty_as_poc.Prelude.Float.{Floats}
use rdparty_as_poc.Errors.{AsError, error_code, error_status}
use rdparty_as_poc.Routing.Rules.{NextHop}
use rdparty_as_poc.Routing.Engine.{RoutingDecision}
use rdparty_as_poc.RoutingCall
use rdparty_as_poc.FraudCall
use rdparty_as_poc.Events.Server.{Live, submit}

-- A value of an event's attributes.
pub data Value : Type 0 where
  null : Value
  text : String → Value
  number : ℕ → Value

abbrev pub text_or_null : Option String → Value
text_or_null none = Value.null
text_or_null (some s) = Value.text s

-- `event_dict` of `_emit_p12`
pub record P12Event (Time : Type 0) : Type 0 where
  pub timestamp : Time
  pub source : String
  pub event : String
  pub call_id : String
  pub attributes : Dict Value

-- The reason of `_record_disposition`: whether the event is a `CCEventFail`, and the trunk's leg, with
-- whether it is connected.
unfoldable pub end_reason : Bool → Option Bool → String
end_reason true leg = "fail"
end_reason false none = "cancel"
end_reason false (some connected) = if connected then "bye" else "cancel"

-- What a report needs beside its contents.
pub record Reporter (Time : Type 0) : Type 0 where
  pub has_app : Bool
  pub source : String
  pub call_id : Option String
  pub now : Time
  pub accepted : Bool

-- `getattr(self, "call_id", "unknown")`
abbrev pub or_unknown : Option String → String
or_unknown none = "unknown"
or_unknown (some call_id) = call_id

module _ (Time : Type 0) (dumps : P12Event Time → Option String) where
  abbrev pub event_dict : Reporter Time → String → Dict Value → P12Event Time
  event_dict r event attributes = record {
    timestamp = r.now;
    source = r.source;
    event = event;
    call_id = or_unknown r.call_id;
    attributes = attributes;
  }

  abbrev pub send_text : Bool → Option String → Live → Live
  send_text accepted none l = l
  send_text accepted (some message) l = submit accepted message l

  -- `_emit_p12`, which does nothing without an application or its loop.
  unfoldable pub emit_p12 : Reporter Time → String → Dict Value → Live → Live
  emit_p12 r event attributes l =
      if r.has_app
      then (elim l.app_loop [
        | none ↦ l
        | some _ ↦ send_text r.accepted (dumps (event_dict r event attributes)) l
      ])
      else l

  -- `recv_request`, behind what the base answers
  unfoldable pub recv_request {ℓ} : {A : Type ℓ} → Reporter Time → A → Live → A × Live
  recv_request r result l = (
    result,
    if r.has_app
        then emit_p12 r "call_started" (("direction", Value.text "trunk_in") ∷ []) l
        else l,
  )

  -- `_record_disposition`, behind the base's
  unfoldable pub record_disposition : Reporter Time → Bool → Option Bool → Live → Live
  record_disposition r is_fail leg l =
      emit_p12 r "call_ended" (("reason", Value.text (end_reason is_fail leg)) ∷ []) l

  -- The number-translation server.
  module _ (platform : RoutingCall.Platform) where
    abbrev pub rule_id_of : Option RoutingDecision → Value
    rule_id_of none = Value.text ""
    rule_id_of (some d) = text_or_null d.rule_id

    abbrev pub translated_of : Option RoutingDecision → Value
    translated_of none = Value.text ""
    translated_of (some d) = text_or_null d.translated_number

    abbrev pub hop_name : List NextHop → String
    hop_name [] = ""
    hop_name (h ∷ hs) = h.name

    -- What `apply_call_policy` reports, from the decision and the one that the controller keeps.
    unfoldable pub report_routing :
        Reporter Time
        → Result AsError (RoutingCall.PolicyDecision platform)
        → RoutingCall.Call platform
        → Live
        → Live
    report_routing r (err e) c l = l
    report_routing r (ok (RoutingCall.PolicyDecision.relay out hops rule_id)) c l =
        emit_p12 r "call_routed"
          (("rule_id", rule_id_of c.kept)
            ∷ ("next_hop", Value.text (hop_name hops))
            ∷ ("translated_number", translated_of c.kept)
            ∷ [])
          l
    report_routing r (ok (RoutingCall.PolicyDecision.reject e disposition rule_id)) c l =
        emit_p12 r "call_rejected"
          (("rule_id", Value.text rule_id)
            ∷ ("error_code", Value.text (error_code e))
            ∷ ("sip_status", Value.number (error_status e))
            ∷ [])
          l

    -- `apply_call_policy`, over the base's
    unfoldable pub apply_call_policy :
        (RoutingCall.TryEvent platform
          → RoutingCall.Call platform
          → Result AsError (RoutingCall.PolicyDecision platform) × RoutingCall.Call platform)
        → Reporter Time
        → RoutingCall.TryEvent platform
        → RoutingCall.Call platform
        → Live
        → (Result AsError (RoutingCall.PolicyDecision platform) × RoutingCall.Call platform) × Live
    apply_call_policy super r event c l =
        let answer = super event c in (answer, report_routing r answer.0 answer.1 l)

  -- The anti-fraud server.
  module _ (f : Floats) (platform : FraudCall.Platform f) where
    unfoldable pub report_screening :
        Reporter Time → Result String (FraudCall.PolicyDecision f platform) → Live → Live
    report_screening r (err e) l = l
    report_screening r (ok (FraudCall.PolicyDecision.relay out hops)) l =
        emit_p12 r "call_allowed" (("verdict", Value.text "allow") ∷ []) l
    report_screening r (ok (FraudCall.PolicyDecision.reject e attributes)) l =
        emit_p12 r "call_rejected_608"
          (("verdict", Value.text "reject")
            ∷ ("error_code", Value.text (error_code e))
            ∷ ("screen_source", Value.text attributes.screen_source)
            ∷ [])
          l

    -- `apply_call_policy`, over the base's
    unfoldable pub apply_screening_policy {ℓ} :
        {P : Type ℓ}
        → (FraudCall.TryEvent f platform
            → P
            → Result String (FraudCall.PolicyDecision f platform) × P)
        → Reporter Time
        → FraudCall.TryEvent f platform
        → P
        → Live
        → (Result String (FraudCall.PolicyDecision f platform) × P) × Live
    apply_screening_policy super r event p l =
        let answer = super event p in (answer, report_screening r answer.0 l)
