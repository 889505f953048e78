-- ===== src/RoutingCall.antt =====
-- src/as_app/call_controller.py: the routing decision of one call, from the inbound event to the
-- decision that the platform applies.
--
-- What the SIP stack and the platform library do is a parameter: the payload of an event, the headers
-- that are passed through, and the Call-ID of the second leg.
pub mod Laws
use rdparty_as_poc.Prelude.{
  ℕ, String, ◌<>◌, Bool, Option, none, some, List, [], ◌∷◌, find?, str_eq, if◌then◌else◌, Result,
  ok, err, ◌>>=◌,
}
use rdparty_as_poc.Errors.{AsError, Code, AsErrorCode, as_member, as_members, error_code}
use rdparty_as_poc.Routing.Rules.{NextHop, RuleSet}
use rdparty_as_poc.Routing.Engine.{Disposition, RoutingDecision, decide}

-- `CallDisposition`, of which the controller names three members.
pub data CallDisposition : Type 0 where
  completed rejected no_match : CallDisposition

-- `disposition_for`
abbrev pub disposition_for : Disposition → CallDisposition
disposition_for Disposition.no_match = CallDisposition.no_match
disposition_for Disposition.reject = CallDisposition.rejected
disposition_for Disposition.route = CallDisposition.completed

-- `candidate.code == decision.error_code`
abbrev pub is_code : Option String → String → Bool
is_code none c = Bool.false
is_code (some code) c = str_eq c code

abbrev pub or_rejected : Option AsErrorCode → AsErrorCode
or_rejected none = AsErrorCode.route_rejected
or_rejected (some c) = c

abbrev pub or_empty : Option String → String
or_empty none = ""
or_empty (some s) = s

-- An identifier as Python prints it.
abbrev pub or_none : Option String → String
or_none none = "None"
or_none (some s) = s

-- The error of a rejection: the loop over the family falls back to `ROUTE_REJECTED`.
abbrev pub rejection : RoutingDecision → String → AsError
rejection d call_id = record {
  code =
      Code.routing (or_rejected (find? (λ c. is_code d.error_code (as_member c).code) as_members));
  detail = d.reason;
  call_id = some call_id;
  context = ("rule_id", or_empty d.rule_id) ∷ [];
}

abbrev pub routable : RoutingDecision → String → AsError
routable d call_id = record {
  code = Code.routing AsErrorCode.route_translation_failed;
  detail = "decision for rule " <> (or_none d.rule_id <> " is routable and cannot be rejected");
  call_id = some call_id;
  context = [];
}

-- `reject_error`, which raises for a route.
unfoldable pub reject_error : RoutingDecision → String → Result AsError AsError
reject_error d call_id = elim d.disposition [
  | Disposition.route ↦ err (routable d call_id)
  | Disposition.reject ↦ ok (rejection d call_id)
  | Disposition.no_match ↦ ok (rejection d call_id)
]

pub record Platform : Type 1 where
  pub Payload : Type 0
  pub Headers : Type 0
  pub Request : Type 0
  pub pass_through : Option Request → Headers
  pub outbound_call_id : String → String

module _ (platform : Platform) where
  open platform use {Payload, Headers, Request, pass_through, outbound_call_id}

  -- A `CCEventTry`: Call-ID, calling number, called number, and the rest of its tuple.
  pub record TryEvent : Type 0 where
    pub call_id : String
    pub calling : Payload
    pub called_number : String
    pub payload : Payload
    pub extra_headers : Option Headers
    pub max_forwards : Option ℕ

  -- The two shapes of `PolicyDecision`: a relay with its event, hops and log fields, and a reject with
  -- its error, the disposition to count and the rule.
  pub data PolicyDecision : Type 0 where
    relay : TryEvent → List NextHop → String → PolicyDecision
    reject : AsError → CallDisposition → String → PolicyDecision

  -- What a call changes: the rule hits, errors and decision traces recorded so far, newest first, and
  -- the decision that the controller keeps.
  pub record Call : Type 0 where
    pub rule_hits : List String
    pub errors : List String
    pub traces : List RoutingDecision
    pub kept : Option RoutingDecision

  abbrev pub add_hit : Option String → List String → List String
  add_hit none xs = xs
  add_hit (some x) xs = x ∷ xs

  -- The recording of `route_call`, behind `decide`.
  abbrev pub record_decision : RoutingDecision → Call → Call
  record_decision d c = record c {
    rule_hits = add_hit d.rule_id c.rule_hits;
    errors = add_hit d.error_code c.errors;
    traces = d ∷ c.traces;
  }

  -- `route_call`: what the engine raises passes through, with nothing recorded.
  abbrev pub record_routed : Result AsError RoutingDecision → Call → Call
  record_routed (ok d) c = record_decision d c
  record_routed (err e) c = c

  unfoldable pub route_call : RuleSet → String → Call → Result AsError RoutingDecision × Call
  route_call rules number c = let r = decide rules number in (r, record_routed r c)

  -- `_reject_decision`
  abbrev pub reject_decision : AsError → CallDisposition → Option String → PolicyDecision
  reject_decision e d rule_id = PolicyDecision.reject e d (or_empty rule_id)

  -- `decision.translated_number or called_number`
  abbrev pub or_number : Option String → String → String
  or_number none number = number
  or_number (some t) number = if str_eq t "" then number else t

  -- The relay branch of `decide`.
  abbrev pub rebuild : TryEvent → Option Request → RoutingDecision → TryEvent
  rebuild event request d = record {
    call_id = outbound_call_id event.call_id;
    calling = event.calling;
    called_number = or_number d.translated_number event.called_number;
    payload = event.payload;
    extra_headers = some (pass_through request);
    max_forwards = event.max_forwards;
  }

  abbrev pub no_hop_error : RoutingDecision → String → AsError
  no_hop_error d call_id = record {
    code = Code.routing AsErrorCode.route_no_next_hop;
    detail = "rule " <> (or_number d.rule_id "-" <> " selected no next hop");
    call_id = some call_id;
    context = [];
  }

  -- The branches of `decide` behind `route_call`, by disposition and hops.
  unfoldable pub conclude :
      Disposition
      → List NextHop
      → String
      → TryEvent
      → Option Request
      → RoutingDecision
      → Result AsError PolicyDecision
  conclude Disposition.route [] call_id event request d =
      ok (reject_decision (no_hop_error d call_id) CallDisposition.rejected d.rule_id)
  conclude Disposition.route (h ∷ hs) call_id event request d =
      ok (PolicyDecision.relay (rebuild event request d) (h ∷ hs) (or_empty d.rule_id))
  conclude x hops call_id event request d =
      reject_error d call_id >>= λ e. ok (reject_decision e (disposition_for x) d.rule_id)

  abbrev pub decide_routed :
      String
      → TryEvent
      → Option Request
      → Call
      → Result AsError RoutingDecision
      → Result AsError PolicyDecision × Call
  decide_routed call_id event request c (err e) =
      (ok (reject_decision e CallDisposition.rejected none), c)
  decide_routed call_id event request c (ok d) =
      (conclude d.disposition d.next_hops call_id event request d, record c { kept = some d })

  -- `CallController.decide`
  unfoldable pub decide_call :
      RuleSet → String → TryEvent → Option Request → Call → Result AsError PolicyDecision × Call
  decide_call rules call_id event request c =
      let (r, c') = route_call rules event.called_number c in
      decide_routed call_id event request c' r
