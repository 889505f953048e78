-- ===== src/Events/Report/Laws.antt =====
-- What is reported of a call agrees with what is done with it (`apply_call_policy` of
-- src/as_app/call_controller.py and src/anti_fraud_as/call_controller.py).
use rdparty_as_poc.Prelude.{
  ℕ, String, ◌≡◌, refl, true, Option, some, List, [], ◌∷◌, ◌++◌, Result, ok, err, arith,
}
use rdparty_as_poc.Prelude.Dict.{Dict, lookup}
use rdparty_as_poc.Errors.{AsError, error_code, error_status}
use rdparty_as_poc.Routing.Rules.{RoutingRulesDocument, NextHop, make_rule_set}
use rdparty_as_poc.Routing.Rules.Validation.{IsChecked}
use rdparty_as_poc.Routing.Engine.{Disposition, RoutingDecision, decide}
use rdparty_as_poc.Routing.Engine.Decision.{Sound, SoundFor, decide-Sound}
use rdparty_as_poc.RoutingCall
use rdparty_as_poc.RoutingCall.Laws.{or_number-ne-nil, reject_error-rejection}
use rdparty_as_poc.Events.Server.{Live, submit}
use rdparty_as_poc.Events.Report.{
  Value, P12Event, Reporter, event_dict, emit_p12, report_routing, apply_call_policy,
}

module _ (Time : Type 0) (dumps : P12Event Time → Option String)
    (writes : (e : P12Event Time) → (m : String) × (dumps e ≡ some m)) where
  -- One message more waits for the loop: the text of an event.
  abbrev pub Reports : Reporter Time → ℕ → String → Dict Value → Live → Live → Type 0
  Reports r loop event attributes l l' =
      l'.scheduled
      ≡ l.scheduled ++ (loop, (writes (event_dict Time dumps r event attributes)).0) ∷ []

  pub emit_p12-Reports :
      (r : Reporter Time) (loop : ℕ) (event : String) (attributes : Dict Value) (l : Live)
      → r.has_app ≡ true
      → r.accepted ≡ true
      → l.app_loop ≡ some loop
      → Reports r loop event attributes l (emit_p12 Time dumps r event attributes l)
  unfolding emit_p12 submit
  emit_p12-Reports r loop event attributes l app taken stored =
      let (m, e) = writes (event_dict Time dumps r event attributes) in ground (arith, e)

  module _ (platform : RoutingCall.Platform) where
    -- What is reported of a decision: of a relay the number that the INVITE goes out with and the first
    -- hop, of a rejection the code and the status of the answer.
    abbrev pub Agrees :
        Result AsError (RoutingCall.PolicyDecision platform) → String → Dict Value → Type 0
    Agrees (err e) event attributes = ⊥
    Agrees (ok (RoutingCall.PolicyDecision.relay out [] rule_id)) event attributes = ⊥
    Agrees (ok (RoutingCall.PolicyDecision.relay out (h ∷ hs) rule_id)) event attributes =
        (event ≡ "call_routed")
        × (lookup "translated_number" attributes ≡ some (Value.text out.called_number))
        × (lookup "next_hop" attributes ≡ some (Value.text h.name))
    Agrees (ok (RoutingCall.PolicyDecision.reject e disposition rule_id)) event attributes =
        (event ≡ "call_rejected")
        × (lookup "error_code" attributes ≡ some (Value.text (error_code e)))
        × (lookup "sip_status" attributes ≡ some (Value.number (error_status e)))

    module _ (d : RoutingRulesDocument) (source call_id : String)
        (event : RoutingCall.TryEvent platform) (request : Option platform.Request)
        (r : Reporter Time) (loop : ℕ) (l : Live) (app : r.has_app ≡ true)
        (taken : r.accepted ≡ true) (stored : l.app_loop ≡ some loop) where
      abbrev pub AgreesWith : Result AsError (RoutingCall.PolicyDecision platform) → Live → Type 0
      AgreesWith answer after =
          (name : String) × (attributes : Dict Value) × Agrees answer name attributes
          × Reports r loop name attributes l after

      conclude-AgreesWith :
          (x : Disposition) (hops : List NextHop) (found : RoutingDecision)
          (q : RoutingCall.Call platform)
          → found.disposition ≡ x
          → found.next_hops ≡ hops
          → q.kept ≡ some found
          → SoundFor d source x event.called_number found
          → let answer = RoutingCall.conclude platform x hops call_id event request found in
            AgreesWith answer (report_routing Time dumps platform r answer q l)
      unfolding RoutingCall.conclude report_routing lookup
      conclude-AgreesWith Disposition.route [] found q dx dh kept (_, _, _, good) =
          absurd (good.0 dh)
      conclude-AgreesWith Disposition.route (h ∷ hs) found q dx dh kept (_, _, (n, e, ne), good) =
          let same = or_number-ne-nil platform found.translated_number n event.called_number e ne in
          (
            _,
            _,
            (refl, ground (arith, kept, e, same), refl),
            emit_p12-Reports r loop _ _ l app taken stored,
          )
      conclude-AgreesWith Disposition.reject hops found q dx dh kept _ =
          rw (reject_error-rejection found call_id (λ e. cc))
            (_, _, (refl, refl, refl), emit_p12-Reports r loop _ _ l app taken stored)
      conclude-AgreesWith Disposition.no_match hops found q dx dh kept _ =
          rw (reject_error-rejection found call_id (λ e. cc))
            (_, _, (refl, refl, refl), emit_p12-Reports r loop _ _ l app taken stored)

      decide_routed-AgreesWith :
          (answer : Result AsError RoutingDecision) (q : RoutingCall.Call platform)
          → Sound d source event.called_number answer
          → let (a, after) = RoutingCall.decide_routed platform call_id event request q answer in
            AgreesWith a (report_routing Time dumps platform r a after l)
      unfolding report_routing lookup
      decide_routed-AgreesWith (err e) q sound =
          (_, _, (refl, refl, refl), emit_p12-Reports r loop _ _ l app taken stored)
      decide_routed-AgreesWith (ok found) q (_, sound) =
          conclude-AgreesWith found.disposition found.next_hops found _ refl refl refl sound

      -- For a rules document that passed its validators, where the base's method answers as the hook
      -- decided and leaves the call as the hook left it, where the application's loop is stored and takes
      -- the task, and where every event has a text, exactly one event of a call is handed to the loop for
      -- its decision: `call_routed` for a relay, with the number that the INVITE goes out with and the name
      -- of the hop that is tried first, and `call_rejected` for a rejection, with its code and its status.
      pub apply_call_policy-Agrees :
          (super : RoutingCall.TryEvent platform
            → RoutingCall.Call platform
            → Result AsError (RoutingCall.PolicyDecision platform) × RoutingCall.Call platform)
          (c : RoutingCall.Call platform)
          → IsChecked d
          → super event c
            ≡ RoutingCall.decide_call platform (make_rule_set d source) call_id event request c
          → let (answer, after) = apply_call_policy Time dumps platform super r event c l in
            AgreesWith answer.0 after
      unfolding apply_call_policy RoutingCall.decide_call RoutingCall.route_call
      apply_call_policy-Agrees super c checked hook = rw hook (
          decide_routed-AgreesWith (decide (make_rule_set d source) event.called_number) _
            (decide-Sound d source event.called_number checked))
