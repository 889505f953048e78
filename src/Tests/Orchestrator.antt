-- ===== src/Tests/Orchestrator.antt =====
-- A call through the chain of the IMS mock (src/ims_mock).
use rdparty_as_poc.Prelude.{String, ◌<>◌, ◌≡◌, refl, true, none, some, List, [], ◌∷◌, ok}
use rdparty_as_poc.Prelude.Dict.{lookup, insert, remove}
use rdparty_as_poc.Orchestrator.Fsm.{
  OrchestratorState, Trigger, after, on_subscriber_invite, on_ifc1_sent,
  on_as1_outbound_passthrough, on_ifc2_sent, on_as2_outbound_passthrough, on_bye,
}
use rdparty_as_poc.Orchestrator.CallId.{b2b_suffix, ends_with, parent_call_id}
use rdparty_as_poc.Orchestrator.Session.{
  Event, CallSession, ChainedOrchestrator, find_return, session_for_return, on_return_invite,
}
use rdparty_as_poc.Orchestrator.Relay.{LegEvent, event_handler}
use rdparty_as_poc.Orchestrator.Laws.{Inv}
use rdparty_as_poc.Orchestrator.Runs.{Step, Reach, start, Reach-returns, Reach-bridged}

-- A second call on a machine that has been through one.
abbrev two_calls : List Trigger
two_calls =
    Trigger.ifc1_sent ∷ Trigger.subscriber_invite ∷ Trigger.bye ∷ Trigger.as2_outbound_passthrough
    ∷ Trigger.ifc2_sent ∷ Trigger.as1_outbound_passthrough ∷ Trigger.ifc1_sent
    ∷ Trigger.subscriber_invite ∷ []

waits : after two_calls ≡ ok OrchestratorState.as1_await_outbound
unfolding after on_subscriber_invite on_ifc1_sent on_as1_outbound_passthrough on_ifc2_sent
    on_as2_outbound_passthrough on_bye
waits = refl

-- Both application servers have sent the call on.
abbrev first : ChainedOrchestrator String String String "default"
first =
    (on_return_invite String String String "default" "gen-1-b2b_1" "ua-1" (some "trunk-1") true
      (start String String String "default")).1

abbrev second : ChainedOrchestrator String String String "default"
second = (on_return_invite String String String "default" "trunk-1-b2b_1" "ua-2" none true first).1

run : Reach String String String "default" (start String String String "default") second
run =
    Reach.next
      (Reach.next Reach.here (Step.comes_back "gen-1-b2b_1" "ua-1" (some "trunk-1") true refl))
      (Step.comes_back "trunk-1-b2b_1" "ua-2" none true refl)

abbrev session : CallSession String String String "default"
session = record {
  subscriber_call_id = "gen-1";
  scenario = "default";
  fsm = OrchestratorState.terminating;
  as1_return_ua = some "ua-1";
  as2_return_ua = some "ua-2";
  as2_trunk_call_id = some "trunk-1";
}

second-session : lookup "gen-1" second.sessions ≡ some session
unfolding on_return_invite session_for_return find_return parent_call_id ends_with insert lookup
    on_as1_outbound_passthrough on_ifc2_sent on_as2_outbound_passthrough
second-session = refl

second-relayed : lookup "gen-1" second.relayed ≡ some "gen-1"
unfolding on_return_invite session_for_return find_return parent_call_id ends_with insert lookup
    on_as1_outbound_passthrough on_ifc2_sent on_as2_outbound_passthrough
second-relayed = refl

Reach-returns_example :
    Inv String String String "default" second
    × ((on_return_invite String String String "default"
          ("gen-2" <> b2b_suffix)
          "ua-3"
          (some "trunk-2")
          true
          second).0
        ≡ none)
Reach-returns_example =
    Reach-returns String String String "default" second "gen-2" "ua-3" "trunk-2" run

Reach-bridged_example :
    let (raised, answered) =
      event_handler String String String "default" (LegEvent.connect (some "200")) "gen-1" second in
    let (raised_too, ended) =
      event_handler String String String "default" LegEvent.disconnect "gen-1" answered in
    (a : String) × (b : String) × (session.as1_return_ua ≡ some a)
    × (session.as2_return_ua ≡ some b)
    × (raised ≡ none)
    × (raised_too ≡ none)
    × (ended.delivered
        ≡ (a, Event.disconnect)
          ∷ (b, Event.disconnect)
          ∷ (a, Event.connect "200")
          ∷ (b, Event.connect "200")
          ∷ second.delivered)
    × (ended.sessions ≡ remove "gen-1" answered.sessions)
    × (ended.relayed ≡ remove "gen-1" second.relayed)
Reach-bridged_example =
    Reach-bridged String String String "default" second "gen-1" session "200" run second-session
      refl second-relayed
