-- ===== src/Orchestrator/Relay.antt =====
-- src/ims_mock/pcscf_relay.py: what the relay does with an event of the terminating leg.
use rdparty_as_poc.Prelude.{String, Option, none, some}
use rdparty_as_poc.Prelude.Dict.{lookup, remove}
use rdparty_as_poc.Orchestrator.Session.{
  ChainedOrchestrator, Outcome, relay_provisional, relay_final, relay_disconnect,
}

module _ (Ua Scenario Data : Type 0) (ds : Scenario) where
  -- The events that the handler tells apart; the data are `none` where Python finds them false.
  pub data LegEvent : Type 0 where
    ring connect : Option Data → LegEvent
    disconnect fail other : LegEvent

  -- The session is dropped behind a callback that returned.
  abbrev pub drop_session : String → Outcome Ua Scenario Data ds → Outcome Ua Scenario Data ds
  drop_session id (none, c) = (none, record c { relayed = remove id c.relayed })
  drop_session id (some e, c) = (some e, c)

  -- `_event_handler` for a session that is known, whose callbacks have the identifier `sid`.
  abbrev pub handle_known :
      LegEvent
      → String
      → String
      → ChainedOrchestrator Ua Scenario Data ds
      → Outcome Ua Scenario Data ds
  handle_known (ring none) id sid c = (none, c)
  handle_known (ring (some d)) id sid c = relay_provisional Ua Scenario Data ds sid d c
  handle_known (connect none) id sid c = (none, c)
  handle_known (connect (some d)) id sid c = relay_final Ua Scenario Data ds sid d c
  handle_known disconnect id sid c = drop_session id (relay_disconnect Ua Scenario Data ds sid c)
  handle_known fail id sid c = (none, c)
  handle_known other id sid c = (none, c)

  abbrev pub handle_session :
      Option String
      → LegEvent
      → String
      → ChainedOrchestrator Ua Scenario Data ds
      → Outcome Ua Scenario Data ds
  handle_session none e id c = (none, c)
  handle_session (some sid) e id c = handle_known e id sid c

  -- `_event_handler`
  unfoldable pub event_handler :
      LegEvent → String → ChainedOrchestrator Ua Scenario Data ds → Outcome Ua Scenario Data ds
  event_handler e id c = handle_session (lookup id c.relayed) e id c
