-- ===== src/Orchestrator/Relayed.antt =====
-- What the IMS mock relays from the terminating leg (src/ims_mock/chained_stack.py and
-- src/ims_mock/pcscf_relay.py), keeps its sessions in step.
use rdparty_as_poc.Prelude.{
  String, ◌≡◌, refl, inl, inr, none, some, arith, Option-cases, Result-cases,
}
use rdparty_as_poc.Prelude.Dict.{lookup, remove, All-insert, All-remove, All-lookup}
use rdparty_as_poc.Orchestrator.Fsm.{on_subscriber_invite, on_ifc1_sent, on_dialog_active, on_bye}
use rdparty_as_poc.Orchestrator.Session.{
  Event, CallSession, ChainedOrchestrator, Outcome, advance, relay_provisional, relay_final,
  relay_disconnect, begin_session, deliver_both, store_advanced,
}
use rdparty_as_poc.Orchestrator.Relay.{LegEvent, event_handler, handle_known, drop_session}
use rdparty_as_poc.Orchestrator.Laws.{IsInStep, Inv}

module _ (Ua Scenario Data : Type 0) (ds : Scenario) where
  -- Telling a session's user agents changes no session.
  deliver_both-sessions :
      (s : CallSession Ua Scenario Data ds) (e : Event Ua Scenario Data ds)
      (c : ChainedOrchestrator Ua Scenario Data ds)
      → (deliver_both Ua Scenario Data ds s e c).sessions ≡ c.sessions
  deliver_both-sessions s e c = ground arith

  store_final-Inv :
      (id : String) (s : CallSession Ua Scenario Data ds)
      (c : ChainedOrchestrator Ua Scenario Data ds)
      → IsInStep Ua Scenario Data ds (id, s)
      → Inv Ua Scenario Data ds c
      → Inv Ua Scenario Data ds
          (store_advanced Ua Scenario Data ds id s
            (advance Ua Scenario Data ds on_dialog_active s)
            c).1
  unfolding on_dialog_active
  store_final-Inv id s c (own, legs) h = elim (Result-cases (on_dialog_active s.fsm)) [
    | inl (f, now) ↦ rw now (
        All-insert (IsInStep Ua Scenario Data ds) id (record s { fsm = f }) c.sessions
          (own, ground arith) h)
    | inr (e, raised) ↦
        rw raised (All-insert (IsInStep Ua Scenario Data ds) id s c.sessions (own, legs) h)
  ]

  relay_final-Inv :
      (id : String) (d : Data) (c : ChainedOrchestrator Ua Scenario Data ds)
      → Inv Ua Scenario Data ds c
      → Inv Ua Scenario Data ds (relay_final Ua Scenario Data ds id d c).1
  unfolding relay_final
  relay_final-Inv id d c h = elim (Option-cases (lookup id c.sessions)) [
    | inl unknown ↦ rw unknown h
    | inr (s, known) ↦
        let told = deliver_both Ua Scenario Data ds s (Event.connect d) c in
        rw known (
          store_final-Inv id s told
            (All-lookup (IsInStep Ua Scenario Data ds) id c.sessions h known)
            (rw (deliver_both-sessions s (Event.connect d) c) h))
  ]

  relay_provisional-Inv :
      (id : String) (d : Data) (c : ChainedOrchestrator Ua Scenario Data ds)
      → Inv Ua Scenario Data ds c
      → Inv Ua Scenario Data ds (relay_provisional Ua Scenario Data ds id d c).1
  unfolding relay_provisional
  relay_provisional-Inv id d c h = elim (Option-cases (lookup id c.sessions)) [
    | inl unknown ↦ rw unknown h
    | inr (s, known) ↦ rw known (rw (deliver_both-sessions s (Event.ring d) c) h)
  ]

  -- A known session is told of the end and forgotten, whatever its state.
  pub relay_disconnect_known :
      (id : String) (c : ChainedOrchestrator Ua Scenario Data ds)
      {s : CallSession Ua Scenario Data ds}
      → lookup id c.sessions ≡ some s
      → relay_disconnect Ua Scenario Data ds id c ≡ (
        none,
        record (deliver_both Ua Scenario Data ds s Event.disconnect c) {
          sessions = remove id c.sessions;
        },
      )
  unfolding relay_disconnect on_bye
  relay_disconnect_known id c {s} known =
      rw known (ground (arith, deliver_both-sessions s Event.disconnect c))

  relay_disconnect-Inv :
      (id : String) (c : ChainedOrchestrator Ua Scenario Data ds)
      → Inv Ua Scenario Data ds c
      → Inv Ua Scenario Data ds (relay_disconnect Ua Scenario Data ds id c).1
  unfolding relay_disconnect
  relay_disconnect-Inv id c h = elim (Option-cases (lookup id c.sessions)) [
    | inl unknown ↦ rw unknown h
    | inr (s, known) ↦
        rw (relay_disconnect_known id c known)
          (All-remove (IsInStep Ua Scenario Data ds) id c.sessions h)
  ]

  drop_session-sessions :
      (id : String) (r : Outcome Ua Scenario Data ds)
      → (drop_session Ua Scenario Data ds id r).1.sessions ≡ r.1.sessions
  drop_session-sessions id (none, c) = refl
  drop_session-sessions id (some e, c) = refl

  handle_known-Inv :
      (e : LegEvent Ua Scenario Data ds) (id sid : String)
      (c : ChainedOrchestrator Ua Scenario Data ds)
      → Inv Ua Scenario Data ds c
      → Inv Ua Scenario Data ds (handle_known Ua Scenario Data ds e id sid c).1
  handle_known-Inv (LegEvent.ring none) id sid c h = h
  handle_known-Inv (LegEvent.ring (some d)) id sid c h = relay_provisional-Inv sid d c h
  handle_known-Inv (LegEvent.connect none) id sid c h = h
  handle_known-Inv (LegEvent.connect (some d)) id sid c h = relay_final-Inv sid d c h
  handle_known-Inv LegEvent.disconnect id sid c h =
      rw (drop_session-sessions id (relay_disconnect Ua Scenario Data ds sid c))
        (relay_disconnect-Inv sid c h)
  handle_known-Inv LegEvent.fail id sid c h = h
  handle_known-Inv LegEvent.other id sid c h = h

  pub event_handler-Inv :
      (e : LegEvent Ua Scenario Data ds) (id : String) (c : ChainedOrchestrator Ua Scenario Data ds)
      → Inv Ua Scenario Data ds c
      → Inv Ua Scenario Data ds (event_handler Ua Scenario Data ds e id c).1
  unfolding event_handler
  event_handler-Inv e id c h = elim (Option-cases (lookup id c.relayed)) [
    | inl unknown ↦ rw unknown h
    | inr (sid, known) ↦ rw known (handle_known-Inv e id sid c h)
  ]

  pub begin_session-Inv :
      (scenario : Scenario) (id : String) (c : ChainedOrchestrator Ua Scenario Data ds)
      → Inv Ua Scenario Data ds c
      → Inv Ua Scenario Data ds (begin_session Ua Scenario Data ds scenario id c).1
  unfolding begin_session on_subscriber_invite on_ifc1_sent
  begin_session-Inv scenario id c h =
      All-insert (IsInStep Ua Scenario Data ds) id _ c.sessions (refl, refl) h
