-- ===== src/Orchestrator/Runs.antt =====
-- Runs of the IMS mock (src/ims_mock/chained_stack.py and src/ims_mock/pcscf_relay.py).
use rdparty_as_poc.Prelude.{
  String, ◌<>◌, ◌≡◌, refl, inl, inr, Bool, true, Option, none, some, [], ◌∷◌, Option-cases,
  str_eq_refl,
}
use rdparty_as_poc.Prelude.Dict.{lookup, insert, remove, All-lookup, lookup-insert}
use rdparty_as_poc.Orchestrator.Fsm.{OrchestratorState, on_dialog_active}
use rdparty_as_poc.Orchestrator.CallId.{b2b_suffix}
use rdparty_as_poc.Orchestrator.Session.{
  Event, CallSession, ChainedOrchestrator, on_return_invite, begin_session, relay_final,
}
use rdparty_as_poc.Orchestrator.Relay.{LegEvent, event_handler}
use rdparty_as_poc.Orchestrator.Laws.{
  IsInStep, Inv, has_legs, on_return_invite-Inv, on_return_invite-returns,
}
use rdparty_as_poc.Orchestrator.Relayed.{
  event_handler-Inv, begin_session-Inv, relay_disconnect_known,
}

module _ (Ua Scenario Data : Type 0) (ds : Scenario) where
  abbrev pub start : ChainedOrchestrator Ua Scenario Data ds
  start = record { sessions = []; relayed = []; delivered = [] }

  -- What may happen to the orchestrator, whether it raises or not: a subscriber's call begins, an INVITE
  -- comes back from an application server, or the terminating leg has an event.
  pub data Step (c d : ChainedOrchestrator Ua Scenario Data ds) : Type 0 where
    begins :
        (scenario : Scenario) (id : String)
        → d ≡ (begin_session Ua Scenario Data ds scenario id c).1
        → Step c d
    comes_back :
        (call_id : String) (ua : Ua) (sent : Option String) (bound : Bool)
        → d ≡ (on_return_invite Ua Scenario Data ds call_id ua sent bound c).1
        → Step c d
    reports :
        (e : LegEvent Ua Scenario Data ds) (id : String)
        → d ≡ (event_handler Ua Scenario Data ds e id c).1
        → Step c d

  pub data Reach (c : ChainedOrchestrator Ua Scenario Data ds)
      : ChainedOrchestrator Ua Scenario Data ds → Type 0 where
    here : Reach c c
    next : {d e : ChainedOrchestrator Ua Scenario Data ds} → Reach c d → Step d e → Reach c e

  Step-Inv :
      (c d : ChainedOrchestrator Ua Scenario Data ds)
      → Step c d
      → Inv Ua Scenario Data ds c
      → Inv Ua Scenario Data ds d
  Step-Inv c d (begins scenario id e) h =
      rw e (begin_session-Inv Ua Scenario Data ds scenario id c h)
  Step-Inv c d (comes_back call_id ua sent bound e) h =
      rw e (on_return_invite-Inv Ua Scenario Data ds call_id ua sent bound c h)
  Step-Inv c d (reports e id x) h = rw x (event_handler-Inv Ua Scenario Data ds e id c h)

  Reach-Inv :
      {c d : ChainedOrchestrator Ua Scenario Data ds}
      → Inv Ua Scenario Data ds c
      → Reach c d
      → Inv Ua Scenario Data ds d
  Reach-Inv h here = h
  Reach-Inv h (next r step) = Step-Inv _ _ step (Reach-Inv h r)

  -- After any run, whatever raised in it, each session has the user agents and the trunk's leg that its
  -- state calls for and no others; and an INVITE that comes back under the suffixed Call-ID of any
  -- call, known or not, raises nothing, where the next leg can be sent.
  pub Reach-returns :
      (c : ChainedOrchestrator Ua Scenario Data ds) (call_id : String) (ua : Ua) (trunk : String)
      → Reach start c
      → Inv Ua Scenario Data ds c
        × ((on_return_invite Ua Scenario Data ds (call_id <> b2b_suffix) ua (some trunk) true c).0
            ≡ none)
  Reach-returns c call_id ua trunk r =
      let h = Reach-Inv tt r in
      (h, on_return_invite-returns Ua Scenario Data ds call_id ua trunk c h)

  -- The legs of a session that is terminating.
  both_legs :
      (s : CallSession Ua Scenario Data ds)
      → s.fsm ≡ OrchestratorState.terminating
      → has_legs Ua Scenario Data ds s.fsm s.as1_return_ua s.as2_return_ua s.as2_trunk_call_id
        ≡ true
      → (a : Ua) × (b : Ua) × (s.as1_return_ua ≡ some a) × (s.as2_return_ua ≡ some b)
  both_legs s at legs = elim (Option-cases s.as1_return_ua) [
    | inl absent ↦ cc (rw (at, absent) at legs)
    | inr (a, first) ↦ elim (Option-cases s.as2_return_ua) [
      | inl absent ↦ cc (rw (at, first, absent) at legs)
      | inr (b, second) ↦ (a, b, first, second)
    ]
  ]

  -- The far end answers a session that is terminating.
  answer :
      (c : ChainedOrchestrator Ua Scenario Data ds) (id : String)
      (s : CallSession Ua Scenario Data ds) (d : Data) {a b : Ua}
      → lookup id c.sessions ≡ some s
      → lookup id c.relayed ≡ some id
      → s.fsm ≡ OrchestratorState.terminating
      → s.as1_return_ua ≡ some a
      → s.as2_return_ua ≡ some b
      → event_handler Ua Scenario Data ds (LegEvent.connect (some d)) id c ≡ (
        none,
        record c {
          sessions = insert id (record s { fsm = OrchestratorState.active }) c.sessions;
          delivered = (a, Event.connect d) ∷ (b, Event.connect d) ∷ c.delivered;
        },
      )
  unfolding event_handler relay_final on_dialog_active
  answer c id s d known relayed at first second = rw (relayed, known, at, first, second) refl

  -- The far end ends a session.
  hang_up :
      (c : ChainedOrchestrator Ua Scenario Data ds) (id : String)
      {s : CallSession Ua Scenario Data ds} {a b : Ua}
      → lookup id c.sessions ≡ some s
      → lookup id c.relayed ≡ some id
      → s.as1_return_ua ≡ some a
      → s.as2_return_ua ≡ some b
      → event_handler Ua Scenario Data ds LegEvent.disconnect id c ≡ (
        none,
        record c {
          sessions = remove id c.sessions;
          relayed = remove id c.relayed;
          delivered = (a, Event.disconnect) ∷ (b, Event.disconnect) ∷ c.delivered;
        },
      )
  unfolding event_handler
  hang_up c id known relayed first second =
      rw (relayed, relay_disconnect_known Ua Scenario Data ds id c known, first, second) refl

  -- After any run, where a session is terminating and the relay knows its leg, the answer of the far end
  -- raises nothing and goes to the second application server and then to the first; when the far end
  -- then ends the call, both are told in the same order, nothing raises, and the session is
  -- forgotten.
  pub Reach-bridged :
      (c : ChainedOrchestrator Ua Scenario Data ds) (id : String)
      (s : CallSession Ua Scenario Data ds) (d : Data)
      → Reach start c
      → lookup id c.sessions ≡ some s
      → s.fsm ≡ OrchestratorState.terminating
      → lookup id c.relayed ≡ some id
      → let (raised, answered) =
          event_handler Ua Scenario Data ds (LegEvent.connect (some d)) id c in
        let (raised_too, ended) =
          event_handler Ua Scenario Data ds LegEvent.disconnect id answered in
        (a : Ua) × (b : Ua) × (s.as1_return_ua ≡ some a)
        × (s.as2_return_ua ≡ some b)
        × (raised ≡ none)
        × (raised_too ≡ none)
        × (ended.delivered
            ≡ (a, Event.disconnect)
              ∷ (b, Event.disconnect)
              ∷ (a, Event.connect d)
              ∷ (b, Event.connect d)
              ∷ c.delivered)
        × (ended.sessions ≡ remove id answered.sessions)
        × (ended.relayed ≡ remove id c.relayed)
  Reach-bridged c id s d r known at relayed =
      let (own, legs) =
        All-lookup (IsInStep Ua Scenario Data ds) id c.sessions (Reach-Inv tt r) known in
      let (a, b, first, second) = both_legs s at legs in
      let t : CallSession Ua Scenario Data ds = record s { fsm = OrchestratorState.active } in
      let answered : ChainedOrchestrator Ua Scenario Data ds = record c {
        sessions = insert id t c.sessions;
        delivered = (a, Event.connect d) ∷ (b, Event.connect d) ∷ c.delivered;
      } in
      let found : lookup id (insert id t c.sessions) ≡ some t =
        rw (lookup-insert id id t c.sessions, str_eq_refl id) refl in
      rw
        (
          answer c id s d known relayed at first second,
          hang_up answered id found relayed first second,
        )
        (a, b, first, second, refl, refl, refl, refl, refl)
