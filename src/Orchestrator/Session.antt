-- ===== src/Orchestrator/Session.antt =====
-- src/ims_mock/chained_stack.py, `ChainedOrchestrator`, with `forward_invite` of
-- src/ims_mock/pcscf_relay.py: the sessions that bridge the return legs of the two application servers
-- with the terminating leg.
--
-- The user agents, the call scenarios and the data of the stack's events are parameters. An operation
-- returns the name of the exception that it raises, if any, and the state as it is left then. Each
-- event that a user agent is sent is recorded, newest first. The callbacks that the relay keeps for a
-- session are those of the orchestrator under that session's identifier, so the identifier stands for
-- them.
use rdparty_as_poc.Prelude.{
  String, Bool, true, false, Option, none, some, List, [], ◌∷◌, str_eq, if◌then◌else◌, Result, ok,
  err, ◌>>=◌,
}
use rdparty_as_poc.Prelude.Dict.{Dict, lookup, insert, remove}
use rdparty_as_poc.Orchestrator.Fsm.{
  OrchestratorState, on_subscriber_invite, on_ifc1_sent, on_as1_outbound_passthrough, on_ifc2_sent,
  on_as2_outbound_passthrough, on_dialog_active, on_bye,
}
use rdparty_as_poc.Orchestrator.CallId.{b2b_suffix, ends_with, parent_call_id}

module _ (Ua Scenario Data : Type 0) (default_scenario : Scenario) where
  pub data Event : Type 0 where
    ring connect : Data → Event
    disconnect : Event

  pub record CallSession : Type 0 where
    pub subscriber_call_id : String
    pub scenario : Scenario
    pub fsm : OrchestratorState
    pub as1_return_ua : Option Ua
    pub as2_return_ua : Option Ua
    pub as2_trunk_call_id : Option String

  pub record ChainedOrchestrator : Type 0 where
    pub sessions : Dict CallSession
    pub relayed : Dict String
    pub delivered : List (Ua × Event)

  abbrev pub Outcome : Type 0
  Outcome = Option String × ChainedOrchestrator

  -- A method of the state machine on the session that owns it.
  abbrev pub advance :
      (OrchestratorState → Result String OrchestratorState)
      → CallSession
      → Result String CallSession
  advance method s = method s.fsm >>= λ f. ok (record s { fsm = f })

  abbrev pub put : String → CallSession → ChainedOrchestrator → ChainedOrchestrator
  put key s c = record c { sessions = insert key s c.sessions }

  -- A `CallSession` as its constructor leaves it.
  abbrev pub fresh_session : String → Scenario → OrchestratorState → CallSession
  fresh_session subscriber_call_id scenario state = record {
    subscriber_call_id = subscriber_call_id;
    scenario = scenario;
    fsm = state;
    as1_return_ua = none;
    as2_return_ua = none;
    as2_trunk_call_id = none;
  }

  abbrev pub store_begun : String → Result String CallSession → ChainedOrchestrator → Outcome
  store_begun id (ok s) c = (none, put id s c)
  store_begun id (err e) c = (some e, c)

  unfoldable pub begin_session : Scenario → String → ChainedOrchestrator → Outcome
  begin_session scenario id c =
      store_begun id
        (advance on_subscriber_invite (fresh_session id scenario OrchestratorState.idle)
          >>= advance on_ifc1_sent)
        c

  abbrev pub is_trunk : Option String → String → Bool
  is_trunk none parent = false
  is_trunk (some trunk) parent = str_eq trunk parent

  -- The two tests of the loop in `_session_for_return`.
  abbrev pub awaits_in : OrchestratorState → String → CallSession → Bool
  awaits_in OrchestratorState.as1_await_outbound parent s = str_eq parent s.subscriber_call_id
  awaits_in OrchestratorState.as2_await_outbound parent s = is_trunk s.as2_trunk_call_id parent
  awaits_in _ parent s = false

  abbrev pub awaits : String → CallSession → Bool
  awaits parent s = awaits_in s.fsm parent s

  -- The first session, with the key that it stands under.
  unfoldable pub find_return : String → Dict CallSession → Option (String × CallSession)
  find_return parent [] = none
  find_return parent ((key, s) ∷ rest) =
      if awaits parent s then some (key, s) else find_return parent rest

  -- `_lazy_subscriber_session`
  abbrev pub lazy_subscriber_session : String → CallSession
  lazy_subscriber_session id =
      fresh_session id default_scenario OrchestratorState.as1_await_outbound

  abbrev pub found_or_lazy :
      Option (String × CallSession)
      → String
      → ChainedOrchestrator
      → Result String (String × CallSession) × ChainedOrchestrator
  found_or_lazy (some hit) call_id c = (ok hit, c)
  found_or_lazy none call_id c =
      let parent = parent_call_id call_id in
      let s = lazy_subscriber_session parent in
      if ends_with call_id b2b_suffix
      then (ok (parent, s), put parent s c)
      else (err "RuntimeError", c)

  -- `_session_for_return`
  unfoldable pub session_for_return :
      String → ChainedOrchestrator → Result String (String × CallSession) × ChainedOrchestrator
  session_for_return call_id c =
      found_or_lazy (find_return (parent_call_id call_id) c.sessions) call_id c

  abbrev pub store_advanced :
      String → CallSession → Result String CallSession → ChainedOrchestrator → Outcome
  store_advanced key before (ok s) c = (none, put key s c)
  store_advanced key before (err e) c = (some e, put key before c)

  -- `send_trunk_invite` returned the Call-ID of the trunk's leg, or raised.
  abbrev pub send_ifc2 : String → CallSession → Option String → ChainedOrchestrator → Outcome
  send_ifc2 key s none c = (some "RuntimeError", put key s c)
  send_ifc2 key s (some trunk) c =
      let sent = record s { as2_trunk_call_id = some trunk } in
      store_advanced key sent (advance on_ifc2_sent sent) c

  abbrev pub send_after :
      String
      → CallSession
      → Result String CallSession
      → Option String
      → ChainedOrchestrator
      → Outcome
  send_after key before (ok s) sent c = send_ifc2 key s sent c
  send_after key before (err e) sent c = (some e, put key before c)

  -- `PcscfRelay.forward_invite`, over whether the relay is bound.
  abbrev pub forward_invite : Bool → String → ChainedOrchestrator → Outcome
  forward_invite bound session_id c =
      if bound
      then (none, record c { relayed = insert session_id session_id c.relayed })
      else (some "RuntimeError", c)

  abbrev pub forward_after :
      String → CallSession → Result String CallSession → Bool → ChainedOrchestrator → Outcome
  forward_after key before (ok s) bound c = forward_invite bound s.subscriber_call_id (put key s c)
  forward_after key before (err e) bound c = (some e, put key before c)

  -- The three cases of `on_return_invite`, by the state of the session.
  abbrev pub return_in :
      OrchestratorState
      → String
      → CallSession
      → Ua
      → Option String
      → Bool
      → ChainedOrchestrator
      → Outcome
  return_in OrchestratorState.as1_await_outbound key s ua sent bound c =
      let held = record s { as1_return_ua = some ua } in
      send_after key held (advance on_as1_outbound_passthrough held) sent c
  return_in OrchestratorState.as2_await_outbound key s ua sent bound c =
      let held = record s { as2_return_ua = some ua } in
      forward_after key held (advance on_as2_outbound_passthrough held) bound c
  return_in _ key s ua sent bound c = (some "RuntimeError", c)

  abbrev pub return_for :
      Result String (String × CallSession) × ChainedOrchestrator
      → Ua
      → Option String
      → Bool
      → Outcome
  return_for (ok (key, s), c) ua sent bound = return_in s.fsm key s ua sent bound c
  return_for (err e, c) ua sent bound = (some e, c)

  unfoldable pub on_return_invite :
      String → Ua → Option String → Bool → ChainedOrchestrator → Outcome
  on_return_invite call_id ua sent bound c = return_for (session_for_return call_id c) ua sent bound

  -- `if ua is not None: ua.recvEvent(event)`
  abbrev pub deliver : Option Ua → Event → ChainedOrchestrator → ChainedOrchestrator
  deliver none e c = c
  deliver (some ua) e c = record c { delivered = (ua, e) ∷ c.delivered }

  abbrev pub deliver_both : CallSession → Event → ChainedOrchestrator → ChainedOrchestrator
  deliver_both s e c = deliver s.as1_return_ua e (deliver s.as2_return_ua e c)

  -- `_session`, and what follows it: an unknown session raises.
  abbrev pub with_session :
      Option CallSession → (CallSession → Outcome) → ChainedOrchestrator → Outcome
  with_session none k c = (some "RuntimeError", c)
  with_session (some s) k c = k s

  unfoldable pub relay_provisional : String → Data → ChainedOrchestrator → Outcome
  relay_provisional id d c =
      with_session (lookup id c.sessions) (λ s. (none, deliver_both s (ring d) c)) c

  unfoldable pub relay_final : String → Data → ChainedOrchestrator → Outcome
  relay_final id d c =
      with_session (lookup id c.sessions)
        (λ s. store_advanced id s (advance on_dialog_active s) (deliver_both s (connect d) c)) c

  -- Whether `_relay_disconnect` calls `on_bye`.
  abbrev pub takes_bye : OrchestratorState → Bool
  takes_bye OrchestratorState.active = true
  takes_bye OrchestratorState.terminating = true
  takes_bye _ = false

  abbrev pub forget_after :
      String → CallSession → Result String CallSession → ChainedOrchestrator → Outcome
  forget_after id before (ok s) c = (none, record c { sessions = remove id c.sessions })
  forget_after id before (err e) c = (some e, put id before c)

  unfoldable pub relay_disconnect : String → ChainedOrchestrator → Outcome
  relay_disconnect id c =
      with_session (lookup id c.sessions)
        (λ s.
          forget_after id s (if takes_bye s.fsm then advance on_bye s else ok s)
            (deliver_both s disconnect c))
        c
