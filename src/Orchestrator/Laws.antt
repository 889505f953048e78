-- ===== src/Orchestrator/Laws.antt =====
-- The sessions of the IMS mock (src/ims_mock/chained_stack.py) are in step with their state machines.
use mathlib.Core.Option.{some-injective}
use rdparty_as_poc.Prelude.{
  String, ◌<>◌, ◌≡◌, refl, subst, ◌⊎◌, inl, inr, Bool, true, false, Option, none, some, [], ◌∷◌,
  arith, Result, ok, err, All, Bool-cases, Option-cases, ok-injective,
}
use rdparty_as_poc.Prelude.Dict.{Dict, insert, All-insert}
use rdparty_as_poc.Orchestrator.Fsm.{
  OrchestratorState, on_as1_outbound_passthrough, on_ifc2_sent, on_as2_outbound_passthrough,
}
use rdparty_as_poc.Orchestrator.CallId.{b2b_suffix, ends_with, ends_with-append, parent_call_id}
use rdparty_as_poc.Orchestrator.Session.{
  CallSession, ChainedOrchestrator, Outcome, awaits, find_return, session_for_return,
  on_return_invite, return_in, return_for, lazy_subscriber_session,
}

module _ (Ua Scenario Data : Type 0) (ds : Scenario) where
  -- The user agents and the trunk's leg that a session in a state has, and no others.
  abbrev pub has_legs : OrchestratorState → Option Ua → Option Ua → Option String → Bool
  has_legs OrchestratorState.as1_await_outbound none none none = true
  has_legs OrchestratorState.ifc2_pending (some a) none none = true
  has_legs OrchestratorState.as2_await_outbound (some a) none (some t) = true
  has_legs OrchestratorState.terminating (some a) (some b) (some t) = true
  has_legs OrchestratorState.active (some a) (some b) (some t) = true
  has_legs _ _ _ _ = false

  -- A session has the legs of its state, and stands under its own identifier.
  abbrev pub IsInStep : String × CallSession Ua Scenario Data ds → Type 0
  IsInStep (key, s) =
      (s.subscriber_call_id ≡ key)
      × (has_legs s.fsm s.as1_return_ua s.as2_return_ua s.as2_trunk_call_id ≡ true)

  abbrev pub Inv : ChainedOrchestrator Ua Scenario Data ds → Type 0
  Inv c = All IsInStep c.sessions

  awaits_fsm :
      (parent : String) (s : CallSession Ua Scenario Data ds)
      → awaits Ua Scenario Data ds parent s ≡ true
      → (s.fsm ≡ OrchestratorState.as1_await_outbound)
        ⊎ (s.fsm ≡ OrchestratorState.as2_await_outbound)
  awaits_fsm parent s h = ground arith

  find_return-IsInStep :
      (parent key : String) (s : CallSession Ua Scenario Data ds)
      (d : Dict (CallSession Ua Scenario Data ds))
      → All IsInStep d
      → find_return Ua Scenario Data ds parent d ≡ some (key, s)
      → IsInStep (key, s) × (awaits Ua Scenario Data ds parent s ≡ true)
  unfolding find_return
  find_return-IsInStep parent key s [] h found = cc
  find_return-IsInStep parent key s ((k, t) ∷ d) h found =
      elim (Bool-cases (awaits Ua Scenario Data ds parent t)) [
        | inl hit ↦
            subst (λ e. IsInStep e × (awaits Ua Scenario Data ds parent e.1 ≡ true))
              (some-injective _ _ (rw hit at found)) (h.0, hit)
        | inr miss ↦ find_return-IsInStep parent key s d h.1 (rw miss at found)
      ]

  -- A session that a return INVITE moves on stays in step, whether or not the next leg can be sent,
  -- and nothing raises if it can.
  record IsMoved (key : String) (sent : Option String) (bound : Bool)
      (c : ChainedOrchestrator Ua Scenario Data ds) (r : Outcome Ua Scenario Data ds) : Type 0 where
    session : CallSession Ua Scenario Data ds
    in_step : IsInStep (key, session)
    stored : r.1.sessions ≡ insert key session c.sessions
    returns : (t : String) → sent ≡ some t → bound ≡ true → r.0 ≡ none

  return_in_as1 :
      (key : String) (s : CallSession Ua Scenario Data ds) (ua : Ua) (sent : Option String)
      (bound : Bool) (c : ChainedOrchestrator Ua Scenario Data ds)
      → IsInStep (key, s)
      → s.fsm ≡ OrchestratorState.as1_await_outbound
      → IsMoved key sent bound c (return_in Ua Scenario Data ds s.fsm key s ua sent bound c)
  unfolding on_as1_outbound_passthrough on_ifc2_sent
  return_in_as1 key s ua none bound c (own, legs) at_as1 = record {
    session = record s { as1_return_ua = some ua; fsm = OrchestratorState.ifc2_pending };
    in_step = (own, ground (arith, legs, at_as1));
    stored = rw at_as1 refl;
    returns = λ u e b. cc;
  }
  return_in_as1 key s ua (some t) bound c (own, legs) at_as1 = record {
    session = record s {
      as1_return_ua = some ua;
      as2_trunk_call_id = some t;
      fsm = OrchestratorState.as2_await_outbound;
    };
    in_step = (own, ground (arith, legs, at_as1));
    stored = rw at_as1 refl;
    returns = λ u e b. rw at_as1 refl;
  }

  return_in_as2 :
      (key : String) (s : CallSession Ua Scenario Data ds) (ua : Ua) (sent : Option String)
      (bound : Bool) (c : ChainedOrchestrator Ua Scenario Data ds)
      → IsInStep (key, s)
      → s.fsm ≡ OrchestratorState.as2_await_outbound
      → IsMoved key sent bound c (return_in Ua Scenario Data ds s.fsm key s ua sent bound c)
  unfolding on_as2_outbound_passthrough
  return_in_as2 key s ua sent bound c (own, legs) at_as2 = record {
    session = record s { as2_return_ua = some ua; fsm = OrchestratorState.terminating };
    in_step = (own, ground (arith, legs, at_as2));
    stored = rw at_as2 (ground arith);
    returns = λ u e b. rw (at_as2, b) refl;
  }

  -- A session that a return INVITE may move on.
  abbrev IsReady : String × CallSession Ua Scenario Data ds → Type 0
  IsReady e =
      IsInStep e
      × ((e.1.fsm ≡ OrchestratorState.as1_await_outbound)
          ⊎ (e.1.fsm ≡ OrchestratorState.as2_await_outbound))

  session_for_return-IsReady :
      (call_id : String) (c : ChainedOrchestrator Ua Scenario Data ds)
      → Inv c
      → let r = session_for_return Ua Scenario Data ds call_id c in
        Inv r.1
        × ((e : String × CallSession Ua Scenario Data ds) → r.0 ≡ ok e → IsReady e)
        × (ends_with call_id b2b_suffix ≡ true
            → (e : String × CallSession Ua Scenario Data ds) × (r.0 ≡ ok e))
  unfolding session_for_return
  session_for_return-IsReady call_id c h =
      let parent = parent_call_id call_id in
      elim (Option-cases (find_return Ua Scenario Data ds parent c.sessions)) [
        | inl unknown ↦
            let lazy = lazy_subscriber_session Ua Scenario Data ds parent in
            rw unknown (elim (Bool-cases (ends_with call_id b2b_suffix)) [
              | inl suffixed ↦ rw suffixed (
                All-insert IsInStep parent lazy c.sessions (refl, refl) h,
                λ e found. subst IsReady (ok-injective found) ((refl, refl), inl refl),
                λ _. ((parent, lazy), refl),
              )
              | inr strange ↦ rw strange (h, λ e found. cc, λ e. cc)
            ])
        | inr ((k, t), known) ↦
            let (in_step, hit) = find_return-IsInStep parent k t c.sessions h known in
            rw known (
              h,
              λ e found. subst IsReady (ok-injective found) (in_step, awaits_fsm parent t hit),
              λ _. ((k, t), refl),
            )
      ]

  return_in-IsMoved :
      (key : String) (s : CallSession Ua Scenario Data ds) (ua : Ua) (sent : Option String)
      (bound : Bool) (c : ChainedOrchestrator Ua Scenario Data ds)
      → IsReady (key, s)
      → IsMoved key sent bound c (return_in Ua Scenario Data ds s.fsm key s ua sent bound c)
  return_in-IsMoved key s ua sent bound c (in_step, inl at_as1) =
      return_in_as1 key s ua sent bound c in_step at_as1
  return_in-IsMoved key s ua sent bound c (in_step, inr at_as2) =
      return_in_as2 key s ua sent bound c in_step at_as2

  return_for-Inv :
      (r : Result String (String × CallSession Ua Scenario Data ds))
      (c : ChainedOrchestrator Ua Scenario Data ds) (ua : Ua) (sent : Option String) (bound : Bool)
      → ((e : String × CallSession Ua Scenario Data ds) → r ≡ ok e → IsReady e)
      → Inv c
      → let o = return_for Ua Scenario Data ds (r, c) ua sent bound in
        Inv o.1
        × ((t : String) (e : String × CallSession Ua Scenario Data ds)
            → r ≡ ok e
            → sent ≡ some t
            → bound ≡ true
            → o.0 ≡ none)
  return_for-Inv (ok (key, s)) c ua sent bound ready h =
      let m = return_in-IsMoved key s ua sent bound c (ready (key, s) refl) in
      (
        rw m.stored (All-insert IsInStep key m.session c.sessions m.in_step h),
        λ t e found. m.returns t,
      )
  return_for-Inv (err e) c ua sent bound ready h = (h, λ t f found. cc)

  pub on_return_invite-Inv :
      (call_id : String) (ua : Ua) (sent : Option String) (bound : Bool)
      (c : ChainedOrchestrator Ua Scenario Data ds)
      → Inv c
      → Inv (on_return_invite Ua Scenario Data ds call_id ua sent bound c).1
  unfolding on_return_invite
  on_return_invite-Inv call_id ua sent bound c h =
      let r = session_for_return Ua Scenario Data ds call_id c in
      let (h', ready, _) = session_for_return-IsReady call_id c h in
      (return_for-Inv r.0 r.1 ua sent bound ready h').0

  -- Where every session is in step, an INVITE that a back-to-back user agent sends on under the
  -- suffixed Call-ID of any call, known or not, raises nothing, if the next leg can be sent.
  pub on_return_invite-returns :
      (call_id : String) (ua : Ua) (trunk : String) (c : ChainedOrchestrator Ua Scenario Data ds)
      → Inv c
      → (on_return_invite Ua Scenario Data ds (call_id <> b2b_suffix) ua (some trunk) true c).0
        ≡ none
  unfolding on_return_invite
  on_return_invite-returns call_id ua trunk c h =
      let r = session_for_return Ua Scenario Data ds (call_id <> b2b_suffix) c in
      let (h', ready, some_session) = session_for_return-IsReady (call_id <> b2b_suffix) c h in
      let (e, found) = some_session (ends_with-append call_id b2b_suffix) in
      (return_for-Inv r.0 r.1 ua (some trunk) true ready h').1 trunk e found refl refl
