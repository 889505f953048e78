-- ===== src/Orchestrator/Fsm.antt =====
-- src/ims_mock/orchestrator.py: the state machine of the iFC chain. A method returns the next state,
-- or the name of the exception that it raises.
use rdparty_as_poc.Prelude.{
  String, ◌≡◌, refl, sym, ap, subst, ◌∙◌, ◌⊎◌, inl, inr, List, [], ◌∷◌, ◌++◌, Result, ok, err,
  ◌>>=◌, Result-cases, ok-injective, arith,
}

pub data OrchestratorState : Type 0 where
  idle ifc1_pending as1_await_outbound ifc2_pending : OrchestratorState
  as2_await_outbound terminating active rejected : OrchestratorState

unfoldable pub on_subscriber_invite : OrchestratorState → Result String OrchestratorState
on_subscriber_invite OrchestratorState.idle = ok OrchestratorState.ifc1_pending
on_subscriber_invite _ = err "ValueError"

unfoldable pub on_ifc1_sent : OrchestratorState → Result String OrchestratorState
on_ifc1_sent OrchestratorState.ifc1_pending = ok OrchestratorState.as1_await_outbound
on_ifc1_sent _ = err "ValueError"

unfoldable pub on_as1_outbound_passthrough : OrchestratorState → Result String OrchestratorState
on_as1_outbound_passthrough OrchestratorState.as1_await_outbound = ok OrchestratorState.ifc2_pending
on_as1_outbound_passthrough _ = err "ValueError"

unfoldable pub on_as1_reject : OrchestratorState → Result String OrchestratorState
on_as1_reject OrchestratorState.as1_await_outbound = ok OrchestratorState.rejected
on_as1_reject _ = err "ValueError"

unfoldable pub on_ifc2_sent : OrchestratorState → Result String OrchestratorState
on_ifc2_sent OrchestratorState.ifc2_pending = ok OrchestratorState.as2_await_outbound
on_ifc2_sent _ = err "ValueError"

unfoldable pub on_as2_outbound_passthrough : OrchestratorState → Result String OrchestratorState
on_as2_outbound_passthrough OrchestratorState.as2_await_outbound = ok OrchestratorState.terminating
on_as2_outbound_passthrough _ = err "ValueError"

unfoldable pub on_dialog_active : OrchestratorState → Result String OrchestratorState
on_dialog_active OrchestratorState.terminating = ok OrchestratorState.active
on_dialog_active _ = err "ValueError"

unfoldable pub on_bye : OrchestratorState → Result String OrchestratorState
on_bye OrchestratorState.active = ok OrchestratorState.idle
on_bye OrchestratorState.terminating = ok OrchestratorState.idle
on_bye _ = err "ValueError"

-- The methods, as values.
pub data Trigger : Type 0 where
  subscriber_invite ifc1_sent as1_outbound_passthrough as1_reject : Trigger
  ifc2_sent as2_outbound_passthrough dialog_active bye : Trigger

abbrev pub handle : Trigger → OrchestratorState → Result String OrchestratorState
handle Trigger.subscriber_invite s = on_subscriber_invite s
handle Trigger.ifc1_sent s = on_ifc1_sent s
handle Trigger.as1_outbound_passthrough s = on_as1_outbound_passthrough s
handle Trigger.as1_reject s = on_as1_reject s
handle Trigger.ifc2_sent s = on_ifc2_sent s
handle Trigger.as2_outbound_passthrough s = on_as2_outbound_passthrough s
handle Trigger.dialog_active s = on_dialog_active s
handle Trigger.bye s = on_bye s

-- A history of calls of the methods on a fresh machine, newest first, none of which raised.
unfoldable pub after : List Trigger → Result String OrchestratorState
after [] = ok OrchestratorState.idle
after (t ∷ ts) = after ts >>= handle t

-- What must have happened, newest first, since the machine was last idle.
abbrev pub to_as1 : List Trigger
to_as1 = Trigger.ifc1_sent ∷ Trigger.subscriber_invite ∷ []

abbrev pub to_as2 : List Trigger
to_as2 = Trigger.ifc2_sent ∷ Trigger.as1_outbound_passthrough ∷ to_as1

abbrev pub since_idle : OrchestratorState → List Trigger
since_idle OrchestratorState.idle = []
since_idle OrchestratorState.ifc1_pending = Trigger.subscriber_invite ∷ []
since_idle OrchestratorState.as1_await_outbound = to_as1
since_idle OrchestratorState.ifc2_pending = Trigger.as1_outbound_passthrough ∷ to_as1
since_idle OrchestratorState.as2_await_outbound = to_as2
since_idle OrchestratorState.terminating = Trigger.as2_outbound_passthrough ∷ to_as2
since_idle OrchestratorState.active =
    Trigger.dialog_active ∷ Trigger.as2_outbound_passthrough ∷ to_as2
since_idle OrchestratorState.rejected = Trigger.as1_reject ∷ to_as1

-- A method that does not raise ends a run, or prolongs it.
handle-since_idle :
    (t : Trigger) (s u : OrchestratorState)
    → handle t s ≡ ok u
    → (u ≡ OrchestratorState.idle) ⊎ (since_idle u ≡ t ∷ since_idle s)
unfolding on_subscriber_invite on_ifc1_sent on_as1_outbound_passthrough on_as1_reject on_ifc2_sent
    on_as2_outbound_passthrough on_dialog_active on_bye
handle-since_idle t s u h = ground arith

-- However the methods were called on a fresh machine, one that is not idle has been called with
-- exactly the triggers of the chain up to its state, in the order of the chain, since it was last
-- idle; a call that is active has passed both application servers.
pub after-since_idle :
    (h : List Trigger) (s : OrchestratorState)
    → after h ≡ ok s
    → (before : List Trigger) × (h ≡ since_idle s ++ before)
      × (after before ≡ ok OrchestratorState.idle)
unfolding after
after-since_idle [] s e = ([], rw (sym (ok-injective e)) refl, refl)
after-since_idle (t ∷ ts) s e = elim (Result-cases (after ts)) [
  | inl (r, ran) ↦
      let (before, earlier, was_idle) = after-since_idle ts r ran in
      let now : handle t r ≡ ok s = rw ran at e in
      elim (handle-since_idle t r s now) [
        | inl ended ↦ (t ∷ ts, rw ended refl, subst (λ u. after (t ∷ ts) ≡ ok u) ended e)
        | inr longer ↦ (before, ap (◌∷◌ t) earlier ∙ ap (λ l. l ++ before) (sym longer), was_idle)
      ]
  | inr (x, raised) ↦ cc (rw raised at e)
]
