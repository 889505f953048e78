-- ===== src/RoutingCall/Laws.antt =====
-- What the routing server answers for a rules document that passed its validators, on every branch
-- (src/as_app/call_controller.py, `CallController.decide`).
use rdparty_as_poc.Prelude.{
  String, ◌≡◌, refl, sym, ap, ◌∙◌, subst, ◌≢◌, ◌⊎◌, inl, inr, false, Option, some, List, [], ◌∷◌,
  All, arith, str_eq, Bool-cases, eq_iff, Result, ok, err,
}
use rdparty_as_poc.Errors.{AsError, Code, AsErrorCode, as_member, member, error_status}
use rdparty_as_poc.Routing.Rules.{NextHop, RoutingRulesDocument, make_rule_set}
use rdparty_as_poc.Routing.Rules.Validation.{IsChecked}
use rdparty_as_poc.Routing.Engine.{
  Disposition, RoutingDecision, classify_number_format, rule_matches, translation_failed, decide,
}
use rdparty_as_poc.Routing.Engine.Decision.{GoodHops, RejectedBy, SoundFor, Sound, decide-Sound}
use rdparty_as_poc.RoutingCall.{
  CallDisposition, or_number, rejection, reject_error, Platform, TryEvent, PolicyDecision, Call,
  record_routed, route_call, conclude, decide_routed, decide_call,
}

rejection-member :
    (d : RoutingDecision) (call_id : String) (c : AsErrorCode)
    → d.error_code ≡ some (as_member c).code
    → (rejection d call_id).code ≡ Code.routing c
rejection-member d call_id AsErrorCode.rule_file_unreadable h = rw h refl
rejection-member d call_id AsErrorCode.rule_parse_error h = rw h refl
rejection-member d call_id AsErrorCode.rule_schema_error h = rw h refl
rejection-member d call_id AsErrorCode.rule_duplicate_id h = rw h refl
rejection-member d call_id AsErrorCode.route_no_match h = rw h refl
rejection-member d call_id AsErrorCode.route_rejected h = rw h refl
rejection-member d call_id AsErrorCode.route_no_next_hop h = rw h refl
rejection-member d call_id AsErrorCode.route_translation_failed h = rw h refl

pub reject_error-rejection :
    (d : RoutingDecision) (call_id : String)
    → d.disposition ≢ Disposition.route
    → reject_error d call_id ≡ ok (rejection d call_id)
unfolding reject_error
reject_error-rejection d call_id ne = ground arith

-- For a decision that is no route and carries the code of a registered member, the answer on the trunk
-- is that member's, with the member's status whatever status the decision carries, and it names the
-- call.
pub reject_error-member :
    (d : RoutingDecision) (call_id : String) (c : AsErrorCode)
    → d.disposition ≢ Disposition.route
    → d.error_code ≡ some (as_member c).code
    → (e : AsError) × (reject_error d call_id ≡ ok e)
      × (e.code ≡ Code.routing c)
      × (error_status e ≡ (as_member c).sip_status)
      × (e.call_id ≡ some call_id)
reject_error-member d call_id c ne h =
    let same = rejection-member d call_id c h in
    (
      rejection d call_id,
      reject_error-rejection d call_id ne,
      same,
      ap (λ k. (member k).sip_status) same,
      refl,
    )

pub or_number-ne-nil :
    (platform : Platform) (o : Option String) (n number : String)
    → o ≡ some n
    → n ≢ ""
    → or_number platform o number ≡ n
or_number-ne-nil platform o n number e ne = rw e (elim (Bool-cases (str_eq n "")) [
  | inl empty ↦ absurd (ne ((eq_iff n "").0 empty))
  | inr usable ↦ rw usable
])

module _ (platform : Platform) (d : RoutingRulesDocument) (source call_id : String)
    (event : TryEvent platform) (request : Option platform.Request) (c : Call platform) where
  -- What a call is answered, and what it leaves, by the shape of the answer.
  abbrev pub Answered : Result AsError (PolicyDecision platform) → Call platform → Type 0
  Answered (err e) q = ⊥
  Answered (ok (PolicyDecision.relay out hops rule)) q =
      (out.call_id ≡ platform.outbound_call_id event.call_id)
      × (out.calling ≡ event.calling)
      × (out.payload ≡ event.payload)
      × (out.max_forwards ≡ event.max_forwards)
      × (out.extra_headers ≡ some (platform.pass_through request))
      × (out.called_number ≢ "")
      × GoodHops d source hops
      × (q.errors ≡ c.errors)
  Answered (ok (PolicyDecision.reject e CallDisposition.completed rule)) q = ⊥
  Answered (ok (PolicyDecision.reject e CallDisposition.no_match rule)) q =
      (e.code ≡ Code.routing AsErrorCode.route_no_match)
      × (error_status e ≡ 404)
      × (q.errors ≡ "AS-ROUTE-001" ∷ c.errors)
      × All
          (λ r.
            rule_matches r event.called_number (classify_number_format event.called_number) ≡ false)
          d.rules
  Answered (ok (PolicyDecision.reject e CallDisposition.rejected rule)) q =
      ((e ≡ translation_failed event.called_number) × (q ≡ c))
      ⊎ ((r : RoutingDecision) × (q.kept ≡ some r)
          × (r.disposition ≡ Disposition.reject)
          × (by : RejectedBy d source event.called_number r) × (e.call_id ≡ some call_id)
          × (e.detail ≡ by.action.reason)
          × (rule ≡ by.rule.rule_id)
          × (q.errors ≡ by.action.error_code ∷ c.errors))

  conclude-Answered :
      (x : Disposition) (hops : List NextHop) (r : RoutingDecision) (q : Call platform)
      → r.disposition ≡ x
      → r.next_hops ≡ hops
      → q.kept ≡ some r
      → q.errors ≡ (record_routed platform (ok r) c).errors
      → SoundFor d source x event.called_number r
      → Answered (conclude platform x hops call_id event request r) q
  unfolding conclude
  conclude-Answered Disposition.route [] r q dx dh kept errors (_, _, _, good) = absurd (good.0 dh)
  conclude-Answered Disposition.route (h ∷ hs) r q dx dh kept errors
        (no_error, _, (n, e, ne), good) =
      (
        refl,
        refl,
        refl,
        refl,
        refl,
        λ empty. ne (
            sym (or_number-ne-nil platform r.translated_number n event.called_number e ne) ∙ empty),
        subst (GoodHops d source) dh good,
        rw (errors, no_error),
      )
  conclude-Answered Disposition.reject hops r q dx dh kept errors (_, _, _, by) =
      rw (reject_error-rejection r call_id (λ e. cc))
        (inr (r, kept, dx, by, refl, by.reason, rw by.names refl, rw (errors, by.code) refl))
  conclude-Answered Disposition.no_match hops r q dx dh kept errors (_, _, code, misses) =
      let same = rejection-member r call_id AsErrorCode.route_no_match code in
      rw (reject_error-rejection r call_id (λ e. cc))
        (same, ap (λ k. (member k).sip_status) same, rw (errors, code), misses)

  decide_routed-Answered :
      (r : Result AsError RoutingDecision)
      → Sound d source event.called_number r
      → let (p, q) = decide_routed platform call_id event request (record_routed platform r c) r in
        Answered p q
  decide_routed-Answered (err e) sound = inl (sound, refl)
  decide_routed-Answered (ok r) (_, sound) =
      conclude-Answered r.disposition r.next_hops r _ refl refl refl refl sound

  -- For a rules document that passed its validators nothing is raised, and a call has one of these outcomes. It is relayed
  -- under its own Call-ID to a number that is not empty, over some hops of the catalogue, best first,
  -- with the rest of the event unchanged and no error recorded. It is answered 404 with
  -- `AS-ROUTE-001`, which is recorded, when no rule matches. Or it is rejected, by an empty
  -- translation, with nothing recorded, or by the document's reject rule that matches and is selected, under the
  -- rule's identifier, with the rule's reason and the call's name, and the rule's error code is recorded. A
  -- selected route without a next hop never occurs.
  pub decide_call-Answered :
      IsChecked d
      → Answered
          (decide_call platform (make_rule_set d source) call_id event request c).0
          (decide_call platform (make_rule_set d source) call_id event request c).1
  unfolding decide_call route_call
  decide_call-Answered checked =
      decide_routed-Answered (decide (make_rule_set d source) event.called_number)
        (decide-Sound d source event.called_number checked)
