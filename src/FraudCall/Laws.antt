-- ===== src/FraudCall/Laws.antt =====
-- What the anti-fraud server does with one call, on every branch
-- (src/anti_fraud_as/call_controller.py, `FraudCallController.decide`).
use mathlib.Core.Path.{ap₂}
use rdparty_as_poc.Prelude.{
  ℕ, String, ◌<>◌, ◌≡◌, refl, ap, ◌∙◌, subst, Bool, true, false, Option, none, some, [], ◌∷◌,
  if◌then◌else◌, Result, ok,
}
use rdparty_as_poc.Prelude.Float.{Floats}
use rdparty_as_poc.Errors.{AsError, Code, fraud_member, error_status}
use rdparty_as_poc.Screening.{
  ScreeningVerdict, ScreeningSignals, ScreeningDecision, screen, source_value, verdict_value,
}
use rdparty_as_poc.CallerState.{
  CallerSignals, StateStore, IsLawful, CallerStateStore, observe, penalise,
}
use rdparty_as_poc.CallerState.Store.{IsTyped, observe-ok, penalise-ok}
use rdparty_as_poc.ScreeningData.Document.{ScreeningData}
use rdparty_as_poc.FraudCall.{
  Platform, PolicyDecision, TryEvent, Hop, RejectAttributes, Process, signals_of, thresholds_of,
  number_of, declared_of, or_dash, reject_call, relay_call, record_verdict, act_on, answer_reject,
  count_undeclared, decide_observed, decide_call,
}
use rdparty_as_poc.FraudCall.Codes.{code_of, screen-error_code_for}

count_undeclared_fields :
    (f : Floats) (platform : Platform f) (s : StateStore f) (declared : Bool)
    (p : Process f platform s)
    → ((count_undeclared f platform s declared p).callers ≡ p.callers)
      × ((count_undeclared f platform s declared p).errors ≡ p.errors)
      × ((count_undeclared f platform s declared p).counters
          ≡ (if declared then p.counters else "reject.sip_608_undeclared" ∷ p.counters))
count_undeclared_fields f platform s true p = (refl, refl, refl)
count_undeclared_fields f platform s false p = (refl, refl, refl)

module _ (f : Floats) (platform : Platform f) (s : StateStore f) (law : IsLawful f s)
    (lists : ScreeningData f) (next_hop : Option (String × ℕ)) (now later : f.Float)
    (request : Option platform.Request) (call_id : String) (event : TryEvent f platform)
    (p : Process f platform s) where
  abbrev declared : Bool
  declared = declared_of f platform request

  -- What the store answered to the observation of the call, and the decision taken on it.
  abbrev pub observed : Result String (CallerSignals f) × CallerStateStore f s
  observed = observe f s now (or_dash (number_of f platform request)) p.callers

  -- An allowed call, by whether a next hop is configured: the configuration error, or the relay of the
  -- event to that hop with its own Call-ID and nothing else changed.
  abbrev pub Allowed :
      Option (String × ℕ)
      → Result String (PolicyDecision f platform) × Process f platform s
      → Type 0
  Allowed none (r, q) =
      ((error : AsError) × (attributes : RejectAttributes f platform) × (r
          ≡ ok (PolicyDecision.reject error attributes))
        × (error.code ≡ Code.skeleton platform.cfg_missing))
      × (q.errors ≡ platform.cfg_missing.code ∷ p.errors)
  Allowed (some hop) (r, q) =
      ((out : TryEvent f platform) × (to : Hop f platform) × (r
          ≡ ok (PolicyDecision.relay out (to ∷ [])))
        × (out.call_id ≡ platform.outbound_call_id event.call_id)
        × (out.payload ≡ event.payload)
        × (out.max_forwards ≡ event.max_forwards)
        × (to.address ≡ hop.0)
        × (to.port ≡ hop.1))
      × (q.errors ≡ p.errors)

  relay_call-Allowed :
      (hop : Option (String × ℕ)) (q : Process f platform s)
      → q.errors ≡ p.errors
      → Allowed hop (relay_call f platform s hop request call_id event q)
        × ((relay_call f platform s hop request call_id event q).1.callers ≡ q.callers)
        × ((relay_call f platform s hop request call_id event q).1.counters ≡ q.counters)
  unfolding relay_call
  relay_call-Allowed none q same =
      (((_, _, refl, refl), ap (λ es. platform.cfg_missing.code ∷ es) same), refl, refl)
  relay_call-Allowed (some hop) q same =
      (((_, _, refl, refl, refl, refl, refl, refl), same), refl, refl)

  -- The process once the call has been observed, leaving the callers as they then are.
  module _ (caller : CallerSignals f) (callers : CallerStateStore f s)
      (seen : observed ≡ (ok caller, callers)) where
    abbrev pub signals : ScreeningSignals f
    signals = signals_of f lists (number_of f platform request) caller

    abbrev pub decision : ScreeningDecision f
    decision = screen f signals (thresholds_of f lists)

    -- The outcome of the whole call, in its two shapes.
    abbrev pub result : Result String (PolicyDecision f platform) × Process f platform s
    result = decide_call f platform s lists next_hop now later request call_id event p

    pub result_lem :
        (v : ScreeningVerdict)
        → decision.verdict ≡ v
        → result
          ≡ act_on f platform s v later next_hop request call_id event decision signals declared (
              record_verdict f platform s decision signals declared
                (record p { callers = callers }))
    unfolding decide_call decide_observed
    result_lem v e =
        ap
          (λ (x : Result String (CallerSignals f) × CallerStateStore f s).
            decide_observed f platform s lists next_hop later request call_id event
              (record p { callers = x.1 }) x.0)
          seen
        ∙ ap
            (λ w.
              act_on f platform s w later next_hop request call_id event decision signals declared (
                record_verdict f platform s decision signals declared
                  (record p { callers = callers })))
            e

    -- Once the observation has answered, a call that screening allows leaves the callers as the
    -- observation left them and counts one verdict and its source. It is relayed to the configured hop
    -- with its own Call-ID and the payload and the hop limit of the event, and no error is recorded, or it
    -- is rejected with the configuration error, which is recorded, where no hop is configured.
    pub decide_call-allow :
        decision.verdict ≡ ScreeningVerdict.allow
        → Allowed next_hop result
          × (result.1.callers ≡ callers)
          × (result.1.counters
              ≡ ("screen." <> source_value decision.source) ∷ "verdict.allow" ∷ p.counters)
    unfolding record_verdict
    decide_call-allow h =
        let q =
          record_verdict f platform s decision signals declared (record p { callers = callers }) in
        let (outcome, kept, counted) = relay_call-Allowed next_hop q refl in
        rw (result_lem ScreeningVerdict.allow h) (
          outcome,
          kept,
          counted
              ∙ ap
                  (λ v.
                    ("screen." <> source_value decision.source)
                    ∷ ("verdict." <> verdict_value v)
                    ∷ p.counters)
                  h,
        )

    -- Where the store's records had their types before the call and the observation has answered, a call
    -- that screening rejects is answered 608 with the code of the source that decided. The caller is
    -- penalised once, at the instant of the rejection; the verdict, its source and a missing `sip.608`
    -- declaration are counted, and the error is recorded. Nothing is relayed and no exception leaves the
    -- call.
    pub decide_call-reject :
        IsTyped f s law p.callers.state
        → decision.verdict ≡ ScreeningVerdict.reject
        → ((error : AsError) × (attributes : RejectAttributes f platform) × (result.0
              ≡ ok (PolicyDecision.reject error attributes))
            × (error.code ≡ Code.fraud (code_of decision.source))
            × (error_status error ≡ 608)
            × (attributes.sip_608_declared ≡ some declared))
          × (result.1.callers ≡ (penalise f s later signals.calling_number callers).1)
          × (result.1.errors ≡ (fraud_member (code_of decision.source)).code ∷ p.errors)
          × (result.1.counters ≡ (
              if declared
              then ("screen." <> source_value decision.source) ∷ "verdict.reject" ∷ p.counters
              else "reject.sip_608_undeclared"
                ∷ ("screen." <> source_value decision.source)
                ∷ "verdict.reject"
                ∷ p.counters))
    unfolding record_verdict reject_call
    decide_call-reject typed h =
        let typed' : IsTyped f s law callers.state =
          subst
            (λ (x : Result String (CallerSignals f) × CallerStateStore f s).
              IsTyped f s law x.1.state)
            seen
            (observe-ok f s law now (or_dash (number_of f platform request)) p.callers typed).1 in
        let (score, _, lowered, _, _) =
          penalise-ok f s law later signals.calling_number callers typed' in
        let (code, status) = screen-error_code_for f signals (thresholds_of f lists) h in
        let q =
          record_verdict f platform s decision signals declared (record p { callers = callers }) in
        let (r, after) = penalise f s later signals.calling_number callers in
        let answer : result
            ≡ answer_reject f platform s (ok (f.sub score callers.policy.reject_penalty)) call_id
                decision declared (record q { callers = after }) =
          result_lem ScreeningVerdict.reject h
          ∙ ap
              (λ x.
                answer_reject f platform s x call_id decision declared
                  (record q { callers = after }))
              lowered in
        let code_text = ap (λ c. (fraud_member c).code) code in
        let (same_callers, same_errors, counted) =
          count_undeclared_fields f platform s declared (record q { callers = after }) in
        rw answer (
          (_, _, refl, ap Code.fraud code, status, refl),
          same_callers,
          ap₂ ◌∷◌ code_text same_errors,
          counted
              ∙ ap
                  (λ v.
                    let cs =
                      ("screen." <> source_value decision.source)
                      ∷ ("verdict." <> verdict_value v)
                      ∷ p.counters in
                    if declared then cs else "reject.sip_608_undeclared" ∷ cs)
                  h,
        )
