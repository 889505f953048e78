-- ===== src/Tests/FraudCalls.antt =====
-- Runs of the anti-fraud call controller (src/anti_fraud_as/call_controller.py).
use rdparty_as_poc.Prelude.{
  true, ℕ, String, ◌<>◌, ◌≡◌, refl, Option, none, some, [], ◌∷◌, Result, ok, if◌then◌else◌,
}
use rdparty_as_poc.Prelude.Dict.{lookup, insert}
use rdparty_as_poc.Prelude.Whitespace.{strip, is_space}
use rdparty_as_poc.Prelude.Int.{pos, ◌-ℤ◌}
use rdparty_as_poc.Prelude.Float.{whole_numbers}
use rdparty_as_poc.Errors.{AsError, Code, fraud_member, error_status}
use rdparty_as_poc.Screening.{ScreeningVerdict, ScreeningDecision, screen, source_value}
use rdparty_as_poc.ScreeningData.{index_from, match_index, is_prefix, value}
use rdparty_as_poc.CallerState.{
  CallerSignals, CallerStateStore, observe, penalise, record_call, effective_score, next_events,
  drop_old, drop_excess,
}
use rdparty_as_poc.CallerState.Store.{IsTyped}
use rdparty_as_poc.FraudCall
use rdparty_as_poc.FraudCall.{calling_number_of}
use rdparty_as_poc.FraudCall.Codes.{code_of}
use rdparty_as_poc.FraudCall.Capability.{
  declares_608, is_608_tag, split_caps, drop_while, drop_while_end,
}
use rdparty_as_poc.FraudCall.Laws.{
  Allowed, observed, decision, decide_call-allow, decide_call-reject,
}
use rdparty_as_poc.Tests.Samples.{
  lists, no_callers, fraud_platform, sample_store, sample_store-IsLawful,
}

abbrev pub event : FraudCall.TryEvent whole_numbers fraud_platform
event = record { call_id = "c1"; payload = "sdp"; extra_headers = none; max_forwards = some 70 }

abbrev pub process : FraudCall.Process whole_numbers fraud_platform sample_store
process = record { callers = no_callers; counters = []; errors = []; trace = [] }

abbrev sbc : Option (String × ℕ)
sbc = some ("10.0.0.9", 5060)

-- What is seen of a caller at its first call.
abbrev pub first_call : String → CallerSignals whole_numbers
first_call number = record {
  calling_number = number;
  effective_reputation = pos 50;
  calls_in_window = 1;
}

abbrev pub after_first : String → CallerStateStore whole_numbers sample_store
after_first number = (observe whole_numbers sample_store (pos 100) number no_callers).1

pub seen-friend :
    observed whole_numbers fraud_platform sample_store sample_store-IsLawful lists sbc
      (pos 100)
      (pos 101)
      (some "+46700")
      "c1"
      event
      process
    ≡ (ok (first_call "+46700"), after_first "+46700")
unfolding calling_number_of strip observe record_call effective_score next_events drop_old
    drop_excess insert lookup ◌-ℤ◌
seen-friend = refl

seen-foe :
    observed whole_numbers fraud_platform sample_store sample_store-IsLawful lists sbc
      (pos 100)
      (pos 101)
      (some "+46555")
      "c1"
      event
      process
    ≡ (ok (first_call "+46555"), after_first "+46555")
unfolding calling_number_of strip observe record_call effective_score next_events drop_old
    drop_excess insert lookup ◌-ℤ◌
seen-foe = refl

-- The decision of the sample call of a number.
abbrev sample_decision :
    (number : String)
    → observed whole_numbers fraud_platform sample_store sample_store-IsLawful lists sbc
        (pos 100)
        (pos 101)
        (some number)
        "c1"
        event
        process
      ≡ (ok (first_call number), after_first number)
    → ScreeningDecision whole_numbers
sample_decision number seen =
    decision whole_numbers fraud_platform sample_store sample_store-IsLawful lists sbc (pos 100)
      (pos 101) (some number) "c1" event process (first_call number) (after_first number) seen

abbrev sample_result :
    String
    → Result String (FraudCall.PolicyDecision whole_numbers fraud_platform)
      × FraudCall.Process whole_numbers fraud_platform sample_store
sample_result number =
    FraudCall.decide_call whole_numbers fraud_platform sample_store lists sbc (pos 100) (pos 101)
      (some number) "c1" event process

friend-allowed : (sample_decision "+46700" seen-friend).verdict ≡ ScreeningVerdict.allow
unfolding calling_number_of strip screen index_from match_index is_prefix value
friend-allowed = refl

foe-rejected : (sample_decision "+46555" seen-foe).verdict ≡ ScreeningVerdict.reject
unfolding calling_number_of strip screen index_from match_index is_prefix value
foe-rejected = refl

decide_call-allow_example :
    Allowed whole_numbers fraud_platform sample_store sample_store-IsLawful lists sbc
      (pos 100)
      (pos 101)
      (some "+46700")
      "c1"
      event
      process
      sbc
      (sample_result "+46700")
    × ((sample_result "+46700").1.callers ≡ after_first "+46700")
    × ((sample_result "+46700").1.counters
        ≡ ("screen." <> source_value (sample_decision "+46700" seen-friend).source)
          ∷ "verdict.allow"
          ∷ [])
decide_call-allow_example =
    decide_call-allow whole_numbers fraud_platform sample_store sample_store-IsLawful lists sbc
      (pos 100) (pos 101) (some "+46700") "c1" event process (first_call "+46700")
      (after_first "+46700") seen-friend friend-allowed

empty-IsTyped : IsTyped whole_numbers sample_store sample_store-IsLawful no_callers.state
unfolding lookup
empty-IsTyped caller = (tt, tt)

decide_call-reject_example :
    ((error : AsError) × (attributes : FraudCall.RejectAttributes whole_numbers fraud_platform)
      × ((sample_result "+46555").0 ≡ ok (FraudCall.PolicyDecision.reject error attributes))
      × (error.code ≡ Code.fraud (code_of (sample_decision "+46555" seen-foe).source))
      × (error_status error ≡ 608)
      × (attributes.sip_608_declared
          ≡ some (FraudCall.declared_of whole_numbers fraud_platform (some "+46555"))))
    × ((sample_result "+46555").1.callers
        ≡ (penalise whole_numbers sample_store (pos 101) "+46555" (after_first "+46555")).1)
    × ((sample_result "+46555").1.errors
        ≡ (fraud_member (code_of (sample_decision "+46555" seen-foe).source)).code ∷ [])
    × ((sample_result "+46555").1.counters ≡ (
        if FraudCall.declared_of whole_numbers fraud_platform (some "+46555")
        then ("screen." <> source_value (sample_decision "+46555" seen-foe).source)
          ∷ "verdict.reject"
          ∷ []
        else "reject.sip_608_undeclared"
          ∷ ("screen." <> source_value (sample_decision "+46555" seen-foe).source)
          ∷ "verdict.reject"
          ∷ []))
unfolding calling_number_of strip
decide_call-reject_example =
    decide_call-reject whole_numbers fraud_platform sample_store sample_store-IsLawful lists sbc
      (pos 100) (pos 101) (some "+46555") "c1" event process (first_call "+46555")
      (after_first "+46555") seen-foe empty-IsTyped foe-rejected

caps-declared : declares_608 ("+g.3gpp.icsi; +SIP.608" ∷ []) ≡ true
unfolding declares_608 is_608_tag split_caps drop_while drop_while_end is_space
caps-declared = refl
