-- ===== src/Tests/Events.antt =====
-- Runs of the live events (src/as_app/internal_api.py, src/anti_fraud_as/internal_api.py and the
-- reports of both call controllers).
use rdparty_as_poc.Prelude.{
  ℕ, suc, String, ◌≡◌, ◌≢◌, refl, ◌||◌, true, false, Option, none, some, List, [], ◌∷◌, ◌++◌,
  Result, length, arith,
}
use rdparty_as_poc.Prelude.Int.{pos}
use rdparty_as_poc.Prelude.Whitespace.{strip}
use rdparty_as_poc.Prelude.Float.{whole_numbers}
use rdparty_as_poc.Errors.{AsError}
use rdparty_as_poc.Routing.Rules.{make_rule_set}
use rdparty_as_poc.RoutingCall
use rdparty_as_poc.FraudCall
use rdparty_as_poc.FraudCall.{calling_number_of}
use rdparty_as_poc.FraudCall.Laws.{decision}
use rdparty_as_poc.Screening.{ScreeningVerdict, screen}
use rdparty_as_poc.ScreeningData.{index_from, match_index, is_prefix, value}
use rdparty_as_poc.Events.Publisher.{
  member, Action, empty, connect, disconnect, begin_broadcast, resume, resume_at, act, run,
}
use rdparty_as_poc.Events.Publisher.Laws.{failed, run-connected}
use rdparty_as_poc.Events.Server.{
  Live, LiveAction, make_server, start_translation, start_fraud, live_run,
}
use rdparty_as_poc.Events.Server.Laws.{messages, turns_of, start_translation-broadcasts}
use rdparty_as_poc.Events.Server.Silent.{start_fraud-silent}
use rdparty_as_poc.Events.Report.{
  Value, P12Event, Reporter, apply_call_policy, apply_screening_policy,
}
use rdparty_as_poc.Events.Report.Laws.{Reports, AgreesWith, apply_call_policy-Agrees}
use rdparty_as_poc.Events.Report.Screening.{unrouted-Reports}
use rdparty_as_poc.Tests.Samples.{
  sample_document, routing_platform, lists, fraud_platform, sample_store, sample_store-IsLawful,
}
use rdparty_as_poc.Tests.Calls.{routed_event, fresh_call, sample-IsChecked}
use rdparty_as_poc.Tests.FraudCalls.{event, process, first_call, after_first, seen-friend}

abbrev as_given : List ℕ → List ℕ
as_given xs = xs

-- One console connects while a broadcast to another waits, whose send then raises.
abbrev before : List Action
before = Action.connects 1 ∷ Action.begins "a" ∷ []

abbrev behind : List Action
behind = Action.resumes 0 true ∷ Action.begins "b" ∷ Action.resumes 0 false ∷ []

behind-connections :
    (run as_given behind (connect 2 (run as_given before empty))).connections ≡ 2 ∷ []
unfolding act connect disconnect begin_broadcast resume resume_at
behind-connections = refl

run-connected_example :
    (member 2 (run as_given behind (connect 2 (run as_given before empty))).connections
      || failed 2 (run as_given behind (connect 2 (run as_given before empty))).sends)
    ≡ true
run-connected_example = run-connected as_given 2 before behind refl

-- Two events, one of them begun, while a console is connected.
abbrev reported : List LiveAction
reported =
    LiveAction.emits true "a"
    ∷ LiveAction.connects 1
    ∷ LiveAction.turns
    ∷ LiveAction.resumes 0 false
    ∷ LiveAction.emits false "lost"
    ∷ LiveAction.emits true "b"
    ∷ []

abbrev translation_run : Live
translation_run = live_run as_given reported (start_translation 7 make_server)

start_translation-broadcasts_example :
    (translation_run.begun ++ messages translation_run.scheduled ≡ "a" ∷ "b" ∷ [])
    × ((turns_of as_given (length translation_run.scheduled) translation_run).begun
        ≡ "a" ∷ "b" ∷ [])
start_translation-broadcasts_example = start_translation-broadcasts as_given 7 reported

another_loop : 7 ≢ suc 7
another_loop e = omega (arith, e)

start_fraud-silent_example :
    ((live_run as_given reported (start_fraud suc 7 make_server)).begun ≡ [])
    × ((live_run as_given reported (start_fraud suc 7 make_server)).publisher.sends ≡ [])
start_fraud-silent_example = start_fraud-silent as_given suc 7 reported another_loop

-- The event's name stands for its text, and the clock for a number.
abbrev dumps_name : P12Event ℕ → Option String
dumps_name e = some e.event

abbrev writes_name : (e : P12Event ℕ) → (m : String) × (dumps_name e ≡ some m)
writes_name e = (e.event, refl)

abbrev reporter : String → Reporter ℕ
reporter source = record {
  has_app = true;
  source = source;
  call_id = some "c1";
  now = 12;
  accepted = true;
}

abbrev served : Live
served = record make_server { app_loop = some 7; running_loop = some 7 }

abbrev routing_hook :
    RoutingCall.TryEvent routing_platform
    → RoutingCall.Call routing_platform
    → Result AsError (RoutingCall.PolicyDecision routing_platform)
      × RoutingCall.Call routing_platform
routing_hook e c =
    RoutingCall.decide_call routing_platform (make_rule_set sample_document "rules.yaml") "c1" e
      (some "invite") c

apply_call_policy-Agrees_example :
    AgreesWith ℕ dumps_name writes_name routing_platform sample_document "rules.yaml" "c1"
      routed_event
      (some "invite")
      (reporter "as_translation")
      7
      served
      refl
      refl
      refl
      (apply_call_policy ℕ dumps_name routing_platform routing_hook
        (reporter "as_translation")
        routed_event
        fresh_call
        served).0.0
      (apply_call_policy ℕ dumps_name routing_platform routing_hook
        (reporter "as_translation")
        routed_event
        fresh_call
        served).1
apply_call_policy-Agrees_example =
    apply_call_policy-Agrees ℕ dumps_name writes_name routing_platform sample_document "rules.yaml"
      "c1" routed_event (some "invite") (reporter "as_translation") 7 served refl refl refl
      routing_hook fresh_call sample-IsChecked refl

abbrev unrouted_hook :
    FraudCall.TryEvent whole_numbers fraud_platform
    → FraudCall.Process whole_numbers fraud_platform sample_store
    → Result String (FraudCall.PolicyDecision whole_numbers fraud_platform)
      × FraudCall.Process whole_numbers fraud_platform sample_store
unrouted_hook e p =
    FraudCall.decide_call whole_numbers fraud_platform sample_store lists none (pos 100) (pos 101)
      (some "+46700") "c1" e p

friend-unrouted :
    (decision whole_numbers fraud_platform sample_store sample_store-IsLawful lists none
      (pos 100)
      (pos 101)
      (some "+46700")
      "c1"
      event
      process
      (first_call "+46700")
      (after_first "+46700")
      seen-friend).verdict
    ≡ ScreeningVerdict.allow
unfolding calling_number_of strip screen index_from match_index is_prefix value
friend-unrouted = refl

unrouted-Reports_example :
    Reports ℕ dumps_name writes_name
      (reporter "as_anti_fraud")
      7
      "call_rejected_608"
      (("verdict", Value.text "reject")
        ∷ ("error_code", Value.text fraud_platform.cfg_missing.code)
        ∷ ("screen_source", Value.text "none")
        ∷ [])
      served
      (apply_screening_policy ℕ dumps_name whole_numbers fraud_platform unrouted_hook
        (reporter "as_anti_fraud")
        event
        process
        served).1
unrouted-Reports_example =
    unrouted-Reports ℕ dumps_name writes_name whole_numbers fraud_platform sample_store
      sample_store-IsLawful lists (pos 100) (pos 101) (some "+46700") "c1" event process
      (first_call "+46700") (after_first "+46700") (reporter "as_anti_fraud") 7 served unrouted_hook
      seen-friend refl friend-unrouted refl refl refl
