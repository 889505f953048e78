-- ===== src/Tests/Start.antt =====
-- Starts and reloads of the servers' processes (src/as_app/bootstrap.py, src/anti_fraud_as/bootstrap.py
-- and src/anti_fraud_as/main.py).
use rdparty_as_poc.Prelude.{
  ℕ, none, some, String, ◌≡◌, refl, false, List, [], ◌∷◌, All, str_eq, if◌then◌else◌, Result, ok,
  err,
}
use rdparty_as_poc.Prelude.Whitespace.{strip, is_space}
use rdparty_as_poc.Prelude.Int.{pos}
use rdparty_as_poc.Prelude.Float.{whole_numbers}
use rdparty_as_poc.Errors.{AsError, Exception, Raised, Code, FraudErrorCode}
use rdparty_as_poc.Reload.{Disk, Store, make_store, maybe_reload, activate}
use rdparty_as_poc.Routing.Loading.{Parser}
use rdparty_as_poc.CallerState.{reconfigure}
use rdparty_as_poc.ScreeningData.{
  index_from, check_forms, validate_lists, is_usable, require_exactly_one_form, value, set_of,
  is_prefix,
}
use rdparty_as_poc.ScreeningData.Document.{
  ScreeningDocument, ScreeningData, make_screening_data, policy_of, load_screening_data,
  make_screening_store, maybe_reload_screening, check_screening,
}
use rdparty_as_poc.Startup.{Settings, Host, self_check, main}
use rdparty_as_poc.Startup.Laws.{IsPeer}
use rdparty_as_poc.FraudCall
use rdparty_as_poc.FraudStack.{FraudAsStack, make_fraud_stack, poll_screening_reload, stack_of}
use rdparty_as_poc.FraudStack.Laws.{Step, Reach, Reach-policy}
use rdparty_as_poc.Tests.Samples.{fraud_platform, disk, sample_store, screening_document}

abbrev peers : List String
peers = "10.0.0.1" ∷ "sbc.example" ∷ []

peers-IsPeer : All IsPeer peers
unfolding strip is_space
peers-IsPeer = ((refl, refl, λ e. cc), ((refl, refl, λ e. cc), tt))

abbrev host : Host
host = record {
  cfg_missing = record { code = "AS-CFG-001"; sip_status = 500; message = "missing" };
  cfg_peer_invalid = record { code = "AS-CFG-002"; sip_status = 500; message = "peer" };
  check_port_available = λ address port. ok tt;
  is_file = λ path. str_eq path "screening.yaml";
}

-- The same document again, with a longer window.
abbrev longer_document : ScreeningDocument whole_numbers
longer_document = record screening_document { window = record { seconds = pos 90; max_calls = 2 } }

abbrev screening_parser : Parser (ScreeningDocument whole_numbers)
screening_parser = record {
  Parsed = String;
  safe_load = λ text. if str_eq text "broken" then err (Raised.caught "yaml") else ok text;
  read_fields = λ text. if str_eq text "longer" then ok longer_document else ok screening_document;
}

abbrev load : Disk → String → Result Exception (ScreeningData whole_numbers)
load = load_screening_data whole_numbers screening_parser

abbrev settings : Settings
settings = record {
  listen_address = "127.0.0.1";
  listen_port = 5062;
  sbc_peer_address = "10.0.0.9";
  allowed_peers = peers;
  file = "screening.yaml";
}

abbrev missing : AsError
missing = record {
  code = Code.fraud FraudErrorCode.fraud_data_unreadable;
  detail = "missing";
  call_id = none;
  context = [];
}

-- A file that is not UTF-8: its exception leaves `main`.
abbrev latin1 : Disk
latin1 = record {
  read_text = λ path. err (Raised.uncaught "UnicodeDecodeError");
  stat = λ path. some (4, 1);
}

main-decode_error :
    main load host false
      (self_check load host "peer" "peers" missing latin1 settings)
      latin1
      latin1
      "screening.yaml"
    ≡ err (Exception.other "UnicodeDecodeError")
unfolding main self_check load_screening_data strip is_space
main-decode_error = refl

abbrev store_at : ScreeningDocument whole_numbers → ℕ → Store (ScreeningData whole_numbers)
store_at document at = record {
  path = "screening.yaml";
  current = make_screening_data whole_numbers document "screening.yaml";
  fingerprint = some (4, at);
}

abbrev begun : FraudAsStack whole_numbers sample_store
begun = stack_of whole_numbers sample_store [] (store_at screening_document 1)

begun-made :
    make_fraud_stack whole_numbers sample_store screening_parser []
      (disk "one" 1)
      (disk "one" 1)
      "screening.yaml"
    ≡ ok begun
unfolding make_fraud_stack make_screening_store make_store load_screening_data check_screening
    check_forms validate_lists index_from is_usable strip is_space require_exactly_one_form value
    set_of is_prefix
begun-made = refl

-- The file is edited, breaks, and a call of a blocked caller is decided.
abbrev reloaded : FraudAsStack whole_numbers sample_store
reloaded =
    (poll_screening_reload whole_numbers sample_store screening_parser (disk "broken" 3)
      (disk "broken" 3)
      (poll_screening_reload whole_numbers sample_store screening_parser (disk "longer" 2)
        (disk "longer" 2) begun).1).1

-- What the process has recorded before the call.
abbrev process : FraudCall.Process whole_numbers fraud_platform sample_store
process = record { callers = reloaded.caller_state; counters = []; errors = []; trace = [] }

abbrev event : FraudCall.TryEvent whole_numbers fraud_platform
event = record { call_id = "c1"; payload = "sdp"; extra_headers = none; max_forwards = some 70 }

abbrev decided : FraudAsStack whole_numbers sample_store
decided = record reloaded {
  caller_state =
      (FraudCall.decide_call whole_numbers fraud_platform sample_store
        reloaded.screening_data.current (some ("10.0.0.9", 5060)) (pos 100) (pos 101)
        (some "+46555") "c1" event process).1.callers;
}

run : Reach whole_numbers sample_store screening_parser fraud_platform begun decided
run =
    Reach.next
      (Reach.next (Reach.next Reach.here (Step.polls (disk "longer" 2) (disk "longer" 2) refl))
        (Step.polls (disk "broken" 3) (disk "broken" 3) refl))
      (Step.decides (some ("10.0.0.9", 5060)) (pos 100) (pos 101) (some "+46555") "c1" event process
        refl refl)

reloaded-longer : reloaded.caller_state.policy.window_seconds ≡ pos 90
unfolding poll_screening_reload maybe_reload_screening maybe_reload activate reconfigure
    load_screening_data check_screening check_forms validate_lists index_from is_usable strip
    is_space require_exactly_one_form value set_of is_prefix
reloaded-longer = refl

Reach-policy_example :
    (decided.caller_state.policy ≡ policy_of whole_numbers decided.screening_data.current.document)
    × ((disk : Disk) × (load_screening_data whole_numbers screening_parser disk
            decided.screening_data.path
          ≡ ok decided.screening_data.current))
Reach-policy_example =
    Reach-policy whole_numbers sample_store screening_parser fraud_platform [] (disk "one" 1)
      (disk "one" 1) "screening.yaml" begun decided begun-made run
