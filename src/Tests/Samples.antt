-- ===== src/Tests/Samples.antt =====
-- Sample rules, disks, parameters and stores that the runs share.
use rdparty_as_poc.Errors.{Raised}
use rdparty_as_poc.Prelude.{
  ℕ, String, ◌<>◌, refl, true, Option, none, some, List, [], ◌∷◌, inr, arith, str_eq, eq_iff, ok,
  err, if◌then◌else◌,
}
use rdparty_as_poc.Prelude.Dict.{Dict, lookup, insert, lookup-insert}
use rdparty_as_poc.Prelude.Int.{pos}
use rdparty_as_poc.Prelude.Float.{whole_numbers}
use rdparty_as_poc.Reload.{Disk}
use rdparty_as_poc.Routing.Rules.{
  NumberFormat, NumberTranslation, MatchCriteria, default_reject, RuleAction, RoutingRule, NextHop,
  RoutingRulesDocument,
}
use rdparty_as_poc.Routing.Loading.{Parser}
use rdparty_as_poc.CallerState.{WindowPolicy, Entry, StateStore, IsLawful, CallerStateStore}
use rdparty_as_poc.ScreeningData.{ScreenedNumber}
use rdparty_as_poc.ScreeningData.Document.{ScreeningDocument, ScreeningData, make_screening_data}
use rdparty_as_poc.RoutingCall.{Platform as RoutingPlatform}
use rdparty_as_poc.FraudCall.{Platform as FraudPlatform}

abbrev pub hop : String → ℕ → NextHop
hop name priority = record {
  name = name;
  address = "10.0.0.1";
  port = 5060;
  priority = priority;
  description = "";
}

abbrev pub criteria : List String → List String → MatchCriteria
criteria prefixes numbers = record {
  called_prefixes = prefixes;
  called_numbers = numbers;
  number_format = none;
  description = "";
}

abbrev pub to_national : NumberTranslation
to_national = record { to_format = NumberFormat.national; strip_prefix = "+46"; prepend = "0" }

abbrev pub rule : String → ℕ → MatchCriteria → RuleAction → RoutingRule
rule id priority c a = record {
  rule_id = id;
  priority = priority;
  description = "sample";
  enabled = true;
  criteria = c;
  action = a;
  tags = [];
}

abbrev pub route_rule : RoutingRule
route_rule =
    rule "sweden" 20 (criteria ("+46" ∷ []) [])
      (RuleAction.route (record { translate = to_national; next_hops = "backup" ∷ "core" ∷ [] }))

abbrev pub reject_rule : RoutingRule
reject_rule =
    rule "premium" 10 (criteria [] ("+46900" ∷ []))
      (RuleAction.reject (record default_reject { status = 403 }))

abbrev pub hops : List NextHop
hops = hop "core" 1 ∷ hop "backup" 2 ∷ []

abbrev pub sample_document : RoutingRulesDocument
sample_document = record {
  name = "sample";
  description = "";
  next_hops = hops;
  rules = route_rule ∷ reject_rule ∷ [];
}

-- The same rules in another order.
abbrev pub turned_document : RoutingRulesDocument
turned_document = record sample_document { rules = reject_rule ∷ route_rule ∷ [] }

-- A parser that reads one text only.
abbrev pub sample_parser : Parser RoutingRulesDocument
sample_parser = record {
  Parsed = String;
  safe_load = λ text. if str_eq text "broken" then err (Raised.caught "yaml") else ok text;
  read_fields = λ text. if str_eq text "turned" then ok turned_document else ok sample_document;
}

-- A disk whose files all hold one text, at one instant.
abbrev pub disk : String → ℕ → Disk
disk text at = record { read_text = λ path. ok text; stat = λ path. some (4, at) }

abbrev pub routing_platform : RoutingPlatform
routing_platform = record {
  Payload = String;
  Headers = String;
  Request = String;
  pass_through = λ r. "headers";
  outbound_call_id = λ c. c <> "-b";
}

abbrev pub fraud_platform : FraudPlatform whole_numbers
fraud_platform = record {
  Request = String;
  count_identities = λ r. 1;
  identity_user = λ r. some r;
  feature_caps = λ r. [];
  Payload = String;
  Headers = String;
  pass_through = λ r. "headers";
  outbound_call_id = λ c. c <> "-b";
  cfg_missing = record { code = "AS-CFG-001"; sip_status = 500; message = "missing" };
  round2 = λ x. x;
}

-- A store that keeps every record.
abbrev pub sample_store : StateStore whole_numbers
sample_store = record {
  State = Dict (Entry whole_numbers);
  read = λ t k. lookup k t;
  write = λ t k e. insert k e t;
  trim = λ t p n. t;
}

pub sample_store-IsLawful : IsLawful whole_numbers sample_store
sample_store-IsLawful = record {
  read-write_self = λ t k e. ground (arith, lookup-insert k k e t, eq_iff k k);
  read-write_ne = λ t k j e ne. ground (arith, lookup-insert k j e t, eq_iff k j);
  read-trim = λ t p n k. inr refl;
  trim-write =
      λ t p c n e. ground (arith, lookup-insert (p <> c) (p <> c) e t, eq_iff (p <> c) (p <> c));
}

abbrev pub screened : Option String → Option String → ScreenedNumber
screened number prefix = record {
  number = number;
  prefix = prefix;
  reason = "fraud";
  description = "";
}

abbrev pub screening_document : ScreeningDocument whole_numbers
screening_document = record {
  name = "sample";
  description = "";
  window = record { seconds = pos 60; max_calls = 2 };
  reputation = record {
    half_life_seconds = pos 3600;
    default_score = pos 50;
    reject_below = pos 20;
    reject_penalty = pos 40;
    max_tracked_callers = 100;
  };
  block_list = screened none (some "+46") ∷ screened (some "+46123") none ∷ [];
  allow_list = screened (some "+46700") none ∷ [];
}

abbrev pub lists : ScreeningData whole_numbers
lists = make_screening_data whole_numbers screening_document "screening.yaml"

abbrev pub policy : WindowPolicy whole_numbers
policy = record {
  window_seconds = pos 60;
  max_calls = 2;
  half_life_seconds = pos 3600;
  default_score = pos 50;
  reject_penalty = pos 40;
  max_tracked_callers = 100;
}

abbrev pub no_callers : CallerStateStore whole_numbers sample_store
no_callers = record { policy = policy; state = [] }
