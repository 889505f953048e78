-- ===== src/Tests/Routing.antt =====
-- Runs of the routing core (src/as_app/routing/engine.py and src/as_app/routing/rules.py).
use mathlib.Core.List.{Memᴰ}
use rdparty_as_poc.Prelude.{
  String, ◌<>◌, ◌≡◌, refl, true, Option, none, some, List, [], ◌∷◌, Result, ok, ◌>>=◌, ◌≢◌, str_mem,
}
use rdparty_as_poc.Prelude.Dict.{insert}
use rdparty_as_poc.Prelude.Sort.{key_le}
use rdparty_as_poc.Errors.{AsError}
use rdparty_as_poc.Reload.{Disk, Store, make_store}
use rdparty_as_poc.Reload.Laws.{polls}
use rdparty_as_poc.Routing.Rules.{
  NumberFormat, NumberTranslation, RoutingRule, NextHop, RuleSet, check_document, check_ids,
  make_rule_set, next_hops_for, hop_names, rule_key,
}
use rdparty_as_poc.Routing.Rules.Validation.{IsChecked}
use rdparty_as_poc.Routing.Engine.{
  classify_number_format, rule_matches, select_rule, strip, prepend_digits, decide_selected,
  decide_action, apply_translation, decide,
}
use rdparty_as_poc.Routing.Engine.Select.{Matches, select_rule-least, select_rule-order}
use rdparty_as_poc.Routing.Engine.Decision.{Sound, decide-Sound}
use rdparty_as_poc.Routing.Loading.{load_rule_set, make_rule_set_store}
use rdparty_as_poc.Routing.Loading.Laws.{decide-Sound_after_polls}
use rdparty_as_poc.Tests.Samples.{
  route_rule, hops, to_national, sample_document, turned_document, sample_parser, disk,
}

abbrev rules : RuleSet
rules = make_rule_set sample_document "rules.yaml"

sample-IsChecked : IsChecked sample_document
unfolding check_document
sample-IsChecked = refl

decide_number : String → Result AsError (Option String × List NextHop)
decide_number n = decide rules n >>= λ d. ok (d.translated_number, d.next_hops)

decide-routed : decide_number "+46123" ≡ ok (some "0123", hops)
unfolding decide_number decide decide_selected decide_action select_rule make_rule_set key_le
    next_hops_for rule_matches apply_translation prepend_digits strip insert
decide-routed = refl

decide-rejected : decide_number "+46900" ≡ ok (none, [])
unfolding decide_number decide decide_selected decide_action select_rule make_rule_set key_le
    next_hops_for rule_matches apply_translation prepend_digits strip insert
decide-rejected = refl

select-route : select_rule rules "+46123" ≡ some route_rule
unfolding select_rule make_rule_set key_le rule_matches classify_number_format
select-route = refl

select-none : select_rule rules "112" ≡ none
unfolding select_rule make_rule_set key_le rule_matches classify_number_format
select-none = refl

decide-Sound_example : Sound sample_document "rules.yaml" "+46123" (decide rules "+46123")
decide-Sound_example = decide-Sound sample_document "rules.yaml" "+46123" sample-IsChecked

select_rule-least_example :
    Memᴰ route_rule sample_document.rules
    × Matches "+46123" route_rule
    × ((q : RoutingRule)
        → Memᴰ q sample_document.rules
        → Matches "+46123" q
        → key_le (rule_key route_rule) (rule_key q) ≡ true)
select_rule-least_example = select_rule-least sample_document "rules.yaml" "+46123" select-route

sample_unique : check_ids [] sample_document.rules ≡ ok tt
unfolding check_ids
sample_unique = refl

turned : (r : RoutingRule) → Memᴰ r sample_document.rules → Memᴰ r turned_document.rules
turned r (Memᴰ.head e) = Memᴰ.tail (Memᴰ.head e)
turned r (Memᴰ.tail (Memᴰ.head e)) = Memᴰ.head e
turned r (Memᴰ.tail (Memᴰ.tail m)) = elim m [ ]

turned_back : (r : RoutingRule) → Memᴰ r turned_document.rules → Memᴰ r sample_document.rules
turned_back r (Memᴰ.head e) = Memᴰ.tail (Memᴰ.head e)
turned_back r (Memᴰ.tail (Memᴰ.head e)) = Memᴰ.head e
turned_back r (Memᴰ.tail (Memᴰ.tail m)) = elim m [ ]

select_rule-order_example :
    select_rule (make_rule_set sample_document "a") "+46900"
    ≡ select_rule (make_rule_set turned_document "b") "+46900"
select_rule-order_example =
    select_rule-order sample_document turned_document "a" "b" "+46900" sample_unique
      (λ r. (turned r, turned_back r))

core-known : str_mem "core" (hop_names sample_document) ≡ true
core-known = refl

zero_ne : to_national.prepend <> "123" ≢ ""
zero_ne = λ e. cc

plus_ne : to_national.strip_prefix <> "123" ≢ ""
plus_ne = λ e. cc

abbrev strip_only : NumberTranslation
strip_only = record to_national { prepend = "" }

abbrev to_e164 : NumberTranslation
to_e164 = record { to_format = NumberFormat.e164; strip_prefix = "0"; prepend = "+46" }

translated-e164 : apply_translation "0123" to_e164 ≡ ok "+46123"
unfolding apply_translation strip prepend_digits
translated-e164 = refl

abbrev started : Store RuleSet
started = record { path = "rules.yaml"; current = rules; fingerprint = some (4, 1) }

starts : make_rule_set_store sample_parser (disk "good" 1) (disk "good" 1) "rules.yaml" ≡ ok started
unfolding make_rule_set_store load_rule_set check_document make_store
starts = refl

abbrev edits : List (Disk × Disk)
edits = (disk "broken" 2, disk "broken" 2) ∷ (disk "turned" 3, disk "turned" 4) ∷ []

abbrev in_force : RuleSet
in_force = (polls (load_rule_set sample_parser) edits started).current

decide-Sound_after_polls_example :
    Sound in_force.document in_force.source "+46900" (decide in_force "+46900")
decide-Sound_after_polls_example =
    decide-Sound_after_polls sample_parser (disk "good" 1) (disk "good" 1) "rules.yaml" started
      edits "+46900" starts
