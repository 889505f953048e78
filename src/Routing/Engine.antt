-- ===== src/Routing/Engine.antt =====
-- src/as_app/routing/engine.py: number translation and the routing decision, pure functions.
pub mod Select
pub mod Translation
pub mod Decision
use Prim.Native.String.{count}
use rdparty_as_poc.Prelude.{
  ℕ, String, ◌<>◌, ◌≡◌, refl, Bool, true, false, not, ◌&&◌, Option, none, some, List, [], ◌∷◌, ltb,
  if◌then◌else◌, is_empty, any, find?, str_eq, str_mem, starts_with, remove_prefix, Result, ok, err,
  ◌>>=◌,
}
use rdparty_as_poc.Errors.{AsError, Code, AsErrorCode, as_member}
use rdparty_as_poc.Routing.Rules.{
  NumberFormat, NumberTranslation, MatchCriteria, RuleAction, RoutingRule, NextHop, RuleSet,
  next_hops_for,
}

pub data Disposition : Type 0 where
  route reject no_match : Disposition

pub record RoutingDecision : Type 0 where
  pub disposition : Disposition
  pub called_number : String
  pub translated_number : Option String
  pub rule_id : Option String
  pub source_format : Option NumberFormat
  pub target_format : Option NumberFormat
  pub next_hops : List NextHop
  pub sip_status : Option ℕ
  pub error_code : Option String
  pub reason : String

-- The defaults of the dataclass, over the two fields that have none.
abbrev pub blank : Disposition → String → RoutingDecision
blank d number = record {
  disposition = d;
  called_number = number;
  translated_number = none;
  rule_id = none;
  source_format = none;
  target_format = none;
  next_hops = [];
  sip_status = none;
  error_code = none;
  reason = "";
}

unfoldable pub classify_number_format : String → NumberFormat
classify_number_format number =
    if starts_with number "+"
    then NumberFormat.e164
    else (if starts_with number "00"
        then NumberFormat.international
        else (if starts_with number "0" && ltb 1 (count number)
            then NumberFormat.national
            else NumberFormat.short_code))

-- `translation.strip_prefix and result.startswith(…)`, and the slice behind the prefix.
unfoldable pub strip : String → String → String
strip prefix number =
    if not (str_eq prefix "") && starts_with number prefix
    then remove_prefix prefix number
    else number

-- `if translation.prepend: result = …`
unfoldable pub prepend_digits : String → String → String
prepend_digits prepend result = if str_eq prepend "" then result else prepend <> result

abbrev pub translation_failed : String → AsError
translation_failed number = record {
  code = Code.routing AsErrorCode.route_translation_failed;
  detail = "translation produced an empty number for " <> number;
  call_id = none;
  context = ("called_number", number) ∷ [];
}

unfoldable pub apply_translation : String → NumberTranslation → Result AsError String
apply_translation number t =
    let result = prepend_digits t.prepend (strip t.strip_prefix number) in
    if str_eq result "" then err (translation_failed number) else ok result

abbrev pub same_format : NumberFormat → NumberFormat → Bool
same_format NumberFormat.e164 NumberFormat.e164 = true
same_format NumberFormat.national NumberFormat.national = true
same_format NumberFormat.short_code NumberFormat.short_code = true
same_format NumberFormat.international NumberFormat.international = true
same_format _ _ = false

-- `criteria.number_format is not None and criteria.number_format != number_format`
abbrev pub wrong_format : Option NumberFormat → NumberFormat → Bool
wrong_format none f = false
wrong_format (some g) f = not (same_format g f)

-- `criteria.number_format == number_format`, where the criterion may be `None`
abbrev pub is_format : Option NumberFormat → NumberFormat → Bool
is_format none f = false
is_format (some g) f = same_format g f

unfoldable pub rule_matches : RoutingRule → String → NumberFormat → Bool
rule_matches rule number f =
    if not rule.enabled
    then false
    else (if wrong_format rule.criteria.number_format f
        then false
        else (if not (is_empty rule.criteria.called_numbers)
            then str_mem number rule.criteria.called_numbers
            else (if not (is_empty rule.criteria.called_prefixes)
                then any (λ p. starts_with number p) rule.criteria.called_prefixes
                else is_format rule.criteria.number_format f)))

unfoldable pub select_rule : RuleSet → String → Option RoutingRule
select_rule s number =
    let f = classify_number_format number in find? (λ r. rule_matches r number f) s.ordered

-- The branches of `decide` for a rule that matched, by the kind of its action.
unfoldable pub decide_action :
    RuleSet → String → NumberFormat → RoutingRule → RuleAction → Result AsError RoutingDecision
decide_action s number f rule (RuleAction.reject a) = ok (record (blank Disposition.reject number) {
  rule_id = some rule.rule_id;
  source_format = some f;
  sip_status = some a.status;
  error_code = some a.error_code;
  reason = a.reason;
})
decide_action s number f rule (RuleAction.route a) =
    apply_translation number a.translate >>= λ translated. next_hops_for s rule.action >>= λ hops.
    ok (record (blank Disposition.route number) {
      translated_number = some translated;
      rule_id = some rule.rule_id;
      source_format = some f;
      target_format = some a.translate.to_format;
      next_hops = hops;
      reason = rule.description;
    })

-- The rest of `decide`, over the rule that was selected.
unfoldable pub decide_selected :
    RuleSet → String → NumberFormat → Option RoutingRule → Result AsError RoutingDecision
decide_selected s number f none = ok (record (blank Disposition.no_match number) {
  source_format = some f;
  sip_status = some (as_member AsErrorCode.route_no_match).sip_status;
  error_code = some (as_member AsErrorCode.route_no_match).code;
  reason = (as_member AsErrorCode.route_no_match).message;
})
decide_selected s number f (some rule) = decide_action s number f rule rule.action

unfoldable pub decide : RuleSet → String → Result AsError RoutingDecision
decide s number = decide_selected s number (classify_number_format number) (select_rule s number)
