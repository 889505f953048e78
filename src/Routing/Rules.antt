-- ===== src/Routing/Rules.antt =====
-- src/as_app/routing/rules.py: the rules document, its validators, and the loaded rule set.
pub mod Validation
pub mod Catalogue
use rdparty_as_poc.Prelude.{
  ℕ, String, ◌<>◌, Bool, true, false, not, ◌&&◌, Option, none, some, List, [], ◌∷◌, map, foldl, leb,
  if◌then◌else◌, is_some, is_empty, filter, find?, str_mem, Result, ok, err, ◌>>=◌, ◌>>◌,
}
use rdparty_as_poc.Prelude.Dict.{Dict, lookup, insert}
use rdparty_as_poc.Prelude.Sort.{sort_by}
use rdparty_as_poc.Errors.{AsError, Code, AsErrorCode, as_member}

pub data NumberFormat : Type 0 where
  e164 national short_code international : NumberFormat

pub record NumberTranslation : Type 0 where
  pub to_format : NumberFormat
  pub strip_prefix : String
  pub prepend : String

pub record MatchCriteria : Type 0 where
  pub called_prefixes : List String
  pub called_numbers : List String
  pub number_format : Option NumberFormat
  pub description : String

pub record RouteAction : Type 0 where
  pub translate : NumberTranslation
  pub next_hops : List String

pub record RejectAction : Type 0 where
  pub status : ℕ
  pub reason : String
  pub error_code : String

-- The defaults of the three fields.
abbrev pub default_reject : RejectAction
default_reject = record {
  status = 603;
  reason = "rejected by routing policy";
  error_code = (as_member AsErrorCode.route_rejected).code;
}

-- The union discriminated by `kind`.
pub data RuleAction : Type 0 where
  route : RouteAction → RuleAction
  reject : RejectAction → RuleAction

pub record RoutingRule : Type 0 where
  pub rule_id : String
  pub priority : ℕ
  pub description : String
  pub enabled : Bool
  pub criteria : MatchCriteria
  pub action : RuleAction
  pub tags : List String

-- `as_platform.hop.NextHop`, with the fields that docs/architecture/lld.md lists.
pub record NextHop : Type 0 where
  pub name : String
  pub address : String
  pub port : ℕ
  pub priority : ℕ
  pub description : String

pub record RoutingRulesDocument : Type 0 where
  pub name : String
  pub description : String
  pub next_hops : List NextHop
  pub rules : List RoutingRule

-- `MatchCriteria._require_condition`
unfoldable pub require_condition : MatchCriteria → Result String (Unit {0})
require_condition c =
    if is_empty c.called_prefixes && (is_empty c.called_numbers && not (is_some c.number_format))
    then err "a match block needs called_prefixes, called_numbers or number_format"
    else ok tt

-- The field constraints of an action: `min_length=1`, and `ge=300, le=699`.
unfoldable pub check_action : RuleAction → Result String (Unit {0})
check_action (route a) = if is_empty a.next_hops then err "next_hops: at least 1 item" else ok tt
check_action (reject a) =
    if leb 300 a.status && leb a.status 699 then ok tt else err "status: not in 300..699"

unfoldable pub check_rules : List RoutingRule → Result String (Unit {0})
unfolding require_condition check_action
check_rules [] = ok tt
check_rules (r ∷ rs) = require_condition r.criteria >> (check_action r.action >> check_rules rs)

-- The first loop of `_validate_references`, with the identifiers seen so far.
unfoldable pub check_ids : List String → List RoutingRule → Result String (Unit {0})
check_ids seen [] = ok tt
check_ids seen (r ∷ rs) =
    let rest = check_ids (r.rule_id ∷ seen) rs in
    if str_mem r.rule_id seen then err ("duplicate rule identifier: " <> r.rule_id) else rest

-- `set(rule.action.next_hops) - catalogue`
abbrev pub missing_hops : List String → RuleAction → List String
missing_hops catalogue (route a) = filter (λ n. not (str_mem n catalogue)) a.next_hops
missing_hops catalogue (reject a) = []

-- The second loop of `_validate_references`. The text of the error leaves out the list of what is missing.
unfoldable pub check_hops : List String → List RoutingRule → Result String (Unit {0})
check_hops catalogue [] = ok tt
check_hops catalogue (r ∷ rs) =
    let rest = check_hops catalogue rs in
    if is_empty (missing_hops catalogue r.action)
    then rest
    else err ("rule " <> r.rule_id <> " references unknown next hops")

abbrev pub hop_names : RoutingRulesDocument → List String
hop_names d = map (λ (h : NextHop). h.name) d.next_hops

unfoldable pub validate_references : RoutingRulesDocument → Result String (Unit {0})
unfolding check_ids check_hops
validate_references d = check_ids [] d.rules >> check_hops (hop_names d) d.rules

-- All that `RoutingRulesDocument.model_validate` checks of a document whose fields have been read.
unfoldable pub check_document : RoutingRulesDocument → Result String RoutingRulesDocument
unfolding check_rules validate_references
check_document d =
    if is_empty d.next_hops
    then err "next_hops: at least 1 item"
    else (if is_empty d.rules
        then err "rules: at least 1 item"
        else check_rules d.rules >> (validate_references d >> ok d))

-- `class RuleSet`, with what its constructor computes.
pub record RuleSet : Type 0 where
  pub document : RoutingRulesDocument
  pub source : String
  pub hops : Dict NextHop
  pub ordered : List RoutingRule

abbrev pub rule_key : RoutingRule → ℕ × String
rule_key r = (r.priority, r.rule_id)

abbrev pub hop_key : NextHop → ℕ × String
hop_key h = (h.priority, h.name)

-- `{hop.name: hop for hop in …}`: a later hop of the same name replaces an earlier one.
abbrev pub add_hop : Dict NextHop → NextHop → Dict NextHop
add_hop d h = insert h.name h d

unfoldable pub catalogue_of : List NextHop → Dict NextHop
catalogue_of = foldl add_hop []

-- `RuleSet.__init__`
unfoldable pub make_rule_set : RoutingRulesDocument → String → RuleSet
unfolding catalogue_of
make_rule_set d source = record {
  document = d;
  source = source;
  hops = catalogue_of d.next_hops;
  ordered = sort_by rule_key (filter (λ (r : RoutingRule). r.enabled) d.rules);
}

-- `RuleSet.next_hop`
unfoldable pub next_hop : RuleSet → String → Result AsError NextHop
unfolding lookup
next_hop s name = elim (lookup name s.hops) [
  | some h ↦ ok h
  | none ↦ err (record {
    code = Code.routing AsErrorCode.route_no_next_hop;
    detail = "unknown next hop: " <> name;
    call_id = none;
    context = ("next_hop", name) ∷ [];
  })
]

-- `[self.next_hop(name) for name in …]`, which stops at the first name that raises.
unfoldable pub resolve : RuleSet → List String → Result AsError (List NextHop)
unfolding next_hop
resolve s [] = ok []
resolve s (n ∷ ns) = next_hop s n >>= λ h. resolve s ns >>= λ hs. ok (h ∷ hs)

-- `RuleSet.next_hops_for`
unfoldable pub next_hops_for : RuleSet → RuleAction → Result AsError (List NextHop)
unfolding resolve
next_hops_for s (reject a) = ok []
next_hops_for s (route a) = resolve s a.next_hops >>= λ hs. ok (sort_by hop_key hs)
