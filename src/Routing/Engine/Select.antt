-- ===== src/Routing/Engine/Select.antt =====
-- Which rule `select_rule` picks (src/as_app/routing/engine.py), described over the rules of the
-- document with no mention of the order in which they are tried.
use mathlib.Core.Bool.{false≢true}
use mathlib.Core.List.{Memᴰ}
use rdparty_as_poc.Prelude.{
  String, ◌≡◌, sym, ◌∙◌, ap, ◌↔◌, true, false, none, some, [], arith, All, All-Memᴰ, All-of_Memᴰ,
  inl, inr, Bool-cases, Option-cases, find?-eq-some, find?-eq-none, filter, Memᴰ-filter,
  filter-Memᴰ, ok,
}
use rdparty_as_poc.Prelude.Sort.{
  key_le, key_le_antisymm, IsSorted, sort_by-IsSorted, sort_by-Memᴰ, Memᴰ-sort_by, find?-least,
}
use rdparty_as_poc.Routing.Rules.{
  RoutingRule, RoutingRulesDocument, make_rule_set, rule_key, check_ids,
}
use rdparty_as_poc.Routing.Rules.Validation.{check_ids_unique}
use rdparty_as_poc.Routing.Engine.{classify_number_format, rule_matches, select_rule}

-- A disabled rule matches nothing.
matches-enabled :
    (r : RoutingRule) (number : String)
    → rule_matches r number (classify_number_format number) ≡ true
    → r.enabled ≡ true
unfolding rule_matches
matches-enabled r number h = ground arith

-- What a rule has to be to be selected for a number.
abbrev pub Matches : String → RoutingRule → Type 0
Matches number r = rule_matches r number (classify_number_format number) ≡ true

module _ (d : RoutingRulesDocument) (source : String) (number : String) where
  Memᴰ-ordered :
      {r : RoutingRule}
      → Matches number r
      → Memᴰ r d.rules
      → Memᴰ r (make_rule_set d source).ordered
  unfolding make_rule_set
  Memᴰ-ordered {r} h m =
      Memᴰ-sort_by rule_key _
        (filter-Memᴰ (λ (q : RoutingRule). q.enabled) d.rules (matches-enabled r number h) m)

  ordered-Memᴰ : {r : RoutingRule} → Memᴰ r (make_rule_set d source).ordered → Memᴰ r d.rules
  unfolding make_rule_set
  ordered-Memᴰ m =
      (Memᴰ-filter (λ (q : RoutingRule). q.enabled) d.rules (sort_by-Memᴰ rule_key _ m)).0

  ordered-IsSorted : IsSorted rule_key (make_rule_set d source).ordered
  unfolding make_rule_set
  ordered-IsSorted = sort_by-IsSorted rule_key (filter (λ (q : RoutingRule). q.enabled) d.rules)

  -- The selected rule stands in the document, matches, and comes first by priority and identifier
  -- among all the rules of the document that match.
  pub select_rule-least :
      {r : RoutingRule}
      → select_rule (make_rule_set d source) number ≡ some r
      → Memᴰ r d.rules
        × Matches number r
        × ((q : RoutingRule)
            → Memᴰ q d.rules
            → Matches number q
            → key_le (rule_key r) (rule_key q) ≡ true)
  unfolding select_rule
  select_rule-least {r} h =
      let hit = λ (q : RoutingRule). rule_matches q number (classify_number_format number) in
      let (m, p) = find?-eq-some hit (make_rule_set d source).ordered h in
      (
        ordered-Memᴰ m,
        p,
        λ q n k. find?-least rule_key hit _ ordered-IsSorted h q (Memᴰ-ordered k n) k,
      )

  -- No rule is selected exactly when none of the document matches.
  pub select_rule-eq-none :
      (select_rule (make_rule_set d source) number ≡ none)
      ↔ All (λ r. rule_matches r number (classify_number_format number) ≡ false) d.rules
  unfolding select_rule
  select_rule-eq-none =
      let hit = λ (q : RoutingRule). rule_matches q number (classify_number_format number) in
      let misses = λ (q : RoutingRule). hit q ≡ false in
      (
        λ h. All-of_Memᴰ d.rules λ r m. elim (Bool-cases (hit r)) [
          | inl k ↦
              let all = find?-eq-none hit (make_rule_set d source).ordered h in
              All-Memᴰ misses all (Memᴰ-ordered k m)
          | inr k ↦ k
        ],
        λ all. elim (Option-cases (select_rule (make_rule_set d source) number)) [
          | inl e ↦ e
          | inr (r, e) ↦
              let (m, k, _) = select_rule-least e in
              absurd (false≢true (sym (All-Memᴰ misses all m) ∙ k))
        ],
      )

module _ (d d' : RoutingRulesDocument) (source source' number : String) where
  -- Two documents with the same rules, whatever their order in the file, select the same rule, where
  -- identifiers are unique.
  pub select_rule-order :
      check_ids [] d.rules ≡ ok tt
      → ((r : RoutingRule) → Memᴰ r d.rules ↔ Memᴰ r d'.rules)
      → select_rule (make_rule_set d source) number ≡ select_rule (make_rule_set d' source') number
  select_rule-order unique same =
      elim (Option-cases (select_rule (make_rule_set d source) number)) [
        | inl e ↦ elim (Option-cases (select_rule (make_rule_set d' source') number)) [
          | inl e' ↦ e ∙ sym e'
          | inr (r', e') ↦
              let (m', k', _) = select_rule-least d' source' number e' in
              let all = (select_rule-eq-none d source number).0 e in
              absurd (false≢true (sym (All-Memᴰ _ all ((same r').1 m')) ∙ k'))
        ]
        | inr (r, e) ↦
            let (m, k, least) = select_rule-least d source number e in
            elim (Option-cases (select_rule (make_rule_set d' source') number)) [
              | inl e' ↦
                  let all = (select_rule-eq-none d' source' number).0 e' in
                  absurd (false≢true (sym (All-Memᴰ _ all ((same r).0 m)) ∙ k))
              | inr (r', e') ↦
                  let (m', k', least') = select_rule-least d' source' number e' in
                  let keys =
                    key_le_antisymm (rule_key r) (rule_key r') (least r' ((same r').1 m') k')
                      (least' r ((same r).0 m) k) in
                  e
                  ∙ ap some (check_ids_unique [] d.rules unique m ((same r').1 m') keys.1)
                  ∙ sym e'
            ]
      ]
