-- ===== src/Routing/Rules/Validation.antt =====
-- What a document that passed its validators guarantees (src/as_app/routing/rules.py).
use mathlib.Core.Bool.{false≢true}
use mathlib.Core.List.{Memᴰ}
use rdparty_as_poc.Prelude.{
  ◌≤◌, String, ◌≡◌, sym, ◌∙◌, ap, ◌≢◌, true, false, not, List, [], ◌∷◌, arith, All, inl, inr,
  Bool-cases, str_mem, Memᴰ-str_mem, filter, is_empty, ok,
}
use rdparty_as_poc.Routing.Rules.{
  RoutingRule, RoutingRulesDocument, RuleAction, check_ids, check_hops, check_rules, check_action,
  check_document, validate_references, missing_hops, hop_names,
}

-- No later rule has an identifier that was seen before.
check_ids-fresh :
    (seen : List String) (rs : List RoutingRule)
    → check_ids seen rs ≡ ok tt
    → {a : RoutingRule} → Memᴰ a rs
    → str_mem a.rule_id seen ≡ false
unfolding check_ids
check_ids-fresh seen [] h m = elim m [ ]
check_ids-fresh seen (r ∷ rs) h (Memᴰ.head e) = rw e (ground arith)
check_ids-fresh seen (r ∷ rs) h {a} (Memᴰ.tail m) = elim (Bool-cases (str_mem r.rule_id seen)) [
  | inl old ↦ cc
  | inr new ↦ ground (arith, check_ids-fresh (r.rule_id ∷ seen) rs (rw new at h) m)
]

check_ids-tail :
    (seen : List String) (r : RoutingRule) (rs : List RoutingRule)
    → check_ids seen (r ∷ rs) ≡ ok tt
    → check_ids (r.rule_id ∷ seen) rs ≡ ok tt
unfolding check_ids
check_ids-tail seen r rs h = ground arith

check_ids-ne :
    (seen : List String) (r : RoutingRule) (rs : List RoutingRule)
    → check_ids seen (r ∷ rs) ≡ ok tt
    → {a : RoutingRule} → Memᴰ a rs
    → r.rule_id ≢ a.rule_id
check_ids-ne seen r rs h {a} m e =
    let fresh = check_ids-fresh (r.rule_id ∷ seen) rs (check_ids-tail seen r rs h) m in
    false≢true (sym fresh ∙ Memᴰ-str_mem a.rule_id (r.rule_id ∷ seen) (Memᴰ.head (sym e)))

-- Two rules of a document that passed are one rule if they share an identifier.
pub check_ids_unique :
    (seen : List String) (rs : List RoutingRule)
    → check_ids seen rs ≡ ok tt
    → {a b : RoutingRule} → Memᴰ a rs
    → Memᴰ b rs
    → a.rule_id ≡ b.rule_id
    → a ≡ b
check_ids_unique seen [] h m n e = elim m [ ]
check_ids_unique seen (r ∷ rs) h (Memᴰ.head p) (Memᴰ.head q) e = p ∙ sym q
check_ids_unique seen (r ∷ rs) h (Memᴰ.head p) (Memᴰ.tail n) e =
    absurd (check_ids-ne seen r rs h n (ap (λ (c : RoutingRule). c.rule_id) (sym p) ∙ e))
check_ids_unique seen (r ∷ rs) h (Memᴰ.tail m) (Memᴰ.head q) e =
    absurd (check_ids-ne seen r rs h m (ap (λ (c : RoutingRule). c.rule_id) (sym q) ∙ sym e))
check_ids_unique seen (r ∷ rs) h (Memᴰ.tail m) (Memᴰ.tail n) e =
    check_ids_unique (r.rule_id ∷ seen) rs (check_ids-tail seen r rs h) m n e

-- Every hop that an action names stands in the catalogue.
abbrev pub NamesKnown : List String → RuleAction → Type 0
NamesKnown catalogue (RuleAction.route a) = All (λ n. str_mem n catalogue ≡ true) a.next_hops
NamesKnown catalogue (RuleAction.reject a) = Unit

-- A route action names a hop, and the status of a rejection lies in its range.
abbrev pub InBounds : RuleAction → Type 0
InBounds (RuleAction.route a) = a.next_hops ≢ []
InBounds (RuleAction.reject a) = (300 ≤ a.status) × (a.status ≤ 699)

none_missing :
    (catalogue ns : List String)
    → is_empty (filter (λ n. not (str_mem n catalogue)) ns) ≡ true
    → All (λ n. str_mem n catalogue ≡ true) ns
none_missing catalogue [] h = tt
none_missing catalogue (n ∷ ns) h = elim (Bool-cases (str_mem n catalogue)) [
  | inl known ↦ (known, none_missing catalogue ns (rw known at h))
  | inr unknown ↦ absurd (false≢true (rw unknown at h))
]

missing_hops-NamesKnown :
    (catalogue : List String) (a : RuleAction)
    → is_empty (missing_hops catalogue a) ≡ true
    → NamesKnown catalogue a
missing_hops-NamesKnown catalogue (RuleAction.route a) h = none_missing catalogue a.next_hops h
missing_hops-NamesKnown catalogue (RuleAction.reject a) h = tt

pub check_hops-NamesKnown :
    (catalogue : List String) (rs : List RoutingRule)
    → check_hops catalogue rs ≡ ok tt
    → All (λ (r : RoutingRule). NamesKnown catalogue r.action) rs
unfolding check_hops
check_hops-NamesKnown catalogue [] h = tt
check_hops-NamesKnown catalogue (r ∷ rs) h =
    elim (Bool-cases (is_empty (missing_hops catalogue r.action))) [
      | inl known ↦ (
        missing_hops-NamesKnown catalogue r.action known,
        check_hops-NamesKnown catalogue rs (rw known at h),
      )
      | inr unknown ↦ cc (rw unknown at h)
    ]

check_action-InBounds : (a : RuleAction) → check_action a ≡ ok tt → InBounds a
unfolding check_action
check_action-InBounds (RuleAction.route a) h = ground arith
check_action-InBounds (RuleAction.reject a) h = ground arith

pub check_rules-InBounds :
    (rs : List RoutingRule)
    → check_rules rs ≡ ok tt
    → All (λ (r : RoutingRule). InBounds r.action) rs
unfolding check_rules
check_rules-InBounds [] h = tt
check_rules-InBounds (r ∷ rs) h =
    ground (arith, check_action-InBounds r.action, check_rules-InBounds rs)

-- A document that `check_document` lets pass.
abbrev pub IsChecked : RoutingRulesDocument → Type 0
IsChecked d = check_document d ≡ ok d

pub IsChecked-parts :
    (d : RoutingRulesDocument)
    → IsChecked d
    → (check_ids [] d.rules ≡ ok tt)
      × (check_hops (hop_names d) d.rules ≡ ok tt)
      × (check_rules d.rules ≡ ok tt)
unfolding check_document validate_references
IsChecked-parts d h = ground arith
