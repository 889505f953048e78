-- ===== src/Routing/Engine/Decision.antt =====
-- What `decide` returns for a rules document that passed its validators
-- (src/as_app/routing/engine.py over src/as_app/routing/rules.py).
use mathlib.Core.List.{Memᴰ}
use rdparty_as_poc.Prelude.{
  ℕ, ◌≤◌, String, ◌≡◌, refl, ◌≢◌, false, true, Option, none, some, List, [], ◌∷◌, arith, All,
  All-Memᴰ, inl, inr, Result-cases, Result, ok, err,
}
use rdparty_as_poc.Prelude.Sort.{IsSorted, sort_by, sort_by-IsSorted, sort_by-Memᴰ, Memᴰ-sort_by}
use rdparty_as_poc.Errors.{AsError}
use rdparty_as_poc.Routing.Rules.{
  RuleAction, RouteAction, RejectAction, NumberTranslation, hop_names, RoutingRule,
  RoutingRulesDocument, NextHop, make_rule_set, hop_key, next_hops_for,
}
use rdparty_as_poc.Routing.Rules.Validation.{
  IsChecked, IsChecked-parts, NamesKnown, InBounds, check_hops-NamesKnown, check_rules-InBounds,
}
use rdparty_as_poc.Routing.Rules.Catalogue.{Resolved, resolve-known}
use rdparty_as_poc.Routing.Engine.{
  Disposition, RoutingDecision, classify_number_format, rule_matches, select_rule, decide_action,
  decide_selected, decide, apply_translation, translation_failed,
}
use rdparty_as_poc.Routing.Engine.Select.{select_rule-least, select_rule-eq-none}
use rdparty_as_poc.Routing.Engine.Translation.{apply_translation-ne-nil}

module _ (d : RoutingRulesDocument) (source : String) where
  Resolved-Memᴰ :
      (ns : List String) (hs : List NextHop) {h : NextHop}
      → Resolved d source ns hs
      → Memᴰ h hs
      → Memᴰ h d.next_hops
  Resolved-Memᴰ ns [] r m = elim m [ ]
  Resolved-Memᴰ [] (g ∷ hs) r m = absurd r
  Resolved-Memᴰ (n ∷ ns) (g ∷ hs) r (Memᴰ.head e) = rw e r.1
  Resolved-Memᴰ (n ∷ ns) (g ∷ hs) r (Memᴰ.tail m) = Resolved-Memᴰ ns hs r.2 m

  Resolved-ne-nil :
      (ns : List String) (hs : List NextHop) → Resolved d source ns hs → ns ≢ [] → hs ≢ []
  Resolved-ne-nil [] hs r ne = absurd (ne refl)
  Resolved-ne-nil (n ∷ ns) [] r ne = absurd r
  Resolved-ne-nil (n ∷ ns) (h ∷ hs) r ne = cc

  -- The hops of a route: some, all from the catalogue, best first.
  abbrev pub GoodHops : List NextHop → Type 0
  GoodHops hs = (hs ≢ []) × IsSorted hop_key hs × ((h : NextHop) → Memᴰ h hs → Memᴰ h d.next_hops)

  sort_by-ne-nil : (hs : List NextHop) → hs ≢ [] → sort_by hop_key hs ≢ []
  sort_by-ne-nil [] ne e = absurd (ne refl)
  sort_by-ne-nil (h ∷ hs) ne e = elim (rw e at (Memᴰ-sort_by hop_key (h ∷ hs) (Memᴰ.head refl))) [ ]

  -- The hops that a checked action names resolve.
  next_hops_for-GoodHops :
      (a : RouteAction)
      → NamesKnown (hop_names d) (RuleAction.route a)
      → InBounds (RuleAction.route a)
      → (hs : List NextHop) × (next_hops_for (make_rule_set d source) (RuleAction.route a) ≡ ok hs)
        × GoodHops hs
  unfolding next_hops_for
  next_hops_for-GoodHops a known bound =
      let (hs, found, r) = resolve-known d source a.next_hops known in
      (
        sort_by hop_key hs,
        rw found,
        (
          sort_by-ne-nil hs (Resolved-ne-nil a.next_hops hs r bound),
          sort_by-IsSorted hop_key hs,
          λ h m. Resolved-Memᴰ a.next_hops hs r (sort_by-Memᴰ hop_key hs m),
        ),
      )

  -- The reject rule that a decision comes from: the one of the document's rules that is selected, whose
  -- status, error code and reason the decision carries under the rule's identifier.
  pub record RejectedBy (number : String) (c : RoutingDecision) : Type 0 where
    pub rule : RoutingRule
    pub action : RejectAction
    pub member : Memᴰ rule d.rules
    pub matches : rule_matches rule number (classify_number_format number) ≡ true
    pub selected : select_rule (make_rule_set d source) number ≡ some rule
    pub rejects : rule.action ≡ RuleAction.reject action
    pub names : c.rule_id ≡ some rule.rule_id
    pub status : c.sip_status ≡ some action.status
    pub code : c.error_code ≡ some action.error_code
    pub reason : c.reason ≡ action.reason

  -- What a decision carries, by its disposition.
  abbrev pub SoundFor : Disposition → String → RoutingDecision → Type 0
  SoundFor Disposition.route number c =
      (c.error_code ≡ none)
      × (c.sip_status ≡ none)
      × ((n : String) × (c.translated_number ≡ some n) × (n ≢ ""))
      × GoodHops c.next_hops
  SoundFor Disposition.reject number c =
      (c.next_hops ≡ [])
      × (c.translated_number ≡ none)
      × ((s : ℕ) × (c.sip_status ≡ some s) × (300 ≤ s) × (s ≤ 699))
      × RejectedBy number c
  SoundFor Disposition.no_match number c =
      (c.next_hops ≡ [])
      × (c.sip_status ≡ some 404)
      × (c.error_code ≡ some "AS-ROUTE-001")
      × All (λ r. rule_matches r number (classify_number_format number) ≡ false) d.rules

  abbrev pub Sound : String → Result AsError RoutingDecision → Type 0
  Sound number (ok c) = (c.called_number ≡ number) × SoundFor c.disposition number c
  Sound number (err e) = e ≡ translation_failed number

  apply_translation-only_error :
      (number : String) (t : NumberTranslation) (e : AsError)
      → apply_translation number t ≡ err e
      → e ≡ translation_failed number
  unfolding apply_translation
  apply_translation-only_error number t e h = ground arith

  decide_action-Sound :
      (number : String) (rule : RoutingRule) (a : RuleAction)
      → rule.action ≡ a
      → NamesKnown (hop_names d) a
      → InBounds a
      → select_rule (make_rule_set d source) number ≡ some rule
      → Sound number
          (decide_action (make_rule_set d source) number (classify_number_format number) rule a)
  unfolding decide_action
  decide_action-Sound number rule (RuleAction.reject a) e known bound selected =
      let (m, hit, _) = select_rule-least d source number selected in
      (
        refl,
        (
          refl,
          refl,
          (a.status, refl, bound.0, bound.1),
          record {
            rule = rule;
            action = a;
            member = m;
            matches = hit;
            selected = selected;
            rejects = e;
            names = refl;
            status = refl;
            code = refl;
            reason = refl;
          },
        ),
      )
  decide_action-Sound number rule (RuleAction.route a) e known bound selected =
      elim (Result-cases (apply_translation number a.translate)) [
        | inl (n, translated) ↦
            let (hs, found, good) = next_hops_for-GoodHops a known bound in
            rw (translated, e, found)
              (
                refl,
                (
                  refl,
                  refl,
                  (n, refl, apply_translation-ne-nil a.translate number translated),
                  good,
                ),
              )
        | inr (x, failed) ↦ rw failed (apply_translation-only_error number a.translate x failed)
      ]

  decide_selected-Sound :
      (number : String) (selected : Option RoutingRule)
      → IsChecked d
      → select_rule (make_rule_set d source) number ≡ selected
      → Sound number
          (decide_selected (make_rule_set d source) number (classify_number_format number) selected)
  unfolding decide_selected
  decide_selected-Sound number none checked e =
      (refl, (refl, refl, refl, (select_rule-eq-none d source number).0 e))
  decide_selected-Sound number (some r) checked e =
      let (_, hops, bounds) = IsChecked-parts d checked in
      let (m, _, _) = select_rule-least d source number e in
      decide_action-Sound number r r.action refl
        (All-Memᴰ (λ (q : RoutingRule). NamesKnown (hop_names d) q.action)
          (check_hops-NamesKnown (hop_names d) d.rules hops) m)
        (All-Memᴰ (λ (q : RoutingRule). InBounds q.action) (check_rules-InBounds d.rules bounds) m)
        e

  -- For a document that passed its validators `decide` fails in one way only, by an empty
  -- translation; otherwise it keeps the number, and a route has a translated number that is not
  -- empty and at least one hop, all from the catalogue, best first, and no error; a rejection has a
  -- status from 300 to 699 and no hop, and it carries the identifier, the status, the error code and the
  -- reason of the reject rule of the document that matches and is selected; and with no rule that matches the answer is 404,
  -- `AS-ROUTE-001`.
  pub decide-Sound :
      (number : String) → IsChecked d → Sound number (decide (make_rule_set d source) number)
  unfolding decide
  decide-Sound number checked = decide_selected-Sound number _ checked refl
