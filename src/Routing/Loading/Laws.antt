-- ===== src/Routing/Loading/Laws.antt =====
-- The rule set in force was checked, whatever happens to the file (src/as_app/routing/rules.py).
use rdparty_as_poc.Prelude.{
  String, ◌≡◌, refl, sym, subst, List, arith, ok, ok-injective, >>=-eq-ok, map_err-eq-ok, ◌>>=◌,
  map_err,
}
use rdparty_as_poc.Reload.{Disk, Store}
use rdparty_as_poc.Reload.Laws.{polls, polls-inv, make_store-stale}
use rdparty_as_poc.Routing.Rules.{RoutingRulesDocument, RuleSet, make_rule_set, check_document}
use rdparty_as_poc.Routing.Rules.Validation.{IsChecked}
use rdparty_as_poc.Routing.Engine.{decide}
use rdparty_as_poc.Routing.Engine.Decision.{Sound, decide-Sound}
use rdparty_as_poc.Routing.Loading.{Parser, load_rule_set, make_rule_set_store}

-- A rule set that was built from a document that passed its validators.
abbrev pub IsLoaded : RuleSet → Type 0
IsLoaded s = (IsChecked s.document) × (s ≡ make_rule_set s.document s.source)

check_document-eq : (d d' : RoutingRulesDocument) → check_document d ≡ ok d' → d ≡ d'
unfolding check_document
check_document-eq d d' h = ground arith

module _ (p : Parser RoutingRulesDocument) where
  load_rule_set-IsLoaded :
      (disk : Disk) (path : String) (s : RuleSet) → load_rule_set p disk path ≡ ok s → IsLoaded s
  unfolding load_rule_set make_rule_set
  load_rule_set-IsLoaded disk path s h =
      let (raw, _, h₁) = >>=-eq-ok (map_err _ (disk.read_text path)) _ h in
      let (parsed, _, h₂) = >>=-eq-ok (map_err _ (p.safe_load raw)) _ h₁ in
      let (d, checked, h₃) = >>=-eq-ok (map_err _ (p.read_fields parsed >>= check_document)) _ h₂ in
      let (f, _, valid) =
        >>=-eq-ok (p.read_fields parsed) check_document (map_err-eq-ok _ _ checked) in
      let same : check_document d ≡ ok d =
        subst (λ c. check_document c ≡ ok d) (check_document-eq f d valid) valid in
      subst IsLoaded (ok-injective h₃) (same, refl)

  make_rule_set_store-IsLoaded :
      (a b : Disk) (path : String) (s : Store RuleSet)
      → make_rule_set_store p a b path ≡ ok s
      → IsLoaded s.current
  unfolding make_rule_set_store
  make_rule_set_store-IsLoaded a b path s made =
      load_rule_set-IsLoaded a path s.current (make_store-stale (load_rule_set p) a b path made).0

  -- From a start that succeeded, and after any polls with any edits between them and inside them, the
  -- decision on each number is sound for the document then in force: an error only by an empty
  -- translation, a route with a translated number and some of the document's hops, best first, a
  -- rejection with a status from 300 to 699 by the document's reject rule that is selected, with the
  -- rule's reason, or 404 where no rule matches.
  pub decide-Sound_after_polls :
      (a b : Disk) (path : String) (s : Store RuleSet) (edits : List (Disk × Disk))
      (number : String)
      → make_rule_set_store p a b path ≡ ok s
      → let now = (polls (load_rule_set p) edits s).current in
        Sound now.document now.source number (decide now number)
  decide-Sound_after_polls a b path s edits number made =
      let now = (polls (load_rule_set p) edits s).current in
      let (checked, built) =
        polls-inv (load_rule_set p) IsLoaded load_rule_set-IsLoaded edits s
          (make_rule_set_store-IsLoaded a b path s made) in
      subst (λ c. Sound now.document now.source number (decide c number)) (sym built)
        (decide-Sound now.document now.source number checked)
