-- ===== src/Routing/Loading.antt =====
-- `load_rule_set` and `RuleSetStore` (src/as_app/routing/rules.py): the rules file from its text to
-- the rule set in force.
pub mod Laws
use rdparty_as_poc.Prelude.{String, ◌<>◌, Bool, none, [], ◌∷◌, Result, ok, err, ◌>>=◌, map_err}
use rdparty_as_poc.Errors.{AsError, Exception, Raised, raise_from, Code, AsErrorCode}
use rdparty_as_poc.Reload.{Disk, Store, make_store, maybe_reload}
use rdparty_as_poc.Routing.Rules.{RoutingRulesDocument, RuleSet, make_rule_set, check_document}

-- The libraries between a text and a document: `yaml.safe_load`, where a `YAMLError` is caught and another
-- exception is not, and what pydantic does to read the fields of `D` from the parsed value, where every
-- exception is caught, with its text.
pub record Parser (D : Type 0) : Type 1 where
  pub Parsed : Type 0
  pub safe_load : String → Result Raised Parsed
  pub read_fields : Parsed → Result String D

-- An error about a file, raised from the exception below it.
abbrev pub file_error : Code → String → String → String → String → AsError
file_error code what key path exc = record {
  code = code;
  detail = what <> exc;
  call_id = none;
  context = (key, path) ∷ [];
}

abbrev rules_error : AsErrorCode → String → String → String → AsError
rules_error code what = file_error (Code.routing code) what "rules_file"

module _ (p : Parser RoutingRulesDocument) where
  unfoldable pub load_rule_set : Disk → String → Result Exception RuleSet
  load_rule_set disk path =
      map_err
        (raise_from
          (rules_error AsErrorCode.rule_file_unreadable "cannot read routing rules: " path))
        (disk.read_text path)
      >>= λ raw.
          map_err
            (raise_from
              (rules_error AsErrorCode.rule_parse_error "routing rules are not valid YAML: " path))
            (p.safe_load raw)
          >>= λ parsed.
              map_err
                (λ exc. Exception.as_error (
                  rules_error AsErrorCode.rule_schema_error "routing rules violate the schema: "
                    path exc))
                (p.read_fields parsed >>= check_document)
              >>= λ document. ok (make_rule_set document path)

  -- `RuleSetStore.__init__`
  unfoldable pub make_rule_set_store : Disk → Disk → String → Result Exception (Store RuleSet)
  make_rule_set_store = make_store load_rule_set

  -- `RuleSetStore.maybe_reload`
  unfoldable pub maybe_reload_rules :
      Disk → Disk → Store RuleSet → Result Exception Bool × Store RuleSet
  maybe_reload_rules = maybe_reload load_rule_set
