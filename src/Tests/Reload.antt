-- ===== src/Tests/Reload.antt =====
-- Runs of the reloading stores (src/as_app/routing/rules.py and src/anti_fraud_as/screening_data.py).
use rdparty_as_poc.Prelude.{
  String, ◌≡◌, refl, ◌≢◌, false, none, some, List, [], ◌∷◌, Result, ok, err, str_eq, if◌then◌else◌,
}
use rdparty_as_poc.Errors.{AsError, Exception, Code, AsErrorCode}
use rdparty_as_poc.Reload.{Disk, Store, make_store, maybe_reload, activate}
use rdparty_as_poc.Reload.Laws.{make_store-stale}
use rdparty_as_poc.Tests.Samples.{disk}

abbrev parse_error : AsError
parse_error = record {
  code = Code.routing AsErrorCode.rule_parse_error;
  detail = "broken";
  call_id = none;
  context = [];
}

-- A loader that keeps the text of the file, unless it is broken.
abbrev load : Disk → String → Result Exception String
load d path = elim (d.read_text path) [
  | ok text ↦ if str_eq text "broken" then err (Exception.as_error parse_error) else ok text
  | err e ↦ err (Exception.as_error parse_error)
]

abbrev started : Store String
started = record { path = "f"; current = "one"; fingerprint = some (4, 1) }

broken-err :
    (maybe_reload load (disk "broken" 2) (disk "broken" 2) started).0
    ≡ err (Exception.as_error parse_error)
unfolding maybe_reload activate
broken-err = refl

abbrev failures : List (Disk × Disk)
failures = (disk "broken" 2, disk "broken" 2) ∷ []

newer : (disk "two" 3).stat started.path ≢ started.fingerprint
newer = λ e. cc

edited : (disk "one" 2).stat started.path ≢ (disk "two" 3).stat started.path
edited = λ e. cc

made : make_store load (disk "one" 0) (disk "two" 1) "f" ≡ ok started
unfolding make_store
made = refl

make_store-stale_example :
    (load (disk "one" 0) "f" ≡ ok started.current)
    × (maybe_reload load (disk "two" 1) (disk "two" 1) started ≡ (ok false, started))
make_store-stale_example = make_store-stale load (disk "one" 0) (disk "two" 1) "f" made
