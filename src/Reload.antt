-- ===== src/Reload.antt =====
-- Pull-based reload of a declarative file, the shape that `RuleSetStore` (src/as_app/routing/rules.py)
-- and `ScreeningDataStore` (src/anti_fraud_as/screening_data.py) share.
--
-- The file system and the YAML library are parameters. An operation that touches the disk twice takes
-- the disk as it is at each touch, since an operator may edit the file in between.
pub mod Laws
use mathlib.Core.Logic.{ite, dite}
use native.Mathlib.Decide.{ℕ_discrete}
use rdparty_as_poc.Prelude.{
  ℕ, String, ◌≡◌, Bool, true, false, ◌&&◌, Option, none, some, ◌==◌, if◌then◌else◌, Result, ok, err,
}
use rdparty_as_poc.Errors.{Exception, Raised}

-- What the process sees of the disk: `Path.read_text`, where an `OSError` is caught and another exception,
-- as a `UnicodeDecodeError`, is not, and `os.stat`, with size and modification time.
pub record Disk : Type 0 where
  pub read_text : String → Result Raised String
  pub stat : String → Option (ℕ × ℕ)

abbrev pub Fingerprint : Type 0
Fingerprint = Option (ℕ × ℕ)

abbrev pub same_fingerprint : Fingerprint → Fingerprint → Bool
same_fingerprint none none = true
same_fingerprint none (some q) = false
same_fingerprint (some p) none = false
same_fingerprint (some p) (some q) = p.0 == q.0 && p.1 == q.1

-- A store over loaded values of type `T`.
pub record Store (T : Type 0) : Type 0 where
  pub path : String
  pub current : T
  pub fingerprint : Fingerprint

-- `load` is the loader of the file's kind.
module _ {T : Type 0} (load : Disk → String → Result Exception T) where
  -- `__init__`: the file is loaded, and then its fingerprint is taken.
  unfoldable pub make_store : Disk → Disk → String → Result Exception (Store T)
  make_store at_load at_stat path = elim (load at_load path) [
    | ok c ↦ ok (record { path = path; current = c; fingerprint = at_stat.stat path })
    | err e ↦ err e
  ]

  -- The rest of `maybe_reload` once the file has been read, with the fingerprint taken before.
  unfoldable pub activate :
      Store T → Fingerprint → Result Exception T → Result Exception Bool × Store T
  activate s f (ok c) = (ok true, record s { current = c; fingerprint = f })
  activate s f (err e) = (err e, s)

  -- `maybe_reload`: the fingerprint is taken, and then the file is loaded if it differs.
  unfoldable pub maybe_reload : Disk → Disk → Store T → Result Exception Bool × Store T
  maybe_reload at_stat at_load s =
      let f = at_stat.stat s.path in
      if same_fingerprint f s.fingerprint then (ok false, s) else activate s f (load at_load s.path)
