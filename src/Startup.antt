-- ===== src/Startup.antt =====
-- How the two servers start: src/as_app/bootstrap.py and src/anti_fraud_as/bootstrap.py, whose
-- settings and self-checks have the same shape, and the decisions of `main` in src/as_app/main.py and
-- src/anti_fraud_as/main.py. Child `Laws` is what holds of a start.
--
-- Reading the environment, the port check and `Path.is_file` are parameters; each touch of the file has
-- its own disk, since an operator may edit it in between.
pub mod Laws
use rdparty_as_poc.Prelude.{
  ℕ, String, ◌<>◌, Bool, true, false, Option, none, List, [], ◌∷◌, map, filter, not, is_empty,
  str_eq, if◌then◌else◌, Result, ok, err, ◌>>=◌, ◌>>◌,
}
use rdparty_as_poc.Prelude.Whitespace.{strip}
use rdparty_as_poc.Errors.{AsError, Exception, Code, Member, AsErrorCode, FraudErrorCode}
use rdparty_as_poc.Reload.{Disk, Store, make_store}

-- `AsSettings` and `FraudAsSettings`, as far as the self-check and `main` read them.
pub record Settings : Type 0 where
  pub listen_address : String
  pub listen_port : ℕ
  pub sbc_peer_address : String
  pub allowed_peers : List String
  pub file : String

abbrev pub first_item : List String → String
first_item [] = ""
first_item (x ∷ xs) = x

abbrev pub other_items : List String → List String
other_items [] = []
other_items (x ∷ xs) = xs

-- `value.split(",")`
unfoldable pub split_commas : String → List String
split_commas String.[] = "" ∷ []
split_commas (String.◌∷◌ c s) =
    let rest = split_commas s in
    if str_eq (String.◌∷◌ c "") ","
    then "" ∷ rest
    else String.◌∷◌ c (first_item rest) ∷ other_items rest

-- `_split_peers`, of a text.
unfoldable pub split_peers : String → List String
unfolding strip
split_peers value = map strip (filter (λ item. not (str_eq (strip item) "")) (split_commas value))

-- What the platform library and the system answer.
pub record Host : Type 0 where
  pub cfg_missing : Member
  pub cfg_peer_invalid : Member
  pub check_port_available : String → ℕ → Result Exception (Unit {0})
  pub is_file : String → Bool

abbrev pub config_error : Member → String → AsError
config_error m detail = record {
  code = Code.skeleton m;
  detail = detail;
  call_id = none;
  context = [];
}

abbrev pub file_missing : Code → String → String → String → AsError
file_missing code what field path = record {
  code = code;
  detail = what <> path;
  call_id = none;
  context = (field, path) ∷ [];
}

module _ {T : Type 0} (load : Disk → String → Result Exception T) (host : Host) where
  -- The shape of both self-checks, over the names of the settings and the error of a missing file.
  unfoldable pub self_check :
      String → String → AsError → Disk → Settings → Result Exception (Unit {0})
  unfolding strip
  self_check peer_detail peers_detail missing disk s =
      if str_eq (strip s.sbc_peer_address) ""
      then err (Exception.as_error (config_error host.cfg_missing peer_detail))
      else (if is_empty s.allowed_peers
          then err (Exception.as_error (config_error host.cfg_peer_invalid peers_detail))
          else (if host.is_file s.file
              then (load disk s.file >>= λ loaded.
                  host.check_port_available s.listen_address s.listen_port)
              else err (Exception.as_error missing)))

  -- `run_startup_self_check` of the number-translation server.
  abbrev pub translation_self_check : Disk → Settings → Result Exception (Unit {0})
  translation_self_check disk s =
      self_check "SBC_PEER_ADDRESS is required: the AS must know its next hop"
        "ALLOWED_PEERS must list at least one trunk peer address"
        (file_missing (Code.routing AsErrorCode.rule_file_unreadable) "rules file does not exist: "
          "rules_file" s.file)
        disk s

  -- `run_startup_self_check` of the anti-fraud server.
  abbrev pub fraud_self_check : Disk → Settings → Result Exception (Unit {0})
  fraud_self_check disk s =
      self_check "FRAUD_SBC_PEER_ADDRESS is required: the AS must know its next hop"
        "FRAUD_ALLOWED_PEERS must list at least one trunk peer address"
        (file_missing (Code.fraud FraudErrorCode.fraud_data_unreadable)
          "screening data file does not exist: " "screening_file" s.file)
        disk s

  -- What a start comes to: the process exits, or it runs on the store that it has made.
  pub data Started : Type 0 where
    exited : ℕ → Started
    running : Store T → Started

  -- `main` behind a self-check that returned.
  abbrev pub make_running : Bool → Disk → Disk → String → Result Exception Started
  make_running self_check_only at_load at_stat path =
      if self_check_only
      then ok (exited 0)
      else (make_store load at_load at_stat path >>= λ s. ok (running s))

  -- `main`, from the self-check to the store: an `AsError` of the self-check is caught, another exception
  -- of it and any of the store are not.
  unfoldable pub main :
      Bool → Result Exception (Unit {0}) → Disk → Disk → String → Result Exception Started
  main self_check_only (err (Exception.as_error e)) at_load at_stat path = ok (exited 1)
  main self_check_only (err (Exception.other exc)) at_load at_stat path = err (Exception.other exc)
  main self_check_only (ok _) at_load at_stat path =
      make_running self_check_only at_load at_stat path
