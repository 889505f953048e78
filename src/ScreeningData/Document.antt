-- ===== src/ScreeningData/Document.antt =====
-- The whole screening-data file and its store (src/anti_fraud_as/screening_data.py).
use rdparty_as_poc.Prelude.{
  ℕ, String, Bool, ◌&&◌, List, leb, if◌then◌else◌, Result, ok, err, ◌>>=◌, ◌>>◌, map_err,
}
use rdparty_as_poc.Prelude.Float.{Floats}
use rdparty_as_poc.Errors.{AsError, Exception, raise_from, Code, FraudErrorCode}
use rdparty_as_poc.Reload.{Disk, Store, make_store, maybe_reload}
use rdparty_as_poc.Routing.Loading.{Parser, file_error}
use rdparty_as_poc.CallerState.{WindowPolicy}
use rdparty_as_poc.ScreeningData.{
  ScreenedNumber, ListMatchResult, Index, check_forms, validate_lists, index_from, match_index,
}

abbrev fraud_file_error : FraudErrorCode → String → String → String → AsError
fraud_file_error code what = file_error (Code.fraud code) what "screening_file"

module _ (f : Floats) where
  pub record CallRateWindowConfig : Type 0 where
    pub seconds : f.Float
    pub max_calls : ℕ

  pub record ReputationConfig : Type 0 where
    pub half_life_seconds : f.Float
    pub default_score : f.Float
    pub reject_below : f.Float
    pub reject_penalty : f.Float
    pub max_tracked_callers : ℕ

  pub record ScreeningDocument : Type 0 where
    pub name : String
    pub description : String
    pub window : CallRateWindowConfig
    pub reputation : ReputationConfig
    pub block_list : List ScreenedNumber
    pub allow_list : List ScreenedNumber

  -- `gt=0`, `ge=1` and `ge=0` of the fields.
  abbrev pub in_range : ScreeningDocument → Bool
  in_range d =
      f.ltb f.zero d.window.seconds
      && (leb 1 d.window.max_calls
          && (f.ltb f.zero d.reputation.half_life_seconds
              && (f.leb f.zero d.reputation.reject_penalty
                  && leb 1 d.reputation.max_tracked_callers)))

  -- All that `ScreeningDocument.model_validate` checks once the fields have been read.
  unfoldable pub check_screening : ScreeningDocument → Result String ScreeningDocument
  check_screening d =
      if in_range d
      then check_forms d.block_list
        >> (check_forms d.allow_list >> (validate_lists d.block_list d.allow_list >> ok d))
      else err "a number is out of range"

  -- `ScreeningDocument.policy`
  abbrev pub policy_of : ScreeningDocument → WindowPolicy f
  policy_of d = record {
    window_seconds = d.window.seconds;
    max_calls = d.window.max_calls;
    half_life_seconds = d.reputation.half_life_seconds;
    default_score = d.reputation.default_score;
    reject_penalty = d.reputation.reject_penalty;
    max_tracked_callers = d.reputation.max_tracked_callers;
  }

  -- `class ScreeningData`, with the indices that its constructor builds.
  pub record ScreeningData : Type 0 where
    pub document : ScreeningDocument
    pub source : String
    pub block : Index
    pub allow : Index

  abbrev pub make_screening_data : ScreeningDocument → String → ScreeningData
  make_screening_data d source = record {
    document = d;
    source = source;
    block = index_from 1 d.block_list "BL";
    allow = index_from 1 d.allow_list "AL";
  }

  -- `ScreeningData.match`
  abbrev pub match_number : ScreeningData → String → ListMatchResult
  match_number d number = record {
    allowed_by = match_index d.allow number;
    blocked_by = match_index d.block number;
  }

  module _ (p : Parser ScreeningDocument) where
    unfoldable pub load_screening_data : Disk → String → Result Exception ScreeningData
    load_screening_data disk path =
        map_err
          (raise_from (
            fraud_file_error FraudErrorCode.fraud_data_unreadable "cannot read screening data: "
              path))
          (disk.read_text path)
        >>= λ raw.
            map_err
              (raise_from (
                fraud_file_error FraudErrorCode.fraud_data_schema_error
                  "screening data is not valid YAML: " path))
              (p.safe_load raw)
            >>= λ parsed.
                map_err
                  (λ exc. Exception.as_error (
                    fraud_file_error FraudErrorCode.fraud_data_schema_error
                      "screening data violates the schema: " path exc))
                  (p.read_fields parsed >>= check_screening)
                >>= λ document. ok (make_screening_data document path)

    -- `ScreeningDataStore.__init__`
    unfoldable pub make_screening_store :
        Disk → Disk → String → Result Exception (Store ScreeningData)
    make_screening_store = make_store load_screening_data

    -- `ScreeningDataStore.maybe_reload`
    unfoldable pub maybe_reload_screening :
        Disk → Disk → Store ScreeningData → Result Exception Bool × Store ScreeningData
    maybe_reload_screening = maybe_reload load_screening_data
