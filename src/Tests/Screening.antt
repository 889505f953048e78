-- ===== src/Tests/Screening.antt =====
-- Runs of the verdict and of the screening lists (src/anti_fraud_as/screening.py and
-- src/anti_fraud_as/screening_data.py).
use rdparty_as_poc.Prelude.{String, ◌≡◌, refl, ◌≢◌, ◌↔◌, ◌⊎◌, ◌<◌, true, none, some, [], ◌∷◌, ok}
use rdparty_as_poc.Prelude.Decimal.{digit}
use rdparty_as_poc.Prelude.Whitespace.{strip}
use rdparty_as_poc.Prelude.Int.{pos}
use rdparty_as_poc.Prelude.Float.{whole_numbers}
use rdparty_as_poc.Screening.{ScreeningVerdict, ScreeningSignals, ScreeningPolicy, screen}
use rdparty_as_poc.Screening.Laws.{screen_reject_iff}
use rdparty_as_poc.ScreeningData.{
  ListMatch, index_from, match_index, is_usable, value, is_prefix, check_forms, validate_lists,
  require_exactly_one_form,
}
use rdparty_as_poc.ScreeningData.Document.{check_screening}
use rdparty_as_poc.ScreeningData.Matching.{
  IsBest, match_index-IsBest, blank_entry, blank_number_matches_all,
}
use rdparty_as_poc.Tests.Samples.{screening_document, lists}

-- A caller on no list that has made three calls.
abbrev busy : ScreeningSignals whole_numbers
busy = record {
  calling_number = "+31";
  identity_present = true;
  allowlisted_by = none;
  blocklisted_by = none;
  effective_reputation = pos 50;
  calls_in_window = 3;
}

abbrev thresholds : ScreeningPolicy whole_numbers
thresholds = record { reject_below_reputation = pos 20; reject_above_calls = 2 }

screen-busy : (screen whole_numbers busy thresholds).verdict ≡ ScreeningVerdict.reject
unfolding screen
screen-busy = refl

screen_reject_iff_example :
    ((screen whole_numbers busy thresholds).verdict ≡ ScreeningVerdict.reject) ↔ (
      (busy.identity_present ≡ true)
      × (busy.allowlisted_by ≡ none)
      × ((busy.blocklisted_by ≢ none)
          ⊎ ((thresholds.reject_above_calls < busy.calls_in_window)
              ⊎ (whole_numbers.ltb busy.effective_reputation thresholds.reject_below_reputation
                  ≡ true))))
screen_reject_iff_example = screen_reject_iff whole_numbers busy thresholds

sample-passes : check_screening whole_numbers screening_document ≡ ok screening_document
unfolding check_screening check_forms require_exactly_one_form validate_lists value
sample-passes = refl

abbrev exact : ListMatch
exact = record { entry_id = "BL-0002"; value = "+46123"; reason = "fraud" }

-- The exact entry wins, though a prefix entry stands in front of it.
match-exact : match_index lists.block "+46123" ≡ some exact
unfolding match_index index_from is_prefix value digit
match-exact = refl

match_index-IsBest_example : IsBest lists.block "+46123" exact
match_index-IsBest_example = match_index-IsBest lists.block "+46123" match-exact

blank_ne : ◌≢◌ {A = String} " " ""
blank_ne = λ e. cc

blank_strip : strip " " ≡ ""
unfolding strip
blank_strip = refl

prefix_usable : is_usable (some "+46") ≡ true
unfolding is_usable
prefix_usable = refl

blank_number_matches_all_example :
    (require_exactly_one_form (blank_entry " " "+46" "fraud" "") ≡ ok tt)
    × (value (blank_entry " " "+46" "fraud" "") ≡ "")
    × (match_index (index_from 1 (blank_entry " " "+46" "fraud" "" ∷ []) "BL") "+31" ≢ none)
blank_number_matches_all_example =
    blank_number_matches_all " " "+46" "fraud" "" blank_ne blank_strip "+31" prefix_usable
