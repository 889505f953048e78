-- ===== src/ScreeningData.antt =====
-- src/anti_fraud_as/screening_data.py: the screening-data document, its validators, and the lists
-- that a calling number is matched against.
pub mod Lists
pub mod Matching
pub mod Document
use rdparty_as_poc.Prelude.{
  ℕ, zero, suc, ◌+◌, ◌/◌, ◌%◌, String, ◌<>◌, Bool, true, false, not, ◌&&◌, ◌||◌, Option, none, some,
  List, [], ◌∷◌, map, ltb, leb, ◌==◌, if◌then◌else◌, length, is_empty, filter, find?, str_eq,
  str_mem, starts_with, Result, ok, err, ◌>>=◌, ◌>>◌,
}
use rdparty_as_poc.Prelude.Decimal.{show_from}
use rdparty_as_poc.Prelude.Whitespace.{strip}
use rdparty_as_poc.Prelude.Float.{Floats}

pub record ScreenedNumber : Type 0 where
  pub number : Option String
  pub prefix : Option String
  pub reason : String
  pub description : String

-- `bool(x and x.strip())`
unfoldable pub is_usable : Option String → Bool
unfolding strip
is_usable none = false
is_usable (some s) = not (str_eq s "") && not (str_eq (strip s) "")

-- `x or y`, of texts that may be `None`
abbrev pub or_text : Option String → String → String
or_text none y = y
or_text (some s) y = if str_eq s "" then y else s

-- `ScreenedNumber._require_exactly_one_form`
unfoldable pub require_exactly_one_form : ScreenedNumber → Result String (Unit {0})
unfolding is_usable
require_exactly_one_form e =
    let has_number = is_usable e.number in
    let has_prefix = is_usable e.prefix in
    if (has_number && has_prefix) || (not has_number && not has_prefix)
    then err "a screened number needs exactly one of number or prefix"
    else ok tt

-- `ScreenedNumber.value`
unfoldable pub value : ScreenedNumber → String
unfolding strip
value e = strip (or_text e.number (or_text e.prefix ""))

-- `ScreenedNumber.is_prefix`
unfoldable pub is_prefix : ScreenedNumber → Bool
unfolding is_usable
is_prefix e = is_usable e.prefix

-- `set(xs)`, as a list with no repetition
unfoldable pub set_of : List String → List String
set_of [] = []
set_of (x ∷ xs) = let rest = set_of xs in if str_mem x rest then rest else x ∷ rest

unfoldable pub check_forms : List ScreenedNumber → Result String (Unit {0})
check_forms [] = ok tt
check_forms (e ∷ es) = require_exactly_one_form e >> check_forms es

abbrev pub has_duplicate : List String → Bool
has_duplicate xs = not (length xs == length (set_of xs))

-- `ScreeningDocument._validate_lists`
unfoldable pub validate_lists : List ScreenedNumber → List ScreenedNumber → Result String (Unit {0})
unfolding set_of
validate_lists block_list allow_list =
    let blocked = map value block_list in
    let allowed = map value allow_list in
    if has_duplicate blocked
    then err "duplicate entry in block_list"
    else (if has_duplicate allowed
        then err "duplicate entry in allow_list"
        else (if not (is_empty (filter (λ v. str_mem v (set_of allowed)) (set_of blocked)))
            then err "entries appear in both block_list and allow_list"
            else ok tt))

pub record ListMatch : Type 0 where
  pub entry_id : String
  pub value : String
  pub reason : String

pub record ListMatchResult : Type 0 where
  pub allowed_by : Option ListMatch
  pub blocked_by : Option ListMatch

-- `f"{position:04d}"`
unfoldable pub pad4 : ℕ → String
unfolding show_from
pad4 n =
    let shown = show_from (suc n) n "" in
    if ltb n 10
    then "000" <> shown
    else (if ltb n 100 then "00" <> shown else (if ltb n 1000 then "0" <> shown else shown))

abbrev pub Index : Type 0
Index = List (ListMatch × Bool)

-- `_index`, from the position of the first entry
unfoldable pub index_from : ℕ → List ScreenedNumber → String → Index
unfolding pad4
index_from position [] prefix = []
index_from position (e ∷ es) prefix =
    (
      record { entry_id = prefix <> "-" <> pad4 position; value = value e; reason = e.reason },
      is_prefix e,
    )
    ∷ index_from (position + 1) es prefix

-- The tests of the two loops of `_match`.
abbrev pub is_exact_hit : String → ListMatch × Bool → Bool
is_exact_hit number (e, by_prefix) = not by_prefix && str_eq e.value number

abbrev pub is_prefix_hit : String → ListMatch × Bool → Bool
is_prefix_hit number (e, by_prefix) = by_prefix && starts_with number e.value

-- The first loop's hit, or else the second's.
abbrev pub pick : Option (ListMatch × Bool) → Option (ListMatch × Bool) → Option ListMatch
pick (some e) by_prefix = some e.0
pick none none = none
pick none (some e) = some e.0

-- `_match`: a first loop for the exact entries, and a second for the prefixes.
unfoldable pub match_index : Index → String → Option ListMatch
match_index index number =
    pick (find? (is_exact_hit number) index) (find? (is_prefix_hit number) index)
