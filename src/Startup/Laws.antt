-- ===== src/Startup/Laws.antt =====
-- What holds of a start of either server (bootstrap.py and main.py of src/as_app and
-- src/anti_fraud_as).
use text.Mathlib.TextLemmas.{nil-append, cons-append}
use rdparty_as_poc.Prelude.{
  String, ◌<>◌, ◌≡◌, refl, ap, ◌∙◌, inl, inr, ◌≢◌, Bool, false, ◌||◌, List, [], ◌∷◌, map, filter,
  not, All, arith, str_eq, eq_iff, Bool-cases,
}
use rdparty_as_poc.Prelude.Whitespace.{strip}
use rdparty_as_poc.Startup.{split_commas, split_peers}

abbrev pub has_comma : String → Bool
has_comma String.[] = false
has_comma (String.◌∷◌ c s) = str_eq (String.◌∷◌ c "") "," || has_comma s

-- `",".join(xs)`
abbrev pub join_commas : List String → String
join_commas [] = ""
join_commas (x ∷ []) = x
join_commas (x ∷ y ∷ ys) = x <> ("," <> join_commas (y ∷ ys))

split_commas_last : (x : String) → has_comma x ≡ false → split_commas x ≡ x ∷ []
unfolding split_commas
split_commas_last String.[] h = refl
split_commas_last (String.◌∷◌ c x) h = ground (arith, split_commas_last x)

split_commas_first :
    (x rest : String)
    → has_comma x ≡ false
    → split_commas (x <> ("," <> rest)) ≡ x ∷ split_commas rest
unfolding split_commas
split_commas_first String.[] rest h =
    rw (nil-append ("," <> rest), cons-append "," "" rest, nil-append rest) refl
split_commas_first (String.◌∷◌ c x) rest h = elim (Bool-cases (str_eq (String.◌∷◌ c "") ",")) [
  | inl comma ↦ cc (rw comma at h)
  | inr other ↦
      rw (cons-append c x ("," <> rest))
        (rw (other, split_commas_first x rest (rw other at h)) refl)
]

-- An address that an operator may list.
abbrev pub IsPeer : String → Type 0
IsPeer x = (has_comma x ≡ false) × (strip x ≡ x) × (x ≢ "")

pub split_commas-join_commas :
    (x : String) (xs : List String)
    → All IsPeer (x ∷ xs)
    → split_commas (join_commas (x ∷ xs)) ≡ x ∷ xs
split_commas-join_commas x [] h = split_commas_last x h.0.0
split_commas-join_commas x (y ∷ ys) h =
    split_commas_first x (join_commas (y ∷ ys)) h.0.0
    ∙ ap (◌∷◌ x) (split_commas-join_commas y ys h.1)

kept :
    (xs : List String)
    → All IsPeer xs
    → map strip (filter (λ item. not (str_eq (strip item) "")) xs) ≡ xs
kept [] h = refl
kept (x ∷ xs) ((_, stripped, filled), h) =
    let nonempty : str_eq x "" ≡ false = ground (arith, eq_iff x "", filled) in
    rw (stripped, nonempty) (rw stripped (ap (◌∷◌ x) (kept xs h)))

-- The peers that the operator lists, separated by commas, are read back, where none is blank, holds a
-- comma or begins or ends in white space, and at least one is listed.
pub split_peers-join_commas :
    (x : String) (xs : List String)
    → All IsPeer (x ∷ xs)
    → split_peers (join_commas (x ∷ xs)) ≡ x ∷ xs
unfolding split_peers
split_peers-join_commas x xs h = rw (split_commas-join_commas x xs h) (kept (x ∷ xs) h)
