-- ===== src/ScreeningData/Matching.antt =====
-- Which entry a calling number matches (src/anti_fraud_as/screening_data.py).
use mathlib.Core.Bool.{false≢true}
use mathlib.Core.Option.{some-injective}
use rdparty_as_poc.Prelude.Whitespace.{strip}
use mathlib.Core.List.{Memᴰ}
use text.Mathlib.TextLemmas.{nil-append}
use text.Mathlib.TextPositions.{starts_with-append}
use rdparty_as_poc.Prelude.{
  String, ◌≡◌, refl, sym, ap, ◌∙◌, subst, ◌≢◌, ◌↔◌, ◌⊎◌, inl, inr, Bool, true, false, Option, none,
  some, [], ◌∷◌, arith, All-Memᴰ, Option-cases, find?, find?-eq-some, find?-eq-none, str_eq, eq_iff,
  starts_with, ok,
}
use rdparty_as_poc.ScreeningData.{
  ScreenedNumber, ListMatch, Index, is_exact_hit, is_prefix_hit, pick, index_from, match_index,
  is_usable, value, is_prefix, require_exactly_one_form,
}

-- What it means for an entry to accept a calling number.
abbrev pub Accepts : String → ListMatch × Bool → Type 0
Accepts number (e, false) = e.value ≡ number
Accepts number (e, true) = starts_with number e.value ≡ true

exact-Accepts :
    (number : String) (e : ListMatch × Bool) → is_exact_hit number e ≡ true → Accepts number e
exact-Accepts number (e, false) h = (eq_iff e.value number).0 h
exact-Accepts number (e, true) h = cc

prefix-Accepts :
    (number : String) (e : ListMatch × Bool) → is_prefix_hit number e ≡ true → Accepts number e
prefix-Accepts number (e, false) h = cc
prefix-Accepts number (e, true) h = h

not-Accepts :
    (number : String) (e : ListMatch × Bool)
    → is_exact_hit number e ≡ false
    → is_prefix_hit number e ≡ false
    → ¬ (Accepts number e)
not-Accepts number (e, false) h k a = false≢true (sym h ∙ (eq_iff e.value number).1 a)
not-Accepts number (e, true) h k a = false≢true (sym k ∙ a)

module _ (index : Index) (number : String) where
  -- An entry that was matched: it stands in the list and accepts the number, and it is an exact one if
  -- any exact entry names the number.
  abbrev pub IsBest : ListMatch → Type 0
  IsBest e =
      (by_prefix : Bool) × Memᴰ (e, by_prefix) index
      × Accepts number (e, by_prefix)
      × ((g : ListMatch) → Memᴰ (g, false) index → g.value ≡ number → by_prefix ≡ false)

  no_exact_entry :
      find? (is_exact_hit number) index ≡ none
      → (g : ListMatch) → Memᴰ (g, false) index
      → g.value ≢ number
  no_exact_entry none_found g m e = false≢true (
      sym (
        All-Memᴰ (λ x. is_exact_hit number x ≡ false)
          (find?-eq-none (is_exact_hit number) index none_found) m)
      ∙ (eq_iff g.value number).1 e)

  exact_entry : (x : ListMatch × Bool) → is_exact_hit number x ≡ true → x.1 ≡ false
  exact_entry x h = ground arith

  pick-IsBest :
      (exact prefixed : Option (ListMatch × Bool)) {e : ListMatch}
      → find? (is_exact_hit number) index ≡ exact
      → find? (is_prefix_hit number) index ≡ prefixed
      → pick exact prefixed ≡ some e
      → IsBest e
  pick-IsBest (some x) prefixed found _ h =
      let (m, hit) = find?-eq-some (is_exact_hit number) index found in
      subst IsBest (some-injective _ _ h)
        (x.1, m, exact-Accepts number x hit, λ g _ _. exact_entry x hit)
  pick-IsBest none none _ _ h = cc
  pick-IsBest none (some x) none_found found h =
      let (m, hit) = find?-eq-some (is_prefix_hit number) index found in
      subst IsBest (some-injective _ _ h)
        (x.1, m, prefix-Accepts number x hit, λ g n e. absurd (no_exact_entry none_found g n e))

  -- A match of a number is an entry of the list that accepts it, and an exact entry whenever any exact
  -- entry names the number.
  pub match_index-IsBest : {e : ListMatch} → match_index index number ≡ some e → IsBest e
  unfolding match_index
  match_index-IsBest h = pick-IsBest _ _ refl refl h

  pick-none :
      (exact prefixed : Option (ListMatch × Bool))
      → pick exact prefixed ≡ none
      → (exact ≡ none) × (prefixed ≡ none)
  pick-none exact prefixed h = ground arith

  accepted_hit :
      (x : ListMatch × Bool)
      → Accepts number x
      → (is_exact_hit number x ≡ true) ⊎ (is_prefix_hit number x ≡ true)
  accepted_hit (e, false) a = inl ((eq_iff e.value number).1 a)
  accepted_hit (e, true) a = inr a

  -- Nothing is matched exactly when no entry accepts the number.
  pub match_index-eq-none :
      (match_index index number ≡ none)
      ↔ ((x : ListMatch × Bool) → Memᴰ x index → ¬ (Accepts number x))
  unfolding match_index
  match_index-eq-none = (
    λ h x m a.
        let (no_exact, no_prefix) = pick-none _ _ h in
        elim (accepted_hit x a) [
          | inl hit ↦ false≢true (
              sym (All-Memᴰ (λ y. is_exact_hit number y ≡ false) (find?-eq-none _ index no_exact) m)
              ∙ hit)
          | inr hit ↦ false≢true (
              sym
                (All-Memᴰ (λ y. is_prefix_hit number y ≡ false) (find?-eq-none _ index no_prefix) m)
              ∙ hit)
        ],
    λ nothing. elim (Option-cases (match_index index number)) [
      | inl e ↦ e
      | inr (e, h) ↦
          let (by_prefix, m, a, _) = match_index-IsBest h in absurd (nothing (e, by_prefix) m a)
    ],
  )

starts_with-nil : (s : String) → starts_with s "" ≡ true
starts_with-nil s = ap (λ t. starts_with t "") (sym (nil-append s)) ∙ starts_with-append "" s

module _ (blank prefix reason description : String) where
  abbrev pub blank_entry : ScreenedNumber
  blank_entry = record {
    number = some blank;
    prefix = some prefix;
    reason = reason;
    description = description;
  }

  module _ (ne : blank ≢ "") (blank_strip : strip blank ≡ "") where
    blank-usable : is_usable (some blank) ≡ false
    unfolding is_usable
    blank-usable = ground (arith, eq_iff blank "", eq_iff (strip blank) "")

    value-blank_entry : value blank_entry ≡ ""
    unfolding value
    value-blank_entry =
        let usable : str_eq blank "" ≡ false = ground (arith, eq_iff blank "") in
        rw usable blank_strip

    -- An entry whose number is blank but not empty and whose prefix is usable passes validation, has
    -- the empty text for its value, and the list of it alone matches every calling number.
    pub blank_number_matches_all :
        (number : String)
        → is_usable (some prefix) ≡ true
        → (require_exactly_one_form blank_entry ≡ ok tt)
          × (value blank_entry ≡ "")
          × (match_index (index_from 1 (blank_entry ∷ []) "BL") number ≢ none)
    unfolding require_exactly_one_form index_from is_prefix
    blank_number_matches_all number usable = (
      rw (blank-usable, usable),
      value-blank_entry,
      λ h.
          (match_index-eq-none (index_from 1 (blank_entry ∷ []) "BL") number).0 h _ (Memᴰ.head refl)
            (rw (usable, value-blank_entry) (starts_with-nil number)),
    )
