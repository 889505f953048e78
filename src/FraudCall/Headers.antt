-- ===== src/FraudCall/Headers.antt =====
-- How the capability tokens of a request may be written (src/anti_fraud_as/call_controller.py,
-- `declares_sip_608`).
use text.Mathlib.TextLemmas.{cons-append, nil-append}
use rdparty_as_poc.Prelude.{
  ℕ, Char, code, String, ◌<>◌, ◌≡◌, refl, ap, ◌∙◌, Bool, true, ◌||◌, List, [], ◌∷◌, ◌++◌, any,
  arith, Bool-cases, inl, inr,
}
use rdparty_as_poc.FraudCall.Capability.{
  codes, is_separator, first_part, other_parts, split_caps, is_608_tag, declares_608,
}

codes-append : (s t : String) → codes (s <> t) ≡ codes s ++ codes t
codes-append String.[] t = rw (nil-append t)
codes-append (String.◌∷◌ c s) t = rw (cons-append c s t) (ap (λ r. code c ∷ r) (codes-append s t))

any-append : (p : List ℕ → Bool) (xs ys : List (List ℕ)) → any p (xs ++ ys) ≡ (any p xs || any p ys)
any-append p [] ys = refl
any-append p (x ∷ xs) ys = ground (arith, any-append p xs ys)

-- There is always a first part.
split_caps-parts :
    (cs : List ℕ) → split_caps cs ≡ first_part (split_caps cs) ∷ other_parts (split_caps cs)
unfolding split_caps
split_caps-parts [] = refl
split_caps-parts (c ∷ cs) = elim (Bool-cases (is_separator c)) [ inl s ↦ rw s | inr o ↦ rw o ]

first_part-append : (xs ys : List (List ℕ)) (x : List ℕ) → first_part ((x ∷ xs) ++ ys) ≡ x
first_part-append xs ys x = refl

split_caps-append :
    (xs : List ℕ) (c : ℕ) (ys : List ℕ)
    → is_separator c ≡ true
    → split_caps (xs ++ c ∷ ys) ≡ split_caps xs ++ split_caps ys
unfolding split_caps
split_caps-append [] c ys sep = rw sep
split_caps-append (x ∷ xs) c ys sep = elim (Bool-cases (is_separator x)) [
  | inl s ↦ rw (s, split_caps-append xs c ys sep)
  | inr o ↦
      let parts : split_caps (xs ++ c ∷ ys)
          ≡ first_part (split_caps xs) ∷ (other_parts (split_caps xs) ++ split_caps ys) =
        split_caps-append xs c ys sep ∙ ap (λ r. r ++ split_caps ys) (split_caps-parts xs) in
      rw (o, parts)
]

-- A header that lists two bodies behind one another, with a comma or a semicolon between them, declares
-- `sip.608` exactly when the two bodies in headers of their own do.
pub declares_608-append :
    (a b : String) (c : Char) (others : List String)
    → is_separator (code c) ≡ true
    → declares_608 ((a <> String.◌∷◌ c b) ∷ others) ≡ declares_608 (a ∷ b ∷ others)
unfolding declares_608
declares_608-append a b c others sep =
    let parts : any is_608_tag (split_caps (codes (a <> String.◌∷◌ c b)))
        ≡ (any is_608_tag (split_caps (codes a)) || any is_608_tag (split_caps (codes b))) =
      ap (λ cs. any is_608_tag (split_caps cs)) (codes-append a (String.◌∷◌ c b))
      ∙ ap (any is_608_tag) (split_caps-append (codes a) (code c) (codes b) sep)
      ∙ any-append is_608_tag (split_caps (codes a)) (split_caps (codes b)) in
    rw parts (ground arith)
