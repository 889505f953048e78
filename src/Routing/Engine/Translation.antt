-- ===== src/Routing/Engine/Translation.antt =====
-- The number translation (src/as_app/routing/engine.py): what is stripped, what is prepended, and
-- when the translation fails.
use Prim.Native.String.{slice, len}
use text.Mathlib.TextLemmas.{append-eq-nil_iff, append-nil, append_assoc, nil-append}
use text.Mathlib.TextPositions.{len-append, slice-append_right, starts_with-append}
use text.Mathlib.TextEquality.{starts_with_iff}
use mathlib.Core.Bool.{false≢true}
use rdparty_as_poc.Prelude.{
  ok-injective, String, ◌<>◌, ◌≡◌, sym, ◌∙◌, ap, ◌≢◌, ◌↔◌, true, false, arith, inl, inr, Bool-cases,
  str_eq, eq_iff, starts_with, remove_prefix, ok, err, ◌>>=◌, ◌⊎◌,
}
use rdparty_as_poc.Errors.{AsError}
use rdparty_as_poc.Routing.Rules.{NumberFormat, NumberTranslation}
use rdparty_as_poc.Routing.Engine.{
  strip, translation_failed, prepend_digits, apply_translation, classify_number_format,
}

-- What follows a prefix is what the slice behind it takes.
pub remove_prefix-append : (p rest : String) → remove_prefix p (p <> rest) ≡ rest
remove_prefix-append p rest =
    ap (λ n. slice (p <> rest) (len p) n) (len-append p rest) ∙ slice-append_right p rest

str_eq_ne : (s t : String) → s ≢ t → str_eq s t ≡ false
str_eq_ne s t ne = ground (arith, eq_iff s t)

strip-append : (p rest : String) → strip p (p <> rest) ≡ rest
unfolding strip
strip-append p rest = elim (Bool-cases (str_eq p "")) [
  | inl blank ↦
      let e : p ≡ "" = (eq_iff p "").0 blank in rw blank (ap (λ q. q <> rest) e ∙ nil-append rest)
  | inr usable ↦ rw (usable, starts_with-append p rest) (remove_prefix-append p rest)
]

strip_absent : (p number : String) → starts_with number p ≡ false → strip p number ≡ number
unfolding strip
strip_absent p number absent = ground arith

prepend_digits_lem : (p s : String) → prepend_digits p s ≡ p <> s
unfolding prepend_digits
prepend_digits_lem p s = elim (Bool-cases (str_eq p "")) [
  | inl blank ↦ rw blank (sym (ap (λ q. q <> s) ((eq_iff p "").0 blank) ∙ nil-append s))
  | inr usable ↦ rw usable
]

apply_translation_lem :
    (t : NumberTranslation) (number s : String)
    → strip t.strip_prefix number ≡ s
    → t.prepend <> s ≢ ""
    → apply_translation number t ≡ ok (t.prepend <> s)
unfolding apply_translation
apply_translation_lem t number s stripped ne =
    rw (stripped, prepend_digits_lem t.prepend s, str_eq_ne (t.prepend <> s) "" ne)

-- A number that begins with the prefix keeps what follows it, behind the digits to prepend.
pub apply_translation-prefix :
    (t : NumberTranslation) (rest : String)
    → t.prepend <> rest ≢ ""
    → apply_translation (t.strip_prefix <> rest) t ≡ ok (t.prepend <> rest)
apply_translation-prefix t rest =
    apply_translation_lem t (t.strip_prefix <> rest) rest (strip-append t.strip_prefix rest)

-- A prefix that is not there is simply not removed.
pub apply_translation-absent :
    (t : NumberTranslation) (number : String)
    → starts_with number t.strip_prefix ≡ false
    → t.prepend <> number ≢ ""
    → apply_translation number t ≡ ok (t.prepend <> number)
apply_translation-absent t number absent =
    apply_translation_lem t number number (strip_absent t.strip_prefix number absent)

-- The translation the other way round.
abbrev pub inverse : NumberFormat → NumberTranslation → NumberTranslation
inverse f t = record { to_format = f; strip_prefix = t.prepend; prepend = t.strip_prefix }

-- Translating a number that carries the prefix, and then back, gives the number again, where neither
-- form of it is empty.
pub apply_translation-inverse :
    (t : NumberTranslation) (f : NumberFormat) (rest : String)
    → t.prepend <> rest ≢ ""
    → t.strip_prefix <> rest ≢ ""
    → (apply_translation (t.strip_prefix <> rest) t >>= λ n. apply_translation n (inverse f t))
      ≡ ok (t.strip_prefix <> rest)
apply_translation-inverse t f rest there back =
    rw (apply_translation-prefix t rest there) (apply_translation-prefix (inverse f t) rest back)

-- Stripping takes the prefix off, or leaves the number alone.
strip-cases :
    (p number : String)
    → ((rest : String) × (p <> rest ≡ number) × (strip p number ≡ rest)) ⊎ (strip p number ≡ number)
strip-cases p number = elim (Bool-cases (starts_with number p)) [
  | inl there ↦
      let (rest, e) = (starts_with_iff number p).0 there in
      inl (rest, e, ap (strip p) (sym e) ∙ strip-append p rest)
  | inr absent ↦ inr (strip_absent p number absent)
]

strip-eq-nil : (p number : String) → (strip p number ≡ "") ↔ ((number ≡ "") ⊎ (number ≡ p))
strip-eq-nil p number = (
  λ h. elim (strip-cases p number) [
    | inl (rest, e, s) ↦ inr (sym e ∙ ap (λ r. p <> r) (sym s ∙ h) ∙ append-nil p)
    | inr s ↦ inl (sym s ∙ h)
  ],
  λ h. elim h [
    | inl empty ↦ elim (strip-cases p number) [
      | inl (rest, e, s) ↦ s ∙ (append-eq-nil_iff.0 (e ∙ empty)).1
      | inr s ↦ s ∙ empty
    ]
    | inr alone ↦ ap (strip p) (alone ∙ sym (append-nil p)) ∙ strip-append p ""
  ],
)

-- A translation fails exactly when it prepends nothing and the number is empty or is the prefix
-- alone; any other number yields a text that is not empty.
pub apply_translation-err :
    (t : NumberTranslation) (number : String)
    → ((e : AsError) × (apply_translation number t ≡ err e))
      ↔ ((t.prepend ≡ "") × ((number ≡ "") ⊎ (number ≡ t.strip_prefix)))
unfolding apply_translation
apply_translation-err t number =
    let s = strip t.strip_prefix number in
    (
      λ (e, h). elim (Bool-cases (str_eq (t.prepend <> s) "")) [
        | inl empty ↦
            let (p, q) = append-eq-nil_iff.0 ((eq_iff (t.prepend <> s) "").0 empty) in
            (p, (strip-eq-nil t.strip_prefix number).0 q)
        | inr usable ↦ cc (rw (prepend_digits_lem t.prepend s, usable) at h)
      ],
      λ (p, alone). (
        translation_failed number,
        rw (
          prepend_digits_lem t.prepend s,
          (eq_iff (t.prepend <> s) "").1
              (append-eq-nil_iff.1 (p, (strip-eq-nil t.strip_prefix number).1 alone)),
        ),
      ),
    )

apply_translation-ok :
    (t : NumberTranslation) (number : String) {n : String}
    → apply_translation number t ≡ ok n
    → (n ≢ "") × (n ≡ t.prepend <> strip t.strip_prefix number)
unfolding apply_translation
apply_translation-ok t number {n} h =
    let s = strip t.strip_prefix number in
    elim (Bool-cases (str_eq (t.prepend <> s) "")) [
      | inl empty ↦ cc (rw (prepend_digits_lem t.prepend s, empty) at h)
      | inr usable ↦
          let same : t.prepend <> s ≡ n =
            ok-injective (rw (prepend_digits_lem t.prepend s, usable) at h) in
          (λ e. false≢true (sym usable ∙ (eq_iff (t.prepend <> s) "").1 (same ∙ e)), sym same)
    ]

-- A translated number is not empty.
pub apply_translation-ne-nil :
    (t : NumberTranslation) (number : String) {n : String}
    → apply_translation number t ≡ ok n
    → n ≢ ""
apply_translation-ne-nil t number h = (apply_translation-ok t number h).0

-- A number behind a `+` is classified as E.164 on its next way through the server.
pub classify-apply_translation :
    (t : NumberTranslation) (number : String) {n : String}
    → apply_translation number t ≡ ok n
    → starts_with t.prepend "+" ≡ true
    → classify_number_format n ≡ NumberFormat.e164
unfolding classify_number_format
classify-apply_translation t number {n} h plus =
    let s = strip t.strip_prefix number in
    let (rest, e) = (starts_with_iff t.prepend "+").0 plus in
    let n_plus : "+" <> (rest <> s) ≡ n =
      sym (append_assoc "+" rest s)
      ∙ ap (λ p. p <> s) e
      ∙ sym (apply_translation-ok t number h).1 in
    let begins : starts_with n "+" ≡ true =
      ap (λ m. starts_with m "+") (sym n_plus) ∙ starts_with-append "+" (rest <> s) in
    rw begins
