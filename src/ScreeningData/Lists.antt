-- ===== src/ScreeningData/Lists.antt =====
-- What the validators of the two lists guarantee (src/anti_fraud_as/screening_data.py,
-- `ScreeningDocument._validate_lists`).
use mathlib.Core.Bool.{false≢true}
use mathlib.Core.List.{Memᴰ}
use rdparty_as_poc.Prelude.{
  ◌≤◌, String, ◌≡◌, refl, sym, ap, ◌∙◌, ◌≢◌, Bool, true, false, List, [], ◌∷◌, map, arith, inl, inr,
  Bool-cases, length, is_empty, filter, str_eq, str_mem, eq_iff, ok,
}
use rdparty_as_poc.Prelude.Float.{Floats}
use rdparty_as_poc.ScreeningData.{ScreenedNumber, value, set_of, has_duplicate, validate_lists}
use rdparty_as_poc.ScreeningData.Document.{ScreeningDocument, check_screening}

-- No text stands twice in the list.
abbrev pub IsUnique : List String → Type 0
IsUnique [] = Unit
IsUnique (x ∷ xs) = (str_mem x xs ≡ false) × IsUnique xs

str_mem-set_of : (y : String) (xs : List String) → str_mem y (set_of xs) ≡ str_mem y xs
unfolding set_of
str_mem-set_of y [] = refl
str_mem-set_of y (x ∷ xs) = ground (arith, str_mem-set_of y xs, str_mem-set_of x xs, eq_iff y x)

length-set_of-le : (xs : List String) → length (set_of xs) ≤ length xs
unfolding set_of
length-set_of-le [] = omega arith
length-set_of-le (x ∷ xs) = ground (arith, length-set_of-le xs)

set_of-IsUnique : (xs : List String) → length xs ≡ length (set_of xs) → IsUnique xs
unfolding set_of
set_of-IsUnique [] h = tt
set_of-IsUnique (x ∷ xs) h = elim (Bool-cases (str_mem x (set_of xs))) [
  | inl twice ↦ absurd (omega (arith, rw twice at h, length-set_of-le xs))
  | inr once ↦ (sym (str_mem-set_of x xs) ∙ once, set_of-IsUnique xs (omega (arith, rw once at h)))
]

has_duplicate-IsUnique : (xs : List String) → has_duplicate xs ≡ false → IsUnique xs
has_duplicate-IsUnique xs h = set_of-IsUnique xs (ground arith)

filter-is_empty :
    (p : String → Bool) (v : String) (xs : List String)
    → is_empty (filter p xs) ≡ true
    → str_mem v xs ≡ true
    → p v ≡ false
filter-is_empty p v [] h m = cc
filter-is_empty p v (x ∷ xs) h m = elim (Bool-cases (p x)) [
  | inl hit ↦ absurd (false≢true (rw hit at h))
  | inr miss ↦ elim (Bool-cases (str_eq v x)) [
    | inl same ↦ ap p ((eq_iff v x).0 same) ∙ miss
    | inr other ↦ filter-is_empty p v xs (rw miss at h) (rw other at m)
  ]
]

validate_lists-parts :
    (blocked allowed : List ScreenedNumber)
    → validate_lists blocked allowed ≡ ok tt
    → (has_duplicate (map value blocked) ≡ false)
      × (has_duplicate (map value allowed) ≡ false)
      × (is_empty
            (filter (λ v. str_mem v (set_of (map value allowed))) (set_of (map value blocked)))
          ≡ true)
unfolding validate_lists
validate_lists-parts blocked allowed h = ground arith

str_mem-map :
    (xs : List ScreenedNumber) {e : ScreenedNumber}
    → Memᴰ e xs
    → str_mem (value e) (map value xs) ≡ true
str_mem-map [] m = elim m [ ]
str_mem-map (x ∷ xs) (Memᴰ.head e) = rw ((eq_iff _ _).1 (ap value e))
str_mem-map (x ∷ xs) (Memᴰ.tail m) = ground (arith, str_mem-map xs m)

validate_lists-IsUnique :
    (blocked allowed : List ScreenedNumber)
    → validate_lists blocked allowed ≡ ok tt
    → IsUnique (map value blocked)
      × IsUnique (map value allowed)
      × ((b a : ScreenedNumber) → Memᴰ b blocked → Memᴰ a allowed → value b ≢ value a)
validate_lists-IsUnique blocked allowed h =
    let (once, once_too, apart) = validate_lists-parts blocked allowed h in
    (
      has_duplicate-IsUnique (map value blocked) once,
      has_duplicate-IsUnique (map value allowed) once_too,
      λ b a m n e.
          let present = str_mem-set_of (value b) (map value blocked) ∙ str_mem-map blocked m in
          let absent = filter-is_empty _ (value b) (set_of (map value blocked)) apart present in
          false≢true (
            sym absent
            ∙ str_mem-set_of (value b) (map value allowed)
            ∙ ap (λ v. str_mem v (map value allowed)) e
            ∙ str_mem-map allowed n),
    )

check_screening-validate_lists :
    (f : Floats) (d : ScreeningDocument f)
    → check_screening f d ≡ ok d
    → validate_lists d.block_list d.allow_list ≡ ok tt
unfolding check_screening
check_screening-validate_lists f d h = ground arith

-- In a document that passes, no value stands twice in the block list or twice in the allow list, and
-- no entry of the one has the value of an entry of the other.
pub check_screening-IsUnique :
    (f : Floats) (d : ScreeningDocument f)
    → check_screening f d ≡ ok d
    → IsUnique (map value d.block_list)
      × IsUnique (map value d.allow_list)
      × ((b a : ScreenedNumber) → Memᴰ b d.block_list → Memᴰ a d.allow_list → value b ≢ value a)
check_screening-IsUnique f d h =
    validate_lists-IsUnique d.block_list d.allow_list (check_screening-validate_lists f d h)
