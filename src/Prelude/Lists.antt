-- ===== src/Prelude/Lists.antt =====
-- Lists measured by native numbers, Boolean searches, and predicates by recursion.
use Prim.Native.Nat.{ℕ, zero, suc, ◌+◌, ◌-◌}
use mathlib.Core.Path.{◌≡◌, refl, sym, subst}
use mathlib.Core.Logic.{◌≢◌, inl, inr}
use mathlib.Core.Bool.{Bool, true, false, ◌||◌}
use mathlib.Core.List.{List, [], ◌∷◌, ◌++◌, Memᴰ}
use mathlib.Core.Option.{Option, none, some, some-injective, some-ne-none}
use native.Mathlib.Omega.{arith}
use rdparty_as_poc.Prelude.Tests.{if◌then◌else◌, Bool-cases}

module _ {ℓ} {A : Type ℓ} where
  abbrev pub length : List A → ℕ
  length [] = 0
  length (x ∷ xs) = suc (length xs)

  abbrev pub drop : ℕ → List A → List A
  drop zero xs = xs
  drop (suc n) [] = []
  drop (suc n) (x ∷ xs) = drop n xs

  abbrev pub is_empty : List A → Bool
  is_empty [] = true
  is_empty (_ ∷ _) = false

  abbrev pub any : (A → Bool) → List A → Bool
  any p [] = false
  any p (x ∷ xs) = p x || any p xs

  -- The first element that passes the test: a `for` loop that returns at once.
  abbrev pub find? : (A → Bool) → List A → Option A
  find? p [] = none
  find? p (x ∷ xs) = if p x then some x else find? p xs

  -- A comprehension with an `if`.
  abbrev pub filter : (A → Bool) → List A → List A
  filter p [] = []
  filter p (x ∷ xs) = let rest = filter p xs in if p x then x ∷ rest else rest

  pub length-append : (xs ys : List A) → length (xs ++ ys) ≡ length xs + length ys
  length-append [] ys = omega arith
  length-append (x ∷ xs) ys = omega (arith, length-append xs ys)

  pub length-drop : (n : ℕ) (xs : List A) → length (drop n xs) ≡ length xs - n
  length-drop zero xs = omega arith
  length-drop (suc n) [] = omega arith
  length-drop (suc n) (x ∷ xs) = omega (arith, length-drop n xs)

  abbrev pub All {κ} : (A → Type κ) → List A → Type κ
  All P [] = Unit
  All P (x ∷ xs) = P x × All P xs

  pub All-Memᴰ {κ} : (P : A → Type κ) {a : A} {xs : List A} → All P xs → Memᴰ a xs → P a
  All-Memᴰ P h (Memᴰ.head e) = subst P (sym e) h.0
  All-Memᴰ P h (Memᴰ.tail m) = All-Memᴰ P h.1 m

  pub Memᴰ_swap : {a x y : A} {xs : List A} → Memᴰ a (x ∷ y ∷ xs) → Memᴰ a (y ∷ x ∷ xs)
  Memᴰ_swap (Memᴰ.head e) = Memᴰ.tail (Memᴰ.head e)
  Memᴰ_swap (Memᴰ.tail (Memᴰ.head e)) = Memᴰ.head e
  Memᴰ_swap (Memᴰ.tail (Memᴰ.tail m)) = Memᴰ.tail (Memᴰ.tail m)

  pub Memᴰ_under :
      {a x : A} {xs ys : List A} → (Memᴰ a xs → Memᴰ a ys) → Memᴰ a (x ∷ xs) → Memᴰ a (x ∷ ys)
  Memᴰ_under f (Memᴰ.head e) = Memᴰ.head e
  Memᴰ_under f (Memᴰ.tail m) = Memᴰ.tail (f m)

  pub Memᴰ_past : {a x : A} {xs : List A} → a ≢ x → Memᴰ a (x ∷ xs) → Memᴰ a xs
  Memᴰ_past ne (Memᴰ.head e) = absurd (ne e)
  Memᴰ_past ne (Memᴰ.tail m) = m

  pub Memᴰ-filter :
      (p : A → Bool) {a : A} (xs : List A) → Memᴰ a (filter p xs) → Memᴰ a xs × (p a ≡ true)
  Memᴰ-filter p [] m = elim m [ ]
  Memᴰ-filter p {a} (x ∷ xs) m = elim (Bool-cases (p x)) [
    | inl hit ↦ kept hit (Memᴰ-filter p xs) (rw hit at m)
    | inr miss ↦ let (n, q) = Memᴰ-filter p xs (rw miss at m) in (Memᴰ.tail n, q)
  ]
    where
      kept :
          p x ≡ true
          → (Memᴰ a (filter p xs) → Memᴰ a xs × (p a ≡ true))
          → Memᴰ a (x ∷ filter p xs)
          → Memᴰ a (x ∷ xs) × (p a ≡ true)
      kept hit ih (Memᴰ.head e) = (Memᴰ.head e, rw e hit)
      kept hit ih (Memᴰ.tail n) = let (o, q) = ih n in (Memᴰ.tail o, q)

  pub filter-Memᴰ :
      (p : A → Bool) {a : A} (xs : List A) → p a ≡ true → Memᴰ a xs → Memᴰ a (filter p xs)
  filter-Memᴰ p [] q m = m
  filter-Memᴰ p (x ∷ xs) q m = elim (Bool-cases (p x)) [
    | inl hit ↦ rw hit (Memᴰ_under (filter-Memᴰ p xs q) m)
    | inr miss ↦ rw miss (filter-Memᴰ p xs q (Memᴰ_past (λ e. cc) m))
  ]

  pub All-map {κ μ} :
      (P : A → Type κ) (Q : A → Type μ)
      → ((a : A) → P a → Q a)
      → (xs : List A) → All P xs
      → All Q xs
  All-map P Q f [] h = tt
  All-map P Q f (x ∷ xs) h = (f x h.0, All-map P Q f xs h.1)

  pub All-of_Memᴰ {κ} : {P : A → Type κ} (xs : List A) → ((a : A) → Memᴰ a xs → P a) → All P xs
  All-of_Memᴰ [] h = tt
  All-of_Memᴰ (x ∷ xs) h = (h x (Memᴰ.head refl), All-of_Memᴰ xs (λ a m. h a (Memᴰ.tail m)))

  -- A `for` loop that returns at the first hit, described from outside.
  pub find?-eq-some :
      (p : A → Bool) (xs : List A) {a : A} → find? p xs ≡ some a → Memᴰ a xs × (p a ≡ true)
  find?-eq-some p [] h = cc
  find?-eq-some p (x ∷ xs) {a} h = elim (Bool-cases (p x)) [
    | inl hit ↦ let e : a ≡ x = some-injective _ _ (sym (rw hit at h)) in (Memᴰ.head e, rw e hit)
    | inr miss ↦ let (m, q) = find?-eq-some p xs (rw miss at h) in (Memᴰ.tail m, q)
  ]

  pub find?-eq-none : (p : A → Bool) (xs : List A) → find? p xs ≡ none → All (λ a. p a ≡ false) xs
  find?-eq-none p [] h = tt
  find?-eq-none p (x ∷ xs) h = elim (Bool-cases (p x)) [
    | inl hit ↦ absurd (some-ne-none _ (rw hit at h))
    | inr miss ↦ (miss, find?-eq-none p xs (rw miss at h))
  ]
