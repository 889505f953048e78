-- ===== src/Prelude/Sort.antt =====
-- Python's `sorted(xs, key=…)`: stable, by a Boolean order, here as an insertion sort. The key of
-- both sorts in the program is a number followed by a name.
use mathlib.Core.List.{Memᴰ}
use mathlib.Core.Bool.{false≢true}
use mathlib.Core.Option.{some, some-injective}
use rdparty_as_poc.Prelude.{
  ℕ, String, ◌≡◌, sym, ap, ◌∙◌, subst, ◌⊎◌, inl, inr, Bool, true, false, List, [], ◌∷◌, arith, ltb,
  ◌==◌, if◌then◌else◌, Bool-cases, str_le, str_le_total, str_le_trans, str_le_antisymm, All,
  All-map, All-Memᴰ, Memᴰ_swap, Memᴰ_under, Memᴰ_past, find?,
}

-- Tuples compare by the first component, then by the second.
unfoldable pub key_le : ℕ × String → ℕ × String → Bool
key_le (p, s) (q, t) = if ltb p q then true else (if p == q then str_le s t else false)

pub key_le_total : (a b : ℕ × String) → (key_le a b ≡ true) ⊎ (key_le b a ≡ true)
unfolding key_le
key_le_total (p, s) (q, t) = ground (arith, str_le_total s t)

pub key_le_refl : (a : ℕ × String) → key_le a a ≡ true
key_le_refl a = ground (arith, key_le_total a a)

pub key_le_trans : (a b c : ℕ × String) → key_le a b ≡ true → key_le b c ≡ true → key_le a c ≡ true
unfolding key_le
key_le_trans (p, s) (q, t) (r, u) h k = ground (arith, str_le_trans s t u)

pub key_le_antisymm :
    (a b : ℕ × String) → key_le a b ≡ true → key_le b a ≡ true → (a.0 ≡ b.0) × (a.1 ≡ b.1)
unfolding key_le
key_le_antisymm (p, s) (q, t) h k = ground (arith, str_le_antisymm s t)

module _ {ℓ} {A : Type ℓ} (key : A → ℕ × String) where
  abbrev insert_by : A → List A → List A
  insert_by x [] = x ∷ []
  insert_by x (y ∷ ys) =
      let rest = insert_by x ys in if key_le (key x) (key y) then x ∷ y ∷ ys else y ∷ rest

  abbrev pub sort_by : List A → List A
  sort_by [] = []
  sort_by (x ∷ xs) = insert_by x (sort_by xs)

  -- Every element has no larger key than those behind it.
  abbrev pub IsSorted : List A → Type ℓ
  IsSorted [] = Unit
  IsSorted (x ∷ xs) = All (λ y. key_le (key x) (key y) ≡ true) xs × IsSorted xs

  insert_by-All {κ} :
      (P : A → Type κ) (x : A) (xs : List A) → P x → All P xs → All P (insert_by x xs)
  insert_by-All P x [] p h = (p, tt)
  insert_by-All P x (y ∷ ys) p h = elim (Bool-cases (key_le (key x) (key y))) [
    | inl low ↦ rw low (p, h)
    | inr high ↦ rw high (h.0, insert_by-All P x ys p h.1)
  ]

  insert_by-IsSorted : (x : A) (xs : List A) → IsSorted xs → IsSorted (insert_by x xs)
  insert_by-IsSorted x [] s = (tt, tt)
  insert_by-IsSorted x (y ∷ ys) s = elim (Bool-cases (key_le (key x) (key y))) [
    | inl low ↦
        rw low ((low, All-map _ _ (λ z h. key_le_trans (key x) (key y) (key z) low h) ys s.0), s)
    | inr high ↦
        let back : key_le (key y) (key x) ≡ true = ground (arith, key_le_total (key x) (key y)) in
        rw high (
          insert_by-All (λ z. key_le (key y) (key z) ≡ true) x ys back s.0,
          insert_by-IsSorted x ys s.1,
        )
  ]

  pub sort_by-IsSorted : (xs : List A) → IsSorted (sort_by xs)
  sort_by-IsSorted [] = tt
  sort_by-IsSorted (x ∷ xs) = insert_by-IsSorted x (sort_by xs) (sort_by-IsSorted xs)

  insert_by-Memᴰ : {a : A} (x : A) (xs : List A) → Memᴰ a (insert_by x xs) → Memᴰ a (x ∷ xs)
  insert_by-Memᴰ x [] m = m
  insert_by-Memᴰ x (y ∷ ys) m = elim (Bool-cases (key_le (key x) (key y))) [
    | inl low ↦ rw low at m
    | inr high ↦ Memᴰ_swap (Memᴰ_under (insert_by-Memᴰ x ys) (rw high at m))
  ]

  Memᴰ-insert_by : {a : A} (x : A) (xs : List A) → Memᴰ a (x ∷ xs) → Memᴰ a (insert_by x xs)
  Memᴰ-insert_by x [] m = m
  Memᴰ-insert_by x (y ∷ ys) m = elim (Bool-cases (key_le (key x) (key y))) [
    | inl low ↦ rw low m
    | inr high ↦ rw high (Memᴰ_under (Memᴰ-insert_by x ys) (Memᴰ_swap m))
  ]

  -- Sorting drops nothing and adds nothing.
  pub sort_by-Memᴰ : {a : A} (xs : List A) → Memᴰ a (sort_by xs) → Memᴰ a xs
  sort_by-Memᴰ [] m = m
  sort_by-Memᴰ (x ∷ xs) m = Memᴰ_under (sort_by-Memᴰ xs) (insert_by-Memᴰ x (sort_by xs) m)

  pub Memᴰ-sort_by : {a : A} (xs : List A) → Memᴰ a xs → Memᴰ a (sort_by xs)
  Memᴰ-sort_by [] m = m
  Memᴰ-sort_by (x ∷ xs) m = Memᴰ-insert_by x (sort_by xs) (Memᴰ_under (Memᴰ-sort_by xs) m)

  -- The first hit in a sorted list has a key no larger than any other hit.
  pub find?-least :
      (p : A → Bool) (xs : List A) {a : A}
      → IsSorted xs
      → find? p xs ≡ some a
      → (b : A) → Memᴰ b xs
      → p b ≡ true
      → key_le (key a) (key b) ≡ true
  find?-least p [] s h b m q = elim m [ ]
  find?-least p (x ∷ xs) {a} s h b m q = elim (Bool-cases (p x)) [
    | inl hit ↦
        subst (λ c. key_le (key c) (key b) ≡ true) (some-injective _ _ (rw hit at h))
          (All-Memᴰ (λ z. key_le (key x) (key z) ≡ true) (key_le_refl (key x), s.0) m)
    | inr miss ↦
        find?-least p xs s.1 (rw miss at h) b
          (Memᴰ_past (λ e. false≢true (sym miss ∙ sym (ap p e) ∙ q)) m) q
  ]
