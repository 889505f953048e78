-- ===== src/Prelude/Dict.antt =====
-- A Python dict with text keys, in insertion order.
use rdparty_as_poc.Prelude.{
  ℕ, suc, length, map, String, ◌≡◌, refl, Option, none, some, List, [], ◌∷◌, arith, str_eq, eq_iff,
  if◌then◌else◌, All, Bool-cases, sym, inl, inr,
}
use mathlib.Core.Option.{some-injective, some-ne-none}

abbrev pub Dict {ℓ} : Type ℓ → Type ℓ
Dict V = List (String × V)

-- How often a text stands in a list.
abbrev pub count : String → List String → ℕ
count k [] = 0
count k (j ∷ js) = let rest = count k js in if str_eq j k then suc rest else rest

module _ {ℓ} {V : Type ℓ} where
  unfoldable pub lookup : String → Dict V → Option V
  lookup k [] = none
  lookup k ((j, v) ∷ d) = if str_eq j k then some v else lookup k d

  -- `d[k] = v`
  unfoldable pub insert : String → V → Dict V → Dict V
  insert k v [] = (k, v) ∷ []
  insert k v ((j, w) ∷ d) = if str_eq j k then (k, v) ∷ d else (j, w) ∷ insert k v d

  pub lookup-insert :
      (k j : String) (v : V) (d : Dict V)
      → lookup j (insert k v d) ≡ (if str_eq k j then some v else lookup j d)
  unfolding lookup insert
  lookup-insert k j v [] = refl
  lookup-insert k j v ((i, w) ∷ d) =
      ground (arith, eq_iff k j, eq_iff i k, eq_iff i j, lookup-insert k j v d)

  -- `del d[k]`
  unfoldable pub remove : String → Dict V → Dict V
  remove k [] = []
  remove k ((j, v) ∷ d) = let rest = remove k d in if str_eq j k then d else (j, v) ∷ rest

  pub length-insert :
      (k : String) (v : V) (d : Dict V) → lookup k d ≡ none → length (insert k v d) ≡ suc (length d)
  unfolding lookup insert
  length-insert k v [] absent = refl
  length-insert k v ((j, w) ∷ d) absent = ground (arith, length-insert k v d)

  pub length-remove :
      (k : String) (d : Dict V) {v : V} → lookup k d ≡ some v → length d ≡ suc (length (remove k d))
  unfolding lookup remove
  length-remove k [] present = cc
  length-remove k ((j, w) ∷ d) {v} present = ground (arith, length-remove k d {v = v})

  abbrev pub keys : Dict V → List String
  keys d = map (λ e. e.0) d

  pub count-insert :
      (j k : String) (v : V) (d : Dict V)
      → count k (keys d) ≡ 0
      → count j (keys (insert k v d)) ≡ count j (k ∷ keys d)
  unfolding insert
  count-insert j k v [] fresh = refl
  count-insert j k v ((i, w) ∷ d) fresh =
      ground (arith, count-insert j k v d, eq_iff i k, eq_iff i j)

  pub count-remove :
      (j k : String) (d : Dict V) {v : V}
      → lookup k d ≡ some v
      → count j (k ∷ keys (remove k d)) ≡ count j (keys d)
  unfolding lookup remove
  count-remove j k [] present = cc
  count-remove j k ((i, w) ∷ d) {v} present =
      ground (arith, count-remove j k d {v = v}, eq_iff i k, eq_iff i j)

  pub remove_absent : (k : String) (d : Dict V) → lookup k d ≡ none → remove k d ≡ d
  unfolding lookup remove
  remove_absent k [] absent = refl
  remove_absent k ((i, w) ∷ d) absent = ground (arith, remove_absent k d)

  -- What holds of each entry.
  pub All-insert {κ} :
      (P : String × V → Type κ) (k : String) (v : V) (d : Dict V)
      → P (k, v)
      → All P d
      → All P (insert k v d)
  unfolding insert
  All-insert P k v [] p h = (p, tt)
  All-insert P k v ((j, w) ∷ d) p h = elim (Bool-cases (str_eq j k)) [
    | inl same ↦ rw same (p, h.1)
    | inr other ↦ rw other (h.0, All-insert P k v d p h.1)
  ]

  pub All-remove {κ} :
      (P : String × V → Type κ) (k : String) (d : Dict V) → All P d → All P (remove k d)
  unfolding remove
  All-remove P k [] h = tt
  All-remove P k ((j, w) ∷ d) h = elim (Bool-cases (str_eq j k)) [
    | inl same ↦ rw same h.1
    | inr other ↦ rw other (h.0, All-remove P k d h.1)
  ]

  pub All-lookup {κ} :
      (P : String × V → Type κ) (k : String) (d : Dict V) {v : V}
      → All P d
      → lookup k d ≡ some v
      → P (k, v)
  unfolding lookup
  All-lookup P k [] h found = absurd (some-ne-none _ (sym found))
  All-lookup P k ((j, w) ∷ d) {v} h found = elim (Bool-cases (str_eq j k)) [
    | inl same ↦
        let e : w ≡ v = some-injective _ _ (rw same at found) in
        rw (sym ((eq_iff j k).0 same), sym e) h.0
    | inr other ↦ All-lookup P k d h.1 (rw other at found)
  ]

  pub count-lookup : (k : String) (d : Dict V) → lookup k d ≡ none → count k (keys d) ≡ 0
  unfolding lookup
  count-lookup k [] absent = refl
  count-lookup k ((j, w) ∷ d) absent = ground (arith, count-lookup k d)

  pub lookup-count : (k : String) (d : Dict V) → count k (keys d) ≡ 0 → lookup k d ≡ none
  unfolding lookup
  lookup-count k [] absent = refl
  lookup-count k ((j, w) ∷ d) absent = ground (arith, lookup-count k d)
