-- ===== src/CallModel/Laws.antt =====
-- What a checked configuration guarantees (tools/call_load_generator.py, `PoolConfig`).
use mathlib.Core.List.{Memᴰ}
use rdparty_as_poc.Prelude.{
  ℕ, zero, suc, ◌≤◌, ◌%◌, String, ◌≡◌, refl, subst, ◌≢◌, true, false, List, [], ◌∷◌, arith, All,
  All-Memᴰ, length, inl, inr, Bool-cases, is_empty, str_mem, some, ok, str_mem-Memᴰ,
}
use rdparty_as_poc.Prelude.Sort.{sort_by-Memᴰ, Memᴰ-sort_by}
use rdparty_as_poc.Prelude.Float.{Floats}
use rdparty_as_poc.CallModel.{
  Rates, PoolConfig, check_config, validate_enabled_for_topology, types_for_topology, all_types,
  difference, element, choose, sorted, pick,
}

element-Memᴰ : (n : ℕ) (x : String) (xs : List String) → Memᴰ (element n x xs) (x ∷ xs)
element-Memᴰ n x [] = Memᴰ.head refl
element-Memᴰ zero x (y ∷ ys) = Memᴰ.head refl
element-Memᴰ (suc n) x (y ∷ ys) = Memᴰ.tail (element-Memᴰ n y ys)

choose-some :
    (n : ℕ) (xs : List String) → xs ≢ [] → (t : String) × (choose n xs ≡ some t) × Memᴰ t xs
choose-some n [] ne = absurd (ne refl)
choose-some n (x ∷ xs) ne =
    let i = n % suc (length xs) in (element i x xs, refl, element-Memᴰ i x xs)

sorted_ne : (xs : List String) → xs ≢ [] → sorted xs ≢ []
sorted_ne [] ne e = ne refl
sorted_ne (x ∷ xs) ne e =
    elim (subst (λ ys. Memᴰ x ys) e (Memᴰ-sort_by (λ s. (0, s)) (x ∷ xs) (Memᴰ.head refl))) [ ]

-- With some call types enabled, all of them known, a pick is one of them.
pub pick-Memᴰ :
    (draw : ℕ) (enabled : List String)
    → enabled ≢ []
    → is_empty (difference enabled all_types) ≡ true
    → (t : String) × (pick draw enabled ≡ ok t) × Memᴰ t enabled
unfolding pick
pick-Memᴰ draw [] ne known = absurd (ne refl)
pick-Memᴰ draw (x ∷ xs) ne known =
    let (t, found, m) = choose-some draw (sorted (x ∷ xs)) (sorted_ne (x ∷ xs) ne) in
    (t, rw (known, found), sort_by-Memᴰ (λ s. (0, s)) (x ∷ xs) m)

difference-All :
    (xs ys : List String) → is_empty (difference xs ys) ≡ true → All (λ x. str_mem x ys ≡ true) xs
difference-All [] ys h = tt
difference-All (x ∷ xs) ys h = elim (Bool-cases (str_mem x ys)) [
  | inl hit ↦ (hit, difference-All xs ys (rw hit at h))
  | inr miss ↦ cc (rw miss at h)
]

module _ (f : Floats) (rates : Rates f) where
  -- A configuration that passes.
  abbrev pub IsChecked : PoolConfig f rates → Type 0
  IsChecked c = check_config f rates c ≡ ok tt

  pub IsChecked-parts :
      (c : PoolConfig f rates)
      → IsChecked c
      → ((1 ≤ c.target_concurrency) × (c.target_concurrency ≤ 50))
        × ((f.leb rates.tenth c.call_rate ≡ true) × (f.leb c.call_rate rates.ten ≡ true))
        × (is_empty c.enabled_call_types ≡ false)
        × (is_empty (difference c.enabled_call_types all_types) ≡ true)
        × (is_empty (difference c.enabled_call_types (types_for_topology c.topology)) ≡ true)
  unfolding check_config validate_enabled_for_topology
  IsChecked-parts c h = ground arith

  -- Every call type that a checked configuration lets be picked belongs to its topology, and one is
  -- always picked.
  pub pick-IsChecked :
      (c : PoolConfig f rates) (draw : ℕ)
      → IsChecked c
      → (t : String) × (pick draw c.enabled_call_types ≡ ok t)
        × Memᴰ t c.enabled_call_types
        × Memᴰ t (types_for_topology c.topology)
  pick-IsChecked c draw h =
      let (_, _, some_type, known, valid) = IsChecked-parts c h in
      let ne : c.enabled_call_types ≢ [] = λ e. cc (rw e at some_type) in
      let (t, picked, m) = pick-Memᴰ draw c.enabled_call_types ne known in
      let allowed = types_for_topology c.topology in
      (
        t,
        picked,
        m,
        str_mem-Memᴰ t allowed (
            All-Memᴰ (λ x. str_mem x allowed ≡ true)
              (difference-All c.enabled_call_types allowed valid) m),
      )
