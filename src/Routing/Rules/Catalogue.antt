-- ===== src/Routing/Rules/Catalogue.antt =====
-- The next hops of a loaded rule set: each name of the catalogue resolves to a hop of that name.
use mathlib.Core.Bool.{false≢true}
use mathlib.Core.List.{Memᴰ}
use mathlib.Core.Option.{some-injective}
use rdparty_as_poc.Prelude.{
  String, ◌≡◌, refl, sym, ◌∙◌, ap, true, List, [], ◌∷◌, map, foldl, arith, All, some, inl, inr,
  Bool-cases, Option-cases, is_some, ◌||◌, subst, str_mem, str_eq, eq_iff, ok,
}
use rdparty_as_poc.Prelude.Dict.{Dict, lookup, lookup-insert}
use rdparty_as_poc.Routing.Rules.{
  NextHop, RoutingRulesDocument, hop_names, add_hop, catalogue_of, make_rule_set, next_hop, resolve,
}

-- Every entry is a hop of the list, under its own name.
abbrev IsNamed : List NextHop → Dict NextHop → Type 0
IsNamed hs d = (n : String) (h : NextHop) → lookup n d ≡ some h → (h.name ≡ n) × Memᴰ h hs

add_hop-IsNamed :
    (hs : List NextHop) (d : Dict NextHop) (h : NextHop)
    → Memᴰ h hs
    → IsNamed hs d
    → IsNamed hs (add_hop d h)
add_hop-IsNamed hs d h m old n g e = elim (Bool-cases (str_eq h.name n)) [
  | inl new ↦
      let same : h ≡ g = some-injective _ _ (rw (lookup-insert h.name n h d, new) at e) in
      (
        ap (λ (x : NextHop). x.name) (sym same) ∙ (eq_iff h.name n).0 new,
        subst (λ x. Memᴰ x hs) same m,
      )
  | inr other ↦ old n g (rw (lookup-insert h.name n h d, other) at e)
]

foldl-IsNamed :
    (hs xs : List NextHop) (d : Dict NextHop)
    → ((h : NextHop) → Memᴰ h xs → Memᴰ h hs)
    → IsNamed hs d
    → IsNamed hs (foldl add_hop d xs)
foldl-IsNamed hs [] d sub named = named
foldl-IsNamed hs (x ∷ xs) d sub named =
    foldl-IsNamed hs xs (add_hop d x) (λ h m. sub h (Memᴰ.tail m))
      (add_hop-IsNamed hs d x (sub x (Memᴰ.head refl)) named)

catalogue_of-IsNamed : (hs : List NextHop) → IsNamed hs (catalogue_of hs)
unfolding catalogue_of lookup
catalogue_of-IsNamed hs = foldl-IsNamed hs hs [] (λ h m. m) (λ n h e. cc)

foldl-is_some :
    (n : String) (xs : List NextHop) (d : Dict NextHop)
    → is_some (lookup n (foldl add_hop d xs))
      ≡ (is_some (lookup n d) || str_mem n (map (λ (h : NextHop). h.name) xs))
foldl-is_some n [] d = ground arith
foldl-is_some n (x ∷ xs) d = ground (
  arith,
  foldl-is_some n xs (add_hop d x),
  lookup-insert x.name n x d,
  eq_iff x.name n,
  eq_iff n x.name,
)

-- A name is in the catalogue exactly when a hop bears it.
catalogue_of-is_some :
    (n : String) (hs : List NextHop)
    → is_some (lookup n (catalogue_of hs)) ≡ str_mem n (map (λ (h : NextHop). h.name) hs)
unfolding catalogue_of lookup
catalogue_of-is_some n hs = foldl-is_some n hs []

module _ (d : RoutingRulesDocument) (source : String) where
  -- What the names of one action resolve to: hops of the document, under those names, in order.
  abbrev pub Resolved : List String → List NextHop → Type 0
  Resolved [] [] = Unit
  Resolved (n ∷ ns) (h ∷ hs) = (h.name ≡ n) × Memᴰ h d.next_hops × Resolved ns hs
  Resolved _ _ = ⊥

  -- A name that some hop of the document bears resolves, to a hop of the document under that name.
  pub next_hop-known :
      (n : String)
      → str_mem n (hop_names d) ≡ true
      → (h : NextHop) × (next_hop (make_rule_set d source) n ≡ ok h)
        × (h.name ≡ n)
        × Memᴰ h d.next_hops
  unfolding next_hop make_rule_set
  next_hop-known n known = elim (Option-cases (lookup n (catalogue_of d.next_hops))) [
    | inl gone ↦
        absurd (false≢true (sym (ap is_some gone) ∙ catalogue_of-is_some n d.next_hops ∙ known))
    | inr (h, found) ↦
        let (name, m) = catalogue_of-IsNamed d.next_hops n h found in
        (h, rw (found, next_hop), name, m)
  ]

  pub resolve-known :
      (ns : List String)
      → All (λ n. str_mem n (hop_names d) ≡ true) ns
      → (hs : List NextHop) × (resolve (make_rule_set d source) ns ≡ ok hs) × Resolved ns hs
  unfolding resolve
  resolve-known [] k = ([], refl, tt)
  resolve-known (n ∷ ns) k =
      let (h, found, name, m) = next_hop-known n k.0 in
      let (hs, rest, r) = resolve-known ns k.1 in (h ∷ hs, rw (found, rest), (name, m, r))
