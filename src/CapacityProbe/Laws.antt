-- ===== src/CapacityProbe/Laws.antt =====
-- The figures of a level add up, and a level that finished leaves no call pending
-- (tools/capacity_probe.py); the levels of the option are read back.
use rdparty_as_poc.Prelude.{
  ◌==◌, ℕ, zero, suc, ◌+◌, String, ◌≡◌, refl, sym, ap, ◌∙◌, inl, inr, Bool, true, false, Option,
  some, List, [], ◌∷◌, map, length, All, arith, str_eq, eq_iff, Result, ok, err, ok-injective,
  Bool-cases, Option-cases,
}
use rdparty_as_poc.Prelude.Int.{ℤ}
use rdparty_as_poc.Startup.Laws.{IsPeer, join_commas, split_commas-join_commas}
use rdparty_as_poc.TrunkUac.{CallOutcome, CallScenario, TrunkUac, outcome_for, place_call}
use rdparty_as_poc.TrunkUac.Laws.{Reach, Reach-IsLater}
use rdparty_as_poc.CapacityProbe.{
  is_released, is_completed, is_non_200, is_pending, count_if, all_released, place_burst,
  add_placed, observe_level, is_positive, parse_parts, parse_levels,
}

count_if-partition :
    (os : List (Option CallOutcome))
    → count_if is_completed os + count_if is_non_200 os + count_if is_pending os ≡ length os
unfolding count_if
count_if-partition [] = refl
count_if-partition (o ∷ os) = ground (arith, count_if-partition os)

length-map {ℓ κ} :
    {A : Type ℓ} {B : Type κ} (f : A → B) (xs : List A) → length (map f xs) ≡ length xs
length-map f [] = refl
length-map f (x ∷ xs) = ap suc (length-map f xs)

-- A call that is released stays so.
released_later :
    (u v : TrunkUac) (id : String)
    → Reach u v
    → is_released (outcome_for id u.outcomes) ≡ true
    → is_released (outcome_for id v.outcomes) ≡ true
released_later u v id r h = elim (Option-cases (outcome_for id u.outcomes)) [
  | inl absent ↦ cc (rw absent at h)
  | inr (o, found) ↦
      let (q, found', later) = Reach-IsLater u v id o r found in
      let was : o.released ≡ true = rw found at h in rw found' (ground (arith, later.released, was))
]

pub all_released_later :
    (u v : TrunkUac) (ids : List String)
    → Reach u v
    → all_released ids u.outcomes ≡ true
    → all_released ids v.outcomes ≡ true
unfolding all_released
all_released_later u v [] r h = refl
all_released_later u v (id ∷ ids) r h =
    ground (arith, released_later u v id r, all_released_later u v ids r)

is_zero-pending :
    (ids : List String) (os : List CallOutcome)
    → all_released ids os ≡ (count_if is_pending (map (λ id. outcome_for id os) ids) == 0)
unfolding all_released count_if
is_zero-pending [] os = refl
is_zero-pending (id ∷ ids) os = ground (arith, is_zero-pending ids os)

add_placed-length :
    (r : Result String String × TrunkUac) (q : Result String (List String) × TrunkUac)
    {ids : List String}
    → (add_placed r q).0 ≡ ok ids
    → (rest : List String) × (q.0 ≡ ok rest) × (length ids ≡ suc (length rest))
add_placed-length (err e, u) (q, v) h = cc
add_placed-length (ok id, u) (err e, v) h = cc
add_placed-length (ok id, u) (ok others, v) h = (others, refl, ap length (sym (ok-injective h)))

pub length-place_burst :
    (scenario : ℕ → CallScenario) (call_id : ℕ → String) (first_index n : ℕ) (u : TrunkUac)
    {ids : List String}
    → (place_burst scenario call_id first_index n u).0 ≡ ok ids
    → length ids ≡ n
unfolding place_burst
length-place_burst scenario call_id first_index zero u h = ap length (sym (ok-injective h))
length-place_burst scenario call_id first_index (suc n) u {ids} h =
    let placed = place_call (scenario first_index) (call_id first_index) u in
    let (rest, more, longer) =
      add_placed-length placed (place_burst scenario call_id (first_index + 1) n placed.1) h in
    longer ∙ ap suc (length-place_burst scenario call_id (first_index + 1) n placed.1 more)

-- Where a burst of calls is placed, and the loop is driven until a poll sees every call released or the
-- time is up, the calls that completed, those that failed and those pending add up to the calls
-- offered, whatever else happened to the calls in between and behind the poll; and the level is reported
-- as finished exactly when none is pending.
pub observe_level-partition :
    (scenario : ℕ → CallScenario) (call_id : ℕ → String) (first_index offered : ℕ)
    (u v w : TrunkUac) (done : Bool) (ids : List String)
    → (place_burst scenario call_id first_index offered u).0 ≡ ok ids
    → (done ≡ true → all_released ids v.outcomes ≡ true)
    → Reach v w
    → let level = observe_level offered ids done w.outcomes in
      (level.completed + level.non_200 + level.pending ≡ offered)
      × (level.finished_within_cap ≡ (level.pending == 0))
unfolding observe_level
observe_level-partition scenario call_id first_index offered u v w done ids placed polled r =
    let os = map (λ id. outcome_for id w.outcomes) ids in
    (
      count_if-partition os
          ∙ length-map (λ id. outcome_for id w.outcomes) ids
          ∙ length-place_burst scenario call_id first_index offered u placed,
      elim (Bool-cases done) [
        | inl seen ↦
            rw seen
              (sym (all_released_later v w ids r (polled seen)) ∙ is_zero-pending ids w.outcomes)
        | inr late ↦ rw late (is_zero-pending ids w.outcomes)
      ],
    )

-- What the option needs of a printed level.
abbrev pub IsPrinted : (String → Option ℤ) → (ℤ → String) → ℤ → Type 0
IsPrinted int print l = (is_positive l ≡ true) × IsPeer (print l) × (int (print l) ≡ some l)

printed-IsPeer :
    (int : String → Option ℤ) (print : ℤ → String) (ls : List ℤ)
    → All (IsPrinted int print) ls
    → All IsPeer (map print ls)
printed-IsPeer int print [] h = tt
printed-IsPeer int print (l ∷ ls) (p, h) = (p.1, printed-IsPeer int print ls h)

parse_parts-print :
    (int : String → Option ℤ) (print : ℤ → String) (ls : List ℤ)
    → All (IsPrinted int print) ls
    → parse_parts int (map print ls) ≡ ok ls
unfolding parse_parts
parse_parts-print int print [] h = refl
parse_parts-print int print (l ∷ ls) ((positive, (_, stripped, filled), read), h) =
    let nonempty : str_eq (print l) "" ≡ false = ground (arith, eq_iff (print l) "", filled) in
    rw (stripped, nonempty, read, positive, parse_parts-print int print ls h) refl

-- The levels that the option lists, separated by commas and printed in any way that `int` reads back,
-- without commas and outer white space, are parsed in their order, where all are positive and there is
-- at least one.
pub parse_levels-print :
    (int : String → Option ℤ) (print : ℤ → String) (l : ℤ) (ls : List ℤ)
    → All (IsPrinted int print) (l ∷ ls)
    → parse_levels int (join_commas (map print (l ∷ ls))) ≡ ok (l ∷ ls)
unfolding parse_levels
parse_levels-print int print l ls h =
    rw
      (
        split_commas-join_commas (print l) (map print ls) (printed-IsPeer int print (l ∷ ls) h),
        parse_parts-print int print (l ∷ ls) h,
      )
      refl
