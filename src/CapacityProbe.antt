-- ===== src/CapacityProbe.antt =====
-- tools/capacity_probe.py: what the probe makes of a level of calls that it has offered, the gap of the
-- event loop, and the option that names the levels. The S-SBC mock that places the calls is the module
-- `TrunkUac`. How `int` reads a text and the clock are parameters.
pub mod Laws
pub mod Unreachable
pub mod Load
use rdparty_as_poc.Prelude.{
  ℕ, zero, suc, ◌+◌, ◌-◌, String, Bool, true, false, not, ◌&&◌, ◌||◌, Option, none, some, List, [],
  ◌∷◌, map, length, is_empty, ◌==◌, str_eq, if◌then◌else◌, Result, ok, err, ◌>>=◌,
}
use rdparty_as_poc.Prelude.Whitespace.{strip}
use rdparty_as_poc.Prelude.Int.{ℤ}
use rdparty_as_poc.Prelude.Float.{Floats}
use rdparty_as_poc.Startup.{split_commas}
use rdparty_as_poc.TrunkUac.{CallOutcome, CallScenario, TrunkUac, outcome_for, place_call}

abbrev pub has_status : ℕ → Option ℕ → Bool
has_status n none = false
has_status n (some m) = m == n

abbrev pub is_released : Option CallOutcome → Bool
is_released none = false
is_released (some o) = o.released

-- The three generators of `observe_level`.
abbrev pub is_completed : Option CallOutcome → Bool
is_completed none = false
is_completed (some o) = o.released && has_status 200 o.status

abbrev pub is_non_200 : Option CallOutcome → Bool
is_non_200 none = false
is_non_200 (some o) = o.released && not (has_status 200 o.status)

abbrev pub is_pending : Option CallOutcome → Bool
is_pending none = true
is_pending (some o) = not o.released

-- `sum(1 for x in xs if p(x))`
unfoldable pub count_if {ℓ} : {A : Type ℓ} → (A → Bool) → List A → ℕ
count_if p [] = 0
count_if p (x ∷ xs) = let rest = count_if p xs in if p x then suc rest else rest

abbrev pub all {ℓ} : {A : Type ℓ} → (A → Bool) → List A → Bool
all p [] = true
all p (x ∷ xs) = p x && all p xs

-- `all_released`
unfoldable pub all_released : List String → List CallOutcome → Bool
unfolding outcome_for
all_released call_ids os = all (λ id. is_released (outcome_for id os)) call_ids

abbrev pub add_placed :
    Result String String × TrunkUac
    → Result String (List String) × TrunkUac
    → Result String (List String) × TrunkUac
add_placed (err e, u) rest = (err e, u)
add_placed (ok id, u) (ids, v) = (ids >>= λ others. ok (id ∷ others), v)

-- `place_burst`, over the scenarios and the Call-IDs that the stack generates.
unfoldable pub place_burst :
    (ℕ → CallScenario) → (ℕ → String) → ℕ → ℕ → TrunkUac → Result String (List String) × TrunkUac
place_burst scenario call_id first_index zero u = (ok [], u)
place_burst scenario call_id first_index (suc n) u =
    let placed = place_call (scenario first_index) (call_id first_index) u in
    add_placed placed (place_burst scenario call_id (first_index + 1) n placed.1)

pub record LevelObservation : Type 0 where
  pub offered : ℕ
  pub completed : ℕ
  pub non_200 : ℕ
  pub pending : ℕ
  pub finished_within_cap : Bool

-- `draw_loop_until`, over whether a poll saw the condition hold, and the condition behind the loop.
abbrev pub draw_loop_until : Bool → Bool → Bool
draw_loop_until done holds = done || holds

-- `observe_level` behind the burst, over what the mock has recorded when the loop ends,
-- less the calls that reached the core and the loop's gap.
unfoldable pub observe_level : ℕ → List String → Bool → List CallOutcome → LevelObservation
unfolding outcome_for
observe_level offered call_ids done os =
    let outcomes = map (λ id. outcome_for id os) call_ids in
    record {
      offered = offered;
      completed = count_if is_completed outcomes;
      non_200 = count_if is_non_200 outcomes;
      pending = count_if is_pending outcomes;
      finished_within_cap = draw_loop_until done (all_released call_ids os);
    }

abbrev pub is_positive : ℤ → Bool
is_positive (ℤ.pos zero) = false
is_positive (ℤ.pos (suc n)) = true
is_positive (ℤ.negsuc n) = false

abbrev pub add_level : Option ℤ → Result String (List ℤ) → Result String (List ℤ)
add_level none rest = err "not an integer"
add_level (some level) rest =
    if is_positive level then (rest >>= λ ls. ok (level ∷ ls)) else err "level must be positive"

-- The loop of `parse_levels`, over how `int` reads a text, and `none` where it raises.
unfoldable pub parse_parts : (String → Option ℤ) → List String → Result String (List ℤ)
unfolding strip
parse_parts int [] = ok []
parse_parts int (part ∷ parts) =
    let rest = parse_parts int parts in
    if str_eq (strip part) "" then rest else add_level (int (strip part)) rest

abbrev pub some_levels : List ℤ → Result String (List ℤ)
some_levels [] = err "at least one level is required"
some_levels (l ∷ ls) = ok (l ∷ ls)

-- `parse_levels`
unfoldable pub parse_levels : (String → Option ℤ) → String → Result String (List ℤ)
unfolding split_commas
parse_levels int value = parse_parts int (split_commas value) >>= some_levels
