-- ===== src/CallModel.antt =====
-- tools/call_load_generator.py: the call types, the configuration of the pool and its checks.
--
-- Rates are Python floats, a parameter with the constants that the file names; the random draws of
-- `random.choices` are arguments.
pub mod Laws
use rdparty_as_poc.Prelude.{
  ℕ, zero, suc, ◌-◌, ◌+◌, ◌%◌, String, ◌<>◌, ◌≡◌, Bool, true, false, not, ◌&&◌, Option, none, some,
  List, [], ◌∷◌, ◌++◌, leb, filter, length, if◌then◌else◌, is_empty, str_eq, str_mem, Result, ok,
  err, ◌>>=◌, ◌>>◌,
}
use rdparty_as_poc.Prelude.Sort.{sort_by}
use rdparty_as_poc.Prelude.Float.{Floats}

-- `TOPOLOGIES`
pub data Topology : Type 0 where
  simple fraud chained : Topology

abbrev pub translation_types : List String
translation_types = "T1" ∷ "T2" ∷ "T3" ∷ "T4" ∷ "T5" ∷ "T6" ∷ []

abbrev pub fraud_types : List String
fraud_types = "F1" ∷ "F2" ∷ "F3" ∷ "F4" ∷ []

abbrev pub all_types : List String
all_types = translation_types ++ fraud_types

-- `CallModel.types_for_topology`
abbrev pub types_for_topology : Topology → List String
types_for_topology Topology.simple = translation_types
types_for_topology Topology.fraud = fraud_types
types_for_topology Topology.chained = all_types

-- `xs - ys` of sets
abbrev pub difference : List String → List String → List String
difference xs ys = filter (λ x. not (str_mem x ys)) xs

-- `CallModel.validate_enabled_for_topology`
unfoldable pub validate_enabled_for_topology : Topology → List String → Result String (Unit {0})
validate_enabled_for_topology topology enabled =
    if is_empty (difference enabled (types_for_topology topology))
    then ok tt
    else err "call types are not valid for topology"

-- The element that a draw of `random.choices` takes.
abbrev pub element : ℕ → String → List String → String
element n x [] = x
element zero x (y ∷ ys) = x
element (suc n) x (y ∷ ys) = element n y ys

abbrev pub choose : ℕ → List String → Option String
choose n [] = none
choose n (x ∷ xs) = some (element (n % suc (length xs)) x xs)

-- `sorted(keys)`, with the order of Python's `str`.
abbrev pub sorted : List String → List String
sorted = sort_by (λ s. (0, s))

-- `CallModel.pick`, over a draw
unfoldable pub pick : ℕ → List String → Result String String
pick draw enabled =
    if is_empty enabled
    then err "enabled_call_types must not be empty"
    else (if is_empty (difference enabled all_types)
        then elim (choose draw (sorted enabled)) [ some t ↦ ok t | none ↦ err "IndexError" ]
        else err "Unknown call types")

-- `DurationModel.pick`, over a draw of its weighted choice
abbrev pub pick_duration : ℕ → String
pick_duration draw = elim (choose draw ("D1" ∷ "D2" ∷ "D3" ∷ "D4" ∷ [])) [
  | some d ↦ d
  | none ↦ "D1"
]

-- The constants of the file, and what it does with floats beside the operations of every float.
pub record Rates (f : Floats) : Type 0 where
  pub one : f.Float
  -- `0.1` and `10.0`
  pub tenth : f.Float
  pub ten : f.Float
  -- `AVG_DURATION_SECONDS`
  pub avg_duration_seconds : f.Float
  -- `int(x)`, of a positive number
  pub trunc : f.Float → ℕ
  -- the whole number that a float is compared with
  pub of_nat : ℕ → f.Float

module _ (f : Floats) (rates : Rates f) where
  open rates use {tenth, ten, avg_duration_seconds, of_nat}

  pub record PoolConfig : Type 0 where
    pub target_concurrency : ℕ
    pub call_rate : f.Float
    pub enabled_call_types : List String
    pub topology : Topology

  -- `PoolConfig.__post_init__`
  unfoldable pub check_config : PoolConfig → Result String (Unit {0})
  check_config c =
      if not (leb 1 c.target_concurrency && leb c.target_concurrency 50)
      then err "target_concurrency must be 1..50"
      else (if not (f.leb tenth c.call_rate && f.leb c.call_rate ten)
          then err "call_rate must be 0.1..10.0"
          else (if is_empty c.enabled_call_types
              then err "enabled_call_types must not be empty"
              else (if not (is_empty (difference c.enabled_call_types all_types))
                  then err "Unknown call types"
                  else validate_enabled_for_topology c.topology c.enabled_call_types)))

  -- `compute_binding_constraint`
  unfoldable pub compute_binding_constraint : PoolConfig → String
  compute_binding_constraint c =
      if f.leb (of_nat c.target_concurrency) (f.mul c.call_rate avg_duration_seconds)
      then "concurrency"
      else "rate"
