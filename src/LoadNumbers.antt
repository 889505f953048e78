-- ===== src/LoadNumbers.antt =====
-- tools/call_load_generator.py, `MockSipUac.numbers_for`: the numbers of a generated call, each type's
-- callers in rotation.
--
-- The offsets are state of the class, shared by its instances.
pub mod Laws
use rdparty_as_poc.Prelude.{
  ℕ, zero, suc, ◌+◌, ◌-◌, ◌%◌, String, ◌<>◌, Bool, Option, none, some, List, [], ◌∷◌, ltb, length,
  if◌then◌else◌, str_eq, Result, ok, err,
}
use rdparty_as_poc.Prelude.Dict.{Dict, lookup, insert}
use rdparty_as_poc.Prelude.Decimal.{show, show_from}

-- `f"{i}"`, `f"{i:02d}"` and `f"{i:04d}"`
pub data Format : Type 0 where
  plain two four : Format

unfoldable pub print : Format → ℕ → String
unfolding show_from
print Format.plain n = show n
print Format.two n = if ltb n 10 then "0" <> show n else show n
print Format.four n =
    if ltb n 10
    then "0" <> ("0" <> ("0" <> show n))
    else (if ltb n 100
        then "0" <> ("0" <> show n)
        else (if ltb n 1000 then "0" <> show n else show n))

-- One pool: `[f"{prefix}{i}" for i in range(first, first + size)]`
pub record Pool : Type 0 where
  pub prefix : String
  pub format : Format
  pub first : ℕ
  pub size : ℕ

abbrev pub pool : String → Format → ℕ → ℕ → Pool
pool prefix format first size = record {
  prefix = prefix;
  format = format;
  first = first;
  size = size;
}

unfoldable pub comprehend : String → Format → ℕ → ℕ → List String
comprehend prefix format first zero = []
comprehend prefix format first (suc n) =
    (prefix <> print format first) ∷ comprehend prefix format (suc first) n

abbrev pub callers : Pool → List String
callers p = comprehend p.prefix p.format p.first p.size

-- `_CALLER_POOLS`
abbrev pub caller_pools : Dict Pool
caller_pools =
    ("T1", pool "8613800138" Format.two 0 50)
    ∷ ("T2", pool "8621618000" Format.two 0 50)
    ∷ ("T3", pool "1415555" Format.four 0 50)
    ∷ ("T4", pool "8613800138" Format.two 50 50)
    ∷ ("T5", pool "8613900139" Format.two 0 50)
    ∷ ("T6", pool "8613700137" Format.two 0 50)
    ∷ ("F1", pool "8621618000" Format.two 0 50)
    ∷ ("F2", pool "861340000000" Format.plain 1 9)
    ∷ ("F3", pool "861340000000" Format.plain 11 9)
    ∷ ("F4", pool "8613800138" Format.two 0 50)
    ∷ []

-- `CALLED_NUMBERS`
abbrev pub called_numbers : Dict String
called_numbers =
    ("T1", "+8613800138000")
    ∷ ("T2", "02112345678")
    ∷ ("T3", "0014155551234")
    ∷ ("T4", "1234")
    ∷ ("T5", "+8613900139000")
    ∷ ("T6", "+8613700137000")
    ∷ ("F1", "+8613800138000")
    ∷ ("F2", "+8613800138000")
    ∷ ("F3", "+8613800138000")
    ∷ ("F4", "+8613800138000")
    ∷ []

-- `_caller_offsets`, of which each begins at 0
abbrev pub Offsets : Type 0
Offsets = Dict ℕ

abbrev pub zero_offsets : Dict Pool → Offsets
zero_offsets [] = []
zero_offsets ((t, p) ∷ ps) = (t, 0) ∷ zero_offsets ps

abbrev pub get_elem? : List String → ℕ → Option String
get_elem? [] n = none
get_elem? (x ∷ xs) zero = some x
get_elem? (x ∷ xs) (suc n) = get_elem? xs n

-- `pool[offset % len(pool)]`; the remainder by 0 would raise
abbrev pub rotate : Pool → ℕ → Option String
rotate p offset = get_elem? (callers p) (offset % length (callers p))

abbrev pub take_caller :
    String → String → ℕ → Option String → Offsets → Result String (String × String) × Offsets
take_caller call_type called offset none offsets = (err "IndexError", offsets)
take_caller call_type called offset (some caller) offsets =
    (ok (called, caller), insert call_type (suc offset) offsets)

abbrev pub draw_caller :
    String → String → Option Pool → Option ℕ → Offsets → Result String (String × String) × Offsets
draw_caller call_type called none offset offsets = (err "KeyError", offsets)
draw_caller call_type called (some p) none offsets = (err "KeyError", offsets)
draw_caller call_type called (some p) (some offset) offsets =
    take_caller call_type called offset (rotate p offset) offsets

abbrev pub numbers_of : String → Option String → Offsets → Result String (String × String) × Offsets
numbers_of call_type none offsets = (err "Unknown call type", offsets)
numbers_of call_type (some called) offsets =
    draw_caller call_type called (lookup call_type caller_pools) (lookup call_type offsets) offsets

-- `numbers_for`
unfoldable pub numbers_for : String → Offsets → Result String (String × String) × Offsets
unfolding lookup insert comprehend
numbers_for call_type offsets = numbers_of call_type (lookup call_type called_numbers) offsets

-- Calls one after the other, whatever they raise.
abbrev pub numbers_after : List String → Offsets → Offsets
numbers_after [] offsets = offsets
numbers_after (t ∷ ts) offsets = numbers_after ts (numbers_for t offsets).1
