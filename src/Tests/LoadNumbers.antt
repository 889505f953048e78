-- ===== src/Tests/LoadNumbers.antt =====
-- The numbers of generated calls (tools/call_load_generator.py, `numbers_for`).
use rdparty_as_poc.Prelude.{String, ◌≡◌, refl, List, [], ◌∷◌, ok}
use rdparty_as_poc.Prelude.Dict.{lookup, insert}
use rdparty_as_poc.Prelude.Decimal.{digit, show_from}
use rdparty_as_poc.LoadNumbers.{
  Format, print, Pool, pool, comprehend, caller_pools, zero_offsets, Offsets, numbers_for,
}

abbrev fresh_offsets : Offsets
fresh_offsets = zero_offsets caller_pools

abbrev f3_pool : Pool
f3_pool = pool "861340000000" Format.plain 11 9

-- Another call of the type, one of another type and one that raises.
abbrev in_between : List String
in_between = "F3" ∷ "T1" ∷ "X9" ∷ []

first-numbers :
    numbers_for "F3" fresh_offsets
    ≡ (ok ("+8613800138000", "86134000000011"), insert "F3" 1 fresh_offsets)
unfolding numbers_for lookup insert comprehend print show_from digit
first-numbers = refl
