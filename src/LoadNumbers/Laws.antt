-- ===== src/LoadNumbers/Laws.antt =====
-- The generator's callers rotate (tools/call_load_generator.py, `MockSipUac.numbers_for`).
use rdparty_as_poc.Prelude.{ℕ, ◌+◌, ◌%◌, String, ◌<>◌, ◌≡◌, some}
use rdparty_as_poc.Prelude.Dict.{lookup}
use rdparty_as_poc.LoadNumbers.{print, Pool, callers, caller_pools, called_numbers}

-- The caller of a pool at an offset.
abbrev pub caller_at : Pool → ℕ → String
caller_at p offset = p.prefix <> print p.format (p.first + offset % p.size)

-- A type with the pool of its callers and the number that it calls.
pub record IsKnown (t : String) (p : Pool) (called : String) : Type 0 where
  pub callers : lookup t caller_pools ≡ some p
  pub calls : lookup t called_numbers ≡ some called
