-- ===== src/Prelude/Text.antt =====
-- Python's `str` operations that the program uses: `==`, `in` over a list, slices after a prefix,
-- and the order of code points.
use Prim.Native.Char.{code}
use Prim.Native.String.{String, slice, len}
use mathlib.Core.Path.{◌≡◌, refl}
use mathlib.Core.Logic.{◌⊎◌, inl, inr}
use mathlib.Core.Bool.{Bool, true, false}
use mathlib.Core.List.{List, [], ◌∷◌, Memᴰ}
use native.Mathlib.Omega.{arith}
use text.Mathlib.Text.{◌==◌ as str_beq}
use text.Mathlib.TextEquality.{eq_iff, codes_equal}
use rdparty_as_poc.Prelude.Tests.{ltb, ◌==◌, if◌then◌else◌, Bool-cases}
use rdparty_as_poc.Prelude.Lists.{any}

abbrev pub str_eq : String → String → Bool
str_eq = str_beq

-- `s in xs`
abbrev pub str_mem : String → List String → Bool
str_mem s = any (λ x. str_eq s x)

-- `s[len(p):]`
abbrev pub remove_prefix : String → String → String
remove_prefix p s = slice s (len p) (len s)

-- `s <= t`, which compares code points.
unfoldable pub str_le : String → String → Bool
str_le String.[] t = true
str_le (String.◌∷◌ c s) String.[] = false
str_le (String.◌∷◌ c s) (String.◌∷◌ d t) =
    let rest = str_le s t in
    if ltb (code c) (code d) then true else (if code c == code d then rest else false)

pub str_le_total : (s t : String) → (str_le s t ≡ true) ⊎ (str_le t s ≡ true)
unfolding str_le
str_le_total String.[] t = inl refl
str_le_total (String.◌∷◌ c s) String.[] = inr refl
str_le_total (String.◌∷◌ c s) (String.◌∷◌ d t) = ground (arith, str_le_total s t)

pub str_le_trans : (s t u : String) → str_le s t ≡ true → str_le t u ≡ true → str_le s u ≡ true
unfolding str_le
str_le_trans String.[] t u h k = refl
str_le_trans (String.◌∷◌ c s) String.[] u h k = cc
str_le_trans (String.◌∷◌ c s) (String.◌∷◌ d t) String.[] h k = cc
str_le_trans (String.◌∷◌ c s) (String.◌∷◌ d t) (String.◌∷◌ e u) h k =
    ground (arith, str_le_trans s t u)

pub str_le_antisymm : (s t : String) → str_le s t ≡ true → str_le t s ≡ true → s ≡ t
unfolding str_le
str_le_antisymm String.[] String.[] h k = refl
str_le_antisymm String.[] (String.◌∷◌ d t) h k = cc
str_le_antisymm (String.◌∷◌ c s) String.[] h k = cc
str_le_antisymm (String.◌∷◌ c s) (String.◌∷◌ d t) h k =
    ground (arith, codes_equal c d, str_le_antisymm s t)

pub str_eq_refl : (s : String) → str_eq s s ≡ true
str_eq_refl s = (eq_iff s s).1 refl

pub str_mem-Memᴰ : (s : String) (xs : List String) → str_mem s xs ≡ true → Memᴰ s xs
str_mem-Memᴰ s [] h = cc
str_mem-Memᴰ s (x ∷ xs) h = elim (Bool-cases (str_eq s x)) [
  | inl hit ↦ Memᴰ.head ((eq_iff s x).0 hit)
  | inr miss ↦ Memᴰ.tail (str_mem-Memᴰ s xs (rw miss at h))
]

pub Memᴰ-str_mem : (s : String) (xs : List String) → Memᴰ s xs → str_mem s xs ≡ true
Memᴰ-str_mem s [] m = elim m [ ]
Memᴰ-str_mem s (x ∷ xs) (Memᴰ.head e) = rw ((eq_iff s x).1 e)
Memᴰ-str_mem s (x ∷ xs) (Memᴰ.tail m) = ground (arith, Memᴰ-str_mem s xs m)
