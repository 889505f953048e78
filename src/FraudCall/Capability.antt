-- ===== src/FraudCall/Capability.antt =====
-- The `sip.608` capability of a request (src/anti_fraud_as/call_controller.py, `declares_sip_608`):
-- feature tags are code points here.
use rdparty_as_poc.Prelude.{
  ℕ, ◌+◌, code, String, Bool, true, false, ◌&&◌, ◌||◌, List, [], ◌∷◌, map, any, leb, ◌==◌,
  if◌then◌else◌,
}
use rdparty_as_poc.Prelude.Whitespace.{is_space}

-- The code points of a text.
abbrev pub codes : String → List ℕ
codes String.[] = []
codes (String.◌∷◌ c s) = code c ∷ codes s

-- `[;,]`
abbrev pub is_separator : ℕ → Bool
is_separator c = c == b';' || c == b','

abbrev pub first_part : List (List ℕ) → List ℕ
first_part [] = []
first_part (p ∷ ps) = p

abbrev pub other_parts : List (List ℕ) → List (List ℕ)
other_parts [] = []
other_parts (p ∷ ps) = ps

-- `re.split`, but for the white space behind a separator, which `strip` takes off each part.
unfoldable pub split_caps : List ℕ → List (List ℕ)
split_caps [] = [] ∷ []
split_caps (c ∷ cs) =
    let rest = split_caps cs in
    if is_separator c then [] ∷ rest else (c ∷ first_part rest) ∷ other_parts rest

unfoldable pub drop_while : (ℕ → Bool) → List ℕ → List ℕ
drop_while p [] = []
drop_while p (c ∷ cs) = let rest = drop_while p cs in if p c then rest else c ∷ cs

unfoldable pub drop_while_end : (ℕ → Bool) → List ℕ → List ℕ
drop_while_end p [] = []
drop_while_end p (c ∷ cs) = elim (drop_while_end p cs) [
  | [] ↦ if p c then [] else c ∷ []
  | d ∷ ds ↦ c ∷ d ∷ ds
]

-- `str.lower`. Only A to Z have lower-case forms among the characters of the token.
abbrev pub lower : ℕ → ℕ
lower c = if leb b'A' c && leb c b'Z' then c + 32 else c

abbrev pub same_codes : List ℕ → List ℕ → Bool
same_codes [] [] = true
same_codes [] (d ∷ ds) = false
same_codes (c ∷ cs) [] = false
same_codes (c ∷ cs) (d ∷ ds) = c == d && same_codes cs ds

-- `part.strip().lstrip("+").lower() == SIP_608_TOKEN`
unfoldable pub is_608_tag : List ℕ → Bool
unfolding drop_while drop_while_end is_space
is_608_tag part =
    same_codes
      (map lower (drop_while (λ c. c == b'+') (drop_while_end is_space (drop_while is_space part))))
      (codes "sip.608")

-- The body of `declares_sip_608`, over the bodies of the `Feature-Caps` headers.
unfoldable pub declares_608 : List String → Bool
unfolding is_608_tag split_caps
declares_608 = any (λ body. any is_608_tag (split_caps (codes body)))
