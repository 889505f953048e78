-- ===== src/Prelude/Whitespace.antt =====
-- `str.strip()`: the white space of Python's `str.isspace`, taken off both ends.
use rdparty_as_poc.Prelude.{ℕ, code, String, Bool, ◌&&◌, ◌||◌, leb, ◌==◌, if◌then◌else◌, str_eq}

unfoldable pub is_space : ℕ → Bool
is_space c =
    (leb 9 c && leb c 13)
    || ((leb 28 c && leb c 32)
        || (c == 133
            || (c == 160
                || (c == 5760
                    || ((leb 8192 c && leb c 8202)
                        || ((leb 8232 c && leb c 8233)
                            || (c == 8239 || (c == 8287 || c == 12288))))))))

unfoldable pub strip_left : String → String
strip_left String.[] = ""
strip_left (String.◌∷◌ c s) =
    let rest = strip_left s in if is_space (code c) then rest else String.◌∷◌ c s

unfoldable pub strip_right : String → String
strip_right String.[] = ""
strip_right (String.◌∷◌ c s) =
    let rest = strip_right s in
    if str_eq rest ""
    then (if is_space (code c) then "" else String.◌∷◌ c "")
    else String.◌∷◌ c rest

unfoldable pub strip : String → String
unfolding strip_left strip_right is_space
strip s = strip_right (strip_left s)
