-- ===== src/Prelude/Decimal.antt =====
-- Decimal numbers: printing one, and reading the digits in front of a text back.
use text.Mathlib.TextLemmas.{append_assoc, cons-append, nil-append}
use rdparty_as_poc.Prelude.{
  ℕ, zero, suc, ◌+◌, ◌-◌, ◌*◌, ◌/◌, ◌%◌, ◌<◌, Char, code, String, ◌<>◌, ◌≡◌, refl, sym, ap, ◌∙◌,
  Bool, true, false, ◌&&◌, arith, ltb, ltb→lt, ltb→le, leb, ◌==◌, if◌then◌else◌, Bool-cases, inl,
  inr,
}

-- The decimal digit of a number below ten.
unfoldable pub digit : ℕ → String
digit n =
    if n == 0
    then "0"
    else (if n == 1
        then "1"
        else (if n == 2
            then "2"
            else (if n == 3
                then "3"
                else (if n == 4
                    then "4"
                    else (if n == 5
                        then "5"
                        else (if n == 6
                            then "6"
                            else (if n == 7 then "7" else (if n == 8 then "8" else "9"))))))))

-- The digits of a number in front of a text, with fuel for each digit.
unfoldable pub show_from : ℕ → ℕ → String → String
show_from zero n rest = rest
show_from (suc fuel) n rest =
    let more = show_from fuel (n / 10) (digit (n % 10) <> rest) in
    if ltb n 10 then digit n <> rest else more

-- `str(n)`
abbrev pub show : ℕ → String
show n = show_from (suc n) n ""

unfoldable pub is_digit : Char → Bool
is_digit c = leb b'0' (code c) && leb (code c) b'9'

-- The number that the digits in front of a text continue.
unfoldable pub read_from : ℕ → String → ℕ
read_from n String.[] = n
read_from n (String.◌∷◌ c s) =
    let rest = read_from (n * 10 + (code c - b'0')) s in if is_digit c then rest else n

read_one :
    (n : ℕ) (c : Char) (rest : String)
    → is_digit c ≡ true
    → read_from n (String.◌∷◌ c "" <> rest) ≡ read_from (n * 10 + (code c - b'0')) rest
unfolding read_from
read_one n c rest h = rw (cons-append c "" rest, nil-append rest, h)

read_digit :
    (n k : ℕ) (rest : String) → k < 10 → read_from n (digit k <> rest) ≡ read_from (n * 10 + k) rest
unfolding digit is_digit
read_digit n zero rest h = read_one n "0" rest refl
read_digit n (suc zero) rest h = read_one n "1" rest refl
read_digit n (suc (suc zero)) rest h = read_one n "2" rest refl
read_digit n (suc (suc (suc zero))) rest h = read_one n "3" rest refl
read_digit n (suc (suc (suc (suc zero)))) rest h = read_one n "4" rest refl
read_digit n (suc (suc (suc (suc (suc zero))))) rest h = read_one n "5" rest refl
read_digit n (suc (suc (suc (suc (suc (suc zero)))))) rest h = read_one n "6" rest refl
read_digit n (suc (suc (suc (suc (suc (suc (suc zero))))))) rest h = read_one n "7" rest refl
read_digit n (suc (suc (suc (suc (suc (suc (suc (suc zero)))))))) rest h = read_one n "8" rest refl
read_digit n (suc (suc (suc (suc (suc (suc (suc (suc (suc zero))))))))) rest h =
    read_one n "9" rest refl
read_digit n (suc (suc (suc (suc (suc (suc (suc (suc (suc (suc k)))))))))) rest h =
    absurd (omega arith)

read_show_from :
    (fuel n : ℕ) (rest : String) → n < fuel → read_from 0 (show_from fuel n rest) ≡ read_from n rest
unfolding show_from
read_show_from zero n rest h = absurd (omega arith)
read_show_from (suc fuel) n rest h = elim (Bool-cases (ltb n 10)) [
  | inl small ↦
      rw small (read_digit 0 n rest (ltb→lt n 10 small) ∙ ap (λ m. read_from m rest) (omega arith))
  | inr big ↦
      let large = ltb→le n 10 big in
      rw big (
        read_show_from fuel (n / 10) (digit (n % 10) <> rest) (omega arith)
        ∙ read_digit (n / 10) (n % 10) rest (omega arith)
        ∙ ap (λ m. read_from m rest) (omega arith))
]

-- A text that begins with no digit.
abbrev pub starts_with_digit : String → Bool
starts_with_digit String.[] = false
starts_with_digit (String.◌∷◌ c s) = is_digit c

read_from-end : (n : ℕ) (rest : String) → starts_with_digit rest ≡ false → read_from n rest ≡ n
unfolding read_from
read_from-end n String.[] h = refl
read_from-end n (String.◌∷◌ c s) h = rw h

read_from-show :
    (n : ℕ) (rest : String)
    → starts_with_digit rest ≡ false
    → read_from 0 (show_from (suc n) n rest) ≡ n
read_from-show n rest h = read_show_from (suc n) n rest (omega arith) ∙ read_from-end n rest h

digit-starts : (k : ℕ) (rest : String) → k < 10 → starts_with_digit (digit k <> rest) ≡ true
unfolding digit is_digit
digit-starts zero rest h = rw (cons-append "0" "" rest) refl
digit-starts (suc zero) rest h = rw (cons-append "1" "" rest) refl
digit-starts (suc (suc zero)) rest h = rw (cons-append "2" "" rest) refl
digit-starts (suc (suc (suc zero))) rest h = rw (cons-append "3" "" rest) refl
digit-starts (suc (suc (suc (suc zero)))) rest h = rw (cons-append "4" "" rest) refl
digit-starts (suc (suc (suc (suc (suc zero))))) rest h = rw (cons-append "5" "" rest) refl
digit-starts (suc (suc (suc (suc (suc (suc zero)))))) rest h = rw (cons-append "6" "" rest) refl
digit-starts (suc (suc (suc (suc (suc (suc (suc zero))))))) rest h =
    rw (cons-append "7" "" rest) refl
digit-starts (suc (suc (suc (suc (suc (suc (suc (suc zero)))))))) rest h =
    rw (cons-append "8" "" rest) refl
digit-starts (suc (suc (suc (suc (suc (suc (suc (suc (suc zero))))))))) rest h =
    rw (cons-append "9" "" rest) refl
digit-starts (suc (suc (suc (suc (suc (suc (suc (suc (suc (suc k)))))))))) rest h =
    absurd (omega arith)

show_from-starts :
    (fuel n : ℕ) (rest : String) → n < fuel → starts_with_digit (show_from fuel n rest) ≡ true
unfolding show_from
show_from-starts zero n rest h = absurd (omega arith)
show_from-starts (suc fuel) n rest h = elim (Bool-cases (ltb n 10)) [
  | inl small ↦ rw small (digit-starts n rest (ltb→lt n 10 small))
  | inr big ↦
      let large = ltb→le n 10 big in
      rw big (show_from-starts fuel (n / 10) (digit (n % 10) <> rest) (omega arith))
]

show_from-append : (fuel n : ℕ) (a b : String) → show_from fuel n (a <> b) ≡ show_from fuel n a <> b
unfolding show_from
show_from-append zero n a b = refl
show_from-append (suc fuel) n a b = elim (Bool-cases (ltb n 10)) [
  | inl small ↦ rw small (sym (append_assoc (digit n) a b))
  | inr big ↦ rw big (
      ap (show_from fuel (n / 10)) (sym (append_assoc (digit (n % 10)) a b))
      ∙ show_from-append fuel (n / 10) (digit (n % 10) <> a) b)
]

show-append : (n : ℕ) (rest : String) → show n <> rest ≡ show_from (suc n) n rest
show-append n rest =
    sym (show_from-append (suc n) n "" rest) ∙ ap (show_from (suc n) n) (nil-append rest)

-- A printed number begins with a digit, and is read back, up to what follows it.
pub show-starts : (n : ℕ) (rest : String) → starts_with_digit (show n <> rest) ≡ true
show-starts n rest =
    ap starts_with_digit (show-append n rest) ∙ show_from-starts (suc n) n rest (omega arith)

pub read_from-show_append :
    (n : ℕ) (rest : String) → starts_with_digit rest ≡ false → read_from 0 (show n <> rest) ≡ n
read_from-show_append n rest h = ap (read_from 0) (show-append n rest) ∙ read_from-show n rest h

-- A zero in front changes nothing.
pub read_from-zero : (rest : String) → read_from 0 ("0" <> rest) ≡ read_from 0 rest
unfolding digit
read_from-zero rest = read_digit 0 0 rest (omega arith)
