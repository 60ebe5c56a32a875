-- ===== src/DataModels/StateIds/Decimal.antt =====
-- `%v` of a number and strconv.ParseInt(_, 10, 32) for numbers that are not negative.
use xdb.Prelude.{
  ℕ, zero, suc, ◌+◌, ◌-◌, ◌*◌, ◌/◌, ◌%◌, ◌^◌, ◌<◌, ◌≤◌, ◌≡◌, ◌≢◌, refl, arith, Bool, ◌&&◌, [], ◌∷◌,
  ◌++◌, append_assoc, append-nil, ◌∙◌, ap, sym, Result, ok, err, invalid_number, ltb, leb,
  if◌then◌else◌, Bool-cases, inl, inr, GoString, All, All-append, All-map, ◌==◌,
}

-- The digits of a number, with fuel for one division by ten at each digit.
decimal : ℕ → ℕ → GoString
decimal zero n = []
decimal (suc f) n =
    let rest = decimal f (n / 10) in
    if ltb n 10 then (b'0' + n) ∷ [] else rest ++ (b'0' + n % 10) ∷ []

pub format_int : ℕ → GoString
unfolding decimal
format_int n = decimal (suc n) n

is_digit : ℕ → Bool
is_digit c = leb b'0' c && leb c b'9'

parse_digits : ℕ → GoString → Result ℕ
unfolding is_digit
parse_digits n [] = if ltb n (2 ^ 31) then ok n else err invalid_number
parse_digits n (c ∷ cs) =
    let rest = parse_digits (n * 10 + (c - b'0')) cs in
    if is_digit c then rest else err invalid_number

-- The text must hold a digit; one sign may stand before the digits. A `-` never does here, since
-- the text stands behind the last hyphen.
pub parse_int : GoString → Result ℕ
parse_int [] = err invalid_number
parse_int (c ∷ []) = parse_digits 0 (c ∷ [])
parse_int (c ∷ d ∷ cs) = if c == b'+' then parse_digits 0 (d ∷ cs) else parse_digits 0 (c ∷ d ∷ cs)

parse_digits-digit :
    (n d : ℕ) (rest : GoString)
    → d < 10
    → parse_digits n ((b'0' + d) ∷ rest) ≡ parse_digits (n * 10 + d) rest
unfolding parse_digits
parse_digits-digit n d rest h = ground (arith, add_sub b'0' d)
  where
    add_sub : (a b : ℕ) → a + b - a ≡ b
    add_sub a b = omega arith

parse_digits-decimal :
    (f n : ℕ) (rest : GoString) → n < f → parse_digits 0 (decimal f n ++ rest) ≡ parse_digits n rest
unfolding decimal
parse_digits-decimal zero n rest h = elim h [ ]
parse_digits-decimal (suc f) n rest h = elim (Bool-cases (ltb n 10)) [
  | inl small ↦
      rw small
        (parse_digits-digit 0 n rest (ground arith) ∙ ap (λ m. parse_digits m rest) (omega arith))
  | inr large ↦
      rw (large, append_assoc)
        (parse_digits-decimal f (n / 10) _ (ground arith)
          ∙ parse_digits-digit (n / 10) (n % 10) rest (omega arith)
          ∙ ap (λ m. parse_digits m rest) (omega arith))
]

abbrev pub IsDigit : ℕ → Type 0
IsDigit c = (b'0' ≤ c) × (c ≤ b'9')

abbrev pub NoHyphen : GoString → Type 0
NoHyphen = All (λ c. c ≢ b'-')

decimal-All : (f n : ℕ) → All IsDigit (decimal f n)
unfolding decimal
decimal-All zero n = tt
decimal-All (suc f) n = elim (Bool-cases (ltb n 10)) [
  | inl small ↦ rw small ((omega arith, ground arith), tt)
  | inr large ↦ rw large (
      All-append IsDigit (decimal f (n / 10)) _ (decimal-All f (n / 10))
        ((omega arith, omega arith), tt))
]

pub format_int-NoHyphen : (n : ℕ) → NoHyphen (format_int n)
unfolding format_int
format_int-NoHyphen n =
    All-map IsDigit (λ c. c ≢ b'-') (decimal (suc n) n) (λ c h. omega arith) (decimal-All (suc n) n)

parse_int_of_digits : (s : GoString) → All IsDigit s → s ≢ [] → parse_int s ≡ parse_digits 0 s
unfolding parse_int
parse_int_of_digits [] d h = absurd (h refl)
parse_int_of_digits (c ∷ []) d h = refl
parse_int_of_digits (c ∷ e ∷ cs) d h = ground arith

decimal-ne-nil : (f n : ℕ) → decimal (suc f) n ≢ []
unfolding decimal
decimal-ne-nil f n h =
    elim (decimal f (n / 10))
        as (λ r. (if ltb n 10 then (b'0' + n) ∷ [] else r ++ (b'0' + n % 10) ∷ []) ≡ [] → ⊥) [
          | [] ↦ λ e. ground arith
          | x ∷ xs ↦ λ e. ground arith
        ]
      h

pub parse_int-format_int : (n : ℕ) → n < 2 ^ 31 → parse_int (format_int n) ≡ ok n
unfolding format_int
parse_int-format_int n h =
    parse_int_of_digits (decimal (suc n) n) (decimal-All (suc n) n) (decimal-ne-nil n n)
    ∙ ap (parse_digits 0) (sym (append-nil (decimal (suc n) n)))
    ∙ parse_digits-decimal (suc n) n [] (omega arith)
    ∙ unfold parse_digits in ground arith
