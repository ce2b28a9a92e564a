-- ===== src/Go/Int.antt =====
-- Integers, and package strconv: `Itoa` and `%d`, `Atoi`, `ParseInt` and `ParseUint`.
pub mod Laws
use redis_watcher.Base.{
  ℕ, zero, suc, ◌+◌, ◌-◌, ◌*◌, ◌/◌, ◌%◌, ◌^◌, Bool, true, false, ◌&&◌, ◌||◌, List, [], ◌∷◌, ◌≡◌,
  refl, Option, none, some,
}
use redis_watcher.Base.Bytes.{Bytes, codes}
use redis_watcher.Base.Tests.{ltb, leb, ◌==◌, if◌then◌else◌}

-- `negsuc n` is -(n + 1).
pub data ℤ : Type 0 where
  pos : ℕ → ℤ
  negsuc : ℕ → ℤ

abbrev pub max_int : ℕ
max_int = 2 ^ 63 - 1

abbrev pub neg : ℕ → ℤ
neg zero = pos 0
neg (suc n) = negsuc n

-- The decimal digits of `n` in front of `out`; the fuel is more than `n`, so more than its digits.
unfoldable pub digits_onto : ℕ → ℕ → Bytes → Bytes
digits_onto zero n out = out
digits_onto (suc f) n out =
    let out' = (b'0' + n % 10) ∷ out in
    let rest = digits_onto f (n / 10) out' in if n / 10 == 0 then out' else rest

unfoldable pub itoa : ℕ → Bytes
unfolding digits_onto
itoa n = digits_onto (suc n) n []

-- `%d` and `strconv.Itoa` of an int.
unfoldable pub itoa_ℤ : ℤ → Bytes
unfolding itoa
itoa_ℤ (pos n) = itoa n
itoa_ℤ (negsuc n) = b'-' ∷ itoa (suc n)

abbrev pub is_digit : ℕ → Bool
is_digit c = leb b'0' c && leb c b'9'

-- The number that digits spell behind `n`.
unfoldable pub scan : Bytes → ℕ → Option ℕ
scan [] n = some n
scan (c ∷ s) n = if is_digit c then scan s (n * 10 + (c - b'0')) else none

unfoldable pub parse_digits : Bytes → Option ℕ
unfolding scan
parse_digits [] = none
parse_digits (c ∷ s) = scan (c ∷ s) 0

abbrev in_range : Bool → Option ℕ → Option ℤ
in_range negative none = none
in_range false (some n) = if leb n max_int then some (pos n) else none
in_range true (some n) = if leb n (2 ^ 63) then some (neg n) else none

-- `strconv.ParseInt(s, 10, 64)`, and `strconv.Atoi` where int has 64 bits; `none` for an error.
unfoldable pub parse_int : Bytes → Option ℤ
parse_int [] = none
parse_int (c ∷ s) =
    if c == b'-'
    then in_range true (parse_digits s)
    else if c == b'+'
    then in_range false (parse_digits s)
    else in_range false (parse_digits (c ∷ s))

unfoldable pub hex_digit : ℕ → Option ℕ
hex_digit c =
    if is_digit c
    then some (c - b'0')
    else if leb b'a' c && leb c b'f'
    then some (c - b'a' + 10)
    else if leb b'A' c && leb c b'F'
    then some (c - b'A' + 10)
    else none

abbrev hex_join : Option ℕ → Option ℕ → Option ℕ
hex_join (some h) (some l) = some (16 * h + l)
hex_join _ _ = none

-- `strconv.ParseUint(s, 16, 8)` at a text of two bytes.
unfoldable pub parse_hex2 : ℕ → ℕ → Option ℕ
unfolding hex_digit
parse_hex2 a b = hex_join (hex_digit a) (hex_digit b)

-- `a > b` on durations.
abbrev pub gt_ℤ : ℤ → ℤ → Bool
gt_ℤ (pos a) (pos b) = ltb b a
gt_ℤ (pos a) (negsuc b) = true
gt_ℤ (negsuc a) (pos b) = false
gt_ℤ (negsuc a) (negsuc b) = ltb a b

-- `if v <= 0 { v = d }`
abbrev pub default_time : ℤ → ℤ → ℤ
default_time v d = if gt_ℤ v (pos 0) then v else d

-- `x * 2` in an int64.
unfoldable pub double : ℤ → ℤ
double (pos n) = if leb (2 * n) max_int then pos (2 * n) else negsuc (2 ^ 64 - 2 * n - 1)
double (negsuc n) =
    if leb (2 * suc n) (2 ^ 63) then negsuc (2 * suc n - 1) else pos (2 ^ 64 - 2 * suc n)
