-- ===== src/Go/Int/Laws.antt =====
-- Reading a decimal print gives the number back.
use redis_watcher.Base.{ℕ, zero, suc, ◌+◌, ◌/◌, ◌%◌, ◌≤◌, ◌<◌, [], ◌∷◌, ◌≡◌, ◌≢◌, refl, arith, some}
use redis_watcher.Base.Bytes.{Bytes}
use redis_watcher.Base.Lists.{All}
use redis_watcher.Go.Int.{
  ℤ, pos, negsuc, max_int, digits_onto, itoa, itoa_ℤ, scan, parse_digits, parse_int,
}

pub scan_last : (n : ℕ) (out : Bytes) → scan ((b'0' + n % 10) ∷ out) (n / 10) ≡ scan out n
unfolding scan
scan_last n out = ground arith

pub scan_digit : (n : ℕ) (out : Bytes) → n < 10 → scan ((b'0' + n % 10) ∷ out) 0 ≡ scan out n
unfolding scan
scan_digit n out h = ground arith

scan-digits_onto : (f n : ℕ) (out : Bytes) → n < f → scan (digits_onto f n out) 0 ≡ scan out n
unfolding digits_onto
scan-digits_onto zero n out h = elim h [ ]
scan-digits_onto (suc f) n out h =
    ground (
      arith,
      scan_digit n out,
      scan_last n out,
      scan-digits_onto f (n / 10) ((b'0' + n % 10) ∷ out),
    )

-- The values of an int of 64 bits.
abbrev pub IsInt : ℤ → Type 0
IsInt (pos n) = n ≤ max_int
IsInt (negsuc n) = n ≤ max_int

abbrev pub IsDigit : ℕ → Type 0
IsDigit c = (b'0' ≤ c) × (c ≤ b'9')

digits_onto-IsDigit : (f n : ℕ) (out : Bytes) → All IsDigit out → All IsDigit (digits_onto f n out)
unfolding digits_onto
digits_onto-IsDigit zero n out h = h
digits_onto-IsDigit (suc f) n out h =
    ground (arith, digits_onto-IsDigit f (n / 10) ((b'0' + n % 10) ∷ out))

digits_onto-ne-nil : (f n : ℕ) (out : Bytes) → out ≢ [] → digits_onto f n out ≢ []
unfolding digits_onto
digits_onto-ne-nil zero n out h = h
digits_onto-ne-nil (suc f) n out h =
    ground (arith, digits_onto-ne-nil f (n / 10) ((b'0' + n % 10) ∷ out))

pub itoa-IsDigit : (n : ℕ) → All IsDigit (itoa n)
unfolding itoa
itoa-IsDigit n = digits_onto-IsDigit (suc n) n [] tt

pub itoa-ne-nil : (n : ℕ) → itoa n ≢ []
unfolding itoa
itoa-ne-nil n = ground (arith, digits_onto-ne-nil n (n / 10) ((b'0' + n % 10) ∷ []))

pub parse_digits-scan : (s : Bytes) → s ≢ [] → parse_digits s ≡ scan s 0
unfolding parse_digits
parse_digits-scan [] h = absurd (h refl)
parse_digits-scan (c ∷ s) h = refl

pub parse_digits-itoa : (n : ℕ) → parse_digits (itoa n) ≡ some n
parse_digits-itoa n =
    rw (parse_digits-scan _ (itoa-ne-nil n))
      (unfold itoa in unfold scan in scan-digits_onto (suc n) n [] (omega arith))

pub parse_int-IsDigit :
    (s : Bytes) (n : ℕ)
    → All IsDigit s
    → parse_digits s ≡ some n
    → n ≤ max_int
    → parse_int s ≡ some (pos n)
unfolding parse_int
parse_int-IsDigit [] n a h m = unfold parse_digits in cc
parse_int-IsDigit (c ∷ s) n a h m = ground arith

-- A non-negative int is read back from its print.
pub parse_int-itoa : (n : ℕ) → n ≤ max_int → parse_int (itoa n) ≡ some (pos n)
parse_int-itoa n m = parse_int-IsDigit _ n (itoa-IsDigit n) (parse_digits-itoa n) m

-- Every int is read back from its print.
pub parse_int-itoa_ℤ : (z : ℤ) → IsInt z → parse_int (itoa_ℤ z) ≡ some z
unfolding parse_int itoa_ℤ
parse_int-itoa_ℤ (pos n) h = parse_int-itoa n h
parse_int-itoa_ℤ (negsuc n) h = ground (arith, parse_digits-itoa (suc n))
