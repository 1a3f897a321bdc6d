-- ===== src/Go/Strconv.antt =====
-- Package strconv and the verb %d: decimal numbers with a sign.
use skylb.Prelude.{
  ℕ, zero, suc, ◌+◌, ◌-◌, ◌*◌, ◌/◌, ◌%◌, ◌^◌, ◌<◌, ◌≤◌, ◌≡◌, refl, ap, sym, ◌∙◌, ◌≢◌, Bool, true,
  false, ◌&&◌, [], ◌∷◌, Option, none, some, arith, ◌==◌, ltb, leb, if◌then◌else◌, Str, All, ℤ, pos,
  negsuc, IsInt32,
}
use skylb.Go.Strings.{Without}

-- The digits of `n` in front of `acc`; `n < fuel` is enough fuel.
digits : ℕ → ℕ → Str → Str
digits zero n acc = acc
digits (suc f) n acc =
    let more = digits f (n / 10) ((b'0' + n % 10) ∷ acc) in
    if ltb n 10 then (b'0' + n) ∷ acc else more

pub format_nat : ℕ → Str
unfolding digits
format_nat n = digits (suc n) n []

-- fmt.Sprintf("%d", z), strconv.Itoa and strconv.FormatInt to base 10.
unfoldable pub itoa : ℤ → Str
unfolding format_nat
itoa (pos n) = format_nat n
itoa (negsuc n) = b'-' ∷ format_nat (n + 1)

-- The value of a text of digits, from an accumulator.
unfoldable pub parse : ℕ → Str → Option ℕ
parse acc [] = some acc
parse acc (x ∷ xs) =
    let rest = parse (acc * 10 + (x - b'0')) xs in if leb b'0' x && leb x b'9' then rest else none

abbrev parse_nat : Str → Option ℕ
parse_nat [] = none
parse_nat (x ∷ xs) = parse 0 (x ∷ xs)

-- strconv.Atoi on a 64-bit platform returns a value beside its error: 0 for a text that is no
-- number, and the nearest int64 for a number out of range.
pub record Parsed : Type 0 where
  pub value : ℤ
  pub failed : Bool

abbrev syntax_error : Parsed
syntax_error = record { value = pos 0; failed = true }

abbrev with_sign : Bool → Option ℕ → Parsed
with_sign neg none = syntax_error
with_sign false (some n) =
    if ltb n (2 ^ 63)
    then record { value = pos n; failed = false }
    else record { value = pos (2 ^ 63 - 1); failed = true }
with_sign true (some n) =
    if n == 0
    then record { value = pos 0; failed = false }
    else if leb n (2 ^ 63)
    then record { value = negsuc (n - 1); failed = false }
    else record { value = negsuc (2 ^ 63 - 1); failed = true }

unfoldable pub atoi : Str → Parsed
unfolding parse
atoi [] = syntax_error
atoi (x ∷ xs) =
    if x == b'-'
    then with_sign true (parse_nat xs)
    else if x == b'+'
    then with_sign false (parse_nat xs)
    else with_sign false (parse_nat (x ∷ xs))

parse-digits : (f n : ℕ) (acc : Str) → n < f → parse 0 (digits f n acc) ≡ parse n acc
unfolding digits parse
parse-digits zero n acc h = elim h [ ]
parse-digits (suc f) n acc h = ground (arith, parse-digits f (n / 10) ((b'0' + n % 10) ∷ acc))

-- A digit.
abbrev pub IsDigit : ℕ → Type 0
IsDigit x = (b'0' ≤ x) × (x ≤ b'9')

digits-IsDigit : (f n : ℕ) (acc : Str) → All IsDigit acc → All IsDigit (digits f n acc)
unfolding digits
digits-IsDigit zero n acc h = h
digits-IsDigit (suc f) n acc h =
    ground
      (arith, digits-IsDigit f (n / 10) ((b'0' + n % 10) ∷ acc) ((omega arith, omega arith), h))

digits-ne-nil : (f n : ℕ) (acc : Str) → acc ≢ [] → digits f n acc ≢ []
unfolding digits
digits-ne-nil zero n acc h = h
digits-ne-nil (suc f) n acc h =
    ground (arith, digits-ne-nil f (n / 10) ((b'0' + n % 10) ∷ acc) (λ e. cc))

pub format_nat-IsDigit : (n : ℕ) → All IsDigit (format_nat n)
unfolding format_nat
format_nat-IsDigit n = digits-IsDigit (suc n) n [] tt

format_nat-ne-nil : (n : ℕ) → format_nat n ≢ []
unfolding format_nat
format_nat-ne-nil n = ground (arith, digits-ne-nil n (n / 10) ((b'0' + n % 10) ∷ []) (λ e. cc))

parse-format_nat : (n : ℕ) → parse 0 (format_nat n) ≡ some n
unfolding format_nat parse
parse-format_nat n = parse-digits (suc n) n [] (omega arith)

atoi_of_digits : (s : Str) → s ≢ [] → All IsDigit s → atoi s ≡ with_sign false (parse 0 s)
unfolding atoi
atoi_of_digits [] h d = absurd (h refl)
atoi_of_digits (x ∷ xs) h d = ground arith

atoi_of_minus : (s : Str) → s ≢ [] → atoi (b'-' ∷ s) ≡ with_sign true (parse 0 s)
unfolding atoi
atoi_of_minus [] h = absurd (h refl)
atoi_of_minus (x ∷ xs) h = refl

-- The values of int64.
abbrev pub IsInt64 : ℤ → Type 0
IsInt64 (pos n) = n < 2 ^ 63
IsInt64 (negsuc n) = n < 2 ^ 63

pub IsInt64-of_IsInt32 : (z : ℤ) → IsInt32 z → IsInt64 z
IsInt64-of_IsInt32 (pos n) h = omega arith
IsInt64-of_IsInt32 (negsuc n) h = omega arith

pub itoa-ne-nil : (z : ℤ) → itoa z ≢ []
unfolding itoa
itoa-ne-nil (pos n) = format_nat-ne-nil n
itoa-ne-nil (negsuc n) = λ e. cc

pub atoi-itoa : (z : ℤ) → IsInt64 z → atoi (itoa z) ≡ record { value = z; failed = false }
unfolding itoa
atoi-itoa (pos n) h =
    atoi_of_digits (format_nat n) (format_nat-ne-nil n) (format_nat-IsDigit n)
    ∙ rw (parse-format_nat n) (ground arith)
atoi-itoa (negsuc n) h =
    atoi_of_minus (format_nat (n + 1)) (format_nat-ne-nil (n + 1))
    ∙ rw (parse-format_nat (n + 1)) (ground arith)

-- The bytes of a printed number: digits and the minus sign.
abbrev pub IsNumeric : ℕ → Type 0
IsNumeric x = (b'-' ≤ x) × (x ≤ b'9') × (x ≢ b'/') × (x ≢ b'.')

All-IsNumeric : (s : Str) → All IsDigit s → All IsNumeric s
All-IsNumeric [] h = tt
All-IsNumeric (x ∷ xs) h =
    ((omega arith, omega arith, omega arith, omega arith), All-IsNumeric xs h.1)

pub itoa-IsNumeric : (z : ℤ) → All IsNumeric (itoa z)
unfolding itoa
itoa-IsNumeric (pos n) = All-IsNumeric (format_nat n) (format_nat-IsDigit n)
itoa-IsNumeric (negsuc n) = (
  (omega arith, omega arith, omega arith, omega arith),
  All-IsNumeric _ (format_nat-IsDigit (n + 1)),
)

-- A byte that stands in no number stands in no printed number.
Without-IsNumeric : (c : ℕ) (s : Str) → ¬ IsNumeric c → All IsNumeric s → Without c s
Without-IsNumeric c [] n h = tt
Without-IsNumeric c (x ∷ xs) n h = ((λ e. n (rw (← e) h.0)), Without-IsNumeric c xs n h.1)

pub itoa-Without : (c : ℕ) (z : ℤ) → ¬ IsNumeric c → Without c (itoa z)
itoa-Without c z h = Without-IsNumeric c (itoa z) h (itoa-IsNumeric z)

pub format_nat_inj : (m n : ℕ) → format_nat m ≡ format_nat n → m ≡ n
format_nat_inj m n e = cc (parse-format_nat m, parse-format_nat n)

digits-ne-minus : (s t : Str) → All IsDigit s → s ≢ b'-' ∷ t
digits-ne-minus [] t h e = ground arith
digits-ne-minus (x ∷ xs) t h e = ground arith

-- Different numbers are printed differently.
pub itoa_inj : (y z : ℤ) → itoa y ≡ itoa z → y ≡ z
unfolding itoa
itoa_inj (pos m) (pos n) e = ap pos (format_nat_inj m n e)
itoa_inj (pos m) (negsuc n) e =
    absurd (digits-ne-minus (format_nat m) (format_nat (n + 1)) (format_nat-IsDigit m) e)
itoa_inj (negsuc m) (pos n) e =
    absurd (digits-ne-minus (format_nat n) (format_nat (m + 1)) (format_nat-IsDigit n) (sym e))
itoa_inj (negsuc m) (negsuc n) e =
    let same : m + 1 ≡ n + 1 = format_nat_inj (m + 1) (n + 1) (cc) in ap negsuc (omega arith)
