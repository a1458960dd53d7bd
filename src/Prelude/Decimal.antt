-- ===== src/Prelude/Decimal.antt =====
-- `%d` and `strconv.ParseInt(s, 10, 64)`.
use Prim.Native.Nat.{ℕ, zero, suc, ◌+◌, ◌-◌, ◌*◌, ◌/◌, ◌%◌, ◌^◌, ◌≤◌, ◌<◌}
use mathlib.Core.Bool.{Bool, true, false, ◌&&◌}
use mathlib.Core.List.{[], ◌∷◌, ◌++◌}
use mathlib.Core.Logic.{inl, inr}
use mathlib.Core.Option.{Option, none, some}
use mathlib.Core.Path.{◌≡◌, refl, ap, ◌∙◌, sym, subst}
use native.Mathlib.Omega.{arith}
use web_hook_project.Prelude.Tests.{ltb, leb, nat_beq, if◌then◌else◌, Bool-cases}
use web_hook_project.Prelude.Equality.{Text, codes}
use web_hook_project.Prelude.Lists.{All}
use web_hook_project.Prelude.Int.{ℤ, pos, negsuc}

-- The digits of `n` before `out`; each round takes the last digit off. More fuel than `n` is enough.
digits : ℕ → ℕ → Text → Text
digits zero n out = out
digits (suc f) n out =
    let more = digits f (n / 10) ((b'0' + n % 10) ∷ out) in
    if ltb n 10 then (b'0' + n) ∷ out else more

-- fmt.Sprintf("%d", n) of a number that is not negative
unfoldable pub decimal : ℕ → Text
unfolding digits
decimal n = digits (suc n) n []

-- fmt.Sprintf("%d", z)
unfoldable pub decimal_ℤ : ℤ → Text
decimal_ℤ (pos n) = decimal n
decimal_ℤ (negsuc n) = b'-' ∷ decimal (suc n)

-- The value of a run of digits that follows the value `n`.
scan : ℕ → Text → Option ℕ
scan n [] = some n
scan n (c ∷ s) = if leb b'0' c && leb c b'9' then scan (n * 10 + (c - b'0')) s else none

abbrev in_int64 : Bool → ℕ → Option ℤ
in_int64 false n = if ltb n (2 ^ 63) then some (pos n) else none
in_int64 true zero = some (pos zero)
in_int64 true (suc n) = if ltb n (2 ^ 63) then some (negsuc n) else none

parse_digits : Bool → Text → Option ℤ
parse_digits negative [] = none
parse_digits negative (c ∷ s) = elim (scan 0 (c ∷ s)) [ none ↦ none | some n ↦ in_int64 negative n ]

-- strconv.ParseInt: an optional sign, at least one digit, and a value that fits
unfoldable pub parse_int : Text → Option ℤ
unfolding parse_digits scan
parse_int [] = none
parse_int (c ∷ s) =
    if nat_beq c b'-'
    then parse_digits true s
    else if nat_beq c b'+'
    then parse_digits false s
    else parse_digits false (c ∷ s)

scan-digits : (f n : ℕ) (out : Text) → n < f → scan 0 (digits f n out) ≡ scan n out
unfolding scan digits
scan-digits zero n out h = absurd (omega arith)
scan-digits (suc f) n out h = ground (arith, scan-digits f (n / 10) ((b'0' + n % 10) ∷ out))

abbrev IsDigit : ℕ → Type 0
IsDigit c = (b'0' ≤ c) × (c ≤ b'9')

digits-All : (f n : ℕ) (out : Text) → All IsDigit out → All IsDigit (digits f n out)
unfolding digits
digits-All zero n out h = h
digits-All (suc f) n out h = ground (arith, digits-All f (n / 10) ((b'0' + n % 10) ∷ out))

pub decimal-All : (n : ℕ) → All IsDigit (decimal n)
unfolding decimal
decimal-All n = digits-All (suc n) n [] tt

digits_cons : (f n : ℕ) (out : Text) → n < f → (c : ℕ) × (s : Text) × (digits f n out ≡ c ∷ s)
unfolding digits
digits_cons zero n out h = absurd (omega arith)
digits_cons (suc f) n out h = elim (Bool-cases (ltb n 10)) [
  | inl last ↦ (b'0' + n, out, rw last)
  | inr more ↦
      let (c, s, e) = digits_cons f (n / 10) ((b'0' + n % 10) ∷ out) (ground arith) in
      (c, s, rw more e)
]

pub decimal_cons : (n : ℕ) → (c : ℕ) × (s : Text) × (decimal n ≡ c ∷ s)
unfolding decimal
decimal_cons n = digits_cons (suc n) n [] (omega arith)

scan-decimal : (n : ℕ) → scan 0 (decimal n) ≡ some n
unfolding decimal scan
scan-decimal n = scan-digits (suc n) n [] (omega arith)

parse_digits-decimal :
    (n c : ℕ) (s : Text)
    → decimal n ≡ c ∷ s
    → n < 2 ^ 63
    → (b'0' ≤ c) × (c ≤ b'9') × (parse_digits false (c ∷ s) ≡ some (pos n))
unfolding parse_digits
parse_digits-decimal n c s e h =
    let all : All IsDigit (c ∷ s) = subst (All IsDigit) e (decimal-All n) in
    let value : scan 0 (c ∷ s) ≡ some n = ap (scan 0) (sym e) ∙ scan-decimal n in
    (all.0.0, all.0.1, rw (value, parse_digits) (ground arith))

-- ParseInt reads back the decimal digits of a number that fits.
pub parse_int-decimal : (n : ℕ) → n < 2 ^ 63 → parse_int (decimal n) ≡ some (pos n)
unfolding parse_int
parse_int-decimal n h =
    let (c, s, e) = decimal_cons n in
    let (lo, hi, value) = parse_digits-decimal n c s e h in rw e (ground (arith, value))

pub decimal-injective : (m n : ℕ) → decimal m ≡ decimal n → m ≡ n
decimal-injective m n e = cc (scan-decimal m, scan-decimal n)

-- Two texts that agree up to the first dash agree behind it.
after_dash :
    (xs ys s t : Text)
    → All IsDigit xs
    → All IsDigit ys
    → xs ++ (b'-' ∷ s) ≡ ys ++ (b'-' ∷ t)
    → s ≡ t
after_dash [] [] s t dx dy e = cc
after_dash [] (y ∷ ys) s t dx dy e = absurd (ground arith)
after_dash (x ∷ xs) [] s t dx dy e = absurd (ground arith)
after_dash (x ∷ xs) (y ∷ ys) s t dx dy e = after_dash xs ys s t dx.1 dy.1 (cc)

-- The number behind the dash of `fmt.Sprintf("%d-%d", a, b)` can be told from the text.
pub dashed-injective :
    (a b c d : ℕ) → decimal a ++ (b'-' ∷ decimal b) ≡ decimal c ++ (b'-' ∷ decimal d) → b ≡ d
dashed-injective a b c d e =
    decimal-injective b d
      (after_dash (decimal a) (decimal c) (decimal b) (decimal d) (decimal-All a) (decimal-All c) e)

decimal_runs : decimal 1_700_000_000_123 ≡ codes "1700000000123"
unfolding decimal
decimal_runs = refl

parse_int_runs : parse_int (codes "-9223372036854775808") ≡ some (negsuc (2 ^ 63 - 1))
unfolding parse_int scan
parse_int_runs = refl
