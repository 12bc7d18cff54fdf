-- ===== src/Base/Decimal.antt =====
-- `strconv.Itoa` and `strconv.Atoi`.
use Prim.Native.Nat.{ℕ, zero, suc, ◌+◌, ◌-◌, ◌*◌, ◌/◌, ◌%◌, ◌^◌, ◌<◌, ◌≤◌}
use Prim.Native.Char.{Char, code}
use Prim.Native.String.{String}
use mathlib.Core.Path.{◌≡◌, refl, ap, ◌∙◌}
use mathlib.Core.Bool.{true, ◌||◌}
use mathlib.Core.Option.{Option, none, some}
use mathlib.Core.List.{List, [], ◌∷◌, ◌++◌}
use mathlib.Core.Logic.{inl, inr}
use native.Mathlib.Omega.{arith}
use terraform_provider_nixos.Base.Tests.{
  ltb, ◌==◌, ==_iff, if◌then◌else◌, Bool-cases, all_below_sound,
}
use terraform_provider_nixos.Base.Lists.{All, All-append}
use terraform_provider_nixos.Base.Results.{Outcome, ok, err, external}
use terraform_provider_nixos.Base.Int.{ℤ, pos, negsuc, neg}
use terraform_provider_nixos.Base.Text.{char_nth, is_nonempty}

digit_char : ℕ → Char
digit_char d = char_nth "0123456789" d "0"

write : List ℕ → String
write [] = ""
write (d ∷ ds) = String.◌∷◌ (digit_char d) (write ds)

-- The decimal digits, the first one first; one round for each digit, so `suc n` rounds suffice.
digits : ℕ → ℕ → List ℕ
digits zero n = []
digits (suc f) n = let rest = digits f (n / 10) in if ltb n 10 then n ∷ [] else rest ++ n % 10 ∷ []

itoa_nat : ℕ → String
unfolding digits write digit_char
itoa_nat n = write (digits (suc n) n)

unfoldable pub itoa : ℤ → String
unfolding itoa_nat
itoa (pos n) = itoa_nat n
itoa (negsuc n) = String.◌∷◌ "-" (itoa_nat (suc n))

read : String → ℕ → Option ℕ
read String.[] n = some n
read (String.◌∷◌ c s) n =
    if ltb (code c) b'0' || ltb b'9' (code c) then none else read s (n * 10 + (code c - b'0'))

abbrev syntax_error : Outcome ℤ
syntax_error = err (external "invalid syntax")

abbrev range_error : Outcome ℤ
range_error = err (external "value out of range")

abbrev max_int : ℕ
max_int = 2 ^ 63 - 1

-- The digits after the sign, and the range of an `int`.
read_positive : String → Outcome ℤ
read_positive String.[] = syntax_error
read_positive (String.◌∷◌ c s) = elim (read (String.◌∷◌ c s) 0) [
  | none ↦ syntax_error
  | some n ↦ if ltb max_int n then range_error else ok (pos n)
]

read_negative : String → Outcome ℤ
read_negative String.[] = syntax_error
read_negative (String.◌∷◌ c s) = elim (read (String.◌∷◌ c s) 0) [
  | none ↦ syntax_error
  | some n ↦ if ltb (max_int + 1) n then range_error else ok (neg n)
]

unfoldable pub atoi : String → Outcome ℤ
unfolding read read_positive read_negative
atoi String.[] = syntax_error
atoi (String.◌∷◌ c s) =
    if code c == b'-'
    then read_negative s
    else if code c == b'+'
    then read_positive s
    else read_positive (String.◌∷◌ c s)

code-digit_char : (d : ℕ) → d < 10 → code (digit_char d) ≡ b'0' + d
unfolding digit_char
code-digit_char d h =
    (==_iff _ _).0 (all_below_sound 10 (λ d. code (digit_char d) == b'0' + d) d refl h)

value : List ℕ → ℕ → ℕ
value [] n = n
value (d ∷ ds) n = value ds (n * 10 + d)

value-append : (xs : List ℕ) (d n : ℕ) → value (xs ++ d ∷ []) n ≡ value xs n * 10 + d
unfolding value
value-append [] d n = refl
value-append (x ∷ xs) d n = value-append xs d (n * 10 + x)

read-write : (ds : List ℕ) (n : ℕ) → All (λ d. d < 10) ds → read (write ds) n ≡ some (value ds n)
unfolding read write value
read-write [] n h = refl
read-write (d ∷ ds) n h = ground (arith, code-digit_char d h.0, read-write ds (n * 10 + d) h.1)

digits_small : (f n : ℕ) → All (λ d. d < 10) (digits f n)
unfolding digits
digits_small zero n = tt
digits_small (suc f) n = elim (Bool-cases (ltb n 10)) [
  | inl small ↦ rw small (ground arith, tt)
  | inr large ↦ rw large (
      All-append (λ d. d < 10) (digits f (n / 10)) (n % 10 ∷ []) (digits_small f (n / 10))
        (omega arith, tt))
]

value-digits : (f n : ℕ) → n < f → value (digits f n) 0 ≡ n
unfolding digits value
value-digits zero n h = absurd (omega arith)
value-digits (suc f) n h =
    ground (arith, value-append (digits f (n / 10)) (n % 10) 0, value-digits f (n / 10))

read-itoa_nat : (n : ℕ) → read (itoa_nat n) 0 ≡ some n
unfolding itoa_nat
read-itoa_nat n =
    read-write (digits (suc n) n) 0 (digits_small (suc n) n)
    ∙ ap some (value-digits (suc n) n (omega arith))

write-append_nonempty : (ds : List ℕ) (d : ℕ) → is_nonempty (write (ds ++ d ∷ [])) ≡ true
unfolding write
write-append_nonempty [] d = refl
write-append_nonempty (x ∷ ds) d = refl

itoa_nat_nonempty : (n : ℕ) → is_nonempty (itoa_nat n) ≡ true
unfolding itoa_nat
itoa_nat_nonempty n = elim (Bool-cases (ltb n 10)) [
  | inl small ↦ rw small
  | inr large ↦ rw large (write-append_nonempty (digits n (n / 10)) (n % 10))
]

-- A text of digits has no sign.
atoi_of_read :
    (s : String) (n : ℕ)
    → is_nonempty s ≡ true
    → read s 0 ≡ some n
    → n ≤ max_int
    → atoi s ≡ ok (pos n)
unfolding atoi
atoi_of_read String.[] n e h b = cc
atoi_of_read (String.◌∷◌ c s) n e h b = ground arith

-- Reading back what was written gives the number, for every non-negative `int`.
pub atoi-itoa : (n : ℕ) → n ≤ max_int → atoi (itoa (pos n)) ≡ ok (pos n)
unfolding itoa
atoi-itoa n h = atoi_of_read (itoa_nat n) n (itoa_nat_nonempty n) (read-itoa_nat n) h

test_itoa : itoa (pos 2222) ≡ "2222"
unfolding itoa
test_itoa = refl
