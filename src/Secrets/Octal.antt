-- ===== src/Secrets/Octal.antt =====
-- `Secrets.fromOctal` of provider/secrets.go: a decimal number is read as if its digits were octal.
-- `int(math.Pow(8, ctr))` is exact, since 8^ctr is a power of two far below 2^53 for such numbers.
use native.Mathlib.Nat.{pow-suc}
use terraform_provider_nixos.Base.{
  ℕ, zero, suc, ◌+◌, ◌*◌, ◌/◌, ◌%◌, ◌^◌, ◌<◌, ◌≡◌, refl, ap, List, [], ◌∷◌, Option, none, some, All,
  length, arith, Bool, false, if◌then◌else◌, ◌==◌, ◌∙◌, Bool-cases, inl, inr,
}
use terraform_provider_nixos.Base.Int.{ℤ, pos, negsuc, neg, ◌+ℤ◌}

-- Go's `n % 10` and `n / 10`, which truncate towards zero
rem_ten : ℤ → ℤ
rem_ten (pos n) = pos (n % 10)
rem_ten (negsuc n) = neg (suc n % 10)

div_ten : ℤ → ℤ
div_ten (pos n) = pos (n / 10)
div_ten (negsuc n) = neg (suc n / 10)

times : ℤ → ℕ → ℤ
times (pos n) k = pos (n * k)
times (negsuc n) k = neg (suc n * k)

is_zero : ℤ → Bool
is_zero (pos n) = n == 0
is_zero (negsuc n) = false

-- the loop; `none` if the fuel runs out
octal_loop : ℕ → ℤ → ℤ → ℕ → Option ℤ
octal_loop zero n res ctr = none
octal_loop (suc fuel) n res ctr =
    let rest = octal_loop fuel (div_ten n) (res +ℤ times (rem_ten n) (8 ^ ctr)) (suc ctr) in
    if is_zero n then some res else rest

abbrev magnitude : ℤ → ℕ
magnitude (pos n) = n
magnitude (negsuc n) = suc n

abbrev result : Option ℤ → ℤ
result none = pos 0
result (some n) = n

-- One round for each digit; the number itself is more rounds than it has digits.
unfoldable pub from_octal : ℤ → ℤ
unfolding octal_loop rem_ten div_ten times is_zero
from_octal n = result (octal_loop (suc (magnitude n)) n (pos 0) 0)

-- The numbers that are written by these digits, the last digit first.
unfoldable pub decimal : List ℕ → ℕ
decimal [] = 0
decimal (d ∷ ds) = d + 10 * decimal ds

unfoldable pub octal : List ℕ → ℕ
octal [] = 0
octal (d ∷ ds) = d + 8 * octal ds

octal_of_zero : (ds : List ℕ) → decimal ds ≡ 0 → octal ds ≡ 0
unfolding decimal octal
octal_of_zero [] h = refl
octal_of_zero (d ∷ ds) h = omega (arith, octal_of_zero ds (omega arith))

-- one round: the last digit counts with the power of its place
last_digit : (d x : ℕ) → d < 10 → ((d + 10 * x) / 10 ≡ x) × ((d + 10 * x) % 10 ≡ d)
last_digit d x h = omega arith

round_value : (res d o ctr : ℕ) → res + d * 8 ^ ctr + o * 8 ^ suc ctr ≡ res + (d + 8 * o) * 8 ^ ctr
round_value res d o ctr = omega (arith, ap (λ (t : ℕ). o * t) (pow-suc 8 ctr))

add_pos : (a b : ℕ) → pos a +ℤ pos b ≡ pos (a + b)
add_pos a b = ground arith

octal_loop-octal :
    (ds : List ℕ) (fuel res ctr : ℕ)
    → All (λ d. d < 10) ds
    → decimal ds < fuel
    → octal_loop fuel (pos (decimal ds)) (pos res) ctr ≡ some (pos (res + octal ds * 8 ^ ctr))
unfolding octal_loop decimal octal is_zero div_ten rem_ten times
octal_loop-octal ds zero res ctr h k = absurd (omega arith)
octal_loop-octal [] (suc fuel) res ctr h k = ap (λ (x : ℕ). some (pos x)) (omega arith)
octal_loop-octal (d ∷ ds) (suc fuel) res ctr h k = elim (Bool-cases (decimal (d ∷ ds) == 0)) [
  | inl zero' ↦ ground (arith, octal_of_zero ds)
  | inr more ↦
      rw
        (
          more,
          (last_digit d (decimal ds) h.0).0,
          (last_digit d (decimal ds) h.0).1,
          add_pos res (d * 8 ^ ctr),
        )
        (octal_loop-octal ds fuel (res + d * 8 ^ ctr) (suc ctr) h.1 (ground arith)
          ∙ ap (λ (x : ℕ). some (pos x)) (round_value res d (octal ds) ctr))
]

div_ten_shrinks :
    (n : ℤ) (k : ℕ) → is_zero n ≡ false → magnitude n < suc k → magnitude (div_ten n) < k
unfolding is_zero div_ten
div_ten_shrinks (pos n) k h l = ground arith
div_ten_shrinks (negsuc n) k h l = ground arith

-- The loop ends within its fuel, on numbers of either sign.
octal_loop-total :
    (fuel : ℕ) (n res : ℤ) (ctr : ℕ)
    → magnitude n < fuel
    → (r : ℤ) × (octal_loop fuel n res ctr ≡ some r)
unfolding octal_loop
octal_loop-total zero n res ctr h = absurd (omega arith)
octal_loop-total (suc fuel) n res ctr h = elim (Bool-cases (is_zero n)) [
  | inl zero' ↦ (res, rw zero')
  | inr more ↦ rw more (
      octal_loop-total fuel (div_ten n) (res +ℤ times (rem_ten n) (8 ^ ctr)) (suc ctr)
        (div_ten_shrinks n fuel more h))
]

-- `fromOctal` gives a number written in decimal digits the value of the same digits in base eight.
pub from_octal-octal :
    (ds : List ℕ) → All (λ d. d < 10) ds → from_octal (pos (decimal ds)) ≡ pos (octal ds)
unfolding from_octal
from_octal-octal ds h =
    ap result (octal_loop-octal ds (suc (decimal ds)) 0 0 h (omega arith)) ∙ ap pos (omega arith)

-- Digits that are octal give permissions of as many octal digits.
pub octal-lt : (ds : List ℕ) → All (λ d. d < 8) ds → octal ds < 8 ^ length ds
unfolding octal
octal-lt [] h = omega arith
octal-lt (d ∷ ds) h = omega (arith, octal-lt ds h.1, pow-suc 8 (length ds))
