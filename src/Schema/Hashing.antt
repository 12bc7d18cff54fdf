-- ===== src/Schema/Hashing.antt =====
-- `HashAny` of provider/schema.go: the hash by which the SDK tells the items of a set apart.
-- `json.Marshal` and `crc32.ChecksumIEEE` are parameters. An int has 32 or 64 bits.
use terraform_provider_nixos.Base.{
  ℕ, suc, ◌-◌, ◌%◌, ◌^◌, ◌<◌, ◌≤◌, ◌≡◌, refl, ◌⊎◌, inl, inr, Outcome, ok, panic, raised, arith,
  if◌then◌else◌, ltb, ◌>>=◌,
}
use native.Mathlib.Decide.{dec_lt}
use terraform_provider_nixos.Base.Int.{ℤ, pos, negsuc}
use terraform_provider_nixos.Base.Hex.{Bytes}
use terraform_provider_nixos.System.{Attempt, done, refused}

pub data IntSize : Type 0 where
  bits32 bits64 : IntSize

-- the numbers of an int, and those of them that are not negative
abbrev pub whole : IntSize → ℕ
whole bits32 = 2 ^ 32
whole bits64 = 2 ^ 64

abbrev pub half : IntSize → ℕ
half bits32 = 2 ^ 31
half bits64 = 2 ^ 63

-- the int with the bits of `m`
signed : IntSize → ℕ → ℤ
signed size m = if ltb m (half size) then pos m else negsuc (whole size - 1 - m)

-- `int(n)`, which keeps the low bits
unfoldable pub int_of : IntSize → ℕ → ℤ
unfolding signed
int_of bits32 n = signed bits32 (n % 2 ^ 32)
int_of bits64 n = signed bits64 (n % 2 ^ 64)

-- `-h`, which is `h` again at the least int
opposite : IntSize → ℤ → ℤ
unfolding int_of
opposite size (pos n) = int_of size (whole size - n)
opposite size (negsuc n) = int_of size (suc n)

-- the two tests behind `h`
or_zero : ℤ → ℤ
or_zero (pos n) = pos n
or_zero (negsuc n) = pos 0

non_negative : IntSize → ℤ → ℤ
unfolding opposite or_zero
non_negative size (pos n) = pos n
non_negative size (negsuc n) = or_zero (opposite size (negsuc n))

module _ {V : Type 0} (marshal : V → Attempt Bytes) (checksum : Bytes → ℕ) (size : IntSize) where
  marshalled : Attempt Bytes → Outcome Bytes
  marshalled (done b) = ok b
  marshalled (refused e) = panic (raised e)

  unfoldable pub hash_any : V → Outcome ℤ
  unfolding marshalled int_of non_negative
  hash_any v = do buf ← marshalled (marshal v); ok (non_negative size (int_of size (checksum buf)))

-- the bounds of a hash, which is the checksum unless that is too large for an int
pub record IsHashOf (size : IntSize) (c : ℕ) (h : ℤ) : Type 0 where
  pub value : ℕ
  pub hash_eq : h ≡ pos value
  pub bound : value < half size
  pub same : (value ≡ c) ⊎ (half size ≤ c)

signed-low : (size : IntSize) (m : ℕ) → m < half size → signed size m ≡ pos m
unfolding signed
signed-low size m h = ground arith

signed-high : (size : IntSize) (m : ℕ) → half size ≤ m → signed size m ≡ negsuc (whole size - 1 - m)
unfolding signed
signed-high size m h = ground arith

low_bits : (size : IntSize) (m : ℕ) → m < half size → int_of size m ≡ pos m
unfolding int_of
low_bits bits32 m h = let q : m % 2 ^ 32 ≡ m = omega arith in rw q (signed-low bits32 m h)
low_bits bits64 m h = let q : m % 2 ^ 64 ≡ m = omega arith in rw q (signed-low bits64 m h)

high_bits : (c : ℕ) → half bits32 ≤ c → c < 2 ^ 32 → int_of bits32 c ≡ negsuc (2 ^ 32 - 1 - c)
unfolding int_of
high_bits c h l = let q : c % 2 ^ 32 ≡ c = omega arith in rw q (signed-high bits32 c h)

-- a checksum too large for an int of 32 bits
negative-IsHashOf :
    (c k : ℕ)
    → half bits32 ≤ c
    → int_of bits32 c ≡ negsuc k
    → (suc k ≤ half bits32)
    → IsHashOf bits32 c (non_negative bits32 (int_of bits32 c))
unfolding non_negative opposite or_zero
negative-IsHashOf c k h e l =
    rw (e, non_negative)
      (elim (dec_lt (suc k) (half bits32)) [
        | yes m ↦ record {
          value = suc k;
          hash_eq = rw (low_bits bits32 (suc k) m) refl;
          bound = m;
          same = inr h;
        }
        | no n ↦ record {
          value = 0;
          hash_eq = let q : suc k % 2 ^ 32 ≡ half bits32 = omega arith in rw q refl;
          bound = omega arith;
          same = inr h;
        }
      ])

non_negative-IsHashOf :
    (size : IntSize) (c : ℕ) → c < 2 ^ 32 → IsHashOf size c (non_negative size (int_of size c))
unfolding non_negative
non_negative-IsHashOf bits64 c h =
    rw (low_bits bits64 c (omega arith))
      (record { value = c; hash_eq = refl; bound = omega arith; same = inl refl })
non_negative-IsHashOf bits32 c h = elim (dec_lt c (half bits32)) [
  | yes l ↦
      rw (low_bits bits32 c l) (record { value = c; hash_eq = refl; bound = l; same = inl refl })
  | no n ↦
      negative-IsHashOf c (2 ^ 32 - 1 - c) (omega arith) (high_bits c (omega arith) h) (omega arith)
]

-- If the value is encoded and the checksum has 32 bits, `HashAny` returns a number that is not
-- negative and below the bound of an int. It is the checksum, unless the checksum is too large for
-- an int, as it may be where an int has 32 bits.
pub hash_any-IsHashOf :
    {V : Type 0} (marshal : V → Attempt Bytes) (checksum : Bytes → ℕ) (size : IntSize) (v : V)
    → (buf : Bytes) → marshal v ≡ done buf
    → checksum buf < 2 ^ 32
    → (h : ℤ) × (hash_any marshal checksum size v ≡ ok h) × IsHashOf size (checksum buf) h
unfolding hash_any marshalled
hash_any-IsHashOf marshal checksum size v buf e h =
    (_, rw e refl, non_negative-IsHashOf size (checksum buf) h)
