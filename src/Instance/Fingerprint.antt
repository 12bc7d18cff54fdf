-- ===== src/Instance/Fingerprint.antt =====
-- The fingerprint of the secrets in provider/instance.go: what is kept of them in the state.
use terraform_provider_nixos.Base.{
  ℕ, ◌+◌, ◌-◌, ◌<◌, ◌≡◌, refl, sym, List, [], ◌∷◌, ◌==◌, Bool, true, false, ◌&&◌, none, some,
  Outcome, ok, err, ◌>>=◌, arith,
}
use terraform_provider_nixos.Base.Int.{ℤ, pos}
use terraform_provider_nixos.Base.Decimal.{itoa, atoi, atoi-itoa}
use terraform_provider_nixos.Base.Hex.{
  Bytes, IsBytes, encode_to_string, decode_string, decode_string-encode_to_string,
}
use terraform_provider_nixos.System.{Attempt, done, refused}
use terraform_provider_nixos.Secrets.{Crypto, SecretData, hash_all}
use terraform_provider_nixos.Settings.{Value, Fields, str, end, field, get_field}
use terraform_provider_nixos.Provider.{as_string}

-- `crypto/rand.Read` of a number of bytes, and `math/rand.Intn`
pub record Random : Type 0 where
  pub read : ℕ → Attempt Bytes
  pub intn : ℕ → ℕ

abbrev salt_size : ℕ
salt_size = 32

abbrev min_iterations : ℕ
min_iterations = 32

abbrev max_iterations : ℕ
max_iterations = 64

-- the three entries of the map
unfoldable pub fingerprint_fields : Bytes → Bytes → ℤ → Fields
fingerprint_fields sum salt iterations = field "sum" (str (encode_to_string sum)) (
    field "salt" (str (encode_to_string salt)) (field "kdf_iterations" (str (itoa iterations)) end))

fingerprint_with : Crypto → Random → List SecretData → Attempt Bytes → Outcome Fields
unfolding fingerprint_fields
fingerprint_with crypto random secrets (refused e) = err e
fingerprint_with crypto random secrets (done salt) =
    let iterations = pos (random.intn ((max_iterations - min_iterations + 1) + min_iterations)) in
    ok (fingerprint_fields (hash_all crypto secrets salt iterations) salt iterations)

unfoldable pub secrets_fingerprint_to_schema : Crypto → Random → List SecretData → Outcome Fields
unfolding fingerprint_with
secrets_fingerprint_to_schema crypto random secrets =
    fingerprint_with crypto random secrets (random.read salt_size)

pub record Fingerprint : Type 0 where
  pub sum : Bytes
  pub salt : Bytes
  pub iterations : ℤ

-- the named results of Go before any is assigned
abbrev pub no_fingerprint : Fingerprint
no_fingerprint = record { sum = []; salt = []; iterations = pos 0 }

read_fingerprint : Value → Value → Value → Outcome Fingerprint
read_fingerprint sum salt iterations = do
  s ← as_string sum
  sum_bytes ← decode_string s
  t ← as_string salt
  salt_bytes ← decode_string t
  i ← as_string iterations
  n ← atoi i
  ok (record { sum = sum_bytes; salt = salt_bytes; iterations = n })

unfoldable pub schema_to_secret_fingerprint : Fields → Outcome Fingerprint
unfolding read_fingerprint
schema_to_secret_fingerprint schema = elim (get_field "sum" schema) [
  | none ↦ ok no_fingerprint
  | some sum ↦ elim (get_field "salt" schema) [
    | none ↦ ok no_fingerprint
    | some salt ↦ elim (get_field "kdf_iterations" schema) [
      | none ↦ ok no_fingerprint
      | some iterations ↦ read_fingerprint sum salt iterations
    ]
  ]
]

-- `bytes.Equal`
unfoldable pub equal : Bytes → Bytes → Bool
equal [] [] = true
equal (a ∷ s) (b ∷ t) = (a == b) && equal s t
equal s t = false

-- `bytes.Equal(secretsData.Hash(salt, kdfIterations), sum)` of `Diff`
unfoldable pub is_unchanged : Crypto → List SecretData → Fingerprint → Bool
unfolding equal
is_unchanged crypto secrets f = equal (hash_all crypto secrets f.salt f.iterations) f.sum

equal_refl : (bs : Bytes) → equal bs bs ≡ true
unfolding equal
equal_refl [] = refl
equal_refl (b ∷ bs) = ground (arith, equal_refl bs)

-- Reading the entries of a fingerprint back gives the same bytes and the same number.
pub fingerprint_round_trip :
    (sum salt : Bytes) (n : ℕ)
    → IsBytes sum
    → IsBytes salt
    → n < 65
    → schema_to_secret_fingerprint (fingerprint_fields sum salt (pos n))
      ≡ ok (record { sum = sum; salt = salt; iterations = pos n })
unfolding schema_to_secret_fingerprint fingerprint_fields read_fingerprint get_field
fingerprint_round_trip sum salt n hs ht hn =
    rw
      (
        decode_string-encode_to_string sum hs,
        decode_string-encode_to_string salt ht,
        atoi-itoa n (omega arith),
      )
      refl

-- The hash functions yield bytes, and the sources of randomness bytes and numbers below the bound.
pub record IsSound (crypto : Crypto) (random : Random) : Type 0 where
  pub hash_bytes : (bs : Bytes) → IsBytes (crypto.sha256 bs)
  pub salt_bytes : (n : ℕ) (bs : Bytes) → random.read n ≡ done bs → IsBytes bs
  pub below : (n : ℕ) → 0 < n → random.intn n < n

unchanged_with :
    (crypto : Crypto) (random : Random) (secrets : List SecretData) (a : Attempt Bytes)
    (schema : Fields)
    → IsSound crypto random
    → random.read salt_size ≡ a
    → fingerprint_with crypto random secrets a ≡ ok schema
    → (f : Fingerprint) × (schema_to_secret_fingerprint schema ≡ ok f)
      × (is_unchanged crypto secrets f ≡ true)
unfolding fingerprint_with is_unchanged hash_all
unchanged_with crypto random secrets (refused e) schema s r h = cc
unchanged_with crypto random secrets (done salt) schema s r h =
    let n = random.intn ((max_iterations - min_iterations + 1) + min_iterations) in
    let sum = hash_all crypto secrets salt (pos n) in
    let eq : fingerprint_fields sum salt (pos n) ≡ schema = cc in
    let read =
      fingerprint_round_trip sum salt n (s.hash_bytes _) (s.salt_bytes _ _ r)
        (s.below _ (omega arith)) in
    (record { sum = sum; salt = salt; iterations = pos n }, rw (sym eq) read, equal_refl sum)

-- If hashes and salts are bytes and random numbers are below their bound, the fingerprint that is
-- kept of some secrets can be read back, and compared with the same secrets it says that they did
-- not change.
pub fingerprint-unchanged :
    (crypto : Crypto) (random : Random) (secrets : List SecretData) (schema : Fields)
    → IsSound crypto random
    → secrets_fingerprint_to_schema crypto random secrets ≡ ok schema
    → (f : Fingerprint) × (schema_to_secret_fingerprint schema ≡ ok f)
      × (is_unchanged crypto secrets f ≡ true)
unfolding secrets_fingerprint_to_schema
fingerprint-unchanged crypto random secrets schema s h =
    unchanged_with crypto random secrets (random.read salt_size) schema s refl h
