-- ===== src/Base/Hex.antt =====
-- `hex.EncodeToString` and `hex.DecodeString` of `encoding/hex`.
use Prim.Native.Nat.{ℕ, ◌+◌, ◌-◌, ◌*◌, ◌/◌, ◌%◌, ◌<◌}
use Prim.Native.Char.{Char, code}
use Prim.Native.String.{String}
use mathlib.Core.Path.{◌≡◌, refl, ap}
use mathlib.Core.Bool.{Bool, true, false, ◌&&◌}
use mathlib.Core.List.{List, [], ◌∷◌}
use native.Mathlib.Omega.{arith}
use terraform_provider_nixos.Base.Tests.{leb, ◌==◌, if◌then◌else◌, all_below_sound}
use terraform_provider_nixos.Base.Lists.{All}
use terraform_provider_nixos.Base.Results.{Outcome, ok, err, external, ◌>>=◌}
use terraform_provider_nixos.Base.Text.{char_nth}

abbrev pub Bytes : Type 0
Bytes = List ℕ

abbrev pub IsBytes : Bytes → Type 0
IsBytes = All (λ b. b < 256)

hex_char : ℕ → Char
hex_char d = char_nth "0123456789abcdef" d "0"

unfoldable pub encode_to_string : Bytes → String
unfolding hex_char
encode_to_string [] = ""
encode_to_string (b ∷ bs) =
    String.◌∷◌ (hex_char (b / 16)) (String.◌∷◌ (hex_char (b % 16)) (encode_to_string bs))

from_hex_char : Char → Outcome ℕ
from_hex_char c =
    let n = code c in
    if leb b'0' n && leb n b'9'
    then ok (n - b'0')
    else if leb b'a' n && leb n b'f'
    then ok (n - b'a' + 10)
    else if leb b'A' n && leb n b'F'
    then ok (n - b'A' + 10)
    else err (external "encoding/hex: invalid byte")

unfoldable pub decode_string : String → Outcome Bytes
unfolding from_hex_char
decode_string String.[] = ok []
decode_string (String.◌∷◌ c String.[]) = do
  _ ← from_hex_char c
  err (external "encoding/hex: odd length hex string")
decode_string (String.◌∷◌ c (String.◌∷◌ d s)) = do
  hi ← from_hex_char c
  lo ← from_hex_char d
  rest ← decode_string s
  ok ((hi * 16 + lo) ∷ rest)

abbrev is_digit_of : ℕ → Outcome ℕ → Bool
is_digit_of d (ok n) = n == d
is_digit_of d _ = false

is_digit_of-eq : (d : ℕ) (o : Outcome ℕ) → is_digit_of d o ≡ true → o ≡ ok d
is_digit_of-eq d (ok n) h = ground arith
is_digit_of-eq d o h = absurd (ground arith)

from_hex_char-hex_char : (d : ℕ) → d < 16 → from_hex_char (hex_char d) ≡ ok d
unfolding hex_char from_hex_char
from_hex_char-hex_char d h =
    is_digit_of-eq d _
      (all_below_sound 16 (λ d. is_digit_of d (from_hex_char (hex_char d))) d refl h)

-- Decoding what was encoded gives the bytes back.
pub decode_string-encode_to_string :
    (bs : Bytes) → IsBytes bs → decode_string (encode_to_string bs) ≡ ok bs
unfolding decode_string encode_to_string
decode_string-encode_to_string [] h = refl
decode_string-encode_to_string (b ∷ bs) h =
    rw
      (
        from_hex_char-hex_char (b / 16) (omega arith),
        from_hex_char-hex_char (b % 16) (omega arith),
        decode_string-encode_to_string bs h.1,
      )
      (ap (λ (x : ℕ). ok (x ∷ bs)) (omega arith))
