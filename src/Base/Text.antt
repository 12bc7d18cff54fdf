-- ===== src/Base/Text.antt =====
-- Text: Go's `string` is the native `String` (a list of characters). Joining, lower case, and the
-- decimal and hexadecimal writing that `strconv` and `encoding/hex` give.
use Prim.Native.Nat.{ℕ, zero, suc, ◌-◌}
use Prim.Native.Char.{Char, code}
use Prim.Native.String.{String, ◌++◌ as ◌⧺◌}
use mathlib.Core.Path.{◌≡◌, refl}
use mathlib.Core.Bool.{Bool, true, false, not, ◌&&◌}
use mathlib.Core.List.{List, [], ◌∷◌}
use mathlib.Core.Logic.{inl, inr}
use native.Mathlib.Omega.{arith}
use terraform_provider_nixos.Base.Tests.{leb, Bool-cases, if◌then◌else◌}

-- `len(s) > 0`
abbrev pub is_nonempty : String → Bool
is_nonempty String.[] = false
is_nonempty (String.◌∷◌ c s) = true

-- The character at a position of a table, or the given one past its end.
abbrev pub char_nth : String → ℕ → Char → Char
char_nth String.[] i d = d
char_nth (String.◌∷◌ c s) zero d = c
char_nth (String.◌∷◌ c s) (suc i) d = char_nth s i d

is_upper : Char → Bool
is_upper c = leb b'A' (code c) && leb (code c) b'Z'

-- `strings.ToLower` on one character: the letters of ASCII; other scripts are left alone.
lower_char : Char → Char
lower_char c = if is_upper c then char_nth "abcdefghijklmnopqrstuvwxyz" (code c - b'A') "a" else c

unfoldable pub to_lower : String → String
unfolding lower_char is_upper
to_lower String.[] = ""
to_lower (String.◌∷◌ c s) = String.◌∷◌ (lower_char c) (to_lower s)

-- `strings.Join(xs, sep)`
unfoldable pub join : List String → String → String
join [] sep = ""
join (x ∷ []) sep = x
join (x ∷ y ∷ xs) sep = x ⧺ (sep ⧺ join (y ∷ xs) sep)

all_plain : String → Bool
all_plain String.[] = true
all_plain (String.◌∷◌ c s) = not (is_upper c) && all_plain s

char_nth_plain :
    (t : String) (i : ℕ) (d : Char)
    → all_plain t ≡ true
    → is_upper d ≡ false
    → is_upper (char_nth t i d) ≡ false
unfolding all_plain
char_nth_plain String.[] i d h k = k
char_nth_plain (String.◌∷◌ c s) zero d h k = ground arith
char_nth_plain (String.◌∷◌ c s) (suc i) d h k = char_nth_plain s i d (ground arith) k

alphabet_plain : all_plain "abcdefghijklmnopqrstuvwxyz" ≡ true
unfolding all_plain is_upper
alphabet_plain = refl

a_plain : is_upper "a" ≡ false
unfolding is_upper
a_plain = refl

lower_char_plain : (c : Char) → is_upper (lower_char c) ≡ false
unfolding lower_char
lower_char_plain c = elim (Bool-cases (is_upper c)) [
  | inl up ↦
      rw (lower_char, up)
        (char_nth_plain "abcdefghijklmnopqrstuvwxyz" (code c - b'A') "a" alphabet_plain a_plain)
  | inr plain ↦ rw (lower_char, plain) plain
]

lower_char_of_plain : (c : Char) → is_upper c ≡ false → lower_char c ≡ c
unfolding lower_char
lower_char_of_plain c h = rw (lower_char, h)

pub to_lower_idem : (s : String) → to_lower (to_lower s) ≡ to_lower s
unfolding to_lower
to_lower_idem String.[] = refl
to_lower_idem (String.◌∷◌ c s) =
    rw (lower_char_of_plain (lower_char c) (lower_char_plain c), to_lower_idem s)

lower_key : to_lower "proxyCommand" ≡ "proxycommand"
unfolding to_lower
lower_key = refl
