-- ===== src/Prelude/Chars.antt =====
-- `str::trim`, `str::to_ascii_lowercase` and `str::eq_ignore_ascii_case`.
use Prim.Native.Nat.{ℕ, ◌+◌, compare, Ordering}
use Prim.Native.Char.{Char, char, code, IsScalar}
use Prim.Native.String.{String}
use mathlib.Core.Path.{◌≡◌, refl}
use mathlib.Core.Bool.{Bool, true, false, ◌&&◌, ◌||◌}
use native.Mathlib.Omega.{arith}
use soroban_fuzzer.Prelude.Tests.{leb, ◌==◌, if◌then◌else◌}
use soroban_fuzzer.Prelude.Order.{same, string_ord}

-- `char::is_whitespace`, the property White_Space of Unicode.
unfoldable pub is_whitespace : Char → Bool
is_whitespace c =
    let n = code c in
    (leb 9 n && leb n 13)
    || (n == 32)
    || (n == 133)
    || (n == 160)
    || (n == 5760)
    || (leb 8192 n && leb n 8202)
    || (n == 8232)
    || (n == 8233)
    || (n == 8239)
    || (n == 8287)
    || (n == 12288)

abbrev pub is_blank : String → Bool
is_blank String.[] = true
is_blank (String.◌∷◌ c s) = false

unfoldable pub trim_start : String → String
unfolding is_whitespace
trim_start String.[] = String.[]
trim_start (String.◌∷◌ c s) =
    let rest = trim_start s in if is_whitespace c then rest else String.◌∷◌ c s

unfoldable pub trim_end : String → String
unfolding is_whitespace
trim_end String.[] = String.[]
trim_end (String.◌∷◌ c s) =
    let rest = trim_end s in
    if is_whitespace c && is_blank rest then String.[] else String.◌∷◌ c rest

unfoldable pub trim : String → String
unfolding trim_start trim_end
trim s = trim_end (trim_start s)

pub ascii-IsScalar : (n : ℕ) → (leb 65 n && leb n 90) ≡ true → IsScalar (n + 32)
ascii-IsScalar n h = let small : compare (n + 32) 55296 ≡ Ordering.lt = ground arith in rw small tt

-- A letter from `A` to `Z` moves down by 32.
unfoldable pub shift_upper : (n : ℕ) → IsScalar n → (b : Bool) → (leb 65 n && leb n 90) ≡ b → Char
shift_upper n p true h = char (n + 32) (ascii-IsScalar n h)
shift_upper n p false h = char n p

unfoldable pub lower_char : Char → Char
unfolding shift_upper
lower_char (char n p) = shift_upper n p (leb 65 n && leb n 90) refl

unfoldable pub to_ascii_lowercase : String → String
unfolding lower_char
to_ascii_lowercase String.[] = String.[]
to_ascii_lowercase (String.◌∷◌ c s) = String.◌∷◌ (lower_char c) (to_ascii_lowercase s)

unfoldable pub eq_ignore_ascii_case : String → String → Bool
unfolding to_ascii_lowercase
eq_ignore_ascii_case s t = same (to_ascii_lowercase s) (to_ascii_lowercase t)

padded : trim " CRITICAL " ≡ "CRITICAL"
unfolding trim trim_start trim_end is_whitespace
padded = refl

lowered : to_ascii_lowercase "CRITical" ≡ "critical"
unfolding to_ascii_lowercase lower_char shift_upper
lowered = refl
