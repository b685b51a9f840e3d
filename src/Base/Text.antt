-- ===== src/Base/Text.antt =====
-- The operations of Python's texts that the program uses, over ASCII.
pub mod Decimal
pub mod Hex
pub mod Slices
use Prim.Native.Nat.{ℕ, zero, suc, ◌-◌, ◌/◌, ◌%◌}
use Prim.Native.Char.{Char, code}
use Prim.Native.String.{String}
pub use Prim.Native.String.{◌++◌ as ◌<>◌}
use mathlib.Core.Bool.{Bool, true, false, ◌&&◌}
use mathlib.Core.Option.{none, some}
use mathlib.Core.List.{List, [], ◌∷◌}
use text.Mathlib.Text.{find?}
use text.Mathlib.Text.{◌==◌ as str_eq}
use cross_chain_mid_ware.Base.Tests.{ltb, leb, ◌==◌, if◌then◌else◌}

abbrev alphabet : List Char
alphabet =
    "a" ∷ "b" ∷ "c" ∷ "d" ∷ "e" ∷ "f" ∷ "g" ∷ "h" ∷ "i" ∷ "j" ∷ "k" ∷ "l" ∷ "m" ∷ "n" ∷ "o" ∷ "p"
    ∷ "q" ∷ "r" ∷ "s" ∷ "t" ∷ "u" ∷ "v" ∷ "w" ∷ "x" ∷ "y" ∷ "z" ∷ []

abbrev capitals : List Char
capitals =
    "A" ∷ "B" ∷ "C" ∷ "D" ∷ "E" ∷ "F" ∷ "G" ∷ "H" ∷ "I" ∷ "J" ∷ "K" ∷ "L" ∷ "M" ∷ "N" ∷ "O" ∷ "P"
    ∷ "Q" ∷ "R" ∷ "S" ∷ "T" ∷ "U" ∷ "V" ∷ "W" ∷ "X" ∷ "Y" ∷ "Z" ∷ []

abbrev digit_chars : List Char
digit_chars = "0" ∷ "1" ∷ "2" ∷ "3" ∷ "4" ∷ "5" ∷ "6" ∷ "7" ∷ "8" ∷ "9" ∷ []

char_or : List Char → ℕ → Char → Char
char_or [] i d = d
char_or (c ∷ cs) zero d = c
char_or (c ∷ cs) (suc i) d = char_or cs i d

lower_char : Char → Char
unfolding char_or
lower_char c = if leb 65 (code c) && leb (code c) 90 then char_or alphabet (code c - 65) c else c

upper_char : Char → Char
unfolding char_or
upper_char c = if leb 97 (code c) && leb (code c) 122 then char_or capitals (code c - 97) c else c

-- `s.lower()`
unfoldable pub lower : String → String
unfolding lower_char
lower String.[] = ""
lower (String.◌∷◌ c s) = String.◌∷◌ (lower_char c) (lower s)

-- `s.upper()`
unfoldable pub upper : String → String
unfolding upper_char
upper String.[] = ""
upper (String.◌∷◌ c s) = String.◌∷◌ (upper_char c) (upper s)

-- `t in s`
abbrev pub has_text : String → String → Bool
has_text t s = elim (find? s t) [ none ↦ false | some _ ↦ true ]

show_fuel : ℕ → ℕ → String → String
unfolding char_or
show_fuel zero n rest = rest
show_fuel (suc f) n rest =
    let text = String.◌∷◌ (char_or digit_chars (n % 10) "0") rest in
    let more = show_fuel f (n / 10) text in if ltb n 10 then text else more

-- `str(n)`; a number has fewer digits than its value plus one.
unfoldable pub show : ℕ → String
unfolding show_fuel
show n = show_fuel (suc n) n ""

-- `len(s)`, in characters.
unfoldable pub len : String → ℕ
len String.[] = 0
len (String.◌∷◌ c s) = suc (len s)

-- `"0" * n`
unfoldable pub zeros : ℕ → String
zeros zero = ""
zeros (suc n) = "0" <> zeros n

-- `s[:n]` and `s[n:]`
unfoldable pub prefix : ℕ → String → String
prefix zero s = ""
prefix (suc n) String.[] = ""
prefix (suc n) (String.◌∷◌ c s) = String.◌∷◌ c (prefix n s)

unfoldable pub suffix : ℕ → String → String
suffix zero s = s
suffix (suc n) String.[] = ""
suffix (suc n) (String.◌∷◌ c s) = suffix n s

strip_zero : Char → String → String
strip_zero c rest = if code c == 48 && str_eq rest "" then "" else String.◌∷◌ c rest

-- `s.rstrip("0")`: the zeros at the end go.
unfoldable pub rstrip_zeros : String → String
unfolding strip_zero
rstrip_zeros String.[] = ""
rstrip_zeros (String.◌∷◌ c s) = strip_zero c (rstrip_zeros s)
