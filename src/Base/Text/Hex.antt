-- ===== src/Base/Text/Hex.antt =====
-- `int(s, 16)`, `int(s)` and `hex(n)[2:]`. Blanks, a sign and the mark of long numbers around the digits,
-- which Python accepts too, are no part of it: the node's numbers have none.
pub mod RoundTrip
use Prim.Native.Nat.{ℕ, zero, suc, ◌+◌, ◌-◌, ◌*◌, ◌/◌, ◌%◌}
use Prim.Native.Char.{Char, code}
use Prim.Native.String.{String}
use mathlib.Core.Bool.{◌&&◌, ◌||◌}
use mathlib.Core.Option.{Option, none, some}
use mathlib.Core.List.{List, [], ◌∷◌}
use text.Mathlib.Text.{◌==◌ as str_eq}
use cross_chain_mid_ware.Base.Tests.{ltb, leb, if◌then◌else◌}
use cross_chain_mid_ware.Base.Result.{Result, ok, err, value_error}
use cross_chain_mid_ware.Base.Text.{char_or, prefix, suffix}

hex_value : Char → Option ℕ
hex_value c =
    if leb 48 (code c) && leb (code c) 57
    then some (code c - 48)
    else if leb 97 (code c) && leb (code c) 102
    then some (code c - 87)
    else if leb 65 (code c) && leb (code c) 70
    then some (code c - 55)
    else none

unfoldable pub read_hex : ℕ → String → Result ℕ
unfolding hex_value
read_hex acc String.[] = ok acc
read_hex acc (String.◌∷◌ c s) = elim (hex_value c) [
  | none ↦ err value_error
  | some d ↦ read_hex (acc * 16 + d) s
]

read_digits : String → Result ℕ
read_digits s = if str_eq s "" then err value_error else read_hex 0 s

-- `int(s, 16)`
unfoldable pub int16 : String → Result ℕ
unfolding read_digits read_hex hex_value prefix suffix
int16 s =
    if str_eq (prefix 2 s) "0x" || str_eq (prefix 2 s) "0X"
    then read_digits (suffix 2 s)
    else read_digits s

read_decimal : ℕ → String → Result ℕ
read_decimal acc String.[] = ok acc
read_decimal acc (String.◌∷◌ c s) =
    let rest = read_decimal (acc * 10 + (code c - 48)) s in
    if leb 48 (code c) && leb (code c) 57 then rest else err value_error

-- `int(s)`
unfoldable pub int10 : String → Result ℕ
unfolding read_decimal
int10 s = if str_eq s "" then err value_error else read_decimal 0 s

abbrev hex_chars : List Char
hex_chars =
    "0" ∷ "1" ∷ "2" ∷ "3" ∷ "4" ∷ "5" ∷ "6" ∷ "7" ∷ "8" ∷ "9" ∷ "a" ∷ "b" ∷ "c" ∷ "d" ∷ "e" ∷ "f"
    ∷ []

hex_fuel : ℕ → ℕ → String → String
hex_fuel zero n rest = rest
hex_fuel (suc f) n rest =
    let text = String.◌∷◌ (char_or hex_chars (n % 16) "0") rest in
    let more = hex_fuel f (n / 16) text in if ltb n 16 then text else more

-- `hex(n)[2:]`
unfoldable pub show_hex : ℕ → String
unfolding hex_fuel char_or
show_hex n = hex_fuel (suc n) n ""
