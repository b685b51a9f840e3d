-- ===== src/Base/Text/Hex/RoundTrip.antt =====
-- Numbers in hexadecimal notation, with zeros in front, read back, and texts of them taken apart.
use Prim.Native.Nat.{ℕ, zero, suc, ◌+◌, ◌-◌, ◌*◌, ◌/◌, ◌%◌, ◌≤◌, ◌<◌}
use Prim.Native.Char.{Char, code}
use Prim.Native.String.{String}
use mathlib.Core.Path.{◌≡◌, refl, ap, ◌∙◌}
use mathlib.Core.Bool.{Bool, true, false, ◌&&◌, ◌||◌}
use mathlib.Core.Logic.{◌⊎◌, inl, inr}
use mathlib.Core.Option.{Option, none, some}
use native.Mathlib.Omega.{arith}
use text.Mathlib.Text.{◌==◌ as str_eq}
use text.Mathlib.TextEquality.{eq_iff}
use text.Mathlib.TextLemmas.{nil-append, cons-append, append_assoc}
use cross_chain_mid_ware.Base.Tests.{Bool-cases, ltb, leb}
use cross_chain_mid_ware.Base.Result.{Result, ok, err, value_error}
use cross_chain_mid_ware.Base.Text.{◌<>◌, len, zeros, prefix, suffix, char_or}
use cross_chain_mid_ware.Base.Text.Decimal.{len-append}
use cross_chain_mid_ware.Base.Text.Hex.{
  int16, read_digits, show_hex, hex_fuel, hex_chars, hex_value, read_hex,
}

hex_char-value : (d : ℕ) → d < 16 → hex_value (char_or hex_chars d "0") ≡ some d
unfolding char_or hex_value
hex_char-value zero h = refl
hex_char-value (suc zero) h = refl
hex_char-value (suc (suc zero)) h = refl
hex_char-value (suc (suc (suc zero))) h = refl
hex_char-value (suc (suc (suc (suc zero)))) h = refl
hex_char-value (suc (suc (suc (suc (suc zero))))) h = refl
hex_char-value (suc (suc (suc (suc (suc (suc zero)))))) h = refl
hex_char-value (suc (suc (suc (suc (suc (suc (suc zero))))))) h = refl
hex_char-value (suc (suc (suc (suc (suc (suc (suc (suc zero)))))))) h = refl
hex_char-value (suc (suc (suc (suc (suc (suc (suc (suc (suc zero))))))))) h = refl
hex_char-value (suc (suc (suc (suc (suc (suc (suc (suc (suc (suc zero)))))))))) h = refl
hex_char-value (suc (suc (suc (suc (suc (suc (suc (suc (suc (suc (suc zero))))))))))) h = refl
hex_char-value (suc (suc (suc (suc (suc (suc (suc (suc (suc (suc (suc (suc zero)))))))))))) h = refl
hex_char-value (suc (suc (suc (suc (suc (suc (suc (suc (suc (suc (suc (suc (suc zero)))))))))))))
      h =
    refl
hex_char-value
      (suc (suc (suc (suc (suc (suc (suc (suc (suc (suc (suc (suc (suc (suc zero)))))))))))))) h =
    refl
hex_char-value
      (suc (suc (suc (suc (suc (suc (suc (suc (suc (suc (suc (suc (suc (suc (suc zero)))))))))))))))
      h =
    refl
hex_char-value
      (suc
        (suc (suc (suc (suc (suc (suc (suc (suc (suc (suc (suc (suc (suc (suc (suc d))))))))))))))))
      h =
    absurd (omega arith)

read_hex-value :
    (acc : ℕ) (c : Char) (rest : String) (v : Option ℕ)
    → hex_value c ≡ v
    → read_hex acc (String.◌∷◌ c rest)
      ≡ elim v as (λ _. Result ℕ) [ none ↦ err value_error | some e ↦ read_hex (acc * 16 + e) rest ]
unfolding read_hex
read_hex-value acc c rest v h =
    ap
      (λ o. elim o as (λ _. Result ℕ) [
        | none ↦ err value_error
        | some e ↦ read_hex (acc * 16 + e) rest
      ])
      h

read_hex-digit :
    (acc d : ℕ) (rest : String)
    → d < 16
    → read_hex acc (String.◌∷◌ (char_or hex_chars d "0") rest) ≡ read_hex (acc * 16 + d) rest
unfolding read_hex
read_hex-digit acc d rest h =
    read_hex-value acc (char_or hex_chars d "0") rest (some d) (hex_char-value d h)

read_hex-hex_fuel :
    (f n : ℕ) (rest : String) → n < f → read_hex 0 (hex_fuel f n rest) ≡ read_hex n rest
unfolding hex_fuel
read_hex-hex_fuel zero n rest h = absurd (omega arith)
read_hex-hex_fuel (suc f) n rest h =
    let c = char_or hex_chars (n % 16) "0" in
    elim (Bool-cases (ltb n 16)) [
      | inl e ↦ rw e (
          read_hex-digit 0 (n % 16) rest (omega arith)
          ∙ ap (λ k. read_hex k rest) (ground (arith, e)))
      | inr e ↦ rw e (
          read_hex-hex_fuel f (n / 16) (String.◌∷◌ c rest) (ground (arith, e))
          ∙ read_hex-digit (n / 16) (n % 16) rest (omega arith)
          ∙ ap (λ k. read_hex k rest) (omega arith))
    ]

-- 16 ^ w, by the digits of `hex_fuel`.
unfoldable pub hex_limit : ℕ → ℕ
hex_limit zero = 1
hex_limit (suc w) = 16 * hex_limit w

len-hex_fuel :
    (f n w : ℕ) (rest : String)
    → n < f
    → n < hex_limit (suc w)
    → len (hex_fuel f n rest) ≤ suc w + len rest
unfolding hex_fuel hex_limit len
len-hex_fuel zero n w rest h l = absurd (omega arith)
len-hex_fuel (suc f) n zero rest h l = elim (Bool-cases (ltb n 16)) [
  | inl e ↦ rw e (omega arith)
  | inr e ↦ absurd (ground (arith, e))
]
len-hex_fuel (suc f) n (suc w) rest h l =
    let c = char_or hex_chars (n % 16) "0" in
    elim (Bool-cases (ltb n 16)) [
      | inl e ↦ rw e (omega arith)
      | inr e ↦ rw e (
          omega (
            arith,
            len-hex_fuel f (n / 16) w (String.◌∷◌ c rest) (ground (arith, e)) (omega arith),
          ))
    ]

pub read_hex-zeros : (k : ℕ) (t : String) → read_hex 0 (zeros k <> t) ≡ read_hex 0 t
unfolding zeros read_hex hex_value
read_hex-zeros zero t = rw nil-append refl
read_hex-zeros (suc k) t = rw (append_assoc, cons-append, nil-append) (read_hex-zeros k t)

pub len-zeros : (k : ℕ) → len (zeros k) ≡ k
unfolding zeros len
len-zeros zero = refl
len-zeros (suc k) = omega (arith, len-append "0" (zeros k), len-zeros k)

pub read_hex-show_hex : (n : ℕ) → read_hex 0 (show_hex n) ≡ ok n
unfolding show_hex read_hex
read_hex-show_hex n = read_hex-hex_fuel (suc n) n "" (omega arith)

pub len-show_hex : (n w : ℕ) → n < hex_limit (suc w) → len (show_hex n) ≤ suc w
unfolding show_hex len
len-show_hex n w h = omega (arith, len-hex_fuel (suc n) n w "" (omega arith) h)

-- The characters of `hex_value`, by their codes.
abbrev pub is_hex : Char → Bool
is_hex c =
    leb 48 (code c) && leb (code c) 57
    || leb 65 (code c) && leb (code c) 70
    || leb 97 (code c) && leb (code c) 102

hex_value-cases :
    (c : Char)
    → ((d : ℕ) × (hex_value c ≡ some d) × (d < 16) × (is_hex c ≡ true))
      ⊎ ((hex_value c ≡ none) × (is_hex c ≡ false))
unfolding hex_value
hex_value-cases c = elim (Bool-cases (leb 48 (code c) && leb (code c) 57)) [
  | inl e ↦ inl (code c - 48, rw e refl, ground (arith, e), ground (arith, e))
  | inr e ↦ elim (Bool-cases (leb 97 (code c) && leb (code c) 102)) [
    | inl k ↦ inl (code c - 87, rw (e, k) refl, ground (arith, k), ground (arith, k))
    | inr k ↦ elim (Bool-cases (leb 65 (code c) && leb (code c) 70)) [
      | inl l ↦ inl (code c - 55, rw (e, k, l) refl, ground (arith, l), ground (arith, l))
      | inr l ↦ inr (rw (e, k, l) refl, ground (arith, e, k, l))
    ]
  ]
]

pub read_hex-cases :
    (acc : ℕ) (c : Char) (rest : String)
    → ((d : ℕ) × (read_hex acc (String.◌∷◌ c rest) ≡ read_hex (acc * 16 + d) rest)
        × (d < 16)
        × (is_hex c ≡ true))
      ⊎ ((read_hex acc (String.◌∷◌ c rest) ≡ err value_error) × (is_hex c ≡ false))
unfolding read_hex
read_hex-cases acc c rest = elim (hex_value-cases c) [
  | inl (d, e, l, h) ↦ inl (d, read_hex-value acc c rest (some d) e, l, h)
  | inr (e, h) ↦ inr (read_hex-value acc c rest none e, h)
]

pub int16-prefixed :
    (s : String) → 0 < len s → int16 (String.◌∷◌ "0" (String.◌∷◌ "x" s)) ≡ read_hex 0 s
unfolding int16 read_digits prefix suffix len
int16-prefixed s h = elim (Bool-cases (str_eq s "")) [
  | inl e ↦
      let empty : s ≡ "" = ground (arith, e, eq_iff s "") in absurd (omega (arith, ap len empty))
  | inr e ↦ rw e refl
]

le-len-hex_fuel : (f n : ℕ) (rest : String) → len rest ≤ len (hex_fuel f n rest)
unfolding hex_fuel len
le-len-hex_fuel zero n rest = omega arith
le-len-hex_fuel (suc f) n rest =
    let more = le-len-hex_fuel f (n / 16) (String.◌∷◌ (char_or hex_chars (n % 16) "0") rest) in
    elim (Bool-cases (ltb n 16)) [ inl e ↦ rw e (omega arith) | inr e ↦ rw e (omega (arith, more)) ]

show_hex-pos : (n : ℕ) → 0 < len (show_hex n)
unfolding show_hex hex_fuel len
show_hex-pos n =
    let more = le-len-hex_fuel n (n / 16) (String.◌∷◌ (char_or hex_chars (n % 16) "0") "") in
    elim (Bool-cases (ltb n 16)) [ inl e ↦ rw e (omega arith) | inr e ↦ rw e (omega (arith, more)) ]

pub int16-show_hex : (n : ℕ) → int16 ("0x" <> show_hex n) ≡ ok n
int16-show_hex n =
    rw (cons-append, cons-append, nil-append)
      (int16-prefixed (show_hex n) (show_hex-pos n) ∙ read_hex-show_hex n)
