-- ===== src/Base/Text/Decimal/Point.antt =====
-- Texts with a point: how they are read, and how many digits a number has.
use Prim.Native.Nat.{ℕ, zero, suc, ◌+◌, ◌-◌, ◌*◌, ◌/◌, ◌%◌, ◌≤◌, ◌<◌}
use Prim.Native.Char.{code}
use Prim.Native.String.{String}
use mathlib.Core.Path.{◌≡◌, refl, ap, ◌∙◌}
use mathlib.Core.Option.{some}
use native.Mathlib.Omega.{arith}
use text.Mathlib.TextLemmas.{nil-append, cons-append}
use cross_chain_mid_ware.Base.Text.{show, show_fuel, char_or, digit_chars, len, zeros, ◌<>◌}
use cross_chain_mid_ware.Base.Text.Decimal.{
  read_units, read_whole, read_fraction, value, shift, IsDigits, value-append, value-zeros,
  len-append, append-IsDigits, shift-zero, read_fraction-value,
}

-- Below one coin.
pub read_units-point : (p : ℕ) (t : String) → read_units p ("0." <> t) ≡ read_fraction p 0 t
unfolding read_units read_whole
read_units-point p t = rw (cons-append, cons-append, nil-append) refl

pub read_whole-point :
    (p acc : ℕ) (t : String) → read_whole p acc ("." <> t) ≡ read_fraction p acc t
unfolding read_whole
read_whole-point p acc t = rw (cons-append, nil-append) refl

shift-plus : (k a b : ℕ) → shift k (a + b) ≡ shift k a + shift k b
unfolding shift
shift-plus zero a b = refl
shift-plus (suc k) a b =
    let e : (a + b) * 10 ≡ a * 10 + b * 10 = omega arith in
    ap (shift k) e ∙ shift-plus k (a * 10) (b * 10)

-- What stands in front of digits counts as often as there are digits.
value-shift : (acc : ℕ) (s : String) → value acc s ≡ shift (len s) acc + value 0 s
unfolding value shift len
value-shift acc String.[] = omega arith
value-shift acc (String.◌∷◌ c s) =
    let e : 0 * 10 + (code c - 48) ≡ code c - 48 = omega arith in
    omega (
      arith,
      value-shift (acc * 10 + (code c - 48)) s,
      shift-plus (len s) (acc * 10) (code c - 48),
      value-shift (code c - 48) s,
      ap (λ n. value n s) e,
    )

pub zeros-IsDigits : (k : ℕ) → IsDigits (zeros k)
unfolding zeros
zeros-IsDigits zero = tt
zeros-IsDigits (suc k) = append-IsDigits "0" (zeros k) (refl, tt) (zeros-IsDigits k)

pub len-zeros : (k : ℕ) → len (zeros k) ≡ k
unfolding zeros len
len-zeros zero = refl
len-zeros (suc k) = omega (arith, len-append "0" (zeros k), len-zeros k)

pub value-zeros_append : (k : ℕ) (s : String) → value 0 (zeros k <> s) ≡ value 0 s
value-zeros_append k s =
    value-append 0 (zeros k) s ∙ ap (λ a. value a s) (value-zeros k 0 ∙ shift-zero k)

-- A whole number in front of the digits of a full fraction.
pub read_fraction-full :
    (p acc : ℕ) (s : String)
    → IsDigits s
    → len s ≡ p
    → read_fraction p acc s ≡ some (shift p acc + value 0 s)
unfolding shift
read_fraction-full p acc s d e =
    read_fraction-value s p 0 acc d (omega (arith, e))
    ∙ ap some (value-shift acc s ∙ ap (λ n. shift n acc + value 0 s) e)

-- Ten, k times.
abbrev pub tens : ℕ → ℕ
tens zero = 1
tens (suc k) = 10 * tens k

len-show_fuel :
    (f n k : ℕ) (rest : String)
    → n < f
    → n < tens (suc k)
    → len (show_fuel f n rest) ≤ suc k + len rest
unfolding show_fuel len
len-show_fuel zero n k rest h l = absurd (omega arith)
len-show_fuel (suc f) n zero rest h l = ground (arith, l)
len-show_fuel (suc f) n (suc k) rest h l =
    let text = String.◌∷◌ (char_or digit_chars (n % 10) "0") rest in
    let more : n / 10 < f → len (show_fuel f (n / 10) text) ≤ suc k + suc (len rest) =
      λ b. len-show_fuel f (n / 10) k text b (omega (arith, l)) in
    ground (arith, h, more)

pub len-show : (n k : ℕ) → n < tens (suc k) → len (show n) ≤ suc k
unfolding show len
len-show n k l = omega (arith, len-show_fuel (suc n) n k "" (omega arith) l)
