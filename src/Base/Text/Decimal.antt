-- ===== src/Base/Text/Decimal.antt =====
-- Amounts read back from their texts: the number of units that a decimal notation stands for, when
-- a coin has 10 ^ p units. The lemmas are about texts of digits.
pub mod Point
use Prim.Native.Nat.{ℕ, zero, suc, ◌+◌, ◌-◌, ◌*◌, ◌/◌, ◌%◌, ◌<◌}
use Prim.Native.Char.{Char, code}
use Prim.Native.String.{String}
use mathlib.Core.Path.{◌≡◌, refl, sym, ap, ◌∙◌}
use mathlib.Core.Bool.{Bool, true, ◌&&◌}
use mathlib.Core.Logic.{◌⊎◌, inl, inr}
use mathlib.Core.Option.{Option, none, some}
use native.Mathlib.Omega.{arith}
use text.Mathlib.TextEquality.{eq_iff}
use text.Mathlib.TextLemmas.{nil-append, cons-append, append_assoc}
use cross_chain_mid_ware.Base.Tests.{Bool-cases, ltb, leb, ◌==◌, if◌then◌else◌}
use cross_chain_mid_ware.Base.Text.{
  show, show_fuel, char_or, digit_chars, len, zeros, prefix, suffix, rstrip_zeros, strip_zero, ◌<>◌,
}

abbrev pub is_digit : Char → Bool
is_digit c = leb 48 (code c) && leb (code c) 57

-- `acc` with `k` more zeros behind it.
unfoldable pub shift : ℕ → ℕ → ℕ
shift zero acc = acc
shift (suc k) acc = shift k (acc * 10)

-- The digits behind the point, at most `k`; those that are not written are zeros.
unfoldable pub read_fraction : ℕ → ℕ → String → Option ℕ
read_fraction k acc String.[] = some (shift k acc)
read_fraction zero acc (String.◌∷◌ c s) = none
read_fraction (suc k) acc (String.◌∷◌ c s) =
    let rest = read_fraction k (acc * 10 + (code c - 48)) s in if is_digit c then rest else none

unfoldable pub read_whole : ℕ → ℕ → String → Option ℕ
read_whole p acc String.[] = some (shift p acc)
read_whole p acc (String.◌∷◌ c s) =
    let rest = read_whole p (acc * 10 + (code c - 48)) s in
    if code c == 46 then read_fraction p acc s else if is_digit c then rest else none

-- The number of units; none for a text that is no number, or has more than `p` decimals.
unfoldable pub read_units : ℕ → String → Option ℕ
unfolding read_whole read_fraction shift
read_units p s = read_whole p 0 s

reads : read_units 3 "12.5" ≡ some 12500
unfolding read_units
reads = refl

-- The value of a text of digits, behind `acc`.
unfoldable pub value : ℕ → String → ℕ
value acc String.[] = acc
value acc (String.◌∷◌ c s) = value (acc * 10 + (code c - 48)) s

abbrev pub IsDigits : String → Type 0
IsDigits String.[] = Unit
IsDigits (String.◌∷◌ c s) = (is_digit c ≡ true) × IsDigits s

pub ruleset text_laws = (nil-append, cons-append)

pub value-append : (acc : ℕ) (s t : String) → value acc (s <> t) ≡ value (value acc s) t
unfolding value
value-append acc String.[] t = simp text_laws
value-append acc (String.◌∷◌ c s) t = simp (text_laws, value-append (acc * 10 + (code c - 48)) s t)

pub append-IsDigits : (s t : String) → IsDigits s → IsDigits t → IsDigits (s <> t)
append-IsDigits String.[] t hs ht = rw nil-append ht
append-IsDigits (String.◌∷◌ c s) t hs ht = rw cons-append (hs.0, append-IsDigits s t hs.1 ht)

pub len-append : (s t : String) → len (s <> t) ≡ len s + len t
unfolding len
len-append String.[] t = omega (arith, ap len (nil-append t))
len-append (String.◌∷◌ c s) t = omega (arith, len-append s t, ap len (cons-append c s t))

pub value-zeros : (k acc : ℕ) → value acc (zeros k) ≡ shift k acc
unfolding value shift zeros
value-zeros zero acc = refl
value-zeros (suc k) acc =
    rw (cons-append, nil-append)
      (ap (λ a. value a (zeros k)) (omega arith) ∙ value-zeros k (acc * 10))

pub read_fraction-value :
    (s : String) (k j acc : ℕ)
    → IsDigits s
    → k ≡ len s + j
    → read_fraction k acc s ≡ some (shift j (value acc s))
unfolding read_fraction value len
read_fraction-value String.[] k j acc d e = ap (λ i. some (shift i acc)) (omega arith)
read_fraction-value (String.◌∷◌ c s) zero j acc d e = absurd (omega arith)
read_fraction-value (String.◌∷◌ c s) (suc k) j acc d e =
    simp (d.0, read_fraction-value s k j _ d.1 (omega arith))

pub read_whole-digits :
    (p acc : ℕ) (s t : String)
    → IsDigits s
    → read_whole p acc (s <> t) ≡ read_whole p (value acc s) t
unfolding read_whole value
read_whole-digits p acc String.[] t d = simp text_laws
read_whole-digits p acc (String.◌∷◌ c s) t d =
    rw cons-append (ground (arith, d.0, read_whole-digits p (acc * 10 + (code c - 48)) s t d.1))

digit_char-IsDigit :
    (d : ℕ)
    → d < 10
    → (is_digit (char_or digit_chars d "0") ≡ true) × (code (char_or digit_chars d "0") ≡ 48 + d)
unfolding char_or
digit_char-IsDigit zero h = (refl, refl)
digit_char-IsDigit (suc zero) h = (refl, refl)
digit_char-IsDigit (suc (suc zero)) h = (refl, refl)
digit_char-IsDigit (suc (suc (suc zero))) h = (refl, refl)
digit_char-IsDigit (suc (suc (suc (suc zero)))) h = (refl, refl)
digit_char-IsDigit (suc (suc (suc (suc (suc zero))))) h = (refl, refl)
digit_char-IsDigit (suc (suc (suc (suc (suc (suc zero)))))) h = (refl, refl)
digit_char-IsDigit (suc (suc (suc (suc (suc (suc (suc zero))))))) h = (refl, refl)
digit_char-IsDigit (suc (suc (suc (suc (suc (suc (suc (suc zero)))))))) h = (refl, refl)
digit_char-IsDigit (suc (suc (suc (suc (suc (suc (suc (suc (suc zero))))))))) h = (refl, refl)
digit_char-IsDigit (suc (suc (suc (suc (suc (suc (suc (suc (suc (suc d)))))))))) h =
    absurd (omega arith)

value-show_fuel : (f n : ℕ) (rest : String) → n < f → value 0 (show_fuel f n rest) ≡ value n rest
unfolding show_fuel value
value-show_fuel zero n rest h = absurd (omega arith)
value-show_fuel (suc f) n rest h =
    let c = char_or digit_chars (n % 10) "0" in
    let v : value 0 (String.◌∷◌ c rest) ≡ value (n % 10) rest =
      ap (λ d. value d rest) (omega (arith, (digit_char-IsDigit (n % 10) (omega arith)).1)) in
    let w : value (n / 10) (String.◌∷◌ c rest) ≡ value n rest =
      ap (λ d. value d rest) (omega (arith, (digit_char-IsDigit (n % 10) (omega arith)).1)) in
    let below : n < 10 → value (n % 10) rest ≡ value n rest =
      λ l. ap (λ d. value d rest) (omega arith) in
    ground (arith, v, w, below, value-show_fuel f (n / 10) (String.◌∷◌ c rest))

show_fuel-IsDigits : (f n : ℕ) (rest : String) → IsDigits rest → IsDigits (show_fuel f n rest)
unfolding show_fuel
show_fuel-IsDigits zero n rest h = h
show_fuel-IsDigits (suc f) n rest h =
    let d = (digit_char-IsDigit (n % 10) (omega arith)).0 in
    elim (Bool-cases (ltb n 10)) [
      | inl e ↦ rw e (d, h)
      | inr e ↦ rw e (show_fuel-IsDigits f (n / 10) _ (d, h))
    ]

pub show-IsDigits : (n : ℕ) → IsDigits (show n)
unfolding show
show-IsDigits n = show_fuel-IsDigits (suc n) n "" tt

pub value-show : (n : ℕ) → value 0 (show n) ≡ n
unfolding show value
value-show n = value-show_fuel (suc n) n "" (omega arith)

shift-add : (i j acc : ℕ) → shift (i + j) acc ≡ shift j (shift i acc)
unfolding shift
shift-add zero j acc = let e : 0 + j ≡ j = omega arith in ap (λ k. shift k acc) e
shift-add (suc i) j acc =
    let e : suc i + j ≡ suc (i + j) = omega arith in
    ap (λ k. shift k acc) e ∙ shift-add i j (acc * 10)

pub shift-zero : (k : ℕ) → shift k 0 ≡ 0
unfolding shift
shift-zero zero = refl
shift-zero (suc k) = shift-zero k

strip_zero-cases :
    (c : Char) (rest : String)
    → ((code c ≡ 48) × (rest ≡ "") × (strip_zero c rest ≡ ""))
      ⊎ (strip_zero c rest ≡ String.◌∷◌ c rest)
unfolding strip_zero
strip_zero-cases c rest = ground (arith, eq_iff rest "")

-- What `rstrip` takes off is a number of zeros.
rstrip_zeros-value :
    (s : String) (acc : ℕ)
    → IsDigits s
    → (j : ℕ) × (len s ≡ len (rstrip_zeros s) + j)
      × (value acc s ≡ shift j (value acc (rstrip_zeros s)))
      × IsDigits (rstrip_zeros s)
unfolding rstrip_zeros len value shift
rstrip_zeros-value String.[] acc d = (0, refl, refl, tt)
rstrip_zeros-value (String.◌∷◌ c s) acc d =
    let (j, l, v, e) = rstrip_zeros-value s (acc * 10 + (code c - 48)) d.1 in
    elim (strip_zero-cases c (rstrip_zeros s)) [
      | inl (z, n, w) ↦
          let here = acc * 10 + (code c - 48) in
          let e' : here ≡ acc * 10 = omega (arith, z) in
          (
            suc j,
            omega (arith, l, ap len w, ap len n),
            rw w (v ∙ ap (λ r. shift j (value here r)) n ∙ ap (shift j) e'),
            rw w tt,
          )
      | inr w ↦ (j, omega (arith, l, ap len w), rw w v, rw w (d.0, e))
    ]

-- The digits behind the point read back without the zeros at their end.
pub read_fraction-rstrip :
    (s : String) (k m acc : ℕ)
    → IsDigits s
    → k ≡ len s + m
    → read_fraction k acc (rstrip_zeros s) ≡ some (shift m (value acc s))
read_fraction-rstrip s k m acc d e =
    let (j, l, v, r) = rstrip_zeros-value s acc d in
    read_fraction-value (rstrip_zeros s) k (j + m) acc r (omega arith)
    ∙ ap some (shift-add j m _ ∙ ap (shift m) (sym v))

pub read_fraction-zeros :
    (d k m : ℕ) (t : String) → m ≡ d + k → read_fraction m 0 (zeros d <> t) ≡ read_fraction k 0 t
unfolding read_fraction zeros
read_fraction-zeros zero k m t e =
    let e' : m ≡ k = omega arith in rw nil-append (ap (λ i. read_fraction i 0 t) e')
read_fraction-zeros (suc d) k zero t e = absurd (omega arith)
read_fraction-zeros (suc d) k (suc m) t e =
    rw (append_assoc, cons-append, nil-append) (read_fraction-zeros d k m t (omega arith))

pub prefix-suffix : (n : ℕ) (s : String) → prefix n s <> suffix n s ≡ s
unfolding prefix suffix
prefix-suffix zero s = nil-append s
prefix-suffix (suc n) String.[] = refl
prefix-suffix (suc n) (String.◌∷◌ c s) =
    cons-append c _ _ ∙ ap (λ t. String.◌∷◌ c t) (prefix-suffix n s)

pub len-suffix : (n : ℕ) (s : String) → len (suffix n s) ≡ len s - n
unfolding suffix len
len-suffix zero s = omega arith
len-suffix (suc n) String.[] = omega arith
len-suffix (suc n) (String.◌∷◌ c s) = omega (arith, len-suffix n s)

pub split-IsDigits :
    (n : ℕ) (s : String) → IsDigits s → IsDigits (prefix n s) × IsDigits (suffix n s)
unfolding prefix suffix
split-IsDigits zero s d = (tt, d)
split-IsDigits (suc n) String.[] d = (tt, tt)
split-IsDigits (suc n) (String.◌∷◌ c s) d = let (p, q) = split-IsDigits n s d.1 in ((d.0, p), q)
